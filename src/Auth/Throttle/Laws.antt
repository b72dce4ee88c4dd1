-- ===== src/Auth/Throttle/Laws.antt =====
-- Five failures lock a key for five minutes, four do not, and no failure ends a lock early.
use stem_computing_desktop_p.Prelude.{
  ℕ, ◌+◌, ◌-◌, ◌*◌, ◌≤◌, ◌<◌, ◌≡◌, refl, Option, none, some, List, [], ◌∷◌, arith, ltb, false,
  Option-cases, inl, inr, Bool-cases, length,
}
use stem_computing_desktop_p.Text.{Text, text_eq}
use stem_computing_desktop_p.Text.Equality.{text_eq_iff}
use stem_computing_desktop_p.Dict
use stem_computing_desktop_p.Dict.{Dict}
use stem_computing_desktop_p.Model.{Time, minute, elapsed}
use stem_computing_desktop_p.Auth.Throttle.{
  Attempts, Throttle, blocked, window, count_failure, sweep, fail,
}

-- A run of failed sign-ins under one key, at the given times.
abbrev pub fail_all : Text → List Time → Throttle → Throttle
fail_all key [] t = t
fail_all key (now ∷ times) t = fail_all key times (fail key now t)

-- The times lie within ten minutes of the first failure.
abbrev pub Within : Time → List Time → Type 0
Within first [] = Unit {0}
Within first (now ∷ times) = (first ≤ now) × (now ≤ first + 10 * minute) × Within first times

lookup-fail :
    (key : Text) (now : Time) (t : Throttle)
    → Dict.lookup key (fail key now t)
      ≡ some (count_failure (window (Dict.lookup key (sweep now t)) now) now)
unfolding fail
lookup-fail key now t = Dict.lookup-insert_self key _ (sweep now t)

lookup-sweep :
    (key : Text) (now : Time) (t : Throttle) (a : Attempts)
    → Dict.lookup key t ≡ some a
    → elapsed now a.first ≤ 30 * minute
    → Dict.lookup key (sweep now t) ≡ some a
unfolding sweep
lookup-sweep key now t a e h = ground (
  arith,
  e,
  Dict.lookup-delete_if_kept (λ (a : Attempts). ltb (30 * minute) (elapsed now a.first)) key t a e,
)

pub lookup-fail_recent :
    (key : Text) (now : Time) (t : Throttle) (a : Attempts)
    → Dict.lookup key t ≡ some a
    → now ≤ a.first + 10 * minute
    → Dict.lookup key (fail key now t) ≡ some (count_failure a now)
unfolding window
lookup-fail_recent key now t a e h =
    ground (arith, lookup-fail key now t, lookup-sweep key now t a e)

-- A failure under another key leaves an entry of the last ten minutes alone.
pub lookup-fail_other :
    (key j : Text) (now : Time) (t : Throttle) (a : Attempts)
    → text_eq key j ≡ false
    → Dict.lookup j t ≡ some a
    → now ≤ a.first + 10 * minute
    → Dict.lookup j (fail key now t) ≡ some a
unfolding fail
lookup-fail_other key j now t a n e h =
    let swept = sweep now t in
    ground (
      arith,
      n,
      lookup-sweep j now t a e,
      Dict.lookup-insert key j (count_failure (window (Dict.lookup key swept) now) now) swept,
    )

lookup-fail_all :
    (key : Text) (times : List Time) (t : Throttle) (a : Attempts)
    → Dict.lookup key t ≡ some a
    → Within a.first times
    → a.fails + length times < 5
    → Dict.lookup key (fail_all key times t) ≡ some (record a { fails = a.fails + length times })
unfolding count_failure
lookup-fail_all key [] t a e w h = ground (arith, e)
lookup-fail_all key (now ∷ times) t a e w h =
    let a' : Attempts = record a { fails = a.fails + 1 } in
    ground (arith, lookup-fail_recent key now t a e, lookup-fail_all key times (fail key now t) a')

lookup-sweep-none :
    (key : Text) (now : Time) (t : Throttle)
    → Dict.lookup key t ≡ none
    → Dict.lookup key (sweep now t) ≡ none
unfolding sweep
lookup-sweep-none key now t e = ground (
  arith,
  Dict.lookup-delete_if-none (λ (a : Attempts). ltb (30 * minute) (elapsed now a.first)) key t e,
)

pub lookup-fail_first :
    (key : Text) (first : Time) (t : Throttle)
    → Dict.lookup key t ≡ none
    → Dict.lookup key (fail key first t)
      ≡ some (record { fails = 1; first = first; locked_until = 0 })
unfolding window count_failure
lookup-fail_first key first t e =
    ground (arith, lookup-fail key first t, lookup-sweep-none key first t e)

-- Up to four failures within ten minutes, of a key with none on record, block nobody.
pub blocked_below_five :
    (key : Text) (first later : Time) (times : List Time) (t : Throttle)
    → Dict.lookup key t ≡ none
    → Within first times
    → length times < 4
    → blocked key later (fail_all key (first ∷ times) t) ≡ 0
unfolding blocked
blocked_below_five key first later times t e w h =
    let a : Attempts = record { fails = 1; first = first; locked_until = 0 } in
    ground (
      arith,
      lookup-fail_all key times (fail key first t) a (lookup-fail_first key first t e) w
          (omega arith),
    )

-- The fifth failure within ten minutes blocks the key for the five minutes that follow it.
pub blocked_after_five :
    (key : Text) (first last later : Time) (times : List Time) (t : Throttle)
    → Dict.lookup key t ≡ none
    → Within first times
    → length times ≡ 3
    → first ≤ last
    → last ≤ first + 10 * minute
    → blocked key later (fail key last (fail_all key (first ∷ times) t)) ≡ last + 5 * minute - later
unfolding blocked count_failure
blocked_after_five key first last later times t e w h l r =
    let a : Attempts = record { fails = 1; first = first; locked_until = 0 } in
    let t4 = fail_all key (first ∷ times) t in
    let e4 =
      lookup-fail_all key times (fail key first t) a (lookup-fail_first key first t e) w
        (omega arith) in
    ground (arith, lookup-fail_recent key last t4 (record a { fails = a.fails + length times }) e4)

-- A lock never lasts longer than five minutes from the start of its window, which is not ahead.
abbrev pub IsTimely : Time → Attempts → Type 0
IsTimely now a = (a.locked_until ≤ a.first + 5 * minute) × (a.first ≤ now)

abbrev pub AllTimely : Time → Throttle → Type 0
AllTimely now t = Dict.All (IsTimely now) t

sweep-AllTimely : (now : Time) (t : Throttle) → AllTimely now t → AllTimely now (sweep now t)
unfolding sweep
sweep-AllTimely now t h = elim (Bool-cases (ltb 5000 (length t))) [
  | inl e ↦ rw (e, sweep) (Dict.All-delete_if (IsTimely now) _ t h)
  | inr e ↦ rw (e, sweep) h
]

window-IsTimely :
    (now : Time) (o : Option Attempts)
    → ((a : Attempts) → o ≡ some a → IsTimely now a)
    → IsTimely now (count_failure (window o now) now)
unfolding window count_failure
window-IsTimely now none h = ground arith
window-IsTimely now (some a) h = ground (arith, h a refl)

-- `fail` keeps the entries timely.
pub fail-AllTimely :
    (key : Text) (now : Time) (t : Throttle) → AllTimely now t → AllTimely now (fail key now t)
unfolding fail
fail-AllTimely key now t h =
    let s = sweep-AllTimely now t h in
    Dict.All-insert (IsTimely now) key _ (sweep now t) s (
      window-IsTimely now (Dict.lookup key (sweep now t))
        (λ a e. Dict.All-lookup (IsTimely now) key (sweep now t) s e))

blocked-sweep-ge :
    (j : Text) (now later : Time) (t : Throttle)
    → AllTimely now t
    → now ≤ later
    → blocked j later t ≤ blocked j later (sweep now t)
unfolding blocked
blocked-sweep-ge j now later t h l = elim (Option-cases (Dict.lookup j t)) [
  | inl n ↦ ground (arith, n)
  | inr (a, e) ↦
      let timely = Dict.All-lookup (IsTimely now) j t h e in
      ground (arith, e, lookup-sweep j now t a e)
]

-- The wait that an entry stands for.
abbrev wait : Option Attempts → Time → ℕ
wait none later = 0
wait (some a) later = a.locked_until - later

wait-count_failure-ge :
    (now later : Time) (o : Option Attempts)
    → ((a : Attempts) → o ≡ some a → IsTimely now a)
    → now ≤ later
    → wait o later ≤ (count_failure (window o now) now).locked_until - later
unfolding window count_failure
wait-count_failure-ge now later none h l = omega arith
wait-count_failure-ge now later (some a) h l = ground (arith, h a refl)

-- A failure under any key, with the sweep that it may make, ends no lock early: whoever is blocked
-- at a later time without it is blocked as long with it, where no lock runs past five minutes from
-- the start of its window.
pub blocked-fail-ge :
    (key j : Text) (now later : Time) (t : Throttle)
    → AllTimely now t
    → now ≤ later
    → blocked j later t ≤ blocked j later (fail key now t)
unfolding blocked fail
blocked-fail-ge key j now later t h l =
    let swept = sweep now t in
    let timely = sweep-AllTimely now t h in
    let o = Dict.lookup key swept in
    ground (
      arith,
      blocked-sweep-ge j now later t h l,
      Dict.lookup-insert key j (count_failure (window o now) now) swept,
      text_eq_iff key j,
      wait-count_failure-ge now later o (λ a e. Dict.All-lookup (IsTimely now) key swept timely e)
          l,
    )
