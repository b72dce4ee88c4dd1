-- ===== src/Auth/Throttle.antt =====
-- The throttle on sign-ins of server/auth.go.
pub mod Laws
use stem_computing_desktop_p.Prelude.{
  ℕ, ◌+◌, ◌-◌, ◌*◌, Bool, ◌||◌, Option, none, some, ltb, leb, if◌then◌else◌, length,
}
use stem_computing_desktop_p.Text.{Text}
use stem_computing_desktop_p.Dict
use stem_computing_desktop_p.Dict.{Dict}
use stem_computing_desktop_p.Model.{Time, minute, elapsed}

-- attempts
pub record Attempts : Type 0 where
  pub fails : ℕ
  pub first : Time
  pub locked_until : Time

abbrev pub Throttle : Type 0
Throttle = Dict Attempts

-- blocked: how long the caller must wait, or zero; `time.Until` of a time that is past is negative
unfoldable pub blocked : Text → Time → Throttle → ℕ
blocked key now t = elim (Dict.lookup key t) [ none ↦ 0 | some a ↦ a.locked_until - now ]

-- The attempts that the next failure counts with.
unfoldable pub window : Option Attempts → Time → Attempts
window none now = record { fails = 0; first = now; locked_until = 0 }
window (some a) now =
    if ltb (10 * minute) (elapsed now a.first)
    then record { fails = 0; first = now; locked_until = 0 }
    else a

-- One more failure; the fifth locks.
unfoldable pub count_failure : Attempts → Time → Attempts
count_failure a now =
    if leb 5 (a.fails + 1)
    then record { fails = 0; first = now; locked_until = now + 5 * minute }
    else record a { fails = a.fails + 1 }

-- the sweep over old entries, where there are more than 5000
unfoldable pub sweep : Time → Throttle → Throttle
sweep now t =
    if ltb 5000 (length t)
    then Dict.delete_if (λ (a : Attempts). ltb (30 * minute) (elapsed now a.first)) t
    else t

-- fail
unfoldable pub fail : Text → Time → Throttle → Throttle
unfolding window count_failure sweep
fail key now t =
    let swept = sweep now t in
    Dict.insert key (count_failure (window (Dict.lookup key swept) now) now) swept

-- reset
unfoldable pub reset : Text → Throttle → Throttle
reset key t = Dict.delete key t
