-- ===== src/Poll/Count.antt =====
-- `polling` counts the polls that a computer holds open.
pub mod Pointers
use stem_computing_desktop_p.Prelude.{
  ℕ, zero, suc, ◌+◌, ◌-◌, ◌≤◌, ◌<◌, ◌≡◌, refl, ◌∙◌, Bool, true, false, not, ◌&&◌, ◌||◌, Option,
  none, some, List, [], ◌∷◌, ◌++◌, ap, arith, count, get_elem?, set, length, if◌then◌else◌, ◌==◌,
  Option-cases, Bool-cases, inl, inr, is_empty,
}
use stem_computing_desktop_p.Text.{Text, clean_text}
use stem_computing_desktop_p.Platform.{Platform}
use stem_computing_desktop_p.Model.{Time, ClientInfo, Store}
use stem_computing_desktop_p.Delivery.{
  ClientHello, client_id_for, new_client, checked_in, find_client, touch_client,
}
use stem_computing_desktop_p.Delivery.Report.{apply_events}
use stem_computing_desktop_p.Delivery.Pending.{pending_for, pending_loop}
use stem_computing_desktop_p.Dict.{lookup}
use stem_computing_desktop_p.Auth.Guard.{check_client_key}
use stem_computing_desktop_p.App.{App, World, Request, with_store}
use stem_computing_desktop_p.Poll.{
  Started, PollRequest, Held, held, turned_away, modify_client, begin_hold, end_hold, tidy_hello,
  open_poll, remote_ip, start_poll, take_channel, look, finish_poll, id_at,
}
use stem_computing_desktop_p.Poll.Count.Pointers.{
  polling_at, polling_at-some, Touched, touch_client-Touched, modify_client-begin,
  modify_client-end,
}

-- The polls that are held once an attempt to start one is over.
abbrev pub joined : Started → List Held → List Held
joined (turned_away status code) ks = ks
joined (held k) ks = k ∷ ks

-- How many of the held polls wait for the computer at a pointer.
abbrev pub held_at : ℕ → List Held → ℕ
held_at q ks = count (λ k. k.pointer == q) ks

pub held_at-remove :
    (q : ℕ) (xs : List Held) (k : Held) (ys : List Held)
    → held_at q (xs ++ k ∷ ys)
      ≡ (if k.pointer == q then suc (held_at q (xs ++ ys)) else held_at q (xs ++ ys))
held_at-remove q [] k ys = ground arith
held_at-remove q (x ∷ xs) k ys = grind (arith, held_at-remove q xs k ys)

open_poll-counts :
    (e : Platform) (w : World) (ip : Text) (req : PollRequest) (h : ClientHello) (a : App) (q : ℕ)
    → let r = open_poll e w ip req h a in
      polling_at r.0.store.heap q
      ≡ (if r.1.pointer == q then suc (polling_at a.store.heap q) else polling_at a.store.heap q)
unfolding open_poll apply_events
open_poll-counts e w ip req h a q =
    let t = touch_client-Touched e h ip w.now a.store in
    let r = touch_client e h ip w.now a.store in
    modify_client-begin r.1 q r.0 t.there.0 t.there.1
    ∙ ap (λ n. if r.1 == q then suc n else n) (t.counts q)

-- Polls that start, look again and end, among requests that write no computer.
pub data Step : App × List Held → App × List Held → Type 0 where
  begins :
      (e : Platform) (w : World) (r : Request) (req : Option PollRequest) {a : App} {ks : List Held}
      → Step (a, ks) ((start_poll e w r req a).0, joined (start_poll e w r req a).1 ks)
  looks :
      (e : Platform) (now : Time) (xs : List Held) (k : Held) (ys : List Held) {a : App}
      → Step (a, xs ++ k ∷ ys) ((look e now k a).0, xs ++ take_channel k a ∷ ys)
  ends :
      (now : Time) (xs : List Held) (k : Held) (ys : List Held) {a : App}
      → Step (a, xs ++ k ∷ ys) (finish_poll now k a, xs ++ ys)
  others : {a b : App} {ks : List Held} → b.store.heap ≡ a.store.heap → Step (a, ks) (b, ks)

-- What the steps lead to from a server that holds no poll.
pub data Reach : App × List Held → Type 0 where
  initial : {a : App} → ((q : ℕ) → polling_at a.store.heap q ≡ 0) → Reach (a, [])
  next : {x y : App × List Held} → Reach x → Step x y → Reach y

-- At each pointer the count is the number of polls held for it.
abbrev pub Counted : App × List Held → Type 0
Counted (a, ks) = (q : ℕ) → polling_at a.store.heap q ≡ held_at q ks

joined-count :
    (k : Held) (ks : List Held) (q : ℕ) {n : ℕ}
    → n ≡ held_at q ks
    → (if k.pointer == q then suc n else n) ≡ held_at q (k ∷ ks)
joined-count k ks q h = grind arith

start_poll-Counted :
    (e : Platform) (w : World) (r : Request) (req : Option PollRequest) (a : App) (ks : List Held)
    → Counted (a, ks)
    → Counted ((start_poll e w r req a).0, joined (start_poll e w r req a).1 ks)
unfolding start_poll
start_poll-Counted e w r none a ks h q = elim (Bool-cases (check_client_key r a.store)) [
  | inl t ↦ rw (t) (h q)
  | inr f ↦ rw (f) (h q)
]
start_poll-Counted e w r (some req) a ks h q =
    let hello = tidy_hello req.client in
    elim (Bool-cases (check_client_key r a.store)) [
      | inl c ↦ elim (Bool-cases (is_empty hello.hostname || is_empty hello.user)) [
        | inl m ↦ rw (c, m, start_poll) (h q)
        | inr m ↦
            rw (c, m, start_poll)
              (open_poll-counts e w (remote_ip e a.cfg r) req hello a q
                ∙ joined-count (open_poll e w (remote_ip e a.cfg r) req hello a).1 ks q (h q))
      ]
      | inr c ↦ rw (c, start_poll) (h q)
    ]

look-heap :
    (e : Platform) (now : Time) (k : Held) (a : App) → (look e now k a).0.store.heap ≡ a.store.heap
unfolding look pending_for
look-heap e now k a = elim (Option-cases (get_elem? a.store.heap k.pointer)) [
  | inl n ↦ rw (n, look) refl
  | inr (c, f) ↦ rw (f, look) refl
]

Step-Counted : {x y : App × List Held} → Step x y → Counted x → Counted y
unfolding finish_poll
Step-Counted (begins e w r req {a} {ks}) h = start_poll-Counted e w r req a ks h
Step-Counted (looks e now xs k ys {a}) h = λ q.
    rw (look-heap e now k a, held_at-remove q xs (take_channel k a) ys)
      (h q ∙ held_at-remove q xs k ys)
Step-Counted (ends now xs k ys {a}) h =
    λ q. grind (arith, modify_client-end now k.pointer q a.store, h q, held_at-remove q xs k ys)
Step-Counted (others same) h = λ q. rw (same) (h q)

-- However polls start, look and end, `polling` at each pointer is the number of polls that are held
-- for it, from a server that holds none, when the other steps write no computer.
pub Reach-polling :
    {x : App × List Held} → Reach x → (q : ℕ) → polling_at x.0.store.heap q ≡ held_at q x.1
Reach-polling (initial none_held) q = none_held q
Reach-polling (next r st) q = Step-Counted st (Reach-polling r) q
