-- ===== src/Poll/Count/Pointers.antt =====
-- `polling` at each pointer, through the writes of `touchClient` and `handlePoll`.
use stem_computing_desktop_p.Prelude.{
  ℕ, zero, suc, ◌-◌, ◌≡◌, refl, none, some, List, [], ◌∷◌, ◌++◌, arith, get_elem?, set, length,
  if◌then◌else◌, ◌==◌, Option-cases, inl, inr,
}
use stem_computing_desktop_p.Text.{Text, clean_text}
use stem_computing_desktop_p.Platform.{Platform}
use stem_computing_desktop_p.Model.{Time, ClientInfo, Store}
use stem_computing_desktop_p.Delivery.{
  ClientHello, client_id_for, new_client, checked_in, find_client, touch_client,
}
use stem_computing_desktop_p.Poll.{modify_client, begin_hold, end_hold}

-- The count at a pointer; there is none beyond the heap.
abbrev pub polling_at : List ClientInfo → ℕ → ℕ
polling_at [] p = 0
polling_at (c ∷ heap) zero = c.polling
polling_at (c ∷ heap) (suc p) = polling_at heap p

pub polling_at-some :
    (heap : List ClientInfo) (p : ℕ) (c : ClientInfo)
    → get_elem? heap p ≡ some c
    → polling_at heap p ≡ c.polling
polling_at-some [] p c h = cc
polling_at-some (d ∷ heap) zero c h = ground arith
polling_at-some (d ∷ heap) (suc p) c h = polling_at-some heap p c h

polling_at-set :
    (heap : List ClientInfo) (p q : ℕ) (c d : ClientInfo)
    → get_elem? heap p ≡ some c
    → polling_at (set heap p d) q ≡ (if p == q then d.polling else polling_at heap q)
polling_at-set [] p q c d h = cc
polling_at-set (x ∷ heap) zero zero c d h = refl
polling_at-set (x ∷ heap) zero (suc q) c d h = ground arith
polling_at-set (x ∷ heap) (suc p) zero c d h = ground arith
polling_at-set (x ∷ heap) (suc p) (suc q) c d h = ground (arith, polling_at-set heap p q c d h)

polling_at-snoc :
    (heap : List ClientInfo) (d : ClientInfo) (q : ℕ)
    → d.polling ≡ 0
    → polling_at (heap ++ d ∷ []) q ≡ polling_at heap q
polling_at-snoc [] d zero h = h
polling_at-snoc [] d (suc q) h = refl
polling_at-snoc (x ∷ heap) d zero h = refl
polling_at-snoc (x ∷ heap) d (suc q) h = polling_at-snoc heap d q h

get_elem?-set :
    (heap : List ClientInfo) (p : ℕ) (c d : ClientInfo)
    → get_elem? heap p ≡ some c
    → get_elem? (set heap p d) p ≡ some d
get_elem?-set [] p c d h = cc
get_elem?-set (x ∷ heap) zero c d h = refl
get_elem?-set (x ∷ heap) (suc p) c d h = get_elem?-set heap p c d h

get_elem?-last :
    (heap : List ClientInfo) (d : ClientInfo) → get_elem? (heap ++ d ∷ []) (length heap) ≡ some d
get_elem?-last [] d = refl
get_elem?-last (x ∷ heap) d = get_elem?-last heap d

find_client-inv :
    (id : Text) (s : Store) (p : ℕ) (c : ClientInfo)
    → find_client id s ≡ some (p, c)
    → get_elem? s.heap p ≡ some c
unfolding find_client
find_client-inv id s p c h = ground arith

-- Writing back a computer with its count unchanged changes no count.
polling_at-rewrite :
    (heap : List ClientInfo) (p q : ℕ) (c d : ClientInfo)
    → get_elem? heap p ≡ some c
    → d.polling ≡ c.polling
    → polling_at (set heap p d) q ≡ polling_at heap q
polling_at-rewrite heap p q c d h same =
    grind (arith, polling_at-set heap p q c d h, polling_at-some heap p c h)

checked_in-counts :
    (h : ClientHello) (ip : Text) (now : Time) (heap : List ClientInfo) (p q : ℕ) (c : ClientInfo)
    → get_elem? heap p ≡ some c
    → polling_at (set heap p (checked_in c h ip now)) q ≡ polling_at heap q
unfolding checked_in
checked_in-counts h ip now heap p q c at =
    polling_at-rewrite heap p q c (checked_in c h ip now) at refl

-- A check-in leaves the counts as they are, and its pointer leads to a computer.
pub record Touched (s : Store) (r : Store × ℕ) : Type 0 where
  pub counts : (q : ℕ) → polling_at r.0.heap q ≡ polling_at s.heap q
  pub there : (c : ClientInfo) × (get_elem? r.0.heap r.1 ≡ some c)

pub touch_client-Touched :
    (e : Platform) (h : ClientHello) (ip : Text) (now : Time) (s : Store)
    → Touched s (touch_client e h ip now s)
unfolding touch_client checked_in
touch_client-Touched e h ip now s =
    let id = client_id_for e h.hostname (clean_text h.domain 64) h.user in
    elim (Option-cases (find_client id s)) [
      | inl n ↦
          rw (touch_client, n)
            (record {
              counts = λ q. polling_at-snoc s.heap (checked_in (new_client id now) h ip now) q refl;
              there = (_, get_elem?-last s.heap (checked_in (new_client id now) h ip now));
            })
      | inr ((p, c), found) ↦
          let at = find_client-inv id s p c found in
          rw (touch_client, found)
            (record {
              counts = λ q. checked_in-counts h ip now s.heap p q c at;
              there = (_, get_elem?-set s.heap p c (checked_in c h ip now) at);
            })
    ]

modify_client-some :
    (f : ClientInfo → ClientInfo) (p : ℕ) (s : Store) (c : ClientInfo)
    → get_elem? s.heap p ≡ some c
    → (modify_client f p s).heap ≡ set s.heap p (f c)
unfolding modify_client
modify_client-some f p s c at = ground (arith, at)

modify_client-none :
    (f : ClientInfo → ClientInfo) (p : ℕ) (s : Store)
    → get_elem? s.heap p ≡ none
    → modify_client f p s ≡ s
unfolding modify_client
modify_client-none f p s n = ground (arith, n)

pub modify_client-begin :
    (p q : ℕ) (s : Store) (c : ClientInfo)
    → get_elem? s.heap p ≡ some c
    → polling_at (modify_client begin_hold p s).heap q
      ≡ (if p == q then suc (polling_at s.heap q) else polling_at s.heap q)
modify_client-begin p q s c at =
    rw (modify_client-some begin_hold p s c at)
      (grind (arith, polling_at-set s.heap p q c (begin_hold c) at, polling_at-some s.heap p c at))

polling_at-none : (heap : List ClientInfo) (p : ℕ) → get_elem? heap p ≡ none → polling_at heap p ≡ 0
polling_at-none [] p n = refl
polling_at-none (c ∷ heap) zero n = ground arith
polling_at-none (c ∷ heap) (suc p) n = polling_at-none heap p n

pub modify_client-end :
    (now : Time) (p q : ℕ) (s : Store)
    → polling_at (modify_client (end_hold now) p s).heap q
      ≡ (if p == q then polling_at s.heap q - 1 else polling_at s.heap q)
modify_client-end now p q s = elim (Option-cases (get_elem? s.heap p)) [
  | inl n ↦ rw (modify_client-none (end_hold now) p s n) (grind (arith, polling_at-none s.heap p n))
  | inr (c, at) ↦ rw (modify_client-some (end_hold now) p s c at) (
      grind (arith, polling_at-set s.heap p q c (end_hold now c) at, polling_at-some s.heap p c at))
]
