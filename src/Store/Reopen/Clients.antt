-- ===== src/Store/Reopen/Clients.antt =====
-- The computers, from the map and the heap to clients.json and back.
use stem_computing_desktop_p.Prelude.{
  ℕ, zero, suc, ◌<◌, ◌≡◌, ◌≢◌, refl, ◌∙◌, sym, ap, Bool, Option, none, some, List, [], ◌∷◌, ◌++◌,
  arith, find?, get_elem?, if◌then◌else◌, length, map_some, Option-cases, Bool-cases, inl, inr,
}
use stem_computing_desktop_p.Text.{Text, text_eq}
use stem_computing_desktop_p.Text.Equality.{text_eq_iff}
use stem_computing_desktop_p.Dict.{Dict, lookup, insert, lookup-insert}
use stem_computing_desktop_p.Model.{Time, ClientInfo}
use stem_computing_desktop_p.Store.{live_clients, drop_stale, is_stale, restore_clients}
use stem_computing_desktop_p.Store.Flush.{sort, insert_sorted}

-- The computer behind an id.
abbrev pub client_at : Text → Dict ℕ → List ClientInfo → Option ClientInfo
client_at id m heap = elim (lookup id m) [ none ↦ none | some p ↦ get_elem? heap p ]

abbrev pub with_id : Text → List ClientInfo → Option ClientInfo
with_id id cs = find? (λ (c : ClientInfo). text_eq c.id id) cs

-- Every entry of the map leads to a computer of that id, no id is empty, and none stands twice.
abbrev pub Keyed : Dict ℕ → List ClientInfo → Type 0
Keyed [] heap = Unit {0}
Keyed ((id, p) ∷ m) heap =
    ((c : ClientInfo) × (get_elem? heap p ≡ some c) × (c.id ≡ id))
    × (id ≢ [])
    × (lookup id m ≡ none)
    × Keyed m heap

-- No two computers of the list have the same id, and no id is empty.
abbrev pub Distinct : List ClientInfo → Type 0
Distinct [] = Unit {0}
Distinct (c ∷ cs) = (c.id ≢ []) × (with_id c.id cs ≡ none) × Distinct cs

with_id-live_clients :
    (id : Text) (m : Dict ℕ) (heap : List ClientInfo)
    → Keyed m heap
    → with_id id (live_clients m heap) ≡ client_at id m heap
unfolding live_clients lookup
with_id-live_clients id [] heap h = refl
with_id-live_clients id ((j, p) ∷ m) heap ((c, e, k), _, _, rest) =
    ground (arith, e, k, with_id-live_clients id m heap rest)

live_clients-Distinct :
    (m : Dict ℕ) (heap : List ClientInfo) → Keyed m heap → Distinct (live_clients m heap)
unfolding live_clients
live_clients-Distinct [] heap h = tt
live_clients-Distinct ((j, p) ∷ m) heap ((c, e, k), n, new, rest) =
    rw (e, live_clients)
      (
        λ z. n (sym k ∙ z),
        ground (arith, k, new, with_id-live_clients j m heap rest),
        live_clients-Distinct m heap rest,
      )

module _ (lt : ClientInfo → ClientInfo → Bool) where
  with_id-insert_sorted :
      (id : Text) (c : ClientInfo) (cs : List ClientInfo)
      → with_id c.id cs ≡ none
      → with_id id (insert_sorted lt c cs) ≡ with_id id (c ∷ cs)
  unfolding insert_sorted
  with_id-insert_sorted id c [] h = refl
  with_id-insert_sorted id c (d ∷ cs) h = ground (
    arith,
    with_id-insert_sorted id c cs,
    text_eq_iff c.id id,
    text_eq_iff d.id c.id,
    text_eq_iff d.id id,
  )

  pub with_id-sort :
      (id : Text) (cs : List ClientInfo) → Distinct cs → with_id id (sort lt cs) ≡ with_id id cs
  unfolding sort
  with_id-sort id [] h = refl
  with_id-sort id (c ∷ cs) h = ground (
    arith,
    with_id-insert_sorted id c (sort lt cs),
    with_id-sort c.id cs h.2,
    h.1,
    with_id-sort id cs h.2,
  )

  insert_sorted-Distinct :
      (c : ClientInfo) (cs : List ClientInfo)
      → c.id ≢ []
      → with_id c.id cs ≡ none
      → Distinct cs
      → Distinct (insert_sorted lt c cs)
  unfolding insert_sorted
  insert_sorted-Distinct c [] n h d = (n, refl, tt)
  insert_sorted-Distinct c (x ∷ cs) n h d = elim (Bool-cases (lt x c)) [
    | inl y ↦
        rw (y, insert_sorted)
          (
            d.0,
            ground (
              arith,
              d.1,
              with_id-insert_sorted x.id c cs,
              text_eq_iff x.id c.id,
              text_eq_iff c.id x.id,
            ),
            insert_sorted-Distinct c cs n (ground arith) d.2,
          )
    | inr k ↦ rw (k, insert_sorted) (n, h, d)
  ]

  pub sort-Distinct : (cs : List ClientInfo) → Distinct cs → Distinct (sort lt cs)
  unfolding sort
  sort-Distinct [] h = tt
  sort-Distinct (c ∷ cs) h =
      insert_sorted-Distinct c (sort lt cs) h.0 (with_id-sort c.id cs h.2 ∙ h.1)
        (sort-Distinct cs h.2)

-- Every pointer of the map lies in the heap.
abbrev Valid : Dict ℕ → ℕ → Type 0
Valid m n = (id : Text) (p : ℕ) → lookup id m ≡ some p → p < n

Valid-empty : (n : ℕ) → Valid [] n
unfolding lookup
Valid-empty n j p e = cc

get_elem?-snoc :
    (xs : List ClientInfo) (x : ClientInfo) (p : ℕ)
    → p < length xs
    → get_elem? (xs ++ x ∷ []) p ≡ get_elem? xs p
get_elem?-snoc [] x p h = absurd (omega arith)
get_elem?-snoc (y ∷ xs) x zero h = refl
get_elem?-snoc (y ∷ xs) x (suc p) h = get_elem?-snoc xs x p (omega arith)

get_elem?-new :
    (xs : List ClientInfo) (x : ClientInfo) → get_elem? (xs ++ x ∷ []) (length xs) ≡ some x
get_elem?-new [] x = refl
get_elem?-new (y ∷ xs) x = get_elem?-new xs x

length-snoc : (xs : List ClientInfo) (x : ClientInfo) → length (xs ++ x ∷ []) ≡ suc (length xs)
length-snoc [] x = refl
length-snoc (y ∷ xs) x = ap suc (length-snoc xs x)

Valid-insert :
    (id : Text) (m : Dict ℕ) (heap : List ClientInfo) (x : ClientInfo)
    → Valid m (length heap)
    → Valid (insert id (length heap) m) (length (heap ++ x ∷ []))
Valid-insert id m heap x v j p e =
    ground (arith, lookup-insert id j (length heap) m, v j p, length-snoc heap x)

client_at-insert :
    (id j : Text) (m : Dict ℕ) (heap : List ClientInfo) (x : ClientInfo)
    → Valid m (length heap)
    → client_at j (insert id (length heap) m) (heap ++ x ∷ [])
      ≡ (if text_eq id j then some x else client_at j m heap)
client_at-insert id j m heap x v = elim (Bool-cases (text_eq id j)) [
  | inl y ↦ ground (arith, y, lookup-insert id j (length heap) m, get_elem?-new heap x)
  | inr n ↦ elim (Option-cases (lookup j m)) [
    | inl k ↦ ground (arith, n, k, lookup-insert id j (length heap) m)
    | inr (p, k) ↦
        ground (arith, n, k, lookup-insert id j (length heap) m, get_elem?-snoc heap x p (v j p k))
  ]
]

-- A computer as it comes back: nobody polls.
abbrev pub offline : ClientInfo → ClientInfo
offline c = record c { polling = 0 }

abbrev pub either : Option ClientInfo → Option ClientInfo → Option ClientInfo
either none o = o
either (some c) o = some (offline c)

restore_clients-client_at :
    (cs heap : List ClientInfo) (m : Dict ℕ) (id : Text)
    → Distinct cs
    → Valid m (length heap)
    → client_at id (restore_clients cs heap m).0 (restore_clients cs heap m).1
      ≡ either (with_id id cs) (client_at id m heap)
unfolding restore_clients
restore_clients-client_at [] heap m id d v = refl
restore_clients-client_at (c ∷ cs) heap m id (n, new, d) v =
    let here = client_at-insert c.id id m heap (offline c) v in
    let rest =
      restore_clients-client_at cs (heap ++ offline c ∷ []) (insert c.id (length heap) m) id d
        (Valid-insert c.id m heap (offline c) v) in
    ground (arith, n, new, here, rest, text_eq_iff c.id id)

-- The computers that are written come back under their ids, and no others.
pub restore_clients-sort :
    (lt : ClientInfo → ClientInfo → Bool) (m : Dict ℕ) (heap : List ClientInfo) (id : Text)
    → Keyed m heap
    → let (m', heap') = restore_clients (sort lt (live_clients m heap)) [] [] in
      client_at id m' heap' ≡ map_some offline (client_at id m heap)
restore_clients-sort lt m heap id h =
    let cs = live_clients m heap in
    let d = live_clients-Distinct m heap h in
    let back =
      restore_clients-client_at (sort lt cs) [] [] id (sort-Distinct lt cs d) (Valid-empty 0) in
    ground (arith, back, with_id-sort lt id cs d, with_id-live_clients id m heap h)

lookup-drop_stale-none :
    (now : Time) (heap : List ClientInfo) (m : Dict ℕ) (id : Text)
    → lookup id m ≡ none
    → lookup id (drop_stale now heap m) ≡ none
unfolding lookup drop_stale
lookup-drop_stale-none now heap [] id h = refl
lookup-drop_stale-none now heap ((j, p) ∷ m) id h =
    ground (arith, lookup-drop_stale-none now heap m id)

-- Forgetting computers keeps the map in order.
pub drop_stale-Keyed :
    (now : Time) (heap : List ClientInfo) (m : Dict ℕ)
    → Keyed m heap
    → Keyed (drop_stale now heap m) heap
unfolding drop_stale
drop_stale-Keyed now heap [] h = tt
drop_stale-Keyed now heap ((j, p) ∷ m) ((c, e, k), n, new, rest) =
    let kept = drop_stale-Keyed now heap m rest in
    elim (Bool-cases (is_stale now c)) [
      | inl y ↦ rw (e, y, drop_stale) kept
      | inr x ↦ rw (e, x, drop_stale) ((c, e, k), n, lookup-drop_stale-none now heap m j new, kept)
    ]
