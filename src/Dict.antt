-- ===== src/Dict.antt =====
-- Go maps with text keys, as association lists. Where the source goes through a map, Go's order is
-- arbitrary and the list's is one of those it may take: it shows in the sample of `handleReach`, in
-- `handleListClients` among computers of one name, and in `viewAlert` among deliveries to computers of one
-- name.
use stem_computing_desktop_p.Prelude.{
  ◌≡◌, refl, Bool, false, Option, none, some, List, [], ◌∷◌, arith, if◌then◌else◌, inl, inr,
  Bool-cases,
}
use stem_computing_desktop_p.Text.{Text, text_eq}
use stem_computing_desktop_p.Text.Equality.{text_eq_iff, text_eq_refl}

abbrev pub Dict {ℓ} : Type ℓ → Type ℓ
Dict V = List (Text × V)

module _ {ℓ} {V : Type ℓ} where
  -- m[k], with `none` where the key is missing
  unfoldable pub lookup : Text → Dict V → Option V
  lookup k [] = none
  lookup k ((j, v) ∷ m) = if text_eq j k then some v else lookup k m

  -- m[k] = v
  unfoldable pub insert : Text → V → Dict V → Dict V
  insert k v [] = (k, v) ∷ []
  insert k v ((j, w) ∷ m) = if text_eq j k then (k, v) ∷ m else (j, w) ∷ insert k v m

  -- delete(m, k)
  unfoldable pub delete : Text → Dict V → Dict V
  delete k [] = []
  delete k ((j, w) ∷ m) = let rest = delete k m in if text_eq j k then rest else (j, w) ∷ rest

  -- The loop that deletes the entries that pass a test.
  unfoldable pub delete_if : (V → Bool) → Dict V → Dict V
  delete_if p [] = []
  delete_if p ((j, w) ∷ m) = let rest = delete_if p m in if p w then rest else (j, w) ∷ rest

  pub lookup-insert :
      (k j : Text) (v : V) (m : Dict V)
      → lookup j (insert k v m) ≡ (if text_eq k j then some v else lookup j m)
  unfolding lookup insert
  lookup-insert k j v [] = refl
  lookup-insert k j v ((i, w) ∷ m) =
      ground (arith, text_eq_iff k j, text_eq_iff i k, text_eq_iff i j, lookup-insert k j v m)

  pub lookup-insert_self : (k : Text) (v : V) (m : Dict V) → lookup k (insert k v m) ≡ some v
  lookup-insert_self k v m = rw (lookup-insert k k v m, text_eq_refl k)

  -- Writing the value that is there changes nothing.
  pub insert_same : (k : Text) (v : V) (m : Dict V) → lookup k m ≡ some v → insert k v m ≡ m
  unfolding lookup insert
  insert_same k v [] e = cc
  insert_same k v ((j, w) ∷ m) e = ground (arith, text_eq_iff j k, insert_same k v m)

  pub lookup-delete :
      (k j : Text) (m : Dict V) → lookup j (delete k m) ≡ (if text_eq k j then none else lookup j m)
  unfolding lookup delete
  lookup-delete k j [] = ground arith
  lookup-delete k j ((i, w) ∷ m) =
      ground (arith, text_eq_iff k j, text_eq_iff i k, text_eq_iff i j, lookup-delete k j m)

  -- What is still found did not pass the test.
  pub lookup-delete_if :
      (p : V → Bool) (k : Text) (m : Dict V) {v : V}
      → lookup k (delete_if p m) ≡ some v
      → p v ≡ false
  unfolding lookup delete_if
  lookup-delete_if p k [] {v} e = cc
  lookup-delete_if p k ((j, w) ∷ m) {v} e = ground (arith, lookup-delete_if p k m {v = v})

  pub lookup-delete_if_kept :
      (p : V → Bool) (k : Text) (m : Dict V) (v : V)
      → lookup k m ≡ some v
      → p v ≡ false
      → lookup k (delete_if p m) ≡ some v
  unfolding lookup delete_if
  lookup-delete_if_kept p k [] v e h = cc
  lookup-delete_if_kept p k ((j, w) ∷ m) v e h = ground (arith, lookup-delete_if_kept p k m v)

  pub lookup-delete_if-none :
      (p : V → Bool) (k : Text) (m : Dict V) → lookup k m ≡ none → lookup k (delete_if p m) ≡ none
  unfolding lookup delete_if
  lookup-delete_if-none p k [] e = refl
  lookup-delete_if-none p k ((j, w) ∷ m) e = ground (arith, lookup-delete_if-none p k m)

  -- Every value of a map passes a predicate.
  abbrev pub All {κ} : (V → Type κ) → Dict V → Type κ
  All P [] = Unit
  All P ((_, v) ∷ m) = P v × All P m

  pub All-lookup {κ} :
      (P : V → Type κ) (k : Text) (m : Dict V) {v : V} → All P m → lookup k m ≡ some v → P v
  unfolding lookup
  All-lookup P k [] a e = cc
  All-lookup P k ((j, w) ∷ m) a e = elim (Bool-cases (text_eq j k)) [
    | inl h ↦ ground arith
    | inr h ↦ All-lookup P k m a.1 (ground arith)
  ]

  pub All-insert {κ} :
      (P : V → Type κ) (k : Text) (v : V) (m : Dict V) → All P m → P v → All P (insert k v m)
  unfolding insert
  All-insert P k v [] a h = (h, tt)
  All-insert P k v ((j, w) ∷ m) a h = elim (Bool-cases (text_eq j k)) [
    | inl e ↦ rw (e, insert) (h, a.1)
    | inr e ↦ rw (e, insert) (a.0, All-insert P k v m a.1 h)
  ]

  pub All-delete_if {κ} :
      (P : V → Type κ) (p : V → Bool) (m : Dict V) → All P m → All P (delete_if p m)
  unfolding delete_if
  All-delete_if P p [] a = tt
  All-delete_if P p ((j, w) ∷ m) a = elim (Bool-cases (p w)) [
    | inl e ↦ rw (e, delete_if) (All-delete_if P p m a.1)
    | inr e ↦ rw (e, delete_if) (a.0, All-delete_if P p m a.1)
  ]
