-- ===== src/Console/Users/Names/Lists.antt =====
-- Lists of names, case aside, and what is done to the accounts' names.
use stem_computing_desktop_p.Prelude.{
  ◌≡◌, refl, ap, inl, inr, Bool, false, ◌||◌, none, some, List, [], ◌∷◌, ◌++◌, arith, modify_first,
  Bool-cases, map,
}
use stem_computing_desktop_p.Text.{Text, Unicode, text_eq, equal_fold}
use stem_computing_desktop_p.Text.Equality.{text_eq_iff}
use stem_computing_desktop_p.Model.{User}
use stem_computing_desktop_p.Store.{user_by_id, user_by_name}
use stem_computing_desktop_p.Console.Users.{without_user}

abbrev pub names : List User → List Text
names us = map (λ (u : User). u.username) us

-- Whether a name is taken.
abbrev pub is_taken : Unicode → List Text → Text → Bool
is_taken e [] name = false
is_taken e (n ∷ ns) name = equal_fold e n name || is_taken e ns name

abbrev pub Unique : Unicode → List Text → Type 0
Unique e [] = Unit {0}
Unique e (n ∷ ns) = (is_taken e ns n ≡ false) × Unique e ns

pub equal_fold_sym : (e : Unicode) (a b : Text) → equal_fold e a b ≡ equal_fold e b a
unfolding equal_fold
equal_fold_sym e a b =
    ground
      (arith, text_eq_iff (map e.fold a) (map e.fold b), text_eq_iff (map e.fold b) (map e.fold a))

is_taken-append :
    (e : Unicode) (ns : List Text) (m n : Text)
    → is_taken e ns n ≡ false
    → equal_fold e m n ≡ false
    → is_taken e (ns ++ m ∷ []) n ≡ false
is_taken-append e [] m n h k = ground arith
is_taken-append e (x ∷ ns) m n h k = ground (arith, is_taken-append e ns m n)

pub Unique-append :
    (e : Unicode) (ns : List Text) (n : Text)
    → Unique e ns
    → is_taken e ns n ≡ false
    → Unique e (ns ++ n ∷ [])
Unique-append e [] n h k = (refl, tt)
Unique-append e (m ∷ ns) n h k = (
  is_taken-append e ns n m h.0 (ground (arith, equal_fold_sym e n m, k)),
  Unique-append e ns n h.1 (ground (arith, k)),
)

pub is_taken-user_by_name :
    (e : Unicode) (us : List User) (name : Text)
    → user_by_name e us name ≡ none
    → is_taken e (names us) name ≡ false
unfolding user_by_name
is_taken-user_by_name e [] name h = refl
is_taken-user_by_name e (u ∷ us) name h = ground (arith, is_taken-user_by_name e us name)

pub names-append : (us : List User) (u : User) → names (us ++ u ∷ []) ≡ names us ++ u.username ∷ []
names-append [] u = refl
names-append (x ∷ us) u = ap (λ ns. x.username ∷ ns) (names-append us u)

pub names-modify :
    (us : List User) (uid : Text) (u v : User)
    → user_by_id us uid ≡ some u
    → v.username ≡ u.username
    → names (modify_first (λ (x : User). text_eq x.id uid) (λ _. v) us) ≡ names us
unfolding user_by_id
names-modify [] uid u v h k = refl
names-modify (x ∷ us) uid u v h k = ground (arith, names-modify us uid u v)

is_taken-without :
    (e : Unicode) (us : List User) (uid name : Text)
    → is_taken e (names us) name ≡ false
    → is_taken e (names (without_user uid us)) name ≡ false
is_taken-without e [] uid name h = refl
is_taken-without e (x ∷ us) uid name h = ground (arith, is_taken-without e us uid name)

pub Unique-without :
    (e : Unicode) (us : List User) (uid : Text)
    → Unique e (names us)
    → Unique e (names (without_user uid us))
Unique-without e [] uid h = tt
Unique-without e (x ∷ us) uid h = elim (Bool-cases (text_eq x.id uid)) [
  | inl y ↦ rw y (Unique-without e us uid h.1)
  | inr n ↦ rw n (is_taken-without e us uid x.username h.0, Unique-without e us uid h.1)
]
