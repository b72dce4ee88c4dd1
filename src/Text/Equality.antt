-- ===== src/Text/Equality.antt =====
-- `text_eq` decides equality, and the folded comparison is an equivalence.
use stem_computing_desktop_p.Prelude.{◌≡◌, refl, ◌↔◌, true, false, [], ◌∷◌, ◌≢◌, map, arith}
use stem_computing_desktop_p.Text.{Text, text_eq, Unicode, equal_fold}

pub text_eq_refl : (a : Text) → text_eq a a ≡ true
unfolding text_eq
text_eq_refl [] = refl
text_eq_refl (c ∷ a) = ground (arith, text_eq_refl a)

pub text_eq→eq : (a b : Text) → text_eq a b ≡ true → a ≡ b
unfolding text_eq
text_eq→eq [] [] h = refl
text_eq→eq [] (d ∷ b) h = cc
text_eq→eq (c ∷ a) [] h = cc
text_eq→eq (c ∷ a) (d ∷ b) h = ground (arith, text_eq→eq a b)

pub text_eq_iff : (a b : Text) → (text_eq a b ≡ true) ↔ (a ≡ b)
text_eq_iff a b = (text_eq→eq a b, λ e. rw e (text_eq_refl b))

pub text_eq-false : (a b : Text) → a ≢ b → text_eq a b ≡ false
text_eq-false a b n = ground (arith, text_eq_iff a b)

pub text_eq_sym : (a b : Text) → text_eq a b ≡ text_eq b a
text_eq_sym a b = ground (arith, text_eq_iff a b, text_eq_iff b a)

pub equal_fold_refl : (u : Unicode) (a : Text) → equal_fold u a a ≡ true
unfolding equal_fold
equal_fold_refl u a = text_eq_refl (map u.fold a)
