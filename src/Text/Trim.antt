-- ===== src/Text/Trim.antt =====
-- strings.TrimSpace: what it keeps of a text, and that trimming twice is trimming once.
use stem_computing_desktop_p.Prelude.{
  ℕ, ◌≤◌, ◌≡◌, refl, Bool, true, false, [], ◌∷◌, arith, length, inl, inr, all, Bool-cases,
}
use stem_computing_desktop_p.Text.{Text, is_space, trim_left, trim_right, trim_space}

length-trim_left-le : (s : Text) → length (trim_left s) ≤ length s
unfolding trim_left
length-trim_left-le [] = omega arith
length-trim_left-le (c ∷ s) = ground (arith, length-trim_left-le s)

length-trim_right-le : (s : Text) → length (trim_right s) ≤ length s
unfolding trim_right
length-trim_right-le [] = omega arith
length-trim_right-le (c ∷ s) = ground (arith, length-trim_right-le s)

pub length-trim_space-le : (s : Text) → length (trim_space s) ≤ length s
unfolding trim_space
length-trim_space-le s = omega (arith, length-trim_right-le (trim_left s), length-trim_left-le s)

-- Trimming drops runes only, so what holds of every rune still does.
all-trim_left : (p : ℕ → Bool) (s : Text) → all p s ≡ true → all p (trim_left s) ≡ true
unfolding trim_left
all-trim_left p [] h = refl
all-trim_left p (c ∷ s) h = ground (arith, all-trim_left p s)

all-trim_right : (p : ℕ → Bool) (s : Text) → all p s ≡ true → all p (trim_right s) ≡ true
unfolding trim_right
all-trim_right p [] h = refl
all-trim_right p (c ∷ s) h = ground (arith, all-trim_right p s)

pub all-trim_space : (p : ℕ → Bool) (s : Text) → all p s ≡ true → all p (trim_space s) ≡ true
unfolding trim_space
all-trim_space p s h = all-trim_right p (trim_left s) (all-trim_left p s h)

-- A text with no space in front.
abbrev StartsBare : Text → Type 0
StartsBare [] = Unit {0}
StartsBare (c ∷ s) = is_space c ≡ false

trim_left-StartsBare : (s : Text) → StartsBare (trim_left s)
unfolding trim_left
trim_left-StartsBare [] = tt
trim_left-StartsBare (c ∷ s) = elim (Bool-cases (is_space c)) [
  | inl e ↦ rw (e, trim_left) (trim_left-StartsBare s)
  | inr e ↦ rw (e, trim_left) e
]

trim_left_bare : (s : Text) → StartsBare s → trim_left s ≡ s
unfolding trim_left
trim_left_bare [] h = refl
trim_left_bare (c ∷ s) h = rw h

trim_right-StartsBare : (s : Text) → StartsBare s → StartsBare (trim_right s)
unfolding trim_right
trim_right-StartsBare [] h = tt
trim_right-StartsBare (c ∷ s) h = ground arith

trim_right_idem : (s : Text) → trim_right (trim_right s) ≡ trim_right s
unfolding trim_right
trim_right_idem [] = refl
trim_right_idem (c ∷ s) = ground (arith, trim_right_idem s)

pub trim_space_idem : (s : Text) → trim_space (trim_space s) ≡ trim_space s
unfolding trim_space
trim_space_idem s =
    rw (trim_left_bare _ (trim_right-StartsBare _ (trim_left-StartsBare s)))
      (trim_right_idem (trim_left s))

-- A blank text trims to nothing.
pub trim_space_blank : (s : Text) → all is_space s ≡ true → trim_space s ≡ []
unfolding trim_space trim_left trim_right
trim_space_blank [] h = refl
trim_space_blank (c ∷ s) h = ground (arith, trim_space_blank s)
