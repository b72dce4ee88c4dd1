-- ===== src/Match/Glob.antt =====
-- What a wildcard pattern means, with no search order in it: `*` stands for any run of runes, `?`
-- for one rune, and any other rune for itself.
use stem_computing_desktop_p.Prelude.{
  ℕ, ◌≡◌, refl, ◌⊎◌, inl, inr, Bool, true, false, [], ◌∷◌, arith, all, not, ◌==◌,
}
use stem_computing_desktop_p.Text.{Text}
use stem_computing_desktop_p.Match.{accepts, only_stars}

pub data Glob : Text → Text → Type 0 where
  done : Glob [] []
  one : {q c : ℕ} {p t : Text} → accepts q c ≡ true → Glob p t → Glob (q ∷ p) (c ∷ t)
  skip : {q : ℕ} {p t : Text} → q ≡ b'*' → Glob p t → Glob (q ∷ p) t
  eat : {q c : ℕ} {p t : Text} → q ≡ b'*' → Glob (q ∷ p) t → Glob (q ∷ p) (c ∷ t)

-- No rune of the text is itself a star.
abbrev pub has_no_star : Text → Bool
has_no_star t = all (λ c. not (c == b'*')) t

pub only_stars→Glob : (p : Text) → only_stars p ≡ true → Glob p []
unfolding only_stars
only_stars→Glob [] h = done
only_stars→Glob (q ∷ p) h = skip (ground arith) (only_stars→Glob p (ground arith))

pub Glob→only_stars : {p : Text} → Glob p [] → only_stars p ≡ true
unfolding only_stars
Glob→only_stars done = refl
Glob→only_stars (skip e g) = ground (arith, Glob→only_stars g)

-- A pattern that is used up matches the empty text only.
pub not-Glob-nil : {c : ℕ} {t : Text} → ¬ Glob [] (c ∷ t)
not-Glob-nil g = elim g [ ]

-- A rune that is no star and does not accept the text's first one rules a match out.
pub not-Glob-mismatch :
    {q c : ℕ} {p t : Text} → accepts q c ≡ false → (q == b'*') ≡ false → ¬ Glob (q ∷ p) (c ∷ t)
not-Glob-mismatch h n (one a g) = ground arith
not-Glob-mismatch h n (skip e g) = ground arith
not-Glob-mismatch h n (eat e g) = ground arith

-- A rune that is no star takes exactly one rune of the text.
pub Glob-one_inv : {q c : ℕ} {p t : Text} → (q == b'*') ≡ false → Glob (q ∷ p) (c ∷ t) → Glob p t
Glob-one_inv n (one a g) = g
Glob-one_inv n (skip e g) = absurd (ground arith)
Glob-one_inv n (eat e g) = absurd (ground arith)

-- A star takes nothing or one rune more.
pub Glob-star_inv :
    {c : ℕ} {p t : Text}
    → (c == b'*') ≡ false
    → Glob (b'*' ∷ p) (c ∷ t)
    → Glob p (c ∷ t) ⊎ Glob (b'*' ∷ p) t
Glob-star_inv n (one a g) = absurd (ground arith)
Glob-star_inv n (skip e g) = inl g
Glob-star_inv n (eat e g) = inr g

pub two_stars : {t : Text} {p : Text} → Glob (b'*' ∷ b'*' ∷ p) t → Glob (b'*' ∷ p) t
two_stars g = collapse refl refl g
  where
    collapse : {a b : ℕ} {t p : Text} → a ≡ b'*' → b ≡ b'*' → Glob (a ∷ b ∷ p) t → Glob (b ∷ p) t
    collapse e e' (one h g) = eat e' g
    collapse e e' (skip _ g) = g
    collapse e e' (eat h g) = eat e' (collapse e e' g)

-- A star takes what a rune takes.
Glob-star_for_one :
    {a q : ℕ} {p t : Text} → (q == b'*') ≡ false → a ≡ b'*' → Glob (q ∷ p) t → Glob (a ∷ p) t
Glob-star_for_one n e (one h g) = eat e (skip e g)
Glob-star_for_one n e (skip h g) = absurd (ground arith)
Glob-star_for_one n e (eat h g) = absurd (ground arith)

-- Why going back to the last star only loses nothing: wherever `q` matches, `p` begins after the
-- first rune of the text.
pub Glob-drop_one :
    {a q c : ℕ} {p : Text} (t : Text)
    → (q == b'*') ≡ false
    → a ≡ b'*'
    → Glob (a ∷ q ∷ p) (c ∷ t)
    → Glob (a ∷ p) t
Glob-drop_one t n e (one h g) = Glob-star_for_one n e g
Glob-drop_one t n e (skip h g) = skip e (Glob-one_inv n g)
Glob-drop_one [] n e (eat h (skip _ g)) = Glob-star_for_one n e g
Glob-drop_one (d ∷ t) n e (eat h g) = eat e (Glob-drop_one t n e g)
