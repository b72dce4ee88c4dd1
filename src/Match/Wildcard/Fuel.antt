-- ===== src/Match/Wildcard/Fuel.antt =====
-- The loop of `wildcardMatch` ends.
use stem_computing_desktop_p.Prelude.{
  ℕ, zero, suc, ◌+◌, ◌*◌, ◌≤◌, ◌<◌, ◌≡◌, refl, inl, inr, Bool, false, Option, none, some, [], ◌∷◌,
  arith, length, ◌==◌, Bool-cases,
}
use native.Mathlib.Nat.{mul-le-mul_right}
use stem_computing_desktop_p.Text.{Text}
use stem_computing_desktop_p.Match.{Back, accepts, only_stars, retry, wildcard_loop}

-- The loop ended with an answer.
abbrev pub Ends : Option Bool → Type 0
Ends r = (b : Bool) × (r ≡ some b)

-- The text still to read, and that from which the last star would be tried again.
abbrev Fits : ℕ → ℕ → Text → Back → Type 0
Fits k w t none = length t ≤ w
Fits k w t (some (p, m)) = (length t ≤ length m) × (length m ≤ w) × (length p < k)

abbrev pub Round : Type 0
Round = Text → Text → Back → Option Bool

retry-Ends :
    (k w : ℕ) (c : ℕ) (t : Text) (back : Back) (next : Round)
    → ((w' : ℕ) (p' t' : Text) (b' : Back)
        → suc w' ≤ w
        → length p' < k
        → Fits k w' t' b'
        → Ends (next p' t' b'))
    → Fits k w (c ∷ t) back
    → Ends (retry back next)
unfolding retry
retry-Ends k w c t none next ih h = (false, refl)
retry-Ends k w c t (some (p, [])) next ih h = absurd (omega arith)
retry-Ends k zero c t (some (p, x ∷ m)) next ih h = absurd (omega arith)
retry-Ends k (suc w) c t (some (p, x ∷ m)) next ih h =
    ih w p m (some (p, m)) (omega arith) h.2 (omega arith, omega arith, h.2)

Fits-tail : (k w c : ℕ) (t : Text) (back : Back) → Fits k w (c ∷ t) back → Fits k w t back
Fits-tail k w c t none h = omega arith
Fits-tail k w c t (some (p, m)) h = (omega arith, h.1, h.2)

Fits-length : (k w : ℕ) (t : Text) (back : Back) → Fits k w t back → length t ≤ w
Fits-length k w t none h = h
Fits-length k w t (some (p, m)) h = omega arith

fuel_step : (w w' k n n' f : ℕ) → suc w' ≤ w → n' < k → w * k + n < suc f → w' * k + n' < f
fuel_step w w' k n n' f hw hn h = grind (arith, mul-le-mul_right k hw)

loop-Ends :
    (f k w : ℕ) (p t : Text) (back : Back)
    → w * k + length p < f
    → length p < k
    → Fits k w t back
    → Ends (wildcard_loop f p t back)
unfolding wildcard_loop
loop-Ends zero k w p t back h hp r = absurd (omega arith)
loop-Ends (suc f) k w p [] back h hp r = (only_stars p, refl)
loop-Ends (suc f) k w [] (c ∷ t) back h hp r =
    retry-Ends k w c t back (wildcard_loop f)
      (λ w' p' t' b' hw hp' r'. loop-Ends f k w' p' t' b' (fuel_step _ _ _ _ _ _ hw hp' h) hp' r') r
loop-Ends (suc f) k w (q ∷ p) (c ∷ t) back h hp r = elim (Bool-cases (accepts q c)) [
  | inl a ↦
      rw (a, wildcard_loop)
        (loop-Ends f k w p t back (omega arith) (omega arith) (Fits-tail k w c t back r))
  | inr a ↦ elim (Bool-cases (q == b'*')) [
    | inl e ↦
        rw (a, e, wildcard_loop)
          (loop-Ends f k w p (c ∷ t) (some (p, c ∷ t)) (omega arith) (omega arith)
            (omega arith, Fits-length k w (c ∷ t) back r, omega arith))
    | inr e ↦
        rw (a, e, wildcard_loop)
          (retry-Ends k w c t back (wildcard_loop f)
            (λ w' p' t' b' hw hp' r'.
              loop-Ends f k w' p' t' b' (fuel_step _ _ _ _ _ _ hw hp' h) hp' r')
            r)
  ]
]

-- The loop of `wildcardMatch` ends on every pattern and text, within (len(p) + 1) (len(t) + 1) rounds.
pub wildcard_loop-Ends :
    (f : ℕ) (p t : Text) → suc (length p) * suc (length t) ≤ f → Ends (wildcard_loop f p t none)
wildcard_loop-Ends f p t h =
    loop-Ends f (suc (length p)) (length t) p t none (grind (arith, h)) (omega arith) (omega arith)
