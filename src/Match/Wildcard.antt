-- ===== src/Match/Wildcard.antt =====
-- `wildcardMatch`: its loop ends, and answers whether the text matches the pattern.
pub mod Fuel
use stem_computing_desktop_p.Prelude.{
  ℕ, zero, suc, ◌+◌, ◌*◌, ◌≤◌, ◌<◌, ◌≡◌, refl, ◌⊎◌, inl, inr, ◌↔◌, Bool, true, false, Option, none,
  some, [], ◌∷◌, arith, length, ◌==◌, ==_iff, Bool-cases,
}
use native.Mathlib.Nat.{mul-le-mul_right}
use stem_computing_desktop_p.Text.{Text, Unicode, to_lower}
use stem_computing_desktop_p.Match.{
  Back, accepts, only_stars, retry, wildcard_loop, fuel_for, wildcard_runes, wildcard_match,
}
use stem_computing_desktop_p.Match.Glob.{
  Glob, done, one, skip, eat, has_no_star, only_stars→Glob, Glob→only_stars, not-Glob-nil,
  not-Glob-mismatch, Glob-one_inv, Glob-star_inv, two_stars, Glob-drop_one,
}
use stem_computing_desktop_p.Match.Wildcard.Fuel.{Round, wildcard_loop-Ends}

-- Soundness: what the loop accepts matches.
abbrev Sound : Type 0 → Back → Type 0
Sound G none = Unit {0}
Sound G (some (p, m)) = Glob (b'*' ∷ p) m → G

retry_sound :
    (G : Type 0) (back : Back) (next : Round)
    → ((p t : Text) (b : Back) → (Glob p t → G) → Sound G b → next p t b ≡ some true → G)
    → Sound G back
    → retry back next ≡ some true
    → G
unfolding retry
retry_sound G none next ih s e = cc
retry_sound G (some (p, [])) next ih s e = ih p [] (some (p, [])) (λ g. s (skip refl g)) s e
retry_sound G (some (p, x ∷ m)) next ih s e =
    ih p m (some (p, m)) (λ g. s (eat refl (skip refl g))) (λ g. s (eat refl g)) e

loop_sound :
    (G : Type 0) (f : ℕ) (p t : Text) (back : Back)
    → (Glob p t → G)
    → Sound G back
    → wildcard_loop f p t back ≡ some true
    → G
unfolding wildcard_loop
loop_sound G zero p t back now s e = cc
loop_sound G (suc f) p [] back now s e = now (only_stars→Glob p (cc))
loop_sound G (suc f) [] (c ∷ t) back now s e =
    retry_sound G back (wildcard_loop f) (loop_sound G f) s e
loop_sound G (suc f) (q ∷ p) (c ∷ t) back now s e = elim (Bool-cases (accepts q c)) [
  | inl a ↦ loop_sound G f p t back (λ g. now (one a g)) s (rw (a, wildcard_loop) at e)
  | inr a ↦ elim (Bool-cases (q == b'*')) [
    | inl h ↦
        loop_sound G f p (c ∷ t) (some (p, c ∷ t)) (λ g. now (skip (ground arith) g))
          (λ g. now (rw ((==_iff q b'*').0 h) g)) (rw (a, h, wildcard_loop) at e)
    | inr h ↦
        retry_sound G back (wildcard_loop f) (loop_sound G f) s (rw (a, h, wildcard_loop) at e)
  ]
]

-- Completeness, where no rune of the text is a star: a text that the loop refuses does not match.
abbrev Fallback : Type 0 → Text → Text → Back → Type 0
Fallback G p t none = G → Glob p t
Fallback G p t (some (bp, m)) =
    (G → Glob (b'*' ∷ bp) m) × (Glob bp m → Glob p t) × (has_no_star m ≡ true)

record Held (G : Type 0) (p t : Text) (back : Back) : Type 0 where
  later : G → Glob (b'*' ∷ p) t
  fallback : Fallback G p t back
  plain : has_no_star t ≡ true

Held-restart :
    {G : Type 0} {p t : Text}
    → (G → Glob (b'*' ∷ p) t)
    → has_no_star t ≡ true
    → Held G p t (some (p, t))
Held-restart g h = record { later = g; fallback = (g, λ d. d, h); plain = h }

plain_inv :
    (c : ℕ) (t : Text) → has_no_star (c ∷ t) ≡ true → ((c == b'*') ≡ false) × (has_no_star t ≡ true)
plain_inv c t h = ground arith

accepts_plain : (q c : ℕ) → accepts q c ≡ true → (c == b'*') ≡ false → (q == b'*') ≡ false
accepts_plain q c a h = ground arith

retry_complete :
    (G : Type 0) (p t : Text) (back : Back) (next : Round)
    → ((p' t' : Text) (b : Back) → Held G p' t' b → next p' t' b ≡ some false → ¬ G)
    → Fallback G p t back
    → ¬ Glob p t
    → retry back next ≡ some false
    → ¬ G
unfolding retry
retry_complete G p t none next ih fb no_match e = λ g. no_match (fb g)
retry_complete G p t (some (bp, [])) next ih fb no_match e =
    ih bp [] (some (bp, [])) (Held-restart fb.0 refl) e
retry_complete G p t (some (bp, x ∷ m)) next ih fb no_match e =
    ih bp m (some (bp, m))
      (Held-restart (λ g. must_eat (Glob-star_inv (plain_inv x m fb.2).0 (fb.0 g)))
        (plain_inv x m fb.2).1)
      e
  where
    must_eat : Glob bp (x ∷ m) ⊎ Glob (b'*' ∷ bp) m → Glob (b'*' ∷ bp) m
    must_eat (inl d) = absurd (no_match (fb.1 d))
    must_eat (inr d) = d

Fallback-one :
    (G : Type 0) (q c : ℕ) (p t : Text) (back : Back)
    → (q == b'*') ≡ false
    → Fallback G (q ∷ p) (c ∷ t) back
    → Fallback G p t back
Fallback-one G q c p t none n fb = λ g. Glob-one_inv n (fb g)
Fallback-one G q c p t (some (bp, m)) n fb = (fb.0, λ d. Glob-one_inv n (fb.1 d), fb.2)

loop_complete :
    (G : Type 0) (f : ℕ) (p t : Text) (back : Back)
    → Held G p t back
    → wildcard_loop f p t back ≡ some false
    → ¬ G
unfolding wildcard_loop
loop_complete G zero p t back h e = absurd (cc)
loop_complete G (suc f) p [] back h e = λ g. at_end (h.later g)
  where
    at_end : ¬ Glob (b'*' ∷ p) []
    at_end (skip _ d) = ground (arith, Glob→only_stars d)
loop_complete G (suc f) [] (c ∷ t) back h e =
    retry_complete G [] (c ∷ t) back (wildcard_loop f) (loop_complete G f) h.fallback not-Glob-nil e
loop_complete G (suc f) (q ∷ p) (c ∷ t) back h e = elim (Bool-cases (accepts q c)) [
  | inl a ↦
      let n = accepts_plain q c a (plain_inv c t h.plain).0 in
      loop_complete G f p t back
        (record {
          later = λ g. Glob-drop_one t n refl (h.later g);
          fallback = Fallback-one G q c p t back n h.fallback;
          plain = (plain_inv c t h.plain).1;
        })
        (rw (a, wildcard_loop) at e)
  | inr a ↦ elim (Bool-cases (q == b'*')) [
    | inl s ↦
        loop_complete G f p (c ∷ t) (some (p, c ∷ t))
          (Held-restart (λ g. two_stars (rw ((==_iff q b'*').0 s) at (h.later g))) h.plain)
          (rw (a, s, wildcard_loop) at e)
    | inr n ↦
        retry_complete G (q ∷ p) (c ∷ t) back (wildcard_loop f) (loop_complete G f) h.fallback
          (not-Glob-mismatch a n) (rw (a, n, wildcard_loop) at e)
  ]
]

wildcard_runes_sound : (p t : Text) → wildcard_runes p t ≡ true → Glob p t
unfolding wildcard_runes
wildcard_runes_sound p t h =
    let (b, e) = wildcard_loop-Ends (fuel_for p t) p t (grind arith) in
    loop_sound (Glob p t) (fuel_for p t) p t none (λ d. d) tt (ground arith)

wildcard_runes_complete :
    (p t : Text) → has_no_star t ≡ true → wildcard_runes p t ≡ false → ¬ Glob p t
unfolding wildcard_runes
wildcard_runes_complete p t plain h =
    let (b, e) = wildcard_loop-Ends (fuel_for p t) p t (grind arith) in
    loop_complete (Glob p t) (fuel_for p t) p t none
      (record { later = λ d. skip refl d; fallback = λ d. d; plain = plain }) (ground arith)

-- Whatever `wildcardMatch` accepts matches the pattern, both texts taken in lower case.
pub wildcard_match_sound :
    (u : Unicode) (pattern s : Text)
    → wildcard_match u pattern s ≡ true
    → Glob (to_lower u pattern) (to_lower u s)
unfolding wildcard_match
wildcard_match_sound u pattern s h = wildcard_runes_sound _ _ h

-- On a text with no star in it, `wildcardMatch` accepts exactly the texts that match the pattern,
-- both texts taken in lower case.
pub wildcard_match_iff :
    (u : Unicode) (pattern s : Text)
    → has_no_star (to_lower u s) ≡ true
    → (wildcard_match u pattern s ≡ true) ↔ Glob (to_lower u pattern) (to_lower u s)
unfolding wildcard_match
wildcard_match_iff u pattern s plain = (
  wildcard_match_sound u pattern s,
  λ d. elim (Bool-cases (wildcard_match u pattern s)) [
    | inl e ↦ e
    | inr e ↦ absurd (wildcard_runes_complete _ _ plain e d)
  ],
)

Glob-star : (t : Text) → Glob (b'*' ∷ []) t
Glob-star [] = skip refl done
Glob-star (c ∷ t) = eat refl (Glob-star t)

loop_star_in_text :
    (f c : ℕ) (t : Text) → 2 ≤ f → wildcard_loop f (b'*' ∷ []) (b'*' ∷ c ∷ t) none ≡ some false
unfolding wildcard_loop retry
loop_star_in_text zero c t h = absurd (omega arith)
loop_star_in_text (suc zero) c t h = absurd (omega arith)
loop_star_in_text (suc (suc f)) c t h = refl

-- A star in the text is taken for the pattern's star: where `*` is its own lower case, the pattern
-- `*` is refused by every text that begins with a star and goes on, though it matches them all.
pub wildcard_match_star_in_text :
    (u : Unicode) (c : ℕ) (t : Text)
    → u.lower b'*' ≡ b'*'
    → (wildcard_match u (b'*' ∷ []) (b'*' ∷ c ∷ t) ≡ false)
      × Glob (to_lower u (b'*' ∷ [])) (to_lower u (b'*' ∷ c ∷ t))
unfolding wildcard_match
wildcard_match_star_in_text u c t h = rw h (
  rw (
      loop_star_in_text (fuel_for (to_lower u (b'*' ∷ [])) (to_lower u (b'*' ∷ c ∷ t))) (u.lower c)
        (to_lower u t) (omega arith)),
  Glob-star (b'*' ∷ to_lower u (c ∷ t)),
)
