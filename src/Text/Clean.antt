-- ===== src/Text/Clean.antt =====
-- `cleanText` and `cleanTextOpt` of server/match.go: what they leave of a text.
use stem_computing_desktop_p.Prelude.{
  ℕ, ◌+◌, ◌-◌, ◌≤◌, ◌≡◌, refl, Bool, true, false, not, ◌&&◌, ◌||◌, [], ◌∷◌, arith, length, all,
  ◌==◌,
}
use stem_computing_desktop_p.Text.{
  Text, is_control, trim_space, unify_newlines, clean_from, clean_text_opt, clean_text,
}
use stem_computing_desktop_p.Text.Trim.{length-trim_space-le, all-trim_space, trim_space_idem}

-- The runes that cleaning keeps: no control characters, but line feeds where they are asked for.
abbrev pub is_kept : Bool → ℕ → Bool
is_kept keep_newlines c = c == 10 && keep_newlines || not (is_control c)

-- A text that cleaning leaves alone.
pub record IsClean (max : ℕ) (keep_newlines : Bool) (s : Text) : Type 0 where
  pub short : length s ≤ max
  pub kept : all (is_kept keep_newlines) s ≡ true
  pub trimmed : trim_space s ≡ s

length-clean_from-le :
    (max : ℕ) (k : Bool) (n : ℕ) (s : Text) → length (clean_from max k n s) ≤ max - n
unfolding clean_from
length-clean_from-le max k n [] = omega arith
length-clean_from-le max k n (c ∷ s) =
    ground (arith, length-clean_from-le max k n s, length-clean_from-le max k (n + 1) s)

all-clean_from :
    (max : ℕ) (k : Bool) (n : ℕ) (s : Text) → all (is_kept k) (clean_from max k n s) ≡ true
unfolding clean_from
all-clean_from max k n [] = refl
all-clean_from max k n (c ∷ s) =
    ground (arith, all-clean_from max k n s, all-clean_from max k (n + 1) s)

clean_from_kept :
    (max : ℕ) (k : Bool) (n : ℕ) (s : Text)
    → length s + n ≤ max
    → all (is_kept k) s ≡ true
    → clean_from max k n s ≡ s
unfolding clean_from
clean_from_kept max k n [] h a = refl
clean_from_kept max k n (c ∷ s) h a = ground (arith, clean_from_kept max k (n + 1) s)

unify_newlines_kept : (k : Bool) (s : Text) → all (is_kept k) s ≡ true → unify_newlines s ≡ s
unfolding unify_newlines is_control
unify_newlines_kept k [] a = refl
unify_newlines_kept k (c ∷ s) a = ground (arith, unify_newlines_kept k s)

-- A cleaned text has at most `max` runes, no control character (but line feeds where they are
-- kept), and no space at either end.
pub clean_text_opt-IsClean :
    (s : Text) (max : ℕ) (k : Bool) → IsClean max k (clean_text_opt s max k)
unfolding clean_text_opt
clean_text_opt-IsClean s max k = record {
  short = omega (
    arith,
    length-trim_space-le (clean_from max k 0 (unify_newlines s)),
    length-clean_from-le max k 0 (unify_newlines s),
  );
  kept =
      all-trim_space (is_kept k) (clean_from max k 0 (unify_newlines s))
        (all-clean_from max k 0 (unify_newlines s));
  trimmed = trim_space_idem (clean_from max k 0 (unify_newlines s));
}

pub clean_text_opt_clean :
    (s : Text) (max : ℕ) (k : Bool) → IsClean max k s → clean_text_opt s max k ≡ s
unfolding clean_text_opt
clean_text_opt_clean s max k c =
    rw (unify_newlines_kept k s c.kept, clean_from_kept max k 0 s (omega arith) c.kept) c.trimmed

-- Cleaning a cleaned text changes nothing, with or without line feeds.
pub clean_text_opt_idem :
    (s : Text) (max : ℕ) (k : Bool)
    → clean_text_opt (clean_text_opt s max k) max k ≡ clean_text_opt s max k
clean_text_opt_idem s max k = clean_text_opt_clean _ max k (clean_text_opt-IsClean s max k)

pub clean_text_idem : (s : Text) (max : ℕ) → clean_text (clean_text s max) max ≡ clean_text s max
unfolding clean_text
clean_text_idem s max = clean_text_opt_idem s max false

pub clean_text-IsClean : (s : Text) (max : ℕ) → IsClean max false (clean_text s max)
unfolding clean_text
clean_text-IsClean s max = clean_text_opt-IsClean s max false
