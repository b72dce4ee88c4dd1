-- ===== src/Auth/Random/Readable.antt =====
-- What `generatePassword` gives can be read off a screen, and is long enough for a password.
use stem_computing_desktop_p.Prelude.{
  ℕ, zero, suc, ◌%◌, ◌<◌, ◌≡◌, refl, Bool, true, not, ◌&&◌, ◌||◌, List, [], ◌∷◌, ◌++◌, arith, all,
  take, drop, map, length, get_elem?, get_or, leb, ◌==◌, ◌∙◌, Bool-cases, inl, inr, length-append,
  length-take, length-drop,
}
use native.Mathlib.Nat.{mod-lt}
use stem_computing_desktop_p.Text.{Text, width, len}
use stem_computing_desktop_p.Platform.{Bytes}
use stem_computing_desktop_p.Auth.Random.{alphabet, letter, dashed, generate_password}

-- A letter, a digit or a dash, and none of those that look alike: i, l, o, I, L, O, 0 and 1.
abbrev pub is_readable : ℕ → Bool
is_readable c =
    (leb b'a' c && leb c b'z' || leb b'A' c && leb c b'Z' || leb b'2' c && leb c b'9' || c == b'-')
    && not (c == b'i')
    && not (c == b'l')
    && not (c == b'o')
    && not (c == b'I')
    && not (c == b'L')
    && not (c == b'O')

all-get_elem? :
    {A : Type 0} (p : A → Bool) (xs : List A) (n : ℕ) (d : A)
    → all p xs ≡ true
    → n < length xs
    → p (get_or (get_elem? xs n) d) ≡ true
all-get_elem? p [] n d a h = absurd (omega arith)
all-get_elem? p (x ∷ xs) zero d a h = ground (arith, a)
all-get_elem? p (x ∷ xs) (suc n) d a h = all-get_elem? p xs n d (ground (arith, a)) (omega arith)

all-append :
    {A : Type 0} (p : A → Bool) (xs ys : List A)
    → all p xs ≡ true
    → all p ys ≡ true
    → all p (xs ++ ys) ≡ true
all-append p [] ys a b = b
all-append p (x ∷ xs) ys a b = ground (arith, all-append p xs ys)

all-take :
    {A : Type 0} (p : A → Bool) (n : ℕ) (xs : List A) → all p xs ≡ true → all p (take n xs) ≡ true
all-take p zero xs a = refl
all-take p (suc n) [] a = refl
all-take p (suc n) (x ∷ xs) a = ground (arith, all-take p n xs)

all-drop :
    {A : Type 0} (p : A → Bool) (n : ℕ) (xs : List A) → all p xs ≡ true → all p (drop n xs) ≡ true
all-drop p zero xs a = a
all-drop p (suc n) [] a = refl
all-drop p (suc n) (x ∷ xs) a = ground (arith, all-drop p n xs)

letter-readable : (b : ℕ) → is_readable (letter b) ≡ true
letter-readable b =
    all-get_elem? is_readable alphabet (b % length alphabet) 0 refl (mod-lt b (omega arith))

letters-readable : (b : Bytes) → all is_readable (map letter b) ≡ true
letters-readable [] = refl
letters-readable (x ∷ b) = rw (letter-readable x) (letters-readable b)

width-readable : (c : ℕ) → is_readable c ≡ true → width c ≡ 1
unfolding width
width-readable c a = ground (arith, a)

all_inv : (p : ℕ → Bool) (c : ℕ) (s : Text) → all p (c ∷ s) ≡ true → (p c ≡ true) × (all p s ≡ true)
all_inv p c s a = elim (Bool-cases (p c)) [
  | inl t ↦ (t, rw (t) at a)
  | inr f ↦ absurd (ground (arith, a, f))
]

len-readable : (s : Text) → all is_readable s ≡ true → len s ≡ length s
unfolding len
len-readable [] a = refl
len-readable (c ∷ s) a =
    let (x, y) = all_inv is_readable c s a in omega (arith, width-readable c x, len-readable s y)

dashed-readable : (ls : Text) → all is_readable ls ≡ true → all is_readable (dashed ls) ≡ true
dashed-readable ls r =
    let four : (n : ℕ) → all is_readable (take 4 (drop n ls)) ≡ true =
      λ n. all-take is_readable 4 (drop n ls) (all-drop is_readable n ls r) in
    all-append is_readable (take 4 ls) _ (all-take is_readable 4 ls r) (
      all-append is_readable (take 4 (drop 4 ls)) _ (four 4)
        (all-append is_readable (take 4 (drop 8 ls)) _ (four 8) (all-drop is_readable 12 ls r)))

length-letters : (b : Bytes) → length (map letter b) ≡ length b
length-letters [] = refl
length-letters (x ∷ b) = omega (arith, length-letters b)

length-dashed : (ls : Text) → length ls ≡ 16 → length (dashed ls) ≡ 19
length-dashed ls h = omega (
  arith,
  length-append (take 4 ls)
      (b'-' ∷ take 4 (drop 4 ls) ++ (b'-' ∷ take 4 (drop 8 ls) ++ (b'-' ∷ drop 12 ls))),
  length-append (take 4 (drop 4 ls)) (b'-' ∷ take 4 (drop 8 ls) ++ (b'-' ∷ drop 12 ls)),
  length-append (take 4 (drop 8 ls)) (b'-' ∷ drop 12 ls),
  length-take 4 ls,
  length-take 4 (drop 4 ls),
  length-take 4 (drop 8 ls),
  length-drop 4 ls,
  length-drop 8 ls,
  length-drop 12 ls,
)

-- A generated password has 19 bytes, and each is a letter, a digit or a dash, but none of i, l, o,
-- I, L, O, 0 and 1, when the random source gave 16 bytes.
pub generate_password-readable :
    (b : Bytes)
    → length b ≡ 16
    → (len (generate_password b) ≡ 19) × (all is_readable (generate_password b) ≡ true)
unfolding generate_password
generate_password-readable b h =
    let ok = dashed-readable (map letter b) (letters-readable b) in
    (
      len-readable (generate_password b) ok ∙ length-dashed (map letter b) (length-letters b ∙ h),
      ok,
    )
