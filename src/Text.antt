-- ===== src/Text.antt =====
-- Strings as lists of runes, and the functions of Go's `strings` and `unicode` packages that the
-- server calls. Texts that come from a request are valid UTF-8, because the JSON decoder replaces
-- what is not; `len` of a text is its length in bytes.
pub mod Equality
pub mod Trim
pub mod Clean
use Prim.Native.Char.{code}
use Prim.Native.String
use stem_computing_desktop_p.Prelude.{
  ℕ, ◌+◌, ◌-◌, String, Bool, true, false, not, ◌&&◌, ◌||◌, Option, none, some, List, [], ◌∷◌, ◌++◌,
  map, ltb, leb, ◌==◌, if◌then◌else◌, is_empty, replicate,
}

abbrev pub Text : Type 0
Text = List ℕ

-- The runes of a text literal.
abbrev pub codes : String → Text
codes String.[] = []
codes (String.◌∷◌ c s) = code c ∷ codes s

-- a == b
unfoldable pub text_eq : Text → Text → Bool
text_eq [] [] = true
text_eq (c ∷ a) (d ∷ b) = c == d && text_eq a b
text_eq _ _ = false

-- unicode.IsSpace
unfoldable pub is_space : ℕ → Bool
is_space c =
    leb 9 c && leb c 13
    || c == 32
    || c == 0x85
    || c == 0xa0
    || c == 0x1680
    || leb 0x2000 c && leb c 0x200a
    || c == 0x2028
    || c == 0x2029
    || c == 0x202f
    || c == 0x205f
    || c == 0x3000

-- unicode.IsControl
unfoldable pub is_control : ℕ → Bool
is_control c = ltb c 32 || leb 0x7f c && ltb c 0xa0

unfoldable pub trim_left : Text → Text
trim_left [] = []
trim_left (c ∷ s) = if is_space c then trim_left s else c ∷ s

unfoldable pub trim_right : Text → Text
trim_right [] = []
trim_right (c ∷ s) = let r = trim_right s in if is_empty r && is_space c then [] else c ∷ r

-- strings.TrimSpace
unfoldable pub trim_space : Text → Text
unfolding trim_left trim_right is_space
trim_space s = trim_right (trim_left s)

unfoldable pub starts_with : Text → Text → Bool
starts_with [] s = true
starts_with (p ∷ ps) [] = false
starts_with (p ∷ ps) (c ∷ s) = p == c && starts_with ps s

-- strings.Contains(s, sub)
unfoldable pub contains : Text → Text → Bool
unfolding starts_with
contains [] sub = is_empty sub
contains (c ∷ s) sub = starts_with sub (c ∷ s) || contains s sub

-- strings.ContainsAny
unfoldable pub contains_any : Text → Text → Bool
contains_any [] set = false
contains_any (c ∷ s) set = has c set || contains_any s set
  where
    has : ℕ → Text → Bool
    has c [] = false
    has c (d ∷ ds) = c == d || has c ds

-- What follows the last `c` of a text: strings.LastIndex and the slice after it.
unfoldable pub after_last : ℕ → Text → Option Text
after_last c [] = none
after_last c (d ∷ s) = elim (after_last c s) [
  | some r ↦ some r
  | none ↦ if c == d then some s else none
]

-- strings.Join
unfoldable pub join : List Text → Text → Text
join [] sep = []
join (p ∷ []) sep = p
join (p ∷ q ∷ ps) sep = p ++ (sep ++ join (q ∷ ps) sep)

-- How many bytes UTF-8 gives a rune.
unfoldable pub width : ℕ → ℕ
width c = if ltb c 0x80 then 1 else if ltb c 0x800 then 2 else if ltb c 0x10000 then 3 else 4

-- len(s)
unfoldable pub len : Text → ℕ
unfolding width
len [] = 0
len (c ∷ s) = width c + len s

-- s[:n], read as runes again: each byte of a rune that the cut falls in reads as U+FFFD.
unfoldable pub byte_prefix : ℕ → Text → Text
unfolding width
byte_prefix n [] = []
byte_prefix n (c ∷ s) =
    let rest = byte_prefix (n - width c) s in
    if leb (width c) n then c ∷ rest else replicate n 0xfffd

-- strings.ReplaceAll(s, "\r\n", "\n"): a return goes where a line feed follows it.
unfoldable pub unify_newlines : Text → Text
unify_newlines [] = []
unify_newlines (c ∷ s) =
    let rest = unify_newlines s in if c == 13 && starts_with (10 ∷ []) s then rest else c ∷ rest

-- The case tables of Go's `unicode` package.
pub record Unicode : Type 0 where
  -- unicode.ToLower
  pub lower : ℕ → ℕ
  -- one representative of each class of runes that unicode.SimpleFold connects
  pub fold : ℕ → ℕ

-- strings.ToLower
abbrev pub to_lower : Unicode → Text → Text
to_lower u = map u.lower

-- strings.EqualFold
unfoldable pub equal_fold : Unicode → Text → Text → Bool
equal_fold u a b = text_eq (map u.fold a) (map u.fold b)

-- The loop of `cleanTextOpt` over the runes; `n` runes are written already.
unfoldable pub clean_from : ℕ → Bool → ℕ → Text → Text
unfolding is_control
clean_from max keep_newlines n [] = []
clean_from max keep_newlines n (c ∷ s) =
    let skipped = clean_from max keep_newlines n s in
    let rest = clean_from max keep_newlines (n + 1) s in
    if not (c == 10 && keep_newlines) && is_control c
    then skipped
    else if leb max n
    then []
    else c ∷ rest

-- cleanTextOpt
unfoldable pub clean_text_opt : Text → ℕ → Bool → Text
unfolding clean_from unify_newlines trim_space starts_with
clean_text_opt s max keep_newlines = trim_space (clean_from max keep_newlines 0 (unify_newlines s))

-- cleanText
unfoldable pub clean_text : Text → ℕ → Text
unfolding clean_text_opt
clean_text s max = clean_text_opt s max false
