-- ===== src/Auth/Password.antt =====
-- Password hashes of server/auth.go: PBKDF2 over an HMAC that is a parameter, and the text in which
-- a hash is stored.
pub mod Stored
use stem_computing_desktop_p.Prelude.{
  ℕ, zero, suc, ◌+◌, ◌-◌, ◌*◌, ◌/◌, ◌%◌, Bool, true, false, not, ◌&&◌, ◌||◌, Option, none, some,
  List, [], ◌∷◌, ◌++◌, ltb, leb, ◌==◌, if◌then◌else◌, take, length,
}
use Prim.Native.Nat.{bit_xor}
use stem_computing_desktop_p.Prelude.Int.{ℤ, pos, negsuc, is_below, is_above, pos_part}
use stem_computing_desktop_p.Text.{Text, codes, text_eq}
use stem_computing_desktop_p.Platform.{Platform, Bytes}

abbrev pub pbkdf2_iterations : ℕ
pbkdf2_iterations = 210_000

-- prf.Size() of SHA-256
abbrev pub hash_len : ℕ
hash_len = 32

-- the loop `t[j] ^= u[j]` over the bytes of `t`
unfoldable pub xor_bytes : Bytes → Bytes → Bytes
xor_bytes [] u = []
xor_bytes (x ∷ t) [] = x ∷ t
xor_bytes (x ∷ t) (y ∷ u) = bit_xor x y ∷ xor_bytes t u

-- binary.BigEndian.PutUint32 of the block's number
abbrev pub big_endian : ℕ → Bytes
big_endian n = n / 16_777_216 % 256 ∷ n / 65_536 % 256 ∷ n / 256 % 256 ∷ n % 256 ∷ []

-- the loop over `i`, `n` rounds of it
unfoldable pub iterate : (Bytes → Bytes) → ℕ → Bytes → Bytes → Bytes
unfolding xor_bytes
iterate prf zero u t = t
iterate prf (suc n) u t = iterate prf n (prf u) (xor_bytes t (prf u))

-- one block
unfoldable pub derive_block : (Bytes → Bytes) → Bytes → ℕ → ℕ → Bytes
unfolding iterate
derive_block prf salt iter block =
    let u = prf (salt ++ big_endian block) in iterate prf (iter - 1) u u

-- the loop over the blocks, `n` of them from `block` on
unfoldable pub derive_blocks : (Bytes → Bytes) → Bytes → ℕ → ℕ → ℕ → Bytes
unfolding derive_block
derive_blocks prf salt iter zero block = []
derive_blocks prf salt iter (suc n) block =
    derive_block prf salt iter block ++ derive_blocks prf salt iter n (block + 1)

-- pbkdf2SHA256
unfoldable pub pbkdf2_sha256 : Platform → Bytes → Bytes → ℕ → ℕ → Bytes
unfolding derive_blocks
pbkdf2_sha256 e password salt iter key_len =
    take key_len
      (derive_blocks (e.hmac_sha256 password) salt iter ((key_len + hash_len - 1) / hash_len) 1)

abbrev pub scheme : Text
scheme = codes "pbkdf2-sha256"

abbrev pub dollar : ℕ
dollar = b'$'

-- hashPassword, from the salt that was drawn
unfoldable pub hash_password : Platform → Bytes → Text → Text
hash_password e salt pw =
    scheme
    ++ (dollar ∷ codes "210000"
        ++ (dollar ∷ e.base64_encode salt
            ++ (dollar ∷ e.base64_encode (pbkdf2_sha256 e (e.utf8 pw) salt pbkdf2_iterations 32))))

-- strings.Split at one rune: the part before the first one, and the parts after it
unfoldable pub split_from : ℕ → Text → Text × List Text
split_from c [] = ([], [])
split_from c (d ∷ s) =
    let (part, parts) = split_from c s in if c == d then ([], part ∷ parts) else (d ∷ part, parts)

unfoldable pub split : ℕ → Text → List Text
unfolding split_from
split c s = let (part, parts) = split_from c s in part ∷ parts

abbrev pub is_digit : ℕ → Bool
is_digit c = leb b'0' c && leb c b'9'

-- the digits of a number, read onto what stands before them
unfoldable pub digits_from : ℕ → Text → Option ℕ
digits_from n [] = some n
digits_from n (c ∷ s) =
    let rest = digits_from (10 * n + (c - b'0')) s in if is_digit c then rest else none

abbrev pub max_int : ℕ
max_int = 9_223_372_036_854_775_807

-- A number without a sign, within 64 bits.
unfoldable pub natural : Text → Option ℕ
unfolding digits_from
natural [] = none
natural (c ∷ s) = elim (digits_from 0 (c ∷ s)) [
  | none ↦ none
  | some n ↦ if leb n max_int then some n else none
]

-- strconv.Atoi; the server refuses every negative number alike, so they are all one
unfoldable pub atoi : Text → Option ℤ
unfolding natural
atoi [] = none
atoi (c ∷ s) =
    if c == b'+'
    then elim (natural s) [ none ↦ none | some n ↦ some (pos n) ]
    else if c == b'-'
    then elim (natural s) [ none ↦ none | some n ↦ some (if n == 0 then pos 0 else negsuc (n - 1)) ]
    else elim (natural (c ∷ s)) [ none ↦ none | some n ↦ some (pos n) ]

-- iter < 1000 || iter > 10000000
abbrev pub is_iterations : ℤ → Bool
is_iterations i = not (is_below i 1000 || is_above i 10_000_000)

-- the last check of `verifyPassword`; a comparison in constant time has the same result
abbrev pub fits : Platform → ℕ → Text → Option Bytes → Option Bytes → Bool
fits e iter pw (some salt) (some want) =
    text_eq (pbkdf2_sha256 e (e.utf8 pw) salt iter (length want)) want
fits e iter pw _ _ = false

-- verifyPassword, once the text is split
unfoldable pub verify_parts : Platform → List Text → Text → Bool
unfolding atoi
verify_parts e (name ∷ iter ∷ salt ∷ want ∷ []) pw = text_eq name scheme && elim (atoi iter) [
  | none ↦ false
  | some i ↦ is_iterations i && fits e (pos_part i) pw (e.base64_decode salt) (e.base64_decode want)
]
verify_parts e _ pw = false

-- verifyPassword
unfoldable pub verify_password : Platform → Text → Text → Bool
unfolding verify_parts split
verify_password e stored pw = verify_parts e (split dollar stored) pw
