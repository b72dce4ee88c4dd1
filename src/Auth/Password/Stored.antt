-- ===== src/Auth/Password/Stored.antt =====
-- A password is verified against the text that `hashPassword` stores.
use stem_computing_desktop_p.Prelude.{
  ℕ, zero, suc, ◌+◌, ◌≡◌, refl, ap, ◌∙◌, Bool, true, not, some, [], ◌∷◌, ◌++◌, arith, all, ◌==◌,
  length, length-take, length-append, ◌*◌, ◌-◌, ◌/◌,
}
use stem_computing_desktop_p.Text.{Text, codes, text_eq}
use stem_computing_desktop_p.Text.Equality.{text_eq_refl}
use stem_computing_desktop_p.Platform.{Platform, Bytes}
use stem_computing_desktop_p.Auth.Password.{
  pbkdf2_sha256, derive_blocks, derive_block, iterate, xor_bytes, hash_len, hash_password, scheme,
  dollar, split, split_from, verify_parts, verify_password, natural, atoi, digits_from,
  pbkdf2_iterations, big_endian,
}

length-xor_bytes : (t u : Bytes) → length (xor_bytes t u) ≡ length t
unfolding xor_bytes
length-xor_bytes [] u = refl
length-xor_bytes (x ∷ t) [] = refl
length-xor_bytes (x ∷ t) (y ∷ u) = omega (arith, length-xor_bytes t u)

length-iterate : (prf : Bytes → Bytes) (n : ℕ) (u t : Bytes) → length (iterate prf n u t) ≡ length t
unfolding iterate
length-iterate prf zero u t = refl
length-iterate prf (suc n) u t =
    omega (arith, length-iterate prf n (prf u) (xor_bytes t (prf u)), length-xor_bytes t (prf u))

length-derive_blocks :
    (prf : Bytes → Bytes) (salt : Bytes) (iter n block : ℕ)
    → ((m : Bytes) → length (prf m) ≡ hash_len)
    → length (derive_blocks prf salt iter n block) ≡ n * hash_len
unfolding derive_blocks derive_block
length-derive_blocks prf salt iter zero block h = omega arith
length-derive_blocks prf salt iter (suc n) block h =
    let u = prf (salt ++ big_endian block) in
    omega (
      arith,
      length-append (derive_block prf salt iter block) (derive_blocks prf salt iter n (block + 1)),
      length-iterate prf (iter - 1) u u,
      h (salt ++ big_endian block),
      length-derive_blocks prf salt iter n (block + 1) h,
    )

-- Where the HMAC gives 32 bytes, the derived key has exactly the length that is asked for.
pub length-pbkdf2_sha256 :
    (e : Platform) (password salt : Bytes) (iter key_len : ℕ)
    → ((m : Bytes) → length (e.hmac_sha256 password m) ≡ hash_len)
    → length (pbkdf2_sha256 e password salt iter key_len) ≡ key_len
unfolding pbkdf2_sha256
length-pbkdf2_sha256 e password salt iter key_len h =
    let n = (key_len + hash_len - 1) / hash_len in
    omega (
      arith,
      length-take key_len (derive_blocks (e.hmac_sha256 password) salt iter n 1),
      length-derive_blocks (e.hmac_sha256 password) salt iter n 1 h,
    )

abbrev pub lacks : ℕ → Text → Bool
lacks c t = all (λ d. not (c == d)) t

split_from-append :
    (c : ℕ) (t s : Text)
    → lacks c t ≡ true
    → split_from c (t ++ c ∷ s) ≡ (t, (split_from c s).0 ∷ (split_from c s).1)
unfolding split_from
split_from-append c [] s h = ground arith
split_from-append c (d ∷ t) s h = ground (arith, split_from-append c t s)

split_from-last : (c : ℕ) (t : Text) → lacks c t ≡ true → split_from c t ≡ (t, [])
unfolding split_from
split_from-last c [] h = refl
split_from-last c (d ∷ t) h = ground (arith, split_from-last c t)

-- What the base64 package documents: a text that it encodes is read back, and holds no dollar.
pub record Base64Laws (e : Platform) : Type 0 where
  pub read_back : (b : Bytes) → e.base64_decode (e.base64_encode b) ≡ some b
  pub no_dollar : (b : Bytes) → lacks dollar (e.base64_encode b) ≡ true

split_stored :
    (a b c d : Text)
    → lacks dollar a ≡ true
    → lacks dollar b ≡ true
    → lacks dollar c ≡ true
    → lacks dollar d ≡ true
    → split dollar (a ++ (dollar ∷ b ++ (dollar ∷ c ++ (dollar ∷ d)))) ≡ a ∷ b ∷ c ∷ d ∷ []
unfolding split
split_stored a b c d ha hb hc hd = ground (
  arith,
  split_from-append dollar a (b ++ (dollar ∷ c ++ (dollar ∷ d))) ha,
  split_from-append dollar b (c ++ (dollar ∷ d)) hb,
  split_from-append dollar c d hc,
  split_from-last dollar d hd,
)

verify_parts-hash_password :
    (e : Platform) (salt : Bytes) (pw : Text)
    → Base64Laws e
    → ((m : Bytes) → length (e.hmac_sha256 (e.utf8 pw) m) ≡ hash_len)
    → verify_parts e
        (scheme
          ∷ codes "210000"
          ∷ e.base64_encode salt
          ∷ e.base64_encode (pbkdf2_sha256 e (e.utf8 pw) salt pbkdf2_iterations 32)
          ∷ [])
        pw
      ≡ true
unfolding verify_parts atoi natural digits_from text_eq
verify_parts-hash_password e salt pw b h =
    let key = pbkdf2_sha256 e (e.utf8 pw) salt pbkdf2_iterations 32 in
    rw
      (
        b.read_back salt,
        b.read_back key,
        length-pbkdf2_sha256 e (e.utf8 pw) salt pbkdf2_iterations 32 h,
      )
      (text_eq_refl key)

-- The password that was hashed is accepted, whatever the salt, where base64 can be read back and
-- the HMAC gives 32 bytes.
pub verify_password-hash_password :
    (e : Platform) (salt : Bytes) (pw : Text)
    → Base64Laws e
    → ((m : Bytes) → length (e.hmac_sha256 (e.utf8 pw) m) ≡ hash_len)
    → verify_password e (hash_password e salt pw) pw ≡ true
unfolding verify_password hash_password
verify_password-hash_password e salt pw b h =
    let key = e.base64_encode (pbkdf2_sha256 e (e.utf8 pw) salt pbkdf2_iterations 32) in
    ap (λ parts. verify_parts e parts pw)
      (split_stored scheme (codes "210000") (e.base64_encode salt) key refl refl (b.no_dollar salt)
        (b.no_dollar (pbkdf2_sha256 e (e.utf8 pw) salt pbkdf2_iterations 32)))
    ∙ verify_parts-hash_password e salt pw b h
