-- ===== src/Auth/Random.antt =====
-- `newID` and `randomSecret` of server/store.go and `generatePassword` of server/auth.go, on the
-- bytes that the random source gives.
pub mod Readable
use stem_computing_desktop_p.Prelude.{
  ℕ, ◌%◌, [], ◌∷◌, ◌++◌, take, drop, map, length, get_elem?, get_or,
}
use stem_computing_desktop_p.Text.{Text, codes}
use stem_computing_desktop_p.Platform.{Bytes}
use stem_computing_desktop_p.Delivery.{hex}

-- newID, on 8 bytes
unfoldable pub new_id : Bytes → Text
unfolding hex
new_id b = hex b

-- randomSecret
unfoldable pub random_secret : Bytes → Text
unfolding hex
random_secret b = hex b

abbrev pub alphabet : Text
alphabet = codes "abcdefghjkmnpqrstuvwxyzABCDEFGHJKMNPQRSTUVWXYZ23456789"

-- alphabet[int(b)%len(alphabet)]
abbrev pub letter : ℕ → ℕ
letter b = get_or (get_elem? alphabet (b % length alphabet)) 0

-- the four groups of letters, with dashes between them
abbrev pub dashed : Text → Text
dashed b =
    take 4 b ++ (b'-' ∷ take 4 (drop 4 b) ++ (b'-' ∷ take 4 (drop 8 b) ++ (b'-' ∷ drop 12 b)))

-- generatePassword, on 16 bytes
unfoldable pub generate_password : Bytes → Text
generate_password b = dashed (map letter b)
