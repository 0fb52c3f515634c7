-- ===== src/Hash/Hex.antt =====
-- The names of hash types and the hexadecimal text of a hash, nstl/nstl/datahash.cpp.
use Prim.Native.Nat.{bit_and}
use nstl.Prelude.{
  ℕ, ◌+◌, ◌-◌, ◌*◌, ◌/◌, ◌<◌, ◌≡◌, refl, ap, ◌∙◌, true, some, List, [], ◌∷◌, ltb, ◌==◌,
  if◌then◌else◌, ==_iff, all_below, all_below_sound, length, All,
}
use nstl.Hash.{
  md5, sha1, sha256, sha512, HashType, hash_size, HashValue, IsHash, get_hash_type, digit_at,
  hex_loop, hash_to_hex,
}

abbrev hex_value : ℕ → ℕ
hex_value c = if ltb c 58 then c - 48 else c - 55

abbrev pub bytes_of_hex : List ℕ → List ℕ
bytes_of_hex [] = []
bytes_of_hex (hi ∷ []) = []
bytes_of_hex (hi ∷ lo ∷ s) = (hex_value hi * 16 + hex_value lo) ∷ bytes_of_hex s

byte_table :
    all_below 256
      (λ b. hex_value (digit_at (b / 16)) * 16 + hex_value (digit_at (bit_and b 0x0F)) == b)
    ≡ true
unfolding all_below
byte_table = refl

byte_back :
    (b : ℕ)
    → b < 256
    → hex_value (digit_at (b / 16)) * 16 + hex_value (digit_at (bit_and b 0x0F)) ≡ b
byte_back b h = (==_iff _ _).0 (all_below_sound 256 _ b byte_table h)

bytes_of_hex-hex_loop :
    (bytes : List ℕ) → All (λ b. b < 256) bytes → bytes_of_hex (hex_loop bytes) ≡ bytes
unfolding hex_loop
bytes_of_hex-hex_loop [] h = refl
bytes_of_hex-hex_loop (b ∷ bytes) (hb, h) = rw (byte_back b hb, bytes_of_hex-hex_loop bytes h) refl

get_hash_type_sized :
    (t : HashType) (bytes : List ℕ) → length bytes ≡ hash_size t → get_hash_type bytes ≡ some t
unfolding get_hash_type
get_hash_type_sized md5 bytes sized = rw sized refl
get_hash_type_sized sha1 bytes sized = rw sized refl
get_hash_type_sized sha256 bytes sized = rw sized refl
get_hash_type_sized sha512 bytes sized = rw sized refl

-- From the hexadecimal text of a hash both the bytes and the type can be read back.
pub get_hash_type-hash_to_hex :
    (h : HashValue)
    → IsHash h
    → (bytes_of_hex (hash_to_hex h) ≡ h.bytes)
      × (get_hash_type (bytes_of_hex (hash_to_hex h)) ≡ some h.hash_type)
unfolding hash_to_hex
get_hash_type-hash_to_hex h (sized, small) =
    let back = bytes_of_hex-hex_loop h.bytes small in
    (back, ap get_hash_type back ∙ get_hash_type_sized h.hash_type h.bytes sized)
