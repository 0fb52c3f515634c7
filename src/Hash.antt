-- ===== src/Hash.antt =====
-- Digests of data, nstl/nstl/datahash.cpp. The digest algorithms (OpenSSL, CommonCrypto or CNG) are
-- an argument, and so are the file system's calls.
pub mod Hex
pub mod File
use Prim.Native.Nat.{bit_and}
use nstl.Prelude.{
  ℕ, zero, suc, ◌+◌, ◌-◌, ◌*◌, ◌/◌, ◌%◌, ◌^◌, ◌≤◌, ◌<◌, min, ◌≡◌, refl, sym, ap, ◌∙◌, ◌≢◌, ◌↔◌, ◌⊎◌,
  inl, inr, Bool, true, false, ◌&&◌, ◌||◌, not, Option, none, some, List, [], ◌∷◌, ◌++◌, map,
  append-nil, append_assoc, arith, ltb, leb, ◌==◌, if◌then◌else◌, same_text, same_text_iff, ltb→lt,
  lt→ltb, leb→le, le→leb, ==_iff, tests, Bool-cases, Option-cases, all_below, all_below_sound,
  length, get_elem?, take, drop, replicate, length-append, take-append-drop, length-take,
  length-drop, length-replicate, take-append, drop-append, take-append_of_le, take-append_of_ge,
  append-replicate, take_of_ge, drop_of_ge, length-map, All, All-append, Exception, nstl_exception,
  length_error, bad_alloc, runtime_error, out_of_range, invalid_argument, Result, ok, err, ◌>>=◌,
  ◌>>◌, throw_if, >>=-eq-ok, Result-cases, get_elem?_of_lt, nil_of_length, find, c_string, codes,
  drop_next,
}

-- The enumeration HashType, whose Default is SHA256, and its values.
pub data HashType : Type 0 where
  md5 sha1 sha256 sha512 : HashType

abbrev pub hash_size : HashType → ℕ
hash_size md5 = 16
hash_size sha1 = 20
hash_size sha256 = 32
hash_size sha512 = 64

-- HashValue: the alternative that is held and the bytes of its array.
pub record HashValue : Type 0 where
  pub hash_type : HashType
  pub bytes : List ℕ

abbrev pub IsHash : HashValue → Type 0
IsHash h = (length h.bytes ≡ hash_size h.hash_type) × All (λ b. b < 256) h.bytes

-- get_hash_type of a span: the switch over its size.
unfoldable pub get_hash_type : List ℕ → Option HashType
get_hash_type hash =
    if length hash == 16
    then some md5
    else if length hash == 20
    then some sha1
    else if length hash == 32
    then some sha256
    else if length hash == 64
    then some sha512
    else none

unfoldable pub parse_hash_type : List ℕ → Result (Option HashType)
parse_hash_type name =
    if length name == 0
    then ok none
    else if same_text name (codes "MD5")
    then ok (some md5)
    else if same_text name (codes "SHA") || same_text name (codes "SHA1")
    then ok (some sha1)
    else if same_text name (codes "SHA256")
    then ok (some sha256)
    else if same_text name (codes "SHA512")
    then ok (some sha512)
    else if same_text name (codes "Default")
    then ok (some sha256)
    else err nstl_exception

abbrev pub digits : List ℕ
digits = codes "0123456789ABCDEF"

-- `_digits[n]`, whose index is below 16 for a byte.
abbrev pub digit_at : ℕ → ℕ
digit_at n = elim (get_elem? digits n) [ none ↦ 0 | some c ↦ c ]

unfoldable pub hex_loop : List ℕ → List ℕ
hex_loop [] = []
hex_loop (b ∷ bytes) = digit_at (b / 16) ∷ digit_at (bit_and b 0x0F) ∷ hex_loop bytes

unfoldable pub hash_to_hex : HashValue → List ℕ
hash_to_hex hash = hex_loop hash.bytes

-- The virtual functions of a Hasher over the state that it keeps, and what every digest satisfies:
-- how the data is cut does not count.
pub record Hasher : Type 1 where
  pub State : Type 0
  pub factory : HashType → State
  pub add : State → List ℕ → State
  pub finish : State → HashValue

pub record HasherLaws (hasher : Hasher) : Type 1 where
  pub add-nothing : (s : hasher.State) → hasher.add s [] ≡ s
  pub add-append :
      (s : hasher.State) (a b : List ℕ) → hasher.add s (a ++ b) ≡ hasher.add (hasher.add s a) b

-- A file: whether it can be opened, and what its k-th read gives at an offset with a buffer of some
-- size: the bytes, of which there are none at the end, or an error.
pub record InputFile : Type 0 where
  pub is_open : Bool
  pub read : ℕ → ℕ → ℕ → Option (List ℕ)

-- The number of bytes that a read gives, in the 32 bits of an int.
abbrev pub read_bytes : List ℕ → ℕ
read_bytes chunk = length chunk % 2 ^ 32

module _ (hasher : Hasher) where
  -- The loop of `hash_file_impl`, with the number of reads and the offset in the file; the outer `none`
  -- means that the fuel ran out. An int of 2 ^ 31 and more is negative.
  unfoldable pub read_loop :
      ℕ → (ℕ → ℕ → Option (List ℕ)) → ℕ → ℕ → hasher.State → Option (Result hasher.State)
  read_loop zero read k offset s = none
  read_loop (suc fuel) read k offset s = elim (read k offset) [
    | none ↦ some (err nstl_exception)
    | some chunk ↦
        let rest : Option (Result hasher.State) =
          read_loop fuel read (k + 1) (offset + length chunk)
            (hasher.add s (take (read_bytes chunk) chunk)) in
        if leb (2 ^ 31) (read_bytes chunk)
        then some (err nstl_exception)
        else if read_bytes chunk == 0
        then some (ok s)
        else rest
  ]

  abbrev pub finished : Option (Result hasher.State) → Option (Result HashValue)
  finished none = none
  finished (some (err e)) = some (err e)
  finished (some (ok s)) = some (ok (hasher.finish s))

  unfoldable pub hash_file_impl : ℕ → List ℕ → InputFile → HashType → ℕ → Option (Result HashValue)
  unfolding read_loop
  hash_file_impl fuel path file type buffersize =
      if length path == 0 || not file.is_open
      then some (err nstl_exception)
      else finished
          (read_loop fuel (λ k offset. file.read k offset buffersize) 0 0 (hasher.factory type))

  unfoldable pub hash_file : ℕ → List ℕ → InputFile → HashType → ℕ → Option (Result HashValue)
  hash_file fuel path file type buffersize =
      if buffersize == 0
      then some (err nstl_exception)
      else hash_file_impl fuel path file type (buffersize % 2 ^ 32)
