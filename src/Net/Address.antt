-- ===== src/Net/Address.antt =====
-- Addresses, netmasks and ranges: the class templates of nstl/nstl/ip_tools.hpp. The template
-- argument `ip_size` is an argument here, and an address is the list of its bytes.
pub mod Bits
pub mod Mask
pub mod Prefix
use Prim.Native.Nat.{bit_and}
use nstl.Prelude.{
  ℕ, zero, suc, ◌+◌, ◌-◌, ◌*◌, ◌%◌, ◌^◌, ◌<◌, ◌≡◌, refl, Bool, true, false, ◌&&◌, List, [], ◌∷◌,
  ltb, leb, ◌==◌, if◌then◌else◌, replicate, length, All, Result, ok, err, Exception, nstl_exception,
  throw_if, ◌>>=◌, ◌>>◌,
}

abbrev pub bytes_in_bits : ℕ
bytes_in_bits = 8

abbrev pub ipv4_size : ℕ
ipv4_size = 4

abbrev pub ipv6_size : ℕ
ipv6_size = 16

abbrev pub IpAddrBase : Type 0
IpAddrBase = List ℕ

-- What the C++ type std::array<std::uint8_t, ip_size> guarantees of an address.
abbrev pub IsAddr : ℕ → IpAddrBase → Type 0
IsAddr ip_size a = (length a ≡ ip_size) × All (λ b. b < 256) a

-- Both arrays have the same length; the third argument of the source is the result.
unfoldable pub and_arrays : IpAddrBase → IpAddrBase → IpAddrBase
and_arrays [] b = []
and_arrays (x ∷ a) [] = []
and_arrays (x ∷ a) (y ∷ b) = bit_and x y ∷ and_arrays a b

-- The loop of `create_mask` over the bytes that are left. When `mask_` reaches 0 the bytes that
-- follow keep the 0 of the memset.
unfoldable pub mask_bytes : ℕ → ℕ → List ℕ
mask_bytes zero mask = []
mask_bytes (suc n) mask =
    let bits = if leb bytes_in_bits mask then bytes_in_bits else mask in
    let byte = (0xFF * 2 ^ (bytes_in_bits - bits)) % 256 in
    let rest = mask_bytes n (mask - bits) in if ltb 0 mask then byte ∷ rest else replicate (suc n) 0

unfoldable pub create_mask : ℕ → ℕ → Result IpAddrBase
unfolding mask_bytes
create_mask data_size mask = do
  throw_if (ltb (data_size * bytes_in_bits) mask) nstl_exception
  ok (mask_bytes data_size mask)

-- The member `ip` is named `base`.
pub record IpRangeBase : Type 0 where
  pub base : IpAddrBase
  pub mask : IpAddrBase

abbrev pub IsRange : ℕ → IpRangeBase → Type 0
IsRange ip_size r = IsAddr ip_size r.base × IsAddr ip_size r.mask

-- The default constructor.
unfoldable pub zero_range : ℕ → IpRangeBase
zero_range ip_size = record { base = replicate ip_size 0; mask = replicate ip_size 0 }

-- The constructor from an address and a prefix length.
unfoldable pub range_of_bits : ℕ → IpAddrBase → ℕ → Result IpRangeBase
unfolding create_mask
range_of_bits ip_size ip bits = do
  mask ← create_mask ip_size bits
  ok (record { base = ip; mask = mask })

-- memcmp of two arrays of one length, compared with 0.
unfoldable pub equal_bytes : List ℕ → List ℕ → Bool
equal_bytes [] [] = true
equal_bytes [] (y ∷ b) = false
equal_bytes (x ∷ a) [] = false
equal_bytes (x ∷ a) (y ∷ b) = x == y && equal_bytes a b

unfoldable pub contains : IpRangeBase → IpAddrBase → Bool
unfolding and_arrays equal_bytes
contains r ip = equal_bytes (and_arrays r.mask ip) (and_arrays r.mask r.base)
