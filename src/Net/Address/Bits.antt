-- ===== src/Net/Address/Bits.antt =====
-- The bits of a byte and of an address, most significant first, and what `&` with a netmask byte
-- keeps of them. The bit operations have no laws at variables: the byte facts are checked by tables.
use Prim.Native.Nat.{bit_and}
use nstl.Prelude.{
  ℕ, ◌-◌, ◌*◌, ◌/◌, ◌%◌, ◌^◌, ◌<◌, ◌≡◌, refl, List, [], ◌∷◌, ◌++◌, true, ◌==◌, ==_iff, all_below,
  all_below_sound,
}
use nstl.Net.Address.{IpAddrBase}

abbrev pub byte_bits : ℕ → List ℕ
byte_bits b =
    b / 128 % 2
    ∷ b / 64 % 2
    ∷ b / 32 % 2
    ∷ b / 16 % 2
    ∷ b / 8 % 2
    ∷ b / 4 % 2
    ∷ b / 2 % 2
    ∷ b % 2
    ∷ []

unfoldable pub address_bits : IpAddrBase → List ℕ
address_bits [] = []
address_bits (b ∷ a) = byte_bits b ++ address_bits a

-- The netmask byte with `k` leading ones clears the low `8 - k` bits of a byte.
abbrev cleared : ℕ → ℕ → ℕ
cleared k x = x - x % 2 ^ (8 - k)

mask_table :
    all_below 9 (λ k. all_below 256 (λ x. bit_and ((255 * 2 ^ (8 - k)) % 256) x == cleared k x))
    ≡ true
unfolding all_below
mask_table = refl

pub bit_and_mask : (k x : ℕ) → k < 9 → x < 256 → bit_and ((255 * 2 ^ (8 - k)) % 256) x ≡ cleared k x
bit_and_mask k x hk hx =
    (==_iff _ _).0 (all_below_sound 256 _ x (all_below_sound 9 _ k mask_table hk) hx)

zero_table : all_below 256 (λ x. bit_and 0 x == 0) ≡ true
unfolding all_below
zero_table = refl

pub zero-bit_and : (x : ℕ) → x < 256 → bit_and 0 x ≡ 0
zero-bit_and x h = (==_iff _ _).0 (all_below_sound 256 _ x zero_table h)
