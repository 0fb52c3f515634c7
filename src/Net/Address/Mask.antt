-- ===== src/Net/Address/Mask.antt =====
-- The bytes and the bits that `create_mask` of nstl/nstl/ip_tools.hpp makes.
use nstl.Prelude.{
  ℕ, zero, suc, ◌+◌, ◌-◌, ◌*◌, ◌%◌, ◌^◌, ◌≤◌, ◌<◌, ◌≡◌, refl, ap, ◌∙◌, List, ◌∷◌, ◌++◌, arith,
  replicate, length, length-replicate, All, ok, err, nstl_exception, append-replicate, append_assoc,
  ◌⊎◌, inl, inr, lt→ltb,
}
use native.Mathlib.Decide.{dec_lt}
use nstl.Net.Address.{mask_bytes, create_mask, IpAddrBase, IsAddr}
use nstl.Net.Address.Bits.{byte_bits, address_bits}

pub mask_bytes-zero : (s : ℕ) → mask_bytes s 0 ≡ replicate s 0
unfolding mask_bytes
mask_bytes-zero zero = refl
mask_bytes-zero (suc s) = refl

pub mask_bytes_full : (s m : ℕ) → 8 ≤ m → mask_bytes (suc s) m ≡ 255 ∷ mask_bytes s (m - 8)
unfolding mask_bytes
mask_bytes_full s m h = ground arith

pub mask_bytes_last :
    (s m : ℕ) → m < 8 → mask_bytes (suc s) m ≡ (255 * 2 ^ (8 - m)) % 256 ∷ replicate s 0
unfolding mask_bytes
mask_bytes_last s zero h = refl
mask_bytes_last s (suc m) h = ground (arith, mask_bytes-zero s)

-- The bits of the netmask byte with `k` leading ones.
last_byte_bits :
    (k : ℕ) → k < 8 → byte_bits ((255 * 2 ^ (8 - k)) % 256) ≡ replicate k 1 ++ replicate (8 - k) 0
last_byte_bits zero h = refl
last_byte_bits (suc zero) h = refl
last_byte_bits (suc (suc zero)) h = refl
last_byte_bits (suc (suc (suc zero))) h = refl
last_byte_bits (suc (suc (suc (suc zero)))) h = refl
last_byte_bits (suc (suc (suc (suc (suc zero))))) h = refl
last_byte_bits (suc (suc (suc (suc (suc (suc zero)))))) h = refl
last_byte_bits (suc (suc (suc (suc (suc (suc (suc zero))))))) h = refl
last_byte_bits (suc (suc (suc (suc (suc (suc (suc (suc k)))))))) h = absurd (omega arith)

zero_bits : (s : ℕ) → address_bits (replicate s 0) ≡ replicate (s * 8) 0
unfolding address_bits
zero_bits zero = refl
zero_bits (suc s) =
    ap (λ (xs : List ℕ). replicate 8 0 ++ xs) (zero_bits s)
    ∙ append-replicate 8 (s * 8) 0
    ∙ (let e : 8 + s * 8 ≡ suc s * 8 = omega arith in ap (λ k. replicate k 0) e)

small_bits :
    (s m : ℕ)
    → m < 8
    → address_bits (mask_bytes (suc s) m) ≡ replicate m 1 ++ replicate (suc s * 8 - m) 0
unfolding address_bits
small_bits s m p =
    ap address_bits (mask_bytes_last s m p)
    ∙ ap (λ xs. xs ++ address_bits (replicate s 0)) (last_byte_bits m p)
    ∙ append_assoc (replicate m 1) (replicate (8 - m) 0) (address_bits (replicate s 0))
    ∙ ap (λ xs. replicate m 1 ++ (replicate (8 - m) 0 ++ xs)) (zero_bits s)
    ∙ ap (λ xs. replicate m 1 ++ xs) (append-replicate (8 - m) (s * 8) 0)
    ∙ (let e : 8 - m + s * 8 ≡ suc s * 8 - m = omega arith in
        ap (λ k. replicate m 1 ++ replicate k 0) e)

large_bits :
    (s m : ℕ)
    → 8 ≤ m
    → address_bits (mask_bytes s (m - 8)) ≡ replicate (m - 8) 1 ++ replicate (s * 8 - (m - 8)) 0
    → address_bits (mask_bytes (suc s) m) ≡ replicate m 1 ++ replicate (suc s * 8 - m) 0
unfolding address_bits
large_bits s m p ih =
    ap address_bits (mask_bytes_full s m p)
    ∙ ap (λ xs. replicate 8 1 ++ xs) ih
    ∙ ap (λ xs. xs ++ replicate (s * 8 - (m - 8)) 0) (append-replicate 8 (m - 8) 1)
    ∙ (let e : 8 + (m - 8) ≡ m = omega arith in
        ap (λ k. replicate k 1 ++ replicate (s * 8 - (m - 8)) 0) e)
    ∙ (let e : s * 8 - (m - 8) ≡ suc s * 8 - m = omega arith in
        ap (λ k. replicate m 1 ++ replicate k 0) e)

mask_bytes_bits :
    (s m : ℕ) → m ≤ s * 8 → address_bits (mask_bytes s m) ≡ replicate m 1 ++ replicate (s * 8 - m) 0
mask_bytes_bits zero zero h = unfold mask_bytes address_bits in refl
mask_bytes_bits zero (suc m) h = absurd (omega arith)
mask_bytes_bits (suc s) m h = elim (dec_lt m 8) [
  | yes p ↦ small_bits s m p
  | no p ↦ large_bits s m (omega arith) (mask_bytes_bits s (m - 8) (omega arith))
]

replicate-zero-All : (s : ℕ) → All (λ b. b < 256) (replicate s 0)
replicate-zero-All zero = tt
replicate-zero-All (suc s) = (omega arith, replicate-zero-All s)

length-mask_bytes : (s m : ℕ) → length (mask_bytes s m) ≡ s
length-mask_bytes zero m = unfold mask_bytes in refl
length-mask_bytes (suc s) m = elim (dec_lt m 8) [
  | yes p ↦ rw (mask_bytes_last s m p) (ap suc (length-replicate s 0))
  | no p ↦ rw (mask_bytes_full s m (omega arith)) (ap suc (length-mask_bytes s (m - 8)))
]

mask_bytes-IsBytes : (s m : ℕ) → All (λ b. b < 256) (mask_bytes s m)
mask_bytes-IsBytes zero m = unfold mask_bytes in tt
mask_bytes-IsBytes (suc s) m = elim (dec_lt m 8) [
  | yes p ↦ rw (mask_bytes_last s m p) (omega arith, replicate-zero-All s)
  | no p ↦ rw (mask_bytes_full s m (omega arith)) (omega arith, mask_bytes-IsBytes s (m - 8))
]

pub mask_bytes-IsAddr : (s m : ℕ) → IsAddr s (mask_bytes s m)
mask_bytes-IsAddr s m = (length-mask_bytes s m, mask_bytes-IsBytes s m)

-- `create_mask` throws exactly for a prefix longer than the address, and otherwise makes an address
-- whose first `mask` bits are 1 and whose other bits are 0.
pub create_mask_cases :
    (data_size mask : ℕ)
    → ((data_size * 8 < mask) × (create_mask data_size mask ≡ err nstl_exception))
      ⊎ ((a : IpAddrBase) × (mask ≤ data_size * 8)
          × (create_mask data_size mask ≡ ok a)
          × IsAddr data_size a
          × (address_bits a ≡ replicate mask 1 ++ replicate (data_size * 8 - mask) 0))
unfolding create_mask
create_mask_cases data_size mask = elim (dec_lt (data_size * 8) mask) [
  | yes p ↦ inl (p, rw (lt→ltb _ _ p))
  | no p ↦ inr (
    mask_bytes data_size mask,
    omega arith,
    ground arith,
    mask_bytes-IsAddr data_size mask,
    mask_bytes_bits data_size mask (omega arith),
  )
]
