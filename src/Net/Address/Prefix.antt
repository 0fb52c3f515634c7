-- ===== src/Net/Address/Prefix.antt =====
-- The leading bits of addresses, and `contains` of a range that was built from a prefix length
-- (nstl/nstl/ip_tools.hpp).
use native.Mathlib.Decide.{dec_lt}
use nstl.Prelude.{
  ℕ, zero, suc, ◌-◌, ◌*◌, ◌%◌, ◌^◌, ◌≤◌, ◌<◌, ◌≡◌, refl, ap, ◌∙◌, List, [], ◌∷◌, ◌++◌, arith, ◌↔◌,
  replicate, ok, true, take, take-append_of_le, take-append_of_ge,
}
use nstl.Net.Address.{
  IpAddrBase, IpRangeBase, mask_bytes, IsAddr, and_arrays, equal_bytes, contains, range_of_bits,
}
use nstl.Net.Address.Bits.{byte_bits, address_bits, bit_and_mask, zero-bit_and}
use nstl.Net.Address.Mask.{mask_bytes_full, mask_bytes_last}

-- The leading `k` bits of two bytes agree exactly when the bytes without their low bits do.
byte_prefix :
    (k x y : ℕ)
    → k ≤ 8
    → x < 256
    → y < 256
    → (x - x % 2 ^ (8 - k) ≡ y - y % 2 ^ (8 - k)) ↔ (take k (byte_bits x) ≡ take k (byte_bits y))
byte_prefix zero x y h hx hy = ((λ e. refl), (λ e. omega arith))
byte_prefix (suc zero) x y h hx hy = ((λ e. ground arith), (λ e. ground arith))
byte_prefix (suc (suc zero)) x y h hx hy = ((λ e. ground arith), (λ e. ground arith))
byte_prefix (suc (suc (suc zero))) x y h hx hy = ((λ e. ground arith), (λ e. ground arith))
byte_prefix (suc (suc (suc (suc zero)))) x y h hx hy = ((λ e. ground arith), (λ e. ground arith))
byte_prefix (suc (suc (suc (suc (suc zero))))) x y h hx hy =
    ((λ e. ground arith), (λ e. ground arith))
byte_prefix (suc (suc (suc (suc (suc (suc zero)))))) x y h hx hy =
    ((λ e. ground arith), (λ e. ground arith))
byte_prefix (suc (suc (suc (suc (suc (suc (suc zero))))))) x y h hx hy =
    ((λ e. ground arith), (λ e. ground arith))
byte_prefix (suc (suc (suc (suc (suc (suc (suc (suc zero)))))))) x y h hx hy =
    ((λ e. ground arith), (λ e. ground arith))
byte_prefix (suc (suc (suc (suc (suc (suc (suc (suc (suc k))))))))) x y h hx hy =
    absurd (omega arith)

equal_bytes_self : (a : List ℕ) → equal_bytes a a ≡ true
unfolding equal_bytes
equal_bytes_self [] = refl
equal_bytes_self (x ∷ a) = ground (arith, equal_bytes_self a)

and_arrays_zero : (s : ℕ) (x : List ℕ) → IsAddr s x → and_arrays (replicate s 0) x ≡ replicate s 0
unfolding and_arrays
and_arrays_zero zero x h = refl
and_arrays_zero (suc s) [] h = absurd (omega arith)
and_arrays_zero (suc s) (b ∷ x) (e, (hb, hx)) =
    ap (λ t. t ∷ and_arrays (replicate s 0) x) (zero-bit_and b hb)
    ∙ ap (◌∷◌ 0) (and_arrays_zero s x (omega arith, hx))

-- Two addresses agree under the netmask with `m` leading ones.
abbrev Agrees : ℕ → ℕ → IpAddrBase → IpAddrBase → Type 0
Agrees s m x y = equal_bytes (and_arrays (mask_bytes s m) x) (and_arrays (mask_bytes s m) y) ≡ true

abbrev SamePrefix : ℕ → IpAddrBase → IpAddrBase → Type 0
SamePrefix m x y = take m (address_bits x) ≡ take m (address_bits y)

cons_agrees :
    (p q : ℕ) (xs ys : List ℕ)
    → (equal_bytes (p ∷ xs) (q ∷ ys) ≡ true) ↔ ((p ≡ q) × (equal_bytes xs ys ≡ true))
unfolding equal_bytes
cons_agrees p q xs ys = ground arith

last_iff :
    (s m b c : ℕ) (x y : IpAddrBase)
    → m < 8
    → IsAddr (suc s) (b ∷ x)
    → IsAddr (suc s) (c ∷ y)
    → Agrees (suc s) m (b ∷ x) (c ∷ y) ↔ SamePrefix m (b ∷ x) (c ∷ y)
unfolding address_bits and_arrays
last_iff s m b c x y h (ex, (hb, hx)) (ey, (hc, hy)) =
    rw
      (
        mask_bytes_last s m h,
        and_arrays_zero s x (omega arith, hx),
        and_arrays_zero s y (omega arith, hy),
        bit_and_mask m b (omega arith) hb,
        bit_and_mask m c (omega arith) hc,
        take-append_of_le m (byte_bits b) (address_bits x) (omega arith),
        take-append_of_le m (byte_bits c) (address_bits y) (omega arith),
      )
      (
        (λ e. (byte_prefix m b c (omega arith) hb hc).0 ((cons_agrees _ _ _ _).0 e).0),
        (λ e.
            (cons_agrees _ _ _ _).1
              ((byte_prefix m b c (omega arith) hb hc).1 e, equal_bytes_self (replicate s 0))),
      )

append_bits :
    (b c : ℕ) (xs ys : List ℕ)
    → (byte_bits b ++ xs ≡ byte_bits c ++ ys)
      ↔ ((take 8 (byte_bits b) ≡ take 8 (byte_bits c)) × (xs ≡ ys))
append_bits b c xs ys = ((λ e. (ground arith, ground arith)), (λ p. ground arith))

full_iff :
    (s m b c : ℕ) (x y : IpAddrBase)
    → 8 ≤ m
    → IsAddr (suc s) (b ∷ x)
    → IsAddr (suc s) (c ∷ y)
    → Agrees s (m - 8) x y ↔ SamePrefix (m - 8) x y
    → Agrees (suc s) m (b ∷ x) (c ∷ y) ↔ SamePrefix m (b ∷ x) (c ∷ y)
unfolding address_bits and_arrays
full_iff s m b c x y h (ex, (hb, hx)) (ey, (hc, hy)) ih =
    rw
      (
        mask_bytes_full s m h,
        bit_and_mask 8 b (omega arith) hb,
        bit_and_mask 8 c (omega arith) hc,
        take-append_of_ge m (byte_bits b) (address_bits x) (omega arith),
        take-append_of_ge m (byte_bits c) (address_bits y) (omega arith),
      )
      (
        (λ e.
            let p = (cons_agrees _ _ _ _).0 e in
            (append_bits b c _ _).1 ((byte_prefix 8 b c (omega arith) hb hc).0 p.0, ih.0 p.1)),
        (λ e.
            let p = (append_bits b c _ _).0 e in
            (cons_agrees _ _ _ _).1 ((byte_prefix 8 b c (omega arith) hb hc).1 p.0, ih.1 p.1)),
      )

Agrees-iff :
    (s m : ℕ) (x y : IpAddrBase)
    → m ≤ s * 8
    → IsAddr s x
    → IsAddr s y
    → Agrees s m x y ↔ SamePrefix m x y
Agrees-iff zero zero [] [] h hx hy =
    unfold mask_bytes and_arrays equal_bytes address_bits in ((λ e. refl), (λ e. refl))
Agrees-iff zero (suc m) x y h hx hy = absurd (omega arith)
Agrees-iff zero zero [] (c ∷ y) h hx hy = absurd (omega arith)
Agrees-iff zero zero (b ∷ x) y h hx hy = absurd (omega arith)
Agrees-iff (suc s) m [] y h hx hy = absurd (omega arith)
Agrees-iff (suc s) m (b ∷ x) [] h hx hy = absurd (omega arith)
Agrees-iff (suc s) m (b ∷ x) (c ∷ y) h (ex, (hb, hx)) (ey, (hc, hy)) = elim (dec_lt m 8) [
  | yes p ↦ last_iff s m b c x y p (ex, (hb, hx)) (ey, (hc, hy))
  | no p ↦
      full_iff s m b c x y (omega arith) (ex, (hb, hx)) (ey, (hc, hy))
        (Agrees-iff s (m - 8) x y (omega arith) (omega arith, hx) (omega arith, hy))
]

pub range_of_bits_ok :
    (ip_size bits : ℕ) (base : IpAddrBase) {r : IpRangeBase}
    → range_of_bits ip_size base bits ≡ ok r
    → (bits ≤ ip_size * 8) × (r ≡ record { base = base; mask = mask_bytes ip_size bits })
unfolding range_of_bits
range_of_bits_ok ip_size bits base e = ground arith

-- A range that was made from an address and a prefix length contains exactly the addresses whose
-- leading bits, as many as the prefix length says, are those of the range's address.
pub contains-range_of_bits :
    (ip_size bits : ℕ) (base ip : IpAddrBase) {r : IpRangeBase}
    → IsAddr ip_size base
    → IsAddr ip_size ip
    → range_of_bits ip_size base bits ≡ ok r
    → (contains r ip ≡ true) ↔ (take bits (address_bits ip) ≡ take bits (address_bits base))
unfolding contains
contains-range_of_bits ip_size bits base ip hb hi e =
    let (fits, made) = range_of_bits_ok ip_size bits base e in
    rw made (Agrees-iff ip_size bits ip base fits hi hb)
