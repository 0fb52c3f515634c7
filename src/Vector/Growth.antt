-- ===== src/Vector/Growth.antt =====
-- Growing: the invariant of a vector of nstl/nstl/vector.hpp, and `auto_capacity`.
use nstl.Prelude.{
  ℕ, ◌+◌, ◌-◌, ◌*◌, ◌/◌, ◌%◌, ◌^◌, ◌≤◌, ◌<◌, ◌≡◌, inl, inr, true, arith, ltb, leb, Bool-cases, ok,
}
use Prim.Native.Nat.{max}
use native.Mathlib.Nat.{le-div_iff_mul-le, mod-eq_of_lt}
use nstl.Vector.{Vector, Allocator, size, size_mod, max_capacity, mem_reserve, auto_capacity}

-- The elements fit the buffer, and the buffer's bytes fit a signed size.
pub record IsValid (size_of : ℕ) {A : Type 0} (v : Vector A) : Type 0 where
  pub fits : size v ≤ v.capacity
  pub bounded : v.capacity * size_of < 2 ^ 63

mul_div : (n k : ℕ) → 0 < k → n ≤ (size_mod - 1) / k → n * k ≤ size_mod - 1
mul_div n k pos h = (le-div_iff_mul-le pos).0 h

module _ (alloc : Allocator) (size_of : ℕ) (pos : 0 < size_of) {A : Type 0} where
  granted_of :
      (v w : Vector A) (n : ℕ)
      → mem_reserve alloc size_of v n ≡ ok w
      → alloc.grants ((n * size_of) % size_mod) ≡ true
  unfolding mem_reserve
  granted_of v w n e = ground arith

  -- A successful reservation keeps the elements, gives exactly the capacity asked for, and asked the
  -- allocator for the bytes of that many elements: the product did not wrap.
  pub mem_reserve_ok :
      (v w : Vector A) (n : ℕ)
      → mem_reserve alloc size_of v n ≡ ok w
      → (w.items ≡ v.items)
        × (w.capacity ≡ n)
        × (alloc.grants (n * size_of) ≡ true)
        × (n * size_of < 2 ^ 63)
  unfolding mem_reserve
  mem_reserve_ok v w n e = elim (Bool-cases (ltb (max_capacity size_of) n)) [
    | inl over ↦ ground (arith, over)
    | inr fits ↦
        let small : n * size_of < size_mod =
          omega (arith, mul_div n size_of pos (ground (arith, fits))) in
        let whole : (n * size_of) % size_mod ≡ n * size_of = mod-eq_of_lt small in
        let granted : alloc.grants (n * size_of) ≡ true = rw whole at (granted_of v w n e) in
        (ground arith, ground arith, granted, alloc.grants_bound _ granted)
  ]

  -- A successful growth keeps the elements, makes room for what is needed, never shrinks the
  -- buffer, and keeps its bytes within a signed size.
  pub auto_capacity_ok :
      (v w : Vector A) (n : ℕ)
      → IsValid size_of v
      → auto_capacity alloc size_of v n ≡ ok w
      → (w.items ≡ v.items)
        × (n ≤ w.capacity)
        × (v.capacity ≤ w.capacity)
        × (w.capacity * size_of < 2 ^ 63)
  unfolding auto_capacity
  auto_capacity_ok v w n valid e = elim (Bool-cases (leb n v.capacity)) [
    | inl room ↦ ground (arith, room)
    | inr full ↦ elim (Bool-cases (ltb n 16)) [
      | inl few ↦
          let r = mem_reserve_ok v w 16 (ground (arith, full, few)) in
          (r.0, ground arith, ground arith, rw r.1 r.3)
      | inr many ↦
          let m = max n ((v.capacity * 2) % size_mod) in
          let r = mem_reserve_ok v w m (ground (arith, full, many)) in
          (r.0, ground arith, ground arith, rw r.1 r.3)
    ]
  ]

  pub capacity-lt : (v : Vector A) → IsValid size_of v → v.capacity < 2 ^ 63
  capacity-lt v valid = grind arith

  pub next_size : (v : Vector A) → IsValid size_of v → (size v + 1) % size_mod ≡ size v + 1
  next_size v valid = mod-eq_of_lt (omega (arith, capacity-lt v valid))

  pub auto_capacity_room :
      (v : Vector A) (n : ℕ) → n ≤ v.capacity → auto_capacity alloc size_of v n ≡ ok v
  unfolding auto_capacity
  auto_capacity_room v n h = ground arith
