-- ===== src/Vector/Build.antt =====
-- Appending a whole list to a vector of nstl/nstl/vector.hpp, with enough memory.
use nstl.Prelude.{
  ℕ, ◌+◌, ◌*◌, ◌%◌, ◌≤◌, ◌<◌, ◌≡◌, refl, sym, ap, ◌∙◌, inl, inr, true, List, [], ◌∷◌, ◌++◌,
  append-nil, append_assoc, arith, ltb, ltb→lt, Bool-cases, length, length-append, ok,
}
use nstl.Vector.{
  Vector, Allocator, size, size_mod, max_capacity, mem_reserve, auto_capacity, push_back, push_all,
  empty_vector,
}
use nstl.Vector.Growth.{IsValid, next_size, capacity-lt}
use nstl.Vector.Push.{push_back_ok, push_back_room}
use Prim.Native.Nat.{max}

-- The allocator grants every request of up to `n` elements of `size_of` bytes.
abbrev pub Roomy : Allocator → ℕ → ℕ → Type 0
Roomy alloc size_of n =
    (n ≤ max_capacity size_of) × ((k : ℕ) → k ≤ n → alloc.grants ((k * size_of) % size_mod) ≡ true)

module _ (alloc : Allocator) (size_of : ℕ) (pos : 0 < size_of) {A : Type 0} where
  mem_reserve-Roomy :
      (v : Vector A) (m n : ℕ)
      → Roomy alloc size_of m
      → n ≤ m
      → mem_reserve alloc size_of v n ≡ ok (record v { capacity = n })
  unfolding mem_reserve
  mem_reserve-Roomy v m n roomy h = ground (arith, roomy.1 n h)

  auto_capacity_full :
      (v : Vector A) (m : ℕ)
      → Roomy alloc size_of m
      → IsValid size_of v
      → size v ≡ v.capacity
      → 2 * size v + 16 ≤ m
      → (c : ℕ) × (auto_capacity alloc size_of v (size v + 1) ≡ ok (record v { capacity = c }))
        × (c ≤ 2 * size v + 16)
  unfolding auto_capacity
  auto_capacity_full v m roomy valid full h =
      let small = capacity-lt alloc size_of pos v valid in
      elim (Bool-cases (ltb (size v + 1) 16)) [
        | inl few ↦ (16, ground (arith, mem_reserve-Roomy v m 16 roomy), omega arith)
        | inr many ↦
            let c = max (size v + 1) ((v.capacity * 2) % size_mod) in
            (c, ground (arith, mem_reserve-Roomy v m c roomy), ground arith)
      ]

  push_back-Roomy :
      (v : Vector A) (a : A) (m : ℕ)
      → Roomy alloc size_of m
      → IsValid size_of v
      → v.capacity ≤ 2 * size v + 16
      → 2 * size v + 16 ≤ m
      → (w : Vector A) × (push_back alloc size_of v a ≡ ok w) × (w.capacity ≤ 2 * size w + 16)
  push_back-Roomy v a m roomy valid tight h = elim (Bool-cases (ltb (size v) v.capacity)) [
    | inl room ↦ (
      record v { items = v.items ++ a ∷ [] },
      push_back_room alloc size_of pos v a valid (ltb→lt _ _ room),
      omega (arith, length-append {0} v.items (a ∷ [])),
    )
    | inr full ↦
        let (c, e, bound) = auto_capacity_full v m roomy valid (ground arith) h in
        (
          record { items = v.items ++ a ∷ []; capacity = c },
          unfold push_back in rw (next_size alloc size_of pos v valid, e),
          omega (arith, length-append {0} v.items (a ∷ [])),
        )
  ]

  push_all-Roomy :
      (v : Vector A) (xs : List A) (m : ℕ)
      → Roomy alloc size_of m
      → IsValid size_of v
      → v.capacity ≤ 2 * size v + 16
      → 2 * (size v + length xs) + 16 ≤ m
      → (w : Vector A) × (push_all alloc size_of v xs ≡ ok w)
        × (w.items ≡ v.items ++ xs)
        × IsValid size_of w
        × (w.capacity ≤ 2 * size w + 16)
  unfolding push_all
  push_all-Roomy v [] m roomy valid tight h = (v, refl, sym (append-nil v.items), valid, tight)
  push_all-Roomy v (x ∷ xs) m roomy valid tight h =
      let (u, e, bound) = push_back-Roomy v x m roomy valid tight (omega arith) in
      let (items, ok_u, _) = push_back_ok alloc size_of pos v u x valid e in
      let len = ap length items in
      let (w, e', items', valid', tight') =
        push_all-Roomy u xs m roomy ok_u bound
          (omega (arith, len, length-append {0} v.items (x ∷ []))) in
      (
        w,
        rw e e',
        items' ∙ ap (λ ys. ys ++ xs) items ∙ append_assoc v.items (x ∷ []) xs,
        valid',
        tight',
      )

  -- Pushing a list into an empty vector, with memory for twice its elements and 16 more, succeeds:
  -- the vector holds that list, is valid, and its capacity is at most that bound.
  pub push_all_empty :
      (xs : List A)
      → Roomy alloc size_of (2 * length xs + 16)
      → (w : Vector A) × (push_all alloc size_of empty_vector xs ≡ ok w)
        × (w.items ≡ xs)
        × IsValid size_of w
        × (w.capacity ≤ 2 * length xs + 16)
  unfolding empty_vector
  push_all_empty xs roomy =
      let (w, e, items, valid, tight) =
        push_all-Roomy empty_vector xs (2 * length xs + 16) roomy (omega arith) (omega arith)
          (omega arith) in
      (w, e, items, valid, omega (arith, ap length items))
