-- ===== src/Vector/Push.antt =====
-- Appending to a vector of nstl/nstl/vector.hpp, and references into the vector itself.
use nstl.Prelude.{
  ℕ, ◌+◌, ◌%◌, ◌≤◌, ◌<◌, ◌≡◌, refl, sym, ap, ◌↔◌, inl, inr, false, none, [], ◌∷◌, ◌++◌, arith, ltb,
  Bool-cases, length, length-append, ok, err, ◌>>=◌, >>=-eq-ok, Result-cases, get_elem?_of_lt,
}
use nstl.Vector.{
  Vector, Allocator, size, size_mod, auto_capacity, push_back, push_back_own, copy_construct,
  empty_vector, is_empty,
}
use nstl.Prelude.{nil_of_length}
use nstl.Vector.Growth.{IsValid, auto_capacity_room, auto_capacity_ok, next_size}

module _ (alloc : Allocator) (size_of : ℕ) (pos : 0 < size_of) {A : Type 0} where
  -- A push_back to a valid vector that succeeds appends the value, keeps the vector valid and never
  -- shrinks its buffer.
  pub push_back_ok :
      (v w : Vector A) (a : A)
      → IsValid size_of v
      → push_back alloc size_of v a ≡ ok w
      → (w.items ≡ v.items ++ a ∷ []) × IsValid size_of w × (v.capacity ≤ w.capacity)
  unfolding push_back
  push_back_ok v w a valid e =
      let (grown, e1, e2) =
        >>=-eq-ok (auto_capacity alloc size_of v ((size v + 1) % size_mod)) _ e in
      let (same, room, kept, small) = auto_capacity_ok alloc size_of pos v grown _ valid e1 in
      let n = next_size alloc size_of pos v valid in
      let shape : w ≡ record grown { items = grown.items ++ a ∷ [] } = cc in
      rw shape (
        ap (λ xs. xs ++ a ∷ []) same,
        record {
          fits = omega (arith, n, length-append {0} grown.items (a ∷ []), ap length same);
          bounded = small;
        },
        kept,
      )

  -- With room for one more element push_back cannot throw, and allocates nothing.
  pub push_back_room :
      (v : Vector A) (a : A)
      → IsValid size_of v
      → size v < v.capacity
      → push_back alloc size_of v a ≡ ok (record v { items = v.items ++ a ∷ [] })
  unfolding push_back auto_capacity
  push_back_room v a valid room = rw (next_size alloc size_of pos v valid) (ground arith)

  -- Pushing an element of a valid vector itself reads freed memory exactly when the buffer is full and
  -- the reallocation succeeds.
  pub push_back_own_dangling :
      (v : Vector A) (i : ℕ)
      → IsValid size_of v
      → i < size v
      → (push_back_own alloc size_of v i ≡ none) ↔ (
          (size v ≡ v.capacity)
          × ((w : Vector A) × (auto_capacity alloc size_of v (size v + 1) ≡ ok w)))
  unfolding push_back_own
  push_back_own_dangling v i valid h =
      let n = next_size alloc size_of pos v valid in
      let (a, there) = get_elem?_of_lt v.items i h in
      elim (Bool-cases (ltb (size v) v.capacity)) [
        | inl room ↦
            let e : auto_capacity alloc size_of v ((size v + 1) % size_mod) ≡ ok v =
              rw n (auto_capacity_room alloc size_of pos v _ (ground arith)) in
            ((λ d. ground (arith, there)), (λ d. ground arith))
        | inr full ↦ elim (Result-cases (auto_capacity alloc size_of v (size v + 1))) [
          | inr (x, r) ↦
              let e : auto_capacity alloc size_of v ((size v + 1) % size_mod) ≡ err x = rw n r in
              ((λ d. ground arith), (λ (d0, (y, d1)). ground arith))
          | inl (w, r) ↦
              let e : auto_capacity alloc size_of v ((size v + 1) % size_mod) ≡ ok w = rw n r in
              let grown = auto_capacity_ok alloc size_of pos v w _ valid r in
              ((λ d. (ground arith, (w, r))), (λ (d0, d1). ground arith))
        ]
      ]

  empty_IsValid : IsValid size_of {A = A} empty_vector
  unfolding empty_vector
  empty_IsValid = omega arith

  copied :
      (v w : Vector A)
      → is_empty v ≡ false
      → copy_construct alloc size_of v ≡ ok w
      → (auto_capacity alloc size_of empty_vector (size v) >>= λ w.
          ok (record w { items = v.items }))
        ≡ ok w
  unfolding copy_construct
  copied v w some_left e = ground arith

  -- A copy that succeeds holds the same elements and is valid.
  pub copy_construct_ok :
      (v w : Vector A)
      → copy_construct alloc size_of v ≡ ok w
      → (w.items ≡ v.items) × IsValid size_of w
  unfolding copy_construct
  copy_construct_ok v w e = elim (Bool-cases (is_empty v)) [
    | inl none_left ↦
        let shape : w ≡ empty_vector = ground arith in
        rw shape (sym (nil_of_length v.items (ground arith)), empty_IsValid)
    | inr some_left ↦
        let (grown, e1, e2) =
          >>=-eq-ok (auto_capacity alloc size_of empty_vector (size v)) _
            (copied v w some_left e) in
        let facts = auto_capacity_ok alloc size_of pos empty_vector grown _ empty_IsValid e1 in
        let shape : w ≡ record grown { items = v.items } = cc in
        rw shape (refl, record { fits = facts.1; bounded = facts.3 })
  ]
