-- ===== src/Vector/Erase.antt =====
-- Erasing from a vector, nstl/nstl/vector.hpp.
use nstl.Prelude.{
  ℕ, ◌+◌, ◌-◌, ◌≤◌, ◌<◌, ◌≡◌, refl, ap, ◌⊎◌, inl, inr, ◌++◌, append-nil, arith, ◌==◌, Bool-cases,
  take, drop, length-take, drop_of_ge, invalid_argument, ok, err,
}
use nstl.Vector.{Vector, before, offset, size, erase, erase_range}

module _ {A : Type 0} where
  -- Erasing a range of distinct ends succeeds exactly when it lies inside the vector; it then leaves
  -- what stands before it and behind it and returns an iterator to the first of the latter. Equal
  -- ends are returned with the vector as it was, and every other range is refused.
  pub erase_range_cases :
      (v : Vector A) (b e : ℕ)
      → ((b < e)
          × (e ≤ size v)
          × (erase_range v (offset b) (offset e)
              ≡ ok (record v { items = take b v.items ++ drop e v.items }, offset b)))
        ⊎ ((b ≡ e) × (erase_range v (offset b) (offset e) ≡ ok (v, offset e)))
        ⊎ (((size v < b) ⊎ (size v < e) ⊎ (e < b))
            × (erase_range v (offset b) (offset e) ≡ err invalid_argument))
  unfolding erase_range
  erase_range_cases v b e = ground arith

  -- Erasing the element under an iterator into the vector is erasing the range of that one element.
  pub erase_lem :
      (v : Vector A) (n : ℕ)
      → n < size v
      → erase v (offset n) ≡ erase_range v (offset n) (offset (n + 1))
  unfolding erase erase_range
  erase_lem v n h = elim (Bool-cases (size v - n - 1 == 0)) [
    | inl last ↦
        let e : size v - 1 ≡ n = ground arith in
        ground (
          arith,
          ap (λ (k : ℕ). take k v.items) e,
          drop_of_ge (n + 1) v.items (ground arith),
          append-nil (take n v.items),
          length-take n v.items,
        )
    | inr inside ↦ ground arith
  ]

  pub erase_refuses :
      (v : Vector A) (n : ℕ)
      → size v ≤ n
      → (erase v (offset n) ≡ err invalid_argument) × (erase v (before n) ≡ err invalid_argument)
  unfolding erase
  erase_refuses v n h = (ground arith, refl)
