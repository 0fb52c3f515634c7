-- ===== src/Tests/Vector.antt =====
-- Runs of the vector, over an allocator that grants every request below PTRDIFF_MAX bytes.
use nstl.Prelude.{
  ℕ, ◌^◌, ◌≤◌, ◌<◌, ◌≡◌, refl, ◌↔◌, true, none, [], ◌∷◌, ◌++◌, arith, ltb, ltb→lt, ok,
}
use nstl.Vector.{
  Vector, Allocator, empty_vector, push_back, push_back_own, push_all, copy_construct,
  auto_capacity,
}
use nstl.Vector.Growth.{IsValid}
use nstl.Vector.Push.{push_back_ok, push_back_own_dangling}
use nstl.Vector.Build.{Roomy, push_all_empty}

grants_below : (n : ℕ) → ltb n (2 ^ 63) ≡ true → n < 2 ^ 63
grants_below n h = ltb→lt n (2 ^ 63) h

abbrev plenty : Allocator
plenty = record { grants = λ n. ltb n (2 ^ 63); grants_bound = grants_below }

abbrev two_items : Vector ℕ
two_items = record { items = 5 ∷ 7 ∷ []; capacity = 16 }

abbrev full_vector : Vector ℕ
full_vector = record { items = 5 ∷ 7 ∷ []; capacity = 2 }

two_items-IsValid : IsValid 4 two_items
two_items-IsValid = omega arith

full_vector-IsValid : IsValid 4 full_vector
full_vector-IsValid = omega arith

abbrev three_items : Vector ℕ
three_items = record { items = 5 ∷ 7 ∷ 9 ∷ []; capacity = 16 }

pushes : push_back plenty 4 two_items 9 ≡ ok three_items
unfolding push_back auto_capacity
pushes = refl

push_back_ok_example :
    (three_items.items ≡ two_items.items ++ 9 ∷ []) × IsValid 4 three_items × (16 ≤ 16)
push_back_ok_example =
    push_back_ok plenty 4 (omega arith) two_items three_items 9 two_items-IsValid pushes

push_back_own_dangling_example :
    (push_back_own plenty 4 full_vector 0 ≡ none)
    ↔ ((◌≡◌ {A = ℕ} 2 2) × ((w : Vector ℕ) × (auto_capacity plenty 4 full_vector 3 ≡ ok w)))
push_back_own_dangling_example =
    push_back_own_dangling plenty 4 (omega arith) full_vector 0 full_vector-IsValid (omega arith)

copies : copy_construct plenty 4 two_items ≡ ok two_items
unfolding copy_construct auto_capacity
copies = refl

plenty-Roomy : Roomy plenty 4 20
plenty-Roomy = (omega arith, λ k h. ground arith)

push_all_empty_example :
    (w : Vector ℕ) × (push_all plenty 4 empty_vector (5 ∷ 7 ∷ []) ≡ ok w)
    × (w.items ≡ 5 ∷ 7 ∷ [])
    × IsValid 4 w
    × (w.capacity ≤ 20)
push_all_empty_example = push_all_empty plenty 4 (omega arith) (5 ∷ 7 ∷ []) plenty-Roomy
