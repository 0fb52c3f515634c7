-- ===== src/Vector.antt =====
-- nstl/nstl/vector.hpp, a vector of trivially copyable values over malloc and realloc.
pub mod Growth
pub mod Push
pub mod Erase
pub mod Build
use nstl.Prelude.{
  ℕ, zero, suc, ◌+◌, ◌-◌, ◌*◌, ◌/◌, ◌%◌, ◌^◌, ◌≤◌, ◌<◌, min, ◌≡◌, refl, sym, ap, ◌∙◌, ◌≢◌, ◌↔◌, ◌⊎◌,
  inl, inr, Bool, true, false, ◌&&◌, ◌||◌, not, Option, none, some, List, [], ◌∷◌, ◌++◌, map,
  append-nil, append_assoc, arith, ltb, leb, ◌==◌, if◌then◌else◌, ltb→lt, lt→ltb, leb→le, le→leb,
  ==_iff, tests, Bool-cases, Option-cases, all_below, all_below_sound, length, get_elem?, take,
  drop, replicate, length-append, take-append-drop, length-take, length-drop, length-replicate,
  take-append, drop-append, take-append_of_le, take-append_of_ge, append-replicate, take_of_ge,
  drop_of_ge, length-map, All, All-append, Exception, nstl_exception, length_error, bad_alloc,
  runtime_error, out_of_range, invalid_argument, Result, ok, err, ◌>>=◌, ◌>>◌, throw_if,
}
use Prim.Native.Nat.{max}

abbrev pub size_mod : ℕ
size_mod = 2 ^ 64

-- std::realloc: `grants n` says whether a request for `n` bytes succeeds. No object is larger than
-- PTRDIFF_MAX bytes.
pub record Allocator : Type 0 where
  pub grants : ℕ → Bool
  pub grants_bound : (n : ℕ) → grants n ≡ true → n < 2 ^ 63

-- `items` are the elements that are constructed, so `_size` is their number. `_ptr` is null exactly
-- while `capacity` is 0.
pub record Vector (A : Type 0) : Type 0 where
  pub items : List A
  pub capacity : ℕ

-- A pointer into, behind or before the elements: `offset n` is begin() + n, and `before n` is
-- begin() - (n + 1).
pub data Iterator : Type 0 where
  before offset : ℕ → Iterator

unfoldable pub iterator_eq : Iterator → Iterator → Bool
iterator_eq (before m) (before n) = m == n
iterator_eq (before m) (offset n) = false
iterator_eq (offset m) (before n) = false
iterator_eq (offset m) (offset n) = m == n

unfoldable pub iterator_less : Iterator → Iterator → Bool
iterator_less (before m) (before n) = ltb n m
iterator_less (before m) (offset n) = true
iterator_less (offset m) (before n) = false
iterator_less (offset m) (offset n) = ltb m n

abbrev pub position : Iterator → ℕ
position (before n) = 0
position (offset n) = n

module _ {A : Type 0} where
  unfoldable pub empty_vector : Vector A
  empty_vector = record { items = []; capacity = 0 }

  abbrev pub size : Vector A → ℕ
  size v = length v.items

  unfoldable pub is_empty : Vector A → Bool
  is_empty v = size v == 0

  unfoldable pub clear : Vector A → Vector A
  clear v = record v { items = [] }

  unfoldable pub reset : Vector A → Vector A
  unfolding clear
  reset v = record (clear v) { capacity = 0 }

  unfoldable pub pop_back : Vector A → Result (Vector A)
  unfolding is_empty
  pop_back v = do
    throw_if (is_empty v) runtime_error
    ok (record v { items = take (size v - 1) v.items })

  -- The template argument `valid` says whether end() itself is refused.
  unfoldable pub check_iterator : Bool → Vector A → Iterator → Result (Unit {0})
  check_iterator valid v (before n) = err invalid_argument
  check_iterator valid v (offset n) =
      throw_if (if valid then leb (size v) n else ltb (size v) n) invalid_argument

  abbrev pub end_of : Vector A → Iterator
  end_of v = offset (size v)

  -- Erasing one element returns the vector and the iterator to what followed it.
  unfoldable pub erase : Vector A → Iterator → Result (Vector A × Iterator)
  unfolding check_iterator pop_back
  erase v itr = do
    check_iterator true v itr
    let n = position itr
    let popped = (pop_back v >>= λ w. ok (w, end_of w))
    let moved : Vector A × Iterator =
        (record v { items = take n v.items ++ drop (n + 1) v.items }, itr)
    (if size v - n - 1 == 0 then popped else ok moved)

  unfoldable pub erase_range : Vector A → Iterator → Iterator → Result (Vector A × Iterator)
  unfolding check_iterator iterator_eq iterator_less
  erase_range v beg end =
      let checked : Result (Vector A × Iterator) = (do
        check_iterator false v beg
        check_iterator false v end
        throw_if (iterator_less end beg) invalid_argument
        ok (
          record v { items = take (position beg) v.items ++ drop (position end) v.items },
          beg,
        )) in
      if iterator_eq beg end then ok (v, end) else checked

  unfoldable pub at : Vector A → ℕ → Result A
  at v idx = elim (get_elem? v.items idx) [ none ↦ err out_of_range | some a ↦ ok a ]

  -- swap, and the move operations: the second vector of a result is what the source holds.
  unfoldable pub swap : Vector A → Vector A → Vector A × Vector A
  swap v w = (w, v)

  unfoldable pub move_construct : Vector A → Vector A × Vector A
  unfolding swap empty_vector
  move_construct other = swap empty_vector other

  -- Assignment between two different vectors; onto itself the source returns at once.
  unfoldable pub move_assign : Vector A → Vector A → Vector A × Vector A
  unfolding swap reset
  move_assign v other = swap (reset v) other

  -- The elements and the capacity that are handed out, and the vector left behind.
  unfoldable pub release : Vector A → (List A × ℕ) × Vector A
  unfolding empty_vector
  release v = ((v.items, v.capacity), empty_vector)

abbrev pub max_capacity : ℕ → ℕ
max_capacity size_of = (size_mod - 1) / size_of

module _ (alloc : Allocator) (size_of : ℕ) {A : Type 0} where
  -- The operations that allocate. One that throws leaves the vector as it was.
  unfoldable pub mem_reserve : Vector A → ℕ → Result (Vector A)
  mem_reserve v new_capacity = do
    throw_if (ltb (max_capacity size_of) new_capacity) length_error
    throw_if (not (alloc.grants ((new_capacity * size_of) % size_mod))) bad_alloc
    ok (record v { capacity = new_capacity })

  unfoldable pub auto_capacity : Vector A → ℕ → Result (Vector A)
  unfolding mem_reserve
  auto_capacity v needed =
      if leb needed v.capacity
      then ok v
      else if ltb needed 16
      then mem_reserve v 16
      else mem_reserve v (max needed ((v.capacity * 2) % size_mod))

  unfoldable pub push_back : Vector A → A → Result (Vector A)
  push_back v val = do
    w ← auto_capacity v ((size v + 1) % size_mod)
    ok (record w { items = w.items ++ val ∷ [] })

  -- push_back of a reference to an element of the vector itself. The reference is read after the
  -- reallocation; `none` is a read through a pointer that realloc has freed.
  unfoldable pub push_back_own : Vector A → ℕ → Option (Result (Vector A))
  push_back_own v i = elim (auto_capacity v ((size v + 1) % size_mod)) [
    | err e ↦ some (err e)
    | ok w ↦
        if w.capacity == v.capacity
        then elim (get_elem? v.items i) [
          | none ↦ none
          | some val ↦ some (ok (record w { items = w.items ++ val ∷ [] }))
        ]
        else none
  ]

  unfoldable pub reserve : Vector A → ℕ → Result (Vector A)
  reserve v new_capacity = auto_capacity v new_capacity

  unfoldable pub copy_construct : Vector A → Result (Vector A)
  unfolding is_empty empty_vector
  copy_construct other =
      let copied =
        auto_capacity empty_vector (size other) >>= λ w. ok (record w { items = other.items }) in
      if is_empty other then ok empty_vector else copied

  -- Assignment from another vector: copy, then swap; the old content dies with the copy.
  unfoldable pub copy_assign : Vector A → Vector A → Result (Vector A)
  unfolding copy_construct swap
  copy_assign v other = do copy ← copy_construct other; ok (swap v copy).0

  unfoldable pub push_all : Vector A → List A → Result (Vector A)
  push_all v [] = ok v
  push_all v (x ∷ xs) = push_back v x >>= λ w. push_all w xs
