-- ===== src/Args.antt =====
-- nstl/nstl/args_editor.cpp, which moves an argument out of argc and argv, and the comparison of C
-- strings of nstl/nstl/secure_string.hpp that it uses. A `const char*` is `none` for nullptr, or the
-- bytes before its NUL.
pub mod Moves
use nstl.Prelude.{
  ℕ, zero, suc, ◌+◌, ◌-◌, ◌*◌, ◌/◌, ◌%◌, ◌^◌, ◌≤◌, ◌<◌, min, ◌≡◌, refl, sym, ap, ◌∙◌, ◌≢◌, ◌↔◌, ◌⊎◌,
  inl, inr, Bool, true, false, ◌&&◌, ◌||◌, not, Option, none, some, List, [], ◌∷◌, ◌++◌, map,
  append-nil, append_assoc, arith, ltb, leb, ◌==◌, if◌then◌else◌, ltb→lt, lt→ltb, leb→le, le→leb,
  ==_iff, tests, Bool-cases, Option-cases, all_below, all_below_sound, length, get_elem?, take,
  drop, replicate, length-append, take-append-drop, length-take, length-drop, length-replicate,
  take-append, drop-append, take-append_of_le, take-append_of_ge, append-replicate, take_of_ge,
  drop_of_ge, length-map, All, All-append, Exception, nstl_exception, length_error, bad_alloc,
  runtime_error, out_of_range, invalid_argument, Result, ok, err, ◌>>=◌, ◌>>◌, throw_if, >>=-eq-ok,
  Result-cases, get_elem?_of_lt, nil_of_length, find, codes, drop_next,
}

-- The sign of an int that a comparison returns.
pub data Sign : Type 0 where
  negative zeroed positive : Sign

-- std::strcmp and std::strncmp compare as unsigned characters.
unfoldable pub compare_bytes : List ℕ → List ℕ → Sign
compare_bytes [] [] = zeroed
compare_bytes [] (y ∷ b) = negative
compare_bytes (x ∷ a) [] = positive
compare_bytes (x ∷ a) (y ∷ b) =
    let rest = compare_bytes a b in if ltb x y then negative else if ltb y x then positive else rest

unfoldable pub strcmp : Option (List ℕ) → Option (List ℕ) → Sign
strcmp none none = zeroed
strcmp none (some right) = positive
strcmp (some left) none = negative
strcmp (some left) (some right) = compare_bytes left right

unfoldable pub strncmp : Option (List ℕ) → Option (List ℕ) → ℕ → Sign
strncmp none none max_count = zeroed
strncmp none (some right) max_count = positive
strncmp (some left) none max_count = negative
strncmp (some left) (some right) max_count =
    compare_bytes (take max_count left) (take max_count right)

unfoldable pub strlen : Option (List ℕ) → ℕ
strlen none = 0
strlen (some text) = length text

abbrev pub is_zero : Sign → Bool
is_zero negative = false
is_zero zeroed = true
is_zero positive = false

abbrev pub Argv : Type 0
Argv = List (Option (List ℕ))

pub record ArgState : Type 0 where
  pub argc : ℕ
  pub argv : Argv
  pub found : Bool

-- The memmove of what follows `idx`, and the write of `ptrval` to the last place.
unfoldable pub move_last : Argv → ℕ → ℕ → Option (List ℕ) → Argv
move_last argv idx argc ptrval =
    take idx argv ++ (take (argc - 1 - idx) (drop (idx + 1) argv) ++ ptrval ∷ drop argc argv)

-- The loop; the fuel is argc - idx. After a match `idx` stays, since it is decremented and then
-- incremented.
unfoldable pub arg_loop : ℕ → List ℕ → ℕ → ArgState → ArgState
arg_loop zero value idx s = s
arg_loop (suc fuel) value idx s = elim (get_elem? s.argv idx) [
  | none ↦ s
  | some ptrval ↦ elim (is_zero (strcmp (some value) ptrval)) [
    | true ↦ arg_loop fuel value idx (record {
      argc = s.argc - 1;
      argv = if ltb idx (s.argc - 1) then move_last s.argv idx s.argc ptrval else s.argv;
      found = true;
    })
    | false ↦ arg_loop fuel value (idx + 1) s
  ]
]

-- The int argc_, which may be negative.
pub data Count : Type 0 where
  below_zero count : ℕ → Count

unfoldable pub is_arg_set : Count → Option Argv → Option (List ℕ) → Result ArgState
is_arg_set (below_zero n) argv value = err nstl_exception
is_arg_set (count argc) none value = err nstl_exception
is_arg_set (count argc) (some argv) none = err nstl_exception
is_arg_set (count argc) (some argv) (some []) = err nstl_exception
is_arg_set (count argc) (some argv) (some (c ∷ value)) =
    ok (arg_loop argc (c ∷ value) 0 (record { argc = argc; argv = argv; found = false }))
