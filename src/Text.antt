-- ===== src/Text.antt =====
-- nstl/nstl/string.hpp, safe_basename.hpp and parse.hpp: splitting, trimming and comparing views, the
-- file name of a path, and the parser of Booleans. std::isspace and std::tolower are those of the "C"
-- locale.
pub mod Split
pub mod Trim
pub mod Case
pub mod Basename
pub mod Flag
use nstl.Prelude.{
  ℕ, zero, suc, ◌+◌, ◌-◌, ◌*◌, ◌/◌, ◌%◌, ◌^◌, ◌≤◌, ◌<◌, min, ◌≡◌, refl, sym, ap, ◌∙◌, ◌≢◌, ◌↔◌, ◌⊎◌,
  inl, inr, Bool, true, false, ◌&&◌, ◌||◌, not, Option, none, some, List, [], ◌∷◌, ◌++◌, map,
  append-nil, append_assoc, arith, ltb, leb, ◌==◌, if◌then◌else◌, ltb→lt, lt→ltb, leb→le, le→leb,
  ==_iff, tests, Bool-cases, Option-cases, all_below, all_below_sound, length, get_elem?, take,
  drop, replicate, length-append, take-append-drop, length-take, length-drop, length-replicate,
  take-append, drop-append, take-append_of_le, take-append_of_ge, append-replicate, take_of_ge,
  drop_of_ge, length-map, All, All-append, Exception, nstl_exception, length_error, bad_alloc,
  runtime_error, out_of_range, invalid_argument, Result, ok, err, ◌>>=◌, ◌>>◌, throw_if, >>=-eq-ok,
  Result-cases, get_elem?_of_lt, nil_of_length, find, codes,
}

-- The views that `split_view_func` hands to its callback, and the number of calls that it returns.
pub record Emitted : Type 0 where
  pub items : List (List ℕ)
  pub retval : ℕ

-- One call of `func`, or the `continue` for an empty item.
unfoldable pub emit : Bool → List ℕ → Emitted → Emitted
emit skip_empty item e =
    if skip_empty && (length item == 0)
    then e
    else record { items = e.items ++ item ∷ []; retval = e.retval + 1 }

-- The loop, `rest` being the view from `prev` on; the last item is what no delimiter follows. The
-- fuel is above the number of characters left.
unfoldable pub split_loop : ℕ → ℕ → Bool → List ℕ → Emitted → Emitted
split_loop zero delim skip_empty rest e = e
split_loop (suc fuel) delim skip_empty rest e = elim (find delim rest) [
  | none ↦ emit skip_empty rest e
  | some i ↦ split_loop fuel delim skip_empty (drop (i + 1) rest) (emit skip_empty (take i rest) e)
]

unfoldable pub split_view_func : List ℕ → ℕ → Bool → Emitted
unfolding split_loop
split_view_func view delim skip_empty =
    split_loop (length view + 1) delim skip_empty view (record { items = []; retval = 0 })

unfoldable pub is_space_ch : ℕ → Bool
is_space_ch c = (c == 32) || (leb 9 c && leb c 13)

unfoldable pub left_trim_view : List ℕ → List ℕ
left_trim_view [] = []
left_trim_view (c ∷ s) = let rest = left_trim_view s in if is_space_ch c then rest else c ∷ s

-- `n` is the size of the view: each round looks at the last character and drops it.
unfoldable pub right_trim_loop : ℕ → List ℕ → List ℕ
right_trim_loop zero view = view
right_trim_loop (suc n) view = elim (get_elem? view n) [
  | none ↦ view
  | some c ↦ elim (is_space_ch c) [ true ↦ right_trim_loop n (take n view) | false ↦ view ]
]

unfoldable pub right_trim_view : List ℕ → List ℕ
unfolding right_trim_loop
right_trim_view view = right_trim_loop (length view) view

unfoldable pub trim_view : List ℕ → List ℕ
trim_view view = right_trim_view (left_trim_view view)

unfoldable pub to_lower : ℕ → ℕ
to_lower c = if leb b'A' c && leb c b'Z' then c + 32 else c

-- The loop of `iequal` over two views of one size.
unfoldable pub same_letters : List ℕ → List ℕ → Bool
same_letters [] right = true
same_letters (x ∷ left) [] = true
same_letters (x ∷ left) (y ∷ right) =
    let rest = same_letters left right in if to_lower x == to_lower y then rest else false

unfoldable pub iequal : List ℕ → List ℕ → Bool
unfolding same_letters
iequal left right = if length left == length right then same_letters left right else false

-- `rfind` of a character.
unfoldable pub rfind : ℕ → List ℕ → Option ℕ
rfind x [] = none
rfind x (c ∷ s) = elim (rfind x s) [
  | some i ↦ some (suc i)
  | none ↦ if c == x then some 0 else none
]

-- The path separator of every platform but Windows.
abbrev pub path_sep : ℕ
path_sep = b'/'

unfoldable pub safe_basename_view : List ℕ → List ℕ
unfolding rfind
safe_basename_view filename = elim (rfind path_sep filename) [
  | none ↦ filename
  | some pos ↦ drop (pos + 1) filename
]

-- starts_with.
unfoldable pub starts_with : List ℕ → List ℕ → Bool
starts_with value [] = true
starts_with [] (p ∷ item) = false
starts_with (c ∷ value) (p ∷ item) = (c == p) && starts_with value item

-- nstl::from_chars of a bool: the bytes consumed and the value, or `none` for invalid_argument.
unfoldable pub from_chars_bool : List ℕ → Option (ℕ × Bool)
unfolding starts_with
from_chars_bool value =
    if starts_with value (codes "1")
    then some (1, true)
    else if starts_with value (codes "true")
    then some (4, true)
    else if starts_with value (codes "0")
    then some (1, false)
    else if starts_with value (codes "false")
    then some (5, false)
    else none

-- parse_view<bool>. Where from_chars fails, `ptr` is the beginning and so not the end.
unfoldable pub parse_view_bool : List ℕ → Result Bool
unfolding from_chars_bool
parse_view_bool view = do
  throw_if (length view == 0) invalid_argument
  elim (from_chars_bool view) [
    | none ↦ err invalid_argument
    | some (n, value) ↦ if n == length view then ok value else err invalid_argument
  ]
