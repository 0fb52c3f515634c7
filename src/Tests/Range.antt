-- ===== src/Tests/Range.antt =====
-- A map that is printed and split again.
use nstl.Prelude.{ℕ, ◌≡◌, refl, false, List, [], ◌∷◌, map, arith, codes}
use nstl.Text.{split_view_func}
use nstl.Range.{stream_loop, range_print, map_stream_loop, range_map_print}
use nstl.Range.Split.{split_view_func-range_map_print, split_pair, both_texts}

abbrev same : List ℕ → List ℕ
same text = text

abbrev pairs : List (List ℕ × List ℕ)
pairs = (codes "b", codes "2") ∷ []

prints :
    range_map_print same same (codes ", ") (codes "=") ((codes "a", codes "1") ∷ pairs)
    ≡ codes "a=1, b=2"
unfolding range_map_print map_stream_loop
prints = refl

prints_range : range_print same (codes ";") (codes "a" ∷ codes "b" ∷ []) ≡ codes "a;b"
unfolding range_print stream_loop
prints_range = refl

split_view_func-range_map_print_example :
    map
      (split_pair same same 59 61)
      (split_view_func
        (range_map_print same same (59 ∷ []) (61 ∷ []) ((codes "a", codes "1") ∷ pairs))
        59
        false).items
    ≡ map (both_texts same same 59 61) ((codes "a", codes "1") ∷ pairs)
split_view_func-range_map_print_example =
    split_view_func-range_map_print same same 59 61 (codes "a", codes "1") pairs (λ e. omega arith)
      (
        (
          ((λ e. omega arith), tt),
          ((λ e. omega arith), tt),
          ((λ e. omega arith), tt),
          ((λ e. omega arith), tt),
        ),
        (
          (
            ((λ e. omega arith), tt),
            ((λ e. omega arith), tt),
            ((λ e. omega arith), tt),
            ((λ e. omega arith), tt),
          ),
          tt,
        ),
      )
