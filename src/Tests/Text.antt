-- ===== src/Tests/Text.antt =====
-- Runs of the text functions.
use nstl.Prelude.{ℕ, ◌≡◌, refl, true, List, [], ◌∷◌, invalid_argument, ok, err, find, codes}
use nstl.Text.{
  split_view_func, trim_view, parse_view_bool, emit, left_trim_view, right_trim_view, is_space_ch,
}

splits :
    split_view_func (codes "a,,b") b',' true
    ≡ record { items = codes "a" ∷ codes "b" ∷ []; retval = 2 }
unfolding split_view_func find emit
splits = refl

trims : trim_view (codes "  a b ") ≡ codes "a b"
unfolding trim_view left_trim_view right_trim_view is_space_ch
trims = refl

abbrev row : List ℕ
row = codes "a,,b"

accepts : parse_view_bool (codes "true") ≡ ok true
unfolding parse_view_bool
accepts = refl

refuses : parse_view_bool (codes "10") ≡ err invalid_argument
unfolding parse_view_bool
refuses = refl
