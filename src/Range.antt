-- ===== src/Range.antt =====
-- nstl/nstl/range_print.hpp: the text that a range gives on a stream. What the stream makes of an
-- element is an argument.
pub mod Split
use nstl.Prelude.{
  ℕ, zero, suc, ◌+◌, ◌-◌, ◌*◌, ◌/◌, ◌%◌, ◌^◌, ◌≤◌, ◌<◌, min, ◌≡◌, refl, sym, ap, ◌∙◌, ◌≢◌, ◌↔◌, ◌⊎◌,
  inl, inr, Bool, true, false, ◌&&◌, ◌||◌, not, Option, none, some, List, [], ◌∷◌, ◌++◌, map,
  append-nil, append_assoc, arith, ltb, leb, ◌==◌, if◌then◌else◌, ltb→lt, lt→ltb, leb→le, le→leb,
  ==_iff, tests, Bool-cases, Option-cases, all_below, all_below_sound, length, get_elem?, take,
  drop, replicate, length-append, take-append-drop, length-take, length-drop, length-replicate,
  take-append, drop-append, take-append_of_le, take-append_of_ge, append-replicate, take_of_ge,
  drop_of_ge, length-map, All, All-append, Exception, nstl_exception, length_error, bad_alloc,
  runtime_error, out_of_range, invalid_argument, Result, ok, err, ◌>>=◌, ◌>>◌, throw_if, >>=-eq-ok,
  Result-cases, get_elem?_of_lt, nil_of_length, find, c_string, codes, drop_next, same_text,
  same_text_iff, text-cases, same_text_self, same_text_of_ne,
}

module _ {ℓ} {A : Type ℓ} (show : A → List ℕ) where
  -- The loop behind the first element.
  unfoldable pub stream_loop : List ℕ → List A → List ℕ
  stream_loop delim [] = []
  stream_loop delim (x ∷ xs) = delim ++ show x ++ stream_loop delim xs

  -- The stream operator of Streamer, for what range_print makes of a range.
  unfoldable pub range_print : List ℕ → List A → List ℕ
  range_print delim [] = []
  range_print delim (x ∷ xs) = show x ++ stream_loop delim xs

module _ {ℓ κ} {A : Type ℓ} {B : Type κ} (show_first : A → List ℕ) (show_second : B → List ℕ) where
  unfoldable pub map_stream_loop : List ℕ → List ℕ → List (A × B) → List ℕ
  map_stream_loop delim eq_delim [] = []
  map_stream_loop delim eq_delim ((first, second) ∷ xs) =
      delim
      ++ show_first first
      ++ eq_delim
      ++ show_second second
      ++ map_stream_loop delim eq_delim xs

  -- The stream operator of MapStreamer.
  unfoldable pub range_map_print : List ℕ → List ℕ → List (A × B) → List ℕ
  range_map_print delim eq_delim [] = []
  range_map_print delim eq_delim ((first, second) ∷ xs) =
      show_first first ++ eq_delim ++ show_second second ++ map_stream_loop delim eq_delim xs
