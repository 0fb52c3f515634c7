-- ===== src/Range/Split.antt =====
-- Ranges that are printed, nstl/nstl/range_print.hpp, and split again, nstl/nstl/string.hpp.
use nstl.Prelude.{
  ℕ, ◌≡◌, refl, sym, ap, ◌∙◌, ◌≢◌, true, false, List, [], ◌∷◌, ◌++◌, map, append-nil, append_assoc,
  arith, ◌==◌, All, All-append,
}
use nstl.Text.{split_view_func}
use nstl.Text.Split.{onto_first, pieces, kept, split_view_func_lem}
use nstl.Range.{stream_loop, range_print, map_stream_loop, range_map_print}

abbrev pub Lacks : ℕ → List ℕ → Type 0
Lacks delim = All (λ c. c ≢ delim)

pieces-Lacks : (delim : ℕ) (p : List ℕ) → Lacks delim p → pieces delim p ≡ p ∷ []
pieces-Lacks delim [] lacks = refl
pieces-Lacks delim (c ∷ p) (ne, lacks) =
    let other : (c == delim) ≡ false = ground arith in
    simp other (ap (onto_first c) (pieces-Lacks delim p lacks))

pieces-append :
    (delim : ℕ) (p s : List ℕ) → Lacks delim p → pieces delim (p ++ delim ∷ s) ≡ p ∷ pieces delim s
pieces-append delim [] s lacks = let here : (delim == delim) ≡ true = ground arith in simp here refl
pieces-append delim (c ∷ p) s (ne, lacks) =
    let other : (c == delim) ≡ false = ground arith in
    simp other (ap (onto_first c) (pieces-append delim p s lacks))

kept-all : (ps : List (List ℕ)) → kept false ps ≡ ps
kept-all [] = refl
kept-all (p ∷ ps) = ap (p ∷◌) (kept-all ps)

split_pieces :
    (view : List ℕ) (delim : ℕ) → (split_view_func view delim false).items ≡ pieces delim view
split_pieces view delim = (split_view_func_lem view delim false).0 ∙ kept-all (pieces delim view)

module _ {ℓ} {A : Type ℓ} (show : A → List ℕ) (delim : ℕ) where
  pieces-stream_loop :
      (p : List ℕ) (xs : List A)
      → Lacks delim p
      → All (λ x. Lacks delim (show x)) xs
      → pieces delim (p ++ stream_loop show (delim ∷ []) xs) ≡ p ∷ map show xs
  unfolding stream_loop
  pieces-stream_loop p [] here lacks = ap (pieces delim) (append-nil p) ∙ pieces-Lacks delim p here
  pieces-stream_loop p (x ∷ xs) here (at_x, lacks) =
      pieces-append delim p (show x ++ stream_loop show (delim ∷ []) xs) here
      ∙ ap (p ∷◌) (pieces-stream_loop (show x) xs at_x lacks)

  -- A range that is not empty and is printed with a delimiter of one character, which its elements'
  -- texts do not hold, splits at that character into these texts, and into as many as there are.
  pub split_view_func-range_print :
      (x : A) (xs : List A)
      → All (λ y. Lacks delim (show y)) (x ∷ xs)
      → (split_view_func (range_print show (delim ∷ []) (x ∷ xs)) delim false).items
        ≡ map show (x ∷ xs)
  unfolding range_print
  split_view_func-range_print x xs (here, lacks) =
      split_pieces (range_print show (delim ∷ []) (x ∷ xs)) delim
      ∙ pieces-stream_loop (show x) xs here lacks

module _ {ℓ κ} {A : Type ℓ} {B : Type κ} (show_first : A → List ℕ) (show_second : B → List ℕ)
    (delim eq_delim : ℕ) where
  abbrev show_pair : A × B → List ℕ
  show_pair (first, second) = show_first first ++ eq_delim ∷ show_second second

  map_stream_loop_lem :
      (xs : List (A × B))
      → map_stream_loop show_first show_second (delim ∷ []) (eq_delim ∷ []) xs
        ≡ stream_loop show_pair (delim ∷ []) xs
  unfolding map_stream_loop stream_loop
  map_stream_loop_lem [] = refl
  map_stream_loop_lem ((first, second) ∷ xs) =
      let rest = map_stream_loop show_first show_second (delim ∷ []) (eq_delim ∷ []) xs in
      let text = show_first first ++ eq_delim ∷ show_second second in
      ap (delim ∷◌) (
        ap (◌++ rest) (append_assoc (show_first first) (eq_delim ∷ []) (show_second second))
        ∙ ap (text ++◌) (map_stream_loop_lem xs))

  range_map_print_lem :
      (x : A × B) (xs : List (A × B))
      → range_map_print show_first show_second (delim ∷ []) (eq_delim ∷ []) (x ∷ xs)
        ≡ range_print show_pair (delim ∷ []) (x ∷ xs)
  unfolding range_map_print range_print
  range_map_print_lem (first, second) xs =
      let rest = map_stream_loop show_first show_second (delim ∷ []) (eq_delim ∷ []) xs in
      let text = show_first first ++ eq_delim ∷ show_second second in
      ap (◌++ rest) (append_assoc (show_first first) (eq_delim ∷ []) (show_second second))
      ∙ ap (text ++◌) (map_stream_loop_lem xs)

  -- The texts of a pair hold neither of the two characters.
  abbrev pub IsPlain : A × B → Type 0
  IsPlain (first, second) =
      Lacks delim (show_first first)
      × Lacks eq_delim (show_first first)
      × Lacks delim (show_second second)
      × Lacks eq_delim (show_second second)

  abbrev pub both_texts : A × B → List (List ℕ)
  both_texts (first, second) = show_first first ∷ show_second second ∷ []

  abbrev pub split_pair : List ℕ → List (List ℕ)
  split_pair piece = (split_view_func piece eq_delim false).items

  show_pair-Lacks : delim ≢ eq_delim → (x : A × B) → IsPlain x → Lacks delim (show_pair x)
  show_pair-Lacks apart (first, second) (a, b, c, d) =
      All-append (λ ch. ch ≢ delim) (show_first first) (eq_delim ∷ show_second second) a
        ((λ e. apart (sym e)), c)

  pairs_lack :
      delim ≢ eq_delim
      → (xs : List (A × B)) → All IsPlain xs
      → All (λ x. Lacks delim (show_pair x)) xs
  pairs_lack apart [] plain = tt
  pairs_lack apart (x ∷ xs) (here, plain) =
      (show_pair-Lacks apart x here, pairs_lack apart xs plain)

  split_pair_lem : (x : A × B) → IsPlain x → split_pair (show_pair x) ≡ both_texts x
  split_pair_lem (first, second) (a, b, c, d) =
      split_pieces (show_pair (first, second)) eq_delim
      ∙ pieces-append eq_delim (show_first first) (show_second second) b
      ∙ ap (show_first first ∷◌) (pieces-Lacks eq_delim (show_second second) d)

  split_pairs :
      (xs : List (A × B)) → All IsPlain xs → map split_pair (map show_pair xs) ≡ map both_texts xs
  split_pairs [] plain = refl
  split_pairs (x ∷ xs) (here, plain) =
      ap (◌∷ map split_pair (map show_pair xs)) (split_pair_lem x here)
      ∙ ap (both_texts x ∷◌) (split_pairs xs plain)

  -- A map that is not empty and is printed with two different delimiters of one character, which its
  -- texts do not hold, splits at the one into as many pieces as there are pairs, and each piece at the
  -- other one into the texts of its pair.
  pub split_view_func-range_map_print :
      (x : A × B) (xs : List (A × B))
      → delim ≢ eq_delim
      → All IsPlain (x ∷ xs)
      → map split_pair
          (split_view_func
            (range_map_print show_first show_second (delim ∷ []) (eq_delim ∷ []) (x ∷ xs))
            delim
            false).items
        ≡ map both_texts (x ∷ xs)
  split_view_func-range_map_print x xs apart plain =
      ap (λ t. map split_pair (split_view_func t delim false).items) (range_map_print_lem x xs)
      ∙ ap (map split_pair)
          (split_view_func-range_print show_pair delim x xs (pairs_lack apart (x ∷ xs) plain))
      ∙ split_pairs (x ∷ xs) plain
