-- ===== src/Text/Trim.antt =====
-- Trimming views, nstl/nstl/string.hpp.
use nstl.Prelude.{
  ℕ, zero, suc, ◌≡◌, refl, sym, ap, ◌∙◌, ◌⊎◌, inl, inr, true, false, some, List, [], ◌∷◌, ◌++◌,
  append-nil, append_assoc, arith, Bool-cases, length, get_elem?, take, All, All-append,
  get_elem?_of_lt, nil_of_length,
}
use mathlib.Core.Path.{subst}
use nstl.Text.{is_space_ch, left_trim_view, right_trim_loop, right_trim_view, trim_view}

abbrev pub IsBlank : List ℕ → Type 0
IsBlank = All (λ c. is_space_ch c ≡ true)

-- The text is empty or begins with a character that is no space.
abbrev pub StartsDark : List ℕ → Type 0
StartsDark [] = Unit
StartsDark (c ∷ s) = is_space_ch c ≡ false

left_trim_view_lem :
    (s : List ℕ)
    → (pre : List ℕ) × IsBlank pre × (s ≡ pre ++ left_trim_view s) × StartsDark (left_trim_view s)
unfolding left_trim_view
left_trim_view_lem [] = ([], tt, refl, tt)
left_trim_view_lem (c ∷ s) = elim (Bool-cases (is_space_ch c)) [
  | inl space ↦
      let (pre, blank, cut, dark) = left_trim_view_lem s in
      rw space (c ∷ pre, (space, blank), ap (◌∷◌ c) cut, dark)
  | inr other ↦ rw other ([], tt, refl, other)
]

-- The text is empty or ends with a character that is no space.
abbrev pub EndsDark : List ℕ → Type 0
EndsDark s = (s ≡ []) ⊎ ((t : List ℕ) × (c : ℕ) × (s ≡ t ++ c ∷ []) × (is_space_ch c ≡ false))

take_last :
    (s : List ℕ) (n : ℕ) (c : ℕ)
    → length s ≡ suc n
    → get_elem? s n ≡ some c
    → (s ≡ take n s ++ c ∷ []) × (length (take n s) ≡ n)
take_last [] n c h e = absurd (omega arith)
take_last (x ∷ []) zero c h e = ground arith
take_last (x ∷ y ∷ s) zero c h e = absurd (omega arith)
take_last (x ∷ s) (suc n) c h e =
    let (cut, len) = take_last s n c (omega arith) e in (ap (◌∷◌ x) cut, ap suc len)

right_trim_loop_lem :
    (n : ℕ) (s : List ℕ)
    → length s ≡ n
    → (post : List ℕ) × IsBlank post
      × (s ≡ right_trim_loop n s ++ post)
      × EndsDark (right_trim_loop n s)
unfolding right_trim_loop
right_trim_loop_lem zero s h = ([], tt, sym (append-nil s), inl (nil_of_length s h))
right_trim_loop_lem (suc n) s h =
    let (c, e) = get_elem?_of_lt s n (omega arith) in
    let (cut, len) = take_last s n c h e in
    elim (Bool-cases (is_space_ch c)) [
      | inl space ↦
          let (post, blank, cut', dark) = right_trim_loop_lem n (take n s) len in
          rw (e, right_trim_loop, space)
            (
              post ++ c ∷ [],
              All-append (λ c. is_space_ch c ≡ true) post (c ∷ []) blank (space, tt),
              cut
                  ∙ ap (λ xs. xs ++ c ∷ []) cut'
                  ∙ append_assoc (right_trim_loop n (take n s)) post (c ∷ []),
              dark,
            )
      | inr other ↦
          rw (e, right_trim_loop, other) ([], tt, sym (append-nil s), inr (take n s, c, cut, other))
    ]

StartsDark-prefix : (s post : List ℕ) → StartsDark (s ++ post) → StartsDark s
StartsDark-prefix [] post h = tt
StartsDark-prefix (c ∷ s) post h = h

-- Trimming removes spaces only, from the two ends, and leaves no space at either end: the view is
-- spaces, what `trim_view` returns, and spaces.
pub trim_view_lem :
    (s : List ℕ)
    → (pre : List ℕ) × (post : List ℕ) × IsBlank pre
      × IsBlank post
      × (s ≡ pre ++ (trim_view s ++ post))
      × StartsDark (trim_view s)
      × EndsDark (trim_view s)
unfolding trim_view right_trim_view
trim_view_lem s =
    let l = left_trim_view s in
    let (pre, blank, cut, dark) = left_trim_view_lem s in
    let (post, blank', cut', dark') = right_trim_loop_lem (length l) l refl in
    (
      pre,
      post,
      blank,
      blank',
      cut ∙ ap (λ xs. pre ++ xs) cut',
      StartsDark-prefix (right_trim_loop (length l) l) post (subst StartsDark cut' dark),
      dark',
    )
