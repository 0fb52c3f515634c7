-- ===== src/Text/Split.antt =====
-- `split_view_func` of nstl/nstl/string.hpp, and a description of splitting by recursion on the
-- characters.
use nstl.Prelude.{
  ℕ, zero, suc, ◌+◌, ◌<◌, ◌≡◌, refl, ap, ◌∙◌, ◌≢◌, inl, inr, Bool, ◌&&◌, none, some, List, [], ◌∷◌,
  ◌++◌, append-nil, append_assoc, arith, ◌==◌, if◌then◌else◌, Bool-cases, Option-cases, length,
  take, drop, length-drop, All, find, drop_next,
}
use nstl.Text.{Emitted, emit, split_loop, split_view_func}

-- The pieces between the delimiters; there is always one.
abbrev pub onto_first : ℕ → List (List ℕ) → List (List ℕ)
onto_first c [] = (c ∷ []) ∷ []
onto_first c (p ∷ ps) = (c ∷ p) ∷ ps

abbrev pub pieces : ℕ → List ℕ → List (List ℕ)
pieces delim [] = [] ∷ []
pieces delim (c ∷ s) = if c == delim then [] ∷ pieces delim s else onto_first c (pieces delim s)

-- The pieces without the empty ones, if those are to be skipped.
abbrev pub kept : Bool → List (List ℕ) → List (List ℕ)
kept skip [] = []
kept skip (p ∷ ps) = if skip && (length p == 0) then kept skip ps else p ∷ kept skip ps

-- The text that pieces and delimiters spell.
abbrev pub join : ℕ → List (List ℕ) → List ℕ
join delim [] = []
join delim (p ∷ []) = p
join delim (p ∷ q ∷ ps) = p ++ delim ∷ join delim (q ∷ ps)

pieces-none : (delim : ℕ) (s : List ℕ) → find delim s ≡ none → pieces delim s ≡ s ∷ []
unfolding find
pieces-none delim [] h = refl
pieces-none delim (c ∷ s) h = ground (arith, pieces-none delim s)

pieces-some :
    (delim : ℕ) (s : List ℕ) (i : ℕ)
    → find delim s ≡ some i
    → (pieces delim s ≡ take i s ∷ pieces delim (drop (i + 1) s)) × (i < length s)
unfolding find
pieces-some delim [] i h = cc
pieces-some delim (c ∷ s) zero h = (ground arith, omega arith)
pieces-some delim (c ∷ s) (suc i) h = rw drop_next (ground (arith, pieces-some delim s i))

-- What the loop adds to the items and the count so far.
abbrev Adds : Bool → List (List ℕ) → Emitted → Emitted → Type 0
Adds skip ps e r =
    (r.items ≡ e.items ++ kept skip ps) × (r.retval ≡ e.retval + length (kept skip ps))

emit-Adds : (skip : Bool) (p : List ℕ) (e : Emitted) → Adds skip (p ∷ []) e (emit skip p e)
unfolding emit
emit-Adds skip p e = ground (arith, append-nil e.items)

emit_then-Adds :
    (skip : Bool) (p : List ℕ) (ps : List (List ℕ)) (e r : Emitted)
    → Adds skip ps (emit skip p e) r
    → Adds skip (p ∷ ps) e r
unfolding emit
emit_then-Adds skip p ps e r h = ground (arith, append_assoc e.items (p ∷ []) (kept skip ps))

split_loop-Adds :
    (fuel delim : ℕ) (skip : Bool) (rest : List ℕ) (e : Emitted)
    → length rest < fuel
    → Adds skip (pieces delim rest) e (split_loop fuel delim skip rest e)
unfolding split_loop
split_loop-Adds zero delim skip rest e h = absurd (omega arith)
split_loop-Adds (suc fuel) delim skip rest e h = elim (Option-cases (find delim rest)) [
  | inl f ↦ rw (f, split_loop) (rw (pieces-none delim rest f) (emit-Adds skip rest e))
  | inr (i, f) ↦
      let (cut, short) = pieces-some delim rest i f in
      rw (f, split_loop)
        (rw cut (
          emit_then-Adds skip (take i rest) _ e _ (
            split_loop-Adds fuel delim skip (drop (i + 1) rest) (emit skip (take i rest) e)
              (omega (arith, length-drop {0} (i + 1) rest)))))
]

join-onto_first :
    (delim c : ℕ) (ps : List (List ℕ)) → ps ≢ [] → join delim (onto_first c ps) ≡ c ∷ join delim ps
join-onto_first delim c [] h = absurd (h refl)
join-onto_first delim c (p ∷ []) h = refl
join-onto_first delim c (p ∷ q ∷ ps) h = refl

pieces-ne-nil : (delim : ℕ) (s : List ℕ) → pieces delim s ≢ []
pieces-ne-nil delim [] = λ e. cc
pieces-ne-nil delim (c ∷ s) = λ e. ground (arith, pieces-ne-nil delim s)

join_after :
    (delim : ℕ) (ps : List (List ℕ)) → ps ≢ [] → join delim ([] ∷ ps) ≡ delim ∷ join delim ps
join_after delim [] h = absurd (h refl)
join_after delim (p ∷ ps) h = refl

join-pieces : (delim : ℕ) (s : List ℕ) → join delim (pieces delim s) ≡ s
join-pieces delim [] = refl
join-pieces delim (c ∷ s) = elim (Bool-cases (c == delim)) [
  | inl e ↦ rw e (
      join_after delim (pieces delim s) (pieces-ne-nil delim s)
      ∙ ground (arith, e, join-pieces delim s))
  | inr e ↦ rw e (
      join-onto_first delim c (pieces delim s) (pieces-ne-nil delim s)
      ∙ ap (◌∷◌ c) (join-pieces delim s))
]

Lack-onto_first :
    (delim c : ℕ) (ps : List (List ℕ))
    → c ≢ delim
    → All (All (λ c. c ≢ delim)) ps
    → All (All (λ c. c ≢ delim)) (onto_first c ps)
Lack-onto_first delim c [] h hs = ((h, tt), tt)
Lack-onto_first delim c (p ∷ ps) h (hp, hs) = ((h, hp), hs)

pieces-Lack : (delim : ℕ) (s : List ℕ) → All (All (λ c. c ≢ delim)) (pieces delim s)
pieces-Lack delim [] = (tt, tt)
pieces-Lack delim (c ∷ s) = elim (Bool-cases (c == delim)) [
  | inl e ↦ rw e (tt, pieces-Lack delim s)
  | inr e ↦ rw e (Lack-onto_first delim c (pieces delim s) (ground arith) (pieces-Lack delim s))
]

-- The items are the pieces of the text between the delimiters, without the empty ones if those are
-- skipped; the result is their number; and the pieces, joined by the delimiter, spell the text.
pub split_view_func_lem :
    (view : List ℕ) (delim : ℕ) (skip : Bool)
    → ((split_view_func view delim skip).items ≡ kept skip (pieces delim view))
      × ((split_view_func view delim skip).retval ≡ length (kept skip (pieces delim view)))
      × (join delim (pieces delim view) ≡ view)
      × All (All (λ c. c ≢ delim)) (pieces delim view)
unfolding split_view_func
split_view_func_lem view delim skip =
    let (items, count) =
      split_loop-Adds (length view + 1) delim skip view (record { items = []; retval = 0 })
        (omega arith) in
    (items, omega (arith, count), join-pieces delim view, pieces-Lack delim view)
