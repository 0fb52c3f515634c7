-- ===== src/Log/Levels.antt =====
-- The names of log levels, nstl/nstl/logging.cpp.
use nstl.Prelude.{
  ℕ, zero, suc, ◌≡◌, refl, sym, ap, ◌∙◌, ◌↔◌, inl, inr, some, List, [], ◌∷◌, arith, same_text,
  same_text_iff, Bool-cases, Option-cases, get_elem?, ok, codes,
}
use nstl.Log.{Values, value, below_zero, log_levels, find_level, parse_level, level_name}

find_level_sound :
    (names : List (List ℕ)) (view : List ℕ) (i : ℕ)
    → find_level names view ≡ some i
    → get_elem? names i ≡ some view
unfolding find_level
find_level_sound [] view i h = cc
find_level_sound (name ∷ names) view i h = elim (Bool-cases (same_text name view)) [
  | inl e ↦
      let named = (same_text_iff name view).0 e in
      let first : 0 ≡ i = ground (arith, e) in rw (sym first, named) refl
  | inr e ↦ elim (Option-cases (find_level names view)) [
    | inl f ↦ ground (arith, e, f)
    | inr (j, f) ↦
        let later : suc j ≡ i = ground (arith, e, f) in
        rw (sym later) (find_level_sound names view j f)
  ]
]

find_level_complete :
    (view : List ℕ) (i : ℕ)
    → get_elem? log_levels i ≡ some view
    → find_level log_levels view ≡ some i
unfolding find_level
find_level_complete view zero h = let e : codes "DEBUG" ≡ view = cc in rw (sym e) refl
find_level_complete view (suc zero) h = let e : codes "INFO" ≡ view = cc in rw (sym e) refl
find_level_complete view (suc (suc zero)) h = let e : codes "WARNING" ≡ view = cc in rw (sym e) refl
find_level_complete view (suc (suc (suc zero))) h =
    let e : codes "ERROR" ≡ view = cc in rw (sym e) refl
find_level_complete view (suc (suc (suc (suc zero)))) h =
    let e : codes "TERMINATE" ≡ view = cc in rw (sym e) refl
find_level_complete view (suc (suc (suc (suc (suc i))))) h = cc

parse_level-found :
    (view : List ℕ) (v : Values)
    → parse_level view ≡ ok v
    → (n : ℕ) × (find_level log_levels view ≡ some n) × (v ≡ value n)
unfolding parse_level
parse_level-found view v h = elim (Option-cases (find_level log_levels view)) [
  | inl e ↦ ground (arith, e)
  | inr (n, e) ↦ (n, e, ground (arith, e))
]

level_name-named :
    (view : List ℕ) (v : Values)
    → level_name v ≡ ok view
    → (n : ℕ) × (get_elem? log_levels n ≡ some view) × (v ≡ value n)
unfolding level_name
level_name-named view (below_zero n) h = cc
level_name-named view (value n) h = elim (Option-cases (get_elem? log_levels n)) [
  | inl e ↦ ground (arith, e)
  | inr (name, e) ↦ let same : name ≡ view = ground (arith, e) in (n, e ∙ ap some same, refl)
]

parse_level_of :
    (view : List ℕ) (n : ℕ) → find_level log_levels view ≡ some n → parse_level view ≡ ok (value n)
unfolding parse_level
parse_level_of view n e = rw (e, parse_level) refl

level_name_of :
    (view : List ℕ) (n : ℕ) → get_elem? log_levels n ≡ some view → level_name (value n) ≡ ok view
unfolding level_name
level_name_of view n e = rw e refl

-- Parsing a text gives a level exactly if the text is that level's name.
pub parse_level_iff :
    (view : List ℕ) (v : Values) → (parse_level view ≡ ok v) ↔ (level_name v ≡ ok view)
parse_level_iff view v = (
  (λ h.
      let (n, e, same) = parse_level-found view v h in
      rw same (level_name_of view n (find_level_sound log_levels view n e))),
  (λ h.
      let (n, e, same) = level_name-named view v h in
      rw same (parse_level_of view n (find_level_complete view n e))),
)
