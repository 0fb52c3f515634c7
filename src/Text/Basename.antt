-- ===== src/Text/Basename.antt =====
-- The file name of a path, nstl/nstl/safe_basename.hpp.
use nstl.Prelude.{
  ℕ, suc, ◌+◌, ◌≡◌, refl, ap, ◌≢◌, ◌⊎◌, inl, inr, none, some, List, [], ◌∷◌, ◌++◌, arith,
  Option-cases, take, drop, All, drop_next,
}
use nstl.Text.{rfind, path_sep, safe_basename_view}

abbrev pub Lacks : ℕ → List ℕ → Type 0
Lacks x = All (λ c. c ≢ x)

rfind-none : (x : ℕ) (s : List ℕ) → rfind x s ≡ none → Lacks x s
unfolding rfind
rfind-none x [] h = tt
rfind-none x (c ∷ s) h = elim (Option-cases (rfind x s)) [
  | inl e ↦ (ground (arith, e), rfind-none x s e)
  | inr (i, e) ↦ absurd (ground (arith, e))
]

rfind-some :
    (x : ℕ) (s : List ℕ) (i : ℕ)
    → rfind x s ≡ some i
    → (s ≡ take i s ++ x ∷ drop (i + 1) s) × Lacks x (drop (i + 1) s)
unfolding rfind
rfind-some x [] i h = cc
rfind-some x (c ∷ s) i h = elim (Option-cases (rfind x s)) [
  | inl e ↦
      let zeroth : i ≡ 0 = ground (arith, e) in
      let same : c ≡ x = ground (arith, e) in rw (zeroth, same) (refl, rfind-none x s e)
  | inr (j, e) ↦
      let next : i ≡ suc j = ground (arith, e) in
      let (cut, lacks) = rfind-some x s j e in rw (next, drop_next) (ap (◌∷◌ c) cut, lacks)
]

-- The file name holds no separator, and is what stands behind the last one, or the whole path if
-- there is none.
pub safe_basename_view_lem :
    (path : List ℕ)
    → Lacks path_sep (safe_basename_view path)
      × ((safe_basename_view path ≡ path)
          ⊎ ((dir : List ℕ) × (path ≡ dir ++ path_sep ∷ safe_basename_view path)))
unfolding safe_basename_view
safe_basename_view_lem path = elim (Option-cases (rfind path_sep path)) [
  | inl e ↦ rw (e, safe_basename_view) (rfind-none path_sep path e, inl refl)
  | inr (i, e) ↦
      let (cut, lacks) = rfind-some path_sep path i e in
      rw (e, safe_basename_view) (lacks, inr (take i path, cut))
]
