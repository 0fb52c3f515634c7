-- ===== src/Text/Case.antt =====
-- `iequal` of nstl/nstl/string.hpp.
use nstl.Prelude.{
  ℕ, ◌≡◌, refl, ap, ◌↔◌, inl, inr, true, List, [], ◌∷◌, map, arith, ◌==◌, ==_iff, Bool-cases,
  length, length-map,
}
use nstl.Text.{iequal, same_letters, to_lower}

same_letters_iff :
    (a b : List ℕ)
    → length a ≡ length b
    → (same_letters a b ≡ true) ↔ (map to_lower a ≡ map to_lower b)
unfolding same_letters
same_letters_iff [] [] h = ((λ e. refl), (λ e. refl))
same_letters_iff [] (y ∷ b) h = absurd (omega arith)
same_letters_iff (x ∷ a) [] h = absurd (omega arith)
same_letters_iff (x ∷ a) (y ∷ b) h = ground (arith, same_letters_iff a b)

-- Two views are equal for `iequal` exactly when they are equal in lower case.
pub iequal_iff : (a b : List ℕ) → (iequal a b ≡ true) ↔ (map to_lower a ≡ map to_lower b)
unfolding iequal
iequal_iff a b = elim (Bool-cases (length a == length b)) [
  | inl e ↦ rw e (same_letters_iff a b ((==_iff _ _).0 e))
  | inr e ↦
      rw e (
        (λ d. cc),
        (λ d. ground (arith, ap length d, length-map to_lower a, length-map to_lower b)),
      )
]
