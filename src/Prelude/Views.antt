-- ===== src/Prelude/Views.antt =====
-- Operations of std::string_view that several sources use. A view is the list of its characters.
use Prim.Native.Nat.{ℕ, suc}
use Prim.Native.Char.{code}
use Prim.Native.String.{String}
use mathlib.Core.Bool.{Bool, true, false, ◌&&◌}
use mathlib.Core.Logic.{◌↔◌, ◌≢◌, ◌⊎◌, inl, inr}
use mathlib.Core.Path.{◌≡◌, refl}
use native.Mathlib.Omega.{arith}
use mathlib.Core.List.{List, [], ◌∷◌}
use mathlib.Core.Option.{Option, none, some}
use nstl.Prelude.Tests.{◌==◌, if◌then◌else◌, Bool-cases}

-- `find` of a character; `none` is npos.
unfoldable pub find : ℕ → List ℕ → Option ℕ
find x [] = none
find x (c ∷ s) = if c == x then some 0 else elim (find x s) [ none ↦ none | some i ↦ some (suc i) ]

-- The bytes of an ASCII literal.
abbrev pub codes : String → List ℕ
codes String.[] = []
codes (String.◌∷◌ c s) = code c ∷ codes s

-- What a function of C strings reads of an array: the characters before the first NUL.
unfoldable pub c_string : List ℕ → List ℕ
c_string [] = []
c_string (c ∷ s) = if c == 0 then [] else c ∷ c_string s

-- `==` of two views.
abbrev pub same_text : List ℕ → List ℕ → Bool
same_text [] [] = true
same_text [] (d ∷ t) = false
same_text (c ∷ s) [] = false
same_text (c ∷ s) (d ∷ t) = c == d && same_text s t

pub same_text_iff : (s t : List ℕ) → (same_text s t ≡ true) ↔ (s ≡ t)
same_text_iff [] [] = (λ h. refl, λ h. refl)
same_text_iff [] (d ∷ t) = (λ h. cc, λ h. cc)
same_text_iff (c ∷ s) [] = (λ h. cc, λ h. cc)
same_text_iff (c ∷ s) (d ∷ t) = ground (arith, same_text_iff s t)

-- Two texts are the same or not, and what the test says of each case.
pub text-cases : (s t : List ℕ) → (s ≡ t) ⊎ (s ≢ t)
text-cases s t = elim (Bool-cases (same_text s t)) [
  | inl same ↦ inl ((same_text_iff s t).0 same)
  | inr differs ↦ inr (λ e. let same = (same_text_iff s t).1 e in cc)
]

pub same_text_self : (s : List ℕ) → same_text s s ≡ true
same_text_self s = (same_text_iff s s).1 refl

pub same_text_of_ne : (s t : List ℕ) → s ≢ t → same_text s t ≡ false
same_text_of_ne s t ne = elim (Bool-cases (same_text s t)) [
  | inl same ↦ absurd (ne ((same_text_iff s t).0 same))
  | inr differs ↦ differs
]
