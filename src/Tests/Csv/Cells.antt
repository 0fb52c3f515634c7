-- ===== src/Tests/Csv/Cells.antt =====
-- The rows of a table as lists of names and values, and the table's entries without repeated names.
use nstl.Prelude.{
  ℕ, ◌≡◌, refl, sym, ap, ◌∙◌, ◌≢◌, inl, inr, ◌&&◌, Option, none, some, List, [], ◌∷◌, arith, ◌==◌,
  if◌then◌else◌, Bool-cases, same_text, same_text_iff, text-cases, same_text_self, same_text_of_ne,
}
use nstl.Csv.Data.{Cells, CellsLaws, place_of, IsDistinct}
use nstl.Tests.Csv.Table.{table, lookup_list, same}

abbrev look : List (List ℕ × List ℕ) → List ℕ → Option (List ℕ)
look [] col = none
look ((name, value) ∷ m) col =
    let rest = look m col in if same_text name col then some value else rest

abbrev pub cells : Cells
cells = record {
  Mapping = List (List ℕ × List ℕ);
  empty = [];
  emplace_hint = λ col value m. elim (look m col) [ none ↦ (col, value) ∷ m | some v ↦ m ];
  lookup = look;
}

abbrev without : List ℕ → List (List ℕ × ℕ) → List (List ℕ × ℕ)
without col [] = []
without col ((name, idx) ∷ es) =
    let rest = without col es in if same_text name col then rest else (name, idx) ∷ rest

abbrev pub entries : List (List ℕ × ℕ) → List (List ℕ × ℕ)
entries [] = []
entries ((name, idx) ∷ m) = (name, idx) ∷ without name (entries m)

place-without : (col : List ℕ) (es : List (List ℕ × ℕ)) → place_of (without col es) col ≡ none
place-without col [] = refl
place-without col ((name, idx) ∷ es) = ground (arith, place-without col es)

without_other :
    (col other : List ℕ) (es : List (List ℕ × ℕ))
    → other ≢ col
    → place_of (without col es) other ≡ place_of es other
without_other col other [] ne = refl
without_other col other ((name, idx) ∷ es) ne = elim (text-cases name col) [
  | inl e ↦
      let here = (same_text_iff name col).1 e in
      let there = same_text_of_ne name other (λ eq. ne (sym eq ∙ e)) in
      ground (arith, here, there, without_other col other es ne)
  | inr differs ↦
      let here = same_text_of_ne name col differs in
      ground (arith, here, without_other col other es ne)
]

without_missing :
    (col other : List ℕ) (es : List (List ℕ × ℕ))
    → place_of es other ≡ none
    → place_of (without col es) other ≡ none
without_missing col other es missing = elim (text-cases other col) [
  | inl e ↦ ap (place_of (without col es)) e ∙ place-without col es
  | inr ne ↦ without_other col other es ne ∙ missing
]

without-IsDistinct :
    (col : List ℕ) (es : List (List ℕ × ℕ)) → IsDistinct es → IsDistinct (without col es)
without-IsDistinct col [] distinct = tt
without-IsDistinct col ((name, idx) ∷ es) (once, distinct) =
    elim (Bool-cases (same_text name col)) [
      | inl e ↦ rw e (without-IsDistinct col es distinct)
      | inr e ↦ rw e (without_missing col name es once, without-IsDistinct col es distinct)
    ]

entries-IsDistinct : (m : List (List ℕ × ℕ)) → IsDistinct (entries m)
entries-IsDistinct [] = tt
entries-IsDistinct ((name, idx) ∷ m) =
    (place-without name (entries m), without-IsDistinct name (entries m) (entries-IsDistinct m))

same-same_text : (s t : List ℕ) → same s t ≡ same_text s t
same-same_text [] [] = refl
same-same_text [] (d ∷ t) = refl
same-same_text (c ∷ s) [] = refl
same-same_text (c ∷ s) (d ∷ t) = ap (λ b. c == d && b) (same-same_text s t)

lookup_entries :
    (m : List (List ℕ × ℕ)) (col : List ℕ) → lookup_list m col ≡ place_of (entries m) col
lookup_entries [] col = refl
lookup_entries ((name, idx) ∷ m) col = elim (text-cases name col) [
  | inl e ↦
      let here = (same_text_iff name col).1 e in
      let there = same-same_text name col ∙ here in ground (arith, here, there)
  | inr ne ↦
      let here = same_text_of_ne name col ne in
      let there = same-same_text name col ∙ here in
      let rest = without_other name col (entries m) (λ e. ne (sym e)) in
      ground (arith, here, there, rest, lookup_entries m col)
]

pub cells_laws : CellsLaws table entries cells
cells_laws = record {
  lookup_entries = lookup_entries;
  entries-IsDistinct = entries-IsDistinct;
  lookup-empty = λ col. refl;
  lookup_new =
      λ col value m missing. let here = same_text_self col in ground (arith, missing, here);
  lookup_other = λ col other value m ne.
      let there = same_text_of_ne col other (λ e. ne (sym e)) in ground (arith, there);
}
