-- ===== src/Tests/Csv/Table.antt =====
-- Columns as a list of names with their places, and a tokenizer that splits at comas.
use nstl.Prelude.{
  ℕ, ◌+◌, ◌≡◌, refl, ◌≢◌, inl, inr, Bool, true, false, ◌&&◌, Option, none, some, List, [], ◌∷◌,
  arith, ◌==◌, if◌then◌else◌, Bool-cases, Option-cases,
}
use nstl.Csv.{Columns, ColumnsLaws}

abbrev pub same : List ℕ → List ℕ → Bool
same [] [] = true
same [] (y ∷ l) = false
same (x ∷ k) [] = false
same (x ∷ k) (y ∷ l) = x == y && same k l

pub same_eq : (k l : List ℕ) → same k l ≡ true → k ≡ l
same_eq [] [] h = refl
same_eq [] (y ∷ l) h = cc
same_eq (x ∷ k) [] h = cc
same_eq (x ∷ k) (y ∷ l) h = ground (arith, same_eq k l)

pub same_refl : (k : List ℕ) → same k k ≡ true
same_refl [] = refl
same_refl (x ∷ k) = ground (arith, same_refl k)

abbrev pub lookup_list : List (List ℕ × ℕ) → List ℕ → Option ℕ
lookup_list [] k = none
lookup_list ((l, i) ∷ m) k = let rest = lookup_list m k in if same l k then some i else rest

abbrev list_length : List (List ℕ × ℕ) → ℕ
list_length [] = 0
list_length (x ∷ m) = list_length m + 1

abbrev add_new : List ℕ → ℕ → List (List ℕ × ℕ) → Option ℕ → List (List ℕ × ℕ) × Bool
add_new k i m none = ((k, i) ∷ m, true)
add_new k i m (some j) = (m, false)

abbrev pub table : Columns
table = record {
  Mapping = List (List ℕ × ℕ);
  empty = [];
  emplace = λ k i m. add_new k i m (lookup_list m k);
  lookup = lookup_list;
  count = list_length;
}

same_other : (k l : List ℕ) → k ≢ l → same k l ≡ false
same_other k l h = elim (Bool-cases (same k l)) [ inl e ↦ absurd (h (same_eq k l e)) | inr e ↦ e ]

other_kept :
    (k l : List ℕ) (i : ℕ) (m : List (List ℕ × ℕ))
    → k ≢ l
    → lookup_list (add_new k i m (lookup_list m k)).0 l ≡ lookup_list m l
other_kept k l i m h = elim (Option-cases (lookup_list m k)) [
  | inl e ↦ rw (e, same_other k l h) refl
  | inr (j, e) ↦ rw e refl
]

pub table_laws : ColumnsLaws table
table_laws = record {
  lookup-empty = λ k. refl;
  count-empty = refl;
  emplace_new = λ k i m e. rw e refl;
  emplace_old = λ k i j m e. rw e refl;
  lookup_same = λ k i m e. rw (e, same_refl k) refl;
  lookup_other = λ k l i m h. other_kept k l i m h;
  count_more = λ k i m e. rw e refl;
}

abbrev cons_first : ℕ → List (List ℕ) → List (List ℕ)
cons_first c [] = (c ∷ []) ∷ []
cons_first c (f ∷ fs) = (c ∷ f) ∷ fs

abbrev pub split_commas : List ℕ → List (List ℕ)
split_commas [] = [] ∷ []
split_commas (c ∷ s) =
    let rest = split_commas s in if c == b',' then [] ∷ rest else cons_first c rest
