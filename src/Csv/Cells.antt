-- ===== src/Csv/Cells.antt =====
-- The rows of get_data, nstl/nstl/csv_dict_reader.cpp, against get_field.
use nstl.Prelude.{
  ℕ, zero, suc, ◌≤◌, ◌≡◌, refl, sym, ap, ◌∙◌, ◌≢◌, ◌⊎◌, inl, inr, Bool, true, false, Option, none,
  some, List, [], ◌∷◌, arith, ltb, if◌then◌else◌, Bool-cases, Option-cases, length, get_elem?,
  Exception, Result, ok, err, same_text_iff, text-cases, same_text_self, same_text_of_ne,
}
use mathlib.Core.Path.{subst}
use nstl.Csv.{
  CsvParseConfig, Columns, ColumnsLaws, Tokens, CsvDictReader, next, get_field_in, get_field,
}
use nstl.Csv.Fields.{next_loop_ok, next_loop_columns}
use nstl.Csv.Data.{
  Cells, CellsLaws, place_of, IsDistinct, cell, put_cell, fill_loop, filled, data_of, get_data,
}

get_elem?_of_ge :
    (values : List (List ℕ)) (idx : ℕ) → length values ≤ idx → get_elem? values idx ≡ none
get_elem?_of_ge [] idx h = refl
get_elem?_of_ge (v ∷ values) zero h = absurd (omega arith)
get_elem?_of_ge (v ∷ values) (suc idx) h = get_elem?_of_ge values idx (omega arith)

cell_lem : (values : List (List ℕ)) (idx : ℕ) → cell values idx ≡ get_elem? values idx
cell_lem values idx = elim (Bool-cases (ltb idx (length values))) [
  | inl e ↦ ap (λ b. if b then get_elem? values idx else none) e
  | inr e ↦
      ap (λ b. if b then get_elem? values idx else none) e
      ∙ sym (get_elem?_of_ge values idx (ground arith))
]

abbrev at_place : List (List ℕ) → Option ℕ → Option (List ℕ)
at_place values none = none
at_place values (some idx) = get_elem? values idx

module _ (lib : Columns) (tokenizer : CsvParseConfig → List ℕ → Tokens)
    (entries : lib.Mapping → List (List ℕ × ℕ)) (cells : Cells) (laws : CellsLaws lib entries cells)
    (columns_laws : ColumnsLaws lib) where
  -- What a list of entries puts under a key.
  abbrev found_by : List (List ℕ × ℕ) → List (List ℕ) → List ℕ → Option (List ℕ)
  found_by es values col = at_place values (place_of es col)

  place_other :
      (name col : List ℕ) (idx : ℕ) (es : List (List ℕ × ℕ))
      → name ≢ col
      → place_of ((name, idx) ∷ es) col ≡ place_of es col
  place_other name col idx es ne = let other = same_text_of_ne name col ne in simp other refl

  place_here :
      (name : List ℕ) (idx : ℕ) (es : List (List ℕ × ℕ))
      → place_of ((name, idx) ∷ es) name ≡ some idx
  place_here name idx es = let here = same_text_self name in simp here refl

  -- What one cell changes.
  put_here :
      (name : List ℕ) (answer : Option (List ℕ)) (t : cells.Mapping)
      → cells.lookup t name ≡ none
      → cells.lookup (put_cell cells name answer t) name ≡ answer
  put_here name none t absent = absent
  put_here name (some v) t absent = laws.lookup_new name v t absent

  put_other :
      (name other : List ℕ) (answer : Option (List ℕ)) (t : cells.Mapping)
      → other ≢ name
      → cells.lookup (put_cell cells name answer t) other ≡ cells.lookup t other
  put_other name other none t ne = refl
  put_other name other (some v) t ne = laws.lookup_other name other v t ne

  fill_loop_missing :
      (es : List (List ℕ × ℕ)) (values : List (List ℕ)) (t : cells.Mapping) (col : List ℕ)
      → place_of es col ≡ none
      → cells.lookup (fill_loop cells es values t) col ≡ cells.lookup t col
  unfolding fill_loop
  fill_loop_missing [] values t col missing = refl
  fill_loop_missing ((name, idx) ∷ es) values t col missing = elim (text-cases name col) [
    | inl e ↦
        let here = (same_text_iff name col).1 e in
        let found = sym missing ∙ ap (λ b. if b then some idx else place_of es col) here in cc
    | inr ne ↦
        fill_loop_missing es values (put_cell cells name (cell values idx) t) col
          (sym (place_other name col idx es ne) ∙ missing)
        ∙ put_other name col (cell values idx) t (λ e. ne (sym e))
  ]

  fill_loop_finds :
      (es : List (List ℕ × ℕ)) (values : List (List ℕ)) (t : cells.Mapping) (col : List ℕ)
      → IsDistinct es
      → cells.lookup t col ≡ none
      → cells.lookup (fill_loop cells es values t) col ≡ found_by es values col
  unfolding fill_loop
  fill_loop_finds [] values t col distinct absent = absent
  fill_loop_finds ((name, idx) ∷ es) values t col (once, distinct) absent =
      elim (text-cases name col) [
        | inl e ↦
            subst
              (λ c.
                cells.lookup t c ≡ none
                → cells.lookup (fill_loop cells es values (put_cell cells name (cell values idx) t))
                    c
                  ≡ found_by ((name, idx) ∷ es) values c)
              e
              (λ missing.
                fill_loop_missing es values (put_cell cells name (cell values idx) t) name once
                ∙ put_here name (cell values idx) t missing
                ∙ cell_lem values idx
                ∙ sym (ap (at_place values) (place_here name idx es)))
              absent
        | inr ne ↦
            fill_loop_finds es values (put_cell cells name (cell values idx) t) col distinct
              (put_other name col (cell values idx) t (λ e. ne (sym e)) ∙ absent)
            ∙ sym (ap (at_place values) (place_other name col idx es ne))
      ]

  -- get_field, by place.
  get_field_place :
      (r : CsvDictReader lib tokenizer) (m : lib.Mapping) (values : List (List ℕ)) (col : List ℕ)
      → r.columns ≡ some m
      → r.values ≡ some values
      → get_field lib tokenizer r col ≡ found_by (entries m) values col
  unfolding get_field get_field_in
  get_field_place r m values col c v =
      let looks = laws.lookup_entries m col in
      elim (Option-cases (place_of (entries m) col)) [
        | inl e ↦
            let missing = looks ∙ e in
            let nothing = ap (at_place values) e in ground (arith, missing, nothing)
        | inr (idx, e) ↦
            let found = looks ∙ e in
            let it = ap (at_place values) e in ground (arith, found, it, get_elem?_of_ge values idx)
      ]

  -- What get_data does where the reader has columns: it throws what `next` throws, leaves the target
  -- where there is no row, and else fills it with what get_field gives.
  abbrev pub Gives :
      CsvDictReader lib tokenizer × Result Bool
      → cells.Mapping
      → CsvDictReader lib tokenizer × Result (Bool × cells.Mapping)
      → Type 0
  Gives read target got =
      (got.0 ≡ read.0)
      × (((thrown : Exception) × (read.1 ≡ err thrown) × (got.1 ≡ err thrown))
          ⊎ ((read.1 ≡ ok false) × (got.1 ≡ ok (false, target)))
          ⊎ ((t : cells.Mapping) × (read.1 ≡ ok true)
              × (got.1 ≡ ok (true, t))
              × ((col : List ℕ) → cells.lookup t col ≡ get_field lib tokenizer read.0 col)))

  get_data_headed :
      (r : CsvDictReader lib tokenizer) (m : lib.Mapping) (target : cells.Mapping)
      → r.columns ≡ some m
      → get_data lib tokenizer entries cells r target ≡ (
        (next lib tokenizer r).0,
        filled lib tokenizer entries cells m
            (next lib tokenizer r).0.values
            target
            (next lib tokenizer r).1,
      )
  unfolding get_data
  get_data_headed r m target c = ap (data_of lib tokenizer entries cells r target) c

  filled-Gives :
      (later : CsvDictReader lib tokenizer) (m : lib.Mapping) (target : cells.Mapping)
      (values : Option (List (List ℕ))) (more : Result Bool)
      → later.columns ≡ some m
      → later.values ≡ values
      → (more ≡ ok true → (vs : List (List ℕ)) × (values ≡ some vs))
      → Gives (later, more) target (later, filled lib tokenizer entries cells m values target more)
  filled-Gives later m target values (err thrown) c v has_row = (refl, inl (thrown, refl, refl))
  filled-Gives later m target values (ok false) c v has_row = (refl, inr (inl (refl, refl)))
  filled-Gives later m target none (ok true) c v has_row = let (vs, e) = has_row refl in absurd cc
  filled-Gives later m target (some row) (ok true) c v has_row = (
    refl,
    inr (
        inr (
          fill_loop cells (entries m) row cells.empty,
          refl,
          refl,
          λ col.
              fill_loop_finds (entries m) row cells.empty col (laws.entries-IsDistinct m)
                (laws.lookup-empty col)
              ∙ sym (get_field_place later m row col c v),
        )),
  )

  -- For a reader that has columns, get_data throws where `next` throws; returns false and leaves the
  -- target as it is where `next` finds no row; and where it finds one, returns true with a target in
  -- which every text, column or not, is what get_field gives for it behind the read.
  pub get_data-Gives :
      (r : CsvDictReader lib tokenizer) (m : lib.Mapping) (target : cells.Mapping)
      → r.columns ≡ some m
      → Gives (next lib tokenizer r) target (get_data lib tokenizer entries cells r target)
  unfolding next
  get_data-Gives r m target c =
      let (later, more) = next lib tokenizer r in
      subst (Gives (next lib tokenizer r) target) (sym (get_data_headed r m target c)) (
        filled-Gives later m target later.values more
          (next_loop_columns lib columns_laws tokenizer (length r.stream) r ∙ c) refl
          (λ returned.
            let (vs, found, sized) =
              next_loop_ok lib columns_laws tokenizer (length r.stream) r returned in
            (vs, found)))
