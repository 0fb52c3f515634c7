-- ===== src/Csv/Header.antt =====
-- The header of nstl/nstl/csv_dict_reader.cpp: which column a name stands for, and its field.
use nstl.Prelude.{
  ℕ, zero, suc, ◌+◌, ◌≡◌, sym, ap, ◌∙◌, inl, inr, Bool, not, none, some, List, [], ◌∷◌, arith,
  Option-cases, length, get_elem?, nstl_exception, runtime_error, ok, throw_if, >>=-eq-ok,
}
use nstl.Csv.{CsvParseConfig, Columns, ColumnsLaws, Tokens, column_loop}

module _ (lib : Columns) (laws : ColumnsLaws lib)
    (tokenizer : CsvParseConfig → List ℕ → Tokens) where
  fresh_name :
      (name : List ℕ) (idx : ℕ) (columns : lib.Mapping) {u : Unit {0}}
      → throw_if (not (lib.emplace name idx columns).1) nstl_exception ≡ ok u
      → lib.lookup columns name ≡ none
  fresh_name name idx columns passed = elim (Option-cases (lib.lookup columns name)) [
    | inl e ↦ e
    | inr (j, e) ↦ ground (arith, laws.emplace_old name idx j columns e)
  ]

  named_cases :
      (name : List ℕ) (names : List (List ℕ)) (idx : ℕ) (m : lib.Mapping)
      → lib.lookup m name ≡ some idx
      → ((k : List ℕ) (i : ℕ) → get_elem? names i ≡ some k → lib.lookup m k ≡ some (idx + 1 + i))
      → (k : List ℕ) (i : ℕ) → get_elem? (name ∷ names) i ≡ some k
      → lib.lookup m k ≡ some (idx + i)
  named_cases name names idx m first named k zero e =
      let q : name ≡ k = cc in let z : idx ≡ idx + 0 = omega arith in rw (sym q) (first ∙ ap some z)
  named_cases name names idx m first named k (suc i) e =
      let z : idx + 1 + i ≡ idx + suc i = omega arith in named k i e ∙ ap some z

  -- `column_loop` keeps what the mapping has, and puts every name at its place.
  pub column_loop_ok :
      (names : List (List ℕ)) (failed : Bool) (idx : ℕ) (columns : lib.Mapping) {m : lib.Mapping}
      → column_loop lib tokenizer names failed idx columns ≡ ok m
      → (lib.count m ≡ lib.count columns + length names)
        × ((k : List ℕ) (i : ℕ) → get_elem? names i ≡ some k → lib.lookup m k ≡ some (idx + i))
        × ((k : List ℕ) (j : ℕ) → lib.lookup columns k ≡ some j → lib.lookup m k ≡ some j)
  unfolding column_loop
  column_loop_ok [] failed idx columns {m} h =
      let (done, passed, returned) =
        >>=-eq-ok (throw_if failed runtime_error) (λ u. ok columns) h in
      let em : columns ≡ m = cc in rw (sym em) (omega arith, λ k i e. cc, λ k j e. e)
  column_loop_ok (name ∷ names) failed idx columns {m} h =
      let helper = lib.emplace name idx columns in
      let (done, passed, returned) =
        >>=-eq-ok (throw_if (not helper.1) nstl_exception)
          (λ u. column_loop lib tokenizer names failed (idx + 1) helper.0) h in
      let fresh : lib.lookup columns name ≡ none = fresh_name name idx columns passed in
      let (counted, named, kept) = column_loop_ok names failed (idx + 1) helper.0 returned in
      (
        counted ∙ ap (λ n. n + length names) (laws.count_more name idx columns fresh) ∙ omega arith,
        named_cases name names idx m (kept name idx (laws.lookup_same name idx columns fresh))
            named,
        λ k j e. kept k j (laws.lookup_other name k idx columns (λ q. cc) ∙ e),
      )
