-- ===== src/Csv/Fields.antt =====
-- The fields of a row by their column's name: what the constructor of csv_dict_reader, `next` and
-- get_field of nstl/nstl/csv_dict_reader.cpp do together.
use nstl.Prelude.{
  ℕ, zero, suc, ◌+◌, ◌%◌, ◌^◌, ◌<◌, ◌≡◌, refl, sym, ap, ◌∙◌, inl, inr, Bool, true, false, Option,
  none, some, List, [], ◌∷◌, arith, Bool-cases, Option-cases, length, get_elem?, Exception,
  nstl_exception, runtime_error, Result, ok, ◌>>=◌, ◌>>◌, throw_if, >>=-eq-ok,
}
use nstl.Csv.{
  CsvParseConfig, Columns, ColumnsLaws, Tokens, CsvDictReader, getline, wrong_size, take_line,
  column_loop, parse_columns, open_reader, next_loop, next, get_field_in, get_field, is_skipped,
}
use nstl.Csv.Header.{column_loop_ok}
use nstl.Csv.Lines.{next_loop-zero, next_loop_end, next_loop_skip, next_loop_take}
use mathlib.Core.Path.{subst}

get_elem?_bound :
    {A : Type 0} (xs : List A) (i : ℕ) {x : A} → get_elem? xs i ≡ some x → i < length xs
get_elem?_bound [] i e = cc
get_elem?_bound (y ∷ xs) zero e = omega arith
get_elem?_bound (y ∷ xs) (suc i) e = omega (arith, get_elem?_bound xs i e)

not_thrown : (b : Bool) (e : Exception) {u : Unit {0}} → throw_if b e ≡ ok u → b ≡ false
not_thrown true e h = cc
not_thrown false e h = refl

module _ (lib : Columns) (laws : ColumnsLaws lib)
    (tokenizer : CsvParseConfig → List ℕ → Tokens) where
  -- The reader's columns are `names`, each with its place.
  abbrev pub IsHeaded : List (List ℕ) → CsvDictReader lib tokenizer → Type 0
  IsHeaded names r =
      (m : lib.Mapping) × (r.columns ≡ some m)
      × (lib.count m ≡ length names)
      × ((k : List ℕ) (i : ℕ) → get_elem? names i ≡ some k → lib.lookup m k ≡ some i)

  take_line_columns :
      (r : CsvDictReader lib tokenizer) (text : List ℕ)
      → (take_line lib tokenizer r text).0.columns ≡ r.columns
  unfolding take_line
  take_line_columns r text = refl

  pub next_loop_columns :
      (fuel : ℕ) (r : CsvDictReader lib tokenizer)
      → (next_loop lib tokenizer fuel r).0.columns ≡ r.columns
  next_loop_columns zero r = rw (next_loop-zero lib tokenizer r) refl
  next_loop_columns (suc fuel) r = elim (Option-cases (getline r.stream)) [
    | inl e ↦ rw (next_loop_end lib tokenizer fuel r e) refl
    | inr ((text, rest), e) ↦ elim (Bool-cases (is_skipped r.config text)) [
      | inl skipped ↦ rw (next_loop_skip lib tokenizer fuel r e skipped) (next_loop_columns fuel _)
      | inr taken ↦
          rw (next_loop_take lib tokenizer fuel r e taken)
            (take_line_columns (record r { stream = rest }) text)
    ]
  ]

  abbrev pub Fills : CsvDictReader lib tokenizer → CsvDictReader lib tokenizer → Type 0
  Fills r filled =
      (vs : List (List ℕ)) × (filled.values ≡ some vs) × (wrong_size lib tokenizer r vs ≡ false)

  take_line_ok :
      (r : CsvDictReader lib tokenizer) (text : List ℕ)
      → (take_line lib tokenizer r text).1 ≡ ok true
      → Fills r (take_line lib tokenizer r text).0
  unfolding take_line
  take_line_ok r text h =
      let vs = (tokenizer r.config text).fields in
      let (done, passed, rest) =
        >>=-eq-ok (throw_if (tokenizer r.config text).failed runtime_error)
          (λ u. throw_if (wrong_size lib tokenizer r vs) nstl_exception >> ok true) h in
      let (again, sized, returned) =
        >>=-eq-ok (throw_if (wrong_size lib tokenizer r vs) nstl_exception) (λ u. ok true) rest in
      (vs, refl, not_thrown (wrong_size lib tokenizer r vs) nstl_exception sized)

  abbrev FillsIfTrue :
      CsvDictReader lib tokenizer → CsvDictReader lib tokenizer × Result Bool → Type 0
  FillsIfTrue r res = res.1 ≡ ok true → Fills r res.0

  pub next_loop_ok :
      (fuel : ℕ) (r : CsvDictReader lib tokenizer) → FillsIfTrue r (next_loop lib tokenizer fuel r)
  next_loop_ok zero r = rw (next_loop-zero lib tokenizer r) (λ h. cc)
  next_loop_ok (suc fuel) r = elim (Option-cases (getline r.stream)) [
    | inl e ↦ rw (next_loop_end lib tokenizer fuel r e) (λ h. cc)
    | inr ((text, rest), e) ↦ elim (Bool-cases (is_skipped r.config text)) [
      | inl skipped ↦
          subst (FillsIfTrue r) (sym (next_loop_skip lib tokenizer fuel r e skipped))
            (next_loop_ok fuel (record r { stream = rest; line = (r.line + 1) % 2 ^ 32 }))
      | inr taken ↦
          subst (FillsIfTrue r) (sym (next_loop_take lib tokenizer fuel r e taken))
            (take_line_ok (record r { stream = rest }) text)
    ]
  ]

  parse_columns_headers :
      (config : CsvParseConfig) (stream text rest : List ℕ)
      → config.parse_headers ≡ true
      → getline stream ≡ some (text, rest)
      → parse_columns lib tokenizer config stream ≡ (
          column_loop lib tokenizer
            (tokenizer config text).fields
            (tokenizer config text).failed
            0
            lib.empty
          >>= λ columns. ok (some columns, rest))
  unfolding parse_columns
  parse_columns_headers config stream text rest hp e = simp (hp, e) refl

  -- The constructor numbers the columns, with a flat map that keeps its laws: when it parses headers
  -- and returns, the reader's columns are the fields of the first line, each with its place.
  pub open_reader-IsHeaded :
      (config : CsvParseConfig) (stream text rest : List ℕ) {r : CsvDictReader lib tokenizer}
      → config.parse_headers ≡ true
      → getline stream ≡ some (text, rest)
      → open_reader lib tokenizer stream config ≡ ok r
      → IsHeaded (tokenizer config text).fields r
  unfolding open_reader
  open_reader-IsHeaded config stream text rest {r} hp e h =
      let tok = tokenizer config text in
      let made : Option lib.Mapping × List ℕ → CsvDictReader lib tokenizer = λ parsed. record {
        config = config;
        stream = parsed.1;
        line = 1;
        columns = parsed.0;
        values = none;
      } in
      let (parsed, read, returned) =
        >>=-eq-ok (parse_columns lib tokenizer config stream) (λ parsed. ok (made parsed)) h in
      let (m, numbered, kept) =
        >>=-eq-ok (column_loop lib tokenizer tok.fields tok.failed 0 lib.empty)
          (λ columns. ok (some columns, rest))
          (sym (parse_columns_headers config stream text rest hp e) ∙ read) in
      let (counted, placed, old) =
        column_loop_ok lib laws tokenizer tok.fields tok.failed 0 lib.empty numbered in
      let pair : (some m, rest) ≡ parsed = cc in
      let same : made parsed ≡ r = cc in
      (
        m,
        sym (ap (λ z. z.columns) same) ∙ sym (ap (λ p. p.0) pair),
        ground (arith, counted, laws.count-empty),
        λ k i named. let first : 0 + i ≡ i = omega arith in placed k i named ∙ ap some first,
      )

  -- Whatever `next` does, a throw included, the columns stay.
  next-IsHeaded :
      (names : List (List ℕ)) (r : CsvDictReader lib tokenizer)
      → IsHeaded names r
      → IsHeaded names (next lib tokenizer r).0
  unfolding next
  next-IsHeaded names r (m, e, counted, placed) =
      (m, next_loop_columns (length r.stream) r ∙ e, counted, placed)

  right_size :
      (r : CsvDictReader lib tokenizer) (vs : List (List ℕ)) (m : lib.Mapping)
      → r.columns ≡ some m
      → r.config.check_columns_size ≡ true
      → wrong_size lib tokenizer r vs ≡ false
      → length vs ≡ lib.count m
  right_size r vs m e check sized = ground arith

  field_at :
      (r : CsvDictReader lib tokenizer) (k : List ℕ) (i : ℕ) (m : lib.Mapping) (vs : List (List ℕ))
      → r.columns ≡ some m
      → r.values ≡ some vs
      → lib.lookup m k ≡ some i
      → i < length vs
      → get_field lib tokenizer r k ≡ get_elem? vs i
  unfolding get_field get_field_in
  field_at r k i m vs hc hv hl small = ground arith

  -- For a reader whose columns are some names with their places, and whose check of the size is on:
  -- when `next` returns true, the row has as many fields as there are names, and get_field finds each
  -- under its column's name.
  pub get_field-next :
      (names : List (List ℕ)) (r : CsvDictReader lib tokenizer)
      → IsHeaded names r
      → r.config.check_columns_size ≡ true
      → (next lib tokenizer r).1 ≡ ok true
      → (vs : List (List ℕ)) × ((next lib tokenizer r).0.values ≡ some vs)
        × (length vs ≡ length names)
        × ((k : List ℕ) (i : ℕ)
            → get_elem? names i ≡ some k
            → get_field lib tokenizer (next lib tokenizer r).0 k ≡ get_elem? vs i)
  unfolding next
  get_field-next names r (m, e, counted, placed) check h =
      let (vs, filled, sized) = next_loop_ok (length r.stream) r h in
      let full = right_size r vs m e check sized ∙ counted in
      (
        vs,
        filled,
        full,
        λ k i named.
            field_at (next_loop lib tokenizer (length r.stream) r).0 k i m vs
              (next_loop_columns (length r.stream) r ∙ e) filled (placed k i named)
              (subst (λ n. i < n) (sym full) (get_elem?_bound names i named)),
      )
