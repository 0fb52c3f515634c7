-- ===== src/Csv.antt =====
-- CSV text, nstl/nstl/csv_dict_reader.cpp: the reader of rows with named columns, and the writer.
-- `Columns` is the flat map of Boost with text keys; a tokenizer (the escaped_list_separator of
-- Boost) is an argument: the fields of a line, and whether it throws behind them.
pub mod RoundTrip
pub mod Lines
pub mod Header
pub mod Fields
pub mod Data
pub mod Cells
use nstl.Prelude.{
  c_string, ℕ, zero, suc, ◌+◌, ◌-◌, ◌*◌, ◌/◌, ◌%◌, ◌^◌, ◌≤◌, ◌<◌, min, ◌≡◌, refl, sym, ap, ◌∙◌, ◌≢◌,
  ◌↔◌, ◌⊎◌, inl, inr, Bool, true, false, ◌&&◌, ◌||◌, not, Option, none, some, List, [], ◌∷◌, ◌++◌,
  map, append-nil, append_assoc, arith, ltb, leb, ◌==◌, if◌then◌else◌, ltb→lt, lt→ltb, leb→le,
  le→leb, ==_iff, tests, Bool-cases, Option-cases, all_below, all_below_sound, length, get_elem?,
  take, drop, replicate, length-append, take-append-drop, length-take, length-drop,
  length-replicate, take-append, drop-append, take-append_of_le, take-append_of_ge,
  append-replicate, take_of_ge, drop_of_ge, length-map, All, All-append, Exception, nstl_exception,
  length_error, bad_alloc, runtime_error, out_of_range, invalid_argument, Result, ok, err, ◌>>=◌,
  ◌>>◌, throw_if, >>=-eq-ok, Result-cases, get_elem?_of_lt, nil_of_length, find, codes, drop_next,
}

pub record CsvParseConfig : Type 0 where
  pub parse_headers : Bool
  pub skip_empty_lines : Bool
  pub check_columns_size : Bool
  pub comment : ℕ
  pub escape : ℕ
  pub coma : ℕ
  pub quote : ℕ

abbrev pub default_config : CsvParseConfig
default_config = record {
  parse_headers = true;
  skip_empty_lines = true;
  check_columns_size = true;
  comment = b'#';
  escape = 92;
  coma = b',';
  quote = 34;
}

-- The operations of column_mapping that the reader calls: emplace tells whether it inserted.
pub record Columns : Type 1 where
  pub Mapping : Type 0
  pub empty : Mapping
  pub emplace : List ℕ → ℕ → Mapping → Mapping × Bool
  pub lookup : Mapping → List ℕ → Option ℕ
  pub count : Mapping → ℕ

-- What the documentation of flat_map says of them.
pub record ColumnsLaws (lib : Columns) : Type 1 where
  pub lookup-empty : (k : List ℕ) → lib.lookup lib.empty k ≡ none
  pub count-empty : lib.count lib.empty ≡ 0
  pub emplace_new :
      (k : List ℕ) (i : ℕ) (m : lib.Mapping) → lib.lookup m k ≡ none → (lib.emplace k i m).1 ≡ true
  pub emplace_old :
      (k : List ℕ) (i j : ℕ) (m : lib.Mapping)
      → lib.lookup m k ≡ some j
      → (lib.emplace k i m).1 ≡ false
  pub lookup_same :
      (k : List ℕ) (i : ℕ) (m : lib.Mapping)
      → lib.lookup m k ≡ none
      → lib.lookup (lib.emplace k i m).0 k ≡ some i
  pub lookup_other :
      (k l : List ℕ) (i : ℕ) (m : lib.Mapping)
      → k ≢ l
      → lib.lookup (lib.emplace k i m).0 l ≡ lib.lookup m l
  pub count_more :
      (k : List ℕ) (i : ℕ) (m : lib.Mapping)
      → lib.lookup m k ≡ none
      → lib.count (lib.emplace k i m).0 ≡ lib.count m + 1

pub record Tokens : Type 0 where
  pub fields : List (List ℕ)
  pub failed : Bool

-- std::getline on the bytes that are left: `none` where there are none.
unfoldable pub line_of : List ℕ → List ℕ × List ℕ
line_of [] = ([], [])
line_of (c ∷ s) = let rest = line_of s in if c == 10 then ([], s) else (c ∷ rest.0, rest.1)

unfoldable pub getline : List ℕ → Option (List ℕ × List ℕ)
unfolding line_of
getline [] = none
getline (c ∷ s) = some (line_of (c ∷ s))

-- The tests of `next` for an empty line and for a comment.
abbrev pub is_comment : ℕ → List ℕ → Bool
is_comment comment [] = false
is_comment comment (c ∷ text) = not (comment == 0) && c == comment

unfoldable pub is_skipped : CsvParseConfig → List ℕ → Bool
is_skipped config text =
    (config.skip_empty_lines && length text == 0) || is_comment config.comment text

module _ (lib : Columns) (tokenizer : CsvParseConfig → List ℕ → Tokens) where
  pub record CsvDictReader : Type 0 where
    pub config : CsvParseConfig
    pub stream : List ℕ
    pub line : ℕ
    pub columns : Option lib.Mapping
    pub values : Option (List (List ℕ))

  -- The loop of `parse_columns`; `failed` is a throw of the tokenizer behind the last field. It
  -- throws escaped_list_error, a std::runtime_error.
  unfoldable pub column_loop : List (List ℕ) → Bool → ℕ → lib.Mapping → Result lib.Mapping
  column_loop [] failed idx columns = throw_if failed runtime_error >> ok columns
  column_loop (name ∷ names) failed idx columns =
      let helper = lib.emplace name idx columns in
      throw_if (not helper.1) nstl_exception >> column_loop names failed (idx + 1) helper.0

  unfoldable pub parse_columns : CsvParseConfig → List ℕ → Result (Option lib.Mapping × List ℕ)
  parse_columns config stream =
      let parsed : Result (Option lib.Mapping × List ℕ) = elim (getline stream) [
        | none ↦ err nstl_exception
        | some (text, rest) ↦
            let tok = tokenizer config text in
            column_loop tok.fields tok.failed 0 lib.empty >>= λ columns. ok (some columns, rest)
      ] in
      if not config.parse_headers then ok (none, stream) else parsed

  -- The constructor of csv_dict_reader.
  unfoldable pub open_reader : List ℕ → CsvParseConfig → Result CsvDictReader
  open_reader stream config = parse_columns config stream >>= λ parsed.
      ok
        (record { config = config; stream = parsed.1; line = 1; columns = parsed.0; values = none })

  abbrev pub wrong_size : CsvDictReader → List (List ℕ) → Bool
  wrong_size r values = elim r.columns [
    | none ↦ false
    | some columns ↦ r.config.check_columns_size && not (length values == lib.count columns)
  ]

  -- What `next` makes of a line that it does not skip: the values stay where it throws.
  unfoldable pub take_line : CsvDictReader → List ℕ → CsvDictReader × Result Bool
  take_line r text =
      let tok = tokenizer r.config text in
      let filled : CsvDictReader = record r { values = some tok.fields } in
      (
        filled,
        throw_if tok.failed runtime_error
            >> (throw_if (wrong_size r tok.fields) nstl_exception >> ok true),
      )

  -- The loop of `next`; the fuel is the number of bytes, of which every line takes one or more. The
  -- counter is a std::uint32_t.
  unfoldable pub next_loop : ℕ → CsvDictReader → CsvDictReader × Result Bool
  next_loop zero r = (record r { values = none }, ok false)
  next_loop (suc fuel) r = elim (getline r.stream) [
    | none ↦ (record r { values = none }, ok false)
    | some (text, rest) ↦ elim (is_skipped r.config text) [
      | true ↦ next_loop fuel (record r { stream = rest; line = (r.line + 1) % 2 ^ 32 })
      | false ↦ take_line (record r { stream = rest }) text
    ]
  ]

  unfoldable pub next : CsvDictReader → CsvDictReader × Result Bool
  next r = next_loop (length r.stream) r

  -- Both functions get_field: a mapping that the caller gives, and the reader's own.
  unfoldable pub get_field_in : CsvDictReader → lib.Mapping → List ℕ → Option (List ℕ)
  get_field_in r columns col = elim r.values [
    | none ↦ none
    | some values ↦ elim (lib.lookup columns col) [
      | none ↦ none
      | some idx ↦ if leb (length values) idx then none else get_elem? values idx
    ]
  ]

  unfoldable pub get_field : CsvDictReader → List ℕ → Option (List ℕ)
  get_field r col = elim r.columns [ none ↦ none | some columns ↦ get_field_in r columns col ]

-- The writer. find_first_of reads the special characters as a C string.
unfoldable pub has_any : List ℕ → List ℕ → Bool
has_any chars [] = false
has_any chars (c ∷ text) = elim (find c chars) [ none ↦ has_any chars text | some i ↦ true ]

abbrev pub special_chars : CsvParseConfig → List ℕ
special_chars config = config.escape ∷ config.coma ∷ config.quote ∷ 10 ∷ []

abbrev pub escape_char : CsvParseConfig → ℕ → List ℕ
escape_char config ch =
    if ch == config.escape || ch == config.quote
    then config.escape ∷ ch ∷ []
    else if ch == 10
    then config.escape ∷ b'n' ∷ []
    else ch ∷ []

unfoldable pub escape_loop : CsvParseConfig → List ℕ → List ℕ
escape_loop config [] = []
escape_loop config (ch ∷ text) = escape_char config ch ++ escape_loop config text

unfoldable pub write_field : CsvParseConfig → List ℕ → List ℕ
write_field config text =
    if has_any (c_string (special_chars config)) text
    then config.quote ∷ (escape_loop config text ++ config.quote ∷ [])
    else text

unfoldable pub row_loop : CsvParseConfig → List (List ℕ) → List ℕ
row_loop config [] = []
row_loop config (text ∷ row) = config.coma ∷ (write_field config text ++ row_loop config row)

unfoldable pub write_row : CsvParseConfig → List (List ℕ) → List ℕ
write_row config [] = []
write_row config (text ∷ row) = write_field config text ++ row_loop config row
