-- ===== src/Csv/Data.antt =====
-- get_data and parse_csv_line, nstl/nstl/csv_dict_reader.cpp. The values' map is Boost's flat map, and
-- `entries` gives the columns in the order in which their map runs through them.
use nstl.Prelude.{
  ℕ, ◌%◌, ◌^◌, ◌≡◌, ◌≢◌, Bool, true, false, Option, none, some, List, [], ◌∷◌, ltb, if◌then◌else◌,
  length, get_elem?, nstl_exception, runtime_error, Result, ok, err, ◌>>=◌, ◌>>◌, throw_if,
  same_text,
}
use nstl.Csv.{CsvParseConfig, Columns, Tokens, CsvDictReader, next}

-- The operations of values_mapping that the reader calls; emplace_hint keeps a key that is there.
pub record Cells : Type 1 where
  pub Mapping : Type 0
  pub empty : Mapping
  pub emplace_hint : List ℕ → List ℕ → Mapping → Mapping
  pub lookup : Mapping → List ℕ → Option (List ℕ)

-- The place of a key in a list of entries.
abbrev pub place_of : List (List ℕ × ℕ) → List ℕ → Option ℕ
place_of [] col = none
place_of ((name, idx) ∷ entries) col =
    let rest = place_of entries col in if same_text name col then some idx else rest

-- No key twice.
abbrev pub IsDistinct : List (List ℕ × ℕ) → Type 0
IsDistinct [] = Unit
IsDistinct ((name, idx) ∷ entries) = (place_of entries name ≡ none) × IsDistinct entries

pub record CellsLaws (lib : Columns) (entries : lib.Mapping → List (List ℕ × ℕ)) (cells : Cells)
    : Type 1 where
  pub lookup_entries :
      (m : lib.Mapping) (col : List ℕ) → lib.lookup m col ≡ place_of (entries m) col
  pub entries-IsDistinct : (m : lib.Mapping) → IsDistinct (entries m)
  pub lookup-empty : (col : List ℕ) → cells.lookup cells.empty col ≡ none
  pub lookup_new :
      (col value : List ℕ) (m : cells.Mapping)
      → cells.lookup m col ≡ none
      → cells.lookup (cells.emplace_hint col value m) col ≡ some value
  pub lookup_other :
      (col other value : List ℕ) (m : cells.Mapping)
      → other ≢ col
      → cells.lookup (cells.emplace_hint col value m) other ≡ cells.lookup m other

-- A value of the row, where the row is long enough.
abbrev pub cell : List (List ℕ) → ℕ → Option (List ℕ)
cell values idx = if ltb idx (length values) then get_elem? values idx else none

module _ (cells : Cells) where
  abbrev pub put_cell : List ℕ → Option (List ℕ) → cells.Mapping → cells.Mapping
  put_cell column none target = target
  put_cell column (some value) target = cells.emplace_hint column value target

  -- The loop over the columns.
  unfoldable pub fill_loop : List (List ℕ × ℕ) → List (List ℕ) → cells.Mapping → cells.Mapping
  fill_loop [] values target = target
  fill_loop ((column, idx) ∷ rest) values target =
      fill_loop rest values (put_cell column (cell values idx) target)

module _ (lib : Columns) (tokenizer : CsvParseConfig → List ℕ → Tokens)
    (entries : lib.Mapping → List (List ℕ × ℕ)) (cells : Cells) where
  -- What get_data makes of the row that `next` reads.
  abbrev pub filled :
      lib.Mapping
      → Option (List (List ℕ))
      → cells.Mapping
      → Result Bool
      → Result (Bool × cells.Mapping)
  filled columns values target (err thrown) = err thrown
  filled columns values target (ok false) = ok (false, target)
  filled columns none target (ok true) = err nstl_exception
  filled columns (some row) target (ok true) =
      ok (true, fill_loop cells (entries columns) row cells.empty)

  abbrev pub data_of :
      CsvDictReader lib tokenizer
      → cells.Mapping
      → Option lib.Mapping
      → CsvDictReader lib tokenizer × Result (Bool × cells.Mapping)
  data_of r target none = (r, err nstl_exception)
  data_of r target (some columns) =
      let (later, more) = next lib tokenizer r in (later, filled columns later.values target more)

  unfoldable pub get_data :
      CsvDictReader lib tokenizer
      → cells.Mapping
      → CsvDictReader lib tokenizer × Result (Bool × cells.Mapping)
  get_data r target = data_of r target r.columns

  -- The overload that returns an optional mapping.
  unfoldable pub get_data_new :
      CsvDictReader lib tokenizer → CsvDictReader lib tokenizer × Result (Option cells.Mapping)
  get_data_new r =
      let (later, answer) = get_data r cells.empty in
      (later, answer >>= λ found. ok (if found.0 then some found.1 else none))

-- The items that the callback gets, and the result. Its count is a size_t.
unfoldable pub parse_csv_line :
    (CsvParseConfig → List ℕ → Tokens) → CsvParseConfig → Bool → List ℕ → List (List ℕ) × Result ℕ
parse_csv_line tokenizer config false line = ([], err nstl_exception)
parse_csv_line tokenizer config true line =
    let tok = tokenizer config line in
    (tok.fields, throw_if tok.failed runtime_error >> ok (length tok.fields % 2 ^ 64))
