-- ===== src/Tests/Csv.antt =====
-- Runs of the CSV reader and writer, with a list for the columns and a tokenizer without quotes.
mod Table
mod Cells
use nstl.Prelude.{
  ℕ, zero, suc, ◌+◌, ◌-◌, ◌*◌, ◌/◌, ◌%◌, ◌^◌, ◌≤◌, ◌<◌, min, ◌≡◌, refl, sym, ap, ◌∙◌, ◌≢◌, ◌↔◌, ◌⊎◌,
  inl, inr, Bool, true, false, ◌&&◌, ◌||◌, not, Option, none, some, List, [], ◌∷◌, ◌++◌, map,
  append-nil, append_assoc, arith, ltb, leb, ◌==◌, if◌then◌else◌, ltb→lt, lt→ltb, leb→le, le→leb,
  ==_iff, tests, Bool-cases, Option-cases, all_below, all_below_sound, length, get_elem?, take,
  drop, replicate, length-append, take-append-drop, length-take, length-drop, length-replicate,
  take-append, drop-append, take-append_of_le, take-append_of_ge, append-replicate, take_of_ge,
  drop_of_ge, length-map, All, All-append, Exception, nstl_exception, length_error, bad_alloc,
  runtime_error, out_of_range, invalid_argument, Result, ok, err, ◌>>=◌, ◌>>◌, throw_if, >>=-eq-ok,
  Result-cases, get_elem?_of_lt, nil_of_length, find, c_string, codes, drop_next,
}
use nstl.Csv.{
  CsvParseConfig, default_config, Columns, Tokens, CsvDictReader, open_reader, next, take_line,
  is_skipped, get_field, write_row, write_field, escape_loop, row_loop, has_any, parse_columns,
  column_loop, getline, line_of, next_loop, get_field_in,
}
use nstl.Csv.RoundTrip.{tokens_of, decode, IsDistinct, tokens_of-write_row}
use nstl.Csv.Lines.{put_lines, next_skips}
use nstl.Csv.Fields.{IsHeaded, open_reader-IsHeaded, get_field-next}
use nstl.Tests.Csv.Table.{table, table_laws, split_commas}
use nstl.Tests.Csv.Cells.{cells, entries, cells_laws}
use nstl.Csv.Data.{data_of, filled, fill_loop, get_data, get_data_new, parse_csv_line}
use nstl.Csv.Cells.{Gives, get_data-Gives}

default-IsDistinct : IsDistinct default_config
default-IsDistinct = record {
  escape-coma = omega arith;
  escape-quote = omega arith;
  coma-quote = omega arith;
  escape_some = omega arith;
  coma_some = omega arith;
  quote_some = omega arith;
  escape_n = omega arith;
  quote_n = omega arith;
}

writes :
    write_row default_config (codes "a,b" ∷ codes "c" ∷ (10 ∷ []) ∷ [])
    ≡ (34 ∷ codes "a,b") ++ 34 ∷ codes ",c," ++ 34 ∷ 92 ∷ b'n' ∷ 34 ∷ []
unfolding write_row row_loop write_field escape_loop has_any c_string find
writes = refl

tokens_of-write_row_example :
    tokens_of default_config (write_row default_config (codes "a,b" ∷ (10 ∷ 34 ∷ []) ∷ []))
    ≡ some (codes "a,b" ∷ (10 ∷ 34 ∷ []) ∷ [])
tokens_of-write_row_example =
    tokens_of-write_row default_config default-IsDistinct (codes "a,b") ((10 ∷ 34 ∷ []) ∷ [])
      (λ e. cc)

abbrev tokens : CsvParseConfig → List ℕ → Tokens
tokens config text = record { fields = split_commas text; failed = false }

abbrev body : List ℕ
body = put_lines (codes "#none" ∷ []) ++ (codes "1,2" ++ 10 ∷ [])

abbrev reader : CsvDictReader table tokens
reader = record {
  config = default_config;
  stream = body;
  line = 1;
  columns = some ((codes "y", 1) ∷ (codes "x", 0) ∷ []);
  values = none;
}

opens : open_reader table tokens (codes "x,y" ++ 10 ∷ body) default_config ≡ ok reader
unfolding open_reader parse_columns column_loop getline line_of
opens = refl

reads : (next table tokens reader).1 ≡ ok true
unfolding next next_loop getline line_of is_skipped take_line
reads = refl

finds : get_field table tokens (next table tokens reader).0 (codes "y") ≡ some (codes "2")
unfolding next next_loop getline line_of is_skipped take_line get_field get_field_in
finds = refl

header_line : getline (codes "x,y" ++ 10 ∷ body) ≡ some (codes "x,y", body)
unfolding getline line_of
header_line = refl

headed : IsHeaded table table_laws tokens (codes "x" ∷ codes "y" ∷ []) reader
headed =
    open_reader-IsHeaded table table_laws tokens default_config (codes "x,y" ++ 10 ∷ body)
      (codes "x,y") body refl header_line opens

open_reader-IsHeaded_example : IsHeaded table table_laws tokens (codes "x" ∷ codes "y" ∷ []) reader
open_reader-IsHeaded_example =
    open_reader-IsHeaded table table_laws tokens default_config (codes "x,y" ++ 10 ∷ body)
      (codes "x,y") body refl header_line opens

get_field-next_example :
    (vs : List (List ℕ)) × ((next table tokens reader).0.values ≡ some vs)
    × (length vs ≡ 2)
    × ((k : List ℕ) (i : ℕ)
        → get_elem? (codes "x" ∷ codes "y" ∷ []) i ≡ some k
        → get_field table tokens (next table tokens reader).0 k ≡ get_elem? vs i)
get_field-next_example =
    get_field-next table table_laws tokens (codes "x" ∷ codes "y" ∷ []) reader headed refl reads

comment_skipped : is_skipped default_config (codes "#none") ≡ true
unfolding is_skipped
comment_skipped = refl

row_taken : is_skipped default_config (codes "1,2") ≡ false
unfolding is_skipped
row_taken = refl

next_skips_example :
    next table tokens reader
    ≡ take_line table tokens (record reader { stream = []; line = 2 }) (codes "1,2")
next_skips_example =
    next_skips table tokens reader (codes "#none" ∷ []) (codes "1,2") []
      ((omega arith, comment_skipped), tt) (omega arith) row_taken refl (omega arith)

abbrev mapping : List (List ℕ × ℕ)
mapping = (codes "y", 1) ∷ (codes "x", 0) ∷ []

fills :
    (get_data_new table tokens entries cells reader).1
    ≡ ok (some ((codes "x", codes "1") ∷ (codes "y", codes "2") ∷ []))
unfolding get_data_new get_data fill_loop next next_loop getline line_of is_skipped take_line
fills = refl

parses :
    parse_csv_line tokens default_config true (codes "1,2") ≡ (codes "1" ∷ codes "2" ∷ [], ok 2)
unfolding parse_csv_line
parses = refl

get_data-Gives_example :
    Gives table tokens entries cells cells_laws table_laws
      (next table tokens reader)
      []
      (get_data table tokens entries cells reader [])
get_data-Gives_example =
    get_data-Gives table tokens entries cells cells_laws table_laws reader mapping [] refl
