-- ===== src/Csv/RoundTrip.antt =====
-- The format of a CSV row, to compare write_field and write_row of nstl/nstl/csv_dict_reader.cpp
-- with: the decoder that Boost documents for escaped_list_separator. Comas outside quotes
-- separate fields, quotes are dropped, and behind the escape character stand `n` for a new line
-- or one of the three special characters.
use nstl.Prelude.{
  ℕ, ◌≡◌, refl, sym, ap, ◌∙◌, ◌≢◌, ◌⊎◌, inl, inr, Bool, true, false, ◌&&◌, ◌||◌, not, Option, none,
  some, List, [], ◌∷◌, ◌++◌, append-nil, append_assoc, arith, ◌==◌, if◌then◌else◌, ==_iff,
  Bool-cases, All, find, c_string,
}
use nstl.Csv.{
  CsvParseConfig, escape_char, escape_loop, special_chars, has_any, write_field, row_loop,
  write_row,
}

abbrev is_special : CsvParseConfig → ℕ → Bool
is_special config c = c == config.escape || (c == config.coma || c == config.quote)

abbrev add_first : List ℕ → Option (List (List ℕ)) → Option (List (List ℕ))
add_first field none = none
add_first field (some fields) = some (field ∷ fields)

unfoldable pub decode : CsvParseConfig → Bool → Bool → List ℕ → List ℕ → Option (List (List ℕ))
decode config true quoted field [] = none
decode config false quoted field [] = some (field ∷ [])
decode config true quoted field (c ∷ s) =
    let taken = decode config false quoted (field ++ c ∷ []) s in
    let broken = decode config false quoted (field ++ 10 ∷ []) s in
    if c == b'n' then broken else if is_special config c then taken else none
decode config false quoted field (c ∷ s) =
    let escaped = decode config true quoted field s in
    let next_field = decode config false false [] s in
    let toggled = decode config false (not quoted) field s in
    let taken = decode config false quoted (field ++ c ∷ []) s in
    if c == config.escape
    then escaped
    else if c == config.coma && not quoted
    then add_first field next_field
    else if c == config.quote
    then toggled
    else taken

-- The tokens of a line: none where it is empty, as the tokenizer's iterator is at its end there.
abbrev pub tokens_of : CsvParseConfig → List ℕ → Option (List (List ℕ))
tokens_of config [] = some []
tokens_of config (c ∷ s) = decode config false false [] (c ∷ s)

-- The three characters differ, none is NUL, and the two that change the next are not `n`.
pub record IsDistinct (config : CsvParseConfig) : Type 0 where
  pub escape-coma : config.escape ≢ config.coma
  pub escape-quote : config.escape ≢ config.quote
  pub coma-quote : config.coma ≢ config.quote
  pub escape_some : config.escape ≢ 0
  pub coma_some : config.coma ≢ 0
  pub quote_some : config.quote ≢ 0
  pub escape_n : config.escape ≢ b'n'
  pub quote_n : config.quote ≢ b'n'

module _ (config : CsvParseConfig) (distinct : IsDistinct config) where
  decode_one :
      (quoted : Bool) (field : List ℕ) (c : ℕ) (s : List ℕ)
      → c ≢ config.escape
      → c ≢ config.coma
      → c ≢ config.quote
      → decode config false quoted field (c ∷ s) ≡ decode config false quoted (field ++ c ∷ []) s
  unfolding decode
  decode_one quoted field c s he hc hq = ground arith

  decode-plain :
      (quoted : Bool) (field text s : List ℕ)
      → All (λ c. (c ≢ config.escape) × (c ≢ config.coma) × (c ≢ config.quote)) text
      → decode config false quoted field (text ++ s) ≡ decode config false quoted (field ++ text) s
  decode-plain quoted field [] s h =
      ap (λ t. decode config false quoted t s) (sym (append-nil field))
  decode-plain quoted field (c ∷ text) s ((he, hc, hq), h) =
      decode_one quoted field c (text ++ s) he hc hq
      ∙ decode-plain quoted (field ++ c ∷ []) text s h
      ∙ ap (λ t. decode config false quoted t s) (append_assoc field (c ∷ []) text)

  decode_escaped :
      (quoted : Bool) (field : List ℕ) (c : ℕ) (s : List ℕ)
      → c ≢ b'n'
      → (c ≡ config.escape) ⊎ (c ≡ config.quote)
      → decode config false quoted field (config.escape ∷ c ∷ s)
        ≡ decode config false quoted (field ++ c ∷ []) s
  unfolding decode
  decode_escaped quoted field c s hn h = ground arith

  decode_newline :
      (quoted : Bool) (field s : List ℕ)
      → decode config false quoted field (config.escape ∷ b'n' ∷ s)
        ≡ decode config false quoted (field ++ 10 ∷ []) s
  unfolding decode
  decode_newline quoted field s = ground arith

  decode_quoted :
      (field : List ℕ) (c : ℕ) (s : List ℕ)
      → c ≢ config.escape
      → c ≢ config.quote
      → decode config false true field (c ∷ s) ≡ decode config false true (field ++ c ∷ []) s
  unfolding decode
  decode_quoted field c s he hq = ground arith

  decode_toggle :
      (quoted : Bool) (field s : List ℕ)
      → decode config false quoted field (config.quote ∷ s)
        ≡ decode config false (not quoted) field s
  unfolding decode
  decode_toggle quoted field s =
      let eq = distinct.escape-quote in let cq = distinct.coma-quote in ground arith

  decode_end : (field : List ℕ) → decode config false false field [] ≡ some (field ∷ [])
  unfolding decode
  decode_end field = refl

  decode_coma :
      (field s : List ℕ)
      → decode config false false field (config.coma ∷ s)
        ≡ add_first field (decode config false false [] s)
  unfolding decode
  decode_coma field s = let ec = distinct.escape-coma in ground arith

  decode-escape_char :
      (field : List ℕ) (ch : ℕ) (s : List ℕ)
      → decode config false true field (escape_char config ch ++ s)
        ≡ decode config false true (field ++ ch ∷ []) s
  decode-escape_char field ch s =
      let en = distinct.escape_n in
      let qn = distinct.quote_n in
      elim (Bool-cases (ch == config.escape || ch == config.quote)) [
        | inl special ↦ rw special (decode_escaped true field ch s (ground arith) (ground arith))
        | inr other ↦ elim (Bool-cases (ch == 10)) [
          | inl newline ↦
              rw (other, newline)
                (decode_newline true field s
                  ∙ ap (λ c. decode config false true (field ++ c ∷ []) s)
                      (sym ((==_iff ch 10).0 newline)))
          | inr normal ↦ rw (other, normal) (decode_quoted field ch s (ground arith) (ground arith))
        ]
      ]

  decode-escape_loop :
      (field text s : List ℕ)
      → decode config false true field (escape_loop config text ++ s)
        ≡ decode config false true (field ++ text) s
  unfolding escape_loop
  decode-escape_loop field [] s = ap (λ t. decode config false true t s) (sym (append-nil field))
  decode-escape_loop field (ch ∷ text) s =
      ap (λ t. decode config false true field t)
        (append_assoc (escape_char config ch) (escape_loop config text) s)
      ∙ decode-escape_char field ch (escape_loop config text ++ s)
      ∙ decode-escape_loop (field ++ ch ∷ []) text s
      ∙ ap (λ t. decode config false true t s) (append_assoc field (ch ∷ []) text)

  plain_text :
      (text : List ℕ)
      → has_any (special_chars config) text ≡ false
      → All (λ c. (c ≢ config.escape) × (c ≢ config.coma) × (c ≢ config.quote)) text
  unfolding has_any find
  plain_text [] h = tt
  plain_text (c ∷ text) h = ground (arith, plain_text text)

  c_string-special_chars : c_string (special_chars config) ≡ special_chars config
  unfolding c_string
  c_string-special_chars =
      let es = distinct.escape_some in
      let cs = distinct.coma_some in let qs = distinct.quote_some in ground arith

  decode-write_field :
      (text s : List ℕ)
      → decode config false false [] (write_field config text ++ s)
        ≡ decode config false false text s
  unfolding write_field
  decode-write_field text s = elim (Bool-cases (has_any (special_chars config) text)) [
    | inl special ↦
        rw (c_string-special_chars, special)
          (decode_toggle false [] ((escape_loop config text ++ config.quote ∷ []) ++ s)
            ∙ ap (decode config false true [])
                (append_assoc (escape_loop config text) (config.quote ∷ []) s)
            ∙ decode-escape_loop [] text (config.quote ∷ s)
            ∙ decode_toggle true text s)
    | inr plain ↦
        rw (c_string-special_chars, plain) (decode-plain false [] text s (plain_text text plain))
  ]

  decode-row_loop :
      (text : List ℕ) (row : List (List ℕ))
      → decode config false false text (row_loop config row) ≡ some (text ∷ row)
  unfolding row_loop
  decode-row_loop text [] = decode_end text
  decode-row_loop text (next_text ∷ row) =
      decode_coma text (write_field config next_text ++ row_loop config row)
      ∙ ap (add_first text)
          (decode-write_field next_text (row_loop config row) ∙ decode-row_loop next_text row)

  decode-write_row :
      (text : List ℕ) (row : List (List ℕ))
      → decode config false false [] (write_row config (text ∷ row)) ≡ some (text ∷ row)
  unfolding write_row
  decode-write_row text row =
      decode-write_field text (row_loop config row) ∙ decode-row_loop text row

  tokens_of_lem : (s : List ℕ) → s ≢ [] → tokens_of config s ≡ decode config false false [] s
  tokens_of_lem [] some_byte = absurd (some_byte refl)
  tokens_of_lem (c ∷ s) some_byte = refl

  -- With three characters that differ, are not NUL and do not escape or quote an `n`, the tokens of
  -- what write_row writes are the fields of the row, whatever bytes they hold, for every row of one
  -- field or more but the row of one empty field, which it writes as the empty text.
  pub tokens_of-write_row :
      (text : List ℕ) (row : List (List ℕ))
      → text ∷ row ≢ [] ∷ []
      → tokens_of config (write_row config (text ∷ row)) ≡ some (text ∷ row)
  tokens_of-write_row text row some_byte =
      tokens_of_lem (write_row config (text ∷ row)) (λ e.
        let same : some (text ∷ row) ≡ some ([] ∷ []) =
          sym (decode-write_row text row) ∙ ap (decode config false false []) e ∙ decode_end [] in
        some_byte cc)
      ∙ decode-write_row text row
