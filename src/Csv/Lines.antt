-- ===== src/Csv/Lines.antt =====
-- `next` of nstl/nstl/csv_dict_reader.cpp: which line it takes, and what it leaves in the reader.
use nstl.Prelude.{
  ℕ, zero, suc, ◌+◌, ◌%◌, ◌^◌, ◌≤◌, ◌<◌, ◌≡◌, refl, ap, ◌∙◌, ◌≢◌, true, false, none, some, List, [],
  ◌∷◌, ◌++◌, append_assoc, arith, length, length-append, All, ok,
}
use nstl.Csv.{
  CsvParseConfig, Columns, Tokens, CsvDictReader, line_of, getline, is_skipped, take_line,
  next_loop, next,
}

abbrev IsLine : List ℕ → Type 0
IsLine = All (λ c. c ≢ 10)

abbrev pub put_lines : List (List ℕ) → List ℕ
put_lines [] = []
put_lines (text ∷ texts) = text ++ 10 ∷ put_lines texts

line_of_line : (text rest : List ℕ) → IsLine text → line_of (text ++ 10 ∷ rest) ≡ (text, rest)
unfolding line_of
line_of_line [] rest h = refl
line_of_line (c ∷ text) rest (hc, h) = ground (arith, line_of_line text rest h)

getline_line : (text rest : List ℕ) → IsLine text → getline (text ++ 10 ∷ rest) ≡ some (text, rest)
unfolding getline
getline_line [] rest h = ap some (line_of_line [] rest h)
getline_line (c ∷ text) rest h = ap some (line_of_line (c ∷ text) rest h)

lines_long : (texts : List (List ℕ)) → length texts ≤ length (put_lines texts)
lines_long [] = omega arith
lines_long (t ∷ texts) = omega (arith, length-append {0} t (10 ∷ put_lines texts), lines_long texts)

long_enough :
    (skipped : List (List ℕ)) (text rest stream : List ℕ)
    → stream ≡ put_lines skipped ++ (text ++ 10 ∷ rest)
    → length skipped < length stream
long_enough skipped text rest stream e = rw e (
    omega (
      arith,
      lines_long skipped,
      length-append {0} (put_lines skipped) (text ++ 10 ∷ rest),
      length-append {0} text (10 ∷ rest),
    ))

module _ (lib : Columns) (tokenizer : CsvParseConfig → List ℕ → Tokens) where
  pub next_loop-zero :
      (r : CsvDictReader lib tokenizer)
      → next_loop lib tokenizer zero r ≡ (record r { values = none }, ok false)
  unfolding next_loop
  next_loop-zero r = refl

  -- The three ways of a round of the loop.
  pub next_loop_end :
      (fuel : ℕ) (r : CsvDictReader lib tokenizer)
      → getline r.stream ≡ none
      → next_loop lib tokenizer (suc fuel) r ≡ (record r { values = none }, ok false)
  unfolding next_loop
  next_loop_end fuel r e = rw (e, next_loop) refl

  pub next_loop_skip :
      (fuel : ℕ) (r : CsvDictReader lib tokenizer) {text rest : List ℕ}
      → getline r.stream ≡ some (text, rest)
      → is_skipped r.config text ≡ true
      → next_loop lib tokenizer (suc fuel) r
        ≡ next_loop lib tokenizer fuel (record r { stream = rest; line = (r.line + 1) % 2 ^ 32 })
  unfolding next_loop
  next_loop_skip fuel r e skipped = rw (e, next_loop, skipped) refl

  pub next_loop_take :
      (fuel : ℕ) (r : CsvDictReader lib tokenizer) {text rest : List ℕ}
      → getline r.stream ≡ some (text, rest)
      → is_skipped r.config text ≡ false
      → next_loop lib tokenizer (suc fuel) r
        ≡ take_line lib tokenizer (record r { stream = rest }) text
  unfolding next_loop
  next_loop_take fuel r e taken = rw (e, next_loop, taken) refl

  next_loop_skips :
      (fuel : ℕ) (r : CsvDictReader lib tokenizer) (skipped : List (List ℕ)) (text rest : List ℕ)
      → All (λ t. IsLine t × (is_skipped r.config t ≡ true)) skipped
      → IsLine text
      → is_skipped r.config text ≡ false
      → r.stream ≡ put_lines skipped ++ (text ++ 10 ∷ rest)
      → length skipped < fuel
      → r.line + length skipped < 2 ^ 32
      → next_loop lib tokenizer fuel r
        ≡ take_line lib tokenizer (record r { stream = rest; line = r.line + length skipped }) text
  unfolding next_loop
  next_loop_skips zero r skipped text rest hs ht hk e enough small = absurd (omega arith)
  next_loop_skips (suc fuel) r [] text rest hs ht hk e enough small =
      let same : r.line ≡ r.line + 0 = omega arith in
      rw (ap getline e ∙ getline_line text rest ht, next_loop, hk)
        (ap (λ n. take_line lib tokenizer (record r { stream = rest; line = n }) text) same)
  next_loop_skips (suc fuel) r (t ∷ skipped) text rest ((hl, hsk), hs) ht hk e enough small =
      let more = text ++ 10 ∷ rest in
      let split = e ∙ append_assoc t (10 ∷ put_lines skipped) more in
      let wrapped : (r.line + 1) % 2 ^ 32 ≡ r.line + 1 = omega arith in
      let counted : r.line + 1 + length skipped ≡ r.line + suc (length skipped) = omega arith in
      rw (ap getline split ∙ getline_line t (put_lines skipped ++ more) hl, next_loop, hsk, wrapped)
        (next_loop_skips fuel (record r { stream = put_lines skipped ++ more; line = r.line + 1 })
            skipped text rest hs ht hk refl (omega arith) (omega arith)
          ∙ ap (λ n. take_line lib tokenizer (record r { stream = rest; line = n }) text) counted)

  -- Lines that `next` skips, fewer than its counter has room for, and then one that it does not: it
  -- takes that one, having counted the lines that it skipped and not the one that it takes.
  pub next_skips :
      (r : CsvDictReader lib tokenizer) (skipped : List (List ℕ)) (text rest : List ℕ)
      → All (λ t. IsLine t × (is_skipped r.config t ≡ true)) skipped
      → IsLine text
      → is_skipped r.config text ≡ false
      → r.stream ≡ put_lines skipped ++ (text ++ 10 ∷ rest)
      → r.line + length skipped < 2 ^ 32
      → next lib tokenizer r
        ≡ take_line lib tokenizer (record r { stream = rest; line = r.line + length skipped }) text
  unfolding next
  next_skips r skipped text rest hs ht hk e small =
      next_loop_skips (length r.stream) r skipped text rest hs ht hk e
        (long_enough skipped text rest r.stream e) small
