-- ===== src/Args/Moves.antt =====
-- The argv that `is_arg_set` of nstl/nstl/args_editor.cpp leaves.
use nstl.Prelude.{
  ℕ, zero, suc, ◌+◌, ◌-◌, ◌≡◌, refl, sym, ap, ◌∙◌, ◌↔◌, inl, inr, Bool, true, false, ◌||◌, Option,
  none, some, List, [], ◌∷◌, ◌++◌, append_assoc, arith, ltb, if◌then◌else◌, Bool-cases, length,
  get_elem?, drop, replicate, length-append, take-append, drop-append, ok, drop_next,
}
use nstl.Args.{
  strcmp, compare_bytes, is_zero, Argv, ArgState, move_last, arg_loop, count, is_arg_set,
}

compare_bytes_iff : (a b : List ℕ) → (is_zero (compare_bytes a b) ≡ true) ↔ (a ≡ b)
unfolding compare_bytes
compare_bytes_iff [] [] = ground arith
compare_bytes_iff [] (y ∷ b) = ground arith
compare_bytes_iff (x ∷ a) [] = ground arith
compare_bytes_iff (x ∷ a) (y ∷ b) = ground (arith, compare_bytes_iff a b)

abbrev pub matches : List ℕ → Option (List ℕ) → Bool
matches value p = is_zero (strcmp (some value) p)

matches_same : (value : List ℕ) (p : Option (List ℕ)) → matches value p ≡ true → p ≡ some value
unfolding strcmp
matches_same value none h = cc
matches_same value (some t) h = ap some (sym ((compare_bytes_iff value t).0 h))

-- The arguments that are not the text, and how many are.
abbrev pub without : List ℕ → Argv → Argv
without value [] = []
without value (p ∷ ps) = if matches value p then without value ps else p ∷ without value ps

abbrev pub occurrences : List ℕ → Argv → ℕ
occurrences value [] = 0
occurrences value (p ∷ ps) =
    if matches value p then suc (occurrences value ps) else occurrences value ps

get_elem?-append :
    {A : Type 0} (xs : List A) (y : A) (ys : List A) → get_elem? (xs ++ y ∷ ys) (length xs) ≡ some y
get_elem?-append [] y ys = refl
get_elem?-append (x ∷ xs) y ys = get_elem?-append xs y ys

drop_behind :
    {A : Type 0} (xs : List A) (y : A) (ys : List A) → drop (length xs + 1) (xs ++ y ∷ ys) ≡ ys
drop_behind [] y ys = refl
drop_behind (x ∷ xs) y ys = drop_next x (xs ++ y ∷ ys) (length xs) ∙ drop_behind xs y ys

-- Moving the element behind `kept` behind `ps`.
move_last_lem :
    (kept ps tail : Argv) (p : Option (List ℕ)) (argc : ℕ)
    → argc ≡ length kept + suc (length ps)
    → move_last (kept ++ p ∷ (ps ++ tail)) (length kept) argc p ≡ kept ++ (ps ++ p ∷ tail)
unfolding move_last
move_last_lem kept ps tail p argc h =
    let front : kept ++ p ∷ (ps ++ tail) ≡ (kept ++ p ∷ ps) ++ tail =
      sym (append_assoc kept (p ∷ ps) tail) in
    let n : argc - 1 - length kept ≡ length ps = omega arith in
    let m : argc ≡ length (kept ++ p ∷ ps) = omega (arith, length-append {0} kept (p ∷ ps)) in
    let behind : drop argc (kept ++ p ∷ (ps ++ tail)) ≡ tail =
      rw (front, m) (drop-append (kept ++ p ∷ ps) tail) in
    rw (
      take-append kept (p ∷ (ps ++ tail)),
      drop_behind kept p (ps ++ tail),
      n,
      take-append ps tail,
      behind,
    )

-- Where the loop stands: `kept` are the arguments that it has passed, `ps` those that it has not
-- looked at, and `tail` is what lies behind argc.
abbrev at_state : Argv → Argv → Argv → Bool → ArgState
at_state kept ps tail found = record {
  argc = length kept + length ps;
  argv = kept ++ (ps ++ tail);
  found = found;
}

abbrev done : List ℕ → Argv → Argv → Argv → Bool → ArgState
done value kept ps tail found = record {
  argc = length kept + length (without value ps);
  argv = kept ++ (without value ps ++ (replicate (occurrences value ps) (some value) ++ tail));
  found = found || ltb 0 (occurrences value ps);
}

replicate_middle :
    (n : ℕ) (a : Option (List ℕ)) (tail : Argv)
    → replicate n a ++ a ∷ tail ≡ a ∷ (replicate n a ++ tail)
replicate_middle zero a tail = refl
replicate_middle (suc n) a tail = ap (◌∷◌ a) (replicate_middle n a tail)

hit_step :
    (fuel : ℕ) (value : List ℕ) (idx : ℕ) (s : ArgState) (p : Option (List ℕ))
    → get_elem? s.argv idx ≡ some p
    → matches value p ≡ true
    → arg_loop (suc fuel) value idx s
      ≡ arg_loop fuel value idx (record {
        argc = s.argc - 1;
        argv = if ltb idx (s.argc - 1) then move_last s.argv idx s.argc p else s.argv;
        found = true;
      })
unfolding arg_loop
hit_step fuel value idx s p e h = rw (e, arg_loop, h)

miss_step :
    (fuel : ℕ) (value : List ℕ) (idx : ℕ) (s : ArgState) (p : Option (List ℕ))
    → get_elem? s.argv idx ≡ some p
    → matches value p ≡ false
    → arg_loop (suc fuel) value idx s ≡ arg_loop fuel value (idx + 1) s
unfolding arg_loop
miss_step fuel value idx s p e h = rw (e, arg_loop, h)

moved :
    (kept ps tail : Argv) (p : Option (List ℕ)) (argc : ℕ)
    → argc ≡ length kept + suc (length ps)
    → (if ltb (length kept) (argc - 1)
        then move_last (kept ++ p ∷ (ps ++ tail)) (length kept) argc p
        else kept ++ p ∷ (ps ++ tail))
      ≡ kept ++ (ps ++ p ∷ tail)
moved kept [] tail p argc h = ground arith
moved kept (q ∷ ps) tail p argc h = ground (arith, move_last_lem kept (q ∷ ps) tail p argc h)

-- A match that was moved, and an argument that was passed.
done_hit :
    (value : List ℕ) (kept ps tail : Argv) (p : Option (List ℕ)) (found : Bool)
    → matches value p ≡ true
    → done value kept ps (p ∷ tail) true ≡ done value kept (p ∷ ps) tail found
done_hit value kept ps tail p found h =
    let same = matches_same value p h in
    let shift = replicate_middle (occurrences value ps) (some value) tail in
    ground (arith, ap (λ t. replicate (occurrences value ps) (some value) ++ t ∷ tail) same)

done_miss :
    (value : List ℕ) (kept ps tail : Argv) (p : Option (List ℕ)) (found : Bool)
    → matches value p ≡ false
    → done value (kept ++ p ∷ []) ps tail found ≡ done value kept (p ∷ ps) tail found
done_miss value kept ps tail p found h = ground (
  arith,
  length-append kept (p ∷ []),
  append_assoc kept (p ∷ [])
      (without value ps ++ (replicate (occurrences value ps) (some value) ++ tail)),
)

passed :
    (kept ps tail : Argv) (p : Option (List ℕ)) (found : Bool)
    → at_state (kept ++ p ∷ []) ps tail found ≡ at_state kept (p ∷ ps) tail found
passed kept ps tail p found =
    ground (arith, length-append kept (p ∷ []), append_assoc kept (p ∷ []) (ps ++ tail))

arg_loop_lem :
    (value : List ℕ) (kept ps tail : Argv) (found : Bool)
    → arg_loop (length ps) value (length kept) (at_state kept ps tail found)
      ≡ done value kept ps tail found
arg_loop_lem value kept [] tail found = unfold arg_loop in ground arith
arg_loop_lem value kept (p ∷ ps) tail found = elim (Bool-cases (matches value p)) [
  | inl hit ↦
      hit_step (length ps) value (length kept) (at_state kept (p ∷ ps) tail found) p
        (get_elem?-append kept p (ps ++ tail)) hit
      ∙ ap (arg_loop (length ps) value (length kept))
          (ground (arith, moved kept ps tail p (length kept + suc (length ps))))
      ∙ arg_loop_lem value kept ps (p ∷ tail) true
      ∙ done_hit value kept ps tail p found hit
  | inr miss ↦
      miss_step (length ps) value (length kept) (at_state kept (p ∷ ps) tail found) p
        (get_elem?-append kept p (ps ++ tail)) miss
      ∙ ap (arg_loop (length ps) value (length kept + 1)) (sym (passed kept ps tail p found))
      ∙ ap (λ n. arg_loop (length ps) value n (at_state (kept ++ p ∷ []) ps tail found))
          (sym (length-append kept (p ∷ [])))
      ∙ arg_loop_lem value (kept ++ p ∷ []) ps tail found
      ∙ done_miss value kept ps tail p found miss
]

-- For a text that is not empty, the arguments that are not the text stay in their order at the
-- front and argc counts them; behind them stand the occurrences of the text, and behind argc nothing
-- changes; the call says whether there was one.
pub is_arg_set_lem :
    (args tail : Argv) (c : ℕ) (text : List ℕ)
    → is_arg_set (count (length args)) (some (args ++ tail)) (some (c ∷ text))
      ≡ ok (record {
        argc = length (without (c ∷ text) args);
        argv =
            without (c ∷ text) args
            ++ (replicate (occurrences (c ∷ text) args) (some (c ∷ text)) ++ tail);
        found = ltb 0 (occurrences (c ∷ text) args);
      })
unfolding is_arg_set
is_arg_set_lem args tail c text = ap ok (
    ap (arg_loop (length args) (c ∷ text) 0) (ground arith)
    ∙ arg_loop_lem (c ∷ text) [] args tail false
    ∙ ground arith)
