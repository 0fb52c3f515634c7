-- ===== src/Tests/Args.antt =====
-- Runs of `is_arg_set`.
use nstl.Prelude.{◌≡◌, refl, true, none, some, [], ◌∷◌, ◌++◌, ltb, length, replicate, ok, codes}
use nstl.Args.{Argv, count, is_arg_set, arg_loop, move_last, strcmp, compare_bytes}
use nstl.Args.Moves.{is_arg_set_lem, without, occurrences}

abbrev three_args : Argv
three_args = some (codes "-v") ∷ some (codes "x") ∷ some (codes "-v") ∷ []

two_matches :
    is_arg_set (count 3) (some (three_args ++ none ∷ [])) (some (codes "-v"))
    ≡ ok (record {
      argc = 1;
      argv = some (codes "x") ∷ some (codes "-v") ∷ some (codes "-v") ∷ none ∷ [];
      found = true;
    })
unfolding is_arg_set arg_loop move_last strcmp compare_bytes
two_matches = refl

is_arg_set_lem_example :
    is_arg_set (count 3) (some (three_args ++ none ∷ [])) (some (codes "-v"))
    ≡ ok (record {
      argc = length (without (codes "-v") three_args);
      argv =
          without (codes "-v") three_args
          ++ (replicate (occurrences (codes "-v") three_args) (some (codes "-v")) ++ none ∷ []);
      found = ltb 0 (occurrences (codes "-v") three_args);
    })
is_arg_set_lem_example = is_arg_set_lem three_args (none ∷ []) b'-' (codes "v")
