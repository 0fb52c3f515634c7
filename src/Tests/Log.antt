-- ===== src/Tests/Log.antt =====
-- Runs of the log levels and of the stack of loggers.
use nstl.Prelude.{◌≡◌, refl, true, false, some, [], ◌∷◌, nstl_exception, ok, err}
use nstl.Log.{
  value, LoggerApi, LogState, construct, reset_logger, push_log, erase_log, set_functor,
  initial_state,
}
use nstl.Log.Refine.{opens, closes, perform_all, perform_all-Refines, Refines}

abbrev cout_log : LoggerApi
cout_log = record { address = 1; level = value 0; is_cout_logger = true }

abbrev file_log : LoggerApi
file_log = record { address = 2; level = value 3; is_cout_logger = false }

abbrev two_logs : LogState
two_logs = record {
  items = file_log ∷ cout_log ∷ [];
  target = some file_log;
  current_level = value 3;
  active_cout_logger = true;
}

abbrev one_log : LogState
one_log = record {
  items = cout_log ∷ [];
  target = some cout_log;
  current_level = value 0;
  active_cout_logger = true;
}

makes_one : construct initial_state (some cout_log) ≡ ok one_log
unfolding construct push_log set_functor
makes_one = refl

makes_two : construct one_log (some file_log) ≡ ok two_logs
unfolding construct push_log set_functor
makes_two = refl

refuses_second_cout : construct one_log (some cout_log) ≡ err nstl_exception
unfolding construct
refuses_second_cout = refl

back_to_one : reset_logger two_logs (some file_log) ≡ one_log
unfolding reset_logger erase_log set_functor
back_to_one = refl

-- The older logger closes first.
perform_all-Refines_example :
    (t : LogState) × (perform_all initial_state
        (opens cout_log ∷ opens file_log ∷ closes cout_log ∷ [])
      ≡ ok t)
    × Refines t (file_log ∷ [])
perform_all-Refines_example =
    perform_all-Refines (opens cout_log ∷ opens file_log ∷ closes cout_log ∷ []) initial_state []
      (file_log ∷ []) (refl, refl, tt, tt, tt)
      (
        cout_log ∷ [],
        (tt, refl, refl),
        (
          file_log ∷ cout_log ∷ [],
          ((refl, tt), refl, refl),
          (file_log ∷ [], (file_log ∷ [], [], refl, refl), refl),
        ),
      )
