-- ===== src/Tests/Signal.antt =====
-- Signals and timers that arrive, and the loops that wait for them.
use nstl.Prelude.{ℕ, ◌≡◌, refl, ◌⊎◌, true, false, none, some, List, [], ◌∷◌, arith, ok}
use nstl.Signal.{SigVal, sig_term, number, from_signal_conv}
use nstl.Signal.Wait.{
  again, interrupted, got, Ready, signalled, events, Pending, read_signal, read_timer, event_loop,
  ready_loop, signal_event, timer_event, wait_event, wait_for_event, wait, wait_for,
}
use nstl.Signal.Wait.Ends.{wait_ends}
use nstl.Signal.Wait.Timed.{wait_for_timer}
use nstl.Signal.Handlers.{
  sig_dfl, signal_receiver, other, Process, construct_barrier, destroy_barrier, arrive, load_value,
  wait_polls, wait_for_polls,
}
use nstl.Signal.Handlers.Scope.{
  Event, arrived, loads, constructs, handlers, run, Refuses, Returns, construct_barrier_cases,
}
use nstl.Signal.Handlers.Polls.{heard, waited, waited_for, heard_lem}

-- A signal that is not awaited, a pause, and SIGTERM.
abbrev pending : Pending
pending = record {
  signals = interrupted ∷ got 128 10 ∷ again ∷ got 128 15 ∷ got 128 2 ∷ [];
  timers = again ∷ got 8 1 ∷ [];
}

abbrev rounds : List Ready
rounds = events (5 ∷ []) ∷ signalled ∷ events (7 ∷ 5 ∷ []) ∷ []

waits : wait true true 5 rounds pending ≡ some (ok sig_term)
unfolding wait ready_loop event_loop wait_event signal_event read_signal from_signal_conv
waits = refl

-- The timer is read first, and tells of nothing yet.
waits_for : wait_for 1 true true 5 7 rounds pending ≡ some (ok (some sig_term))
unfolding wait_for ready_loop event_loop wait_for_event signal_event timer_event read_signal
    read_timer from_signal_conv
waits_for = refl

wait_ends_example :
    (sig : SigVal) × (from_signal_conv 15 ≡ ok sig)
    × (wait true true 5 rounds pending ≡ some (ok sig))
wait_ends_example =
    wait_ends 5 15 rounds pending (tt, (refl, (tt, (refl, (refl, tt))))) refl tt (omega arith)

abbrev silent : Pending
silent = record { signals = pending.signals; timers = again ∷ [] }

abbrev idle : Pending
idle = record { signals = got 128 10 ∷ again ∷ []; timers = again ∷ got 8 1 ∷ [] }

abbrev twice : List Ready
twice = events (7 ∷ 5 ∷ []) ∷ events (7 ∷ []) ∷ []

wait_for_timer_example : wait_for 1 true true 5 7 twice idle ≡ some (ok none)
wait_for_timer_example =
    wait_for_timer 1 5 7 1 twice idle (omega arith) refl (refl, (tt, tt)) refl (refl, omega arith)
      tt (omega arith)

abbrev fifteen : ℕ
fifteen = 15

abbrev process : Process
process = record {
  on_int = other 1;
  on_term = sig_dfl;
  on_quit = other 2;
  in_use = false;
  signal_received = number 0;
  int_hndlr = sig_dfl;
  int_term = sig_dfl;
  int_quit = sig_dfl;
}

abbrev life : List Event
life = arrived 2 ∷ constructs (number 1) ∷ loads ∷ arrived 15 ∷ []

construct_barrier_cases_example :
    Refuses (number 1) process (construct_barrier (number 1) process)
    ⊎ Returns (number 1) life process (construct_barrier (number 1) process)
construct_barrier_cases_example = construct_barrier_cases (number 1) process life

lives :
    handlers (destroy_barrier (run life (construct_barrier (number 1) process).1))
    ≡ (other 1, sig_dfl, other 2)
unfolding destroy_barrier construct_barrier arrive load_value
lives = refl

abbrev barrier : Process
barrier = record process {
  on_int = signal_receiver;
  on_term = signal_receiver;
  on_quit = signal_receiver;
  in_use = true;
}

abbrev sleeps : List (List ℕ)
sleeps = [] ∷ (2 ∷ 15 ∷ []) ∷ (3 ∷ []) ∷ []

-- Two signals arrive in one sleep, and the first is lost.
polls : wait_polls sleeps barrier ≡ some (ok sig_term)
unfolding wait_polls load_value arrive from_signal_conv
polls = refl

heard_lem_example :
    (wait_polls sleeps barrier ≡ waited (heard none sleeps))
    × (wait_for_polls sleeps barrier ≡ waited_for (heard none sleeps))
heard_lem_example =
    heard_lem sleeps none barrier (refl, refl, refl, refl) tt
      (tt, ((refl, (refl, tt)), ((refl, tt), tt)))
