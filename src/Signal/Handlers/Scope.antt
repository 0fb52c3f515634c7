-- ===== src/Signal/Handlers/Scope.antt =====
-- The life of a barrier that sets handlers, nstl/nstl/signal_barrier.cpp.
use nstl.Prelude.{
  ℕ, ◌≡◌, refl, sym, ◌∙◌, ◌⊎◌, inl, inr, true, false, List, [], ◌∷◌, Bool-cases, nstl_exception,
  Result, ok, err,
}
use mathlib.Core.Path.{subst}
use nstl.Signal.{Number}
use nstl.Signal.Handlers.{
  Handler, sig_dfl, signal_receiver, other, Process, is_positive, construct_barrier,
  destroy_barrier, handler_of, receive, arrive, load_value,
}

-- What can happen while the barrier lives: a signal arrives, the value is loaded, and the program
-- tries to construct another barrier.
pub data Event : Type 0 where
  arrived : (signo : ℕ) → Event
  loads : Event
  constructs : (period : Number) → Event

abbrev pub happens : Event → Process → Process
happens (arrived signo) s = arrive signo s
happens loads s = (load_value s).1
happens (constructs period) s = (construct_barrier period s).1

abbrev pub run : List Event → Process → Process
run [] s = s
run (event ∷ events) s = run events (happens event s)

-- The handlers that are set and those that are kept.
abbrev pub handlers : Process → Handler × Handler × Handler
handlers s = (s.on_int, s.on_term, s.on_quit)

abbrev kept : Process → Handler × Handler × Handler
kept s = (s.int_hndlr, s.int_term, s.int_quit)

abbrev Lives : Process → Process → Type 0
Lives s t = (t.in_use ≡ true) × (kept t ≡ kept s) × (handlers t ≡ handlers s)

receive-Lives :
    (handler : Handler) (signo : ℕ) (s t : Process) → Lives s t → Lives s (receive handler signo t)
receive-Lives sig_dfl signo s t lives = lives
receive-Lives signal_receiver signo s t lives = lives
receive-Lives (other id) signo s t lives = lives

-- A second constructor throws.
construct_barrier_in_use :
    (period : Number) (s : Process)
    → s.in_use ≡ true
    → ((construct_barrier period s).0 ≡ err nstl_exception)
      × (handlers (construct_barrier period s).1 ≡ handlers s)
      × (kept (construct_barrier period s).1 ≡ kept s)
      × ((construct_barrier period s).1.in_use ≡ true)
      × ((construct_barrier period s).1.signal_received ≡ s.signal_received)
unfolding construct_barrier
construct_barrier_in_use period s used = elim (Bool-cases (is_positive period)) [
  | inl p ↦ simp (p, used) (refl, refl, refl, refl, refl)
  | inr p ↦ simp (p, used) (refl, refl, refl, refl, refl)
]

happens-Lives : (event : Event) (s t : Process) → Lives s t → Lives s (happens event t)
unfolding arrive load_value
happens-Lives (arrived signo) s t lives = receive-Lives (handler_of signo t) signo s t lives
happens-Lives loads s t lives = lives
happens-Lives (constructs period) s t (used, k, h) =
    let (thrown, same, saved, still, received) = construct_barrier_in_use period t used in
    (still, saved ∙ k, same ∙ h)

run-Lives : (events : List Event) (s t : Process) → Lives s t → Lives s (run events t)
run-Lives [] s t lives = lives
run-Lives (event ∷ events) s t lives =
    run-Lives events s (happens event t) (happens-Lives event s t lives)

-- The constructor's branches, and the process behind it where it returns.
abbrev taken : Process → Process
taken s = record s {
  in_use = true;
  int_hndlr = s.on_int;
  on_int = signal_receiver;
  int_term = s.on_term;
  on_term = signal_receiver;
  int_quit = s.on_quit;
  on_quit = signal_receiver;
}

construct_barrier_refused :
    (period : Number) (s : Process)
    → is_positive period ≡ false
    → construct_barrier period s ≡ (err nstl_exception, s)
unfolding construct_barrier
construct_barrier_refused period s p = simp p refl

construct_barrier-taken :
    (period : Number) (s : Process)
    → is_positive period ≡ true
    → s.in_use ≡ false
    → construct_barrier period s ≡ (ok tt, taken s)
unfolding construct_barrier
construct_barrier-taken period s p free = simp (p, free) refl

abbrev pub Refuses : Number → Process → Result (Unit {0}) × Process → Type 0
Refuses period s (made, t) =
    ((is_positive period ≡ false) ⊎ (s.in_use ≡ true))
    × (made ≡ err nstl_exception)
    × (handlers t ≡ handlers s)
    × (t.signal_received ≡ s.signal_received)

abbrev pub Returns : Number → List Event → Process → Result (Unit {0}) × Process → Type 0
Returns period events s (made, t) =
    (is_positive period ≡ true)
    × (s.in_use ≡ false)
    × (made ≡ ok tt)
    × (handlers (run events t) ≡ (signal_receiver, signal_receiver, signal_receiver))
    × (handlers (destroy_barrier (run events t)) ≡ handlers s)
    × ((destroy_barrier (run events t)).in_use ≡ false)

taken-Returns :
    (period : Number) (s : Process) (events : List Event)
    → is_positive period ≡ true
    → s.in_use ≡ false
    → Returns period events s (ok tt, taken s)
unfolding destroy_barrier
taken-Returns period s events p free =
    let (used, k, h) = run-Lives events (taken s) (taken s) (refl, refl, refl) in
    (p, free, refl, h, k, refl)

-- The constructor throws for a period that is not positive and while another barrier lives, and then
-- changes neither the handlers nor the signal that was stored. For a positive period, while no
-- other barrier lives, it returns, and then whatever
-- signals arrive, loads and attempts of other constructors come behind it, the three signals keep
-- storing until the destructor gives each the handler that it had before and lets the next barrier be
-- constructed.
pub construct_barrier_cases :
    (period : Number) (s : Process) (events : List Event)
    → Refuses period s (construct_barrier period s)
      ⊎ Returns period events s (construct_barrier period s)
construct_barrier_cases period s events = elim (Bool-cases s.in_use) [
  | inl used ↦
      let (thrown, same, saved, still, received) = construct_barrier_in_use period s used in
      inl (inr used, thrown, same, received)
  | inr free ↦ elim (Bool-cases (is_positive period)) [
    | inl p ↦ inr (
        subst (Returns period events s) (sym (construct_barrier-taken period s p free))
          (taken-Returns period s events p free))
    | inr p ↦ inl (
        subst (Refuses period s) (sym (construct_barrier_refused period s p))
          (inl p, refl, refl, refl))
  ]
]
