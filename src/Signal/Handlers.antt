-- ===== src/Signal/Handlers.antt =====
-- SignalBarrier where there is no signal file, nstl/nstl/signal_barrier.cpp, less what it does on
-- Windows only: handlers of the C library that store the last signal, and polls of the store.
pub mod Scope
pub mod Polls
use nstl.Prelude.{
  ℕ, zero, suc, ◌+◌, ◌-◌, ◌*◌, ◌/◌, ◌%◌, ◌^◌, ◌≤◌, ◌<◌, min, ◌≡◌, refl, sym, ap, ◌∙◌, ◌≢◌, ◌↔◌, ◌⊎◌,
  inl, inr, Bool, true, false, ◌&&◌, ◌||◌, not, Option, none, some, List, [], ◌∷◌, ◌++◌, map,
  append-nil, append_assoc, arith, ltb, leb, ◌==◌, if◌then◌else◌, ltb→lt, lt→ltb, leb→le, le→leb,
  ==_iff, tests, Bool-cases, Option-cases, all_below, all_below_sound, length, get_elem?, take,
  drop, replicate, length-append, take-append-drop, length-take, length-drop, length-replicate,
  take-append, drop-append, take-append_of_le, take-append_of_ge, append-replicate, take_of_ge,
  drop_of_ge, length-map, All, All-append, Exception, nstl_exception, length_error, bad_alloc,
  runtime_error, out_of_range, invalid_argument, Result, ok, err, ◌>>=◌, ◌>>◌, throw_if, >>=-eq-ok,
  Result-cases, get_elem?_of_lt, nil_of_length, find, c_string, codes, drop_next, same_text,
  same_text_iff, text-cases, same_text_self, same_text_of_ne,
}
use nstl.Signal.{SigVal, Number, number, minus, from_signal_conv, sigint, sigterm, sigquit}

-- SIG_DFL, signal_receiver, and any handler of the program.
pub data Handler : Type 0 where
  sig_dfl signal_receiver : Handler
  other : (id : ℕ) → Handler

-- The process: the handlers that are set, and the globals of the source.
pub record Process : Type 0 where
  pub on_int : Handler
  pub on_term : Handler
  pub on_quit : Handler
  pub in_use : Bool
  pub signal_received : Number
  pub int_hndlr : Handler
  pub int_term : Handler
  pub int_quit : Handler

abbrev pub is_positive : Number → Bool
is_positive (number n) = ltb 0 n
is_positive (minus n) = false

-- The constructor; its argument is a number of nanoseconds.
unfoldable pub construct_barrier : Number → Process → Result (Unit {0}) × Process
construct_barrier period s =
    if not (is_positive period)
    then (err nstl_exception, s)
    else if s.in_use
    then (err nstl_exception, record s { in_use = true })
    else (
      ok tt,
      record s {
        in_use = true;
        int_hndlr = s.on_int;
        on_int = signal_receiver;
        int_term = s.on_term;
        on_term = signal_receiver;
        int_quit = s.on_quit;
        on_quit = signal_receiver;
      },
    )

-- The destructor: each handler and its saved one change places.
unfoldable pub destroy_barrier : Process → Process
destroy_barrier s = record s {
  on_int = s.int_hndlr;
  int_hndlr = s.on_int;
  on_term = s.int_term;
  int_term = s.on_term;
  on_quit = s.int_quit;
  int_quit = s.on_quit;
  in_use = false;
}

-- A signal that arrives calls the handler that is set for it; what other handlers do is not followed.
abbrev pub handler_of : ℕ → Process → Handler
handler_of signo s =
    if signo == sigint
    then s.on_int
    else if signo == sigterm
    then s.on_term
    else if signo == sigquit
    then s.on_quit
    else sig_dfl

abbrev pub receive : Handler → ℕ → Process → Process
receive sig_dfl signo s = s
receive signal_receiver signo s = record s { signal_received = number signo }
receive (other id) signo s = s

unfoldable pub arrive : ℕ → Process → Process
arrive signo s = receive (handler_of signo s) signo s

abbrev pub loaded : Number → Result (Option SigVal)
loaded (minus n) = ok none
loaded (number n) = if ltb 0 n then (from_signal_conv n >>= λ sig. ok (some sig)) else ok none

unfoldable pub load_value : Process → Result (Option SigVal) × Process
load_value s = (loaded s.signal_received, record s { signal_received = number 0 })

-- What arrives while a thread sleeps for a period.
abbrev pub arrive_all : List ℕ → Process → Process
arrive_all [] s = s
arrive_all (signo ∷ signos) s = arrive_all signos (arrive signo s)

-- The body of the loop of wait: what a load makes of the value, or the loop's next round.
abbrev pub polled : Result (Option SigVal) → Option (Result SigVal) → Option (Result SigVal)
polled (err thrown) rest = some (err thrown)
polled (ok none) rest = rest
polled (ok (some sig)) rest = some (ok sig)

-- wait, with the signals that arrive in each of its sleeps. Behind the last of them it sleeps on, and
-- returns nothing.
unfoldable pub wait_polls : List (List ℕ) → Process → Option (Result SigVal)
wait_polls [] s = polled (load_value s).0 none
wait_polls (signos ∷ sleeps) s =
    let (value, next) = load_value s in polled value (wait_polls sleeps (arrive_all signos next))

-- wait_for likewise, which sleeps while the clock is short of the time-out: a list of as many sleeps.
abbrev pub polled_for : Result (Option SigVal) → Result (Option SigVal) → Result (Option SigVal)
polled_for (err thrown) rest = err thrown
polled_for (ok none) rest = rest
polled_for (ok (some sig)) rest = ok (some sig)

unfoldable pub wait_for_polls : List (List ℕ) → Process → Result (Option SigVal)
wait_for_polls [] s = polled_for (load_value s).0 (ok none)
wait_for_polls (signos ∷ sleeps) s =
    let (value, next) = load_value s in
    polled_for value (wait_for_polls sleeps (arrive_all signos next))
