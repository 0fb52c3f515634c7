-- ===== src/Signal/Handlers/Polls.antt =====
-- The polls of wait and wait_for, nstl/nstl/signal_barrier.cpp.
use nstl.Prelude.{
  ℕ, ◌≡◌, refl, sym, ap, ◌∙◌, inl, inr, true, Option, none, some, List, [], ◌∷◌, arith, ltb, ◌==◌,
  if◌then◌else◌, Bool-cases, All, Result, ok, ◌>>=◌,
}
use mathlib.Core.Path.{subst}
use nstl.Signal.{SigVal, Number, number, from_signal_conv, sigint, sigterm, sigquit}
use nstl.Signal.Wait.{is_awaited}
use nstl.Signal.Wait.Reads.{is_awaited_cases}
use nstl.Signal.Handlers.{
  signal_receiver, Process, handler_of, receive, arrive, arrive_all, loaded, load_value, polled,
  polled_for, wait_polls, wait_for_polls,
}

-- The last of the signals that arrive, behind one that was there.
abbrev pub last_of : Option ℕ → List ℕ → Option ℕ
last_of before [] = before
last_of before (signo ∷ signos) = last_of (some signo) signos

-- The signal that the polls find: the last that arrived before the first poll behind an arrival.
abbrev pub heard : Option ℕ → List (List ℕ) → Option ℕ
heard (some signo) sleeps = some signo
heard none [] = none
heard none (signos ∷ sleeps) = heard (last_of none signos) sleeps

-- The handlers store, and the signal that is stored.
abbrev pub stored : Option ℕ → Number
stored none = number 0
stored (some signo) = number signo

abbrev pub IsArmed : Option ℕ → Process → Type 0
IsArmed signal s =
    (s.on_int ≡ signal_receiver)
    × (s.on_term ≡ signal_receiver)
    × (s.on_quit ≡ signal_receiver)
    × (s.signal_received ≡ stored signal)

abbrev pub AreAwaited : List ℕ → Type 0
AreAwaited = All (λ signo. is_awaited signo ≡ true)

handler_of-IsArmed :
    (signo : ℕ) (signal : Option ℕ) (s : Process)
    → IsArmed signal s
    → is_awaited signo ≡ true
    → handler_of signo s ≡ signal_receiver
handler_of-IsArmed signo signal s (i, t, q, r) a = elim (Bool-cases (signo == sigint)) [
  | inl e ↦ simp e i
  | inr d ↦ elim (Bool-cases (signo == sigterm)) [
    | inl e ↦ simp (d, e) t
    | inr c ↦ let e : (signo == sigquit) ≡ true = ground arith in simp (d, c, e) q
  ]
]

arrive-IsArmed :
    (signo : ℕ) (signal : Option ℕ) (s : Process)
    → IsArmed signal s
    → is_awaited signo ≡ true
    → IsArmed (some signo) (arrive signo s)
unfolding arrive
arrive-IsArmed signo signal s (i, t, q, r) a =
    subst (λ h. IsArmed (some signo) (receive h signo s))
      (sym (handler_of-IsArmed signo signal s (i, t, q, r) a)) (i, t, q, refl)

abbrev pub Awaited : Option ℕ → Type 0
Awaited none = Unit
Awaited (some signo) = is_awaited signo ≡ true

arrive_all-IsArmed :
    (signos : List ℕ) (signal : Option ℕ) (s : Process)
    → IsArmed signal s
    → Awaited signal
    → AreAwaited signos
    → IsArmed (last_of signal signos) (arrive_all signos s) × Awaited (last_of signal signos)
arrive_all-IsArmed [] signal s at known all = (at, known)
arrive_all-IsArmed (signo ∷ signos) signal s at known (a, all) =
    arrive_all-IsArmed signos (some signo) (arrive signo s) (arrive-IsArmed signo signal s at a) a
      all

-- What wait and wait_for return of the signal that is heard.
abbrev pub waited : Option ℕ → Option (Result SigVal)
waited none = none
waited (some signo) = some (from_signal_conv signo)

abbrev pub waited_for : Option ℕ → Result (Option SigVal)
waited_for none = ok none
waited_for (some signo) = from_signal_conv signo >>= λ sig. ok (some sig)

loaded-stored : (signo : ℕ) → ltb 0 signo ≡ true → loaded (number signo) ≡ waited_for (some signo)
loaded-stored signo positive =
    ap (λ b. if b then (from_signal_conv signo >>= λ sig. ok (some sig)) else ok none) positive

load_value-IsArmed :
    (signal : Option ℕ) (s : Process)
    → IsArmed signal s
    → Awaited signal
    → ((load_value s).0 ≡ waited_for signal) × IsArmed none (load_value s).1
unfolding load_value
load_value-IsArmed none s (i, t, q, r) known = (ap loaded r, (i, t, q, refl))
load_value-IsArmed (some signo) s (i, t, q, r) known =
    (ap loaded r ∙ loaded-stored signo (is_awaited_cases signo known).0, (i, t, q, refl))

-- The first poll that finds a signal.
polled-some :
    (signo : ℕ) (rest : Option (Result SigVal))
    → is_awaited signo ≡ true
    → polled (waited_for (some signo)) rest ≡ waited (some signo)
polled-some signo rest a =
    let (positive, sig, e) = is_awaited_cases signo a in
    ap (λ r. polled (r >>= λ s. ok (some s)) rest) e ∙ sym (ap some e)

module _ (signal : Option ℕ) (s : Process) (at : IsArmed signal s) (known : Awaited signal) where
  wait_polls_nil : wait_polls [] s ≡ polled (waited_for signal) none
  unfolding wait_polls
  wait_polls_nil = ap (λ v. polled v none) (load_value-IsArmed signal s at known).0

  wait_polls_cons :
      (signos : List ℕ) (sleeps : List (List ℕ))
      → wait_polls (signos ∷ sleeps) s
        ≡ polled (waited_for signal) (wait_polls sleeps (arrive_all signos (load_value s).1))
  unfolding wait_polls
  wait_polls_cons signos sleeps =
      ap (λ v. polled v (wait_polls sleeps (arrive_all signos (load_value s).1)))
        (load_value-IsArmed signal s at known).0

wait_polls-heard :
    (sleeps : List (List ℕ)) (signal : Option ℕ) (s : Process)
    → IsArmed signal s
    → Awaited signal
    → All AreAwaited sleeps
    → wait_polls sleeps s ≡ waited (heard signal sleeps)
wait_polls-heard [] none s at known all = wait_polls_nil none s at known
wait_polls-heard [] (some signo) s at known all =
    wait_polls_nil (some signo) s at known ∙ polled-some signo none known
wait_polls-heard (signos ∷ sleeps) (some signo) s at known all =
    wait_polls_cons (some signo) s at known signos sleeps ∙ polled-some signo _ known
wait_polls-heard (signos ∷ sleeps) none s at known (a, all) =
    let (loads, next) = load_value-IsArmed none s at known in
    let (later, still) = arrive_all-IsArmed signos none (load_value s).1 next tt a in
    wait_polls_cons none s at known signos sleeps
    ∙ wait_polls-heard sleeps (last_of none signos) (arrive_all signos (load_value s).1) later still
        all

polled_for-some :
    (signo : ℕ) (rest : Result (Option SigVal))
    → is_awaited signo ≡ true
    → polled_for (waited_for (some signo)) rest ≡ waited_for (some signo)
polled_for-some signo rest a =
    let (positive, sig, e) = is_awaited_cases signo a in
    ap (λ r. polled_for (r >>= λ s. ok (some s)) rest) e ∙ sym (ap (λ r. r >>= λ s. ok (some s)) e)

module _ (signal : Option ℕ) (s : Process) (at : IsArmed signal s) (known : Awaited signal) where
  wait_for_polls_nil : wait_for_polls [] s ≡ polled_for (waited_for signal) (ok none)
  unfolding wait_for_polls
  wait_for_polls_nil = ap (λ v. polled_for v (ok none)) (load_value-IsArmed signal s at known).0

  wait_for_polls_cons :
      (signos : List ℕ) (sleeps : List (List ℕ))
      → wait_for_polls (signos ∷ sleeps) s
        ≡ polled_for
            (waited_for signal)
            (wait_for_polls sleeps (arrive_all signos (load_value s).1))
  unfolding wait_for_polls
  wait_for_polls_cons signos sleeps =
      ap (λ v. polled_for v (wait_for_polls sleeps (arrive_all signos (load_value s).1)))
        (load_value-IsArmed signal s at known).0

wait_for_polls-heard :
    (sleeps : List (List ℕ)) (signal : Option ℕ) (s : Process)
    → IsArmed signal s
    → Awaited signal
    → All AreAwaited sleeps
    → wait_for_polls sleeps s ≡ waited_for (heard signal sleeps)
wait_for_polls-heard [] none s at known all = wait_for_polls_nil none s at known
wait_for_polls-heard [] (some signo) s at known all =
    wait_for_polls_nil (some signo) s at known ∙ polled_for-some signo (ok none) known
wait_for_polls-heard (signos ∷ sleeps) (some signo) s at known all =
    wait_for_polls_cons (some signo) s at known signos sleeps ∙ polled_for-some signo _ known
wait_for_polls-heard (signos ∷ sleeps) none s at known (a, all) =
    let (loads, next) = load_value-IsArmed none s at known in
    let (later, still) = arrive_all-IsArmed signos none (load_value s).1 next tt a in
    wait_for_polls_cons none s at known signos sleeps
    ∙ wait_for_polls-heard sleeps (last_of none signos) (arrive_all signos (load_value s).1) later
        still all

-- While the barrier's handlers are set and only signals that it handles arrive, wait returns the value
-- of the last signal that arrived before the first poll behind an arrival, and goes on sleeping as
-- long as none has arrived. wait_for returns the same value, and none where no signal arrives in the
-- sleeps that the time-out leaves room for. A signal that is stored before the call is returned at
-- once.
pub heard_lem :
    (sleeps : List (List ℕ)) (signal : Option ℕ) (s : Process)
    → IsArmed signal s
    → Awaited signal
    → All AreAwaited sleeps
    → (wait_polls sleeps s ≡ waited (heard signal sleeps))
      × (wait_for_polls sleeps s ≡ waited_for (heard signal sleeps))
heard_lem sleeps signal s at known all = (
  wait_polls-heard sleeps signal s at known all,
  wait_for_polls-heard sleeps signal s at known all,
)
