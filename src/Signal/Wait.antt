-- ===== src/Signal/Wait.antt =====
-- SignalBarrier on Linux, nstl/nstl/signal_barrier_linux.cpp: reads of the signal file and of the
-- timer, and the loops over epoll. What the system's calls answer is an argument: the answers to the
-- reads are lists in the order of the calls. The files do not block, and where a list ends nothing
-- more is pending.
pub mod Rounds
pub mod Reads
pub mod Ends
pub mod Timer
pub mod Timed
use nstl.Prelude.{
  ℕ, zero, suc, ◌+◌, ◌-◌, ◌*◌, ◌/◌, ◌%◌, ◌^◌, ◌≤◌, ◌<◌, min, ◌≡◌, refl, sym, ap, ◌∙◌, ◌≢◌, ◌↔◌, ◌⊎◌,
  inl, inr, Bool, true, false, ◌&&◌, ◌||◌, not, Option, none, some, List, [], ◌∷◌, ◌++◌, map,
  append-nil, append_assoc, arith, ltb, leb, ◌==◌, if◌then◌else◌, ltb→lt, lt→ltb, leb→le, le→leb,
  ==_iff, tests, Bool-cases, Option-cases, all_below, all_below_sound, length, get_elem?, take,
  drop, replicate, length-append, take-append-drop, length-take, length-drop, length-replicate,
  take-append, drop-append, take-append_of_le, take-append_of_ge, append-replicate, take_of_ge,
  drop_of_ge, length-map, All, All-append, Exception, nstl_exception, length_error, bad_alloc,
  runtime_error, out_of_range, invalid_argument, Result, ok, err, ◌>>=◌, ◌>>◌, throw_if, >>=-eq-ok,
  Result-cases, get_elem?_of_lt, nil_of_length, find, c_string, codes, drop_next, same_text,
  same_text_iff, text-cases, same_text_self, same_text_of_ne,
}
use nstl.Signal.{SigVal, from_signal_conv, sigint, sigterm, sigquit}

-- What `read` answers: errno EAGAIN or EINTR, another errno, or a size with what was read.
pub data Answer : Type 0 where
  again interrupted failed : Answer
  got : (size value : ℕ) → Answer

-- sizeof(signalfd_siginfo) and sizeof(std::uint64_t).
abbrev pub siginfo_size : ℕ
siginfo_size = 128

abbrev pub timer_size : ℕ
timer_size = 8

abbrev pub is_awaited : ℕ → Bool
is_awaited signo = signo == sigint || signo == sigterm || signo == sigquit

-- The loops of read_signal and read_timer, with the answers that they leave; 0 is no signal.
unfoldable pub read_signal : List Answer → Result ℕ × List Answer
read_signal [] = (ok 0, [])
read_signal (again ∷ rest) = (ok 0, rest)
read_signal (interrupted ∷ rest) = read_signal rest
read_signal (failed ∷ rest) = (err nstl_exception, rest)
read_signal (got size signo ∷ rest) =
    let later : Result ℕ × List Answer = read_signal rest in
    if not (size == siginfo_size)
    then (err nstl_exception, rest)
    else if is_awaited signo
    then (ok signo, rest)
    else later

unfoldable pub read_timer : List Answer → Result ℕ × List Answer
read_timer [] = (ok 0, [])
read_timer (again ∷ rest) = (ok 0, rest)
read_timer (interrupted ∷ rest) = read_timer rest
read_timer (failed ∷ rest) = (err nstl_exception, rest)
read_timer (got size expirations ∷ rest) =
    if not (size == timer_size) then (err nstl_exception, rest) else (ok expirations, rest)

-- What epoll_wait answers: errno EINTR, another errno, or the descriptors that are ready.
pub data Ready : Type 0 where
  signalled broken : Ready
  events : (fds : List ℕ) → Ready

-- The answers still to come to the reads of the two descriptors.
pub record Pending : Type 0 where
  pub signals : List Answer
  pub timers : List Answer

-- The `for` and the `while` of wait and wait_for around the code for one event, which returns or goes
-- on; where epoll_wait has no more answers, the call waits.
module _ {X : Type 0} (handle : ℕ → Pending → Option (Result X) × Pending) where
  unfoldable pub event_loop : List ℕ → Pending → Option (Result X) × Pending
  event_loop [] pending = (none, pending)
  event_loop (fd ∷ fds) pending =
      let (returned, next) = handle fd pending in
      let rest : Option (Result X) × Pending = event_loop fds next in
      elim returned [ none ↦ rest | some result ↦ (some result, next) ]

  unfoldable pub ready_loop : List Ready → Pending → Option (Result X)
  ready_loop [] pending = none
  ready_loop (signalled ∷ rounds) pending = ready_loop rounds pending
  ready_loop (broken ∷ rounds) pending = some (err nstl_exception)
  ready_loop (events fds ∷ rounds) pending =
      let (returned, next) = event_loop fds pending in
      let rest : Option (Result X) = ready_loop rounds next in
      elim returned [ none ↦ rest | some result ↦ some result ]

-- The bodies of the two `if`s, with what they make of the read; `wrap` is what wait and wait_for make
-- of the value.
abbrev pub signal_result : {X : Type 0} → (SigVal → X) → Result ℕ → Option (Result X)
signal_result wrap (err thrown) = some (err thrown)
signal_result wrap (ok value) =
    if ltb 0 value then some (from_signal_conv value >>= λ sig. ok (wrap sig)) else none

unfoldable pub signal_event : {X : Type 0} → (SigVal → X) → Pending → Option (Result X) × Pending
signal_event wrap pending =
    let (answer, rest) = read_signal pending.signals in
    (signal_result wrap answer, record pending { signals = rest })

abbrev pub timer_result : {X : Type 0} → Result ℕ → Option (Result (Option X))
timer_result (err thrown) = some (err thrown)
timer_result (ok expirations) = if ltb 0 expirations then some (ok none) else none

unfoldable pub timer_event : {X : Type 0} → Pending → Option (Result (Option X)) × Pending
timer_event pending =
    let (answer, rest) = read_timer pending.timers in
    (timer_result answer, record pending { timers = rest })

unfoldable pub wait_event : ℕ → ℕ → Pending → Option (Result SigVal) × Pending
wait_event sfd fd pending = if fd == sfd then signal_event (λ sig. sig) pending else (none, pending)

unfoldable pub wait_for_event : ℕ → ℕ → ℕ → Pending → Option (Result (Option SigVal)) × Pending
wait_for_event sfd timer_fd fd pending =
    if fd == sfd
    then signal_event some pending
    else if fd == timer_fd
    then timer_event pending
    else (none, pending)

-- `created` and the others tell whether epoll_create1 and epoll_ctl did as they were asked.
unfoldable pub wait : (created added : Bool) → ℕ → List Ready → Pending → Option (Result SigVal)
wait created added sfd rounds pending =
    if not (created && added)
    then some (err nstl_exception)
    else ready_loop (wait_event sfd) rounds pending

-- The time-out is a number of nanoseconds; 0 stands for one that is not positive.
unfoldable pub wait_for :
    (timeout : ℕ) (created added : Bool)
    → ℕ
    → ℕ
    → List Ready
    → Pending
    → Option (Result (Option SigVal))
wait_for timeout created added sfd timer_fd rounds pending =
    if timeout == 0
    then some (err nstl_exception)
    else if not (created && added)
    then some (err nstl_exception)
    else ready_loop (wait_for_event sfd timer_fd) rounds pending
