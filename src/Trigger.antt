-- ===== src/Trigger.antt =====
-- nstl/nstl/file_trigger_linux.cpp: file_trigger_linux and its factories. What the system's calls
-- answer is an argument; the answers to the reads are lists in the order of the calls, and where such
-- a list ends nothing more can be read. The callback is one that returns.
pub mod Reads
pub mod Rounds
pub mod Loop
pub mod Stop
pub mod Life
use nstl.Prelude.{
  ℕ, zero, suc, ◌+◌, ◌-◌, ◌*◌, ◌/◌, ◌%◌, ◌^◌, ◌≤◌, ◌<◌, min, ◌≡◌, refl, sym, ap, ◌∙◌, ◌≢◌, ◌↔◌, ◌⊎◌,
  inl, inr, Bool, true, false, ◌&&◌, ◌||◌, not, Option, none, some, List, [], ◌∷◌, ◌++◌, map,
  append-nil, append_assoc, arith, ltb, leb, ◌==◌, if◌then◌else◌, ltb→lt, lt→ltb, leb→le, le→leb,
  ==_iff, tests, Bool-cases, Option-cases, all_below, all_below_sound, length, get_elem?, take,
  drop, replicate, length-append, take-append-drop, length-take, length-drop, length-replicate,
  take-append, drop-append, take-append_of_le, take-append_of_ge, append-replicate, take_of_ge,
  drop_of_ge, length-map, All, All-append, Exception, nstl_exception, length_error, bad_alloc,
  runtime_error, out_of_range, invalid_argument, Result, ok, err, ◌>>=◌, ◌>>◌, throw_if, >>=-eq-ok,
  Result-cases, get_elem?_of_lt, nil_of_length, find, c_string, codes, drop_next, same_text,
  same_text_iff, text-cases, same_text_self, same_text_of_ne,
}
use nstl.Signal.Wait.{Ready, signalled, broken, events}

-- What `read` answers: errno EAGAIN or EWOULDBLOCK, EINTR, another errno, the end of the file, or bytes.
pub data Read : Type 0 where
  would_block interrupted failed at_end : Read
  got : (bytes : List ℕ) → Read

-- `_read_data`: its result, the data that the callback gets, and the answers that are left.
pub record Taken : Type 0 where
  pub result : Result Bool
  pub calls : List (List ℕ)
  pub left : List Read

unfoldable pub read_data : Bool → List Read → Taken
read_data exec [] = record { result = ok true; calls = []; left = [] }
read_data exec (would_block ∷ reads) = record { result = ok true; calls = []; left = reads }
read_data exec (interrupted ∷ reads) = read_data exec reads
read_data exec (failed ∷ reads) = record { result = err nstl_exception; calls = []; left = reads }
read_data exec (at_end ∷ reads) = record { result = ok false; calls = []; left = reads }
read_data exec (got bytes ∷ reads) =
    let rest : Taken = read_data exec reads in
    if exec then record rest { calls = bytes ∷ rest.calls } else rest

-- `_drain_inotify`: whether each read of the inotify file gives bytes.
unfoldable pub drain_inotify : List Bool → List Bool
drain_inotify [] = []
drain_inotify (true ∷ reads) = drain_inotify reads
drain_inotify (false ∷ reads) = reads

-- The thread: the answers to come, and what the callback got.
pub record Worker : Type 0 where
  pub data_reads : List Read
  pub inotify_reads : List Bool
  pub delivered : List (List ℕ)

-- The body of the `if` for the inotify file.
abbrev pub dropped : Result Bool → Result (Unit {0})
dropped (err thrown) = err thrown
dropped (ok more) = ok tt

unfoldable pub take_data : Worker → Result (Unit {0}) × Worker
take_data w =
    let taken = read_data true w.data_reads in
    (
      dropped taken.result,
      record {
        data_reads = taken.left;
        inotify_reads = drain_inotify w.inotify_reads;
        delivered = w.delivered ++ taken.calls;
      },
    )

-- What follows it: a throw leaves the loop.
abbrev pub after_data : Result (Unit {0}) × Worker → Result Bool × Worker → Result Bool × Worker
after_data (err thrown, next) rest = (err thrown, next)
after_data (ok unit, next) rest = rest

-- What follows a round: the end of the thread, or the next round.
abbrev pub after_round :
    Result Bool × Worker → Option (Result (Unit {0})) × Worker → Option (Result (Unit {0})) × Worker
after_round (err thrown, w) rest = (some (err thrown), w)
after_round (ok true, w) rest = (some (ok tt), w)
after_round (ok false, w) rest = rest

module _ (inotify_fd exit_read : ℕ) where
  -- The `for` over the events: whether the exit was requested.
  unfoldable pub worker_events : List ℕ → Bool → Worker → Result Bool × Worker
  worker_events [] exit_requested w = (ok exit_requested, w)
  worker_events (fd ∷ fds) exit_requested w =
      let done = take_data w in
      let taken : Result Bool × Worker = worker_events fds exit_requested done.1 in
      let asked : Result Bool × Worker = worker_events fds true w in
      let passed : Result Bool × Worker = worker_events fds exit_requested w in
      if fd == inotify_fd then after_data done taken else if fd == exit_read then asked else passed

  -- The loop of `_worker_impl` over the answers of epoll_wait; where they end, the thread waits.
  unfoldable pub worker_loop : List Ready → Worker → Option (Result (Unit {0})) × Worker
  worker_loop [] w = (none, w)
  worker_loop (signalled ∷ rounds) w = worker_loop rounds w
  worker_loop (broken ∷ rounds) w = (some (err nstl_exception), w)
  worker_loop (events fds ∷ rounds) w =
      let round = worker_events fds false w in after_round round (worker_loop rounds round.1)

-- set_non_blocking: whether the flags have O_NONBLOCK, none where fcntl fails, and whether the flags
-- can be set.
unfoldable pub set_non_blocking : Option Bool → Bool → Result Bool
set_non_blocking none settable = err nstl_exception
set_non_blocking (some true) settable = ok false
set_non_blocking (some false) settable = throw_if (not settable) nstl_exception >> ok true

-- The constructor: whether inotify_init1, inotify_add_watch and pipe2 succeed, and the answers to the
-- reads. It is the thread that starts.
unfoldable pub start_trigger :
    (inited watched piped sow : Bool) → List Read → List Bool → Result Worker
start_trigger inited watched piped sow reads inotify_reads =
    let taken = read_data sow reads in
    throw_if (not inited) nstl_exception
    >> throw_if (not watched) nstl_exception
    >> taken.result
    >>= λ more.
        throw_if (not piped) nstl_exception
        >> ok (record {
          data_reads = taken.left;
          inotify_reads = inotify_reads;
          delivered = taken.calls;
        })

-- The guards of the two factories; no descriptor is a negative one.
abbrev pub guards : Option ℕ → ℕ → Bool → Result (Unit {0})
guards handle buffer_size callable =
    throw_if (elim handle [ none ↦ true | some fd ↦ not (ltb 0 fd) ]) nstl_exception
    >> throw_if (buffer_size == 0) nstl_exception
    >> throw_if (not callable) nstl_exception

unfoldable pub factory_file : Option ℕ → ℕ → Bool → Result Worker → Result Worker
factory_file handle buffer_size callable started = guards handle buffer_size callable >> started

unfoldable pub factory_handle :
    Option ℕ → Option Bool → Bool → ℕ → Bool → Result Worker → Result Worker
factory_handle handle flags settable buffer_size callable started =
    guards handle buffer_size callable >> set_non_blocking flags settable >>= λ changed. started

pub record Trigger : Type 0 where
  pub running : Bool
  pub worker : Worker

abbrev pub joined : Option (Result (Unit {0})) × Worker → Option (Result (Unit {0}) × Trigger)
joined (none, w) = none
joined (some ended, w) = some (ok tt, record { running = false; worker = w })

-- stop, with whether the byte can be written to the pipe and the answers that epoll_wait gives the
-- thread until it is joined; none where the join waits. The thread logs what it throws, and ends.
module _ (inotify_fd exit_read : ℕ) where
  unfoldable pub stop_trigger : Bool → List Ready → Trigger → Option (Result (Unit {0}) × Trigger)
  stop_trigger written rounds t =
      if not t.running
      then some (ok tt, t)
      else if not written
      then some (err nstl_exception, record t { running = false })
      else joined (worker_loop inotify_fd exit_read rounds t.worker)
