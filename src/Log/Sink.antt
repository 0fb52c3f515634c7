-- ===== src/Log/Sink.antt =====
-- OstreamLog of nstl/nstl/logger.cpp: lines go through a queue to a thread that writes them. The
-- queue (concurrent_bounded_queue of oneTBB) is an argument; an empty item asks the thread to end.
pub mod Worker
pub mod Delivery
use nstl.Prelude.{
  ℕ, zero, suc, ◌+◌, ◌-◌, ◌*◌, ◌/◌, ◌%◌, ◌^◌, ◌≤◌, ◌<◌, min, ◌≡◌, refl, sym, ap, ◌∙◌, ◌≢◌, ◌↔◌, ◌⊎◌,
  inl, inr, Bool, true, false, ◌&&◌, ◌||◌, not, Option, none, some, List, [], ◌∷◌, ◌++◌, map,
  append-nil, append_assoc, arith, ltb, leb, ◌==◌, if◌then◌else◌, ltb→lt, lt→ltb, leb→le, le→leb,
  ==_iff, tests, Bool-cases, Option-cases, all_below, all_below_sound, length, get_elem?, take,
  drop, replicate, length-append, take-append-drop, length-take, length-drop, length-replicate,
  take-append, drop-append, take-append_of_le, take-append_of_ge, append-replicate, take_of_ge,
  drop_of_ge, length-map, All, All-append, Exception, nstl_exception, length_error, bad_alloc,
  runtime_error, out_of_range, invalid_argument, Result, ok, err, ◌>>=◌, ◌>>◌, throw_if, >>=-eq-ok,
  Result-cases, get_elem?_of_lt, nil_of_length, find, c_string, codes, drop_next,
}
use nstl.Log.{Values, value, below_zero}

-- A std::ptrdiff_t: a number, or one less its negation for one below 0.
pub data PtrDiff : Type 0 where
  surplus deficit : ℕ → PtrDiff

abbrev pub less : PtrDiff → PtrDiff → Bool
less (surplus m) (surplus n) = ltb m n
less (surplus m) (deficit n) = false
less (deficit m) (surplus n) = true
less (deficit m) (deficit n) = ltb n m

-- `pop` is `none` where the call would wait; the argument of `size` tells whether a call waits.
pub record BoundedQueue : Type 1 where
  pub Queue : Type 0
  pub empty : Queue
  pub emplace : Option (List ℕ) → Queue → Queue
  pub pop : Queue → Option (Option (List ℕ) × Queue)
  pub size : Queue → Bool → PtrDiff

-- The number of pushes less that of pops, a waiting one included.
abbrev pub difference : ℕ → Bool → PtrDiff
difference n false = surplus n
difference zero true = deficit 0
difference (suc n) true = surplus n

-- What the documentation says of the queue: first in, first out.
pub record QueueLaws (lib : BoundedQueue) : Type 1 where
  pub contents : lib.Queue → List (Option (List ℕ))
  pub contents-empty : contents lib.empty ≡ []
  pub contents-emplace :
      (item : Option (List ℕ)) (q : lib.Queue)
      → contents (lib.emplace item q) ≡ contents q ++ item ∷ []
  pub pop_first :
      (q : lib.Queue) (item : Option (List ℕ)) (items : List (Option (List ℕ)))
      → contents q ≡ item ∷ items
      → (rest : lib.Queue) × (lib.pop q ≡ some (item, rest)) × (contents rest ≡ items)
  pub pop_empty : (q : lib.Queue) → contents q ≡ [] → lib.pop q ≡ none
  pub size_contents :
      (q : lib.Queue) (waiting : Bool)
      → lib.size q waiting ≡ difference (length (contents q)) waiting

abbrev pub is_terminate : Values → Bool
is_terminate (value n) = n == 4
is_terminate (below_zero n) = false

module _ (lib : BoundedQueue) where
  -- `written` is what the stream got, `waiting` tells whether the thread waits in pop, and `finished`
  -- whether it has returned.
  pub record OstreamLog : Type 0 where
    pub queue : lib.Queue
    pub running : Bool
    pub throttle_size : PtrDiff
    pub written : List (List ℕ)
    pub waiting : Bool
    pub finished : Bool

  -- The constructor, which starts the thread; the throttle is the largest ptrdiff_t.
  abbrev pub started : OstreamLog
  started = record {
    queue = lib.empty;
    running = true;
    throttle_size = surplus (2 ^ 63 - 1);
    written = [];
    waiting = false;
    finished = false;
  }

  -- A round of the loop of `worker`: while the queue is empty, the thread waits in pop.
  unfoldable pub work : OstreamLog → OstreamLog
  work s = elim (lib.pop s.queue) [
    | none ↦ record s { waiting = true }
    | some (item, rest) ↦ elim item [
      | none ↦ record s { queue = rest; waiting = false; finished = true }
      | some line ↦ record s { queue = rest; waiting = false; written = s.written ++ line ∷ [] }
    ]
  ]

  -- join: the thread runs until it returns; the fuel, two more than the queue's size, is above the number
  -- of items.
  unfoldable pub join_worker : ℕ → OstreamLog → OstreamLog
  join_worker zero s = s
  join_worker (suc fuel) s = if s.finished then s else join_worker fuel (work s)

  abbrev pub rounds : PtrDiff → ℕ
  rounds (surplus n) = n + 2
  rounds (deficit n) = 1

  unfoldable pub stop_log : OstreamLog → OstreamLog × Bool
  stop_log s =
      let asked : OstreamLog = record s { running = false; queue = lib.emplace none s.queue } in
      if s.running
      then (join_worker (rounds (lib.size asked.queue s.waiting)) asked, true)
      else (s, false)

  -- `push`, and whether it ends the process behind the stop.
  unfoldable pub push_line : OstreamLog → Values → List ℕ → OstreamLog × Bool
  push_line s level line =
      let queued : OstreamLog = record s { queue = lib.emplace (some line) s.queue } in
      if less s.throttle_size (lib.size s.queue s.waiting)
      then (s, false)
      else if is_terminate level
      then ((stop_log queued).0, true)
      else (queued, false)
