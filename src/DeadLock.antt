-- ===== src/DeadLock.antt =====
-- The watch over threads, nstl/nstl/dead_lock_detect.cpp. A thread's executor is known by its
-- address; what lock() and elapsed() of an item give is an argument: `none` where the executor is
-- gone, and else the nanoseconds since its last bump, as the clock reads then.
pub mod Check
use nstl.Prelude.{
  ℕ, zero, suc, ◌+◌, ◌-◌, ◌*◌, ◌/◌, ◌%◌, ◌^◌, ◌≤◌, ◌<◌, min, ◌≡◌, refl, sym, ap, ◌∙◌, ◌≢◌, ◌↔◌, ◌⊎◌,
  inl, inr, Bool, true, false, ◌&&◌, ◌||◌, not, Option, none, some, List, [], ◌∷◌, ◌++◌, map,
  append-nil, append_assoc, arith, ltb, leb, ◌==◌, if◌then◌else◌, ltb→lt, lt→ltb, leb→le, le→leb,
  ==_iff, tests, Bool-cases, Option-cases, all_below, all_below_sound, length, get_elem?, take,
  drop, replicate, length-append, take-append-drop, length-take, length-drop, length-replicate,
  take-append, drop-append, take-append_of_le, take-append_of_ge, append-replicate, take_of_ge,
  drop_of_ge, length-map, All, All-append, Exception, nstl_exception, length_error, bad_alloc,
  runtime_error, out_of_range, invalid_argument, Result, ok, err, ◌>>=◌, ◌>>◌, throw_if, >>=-eq-ok,
  Result-cases, get_elem?_of_lt, nil_of_length, find, c_string, codes, drop_next,
}

-- A duration as the source passes it, which may be negative.
pub data Nanoseconds : Type 0 where
  nanoseconds negative : ℕ → Nanoseconds

pub record DeadLockChecker : Type 0 where
  pub timeout : ℕ
  pub items : List ℕ
  pub running : Bool

abbrev pub Elapsed : Type 0
Elapsed = ℕ → Option ℕ

-- The constructor; `has_alerter` tells whether the function is not empty.
unfoldable pub construct_checker : Nanoseconds → Bool → Result DeadLockChecker
construct_checker (negative n) has_alerter = err nstl_exception
construct_checker (nanoseconds n) has_alerter = do
  throw_if (n == 0) nstl_exception
  throw_if (not has_alerter) nstl_exception
  ok (record { timeout = n; items = []; running = false })

-- The loop of `_check`: the items that stay, and whether one of them is late.
unfoldable pub check_loop : Elapsed → ℕ → List ℕ → List ℕ × Bool
check_loop elapsed timeout [] = ([], false)
check_loop elapsed timeout (item ∷ items) =
    let rest = check_loop elapsed timeout items in
    elim (elapsed item) [ none ↦ rest | some time ↦ (item ∷ rest.0, ltb timeout time || rest.1) ]

-- check(), and whether it calls the alerter; a round of runner() behind its wait does the same.
unfoldable pub check : Elapsed → DeadLockChecker → DeadLockChecker × Bool
check elapsed c =
    let res = check_loop elapsed c.timeout c.items in (record c { items = res.0 }, res.1)

-- The address is that of the new executor.
unfoldable pub add_checked_thread : ℕ → DeadLockChecker → DeadLockChecker
add_checked_thread executor c = record c { items = c.items ++ executor ∷ [] }

-- stop(), and whether it wakes the runner.
unfoldable pub stop : DeadLockChecker → DeadLockChecker × Bool
stop c = (record c { running = false }, c.running)

unfoldable pub empty : DeadLockChecker → Bool
empty c = length c.items == 0
