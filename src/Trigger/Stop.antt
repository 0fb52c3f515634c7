-- ===== src/Trigger/Stop.antt =====
-- The stop of a trigger, nstl/nstl/file_trigger_linux.cpp.
use nstl.Prelude.{
  ℕ, ◌+◌, ◌≡◌, refl, sym, ap, ◌∙◌, Bool, true, false, Option, none, some, List, ◌++◌, append-nil,
  arith, All, Result, ok,
}
use nstl.Signal.Wait.{Ready}
use nstl.Signal.Wait.Rounds.{IsSteady}
use nstl.Trigger.{Worker, worker_loop, Trigger, joined, stop_trigger}
use nstl.Trigger.Reads.{IsWhole, pieces}
use nstl.Trigger.Loop.{visits, asks_exit_in, Ended, worker_loop-Ended}

module _ (inotify_fd exit_read : ℕ) where
  -- The stop of a trigger that runs, and of one that does not.
  abbrev pub Stopped : List Ready → Worker → Option (Result (Unit {0}) × Trigger) → Type 0
  Stopped rounds w after =
      (t : Trigger) × (after ≡ some (ok tt, t))
      × (t.running ≡ false)
      × (t.worker.delivered
          ≡ w.delivered ++ pieces (visits inotify_fd exit_read rounds) w.data_reads)

  joined-Stopped :
      (rounds : List Ready) (w : Worker) (after : Option (Result (Unit {0})) × Worker)
      → Ended inotify_fd exit_read rounds w after
      → Stopped rounds w (joined after)
  joined-Stopped rounds w (none, last) (ended, (some_data, whole)) = cc
  joined-Stopped rounds w (some r, last) (ended, (some_data, whole)) =
      let zeros : visits inotify_fd exit_read rounds + 0 ≡ visits inotify_fd exit_read rounds =
        omega arith in
      (
        record { running = false; worker = last },
        refl,
        refl,
        sym (append-nil last.delivered)
            ∙ some_data 0
            ∙ ap (λ k. w.delivered ++ pieces k w.data_reads) zeros,
      )

  stop_running :
      (rounds : List Ready) (t : Trigger)
      → t.running ≡ true
      → stop_trigger inotify_fd exit_read true rounds t
        ≡ joined (worker_loop inotify_fd exit_read rounds t.worker)
  unfolding stop_trigger
  stop_running rounds t r = simp r refl

  stop_again :
      (written : Bool) (rounds : List Ready) (t : Trigger)
      → t.running ≡ false
      → stop_trigger inotify_fd exit_read written rounds t ≡ some (ok tt, t)
  unfolding stop_trigger
  stop_again written rounds t r = simp r refl

  -- While no read and no epoll_wait fails and the pipe's event comes behind the byte that stop writes,
  -- stop ends the thread and returns. The callback got, in order and once each, the data that was there
  -- at each event of the inotify file until the end of the round that brought the exit, events behind
  -- the exit in that round included. A later stop returns at once and changes nothing.
  pub stop_trigger-Stopped :
      (rounds again : List Ready) (written : Bool) (t : Trigger)
      → t.running ≡ true
      → All IsWhole t.worker.data_reads
      → IsSteady rounds
      → asks_exit_in inotify_fd exit_read rounds ≡ true
      → (u : Trigger) × (stop_trigger inotify_fd exit_read true rounds t ≡ some (ok tt, u))
        × (u.running ≡ false)
        × (u.worker.delivered
            ≡ t.worker.delivered ++ pieces (visits inotify_fd exit_read rounds) t.worker.data_reads)
        × (stop_trigger inotify_fd exit_read written again u ≡ some (ok tt, u))
  stop_trigger-Stopped rounds again written t r whole steady asks =
      let (u, e, ended, got_all) =
        joined-Stopped rounds t.worker (worker_loop inotify_fd exit_read rounds t.worker)
          (worker_loop-Ended inotify_fd exit_read rounds t.worker steady whole asks) in
      (u, stop_running rounds t r ∙ e, ended, got_all, stop_again written again u ended)
