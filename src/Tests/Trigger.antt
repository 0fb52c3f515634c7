-- ===== src/Tests/Trigger.antt =====
-- A trigger over a file that grows, and its stop.
use nstl.Prelude.{
  suc, ◌≡◌, refl, true, false, some, List, [], ◌∷◌, ◌++◌, arith, nstl_exception, ok, err, codes,
}
use nstl.Signal.Wait.{Ready, signalled, events}
use nstl.Trigger.{
  Read, would_block, interrupted, at_end, got, read_data, drain_inotify, Worker, take_data,
  worker_events, worker_loop, set_non_blocking, start_trigger, factory_file, factory_handle,
  Trigger, stop_trigger,
}
use nstl.Trigger.Reads.{pieces}
use nstl.Trigger.Loop.{visits}
use nstl.Trigger.Stop.{stop_trigger-Stopped}
use nstl.Trigger.Life.{factory_file-stop_trigger}

-- What is there at the start, then two lines behind one event, then one behind another.
abbrev reads : List Read
reads =
    got (codes "old")
    ∷ would_block
    ∷ got (codes "a")
    ∷ interrupted
    ∷ got (codes "b")
    ∷ would_block
    ∷ got (codes "c")
    ∷ at_end
    ∷ got (codes "late")
    ∷ []

-- The inotify file is 4, the pipe 5; the last round has an event behind the exit.
abbrev rounds : List Ready
rounds = signalled ∷ events (4 ∷ []) ∷ events (5 ∷ 4 ∷ []) ∷ events (4 ∷ []) ∷ []

abbrev worker : Worker
worker = record {
  data_reads = got (codes "a") ∷ would_block ∷ got (codes "b") ∷ [];
  inotify_reads = true ∷ false ∷ [];
  delivered = codes "old" ∷ [];
}

runs : (worker_loop 4 5 rounds worker).1.delivered ≡ codes "old" ∷ codes "a" ∷ codes "b" ∷ []
unfolding worker_loop worker_events take_data read_data drain_inotify
runs = refl

stop_trigger-Stopped_example :
    (u : Trigger) × (stop_trigger 4 5 true rounds (record { running = true; worker = worker })
      ≡ some (ok tt, u))
    × (u.running ≡ false)
    × (u.worker.delivered ≡ (codes "old" ∷ []) ++ pieces (visits 4 5 rounds) worker.data_reads)
    × (stop_trigger 4 5 false [] u ≡ some (ok tt, u))
stop_trigger-Stopped_example =
    stop_trigger-Stopped 4 5 rounds [] false (record { running = true; worker = worker }) refl
      (tt, (tt, (tt, tt))) tt refl

factory_file-stop_trigger_example :
    (w : Worker) × (t : Trigger) × (factory_file
        (some 3)
        100
        true
        (start_trigger true true true false reads [])
      ≡ ok w)
    × (stop_trigger 4 5 true rounds (record { running = true; worker = w }) ≡ some (ok tt, t))
    × ((codes "old" ∷ []) ++ t.worker.delivered ≡ pieces (suc (visits 4 5 rounds)) reads)
factory_file-stop_trigger_example =
    factory_file-stop_trigger 4 5 3 100 false reads [] rounds (omega arith) (omega arith)
      (tt, (tt, (tt, (tt, (tt, (tt, (tt, (tt, (tt, tt))))))))) tt refl

refuses :
    factory_handle
      (some 3)
      (some false)
      false
      100
      true
      (start_trigger true true true false reads [])
    ≡ err nstl_exception
unfolding factory_handle set_non_blocking
refuses = refl
