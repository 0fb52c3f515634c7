-- ===== src/Tests/Sink.antt =====
-- A run of a log with its thread, with a list for the queue.
use nstl.Prelude.{ℕ, ◌≡◌, refl, ap, true, Option, none, some, List, [], ◌∷◌, ◌++◌, length, codes}
use nstl.Log.{value}
use nstl.Log.Sink.{
  BoundedQueue, QueueLaws, difference, started, work, join_worker, stop_log, push_line,
}
use nstl.Log.Sink.Delivery.{Event, pushed, worked, run, accepted, stop-run}

abbrev Items : Type 0
Items = List (Option (List ℕ))

abbrev pop_list : Items → Option (Option (List ℕ) × Items)
pop_list [] = none
pop_list (item ∷ items) = some (item, items)

abbrev list_queue : BoundedQueue
list_queue = record {
  Queue = Items;
  empty = [];
  emplace = λ item q. q ++ item ∷ [];
  pop = pop_list;
  size = λ q waiting. difference (length q) waiting;
}

abbrev list_queue_laws : QueueLaws list_queue
list_queue_laws = record {
  contents = λ q. q;
  contents-empty = refl;
  contents-emplace = λ item q. refl;
  pop_first = λ q item items e. (items, ap pop_list e, refl);
  pop_empty = λ q e. ap pop_list e;
  size_contents = λ q waiting. refl;
}

abbrev events : List Event
events =
    pushed (value 1) (codes "a")
    ∷ worked
    ∷ pushed (value 2) (codes "b")
    ∷ worked
    ∷ worked
    ∷ pushed (value 0) (codes "c")
    ∷ []

writes :
    (stop_log list_queue (run list_queue list_queue_laws events (started list_queue))).0.written
    ≡ codes "a" ∷ codes "b" ∷ codes "c" ∷ []
unfolding stop_log join_worker work push_line
writes = refl

stop-run_example :
    ((stop_log list_queue (run list_queue list_queue_laws events (started list_queue))).0.written
      ≡ accepted list_queue list_queue_laws events (started list_queue))
    × ((stop_log list_queue (run list_queue list_queue_laws events (started list_queue))).0.finished
        ≡ true)
stop-run_example =
    stop-run list_queue list_queue_laws events (started list_queue) [] (refl, (refl, (refl, tt)))
      (refl, refl, refl)
