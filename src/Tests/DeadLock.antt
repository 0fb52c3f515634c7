-- ===== src/Tests/DeadLock.antt =====
-- A check of three threads, of which one is late and one is gone.
use nstl.Prelude.{zero, suc, ◌≡◌, refl, ◌↔◌, true, none, some, [], ◌∷◌}
use nstl.DeadLock.{Elapsed, DeadLockChecker, check_loop, check}
use nstl.DeadLock.Check.{live, IsLate, check_lem}

abbrev times : Elapsed
times zero = some 5
times (suc zero) = none
times (suc (suc n)) = some 100

abbrev three : DeadLockChecker
three = record { timeout = 50; items = 0 ∷ 1 ∷ 2 ∷ []; running = true }

alerts : check times three ≡ (record three { items = 0 ∷ 2 ∷ [] }, true)
unfolding check check_loop
alerts = refl

check_lem_example :
    (((check times three).1 ≡ true) ↔ IsLate times 50 (0 ∷ 1 ∷ 2 ∷ []))
    × ((check times three).0 ≡ record three { items = live times (0 ∷ 1 ∷ 2 ∷ []) })
check_lem_example = check_lem times three
