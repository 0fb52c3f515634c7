-- ===== src/Trigger/Loop.antt =====
-- The loop of a trigger's thread, nstl/nstl/file_trigger_linux.cpp.
use nstl.Prelude.{
  ℕ, ◌+◌, ◌≡◌, refl, sym, ap, ◌∙◌, inl, inr, Bool, true, false, ◌||◌, Option, some, List, [], ◌∷◌,
  arith, if◌then◌else◌, Bool-cases, All, Result, ok,
}
use mathlib.Core.Path.{subst}
use nstl.Signal.Wait.{Ready, signalled, broken, events}
use nstl.Signal.Wait.Rounds.{IsSteady, mentions}
use nstl.Trigger.{Worker, worker_events, after_round, worker_loop}
use nstl.Trigger.Reads.{IsWhole, Advances}
use nstl.Trigger.Rounds.{is_data, asks_exit, worker_events-Scanned, Advances-trans}

module _ (inotify_fd exit_read : ℕ) where
  abbrev pub asks_exit_in : List Ready → Bool
  asks_exit_in [] = false
  asks_exit_in (signalled ∷ rounds) = asks_exit_in rounds
  asks_exit_in (broken ∷ rounds) = asks_exit_in rounds
  asks_exit_in (events fds ∷ rounds) = asks_exit inotify_fd exit_read fds || asks_exit_in rounds

  -- The events of the inotify file up to the end of the first round that asks for the exit.
  abbrev pub visits : List Ready → ℕ
  visits [] = 0
  visits (signalled ∷ rounds) = visits rounds
  visits (broken ∷ rounds) = visits rounds
  visits (events fds ∷ rounds) =
      let rest = visits rounds in
      mentions (is_data inotify_fd exit_read) fds
      + (if asks_exit inotify_fd exit_read fds then 0 else rest)

  round_exit :
      (fds : List ℕ) (rounds : List Ready) (w : Worker) (asked : Bool)
      → (worker_events inotify_fd exit_read fds false w).0 ≡ ok asked
      → worker_loop inotify_fd exit_read (events fds ∷ rounds) w
        ≡ after_round
            (ok asked, (worker_events inotify_fd exit_read fds false w).1)
            (worker_loop inotify_fd exit_read rounds
              (worker_events inotify_fd exit_read fds false w).1)
  unfolding worker_loop
  round_exit fds rounds w asked e =
      let after = (worker_events inotify_fd exit_read fds false w).1 in
      ap (λ r. after_round (r, after) (worker_loop inotify_fd exit_read rounds after)) e

  -- The thread ends where a round asks for the exit, and has taken a piece for each event of the
  -- inotify file until then.
  abbrev pub Ended : List Ready → Worker → Option (Result (Unit {0})) × Worker → Type 0
  Ended rounds w after = (after.0 ≡ some (ok tt)) × Advances (visits rounds) w after.1

  visits_exit :
      (fds : List ℕ) (rounds : List Ready)
      → asks_exit inotify_fd exit_read fds ≡ true
      → mentions (is_data inotify_fd exit_read) fds ≡ visits (events fds ∷ rounds)
  visits_exit fds rounds x =
      let e : mentions (is_data inotify_fd exit_read) fds
          ≡ mentions (is_data inotify_fd exit_read) fds + 0 =
        omega arith in
      e
      ∙ ap (λ b. mentions (is_data inotify_fd exit_read) fds + (if b then 0 else visits rounds))
          (sym x)

  visits_more :
      (fds : List ℕ) (rounds : List Ready)
      → asks_exit inotify_fd exit_read fds ≡ false
      → mentions (is_data inotify_fd exit_read) fds + visits rounds ≡ visits (events fds ∷ rounds)
  visits_more fds rounds x =
      ap (λ b. mentions (is_data inotify_fd exit_read) fds + (if b then 0 else visits rounds))
        (sym x)

  pub worker_loop-Ended :
      (rounds : List Ready) (w : Worker)
      → IsSteady rounds
      → All IsWhole w.data_reads
      → asks_exit_in rounds ≡ true
      → Ended rounds w (worker_loop inotify_fd exit_read rounds w)
  unfolding worker_loop
  worker_loop-Ended [] w steady whole asks = cc
  worker_loop-Ended (signalled ∷ rounds) w steady whole asks =
      worker_loop-Ended rounds w steady whole asks
  worker_loop-Ended (broken ∷ rounds) w steady whole asks = absurd steady
  worker_loop-Ended (events fds ∷ rounds) w steady whole asks =
      let (done, some_data) = worker_events-Scanned inotify_fd exit_read fds false w whole in
      let after = (worker_events inotify_fd exit_read fds false w).1 in
      elim (Bool-cases (asks_exit inotify_fd exit_read fds)) [
        | inl x ↦
            subst (Ended (events fds ∷ rounds) w)
              (sym (round_exit fds rounds w true (done ∙ ap ok x)))
              (refl, subst (λ m. Advances m w after) (visits_exit fds rounds x) some_data)
        | inr x ↦
            let (ended, rest) =
              worker_loop-Ended rounds after steady some_data.1
                (ap (λ b. b || asks_exit_in rounds) (sym x) ∙ asks) in
            let last = (worker_loop inotify_fd exit_read rounds after).1 in
            subst (Ended (events fds ∷ rounds) w)
              (sym (round_exit fds rounds w false (done ∙ ap ok x)))
              (
                ended,
                subst (λ m. Advances m w last) (visits_more fds rounds x)
                    (Advances-trans (mentions (is_data inotify_fd exit_read) fds) (visits rounds) w
                      after last some_data rest),
              )
      ]
