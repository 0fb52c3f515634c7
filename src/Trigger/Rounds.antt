-- ===== src/Trigger/Rounds.antt =====
-- The rounds of a trigger's thread, nstl/nstl/file_trigger_linux.cpp.
use nstl.Prelude.{
  ℕ, ◌+◌, ◌≡◌, refl, sym, ap, ◌∙◌, inl, inr, Bool, true, false, ◌&&◌, ◌||◌, not, List, [], ◌∷◌,
  ◌++◌, arith, ◌==◌, Bool-cases, All, Result, ok,
}
use mathlib.Core.Path.{subst}
use nstl.Signal.Wait.Rounds.{mentions, mentions_of_kind, mentions_other}
use nstl.Trigger.{Worker, take_data, after_data, worker_events}
use nstl.Trigger.Reads.{IsWhole, pieces, Advances, take_data-Advances}

Advances-refl : (w : Worker) → All IsWhole w.data_reads → Advances 0 w w
Advances-refl w whole = (
  λ n. let e : n ≡ 0 + n = omega arith in ap (λ k. w.delivered ++ pieces k w.data_reads) e,
  whole,
)

pub Advances-trans :
    (l m : ℕ) (u v w : Worker) → Advances l u v → Advances m v w → Advances (l + m) u w
Advances-trans l m u v w (first, half) (second, whole) = (
  λ n.
      second n
      ∙ first (m + n)
      ∙ (let e : l + (m + n) ≡ l + m + n = omega arith in
          ap (λ k. u.delivered ++ pieces k u.data_reads) e),
  whole,
)

module _ (inotify_fd exit_read : ℕ) where
  abbrev pub is_data : ℕ → Bool
  is_data fd = fd == inotify_fd

  -- An event of the pipe is among those of a round.
  abbrev pub asks_exit : List ℕ → Bool
  asks_exit [] = false
  asks_exit (fd ∷ fds) = (not (fd == inotify_fd) && fd == exit_read) || asks_exit fds

  abbrev pub Scanned : List ℕ → Bool → Worker → Result Bool × Worker → Type 0
  Scanned fds asked w after =
      (after.0 ≡ ok (asked || asks_exit fds)) × Advances (mentions is_data fds) w after.1

  events_data :
      (fd : ℕ) (fds : List ℕ) (asked : Bool) (w : Worker)
      → (fd == inotify_fd) ≡ true
      → (take_data w).0 ≡ ok tt
      → worker_events inotify_fd exit_read (fd ∷ fds) asked w
        ≡ worker_events inotify_fd exit_read fds asked (take_data w).1
  unfolding worker_events
  events_data fd fds asked w k e = simp k (
      ap
        (λ r.
          after_data (r, (take_data w).1)
            (worker_events inotify_fd exit_read fds asked (take_data w).1))
        e)

  events_exit :
      (fd : ℕ) (fds : List ℕ) (asked : Bool) (w : Worker)
      → (fd == inotify_fd) ≡ false
      → (fd == exit_read) ≡ true
      → worker_events inotify_fd exit_read (fd ∷ fds) asked w
        ≡ worker_events inotify_fd exit_read fds true w
  unfolding worker_events
  events_exit fd fds asked w k e = simp (k, e) refl

  events_other :
      (fd : ℕ) (fds : List ℕ) (asked : Bool) (w : Worker)
      → (fd == inotify_fd) ≡ false
      → (fd == exit_read) ≡ false
      → worker_events inotify_fd exit_read (fd ∷ fds) asked w
        ≡ worker_events inotify_fd exit_read fds asked w
  unfolding worker_events
  events_other fd fds asked w k e = simp (k, e) refl

  asks_data :
      (fd : ℕ) (fds : List ℕ) (asked : Bool)
      → (fd == inotify_fd) ≡ true
      → (asked || asks_exit fds) ≡ (asked || asks_exit (fd ∷ fds))
  asks_data fd fds asked k = simp k refl

  asks_here :
      (fd : ℕ) (fds : List ℕ) (asked : Bool)
      → (fd == inotify_fd) ≡ false
      → (fd == exit_read) ≡ true
      → true ≡ (asked || asks_exit (fd ∷ fds))
  asks_here fd fds true k x = refl
  asks_here fd fds false k x = simp (k, x) refl

  asks_other :
      (fd : ℕ) (fds : List ℕ) (asked : Bool)
      → (fd == inotify_fd) ≡ false
      → (fd == exit_read) ≡ false
      → (asked || asks_exit fds) ≡ (asked || asks_exit (fd ∷ fds))
  asks_other fd fds asked k x = simp (k, x) refl

  or_false : (asked : Bool) → asked ≡ (asked || false)
  or_false true = refl
  or_false false = refl

  more_data :
      (fd : ℕ) (fds : List ℕ) (w later : Worker)
      → (fd == inotify_fd) ≡ true
      → Advances (1 + mentions is_data fds) w later
      → Advances (mentions is_data (fd ∷ fds)) w later
  more_data fd fds w later k =
      let e : 1 + mentions is_data fds ≡ mentions is_data (fd ∷ fds) =
        omega (arith, mentions_of_kind is_data fd fds k) in
      subst (λ m. Advances m w later) e

  same_data :
      (fd : ℕ) (fds : List ℕ) (w later : Worker)
      → (fd == inotify_fd) ≡ false
      → Advances (mentions is_data fds) w later
      → Advances (mentions is_data (fd ∷ fds)) w later
  same_data fd fds w later k =
      subst (λ m. Advances m w later) (sym (mentions_other is_data fd fds k))

  pub worker_events-Scanned :
      (fds : List ℕ) (asked : Bool) (w : Worker)
      → All IsWhole w.data_reads
      → Scanned fds asked w (worker_events inotify_fd exit_read fds asked w)
  unfolding worker_events
  worker_events-Scanned [] asked w whole = (ap ok (or_false asked), Advances-refl w whole)
  worker_events-Scanned (fd ∷ fds) asked w whole = elim (Bool-cases (fd == inotify_fd)) [
    | inl k ↦
        let (e, one) = take_data-Advances w whole in
        let (done, rest) = worker_events-Scanned fds asked (take_data w).1 one.1 in
        subst (Scanned (fd ∷ fds) asked w) (sym (events_data fd fds asked w k e)) (
          done ∙ ap ok (asks_data fd fds asked k),
          more_data fd fds w (worker_events inotify_fd exit_read fds asked (take_data w).1).1 k (
              Advances-trans 1 (mentions is_data fds) w (take_data w).1
                (worker_events inotify_fd exit_read fds asked (take_data w).1).1 one rest),
        )
    | inr k ↦ elim (Bool-cases (fd == exit_read)) [
      | inl x ↦
          let (done, rest) = worker_events-Scanned fds true w whole in
          subst (Scanned (fd ∷ fds) asked w) (sym (events_exit fd fds asked w k x)) (
            done ∙ ap ok (asks_here fd fds asked k x),
            same_data fd fds w (worker_events inotify_fd exit_read fds true w).1 k rest,
          )
      | inr x ↦
          let (done, rest) = worker_events-Scanned fds asked w whole in
          subst (Scanned (fd ∷ fds) asked w) (sym (events_other fd fds asked w k x)) (
            done ∙ ap ok (asks_other fd fds asked k x),
            same_data fd fds w (worker_events inotify_fd exit_read fds asked w).1 k rest,
          )
    ]
  ]
