-- ===== src/Signal/Wait/Timed.antt =====
-- What wait_for returns, nstl/nstl/signal_barrier_linux.cpp.
use nstl.Prelude.{
  ℕ, suc, ◌<◌, ◌≡◌, refl, sym, ap, ◌∙◌, ◌⊎◌, inl, inr, true, false, none, some, List, arith, ◌==◌,
  ==_iff, Bool-cases, All, ok, ◌>>=◌,
}
use mathlib.Core.Path.{subst}
use nstl.Signal.{SigVal, from_signal_conv}
use nstl.Signal.Wait.{siginfo_size, Ready, Pending, wait_for_event, wait_for}
use nstl.Signal.Wait.Rounds.{mentions_in, IsSteady, ready_loop_lem}
use nstl.Signal.Wait.Reads.{
  IsWhole, first_awaited, pauses, Awaits, signal_event-none, is_awaited_cases,
  first_awaited-is_awaited,
}
use nstl.Signal.Wait.Ends.{signal_event-Handled}
use nstl.Signal.Wait.Timer.{
  IsSilent, Expires, Idle, read_timer-Quiet, read_timer-Expired, read_signal-Idles,
  timer_event-none, timer_event-some, event_ours, event_timer, event_other,
}

module _ (sfd timer_fd : ℕ) where
  -- The signal is on its way, and the timer is not.
  abbrev Coming : ℕ → ℕ → Pending → Type 0
  Coming signo n p = Awaits signo n p.signals × All IsSilent p.timers

  signal_step :
      (signo n fd : ℕ) (p : Pending)
      → Coming signo n p
      → (fd == sfd) ≡ true
      → ((wait_for_event sfd timer_fd fd p).0
          ≡ some (from_signal_conv signo >>= λ sig. ok (some sig)))
        ⊎ ((m : ℕ) × (n ≡ suc m)
            × ((wait_for_event sfd timer_fd fd p).0 ≡ none)
            × Coming signo m (wait_for_event sfd timer_fd fd p).1)
  signal_step signo n fd p (left, silent) k =
      subst
        (λ after.
          (after.0 ≡ some (from_signal_conv signo >>= λ sig. ok (some sig)))
          ⊎ ((m : ℕ) × (n ≡ suc m) × (after.0 ≡ none) × Coming signo m after.1))
        (sym (event_ours sfd timer_fd fd p k))
        (elim (signal_event-Handled some signo n p left) [
          | inl e ↦ inl e
          | inr (m, one, e, next, kept) ↦
              inr (m, one, e, (next, subst (All IsSilent) (sym kept) silent))
        ])

  signal_skip :
      (signo n fd : ℕ) (p : Pending)
      → Coming signo n p
      → (fd == sfd) ≡ false
      → ((wait_for_event sfd timer_fd fd p).0 ≡ none)
        × Coming signo n (wait_for_event sfd timer_fd fd p).1
  signal_skip signo n fd p (left, silent) k = elim (Bool-cases (fd == timer_fd)) [
    | inl t ↦
        let (e, quiet) = read_timer-Quiet p.timers silent in
        subst (λ after. (after.0 ≡ none) × Coming signo n after.1)
          (sym (event_timer sfd timer_fd fd p k t ∙ timer_event-none p e)) (refl, (left, quiet))
    | inr t ↦
        subst (λ after. (after.0 ≡ none) × Coming signo n after.1)
          (sym (event_other sfd timer_fd fd p k t)) (refl, (left, silent))
  ]

  -- The timer is on its way, and no signal is.
  abbrev Expiring : ℕ → Pending → Type 0
  Expiring n p = Idle p.signals × Expires n p.timers

  timer_step :
      (n fd : ℕ) (p : Pending)
      → (timer_fd == sfd) ≡ false
      → Expiring n p
      → (fd == timer_fd) ≡ true
      → ((wait_for_event sfd timer_fd fd p).0 ≡ some (ok none))
        ⊎ ((m : ℕ) × (n ≡ suc m)
            × ((wait_for_event sfd timer_fd fd p).0 ≡ none)
            × Expiring m (wait_for_event sfd timer_fd fd p).1)
  timer_step n fd p apart (idle, left) t =
      let k = ap (◌== sfd) ((==_iff fd timer_fd).0 t) ∙ apart in
      subst
        (λ after.
          (after.0 ≡ some (ok none))
          ⊎ ((m : ℕ) × (n ≡ suc m) × (after.0 ≡ none) × Expiring m after.1))
        (sym (event_timer sfd timer_fd fd p k t))
        (elim (read_timer-Expired n p.timers left) [
          | inl (value, e, positive) ↦ inl (timer_event-some p value e positive)
          | inr (m, one, e, next) ↦
              subst
                (λ after.
                  (after.0 ≡ some (ok none))
                  ⊎ ((m : ℕ) × (n ≡ suc m) × (after.0 ≡ none) × Expiring m after.1))
                (sym (timer_event-none p e)) (inr (m, one, refl, (idle, next)))
        ])

  timer_skip :
      (n fd : ℕ) (p : Pending)
      → Expiring n p
      → (fd == timer_fd) ≡ false
      → ((wait_for_event sfd timer_fd fd p).0 ≡ none)
        × Expiring n (wait_for_event sfd timer_fd fd p).1
  timer_skip n fd p (idle, left) t = elim (Bool-cases (fd == sfd)) [
    | inl k ↦
        let (e, next) = read_signal-Idles p.signals idle in
        subst (λ after. (after.0 ≡ none) × Expiring n after.1)
          (sym (event_ours sfd timer_fd fd p k ∙ signal_event-none some p e)) (refl, (next, left))
    | inr k ↦
        subst (λ after. (after.0 ≡ none) × Expiring n after.1)
          (sym (event_other sfd timer_fd fd p k t)) (refl, (idle, left))
  ]

-- While epoll_wait does not fail and the reads are whole, wait_for with a positive time-out returns
-- the first awaited signal's value where the timer does not expire and the signal file was ready more
-- often than reads before that signal found nothing.
pub wait_for_signal :
    (timeout sfd timer_fd signo : ℕ) (rounds : List Ready) (p : Pending)
    → 0 < timeout
    → All (IsWhole siginfo_size) p.signals
    → first_awaited p.signals ≡ some signo
    → All IsSilent p.timers
    → IsSteady rounds
    → pauses p.signals < mentions_in (◌== sfd) rounds
    → (sig : SigVal) × (from_signal_conv signo ≡ ok sig)
      × (wait_for timeout true true sfd timer_fd rounds p ≡ some (ok (some sig)))
unfolding wait_for
wait_for_signal timeout sfd timer_fd signo rounds p positive whole first silent steady enough =
    let (above, sig, e) = is_awaited_cases signo (first_awaited-is_awaited p.signals signo first) in
    let given : (timeout == 0) ≡ false = ground arith in
    (
      sig,
      e,
      simp given (
            ready_loop_lem (wait_for_event sfd timer_fd) (◌== sfd) (Coming sfd timer_fd signo)
              (from_signal_conv signo >>= λ s. ok (some s)) (signal_step sfd timer_fd signo)
              (signal_skip sfd timer_fd signo) (pauses p.signals) rounds p
              ((whole, first, refl), silent) steady enough)
          ∙ ap (λ r. some (r >>= λ s. ok (some s))) e,
    )

-- Where epoll_create1 and epoll_ctl succeed, and while epoll_wait does not fail and the reads are whole,
-- wait_for with a positive time-out, whose timer
-- and signal file have different descriptors, returns no signal where the signal file's reads hold none
-- that is awaited, and the timer's reads tell of an expiration behind `n` that tell of none, if the timer
-- was ready more than `n` times.
pub wait_for_timer :
    (timeout sfd timer_fd n : ℕ) (rounds : List Ready) (p : Pending)
    → 0 < timeout
    → (timer_fd == sfd) ≡ false
    → All (IsWhole siginfo_size) p.signals
    → first_awaited p.signals ≡ none
    → Expires n p.timers
    → IsSteady rounds
    → n < mentions_in (◌== timer_fd) rounds
    → wait_for timeout true true sfd timer_fd rounds p ≡ some (ok none)
unfolding wait_for
wait_for_timer timeout sfd timer_fd n rounds p positive apart whole first left steady enough =
    let given : (timeout == 0) ≡ false = ground arith in
    simp given (
      ready_loop_lem (wait_for_event sfd timer_fd) (◌== timer_fd) (Expiring sfd timer_fd) (ok none)
        (λ m fd q. timer_step sfd timer_fd m fd q apart) (timer_skip sfd timer_fd) n rounds p
        ((whole, first), left) steady enough)
