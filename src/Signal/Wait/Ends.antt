-- ===== src/Signal/Wait/Ends.antt =====
-- Where a signal or the timer ends the waiting, nstl/nstl/signal_barrier_linux.cpp.
use nstl.Prelude.{
  ℕ, suc, ◌<◌, ◌≡◌, refl, sym, ap, ◌∙◌, ◌⊎◌, inl, inr, true, false, Option, none, some, List, ◌==◌,
  All, Result, ok, ◌>>=◌,
}
use mathlib.Core.Path.{subst}
use nstl.Signal.{SigVal, from_signal_conv}
use nstl.Signal.Wait.{siginfo_size, Ready, Pending, ready_loop, signal_event, wait_event, wait}
use nstl.Signal.Wait.Rounds.{mentions_in, IsSteady, ready_loop_lem}
use nstl.Signal.Wait.Reads.{
  IsWhole, first_awaited, pauses, Awaits, read_signal-Awaits, signal_event-none, signal_event-some,
  is_awaited_cases, first_awaited-is_awaited,
}

-- An event of the signal file while a signal is on its way.
abbrev pub Handled :
    {X : Type 0} → (SigVal → X) → ℕ → ℕ → Pending → Option (Result X) × Pending → Type 0
Handled wrap signo n p after =
    (after.0 ≡ some (from_signal_conv signo >>= λ sig. ok (wrap sig)))
    ⊎ ((m : ℕ) × (n ≡ suc m)
        × (after.0 ≡ none)
        × Awaits signo m after.1.signals
        × (after.1.timers ≡ p.timers))

pub signal_event-Handled :
    {X : Type 0} (wrap : SigVal → X) (signo n : ℕ) (p : Pending)
    → Awaits signo n p.signals
    → Handled wrap signo n p (signal_event wrap p)
signal_event-Handled wrap signo n p left = elim (read_signal-Awaits signo n p.signals left) [
  | inl e ↦ inl (
      signal_event-some wrap p signo e
        (is_awaited_cases signo (first_awaited-is_awaited p.signals signo left.1)).0)
  | inr (m, one, e, next) ↦
      subst (Handled wrap signo n p) (sym (signal_event-none wrap p e))
        (inr (m, one, refl, next, refl))
]

module _ (sfd signo : ℕ) where
  wait_event_ours :
      (fd : ℕ) (p : Pending)
      → (fd == sfd) ≡ true
      → wait_event sfd fd p ≡ signal_event (λ sig. sig) p
  unfolding wait_event
  wait_event_ours fd p k = rw k refl

  wait_event_other : (fd : ℕ) (p : Pending) → (fd == sfd) ≡ false → wait_event sfd fd p ≡ (none, p)
  unfolding wait_event
  wait_event_other fd p k = rw k refl

  wait_loop :
      (n : ℕ) (rounds : List Ready) (p : Pending)
      → Awaits signo n p.signals
      → IsSteady rounds
      → n < mentions_in (◌== sfd) rounds
      → ready_loop (wait_event sfd) rounds p ≡ some (from_signal_conv signo >>= λ sig. ok sig)
  wait_loop =
      ready_loop_lem (wait_event sfd) (◌== sfd) (λ n p. Awaits signo n p.signals)
        (from_signal_conv signo >>= λ sig. ok sig)
        (λ n fd p left k.
          subst
            (λ after.
              (after.0 ≡ some (from_signal_conv signo >>= λ sig. ok sig))
              ⊎ ((m : ℕ) × (n ≡ suc m) × (after.0 ≡ none) × Awaits signo m after.1.signals))
            (sym (wait_event_ours fd p k))
            (elim (signal_event-Handled (λ sig. sig) signo n p left) [
              | inl e ↦ inl e
              | inr (m, one, e, next, kept) ↦ inr (m, one, e, next)
            ]))
        (λ n fd p left k.
          subst (λ after. (after.0 ≡ none) × Awaits signo n after.1.signals)
            (sym (wait_event_other fd p k)) (refl, left))

-- Where epoll_create1 and epoll_ctl succeed, and while epoll_wait does not fail, the signal file's reads
-- are whole and a signal that is awaited is among them, wait returns the first such signal's value once
-- the signal file was ready more often than reads before that signal found nothing. Signals that are
-- not awaited and interrupts are passed.
pub wait_ends :
    (sfd signo : ℕ) (rounds : List Ready) (p : Pending)
    → All (IsWhole siginfo_size) p.signals
    → first_awaited p.signals ≡ some signo
    → IsSteady rounds
    → pauses p.signals < mentions_in (◌== sfd) rounds
    → (sig : SigVal) × (from_signal_conv signo ≡ ok sig)
      × (wait true true sfd rounds p ≡ some (ok sig))
unfolding wait
wait_ends sfd signo rounds p whole first steady enough =
    let (positive, sig, e) =
      is_awaited_cases signo (first_awaited-is_awaited p.signals signo first) in
    (
      sig,
      e,
      wait_loop sfd signo (pauses p.signals) rounds p (whole, first, refl) steady enough
          ∙ ap (λ r. some (r >>= λ s. ok s)) e,
    )
