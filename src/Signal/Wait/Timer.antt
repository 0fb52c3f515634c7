-- ===== src/Signal/Wait/Timer.antt =====
-- wait_for with its timer, nstl/nstl/signal_barrier_linux.cpp.
use nstl.Prelude.{
  ℕ, zero, suc, ◌<◌, ◌≡◌, refl, sym, ap, ◌∙◌, ◌⊎◌, inl, inr, true, false, none, some, List, [], ◌∷◌,
  ◌==◌, if◌then◌else◌, lt→ltb, ==_iff, Bool-cases, All, Result, ok,
}
use mathlib.Core.Path.{subst}
use nstl.Signal.Wait.{
  Answer, again, interrupted, failed, got, siginfo_size, timer_size, is_awaited, read_signal,
  timer_result, read_timer, Pending, signal_event, timer_event, wait_for_event,
}
use nstl.Signal.Wait.Reads.{IsWhole, first_awaited, read_signal_other, first_here, first_later}

-- The timer's reads tell of no expiration, or tell of one behind `n` that do not.
abbrev pub IsSilent : Answer → Type 0
IsSilent again = Unit
IsSilent interrupted = Unit
IsSilent failed = ⊥
IsSilent (got n value) = (n ≡ timer_size) × (value ≡ 0)

abbrev pub Expires : ℕ → List Answer → Type 0
Expires n [] = ⊥
Expires n (interrupted ∷ rest) = Expires n rest
Expires n (failed ∷ rest) = ⊥
Expires zero (again ∷ rest) = ⊥
Expires (suc n) (again ∷ rest) = Expires n rest
Expires zero (got size value ∷ rest) = (size ≡ timer_size) × (0 < value)
Expires (suc n) (got size value ∷ rest) = (size ≡ timer_size) × (value ≡ 0) × Expires n rest

read_timer_whole :
    (size value : ℕ) (rest : List Answer)
    → size ≡ timer_size
    → read_timer (got size value ∷ rest) ≡ (ok value, rest)
unfolding read_timer
read_timer_whole size value rest t =
    let size_ok : (size == timer_size) ≡ true = (==_iff size timer_size).1 t in simp size_ok refl

abbrev pub Quiet : Result ℕ × List Answer → Type 0
Quiet after = (after.0 ≡ ok 0) × All IsSilent after.1

pub read_timer-Quiet : (reads : List Answer) → All IsSilent reads → Quiet (read_timer reads)
unfolding read_timer
read_timer-Quiet [] silent = (refl, tt)
read_timer-Quiet (again ∷ rest) (t, silent) = (refl, silent)
read_timer-Quiet (interrupted ∷ rest) (t, silent) = read_timer-Quiet rest silent
read_timer-Quiet (failed ∷ rest) (t, silent) = absurd t
read_timer-Quiet (got size value ∷ rest) ((t, z), silent) =
    subst Quiet (sym (read_timer_whole size value rest t)) (ap ok z, silent)

abbrev pub Expired : ℕ → Result ℕ × List Answer → Type 0
Expired n after =
    ((value : ℕ) × (after.0 ≡ ok value) × (0 < value))
    ⊎ ((m : ℕ) × (n ≡ suc m) × (after.0 ≡ ok 0) × Expires m after.1)

pub read_timer-Expired :
    (n : ℕ) (reads : List Answer) → Expires n reads → Expired n (read_timer reads)
unfolding read_timer
read_timer-Expired n [] e = absurd e
read_timer-Expired zero (again ∷ rest) e = absurd e
read_timer-Expired (suc n) (again ∷ rest) e = inr (n, refl, refl, e)
read_timer-Expired n (interrupted ∷ rest) e = read_timer-Expired n rest e
read_timer-Expired n (failed ∷ rest) e = absurd e
read_timer-Expired zero (got size value ∷ rest) (t, positive) =
    subst (Expired zero) (sym (read_timer_whole size value rest t)) (inl (value, refl, positive))
read_timer-Expired (suc n) (got size value ∷ rest) (t, z, e) =
    subst (Expired (suc n)) (sym (read_timer_whole size value rest t)) (inr (n, refl, ap ok z, e))

-- No signal that is awaited is pending.
abbrev pub Idle : List Answer → Type 0
Idle reads = All (IsWhole siginfo_size) reads × (first_awaited reads ≡ none)

abbrev pub Idles : Result ℕ × List Answer → Type 0
Idles after = (after.0 ≡ ok 0) × Idle after.1

pub read_signal-Idles : (reads : List Answer) → Idle reads → Idles (read_signal reads)
unfolding read_signal
read_signal-Idles [] idle = (refl, idle)
read_signal-Idles (again ∷ rest) ((t, whole), first) = (refl, (whole, first))
read_signal-Idles (interrupted ∷ rest) ((t, whole), first) = read_signal-Idles rest (whole, first)
read_signal-Idles (failed ∷ rest) ((t, whole), first) = absurd t
read_signal-Idles (got size value ∷ rest) ((t, whole), first) =
    elim (Bool-cases (is_awaited value)) [
      | inl a ↦ let e = sym (first_here size value rest a) ∙ first in cc
      | inr a ↦
          subst Idles (sym (read_signal_other size value rest t a))
            (read_signal-Idles rest (whole, sym (first_later size value rest a) ∙ first))
    ]

pub timer_event-none :
    {X : Type 0} (p : Pending)
    → (read_timer p.timers).0 ≡ ok 0
    → timer_event {X = X} p ≡ (none, record p { timers = (read_timer p.timers).1 })
unfolding timer_event
timer_event-none p e = ap (λ r. (timer_result r, record p { timers = (read_timer p.timers).1 })) e

pub timer_event-some :
    {X : Type 0} (p : Pending) (value : ℕ)
    → (read_timer p.timers).0 ≡ ok value
    → 0 < value
    → (timer_event {X = X} p).0 ≡ some (ok none)
unfolding timer_event
timer_event-some p value e positive =
    ap timer_result e ∙ ap (λ b. if b then some (ok none) else none) (lt→ltb 0 value positive)

-- The three kinds of events of wait_for.
module _ (sfd timer_fd : ℕ) where
  pub event_ours :
      (fd : ℕ) (p : Pending)
      → (fd == sfd) ≡ true
      → wait_for_event sfd timer_fd fd p ≡ signal_event some p
  unfolding wait_for_event
  event_ours fd p k = rw k refl

  pub event_timer :
      (fd : ℕ) (p : Pending)
      → (fd == sfd) ≡ false
      → (fd == timer_fd) ≡ true
      → wait_for_event sfd timer_fd fd p ≡ timer_event p
  unfolding wait_for_event
  event_timer fd p k t = rw (k, t) refl

  pub event_other :
      (fd : ℕ) (p : Pending)
      → (fd == sfd) ≡ false
      → (fd == timer_fd) ≡ false
      → wait_for_event sfd timer_fd fd p ≡ (none, p)
  unfolding wait_for_event
  event_other fd p k t = rw (k, t) refl
