-- ===== src/Signal/Wait/Reads.antt =====
-- The reads of the signal file, nstl/nstl/signal_barrier_linux.cpp.
use nstl.Prelude.{
  ℕ, suc, ◌≡◌, refl, sym, ap, ◌∙◌, ◌⊎◌, inl, inr, true, false, Option, none, some, List, [], ◌∷◌,
  arith, ltb, ◌==◌, if◌then◌else◌, ==_iff, Bool-cases, All, Result, ok, ◌>>=◌,
}
use mathlib.Core.Path.{subst}
use nstl.Signal.{SigVal, from_signal_conv, sigint, sigterm, sigquit, sig_int, sig_term, sig_quit}
use nstl.Signal.Wait.{
  Answer, again, interrupted, failed, got, siginfo_size, is_awaited, read_signal, Pending,
  signal_result, signal_event,
}

-- The reads do not fail and are whole.
abbrev pub IsWhole : ℕ → Answer → Type 0
IsWhole size again = Unit
IsWhole size interrupted = Unit
IsWhole size failed = ⊥
IsWhole size (got n value) = n ≡ size

-- The first awaited signal of the reads, and how many of the reads before it find none pending.
abbrev pub first_awaited : List Answer → Option ℕ
first_awaited [] = none
first_awaited (again ∷ rest) = first_awaited rest
first_awaited (interrupted ∷ rest) = first_awaited rest
first_awaited (failed ∷ rest) = first_awaited rest
first_awaited (got size signo ∷ rest) =
    let later = first_awaited rest in if is_awaited signo then some signo else later

abbrev pub pauses : List Answer → ℕ
pauses [] = 0
pauses (again ∷ rest) = suc (pauses rest)
pauses (interrupted ∷ rest) = pauses rest
pauses (failed ∷ rest) = pauses rest
pauses (got size signo ∷ rest) = let later = pauses rest in if is_awaited signo then 0 else later

-- The signal is the first that is awaited, `n` reads that find nothing stand before it.
abbrev pub Awaits : ℕ → ℕ → List Answer → Type 0
Awaits signo n reads =
    All (IsWhole siginfo_size) reads × (first_awaited reads ≡ some signo) × (pauses reads ≡ n)

module _ (size value : ℕ) (rest : List Answer) where
  read_signal_awaited :
      size ≡ siginfo_size
      → is_awaited value ≡ true
      → read_signal (got size value ∷ rest) ≡ (ok value, rest)
  unfolding read_signal
  read_signal_awaited t a =
      let size_ok : (size == siginfo_size) ≡ true = (==_iff size siginfo_size).1 t in
      simp (size_ok, a) refl

  pub read_signal_other :
      size ≡ siginfo_size
      → is_awaited value ≡ false
      → read_signal (got size value ∷ rest) ≡ read_signal rest
  unfolding read_signal
  read_signal_other t a =
      let size_ok : (size == siginfo_size) ≡ true = (==_iff size siginfo_size).1 t in
      simp (size_ok, a) refl

  pub first_here : is_awaited value ≡ true → first_awaited (got size value ∷ rest) ≡ some value
  first_here a = simp a refl

  pub first_later :
      is_awaited value ≡ false → first_awaited (got size value ∷ rest) ≡ first_awaited rest
  first_later a = simp a refl

  pauses_later : is_awaited value ≡ false → pauses (got size value ∷ rest) ≡ pauses rest
  pauses_later a = simp a refl

abbrev Read : ℕ → ℕ → Result ℕ × List Answer → Type 0
Read signo n after =
    (after.0 ≡ ok signo) ⊎ ((m : ℕ) × (n ≡ suc m) × (after.0 ≡ ok 0) × Awaits signo m after.1)

pub read_signal-Awaits :
    (signo n : ℕ) (reads : List Answer) → Awaits signo n reads → Read signo n (read_signal reads)
unfolding read_signal
read_signal-Awaits signo n [] (whole, first, count) = cc
read_signal-Awaits signo n (again ∷ rest) ((t, whole), first, count) =
    inr (pauses rest, sym count, refl, (whole, first, refl))
read_signal-Awaits signo n (interrupted ∷ rest) ((t, whole), first, count) =
    read_signal-Awaits signo n rest (whole, first, count)
read_signal-Awaits signo n (failed ∷ rest) ((t, whole), first, count) = absurd t
read_signal-Awaits signo n (got size value ∷ rest) ((t, whole), first, count) =
    elim (Bool-cases (is_awaited value)) [
      | inl a ↦
          let e = sym (first_here size value rest a) ∙ first in
          let at : value ≡ signo = cc in
          inl (ap (λ r. r.0) (read_signal_awaited size value rest t a) ∙ ap ok at)
      | inr a ↦ subst (Read signo n) (sym (read_signal_other size value rest t a)) (
          read_signal-Awaits signo n rest (
            whole,
            sym (first_later size value rest a) ∙ first,
            sym (pauses_later size value rest a) ∙ count,
          ))
    ]

-- A read that is not a signal's number passes, and one that is ends the event.
pub signal_event-none :
    {X : Type 0} (wrap : SigVal → X) (p : Pending)
    → (read_signal p.signals).0 ≡ ok 0
    → signal_event wrap p ≡ (none, record p { signals = (read_signal p.signals).1 })
unfolding signal_event
signal_event-none wrap p e =
    ap (λ r. (signal_result wrap r, record p { signals = (read_signal p.signals).1 })) e

pub signal_event-some :
    {X : Type 0} (wrap : SigVal → X) (p : Pending) (signo : ℕ)
    → (read_signal p.signals).0 ≡ ok signo
    → ltb 0 signo ≡ true
    → (signal_event wrap p).0 ≡ some (from_signal_conv signo >>= λ sig. ok (wrap sig))
unfolding signal_event
signal_event-some wrap p signo e positive =
    ap (signal_result wrap) e
    ∙ ap (λ b. if b then some (from_signal_conv signo >>= λ sig. ok (wrap sig)) else none) positive

-- An awaited signal is a number above 0 that converts.
pub is_awaited_cases :
    (signo : ℕ)
    → is_awaited signo ≡ true
    → (ltb 0 signo ≡ true) × (sig : SigVal) × (from_signal_conv signo ≡ ok sig)
unfolding from_signal_conv
is_awaited_cases signo a = elim (Bool-cases (signo == sigint)) [
  | inl e ↦ (ground arith, sig_int, simp e refl)
  | inr d ↦ elim (Bool-cases (signo == sigterm)) [
    | inl e ↦ (ground arith, sig_term, simp (d, e) refl)
    | inr c ↦
        let e : (signo == sigquit) ≡ true = ground arith in
        (ground arith, sig_quit, simp (d, c, e) refl)
  ]
]

pub first_awaited-is_awaited :
    (reads : List Answer) (signo : ℕ) → first_awaited reads ≡ some signo → is_awaited signo ≡ true
first_awaited-is_awaited [] signo e = cc
first_awaited-is_awaited (again ∷ rest) signo e = first_awaited-is_awaited rest signo e
first_awaited-is_awaited (interrupted ∷ rest) signo e = first_awaited-is_awaited rest signo e
first_awaited-is_awaited (failed ∷ rest) signo e = first_awaited-is_awaited rest signo e
first_awaited-is_awaited (got size value ∷ rest) signo e = elim (Bool-cases (is_awaited value)) [
  | inl a ↦
      let f = sym (first_here size value rest a) ∙ e in
      let at : value ≡ signo = cc in ap is_awaited (sym at) ∙ a
  | inr a ↦ first_awaited-is_awaited rest signo (sym (first_later size value rest a) ∙ e)
]
