-- ===== src/Signal/Wait/Rounds.antt =====
-- The rounds of a loop over epoll, nstl/nstl/signal_barrier_linux.cpp, with any code for one event.
use nstl.Prelude.{
  ℕ, suc, ◌+◌, ◌<◌, ◌≡◌, refl, sym, ◌∙◌, ◌⊎◌, inl, inr, Bool, true, false, Option, none, some, List,
  [], ◌∷◌, arith, if◌then◌else◌, Bool-cases, Result,
}
use mathlib.Core.Path.{subst}
use nstl.Signal.Wait.{Ready, signalled, broken, events, Pending, event_loop, ready_loop}

-- How many events of the rounds are of a kind, and that epoll_wait does not fail.
module _ (of_kind : ℕ → Bool) where
  abbrev pub mentions : List ℕ → ℕ
  mentions [] = 0
  mentions (fd ∷ fds) = (if of_kind fd then 1 else 0) + mentions fds

  abbrev pub mentions_in : List Ready → ℕ
  mentions_in [] = 0
  mentions_in (signalled ∷ rounds) = mentions_in rounds
  mentions_in (broken ∷ rounds) = mentions_in rounds
  mentions_in (events fds ∷ rounds) = mentions fds + mentions_in rounds

  pub mentions_of_kind :
      (fd : ℕ) (fds : List ℕ) → of_kind fd ≡ true → mentions (fd ∷ fds) ≡ suc (mentions fds)
  mentions_of_kind fd fds k = rw k (omega arith)

  pub mentions_other :
      (fd : ℕ) (fds : List ℕ) → of_kind fd ≡ false → mentions (fd ∷ fds) ≡ mentions fds
  mentions_other fd fds k = rw k (omega arith)

abbrev pub IsSteady : List Ready → Type 0
IsSteady [] = Unit
IsSteady (signalled ∷ rounds) = IsSteady rounds
IsSteady (broken ∷ rounds) = ⊥
IsSteady (events fds ∷ rounds) = IsSteady rounds

module _ {X : Type 0} (handle : ℕ → Pending → Option (Result X) × Pending) where
  event_some :
      (fd : ℕ) (fds : List ℕ) (p : Pending) (value : Result X)
      → (handle fd p).0 ≡ some value
      → (event_loop handle (fd ∷ fds) p).0 ≡ some value
  unfolding event_loop
  event_some fd fds p value e = rw (e, event_loop) refl

  event_none :
      (fd : ℕ) (fds : List ℕ) (p : Pending)
      → (handle fd p).0 ≡ none
      → event_loop handle (fd ∷ fds) p ≡ event_loop handle fds (handle fd p).1
  unfolding event_loop
  event_none fd fds p e = rw (e, event_loop) refl

  round_some :
      (fds : List ℕ) (rounds : List Ready) (p : Pending) (value : Result X)
      → (event_loop handle fds p).0 ≡ some value
      → ready_loop handle (events fds ∷ rounds) p ≡ some value
  unfolding ready_loop
  round_some fds rounds p value e = rw (e, ready_loop) refl

  round_none :
      (fds : List ℕ) (rounds : List Ready) (p : Pending)
      → (event_loop handle fds p).0 ≡ none
      → ready_loop handle (events fds ∷ rounds) p
        ≡ ready_loop handle rounds (event_loop handle fds p).1
  unfolding ready_loop
  round_none fds rounds p e = rw (e, ready_loop) refl

-- An event of the kind returns the value or uses up one of the `n` that may pass without it, and the
-- others pass.
module _ {X : Type 0} (handle : ℕ → Pending → Option (Result X) × Pending) (of_kind : ℕ → Bool)
    (Left : ℕ → Pending → Type 0) (value : Result X)
    (step : (n fd : ℕ) (p : Pending)
      → Left n p
      → of_kind fd ≡ true
      → ((handle fd p).0 ≡ some value)
        ⊎ ((m : ℕ) × (n ≡ suc m) × ((handle fd p).0 ≡ none) × Left m (handle fd p).1))
    (skip : (n fd : ℕ) (p : Pending)
      → Left n p
      → of_kind fd ≡ false
      → ((handle fd p).0 ≡ none) × Left n (handle fd p).1) where
  abbrev Passed : ℕ → ℕ → Option (Result X) × Pending → Type 0
  Passed n count after =
      (after.0 ≡ some value) ⊎ ((m : ℕ) × (m + count ≡ n) × (after.0 ≡ none) × Left m after.1)

  event_loop-Passed :
      (n : ℕ) (fds : List ℕ) (p : Pending)
      → Left n p
      → Passed n (mentions of_kind fds) (event_loop handle fds p)
  unfolding event_loop
  event_loop-Passed n [] p left = inr (n, omega arith, refl, left)
  event_loop-Passed n (fd ∷ fds) p left = elim (Bool-cases (of_kind fd)) [
    | inl k ↦ elim (step n fd p left k) [
      | inl e ↦ inl (event_some handle fd fds p value e)
      | inr (m, one, e, next) ↦
          subst (Passed n (mentions of_kind (fd ∷ fds))) (sym (event_none handle fd fds p e))
            (elim (event_loop-Passed m fds (handle fd p).1 next) [
              | inl f ↦ inl f
              | inr (l, sum, f, last) ↦
                  inr (l, omega (arith, mentions_of_kind of_kind fd fds k), f, last)
            ])
    ]
    | inr k ↦
        let (e, next) = skip n fd p left k in
        subst (Passed n (mentions of_kind (fd ∷ fds))) (sym (event_none handle fd fds p e))
          (elim (event_loop-Passed n fds (handle fd p).1 next) [
            | inl f ↦ inl f
            | inr (l, sum, f, last) ↦
                inr (l, omega (arith, mentions_other of_kind fd fds k), f, last)
          ])
  ]

  pub ready_loop_lem :
      (n : ℕ) (rounds : List Ready) (p : Pending)
      → Left n p
      → IsSteady rounds
      → n < mentions_in of_kind rounds
      → ready_loop handle rounds p ≡ some value
  unfolding ready_loop
  ready_loop_lem n [] p left steady enough = absurd (omega arith)
  ready_loop_lem n (signalled ∷ rounds) p left steady enough =
      ready_loop_lem n rounds p left steady enough
  ready_loop_lem n (broken ∷ rounds) p left steady enough = absurd steady
  ready_loop_lem n (events fds ∷ rounds) p left steady enough =
      elim (event_loop-Passed n fds p left) [
        | inl e ↦ round_some handle fds rounds p value e
        | inr (m, sum, e, next) ↦
            round_none handle fds rounds p e
            ∙ ready_loop_lem m rounds (event_loop handle fds p).1 next steady (omega arith)
      ]
