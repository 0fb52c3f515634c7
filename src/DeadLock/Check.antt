-- ===== src/DeadLock/Check.antt =====
-- What a check of nstl/nstl/dead_lock_detect.cpp reports and keeps.
use nstl.Prelude.{
  ℕ, ◌<◌, ◌≡◌, refl, ap, ◌↔◌, inl, inr, true, Option, none, some, List, [], ◌∷◌, ◌++◌, arith, ltb,
  ltb→lt, Bool-cases, Option-cases,
}
use nstl.DeadLock.{Elapsed, DeadLockChecker, check_loop, check}

abbrev with_live : ℕ → Option ℕ → List ℕ → List ℕ
with_live item none items = items
with_live item (some time) items = item ∷ items

-- The items whose executors are there, in their order.
abbrev pub live : Elapsed → List ℕ → List ℕ
live elapsed [] = []
live elapsed (item ∷ items) = with_live item (elapsed item) (live elapsed items)

-- An item among them was not bumped for longer than the timeout.
abbrev pub IsLate : Elapsed → ℕ → List ℕ → Type 0
IsLate elapsed timeout items =
    (before : List ℕ) × (item : ℕ) × (after : List ℕ) × (time : ℕ) × (items
      ≡ before ++ item ∷ after)
    × (elapsed item ≡ some time)
    × (timeout < time)

check_loop-live :
    (elapsed : Elapsed) (timeout : ℕ) (items : List ℕ)
    → (check_loop elapsed timeout items).0 ≡ live elapsed items
unfolding check_loop
check_loop-live elapsed timeout [] = refl
check_loop-live elapsed timeout (item ∷ items) = elim (Option-cases (elapsed item)) [
  | inl e ↦ rw (e, check_loop) (check_loop-live elapsed timeout items)
  | inr (time, e) ↦ rw (e, check_loop) (ap (λ l. item ∷ l) (check_loop-live elapsed timeout items))
]

IsLate-later :
    {elapsed : Elapsed} {timeout : ℕ} (item : ℕ) {items : List ℕ}
    → IsLate elapsed timeout items
    → IsLate elapsed timeout (item ∷ items)
IsLate-later item (before, late, after, time, e, t, h) =
    (item ∷ before, late, after, time, ap (λ l. item ∷ l) e, t, h)

check_loop_sound :
    (elapsed : Elapsed) (timeout : ℕ) (items : List ℕ)
    → (check_loop elapsed timeout items).1 ≡ true
    → IsLate elapsed timeout items
unfolding check_loop
check_loop_sound elapsed timeout [] h = cc
check_loop_sound elapsed timeout (item ∷ items) h = elim (Option-cases (elapsed item)) [
  | inl e ↦ IsLate-later item (check_loop_sound elapsed timeout items (ground (arith, e)))
  | inr (time, e) ↦ elim (Bool-cases (ltb timeout time)) [
    | inl late ↦ ([], item, items, time, refl, e, ltb→lt timeout time late)
    | inr early ↦
        IsLate-later item (check_loop_sound elapsed timeout items (ground (arith, e, early)))
  ]
]

check_loop_complete :
    (elapsed : Elapsed) (timeout : ℕ) (before : List ℕ) (item : ℕ) (after : List ℕ) (time : ℕ)
    → elapsed item ≡ some time
    → timeout < time
    → (check_loop elapsed timeout (before ++ item ∷ after)).1 ≡ true
unfolding check_loop
check_loop_complete elapsed timeout [] item after time e h = ground (arith, e)
check_loop_complete elapsed timeout (b ∷ before) item after time e h =
    let rest = check_loop_complete elapsed timeout before item after time e h in
    elim (Option-cases (elapsed b)) [
      | inl f ↦ rw f rest
      | inr (t, f) ↦ elim (Bool-cases (ltb timeout t)) [
        | inl late ↦ rw (f, late) refl
        | inr early ↦ rw (f, early) rest
      ]
    ]

-- A check alerts exactly if a thread that is still there was not bumped for longer than the timeout,
-- and drops exactly the items of the threads that are gone.
pub check_lem :
    (elapsed : Elapsed) (c : DeadLockChecker)
    → (((check elapsed c).1 ≡ true) ↔ IsLate elapsed c.timeout c.items)
      × ((check elapsed c).0 ≡ record c { items = live elapsed c.items })
unfolding check
check_lem elapsed c = (
  (
    check_loop_sound elapsed c.timeout c.items,
    (λ (before, item, after, time, e, t, h).
        rw e (check_loop_complete elapsed c.timeout before item after time t h)),
  ),
  ap (λ l. record c { items = l }) (check_loop-live elapsed c.timeout c.items),
)
