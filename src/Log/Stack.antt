-- ===== src/Log/Stack.antt =====
-- The logger that gets the lines, for log_stack and Logger of nstl/nstl/logger.cpp.
use nstl.Prelude.{
  ◌≡◌, refl, inl, inr, ◌&&◌, ◌||◌, not, Option, none, some, List, [], ◌∷◌, Bool-cases,
  nstl_exception, ok, throw_if, >>=-eq-ok,
}
use nstl.Log.{
  Values, LoggerApi, LogState, same_logger, set_functor, push_log, remove_log, erase_log, construct,
  reset_logger, Reachable, initial, constructed, was_reset,
}
use mathlib.Core.Path.{subst}

-- Lines go to the back of the stack, at its level.
abbrev FollowsList : List LoggerApi → Option LoggerApi → Values → Type 0
FollowsList [] target level = Unit {0}
FollowsList (back ∷ items) target level = (target ≡ some back) × (level ≡ back.level)

abbrev pub Follows : LogState → Type 0
Follows s = FollowsList s.items s.target s.current_level

set_items-Follows :
    (items : List LoggerApi) (s : LogState) → Follows (set_functor (record s { items = items })).0
unfolding set_functor
set_items-Follows [] s = tt
set_items-Follows (back ∷ items) s = (refl, refl)

erase_items-Follows :
    (items : List LoggerApi) (s : LogState) (log : LoggerApi)
    → FollowsList items s.target s.current_level
    → Follows (erase_log (record s { items = items }) log).0
unfolding erase_log remove_log
erase_items-Follows [] s log h = tt
erase_items-Follows (back ∷ items) s log h = elim (Bool-cases (same_logger back log)) [
  | inl e ↦ rw (e, erase_log) (set_items-Follows items s)
  | inr e ↦ rw (e, erase_log, e) h
]

pub construct-Follows :
    (s : LogState) (log : Option LoggerApi) {t : LogState} → construct s log ≡ ok t → Follows t
unfolding construct push_log
construct-Follows s none {t} e = cc
construct-Follows s (some log) {t} e =
    let active = record s { active_cout_logger = log.is_cout_logger || s.active_cout_logger } in
    let (done, passed, made) =
      >>=-eq-ok (throw_if (log.is_cout_logger && s.active_cout_logger) nstl_exception)
        (λ u. ok (push_log active log).0) e in
    let same : (push_log active log).0 ≡ t = cc in
    subst Follows same (set_items-Follows (log ∷ s.items) active)

pub reset-Follows :
    (s : LogState) (log : Option LoggerApi) → Follows s → Follows (reset_logger s log)
unfolding reset_logger
reset-Follows s none h = h
reset-Follows s (some log) h =
    erase_items-Follows s.items
      (record s { active_cout_logger = not log.is_cout_logger && s.active_cout_logger }) log h

-- However Loggers are made and reset, as long as one is on the stack the functor refers to the one at
-- its back, and the current level is that one's.
pub Reachable-Follows : {s : LogState} → Reachable s → Follows s
Reachable-Follows initial = tt
Reachable-Follows (constructed log r e) = construct-Follows _ log e
Reachable-Follows (was_reset log r) = reset-Follows _ log (Reachable-Follows r)
