-- ===== src/Log/Refine.antt =====
-- log_stack and Logger, nstl/nstl/logger.cpp, against a list of the loggers that live.
use nstl.Prelude.{
  ◌≡◌, refl, sym, ap, ◌∙◌, inl, inr, Bool, true, false, ◌&&◌, ◌||◌, not, some, List, [], ◌∷◌, ◌++◌,
  arith, Bool-cases, All, nstl_exception, Result, ok, ◌>>=◌, ◌>>◌, throw_if,
}
use mathlib.Core.Path.{subst}
use nstl.Log.{
  LoggerApi, LogState, same_logger, set_functor, push_log, remove_log, erase_log, construct,
  reset_logger,
}
use nstl.Log.Stack.{Follows, reset-Follows}

-- No other logger has the address of this one.
abbrev pub IsFresh : LoggerApi → List LoggerApi → Type 0
IsFresh log = All (λ other. same_logger other log ≡ false)

abbrev pub IsOnce : List LoggerApi → Type 0
IsOnce [] = Unit
IsOnce (log ∷ logs) = IsFresh log logs × IsOnce logs

abbrev pub has_cout : List LoggerApi → Bool
has_cout [] = false
has_cout (log ∷ logs) = log.is_cout_logger || has_cout logs

-- One logger at most writes to std::cout.
abbrev pub HasOneCout : List LoggerApi → Type 0
HasOneCout [] = Unit
HasOneCout (log ∷ logs) = (log.is_cout_logger && has_cout logs ≡ false) × HasOneCout logs

fresh_flip : (a b : LoggerApi) → same_logger a b ≡ false → same_logger b a ≡ false
fresh_flip a b e = ground arith

same_logger_self : (log : LoggerApi) → same_logger log log ≡ true
same_logger_self log = ground arith

remove_log_fresh :
    (log : LoggerApi) (logs : List LoggerApi) → IsFresh log logs → remove_log log logs ≡ logs
unfolding remove_log
remove_log_fresh log [] fresh = refl
remove_log_fresh log (other ∷ logs) (here, fresh) =
    simp here (ap (other ∷◌) (remove_log_fresh log logs fresh))

behind :
    (other log : LoggerApi) (before after : List LoggerApi)
    → IsFresh other (before ++ log ∷ after)
    → same_logger other log ≡ false
behind other log [] after (here, fresh) = fresh_flip log other here
behind other log (b ∷ before) after (here, fresh) = behind other log before after fresh

remove_log_once :
    (log : LoggerApi) (before after : List LoggerApi)
    → IsOnce (before ++ log ∷ after)
    → remove_log log (before ++ log ∷ after) ≡ before ++ after
unfolding remove_log
remove_log_once log [] after (fresh, once) =
    let self = same_logger_self log in simp self (remove_log_fresh log after fresh)
remove_log_once log (b ∷ before) after (fresh, once) =
    let here = behind b log before after fresh in
    simp here (ap (b ∷◌) (remove_log_once log before after once))

set_functor_lem :
    (s : LogState) (logs : List LoggerApi)
    → (set_functor (record s { items = logs })).0.items ≡ logs
unfolding set_functor
set_functor_lem s [] = refl
set_functor_lem s (log ∷ logs) = refl

set_functor_active :
    (s : LogState) (logs : List LoggerApi)
    → (set_functor (record s { items = logs })).0.active_cout_logger ≡ s.active_cout_logger
unfolding set_functor
set_functor_active s [] = refl
set_functor_active s (log ∷ logs) = refl

erase_log_lem :
    (s : LogState) (log : LoggerApi) (before after : List LoggerApi)
    → IsOnce (before ++ log ∷ after)
    → (erase_log (record s { items = before ++ log ∷ after }) log).0.items ≡ before ++ after
unfolding erase_log
erase_log_lem s log [] after once =
    let self = same_logger_self log in rw (self, erase_log) (set_functor_lem s after)
erase_log_lem s log (b ∷ before) after (fresh, once) =
    let here = behind b log before after fresh in
    rw (here, erase_log) (remove_log_once log (b ∷ before) after (fresh, once))

erase_log_active :
    (s : LogState) (log : LoggerApi) (logs : List LoggerApi)
    → (erase_log (record s { items = logs }) log).0.active_cout_logger ≡ s.active_cout_logger
unfolding erase_log
erase_log_active s log [] = refl
erase_log_active s log (b ∷ logs) = elim (Bool-cases (same_logger b log)) [
  | inl e ↦ rw (e, erase_log) (set_functor_active s logs)
  | inr e ↦ rw (e, erase_log) refl
]

IsFresh-drop_one :
    (other log : LoggerApi) (before after : List LoggerApi)
    → IsFresh other (before ++ log ∷ after)
    → IsFresh other (before ++ after)
IsFresh-drop_one other log [] after (here, fresh) = fresh
IsFresh-drop_one other log (b ∷ before) after (here, fresh) =
    (here, IsFresh-drop_one other log before after fresh)

IsOnce-drop_one :
    (log : LoggerApi) (before after : List LoggerApi)
    → IsOnce (before ++ log ∷ after)
    → IsOnce (before ++ after)
IsOnce-drop_one log [] after (fresh, once) = once
IsOnce-drop_one log (b ∷ before) after (fresh, once) =
    (IsFresh-drop_one b log before after fresh, IsOnce-drop_one log before after once)

cout_absent :
    (log : LoggerApi) (before after : List LoggerApi)
    → has_cout (before ++ log ∷ after) ≡ false
    → (log.is_cout_logger ≡ false) × (has_cout (before ++ after) ≡ false)
cout_absent log [] after h = (ground arith, ground arith)
cout_absent log (b ∷ before) after h =
    let behind_b : has_cout (before ++ log ∷ after) ≡ false = ground arith in
    let (mine, others) = cout_absent log before after behind_b in (mine, ground (arith, others))

-- The flag of the loggers that live, when one of them goes.
has_cout_lem :
    (log : LoggerApi) (before after : List LoggerApi)
    → HasOneCout (before ++ log ∷ after)
    → not log.is_cout_logger && has_cout (before ++ log ∷ after) ≡ has_cout (before ++ after)
has_cout_lem log [] after (one, ones) = ground arith
has_cout_lem log (b ∷ before) after (one, ones) =
    let rest = has_cout_lem log before after ones in
    elim (Bool-cases b.is_cout_logger) [
      | inl e ↦
          let none_behind : has_cout (before ++ log ∷ after) ≡ false = ground (arith, one, e) in
          let (mine, others) = cout_absent log before after none_behind in ground (arith, e, mine)
      | inr e ↦ ground (arith, e, rest)
    ]

HasOneCout-drop_one :
    (log : LoggerApi) (before after : List LoggerApi)
    → HasOneCout (before ++ log ∷ after)
    → HasOneCout (before ++ after)
HasOneCout-drop_one log [] after (one, ones) = ones
HasOneCout-drop_one log (b ∷ before) after (one, ones) =
    let alone : b.is_cout_logger && has_cout (before ++ after) ≡ false =
      elim (Bool-cases b.is_cout_logger) [
        | inl e ↦
            let none_behind : has_cout (before ++ log ∷ after) ≡ false = ground (arith, one, e) in
            let (mine, others) = cout_absent log before after none_behind in ground (arith, others)
        | inr e ↦ ground (arith, e)
      ] in
    (alone, HasOneCout-drop_one log before after ones)

-- What the process promises: the loggers that live, the newest first.
abbrev pub Refines : LogState → List LoggerApi → Type 0
Refines s logs =
    (s.items ≡ logs)
    × (s.active_cout_logger ≡ has_cout logs)
    × IsOnce logs
    × HasOneCout logs
    × Follows s

-- What happens to Loggers.
pub data Event : Type 0 where
  opens closes : LoggerApi → Event

abbrev pub perform : LogState → Event → Result LogState
perform s (opens log) = construct s (some log)
perform s (closes log) = ok (reset_logger s (some log))

abbrev pub perform_all : LogState → List Event → Result LogState
perform_all s [] = ok s
perform_all s (event ∷ events) = perform s event >>= λ later. perform_all later events

-- A logger is new when it opens, and the only one for std::cout; the one that closes lives.
abbrev pub Allows : List LoggerApi → Event → List LoggerApi → Type 0
Allows logs (opens log) later =
    IsFresh log logs × (log.is_cout_logger && has_cout logs ≡ false) × (later ≡ log ∷ logs)
Allows logs (closes log) later =
    (before : List LoggerApi) × (after : List LoggerApi) × (logs ≡ before ++ log ∷ after)
    × (later ≡ before ++ after)

abbrev pub AllowsAll : List LoggerApi → List Event → List LoggerApi → Type 0
AllowsAll logs [] later = later ≡ logs
AllowsAll logs (event ∷ events) later =
    (next : List LoggerApi) × Allows logs event next × AllowsAll next events later

opens-Refines :
    (s : LogState) (log : LoggerApi) (logs : List LoggerApi)
    → Refines s logs
    → IsFresh log logs
    → log.is_cout_logger && has_cout logs ≡ false
    → (t : LogState) × (construct s (some log) ≡ ok t) × Refines t (log ∷ logs)
unfolding construct push_log set_functor
opens-Refines s log logs (items, active, once, one, follows) fresh alone =
    let allowed : log.is_cout_logger && s.active_cout_logger ≡ false =
      ap (log.is_cout_logger &&◌) active ∙ alone in
    let opened =
      (push_log (record s { active_cout_logger = log.is_cout_logger || s.active_cout_logger })
        log).0 in
    (
      opened,
      ap (λ b. throw_if b nstl_exception >> ok opened) allowed,
      (
        ap (log ∷◌) items,
        ap (log.is_cout_logger ||◌) active,
        (fresh, once),
        (alone, one),
        (refl, refl),
      ),
    )

closes-Refines :
    (s : LogState) (log : LoggerApi) (before after : List LoggerApi)
    → Refines s (before ++ log ∷ after)
    → Refines (reset_logger s (some log)) (before ++ after)
unfolding reset_logger
closes-Refines s log before after (items, active, once, one, follows) =
    let flagged = record s {
      active_cout_logger = not log.is_cout_logger && s.active_cout_logger;
    } in
    (
      ap (λ logs. (erase_log (record flagged { items = logs }) log).0.items) items
          ∙ erase_log_lem flagged log before after once,
      erase_log_active flagged log s.items
          ∙ ap (not log.is_cout_logger &&◌) active
          ∙ has_cout_lem log before after one,
      IsOnce-drop_one log before after once,
      HasOneCout-drop_one log before after one,
      reset-Follows s (some log) follows,
    )

perform-Refines :
    (s : LogState) (event : Event) (logs later : List LoggerApi)
    → Refines s logs
    → Allows logs event later
    → (t : LogState) × (perform s event ≡ ok t) × Refines t later
perform-Refines s (opens log) logs later refines (fresh, alone, e) =
    let (t, made, after) = opens-Refines s log logs refines fresh alone in
    (t, made, subst (Refines t) (sym e) after)
perform-Refines s (closes log) logs later refines (before, after, e, left) =
    let here = subst (Refines s) e refines in
    (
      reset_logger s (some log),
      refl,
      subst (Refines (reset_logger s (some log))) (sym left)
          (closes-Refines s log before after here),
    )

-- From a state that stands for a list of live loggers, the newest first, Loggers that open and close in
-- any order the list allows throw nothing and lead to a state that stands for the list which that order
-- gives: the stack is that list, wherever a logger stood that closed; the flag says whether one of them
-- writes to std::cout; and while one lives the lines go to the newest, at its level. The list allows a
-- logger to open that is new and not a second one for std::cout, and to close one that is there.
pub perform_all-Refines :
    (events : List Event) (s : LogState) (logs later : List LoggerApi)
    → Refines s logs
    → AllowsAll logs events later
    → (t : LogState) × (perform_all s events ≡ ok t) × Refines t later
perform_all-Refines [] s logs later refines e = (s, refl, subst (Refines s) (sym e) refines)
perform_all-Refines (event ∷ events) s logs later refines (next, allowed, rest) =
    let (t, done, after) = perform-Refines s event logs next refines allowed in
    let (u, ends, last) = perform_all-Refines events t next later after rest in
    (u, ap (λ r. r >>= λ now. perform_all now events) done ∙ ends, last)
