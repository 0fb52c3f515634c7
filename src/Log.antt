-- ===== src/Log.antt =====
-- Log levels, nstl/nstl/logging.cpp, and the stack of loggers, nstl/nstl/logger.cpp.
pub mod Levels
pub mod Stack
pub mod Refine
pub mod Sink
use nstl.Prelude.{
  ℕ, zero, suc, ◌+◌, ◌-◌, ◌*◌, ◌/◌, ◌%◌, ◌^◌, ◌≤◌, ◌<◌, min, ◌≡◌, refl, sym, ap, ◌∙◌, ◌≢◌, ◌↔◌, ◌⊎◌,
  inl, inr, Bool, true, false, ◌&&◌, ◌||◌, not, Option, none, some, List, [], ◌∷◌, ◌++◌, map,
  append-nil, append_assoc, arith, ltb, leb, ◌==◌, if◌then◌else◌, same_text, same_text_iff, ltb→lt,
  lt→ltb, leb→le, le→leb, ==_iff, tests, Bool-cases, Option-cases, all_below, all_below_sound,
  length, get_elem?, take, drop, replicate, length-append, take-append-drop, length-take,
  length-drop, length-replicate, take-append, drop-append, take-append_of_le, take-append_of_ge,
  append-replicate, take_of_ge, drop_of_ge, length-map, All, All-append, Exception, nstl_exception,
  length_error, bad_alloc, runtime_error, out_of_range, invalid_argument, Result, ok, err, ◌>>=◌,
  ◌>>◌, throw_if, >>=-eq-ok, Result-cases, get_elem?_of_lt, nil_of_length, find, c_string, codes,
  drop_next,
}

-- The enumeration level::values with the underlying type int16_t: a value that is not negative, and
-- one that is.
pub data Values : Type 0 where
  value below_zero : ℕ → Values

abbrev pub log_levels : List (List ℕ)
log_levels = codes "DEBUG" ∷ codes "INFO" ∷ codes "WARNING" ∷ codes "ERROR" ∷ codes "TERMINATE" ∷ []

-- std::ranges::find: the index of the first level with that name.
unfoldable pub find_level : List (List ℕ) → List ℕ → Option ℕ
find_level [] view = none
find_level (name ∷ names) view =
    let rest : Option ℕ = elim (find_level names view) [ none ↦ none | some i ↦ some (suc i) ] in
    if same_text name view then some 0 else rest

unfoldable pub parse_level : List ℕ → Result Values
parse_level view = elim (find_level log_levels view) [
  | none ↦ err nstl_exception
  | some i ↦ ok (value i)
]

unfoldable pub level_name : Values → Result (List ℕ)
level_name (below_zero n) = err nstl_exception
level_name (value n) = elim (get_elem? log_levels n) [
  | none ↦ err nstl_exception
  | some name ↦ ok name
]

abbrev pub level_le : Values → Values → Bool
level_le (below_zero m) (below_zero n) = leb n m
level_le (below_zero m) (value n) = true
level_le (value m) (below_zero n) = false
level_le (value m) (value n) = leb m n

-- A LoggerAPI object, known by its address.
pub record LoggerApi : Type 0 where
  pub address : ℕ
  pub level : Values
  pub is_cout_logger : Bool

-- The process's state: the items of log_stack, the back first; the object that the functor in
-- logger() refers to; current_level; and active_cout_logger.
pub record LogState : Type 0 where
  pub items : List LoggerApi
  pub target : Option LoggerApi
  pub current_level : Values
  pub active_cout_logger : Bool

abbrev pub is_level_active : LogState → Values → Bool
is_level_active s level = level_le s.current_level level

abbrev pub same_logger : LoggerApi → LoggerApi → Bool
same_logger a b = a.address == b.address

unfoldable pub set_functor : LogState → LogState × Bool
set_functor s = elim s.items [
  | [] ↦ (s, false)
  | ptr ∷ items ↦ (record s { target = some ptr; current_level = ptr.level }, true)
]

unfoldable pub push_log : LogState → LoggerApi → LogState × Bool
unfolding set_functor
push_log s log = set_functor (record s { items = log ∷ s.items })

-- std::remove of one logger.
unfoldable pub remove_log : LoggerApi → List LoggerApi → List LoggerApi
remove_log log [] = []
remove_log log (item ∷ items) =
    let rest = remove_log log items in if same_logger item log then rest else item ∷ rest

unfoldable pub erase_log : LogState → LoggerApi → LogState × Bool
unfolding set_functor remove_log
erase_log s log = elim s.items [
  | [] ↦ (s, false)
  | back ∷ items ↦ elim (same_logger back log) [
    | true ↦ set_functor (record s { items = items })
    | false ↦ (record s { items = remove_log log (back ∷ items) }, false)
  ]
]

-- The constructor of Logger from a pointer, `none` for nullptr.
unfoldable pub construct : LogState → Option LoggerApi → Result LogState
unfolding push_log
construct s none = err nstl_exception
construct s (some log) =
    throw_if (log.is_cout_logger && s.active_cout_logger) nstl_exception
    >> ok
        (push_log (record s { active_cout_logger = log.is_cout_logger || s.active_cout_logger })
          log).0

-- Logger::reset and the destructor, on the pointer that the Logger holds.
unfoldable pub reset_logger : LogState → Option LoggerApi → LogState
unfolding erase_log
reset_logger s none = s
reset_logger s (some log) =
    (erase_log (record s { active_cout_logger = not log.is_cout_logger && s.active_cout_logger })
      log).0

-- The process's state before any Logger: current_level is Info.
abbrev pub initial_state : LogState
initial_state = record {
  items = [];
  target = none;
  current_level = value 1;
  active_cout_logger = false;
}

-- The states that constructors and resets of Loggers lead to.
pub data Reachable : LogState → Type 0 where
  initial : Reachable initial_state
  constructed :
      {s t : LogState} (log : Option LoggerApi) → Reachable s → construct s log ≡ ok t → Reachable t
  was_reset : {s : LogState} (log : Option LoggerApi) → Reachable s → Reachable (reset_logger s log)
