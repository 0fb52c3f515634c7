-- ===== src/Env.antt =====
-- nstl/nstl/env_var_raii.cpp: env_var_raii and get_env_var. The C library's environment is an
-- argument. A `const char*` is the text in front of its NUL, and so is a string made of one.
pub mod Reads
pub mod Scopes
use nstl.Prelude.{
  ℕ, zero, suc, ◌+◌, ◌-◌, ◌*◌, ◌/◌, ◌%◌, ◌^◌, ◌≤◌, ◌<◌, min, ◌≡◌, refl, sym, ap, ◌∙◌, ◌≢◌, ◌↔◌, ◌⊎◌,
  inl, inr, Bool, true, false, ◌&&◌, ◌||◌, not, Option, none, some, List, [], ◌∷◌, ◌++◌, map,
  append-nil, append_assoc, arith, ltb, leb, ◌==◌, if◌then◌else◌, ltb→lt, lt→ltb, leb→le, le→leb,
  ==_iff, tests, Bool-cases, Option-cases, all_below, all_below_sound, length, get_elem?, take,
  drop, replicate, length-append, take-append-drop, length-take, length-drop, length-replicate,
  take-append, drop-append, take-append_of_le, take-append_of_ge, append-replicate, take_of_ge,
  drop_of_ge, length-map, All, All-append, Exception, nstl_exception, length_error, bad_alloc,
  runtime_error, out_of_range, invalid_argument, Result, ok, err, ◌>>=◌, ◌>>◌, throw_if, >>=-eq-ok,
  Result-cases, get_elem?_of_lt, nil_of_length, find, c_string, codes, drop_next,
}

-- `getenv` gives none for its null pointer; the setters give none where they return an error.
pub record Environ : Type 1 where
  pub Env : Type 0
  pub getenv : Env → List ℕ → Option (List ℕ)
  pub setenv : Env → List ℕ → List ℕ → Option Env
  pub unsetenv : Env → List ℕ → Option Env

pub record EnvVarRaii : Type 0 where
  pub name : List ℕ
  pub prev : Option (List ℕ)
  pub noop : Bool

abbrev is_empty : List ℕ → Bool
is_empty [] = true
is_empty (c ∷ s) = false

-- `== 0` on what the library's setters return.
abbrev pub set_or_throw : {E : Type 0} → EnvVarRaii → Option E → Result (EnvVarRaii × E)
set_or_throw var none = err nstl_exception
set_or_throw var (some env) = ok (var, env)

module _ (lib : Environ) where
  unfoldable pub loc_setenv : lib.Env → List ℕ → List ℕ → Option lib.Env
  loc_setenv env name value = lib.setenv env (c_string name) value

  unfoldable pub loc_unsetenv : lib.Env → List ℕ → Option lib.Env
  loc_unsetenv env name = lib.unsetenv env (c_string name)

  -- The constructor; a null value asks for the variable's removal.
  unfoldable pub set_up : lib.Env → List ℕ → Option (List ℕ) → Result (EnvVarRaii × lib.Env)
  set_up env name value =
      let var : EnvVarRaii = record {
        name = name;
        prev = lib.getenv env (c_string name);
        noop = false;
      } in
      throw_if (is_empty name) nstl_exception >> elim value [
        | some text ↦ set_or_throw var (loc_setenv env name text)
        | none ↦ elim var.prev [
          | some old ↦ set_or_throw var (loc_unsetenv env name)
          | none ↦ ok (record var { noop = true }, env)
        ]
      ]

  -- The destructor, which drops what the setters return.
  unfoldable pub tear_down : EnvVarRaii → lib.Env → lib.Env
  tear_down var env = if var.noop then env else elim var.prev [
    | some old ↦ elim (loc_setenv env var.name old) [ none ↦ env | some e ↦ e ]
    | none ↦ elim (loc_unsetenv env var.name) [ none ↦ env | some e ↦ e ]
  ]

  -- A null pointer for the name throws; a variable that is not set reads as the empty view.
  unfoldable pub get_env_var : lib.Env → Option (List ℕ) → Result (List ℕ)
  get_env_var env none = err nstl_exception
  get_env_var env (some name) = elim (lib.getenv env (c_string name)) [
    | none ↦ ok []
    | some value ↦ ok value
  ]
