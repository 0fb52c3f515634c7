-- ===== src/Env/Reads.antt =====
-- What the variables read inside a scope of env_var_raii, nstl/nstl/env_var_raii.cpp.
use nstl.Prelude.{
  ℕ, ◌≡◌, refl, sym, ap, ◌∙◌, ◌≢◌, inl, inr, true, false, Option, none, some, List, [], ◌∷◌,
  Option-cases, ok, c_string,
}
use nstl.Env.{set_or_throw, Environ, EnvVarRaii, set_up, loc_setenv, loc_unsetenv, get_env_var}

-- What POSIX says of the calls: a set variable reads as its value and the others as before, a
-- removed one as none. The name of a variable that is set is one that can be removed.
pub record EnvironLaws (lib : Environ) : Type 0 where
  pub get-set :
      (env after : lib.Env) (name value : List ℕ)
      → lib.setenv env name value ≡ some after
      → lib.getenv after name ≡ some value
  pub set_others :
      (env after : lib.Env) (name value other : List ℕ)
      → lib.setenv env name value ≡ some after
      → other ≢ name
      → lib.getenv after other ≡ lib.getenv env other
  pub get-unset :
      (env after : lib.Env) (name : List ℕ)
      → lib.unsetenv env name ≡ some after
      → lib.getenv after name ≡ none
  pub unset_others :
      (env after : lib.Env) (name other : List ℕ)
      → lib.unsetenv env name ≡ some after
      → other ≢ name
      → lib.getenv after other ≡ lib.getenv env other
  pub unset_ok :
      (env : lib.Env) (name value : List ℕ)
      → lib.getenv env name ≡ some value
      → (after : lib.Env) × (lib.unsetenv env name ≡ some after)

pub set_or_throw_ok :
    {E : Type 0} (var v : EnvVarRaii) (answer : Option E) (env : E)
    → set_or_throw var answer ≡ ok (v, env)
    → (var ≡ v) × (answer ≡ some env)
set_or_throw_ok var v none env h = cc
set_or_throw_ok var v (some e) env h = (cc, cc)

module _ (lib : Environ) (laws : EnvironLaws lib) where
  -- The constructor without a value, where the variable is set and where it is not.
  pub set_up_noop :
      (env : lib.Env) (c : ℕ) (n : List ℕ)
      → lib.getenv env (c_string (c ∷ n)) ≡ none
      → set_up lib env (c ∷ n) none ≡ ok (record { name = c ∷ n; prev = none; noop = true }, env)
  unfolding set_up
  set_up_noop env c n was = simp was refl

  pub set_up_removal :
      (env : lib.Env) (c : ℕ) (n old : List ℕ)
      → lib.getenv env (c_string (c ∷ n)) ≡ some old
      → set_up lib env (c ∷ n) none
        ≡ set_or_throw
            (record { name = c ∷ n; prev = some old; noop = false })
            (lib.unsetenv env (c_string (c ∷ n)))
  unfolding set_up loc_unsetenv
  set_up_removal env c n old was = simp was refl

  -- What the variables are behind the constructor.
  set_up_reads :
      (env mid : lib.Env) (name : List ℕ) (value : Option (List ℕ)) (var : EnvVarRaii)
      → set_up lib env name value ≡ ok (var, mid)
      → (lib.getenv mid (c_string name) ≡ value)
        × ((other : List ℕ) → other ≢ c_string name → lib.getenv mid other ≡ lib.getenv env other)
  unfolding set_up loc_setenv loc_unsetenv
  set_up_reads env mid [] value var did = cc
  set_up_reads env mid (c ∷ n) (some text) var did =
      let name = c_string (c ∷ n) in
      let (v, set) =
        set_or_throw_ok (record { name = c ∷ n; prev = lib.getenv env name; noop = false }) var _
          mid did in
      (
        laws.get-set env mid name text set,
        λ other ne. laws.set_others env mid name text other set ne,
      )
  set_up_reads env mid (c ∷ n) none var did =
      elim (Option-cases (lib.getenv env (c_string (c ∷ n)))) [
        | inl was ↦
            let e = sym (set_up_noop env c n was) ∙ did in
            let m : env ≡ mid = cc in
            (
              ap (λ l. lib.getenv l (c_string (c ∷ n))) (sym m) ∙ was,
              λ other ne. ap (λ l. lib.getenv l other) (sym m),
            )
        | inr (old, was) ↦
            let (v, did_unset) =
              set_or_throw_ok (record { name = c ∷ n; prev = some old; noop = false }) var _ mid
                (sym (set_up_removal env c n old was) ∙ did) in
            (
              laws.get-unset env mid (c_string (c ∷ n)) did_unset,
              λ other ne. laws.unset_others env mid (c_string (c ∷ n)) other did_unset ne,
            )
      ]

  -- Inside the scope of a variable, where the constructor returned, get_env_var reads its value,
  -- which is the empty view where the scope removes it, and every other name reads as before.
  pub get_env_var-set_up :
      (env mid : lib.Env) (name : List ℕ) (value : Option (List ℕ)) (var : EnvVarRaii)
      → set_up lib env name value ≡ ok (var, mid)
      → (get_env_var lib mid (some name) ≡ ok (elim value [ none ↦ [] | some text ↦ text ]))
        × ((other : List ℕ)
            → c_string other ≢ c_string name
            → get_env_var lib mid (some other) ≡ get_env_var lib env (some other))
  unfolding get_env_var
  get_env_var-set_up env mid name none var did =
      let (here, beside) = set_up_reads env mid name none var did in
      (rw (here, get_env_var) refl, λ other ne. rw (get_env_var, beside (c_string other) ne) refl)
  get_env_var-set_up env mid name (some text) var did =
      let (here, beside) = set_up_reads env mid name (some text) var did in
      (rw (here, get_env_var) refl, λ other ne. rw (get_env_var, beside (c_string other) ne) refl)
