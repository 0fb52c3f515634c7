-- ===== src/Env/Scopes.antt =====
-- The variables that nested scopes of env_var_raii, nstl/nstl/env_var_raii.cpp, set and restore.
use nstl.Prelude.{
  text-cases, ℕ, ◌≡◌, refl, sym, ap, ◌∙◌, ◌≢◌, inl, inr, true, false, Option, none, some, List, [],
  ◌∷◌, Option-cases, Result, ok, err, Result-cases, c_string,
}
use mathlib.Core.Path.{subst}
use nstl.Env.{Environ, EnvVarRaii, set_up, tear_down, loc_setenv, loc_unsetenv}
use nstl.Env.Reads.{EnvironLaws, set_or_throw_ok, set_up_noop, set_up_removal}

-- There is memory to set again what was set once: setenv fails on a name or for want of memory.
abbrev pub HasMemory : Environ → Type 0
HasMemory lib =
    (env later : lib.Env) (name value : List ℕ)
    → lib.getenv env name ≡ some value
    → (after : lib.Env) × (lib.setenv later name value ≡ some after)

module _ (lib : Environ) where
  -- Nested scopes, each with a variable of its own around the rest: the settings from the outermost
  -- on, and what the innermost code reads. A constructor that throws unwinds those around it.
  abbrev pub within {ℓ} :
      {X : Type ℓ}
      → List (List ℕ × Option (List ℕ))
      → (lib.Env → Result X)
      → lib.Env
      → Result X × lib.Env
  within [] body env = (body env, env)
  within ((name, value) ∷ rest) body env = elim (set_up lib env name value) [
    | err thrown ↦ (err thrown, env)
    | ok (var, mid) ↦ let (seen, late) = within rest body mid in (seen, tear_down lib var late)
  ]

module _ (lib : Environ) (laws : EnvironLaws lib) (memory : HasMemory lib) where
  abbrev pub Agree : lib.Env → lib.Env → Type 0
  Agree env before = (other : List ℕ) → lib.getenv env other ≡ lib.getenv before other

  -- What a chain of the two setters leaves of the variable and of the others.
  Agree-of_reads :
      (late env : lib.Env) (name : List ℕ)
      → lib.getenv late name ≡ lib.getenv env name
      → ((other : List ℕ) → other ≢ name → lib.getenv late other ≡ lib.getenv env other)
      → Agree late env
  Agree-of_reads late env name here others other = elim (text-cases other name) [
    | inl e ↦ ap (lib.getenv late) e ∙ here ∙ sym (ap (lib.getenv env) e)
    | inr ne ↦ others other ne
  ]

  -- What the destructor makes of an environment that reads as the constructor left it.
  tear_set :
      (env mid late : lib.Env) (name old : List ℕ)
      → lib.getenv env (c_string name) ≡ some old
      → ((other : List ℕ) → other ≢ c_string name → lib.getenv mid other ≡ lib.getenv env other)
      → Agree late mid
      → Agree (tear_down lib (record { name = name; prev = some old; noop = false }) late) env
  unfolding tear_down loc_setenv
  tear_set env mid late name old was beside same =
      let (after, did) = memory env late (c_string name) old was in
      rw did (
        Agree-of_reads after env (c_string name)
          (laws.get-set late after (c_string name) old did ∙ sym was)
          (λ other ne.
            laws.set_others late after (c_string name) old other did ne
            ∙ same other
            ∙ beside other ne))

  tear_unset :
      (env mid late : lib.Env) (name text : List ℕ)
      → lib.getenv env (c_string name) ≡ none
      → lib.setenv env (c_string name) text ≡ some mid
      → Agree late mid
      → Agree (tear_down lib (record { name = name; prev = none; noop = false }) late) env
  unfolding tear_down loc_unsetenv
  tear_unset env mid late name text was set same =
      let (after, did) =
        laws.unset_ok late (c_string name) text
          (same (c_string name) ∙ laws.get-set env mid (c_string name) text set) in
      rw did (
        Agree-of_reads after env (c_string name)
          (laws.get-unset late after (c_string name) did ∙ sym was)
          (λ other ne.
            laws.unset_others late after (c_string name) other did ne
            ∙ same other
            ∙ laws.set_others env mid (c_string name) text other set ne))

  tear_noop :
      (late : lib.Env) (name : List ℕ) (prev : Option (List ℕ))
      → tear_down lib (record { name = name; prev = prev; noop = true }) late ≡ late
  unfolding tear_down
  tear_noop late name prev = refl

  -- The constructor and the destructor around code that leaves the environment as it finds it.
  tear_down-set_up :
      (env mid late : lib.Env) (name : List ℕ) (value : Option (List ℕ)) (var : EnvVarRaii)
      → set_up lib env name value ≡ ok (var, mid)
      → Agree late mid
      → Agree (tear_down lib var late) env
  unfolding set_up loc_setenv loc_unsetenv
  tear_down-set_up env mid late [] value var did same = cc
  tear_down-set_up env mid late (c ∷ n) (some text) var did same =
      let name = c_string (c ∷ n) in
      let made : Option (List ℕ) → EnvVarRaii =
        λ prev. record { name = c ∷ n; prev = prev; noop = false } in
      let (v, set) = set_or_throw_ok (made (lib.getenv env name)) var _ mid did in
      subst (λ w. Agree (tear_down lib w late) env) v
        (elim (Option-cases (lib.getenv env name)) [
          | inl was ↦
              subst (λ o. Agree (tear_down lib (made o) late) env) (sym was)
                (tear_unset env mid late (c ∷ n) text was set same)
          | inr (old, was) ↦
              subst (λ o. Agree (tear_down lib (made o) late) env) (sym was)
                (tear_set env mid late (c ∷ n) old was
                  (λ other ne. laws.set_others env mid name text other set ne) same)
        ])
  tear_down-set_up env mid late (c ∷ n) none var did same =
      elim (Option-cases (lib.getenv env (c_string (c ∷ n)))) [
        | inl was ↦
            let e = sym (set_up_noop lib laws env c n was) ∙ did in
            let v : record { name = c ∷ n; prev = none; noop = true } ≡ var = cc in
            let m : env ≡ mid = cc in
            subst (λ w. Agree (tear_down lib w late) env) v
              (λ other.
                ap (λ l. lib.getenv l other) (tear_noop late (c ∷ n) none)
                ∙ same other
                ∙ ap (λ l. lib.getenv l other) (sym m))
        | inr (old, was) ↦
            let (v, did_unset) =
              set_or_throw_ok (record { name = c ∷ n; prev = some old; noop = false }) var _ mid
                (sym (set_up_removal lib laws env c n old was) ∙ did) in
            subst (λ w. Agree (tear_down lib w late) env) v
              (tear_set env mid late (c ∷ n) old was
                (λ other ne. laws.unset_others env mid (c_string (c ∷ n)) other did_unset ne) same)
      ]

  -- However many scopes are nested, and whether the code inside returns or one of their constructors
  -- throws, each variable reads behind them as it did before, where the C library keeps its laws and
  -- has the memory to set again what was set.
  pub within-Agree {ℓ} :
      {X : Type ℓ} (settings : List (List ℕ × Option (List ℕ))) (body : lib.Env → Result X)
      (env : lib.Env)
      → Agree (within lib settings body env).1 env
  within-Agree [] body env = λ other. refl
  within-Agree ((name, value) ∷ rest) body env = elim (Result-cases (set_up lib env name value)) [
    | inl ((var, mid), did) ↦
        rw (did, within)
          (tear_down-set_up env mid (within lib rest body mid).1 name value var did
            (within-Agree rest body mid))
    | inr (thrown, did) ↦ rw (did, within) (λ other. refl)
  ]
