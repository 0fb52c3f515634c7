-- ===== src/Tests/Env.antt =====
-- An environment that is a list of names and values, and nested scopes in it.
use nstl.Prelude.{
  ℕ, ◌≡◌, refl, sym, ◌∙◌, ◌≢◌, inl, inr, false, Option, none, some, List, [], ◌∷◌, arith,
  if◌then◌else◌, Result, ok, c_string, codes,
}
use mathlib.Core.Path.{subst}
use nstl.Prelude.{same_text, same_text_iff, text-cases, same_text_self, same_text_of_ne}
use nstl.Env.{Environ, EnvVarRaii, set_up, tear_down, get_env_var, loc_setenv, loc_unsetenv}
use nstl.Env.Reads.{EnvironLaws}
use nstl.Env.Scopes.{HasMemory, within, within-Agree}

abbrev Store : Type 0
Store = List (List ℕ × List ℕ)

abbrev look : Store → List ℕ → Option (List ℕ)
look [] name = none
look ((n, v) ∷ s) name = if same_text name n then some v else look s name

abbrev remove : Store → List ℕ → Store
remove [] name = []
remove ((n, v) ∷ s) name =
    let rest = remove s name in if same_text name n then rest else (n, v) ∷ rest

abbrev list_environ : Environ
list_environ = record {
  Env = Store;
  getenv = look;
  setenv = λ env name value. some ((name, value) ∷ env);
  unsetenv = λ env name. some (remove env name);
}

look-remove : (s : Store) (name : List ℕ) → look (remove s name) name ≡ none
look-remove [] name = refl
look-remove ((n, v) ∷ s) name = ground (arith, look-remove s name)

look-remove_other :
    (s : Store) (name other : List ℕ) → other ≢ name → look (remove s name) other ≡ look s other
look-remove_other [] name other ne = refl
look-remove_other ((n, v) ∷ s) name other ne = elim (text-cases name n) [
  | inl e ↦
      let there = (same_text_iff name n).1 e in
      let here = same_text_of_ne other n (λ eq. ne (eq ∙ sym e)) in
      let ih = look-remove_other s name other ne in ground (arith, there, here, ih)
  | inr differs ↦
      let there = same_text_of_ne name n differs in
      let ih = look-remove_other s name other ne in ground (arith, there, ih)
]

list_environ_laws : EnvironLaws list_environ
list_environ_laws = record {
  get-set = λ env after name value did.
      let e : (name, value) ∷ env ≡ after = cc in
      subst (λ s. look s name ≡ some value) e (rw (same_text_self name) refl);
  set_others = λ env after name value other did ne.
      let e : (name, value) ∷ env ≡ after = cc in
      subst (λ s. look s other ≡ look env other) e (rw (same_text_of_ne other name ne) refl);
  get-unset = λ env after name did.
      let e : remove env name ≡ after = cc in
      subst (λ s. look s name ≡ none) e (look-remove env name);
  unset_others = λ env after name other did ne.
      let e : remove env name ≡ after = cc in
      subst (λ s. look s other ≡ look env other) e (look-remove_other env name other ne);
  unset_ok = λ env name value is_set. (remove env name, refl);
}

list_environ_memory : HasMemory list_environ
list_environ_memory env later name value was = ((name, value) ∷ later, refl)

abbrev start : Store
start = (codes "TZ", codes "UTC") ∷ []

-- The zone is set, another variable is removed that was not set, and the zone is removed.
abbrev settings : List (List ℕ × Option (List ℕ))
settings =
    (codes "TZ", some (codes "CET"))
    ∷ (codes "LANG", none)
    ∷ (codes "TZ", none)
    ∷ (codes "A", some (codes "1"))
    ∷ []

abbrev zone : Store → Result (List ℕ)
unfolding get_env_var c_string
zone env = get_env_var list_environ env (some (codes "TZ"))

abbrev zone_set : EnvVarRaii
zone_set = record { name = codes "TZ"; prev = some (codes "UTC"); noop = false }

set_up_zone :
    set_up list_environ start (codes "TZ") (some (codes "CET"))
    ≡ ok (zone_set, (codes "TZ", codes "CET") ∷ start)
unfolding set_up loc_setenv c_string
set_up_zone = refl

reads_inside : (within list_environ settings zone start).0 ≡ ok []
unfolding set_up tear_down loc_setenv loc_unsetenv get_env_var c_string
reads_inside = refl

within-Agree_example :
    look (within list_environ settings zone start).1 (codes "TZ") ≡ look start (codes "TZ")
within-Agree_example =
    within-Agree list_environ list_environ_laws list_environ_memory settings zone start (codes "TZ")
