-- ===== src/Http/Options.antt =====
-- The options that are set on a handle, nstl/nstl/http_client.cpp.
use nstl.Prelude.{
  ◌≡◌, refl, sym, ap, ◌∙◌, ◌⊎◌, inl, inr, true, false, List, [], ◌∷◌, ◌++◌, append-nil,
  append_assoc, Bool-cases, nstl_exception, Result, ok, err,
}
use mathlib.Core.Path.{subst}
use nstl.Http.{Setting, Curl, set_all}

-- What libcurl says of its options: a handle keeps those that it accepted, and no other.
pub record OptionLaws (lib : Curl) : Type 1 where
  pub options : lib.Easy → List Setting
  pub accepts :
      (easy next : lib.Easy) (setting : Setting)
      → lib.setopt easy setting ≡ (true, next)
      → options next ≡ options easy ++ setting ∷ []
  pub refuses :
      (easy next : lib.Easy) (setting : Setting)
      → lib.setopt easy setting ≡ (false, next)
      → options next ≡ options easy

module _ (lib : Curl) (laws : OptionLaws lib) where
  -- libcurl accepts each of the settings in its turn.
  abbrev pub Accepted : List Setting → lib.Easy → lib.Easy → Type 0
  Accepted [] easy set = easy ≡ set
  Accepted (setting ∷ settings) easy set =
      ((lib.setopt easy setting).0 ≡ true) × Accepted settings (lib.setopt easy setting).1 set

  -- All options are accepted, or the first that is refused throws behind those before it.
  abbrev pub Set : List Setting → lib.Easy → Result (Unit {0}) × lib.Easy → Type 0
  Set settings easy (done, set) =
      ((done ≡ ok tt)
        × Accepted settings easy set
        × (laws.options set ≡ laws.options easy ++ settings))
      ⊎ ((before : List Setting) × (setting : Setting) × (behind : List Setting) × (last : lib.Easy)
          × (settings ≡ before ++ setting ∷ behind)
          × Accepted before easy last
          × (lib.setopt last setting ≡ (false, set))
          × (done ≡ err nstl_exception)
          × (laws.options set ≡ laws.options easy ++ before))

  set_all_step :
      (setting : Setting) (settings : List Setting) (easy : lib.Easy)
      → (lib.setopt easy setting).0 ≡ true
      → set_all lib (setting ∷ settings) easy ≡ set_all lib settings (lib.setopt easy setting).1
  unfolding set_all
  set_all_step setting settings easy a = rw (a, set_all) refl

  set_all_refused :
      (setting : Setting) (settings : List Setting) (easy : lib.Easy)
      → (lib.setopt easy setting).0 ≡ false
      → set_all lib (setting ∷ settings) easy ≡ (err nstl_exception, (lib.setopt easy setting).1)
  unfolding set_all
  set_all_refused setting settings easy a = rw (a, set_all) refl

  pub set_all-Set :
      (settings : List Setting) (easy : lib.Easy) → Set settings easy (set_all lib settings easy)
  unfolding set_all
  set_all-Set [] easy = inl (refl, refl, sym (append-nil (laws.options easy)))
  set_all-Set (setting ∷ settings) easy =
      let next = (lib.setopt easy setting).1 in
      elim (Bool-cases (lib.setopt easy setting).0) [
        | inl a ↦
            let kept = laws.accepts easy next setting (ap (λ b. (b, next)) a) in
            subst (Set (setting ∷ settings) easy) (sym (set_all_step setting settings easy a))
              (elim (set_all-Set settings next) [
                | inl (done, all, set) ↦ inl (
                  done,
                  (a, all),
                  set
                      ∙ ap (◌++ settings) kept
                      ∙ append_assoc (laws.options easy) (setting ∷ []) settings,
                )
                | inr (before, bad, behind, last, cut, all, refused, thrown, set) ↦ inr (
                  setting ∷ before,
                  bad,
                  behind,
                  last,
                  ap (setting ∷◌) cut,
                  (a, all),
                  refused,
                  thrown,
                  set
                      ∙ ap (◌++ before) kept
                      ∙ append_assoc (laws.options easy) (setting ∷ []) before,
                )
              ])
        | inr a ↦
            let kept = laws.refuses easy next setting (ap (λ b. (b, next)) a) in
            subst (Set (setting ∷ settings) easy) (sym (set_all_refused setting settings easy a)) (
              inr (
                [],
                setting,
                settings,
                easy,
                refl,
                refl,
                ap (λ b. (b, next)) a,
                refl,
                kept ∙ sym (append-nil (laws.options easy)),
              ))
      ]
