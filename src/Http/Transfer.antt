-- ===== src/Http/Transfer.antt =====
-- get and post of Client, nstl/nstl/http_client.cpp.
use nstl.Prelude.{
  ℕ, ◌≡◌, ◌⊎◌, Bool, false, ◌&&◌, Option, none, some, List, [], ◌∷◌, ◌++◌, if◌then◌else◌,
  nstl_exception, Result, ok, err,
}
use nstl.Http.{Setting, Curl, write_calls, header_calls, Client, common_settings}
use nstl.Http.Options.{OptionLaws, Accepted}

module _ (lib : Curl) (laws : OptionLaws lib) where
  -- What get and post give.
  abbrev Given : Type 0
  Given = Result (ℕ × List ℕ) × List (List ℕ) × Client lib

  -- No transfer: the object was moved from, or the pointer to the address is null.
  abbrev pub Untouched : Client lib → Option (List ℕ) → Given → Type 0
  Untouched client address (result, lines, later) =
      ((address ≡ none) ⊎ (client.curl ≡ none))
      × (result ≡ err nstl_exception)
      × (lines ≡ [])
      × (later ≡ client)

  -- No transfer: an option was refused behind some others.
  abbrev pub Stopped : List Setting → Client lib → lib.Easy → Given → Type 0
  Stopped wanted client easy (result, lines, later) =
      (before : List Setting) × (setting : Setting) × (behind : List Setting) × (last : lib.Easy)
      × (set : lib.Easy) × (wanted ≡ before ++ setting ∷ behind)
      × Accepted lib laws before easy last
      × (lib.setopt last setting ≡ (false, set))
      × (result ≡ err nstl_exception)
      × (lines ≡ [])
      × (later ≡ record client { curl = some set })
      × (laws.options set ≡ laws.options easy ++ before)

  -- The transfer of a handle that has all options.
  abbrev pub Performed : List Setting → Client lib → lib.Easy → Given → Type 0
  Performed wanted client easy (result, lines, later) =
      (set : lib.Easy) × Accepted lib laws wanted easy set
      × (laws.options set ≡ laws.options easy ++ wanted)
      × (let (performed, calls, behind) = lib.perform set in
          let (known, code) = lib.response_code behind in
          (later ≡ record client { curl = some behind })
          × (lines ≡ header_calls client.line_cb calls)
          × (result
              ≡ (if performed && known then ok (code, write_calls calls) else err nstl_exception)))

  abbrev pub Transferred :
      Bool → List Setting → Client lib → Option (List ℕ) → ℕ → Bool → Given → Type 0
  Transferred keepcnt settings client address timeout verify given =
      Untouched client address given
      ⊎ ((text : List ℕ) × (easy : lib.Easy) × (address ≡ some text)
          × (client.curl ≡ some easy)
          × (let wanted = common_settings lib keepcnt client text timeout verify ++ settings in
              Stopped wanted client easy given ⊎ Performed wanted client easy given))
