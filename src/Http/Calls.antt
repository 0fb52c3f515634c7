-- ===== src/Http/Calls.antt =====
-- The other members of Client, nstl/nstl/http_client.cpp. Those that need the handle throw behind a
-- move.
use nstl.Prelude.{
  ℕ, ◌%◌, ◌^◌, Bool, true, false, ◌||◌, Option, none, some, List, [], ◌∷◌, ◌==◌, if◌then◌else◌,
  length, nstl_exception, Result, ok, err, c_string,
}
use nstl.Http.{Curl, Client}

-- static_cast<int> of a size.
abbrev pub int_of : ℕ → ℕ
int_of size = size % 2 ^ 32

-- What is made of the text that libcurl gives, and a throw for its null pointer.
abbrev pub string_of : (List ℕ → List ℕ) → Option (List ℕ) → Result (List ℕ)
string_of read none = err nstl_exception
string_of read (some text) = ok (read text)

module _ (lib : Curl) where
  -- The test at the head of each member, of the handle.
  abbrev pub with_handle {ℓ} : {X : Type ℓ} → Option lib.Easy → (lib.Easy → Result X) → Result X
  with_handle none next = err nstl_exception
  with_handle (some easy) next = next easy

  -- A null pointer for the header is none.
  unfoldable pub add_header : Client lib → Option (List ℕ) → Result (Client lib)
  add_header client none = err nstl_exception
  add_header client (some text) = with_handle client.curl (λ easy.
      elim (lib.slist_append client.headers text) [
        | none ↦ err nstl_exception
        | some chunk ↦ ok (record client { headers = chunk })
      ])

  unfoldable pub url_encode : Client lib → List ℕ → Result (List ℕ)
  url_encode client [] = with_handle client.curl (λ easy. ok [])
  url_encode client (c ∷ s) =
      with_handle client.curl
        (λ easy. string_of c_string (lib.escape easy (c ∷ s) (int_of (length (c ∷ s)))))

  unfoldable pub url_decode : Client lib → List ℕ → Result (List ℕ)
  url_decode client [] = with_handle client.curl (λ easy. ok [])
  url_decode client (c ∷ s) =
      with_handle client.curl
        (λ easy. string_of (λ text. text) (lib.unescape easy (c ∷ s) (int_of (length (c ∷ s)))))

  unfoldable pub reset_client : Client lib → Result (Client lib)
  reset_client client =
      with_handle client.curl (λ easy. ok (record client { curl = some (lib.reset easy) }))

  -- The text in the error buffer, whose bytes are the last argument.
  unfoldable pub error_view : Client lib → List ℕ → Result (List ℕ)
  error_view client error = with_handle client.curl (λ easy. ok (c_string error))

  unfoldable pub valid_client : Client lib → Bool
  valid_client client = elim client.curl [ none ↦ false | some easy ↦ true ]

  unfoldable pub reset_hdrs : Client lib → Client lib
  reset_hdrs client = record client { headers = [] }

  -- The callback that was there comes back.
  unfoldable pub set_hdr_cb : Client lib → Bool → Result (Bool × Client lib)
  set_hdr_cb client cb =
      with_handle client.curl (λ easy. ok (client.line_cb, record client { line_cb = cb }))

  -- A number of seconds, which is none where it is negative.
  unfoldable pub minimum_bandwidth : Client lib → Option ℕ → ℕ → Result (Client lib)
  minimum_bandwidth client none bandwidth = err nstl_exception
  minimum_bandwidth client (some check_period) bandwidth = with_handle client.curl (λ easy. ok (
      if check_period == 0 || bandwidth == 0
      then record client { bw_period = 0; bw_speed = 0 }
      else record client { bw_period = check_period; bw_speed = bandwidth }))
