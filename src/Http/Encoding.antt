-- ===== src/Http/Encoding.antt =====
-- url_encode and url_decode of Client, nstl/nstl/http_client.cpp.
use nstl.Prelude.{
  ℕ, ◌*◌, ◌%◌, ◌^◌, ◌<◌, ◌≡◌, ◌⊎◌, inl, inr, ap, ◌∙◌, Option, none, some, List, [], ◌∷◌, arith,
  length, take, take_of_ge, nstl_exception, ok, err, ◌>>=◌, c_string, All,
}
use nstl.Http.{Curl, Client}
use nstl.Http.Percent.{percent, unpercent, unpercent-percent, c_string-percent, length-percent}
use nstl.Http.Calls.{int_of, string_of, with_handle, url_encode, url_decode}

-- What libcurl says of the two calls: they encode and decode as many bytes as they are told, and encode
-- up to the NUL where they are told 0, or give a null pointer.
pub record UrlLaws (lib : Curl) : Type 0 where
  pub escapes :
      (easy : lib.Easy) (text : List ℕ) (size : ℕ)
      → 0 < size
      → size < 2 ^ 31
      → (lib.escape easy text size ≡ none)
        ⊎ (lib.escape easy text size ≡ some (percent (take size text)))
  pub escapes_all :
      (easy : lib.Easy) (text : List ℕ)
      → (lib.escape easy text 0 ≡ none) ⊎ (lib.escape easy text 0 ≡ some (percent (c_string text)))
  pub unescapes :
      (easy : lib.Easy) (text : List ℕ) (size : ℕ)
      → 0 < size
      → size < 2 ^ 31
      → (lib.unescape easy text size ≡ none)
        ⊎ (lib.unescape easy text size ≡ some (unpercent (take size text)))

module _ (lib : Curl) (laws : UrlLaws lib) (client : Client lib) (easy : lib.Easy)
    (held : client.curl ≡ some easy) where
  -- The calls on a text that is not empty.
  encode_cons :
      (c : ℕ) (s : List ℕ)
      → url_encode lib client (c ∷ s)
        ≡ string_of c_string (lib.escape easy (c ∷ s) (int_of (length (c ∷ s))))
  unfolding url_encode
  encode_cons c s =
      ap
        (λ h.
          with_handle lib h
            (λ easy. string_of c_string (lib.escape easy (c ∷ s) (int_of (length (c ∷ s))))))
        held

  decode_cons :
      (c : ℕ) (s : List ℕ)
      → url_decode lib client (c ∷ s)
        ≡ string_of (λ text. text) (lib.unescape easy (c ∷ s) (int_of (length (c ∷ s))))
  unfolding url_decode
  decode_cons c s =
      ap
        (λ h.
          with_handle lib h (λ easy.
            string_of (λ text. text) (lib.unescape easy (c ∷ s) (int_of (length (c ∷ s))))))
        held

  encode_nil : url_encode lib client [] ≡ ok []
  unfolding url_encode
  encode_nil = ap (λ h. with_handle lib h (λ easy. ok [])) held

  decode_nil : url_decode lib client [] ≡ ok []
  unfolding url_decode
  decode_nil = ap (λ h. with_handle lib h (λ easy. ok [])) held

  -- A call of libcurl that gives a null pointer for a text.
  abbrev pub IsNull : (lib.Easy → List ℕ → ℕ → Option (List ℕ)) → List ℕ → Type 0
  IsNull call text = call easy text (length text) ≡ none

  encode_small :
      (text : List ℕ)
      → 0 < length text
      → length text < 2 ^ 31
      → (IsNull lib.escape text × (url_encode lib client text ≡ err nstl_exception))
        ⊎ (url_encode lib client text ≡ ok (percent text))
  encode_small [] some_text small = absurd (omega arith)
  encode_small (c ∷ s) some_text small =
      let size : int_of (length (c ∷ s)) ≡ length (c ∷ s) = omega arith in
      let call = encode_cons c s ∙ ap (λ n. string_of c_string (lib.escape easy (c ∷ s) n)) size in
      elim (laws.escapes easy (c ∷ s) (length (c ∷ s)) some_text small) [
        | inl e ↦ inl (e, call ∙ ap (string_of c_string) e)
        | inr e ↦ inr (
            call
            ∙ ap (string_of c_string) e
            ∙ ap (λ t. ok (c_string (percent t)))
                (take_of_ge (length (c ∷ s)) (c ∷ s) (omega arith))
            ∙ ap ok (c_string-percent (c ∷ s)))
      ]

  decode_small :
      (text : List ℕ)
      → 0 < length text
      → length text < 2 ^ 31
      → (IsNull lib.unescape text × (url_decode lib client text ≡ err nstl_exception))
        ⊎ (url_decode lib client text ≡ ok (unpercent text))
  decode_small [] some_text small = absurd (omega arith)
  decode_small (c ∷ s) some_text small =
      let size : int_of (length (c ∷ s)) ≡ length (c ∷ s) = omega arith in
      let call =
        decode_cons c s ∙ ap (λ n. string_of (λ text. text) (lib.unescape easy (c ∷ s) n)) size in
      elim (laws.unescapes easy (c ∷ s) (length (c ∷ s)) some_text small) [
        | inl e ↦ inl (e, call ∙ ap (string_of (λ text. text)) e)
        | inr e ↦ inr (
            call
            ∙ ap (string_of (λ text. text)) e
            ∙ ap (λ t. ok (unpercent t)) (take_of_ge (length (c ∷ s)) (c ∷ s) (omega arith)))
      ]

  -- Where libcurl encodes and decodes percent signs as RFC 3986 has them, or gives a null pointer, a text
  -- of fewer than 2 ^ 31 / 3 bytes comes back from url_encode and url_decode on one client, NUL bytes
  -- included; but where libcurl gives a null pointer for it or for its code, the call throws.
  pub url_decode-url_encode :
      (text : List ℕ)
      → All (λ c. c < 256) text
      → 3 * length text < 2 ^ 31
      → ((url_encode lib client text >>= url_decode lib client) ≡ ok text)
        ⊎ (((url_encode lib client text >>= url_decode lib client) ≡ err nstl_exception)
            × (IsNull lib.escape text ⊎ IsNull lib.unescape (percent text)))
  url_decode-url_encode [] bytes small =
      inl (ap (λ r. r >>= url_decode lib client) encode_nil ∙ decode_nil)
  url_decode-url_encode (c ∷ s) bytes small =
      let (least, most) = length-percent (c ∷ s) in
      elim (encode_small (c ∷ s) (omega arith) (omega arith)) [
        | inl (null, e) ↦ inr (ap (λ r. r >>= url_decode lib client) e, inl null)
        | inr e ↦ elim (decode_small (percent (c ∷ s)) (omega arith) (omega arith)) [
          | inl (null, d) ↦ inr (ap (λ r. r >>= url_decode lib client) e ∙ d, inr null)
          | inr d ↦ inl (
              ap (λ r. r >>= url_decode lib client) e ∙ d ∙ ap ok (unpercent-percent (c ∷ s) bytes))
        ]
      ]

  -- A text that is not empty and whose size is a multiple of 2 ^ 32 is encoded up to its first NUL.
  pub url_encode_cut :
      (text : List ℕ)
      → 0 < length text
      → length text % 2 ^ 32 ≡ 0
      → (url_encode lib client text ≡ err nstl_exception)
        ⊎ (url_encode lib client text ≡ ok (percent (c_string text)))
  url_encode_cut [] some_text cut = absurd (omega arith)
  url_encode_cut (c ∷ s) some_text cut =
      let call = encode_cons c s ∙ ap (λ n. string_of c_string (lib.escape easy (c ∷ s) n)) cut in
      elim (laws.escapes_all easy (c ∷ s)) [
        | inl e ↦ inl (call ∙ ap (string_of c_string) e)
        | inr e ↦
            inr (call ∙ ap (string_of c_string) e ∙ ap ok (c_string-percent (c_string (c ∷ s))))
      ]
