-- ===== src/Tests/Http.antt =====
-- A client over a library that keeps its options, answers with a fixed transfer and encodes with percent signs.
use nstl.Prelude.{
  ℕ, ◌<◌, ◌≡◌, refl, sym, ap, true, false, some, List, [], ◌∷◌, ◌++◌, arith, ◌==◌, if◌then◌else◌,
  take, nstl_exception, ok, err, ◌⊎◌, inr, ◌>>=◌, c_string, codes,
}
use nstl.Text.{right_trim_view, right_trim_loop, is_space_ch}
use nstl.Http.{
  Setting, no_signal, error_buffer, Call, body, header, Curl, write_calls, header_calls, line,
  Client, fresh, first_settings, set_all, make_client, assign, transfer, run_transfer, get_url,
}
use nstl.Http.Calls.{url_encode, url_decode}
use nstl.Http.Options.{OptionLaws}
use nstl.Http.Moved.{Throws, assign-Throws, assign-make_client}
use nstl.Http.Percent.{percent, unpercent}
use nstl.Http.Encoding.{UrlLaws, IsNull, url_decode-url_encode}

abbrev told : List ℕ → ℕ → List ℕ
told text n = if n == 0 then c_string text else take n text

abbrev calls : List Call
calls =
    header (codes "Server: x \n")
    ∷ body (codes "he")
    ∷ header (codes "\n")
    ∷ body (codes "llo")
    ∷ []

abbrev curl : Curl
curl = record {
  Easy = List Setting;
  easy_init = some [];
  setopt = λ easy setting. (true, easy ++ setting ∷ []);
  perform = λ easy. (true, calls, easy);
  response_code = λ easy. (true, 200);
  reset = λ easy. [];
  slist_append = λ lines text. some (lines ++ text ∷ []);
  escape = λ easy text n. some (percent (told text n));
  unescape = λ easy text n. some (unpercent (take n text));
}

curl_laws : OptionLaws curl
curl_laws = record {
  options = λ easy. easy;
  accepts = λ easy next setting e. sym (ap (λ r. r.1) e);
  refuses = λ easy next setting e. cc;
}

told_some : (text : List ℕ) (n : ℕ) → 0 < n → told text n ≡ take n text
told_some text n h = ground arith

curl_url_laws : UrlLaws curl
curl_url_laws = record {
  escapes =
      λ easy text n some_text small. inr (ap (λ t. some (percent t)) (told_some text n some_text));
  escapes_all = λ easy text. inr refl;
  unescapes = λ easy text n some_text small. inr refl;
}

abbrev client : Client curl
client = record (fresh curl (some [])) { line_cb = true }

abbrev address : List ℕ
address = codes "http://x"

gets : (get_url curl false client (some address) 0 true).0 ≡ ok (200, codes "hello")
unfolding get_url transfer set_all run_transfer write_calls header_calls line right_trim_view
    right_trim_loop is_space_ch
gets = refl

hears : (get_url curl false client (some address) 0 true).1 ≡ codes "Server: x" ∷ []
unfolding get_url transfer set_all run_transfer write_calls header_calls line right_trim_view
    right_trim_loop is_space_ch
hears = refl

assign-Throws_example :
    let (mine, rest) = assign curl client client in
    (mine ≡ record client { bw_period = client.bw_period; bw_speed = client.bw_speed })
    × Throws curl rest
assign-Throws_example = assign-Throws curl client client

abbrev made : Client curl
made = fresh curl (some (no_signal ∷ error_buffer 7 ∷ []))

makes_client : make_client curl 7 false ≡ ok made
unfolding make_client set_all
makes_client = refl

assign-make_client_example :
    (easy : List Setting) × ((assign curl client made).0.curl ≡ some easy)
    × (curl_laws.options easy ≡ curl_laws.options [] ++ first_settings curl 7 false)
assign-make_client_example =
    assign-make_client curl curl_laws false 7 [] client made refl makes_client

url_decode-url_encode_example :
    ((url_encode curl client (codes "a b") >>= url_decode curl client) ≡ ok (codes "a b"))
    ⊎ (((url_encode curl client (codes "a b") >>= url_decode curl client) ≡ err nstl_exception)
        × (IsNull curl curl_url_laws client [] refl curl.escape (codes "a b")
            ⊎ IsNull curl curl_url_laws client [] refl curl.unescape (percent (codes "a b"))))
url_decode-url_encode_example =
    url_decode-url_encode curl curl_url_laws client [] refl (codes "a b")
      (omega arith, (omega arith, (omega arith, tt))) (omega arith)
