-- ===== src/Http.antt =====
-- nstl/nstl/http_client.cpp: Client, a wrapper of libcurl, which is an argument. The text in the error
-- buffer, which libcurl writes, is not modelled.
pub mod Calls
pub mod Options
pub mod Transfer
pub mod Moved
pub mod Percent
pub mod Encoding
use nstl.Prelude.{
  ℕ, zero, suc, ◌+◌, ◌-◌, ◌*◌, ◌/◌, ◌%◌, ◌^◌, ◌≤◌, ◌<◌, min, ◌≡◌, refl, sym, ap, ◌∙◌, ◌≢◌, ◌↔◌, ◌⊎◌,
  inl, inr, Bool, true, false, ◌&&◌, ◌||◌, not, Option, none, some, List, [], ◌∷◌, ◌++◌, map,
  append-nil, append_assoc, arith, ltb, leb, ◌==◌, if◌then◌else◌, ltb→lt, lt→ltb, leb→le, le→leb,
  ==_iff, tests, Bool-cases, Option-cases, all_below, all_below_sound, length, get_elem?, take,
  drop, replicate, length-append, take-append-drop, length-take, length-drop, length-replicate,
  take-append, drop-append, take-append_of_le, take-append_of_ge, append-replicate, take_of_ge,
  drop_of_ge, length-map, All, All-append, Exception, nstl_exception, length_error, bad_alloc,
  runtime_error, out_of_range, invalid_argument, Result, ok, err, ◌>>=◌, ◌>>◌, throw_if, >>=-eq-ok,
  Result-cases, get_elem?_of_lt, nil_of_length, find, c_string, codes, drop_next, same_text,
  same_text_iff, text-cases, same_text_self, same_text_of_ne,
}
use nstl.Text.{right_trim_view}

-- The options that the source sets, with their values; an address stands for the object that it is of.
pub data Setting : Type 0 where
  no_signal verbose debug_function tcp_keepalive write_function header_function : Setting
  follow_location http_get post write_data header_data : Setting
  error_buffer : (address : ℕ) → Setting
  connect_timeout_ms timeout_ms low_speed_time low_speed_limit : (value : ℕ) → Setting
  tcp_keepidle tcp_keepintvl tcp_keepcnt max_redirs post_field_size : (value : ℕ) → Setting
  url : (text : List ℕ) → Setting
  http_header : (lines : List (List ℕ)) → Setting
  ssl_verify_peer : (verify : Bool) → Setting
  post_fields : (text : Option (List ℕ)) → Setting

-- A call of one of the two functions that the source hands to libcurl.
pub data Call : Type 0 where
  body header : (bytes : List ℕ) → Call

-- What the source calls of libcurl. The tests tell of CURLE_OK; `perform` and `setopt` give the handle
-- behind the call. The last number of `escape` and `unescape` is the int that they get, modulo 2 ^ 32.
pub record Curl : Type 1 where
  pub Easy : Type 0
  pub easy_init : Option Easy
  pub setopt : Easy → Setting → Bool × Easy
  pub perform : Easy → Bool × List Call × Easy
  pub response_code : Easy → Bool × ℕ
  pub reset : Easy → Easy
  pub slist_append : List (List ℕ) → List ℕ → Option (List (List ℕ))
  pub escape : Easy → List ℕ → ℕ → Option (List ℕ)
  pub unescape : Easy → List ℕ → ℕ → Option (List ℕ)

-- writeFunction and headerFunction with ClientCbs::line, over the calls of a transfer: the text that is
-- collected, and the lines that the callback gets where there is one.
unfoldable pub write_calls : List Call → List ℕ
write_calls [] = []
write_calls (body bytes ∷ calls) = bytes ++ write_calls calls
write_calls (header bytes ∷ calls) = write_calls calls

unfoldable pub line : Bool → List ℕ → List (List ℕ)
line false bytes = []
line true bytes =
    let hdr_line = right_trim_view bytes in elim hdr_line [ [] ↦ [] | ◌∷◌ c cs ↦ (c ∷ cs) ∷ [] ]

unfoldable pub header_calls : Bool → List Call → List (List ℕ)
header_calls line_cb [] = []
header_calls line_cb (body bytes ∷ calls) = header_calls line_cb calls
header_calls line_cb (header bytes ∷ calls) = line line_cb bytes ++ header_calls line_cb calls

unfoldable pub is_http_success : ℕ → Bool
is_http_success status_code = leb 200 status_code && ltb status_code 300

module _ (lib : Curl) where
  -- A Client but for its error buffer; no headers are the null list, and the callback is one that is there or not.
  pub record Client : Type 0 where
    pub curl : Option lib.Easy
    pub headers : List (List ℕ)
    pub line_cb : Bool
    pub bw_period : ℕ
    pub bw_speed : ℕ

  -- A chain of NSTL_CURL_CHECK of curl_easy_setopt: the first option that is refused throws.
  unfoldable pub set_all : List Setting → lib.Easy → Result (Unit {0}) × lib.Easy
  set_all [] easy = (ok tt, easy)
  set_all (setting ∷ settings) easy =
      let (accepted, next) = lib.setopt easy setting in
      let rest : Result (Unit {0}) × lib.Easy = set_all settings next in
      if accepted then rest else (err nstl_exception, next)

  abbrev pub fresh : Option lib.Easy → Client
  fresh curl = record {
    curl = curl;
    headers = [];
    line_cb = false;
    bw_period = 10;
    bw_speed = 10000;
  }

  abbrev pub first_settings : ℕ → Bool → List Setting
  first_settings address is_verbose =
      no_signal ∷ error_buffer address ∷ (if is_verbose then debug_function ∷ verbose ∷ [] else [])

  abbrev pub constructed : Result (Unit {0}) × lib.Easy → Result Client
  constructed (err thrown, set) = err thrown
  constructed (ok unit, set) = ok (fresh (some set))

  abbrev pub construct_on : ℕ → Bool → Option lib.Easy → Result Client
  construct_on address is_verbose none = err nstl_exception
  construct_on address is_verbose (some easy) =
      constructed (set_all (first_settings address is_verbose) easy)

  -- The constructor of the object at an address.
  unfoldable pub make_client : ℕ → Bool → Result Client
  make_client address is_verbose = construct_on address is_verbose lib.easy_init

  -- `_assign`: the object and the other one behind it. The error buffer's address is set on the handle
  -- that the object had, whose answer is dropped, and which is then freed for the other's.
  unfoldable pub assign : Client → Client → Client × Client
  assign client other = (
    record client { curl = other.curl; headers = other.headers; line_cb = other.line_cb },
    record other { curl = none; headers = []; line_cb = false },
  )

  -- The options that _common sets. `keepcnt` tells whether libcurl is new enough for that option; a
  -- time-out of 0 is one that is not positive.
  abbrev pub common_settings : Bool → Client → List ℕ → ℕ → Bool → List Setting
  common_settings keepcnt client address timeout verify =
      (if ltb 0 timeout then connect_timeout_ms timeout ∷ timeout_ms timeout ∷ [] else [])
      ++ (low_speed_time client.bw_period ∷ low_speed_limit client.bw_speed ∷ [])
      ++ (tcp_keepalive ∷ tcp_keepidle 30 ∷ tcp_keepintvl 10 ∷ [])
      ++ (if keepcnt then tcp_keepcnt 3 ∷ [] else [])
      ++ (write_function ∷ header_function ∷ url address ∷ [])
      ++ elim client.headers [ [] ↦ [] | ◌∷◌ l ls ↦ http_header (l ∷ ls) ∷ [] ]
      ++ (ssl_verify_peer verify ∷ follow_location ∷ max_redirs 10 ∷ [])

  abbrev pub get_settings : List Setting
  get_settings = http_get ∷ write_data ∷ header_data ∷ []

  abbrev pub post_settings : List ℕ → List Setting
  post_settings text =
      post
      ∷ post_field_size (length text)
      ∷ post_fields (elim text [ [] ↦ none | ◌∷◌ c cs ↦ some (c ∷ cs) ])
      ∷ write_data
      ∷ header_data
      ∷ []

  -- The end of get and of post: the answer's code and text, and the lines that the callback gets.
  unfoldable pub run_transfer : Bool → lib.Easy → Result (ℕ × List ℕ) × List (List ℕ) × lib.Easy
  run_transfer line_cb easy =
      let (performed, calls, behind) = lib.perform easy in
      let (known, code) = lib.response_code behind in
      (
        (if not performed
            then err nstl_exception
            else if not known
            then err nstl_exception
            else ok (code, write_calls calls)),
        header_calls line_cb calls,
        behind,
      )

  abbrev pub end_transfer :
      Client → Result (Unit {0}) × lib.Easy → Result (ℕ × List ℕ) × List (List ℕ) × Client
  end_transfer client (err thrown, set) = (err thrown, [], record client { curl = some set })
  end_transfer client (ok unit, set) =
      let (result, lines, behind) = run_transfer client.line_cb set in
      (result, lines, record client { curl = some behind })

  abbrev pub on_handle :
      List Setting → Client → Option lib.Easy → Result (ℕ × List ℕ) × List (List ℕ) × Client
  on_handle wanted client none = (err nstl_exception, [], client)
  on_handle wanted client (some easy) = end_transfer client (set_all wanted easy)

  -- get and post, which differ in their settings. A null pointer for the address is none.
  unfoldable pub transfer :
      Bool
      → List Setting
      → Client
      → Option (List ℕ)
      → ℕ
      → Bool
      → Result (ℕ × List ℕ) × List (List ℕ) × Client
  transfer keepcnt settings client none timeout verify = (err nstl_exception, [], client)
  transfer keepcnt settings client (some address) timeout verify =
      on_handle (common_settings keepcnt client address timeout verify ++ settings) client
        client.curl

  unfoldable pub get_url :
      Bool → Client → Option (List ℕ) → ℕ → Bool → Result (ℕ × List ℕ) × List (List ℕ) × Client
  get_url keepcnt = transfer keepcnt get_settings

  unfoldable pub post_url :
      Bool
      → Client
      → Option (List ℕ)
      → List ℕ
      → ℕ
      → Bool
      → Result (ℕ × List ℕ) × List (List ℕ) × Client
  post_url keepcnt client address text = transfer keepcnt (post_settings text) client address
