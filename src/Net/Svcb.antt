-- ===== src/Net/Svcb.antt =====
-- Service parameters of SVCB and HTTPS records: `resolve_params` of nstl/nstl/dns_tools_posix.cpp.
-- A pointer and the end of its buffer are the list of the bytes between them. The counters `idx` of
-- the source are 16 bits wide and stop at `len`, a multiple of their step, so they never wrap.
pub mod Wire
pub mod RoundTrip
use nstl.Prelude.{
  ℕ, zero, suc, ◌+◌, ◌-◌, ◌*◌, ◌/◌, ◌%◌, ◌^◌, ◌≤◌, ◌<◌, min, ◌≡◌, refl, sym, ap, ◌∙◌, ◌≢◌, ◌↔◌, ◌⊎◌,
  inl, inr, Bool, true, false, ◌&&◌, ◌||◌, not, Option, none, some, List, [], ◌∷◌, ◌++◌, map,
  append-nil, append_assoc, arith, ltb, leb, ◌==◌, if◌then◌else◌, ltb→lt, lt→ltb, leb→le, le→leb,
  ==_iff, tests, Bool-cases, Option-cases, all_below, all_below_sound, length, get_elem?, take,
  drop, replicate, length-append, take-append-drop, length-take, length-drop, length-replicate,
  take-append, drop-append, take-append_of_le, take-append_of_ge, append-replicate, take_of_ge,
  drop_of_ge, length-map, All, All-append, Exception, nstl_exception, length_error, bad_alloc,
  runtime_error, out_of_range, invalid_argument, Result, ok, err, ◌>>=◌, ◌>>◌, throw_if, >>=-eq-ok,
  Result-cases, get_elem?_of_lt, nil_of_length, find, codes, drop_next,
}
use nstl.Net.Address.{IpAddrBase, ipv4_size, ipv6_size}

-- The variant svcb_param, its alternatives in order.
pub data SvcbParam : Type 0 where
  no_default_alpn : SvcbParam
  mandatory_keys : List ℕ → SvcbParam
  doh_path : List ℕ → SvcbParam
  port : ℕ → SvcbParam
  alpn_list : List (List ℕ) → SvcbParam
  ipv4_hints ipv6_hints : List IpAddrBase → SvcbParam

-- ns_get16.
abbrev pub get16 : ℕ → ℕ → ℕ
get16 hi lo = hi * 256 + lo

-- The loop over the protocol names; `none` is the flag `valid` cleared.
unfoldable pub alpn_loop : ℕ → List ℕ → Option (List (List ℕ))
alpn_loop fuel [] = some []
alpn_loop zero (l ∷ q) = none
alpn_loop (suc fuel) (l ∷ q) =
    let rest : Option (List (List ℕ)) = elim (alpn_loop fuel (drop l q)) [
      | none ↦ none
      | some values ↦ some (take l q ∷ values)
    ] in
    if ltb (length q) l then none else rest

unfoldable pub key_loop : List ℕ → List ℕ
key_loop [] = []
key_loop (hi ∷ []) = []
key_loop (hi ∷ lo ∷ v) = get16 hi lo ∷ key_loop v

-- The loop over addresses of `step` bytes; the fuel is the number of bytes.
unfoldable pub hint_loop : ℕ → ℕ → List ℕ → List IpAddrBase
hint_loop fuel step [] = []
hint_loop zero step (b ∷ v) = []
hint_loop (suc fuel) step (b ∷ v) = take step (b ∷ v) ∷ hint_loop fuel step (drop step (b ∷ v))

unfoldable pub alpn_param : List ℕ → Option SvcbParam
unfolding alpn_loop
alpn_param v = elim (alpn_loop (length v) v) [ none ↦ none | some alpns ↦ some (alpn_list alpns) ]

unfoldable pub port_param : List ℕ → Option SvcbParam
port_param [] = none
port_param (hi ∷ []) = none
port_param (hi ∷ lo ∷ []) = some (port (get16 hi lo))
port_param (hi ∷ lo ∷ x ∷ v) = none

-- The switch over the key; `none` where nothing is added to the result.
unfoldable pub param_of : ℕ → List ℕ → Option SvcbParam
unfolding alpn_param port_param key_loop hint_loop
param_of key v =
    if key == 1
    then alpn_param v
    else if key == 3
    then port_param v
    else if key == 0
    then (if length v % 2 == 0 then some (mandatory_keys (key_loop v)) else none)
    else if key == 4
    then (if length v % ipv4_size == 0
        then some (ipv4_hints (hint_loop (length v) ipv4_size v))
        else none)
    else if key == 6
    then (if length v % ipv6_size == 0
        then some (ipv6_hints (hint_loop (length v) ipv6_size v))
        else none)
    else if key == 2
    then some no_default_alpn
    else if key == 7
    then some (doh_path v)
    else none

abbrev pub add_param : Option SvcbParam → List SvcbParam → List SvcbParam
add_param none ps = ps
add_param (some p) ps = p ∷ ps

-- One round reads a key and a length, and stops where fewer bytes are left than either needs.
unfoldable pub param_loop : ℕ → List ℕ → List SvcbParam
param_loop zero p = []
param_loop (suc fuel) (k1 ∷ k0 ∷ l1 ∷ l0 ∷ v) =
    let len = get16 l1 l0 in
    let rest = add_param (param_of (get16 k1 k0) (take len v)) (param_loop fuel (drop len v)) in
    if ltb (length v) len then [] else rest
param_loop (suc fuel) p = []

unfoldable pub resolve_params : List ℕ → List SvcbParam
resolve_params p = param_loop (length p) p
