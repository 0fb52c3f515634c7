-- ===== src/Net/Svcb/RoundTrip.antt =====
-- The parser of service parameters on their wire format (nstl/nstl/dns_tools_posix.cpp).
use nstl.Prelude.{
  ℕ, zero, suc, ◌*◌, ◌/◌, ◌%◌, ◌≤◌, ◌<◌, ◌≡◌, ◌⊎◌, inl, inr, refl, ap, ◌∙◌, Option, none, some,
  List, [], ◌∷◌, ◌++◌, arith, length, length-append, take-append, drop-append, All,
}
use nstl.Net.Address.{IpAddrBase}
use nstl.Net.Svcb.{
  SvcbParam, no_default_alpn, mandatory_keys, doh_path, port, alpn_list, ipv4_hints, ipv6_hints,
  alpn_loop, key_loop, hint_loop, param_of, param_loop, resolve_params, add_param, get16,
}
use nstl.Net.Svcb.Wire.{
  put_keys, put_names, put_addresses, Entry, known, unknown, param_key, param_value, entry_key,
  entry_value, put_entry, put_entries, HasSizes, IsEntry, known_of,
}

key_loop-put_keys : (ks : List ℕ) → key_loop (put_keys ks) ≡ ks
unfolding key_loop
key_loop-put_keys [] = refl
key_loop-put_keys (k ∷ ks) = ground (arith, key_loop-put_keys ks)

length-put_keys : (ks : List ℕ) → length (put_keys ks) % 2 ≡ 0
length-put_keys [] = refl
length-put_keys (k ∷ ks) = omega (arith, length-put_keys ks)

alpn_loop-put_names :
    (fuel : ℕ) (ns : List (List ℕ))
    → length (put_names ns) ≤ fuel
    → alpn_loop fuel (put_names ns) ≡ some ns
unfolding alpn_loop
alpn_loop-put_names fuel [] h = refl
alpn_loop-put_names zero (n ∷ ns) h = absurd (omega arith)
alpn_loop-put_names (suc fuel) (n ∷ ns) h =
    let len = length-append n (put_names ns) in
    let ih = alpn_loop-put_names fuel ns (omega (arith, len)) in
    ground (arith, len, ih, take-append n (put_names ns), drop-append n (put_names ns))

length-put_addresses :
    (step : ℕ) (addrs : List IpAddrBase)
    → All (λ a. length a ≡ step) addrs
    → length (put_addresses addrs) ≡ length addrs * step
length-put_addresses step [] h = omega arith
length-put_addresses step (a ∷ addrs) (h, hs) =
    omega (arith, length-append {0} a (put_addresses addrs), length-put_addresses step addrs hs)

hint_loop-put_addresses :
    (fuel step : ℕ) (addrs : List IpAddrBase)
    → 0 < step
    → All (λ a. length a ≡ step) addrs
    → length (put_addresses addrs) ≤ fuel
    → hint_loop fuel step (put_addresses addrs) ≡ addrs
unfolding hint_loop
hint_loop-put_addresses fuel step [] pos h l = refl
hint_loop-put_addresses fuel step ([] ∷ addrs) pos h l = absurd (omega arith)
hint_loop-put_addresses zero step ((b ∷ a) ∷ addrs) pos h l = absurd (omega arith)
hint_loop-put_addresses (suc fuel) step ((b ∷ a) ∷ addrs) pos (h, hs) l =
    rw (← h, take-append a (put_addresses addrs), drop-append a (put_addresses addrs))
      (ap (◌∷◌ (b ∷ a)) (
        hint_loop-put_addresses fuel (suc (length a)) addrs (omega arith) (rw h hs)
          (omega (arith, length-append {0} a (put_addresses addrs)))))

-- The parameter that a known entry's bytes stand for.
param_of-param_value :
    (p : SvcbParam) → HasSizes p → param_of (param_key p) (param_value p) ≡ some p
unfolding param_of
param_of-param_value (mandatory_keys ks) h =
    ground (arith, key_loop-put_keys ks, length-put_keys ks)
param_of-param_value (alpn_list ns) h =
    ground (arith, alpn_loop-put_names (length (put_names ns)) ns (omega arith))
param_of-param_value no_default_alpn h = refl
param_of-param_value (port n) h = ground arith
param_of-param_value (ipv4_hints addrs) h =
    let len = length-put_addresses 4 addrs h in
    let even : length (put_addresses addrs) % 4 ≡ 0 = omega arith in
    rw (
      even,
      hint_loop-put_addresses (length (put_addresses addrs)) 4 addrs (omega arith) h (omega arith),
    )
param_of-param_value (ipv6_hints addrs) h =
    let len = length-put_addresses 16 addrs h in
    let even : length (put_addresses addrs) % 16 ≡ 0 = omega arith in
    rw (
      even,
      hint_loop-put_addresses (length (put_addresses addrs)) 16 addrs (omega arith) h (omega arith),
    )
param_of-param_value (doh_path s) h = refl

param_of-unknown : (k : ℕ) (v : List ℕ) → (k ≡ 5) ⊎ (7 < k) → param_of k v ≡ none
unfolding param_of
param_of-unknown k v (inl e) = ground (arith, e)
param_of-unknown k v (inr h) = ground arith

get16-put16 : (n : ℕ) → get16 (n / 256) (n % 256) ≡ n
get16-put16 n = omega arith

-- One round reads one entry, known or not.
round :
    (fuel : ℕ) (e : Entry) (rest : List ℕ) (o : Option SvcbParam)
    → param_of (entry_key e) (entry_value e) ≡ o
    → param_loop (suc fuel) (put_entry e ++ rest) ≡ add_param o (param_loop fuel rest)
unfolding param_loop
round fuel e rest o h =
    let n = length (entry_value e) in
    rw
      (
        get16-put16 (entry_key e),
        get16-put16 n,
        take-append (entry_value e) rest,
        drop-append (entry_value e) rest,
        h,
      )
      (ground (arith, length-append (entry_value e) rest))

entries :
    (fuel : ℕ) (es : List Entry)
    → All IsEntry es
    → length (put_entries es) ≤ fuel
    → param_loop fuel (put_entries es) ≡ known_of es
entries zero [] h l = unfold param_loop in refl
entries (suc fuel) [] h l = unfold param_loop in refl
entries zero (e ∷ es) h l = absurd (omega arith)
entries (suc fuel) (known p ∷ es) ((sizes, _), hs) l =
    round fuel (known p) (put_entries es) (some p) (param_of-param_value p sizes)
    ∙ ap (◌∷◌ p)
        (entries fuel es hs (omega (arith, length-append {0} (param_value p) (put_entries es))))
entries (suc fuel) (unknown k v ∷ es) ((above, _, _), hs) l =
    round fuel (unknown k v) (put_entries es) none (param_of-unknown k v above)
    ∙ entries fuel es hs (omega (arith, length-append {0} v (put_entries es)))

-- From the wire format of entries whose numbers and sizes fit their fields the parser gets back the
-- parameters in order, and skips the keys that it does not know, that of encrypted hellos (5)
-- and all above 7.
pub resolve_params-put_entries :
    (es : List Entry) → All IsEntry es → resolve_params (put_entries es) ≡ known_of es
unfolding resolve_params
resolve_params-put_entries es h = entries (length (put_entries es)) es h (omega arith)
