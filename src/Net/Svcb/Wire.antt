-- ===== src/Net/Svcb/Wire.antt =====
-- The wire format of service parameters (RFC 9460), as a description to compare the parser with.
use nstl.Prelude.{ℕ, ◌/◌, ◌%◌, ◌^◌, ◌<◌, ◌≡◌, ◌⊎◌, List, [], ◌∷◌, ◌++◌, length, All}
use nstl.Net.Address.{IpAddrBase}
use nstl.Net.Svcb.{
  SvcbParam, no_default_alpn, mandatory_keys, doh_path, port, alpn_list, ipv4_hints, ipv6_hints,
}

abbrev pub put16 : ℕ → List ℕ
put16 n = n / 256 ∷ n % 256 ∷ []

abbrev pub put_keys : List ℕ → List ℕ
put_keys [] = []
put_keys (k ∷ ks) = k / 256 ∷ k % 256 ∷ put_keys ks

abbrev pub put_names : List (List ℕ) → List ℕ
put_names [] = []
put_names (n ∷ ns) = length n ∷ (n ++ put_names ns)

abbrev pub put_addresses : List IpAddrBase → List ℕ
put_addresses [] = []
put_addresses (a ∷ addrs) = a ++ put_addresses addrs

-- An entry on the wire: a parameter that the program knows, or another key with its bytes. The
-- program knows the keys up to 7 but for 5.
pub data Entry : Type 0 where
  known : SvcbParam → Entry
  unknown : ℕ → List ℕ → Entry

abbrev pub param_key : SvcbParam → ℕ
param_key (mandatory_keys ks) = 0
param_key (alpn_list ns) = 1
param_key no_default_alpn = 2
param_key (port n) = 3
param_key (ipv4_hints addrs) = 4
param_key (ipv6_hints addrs) = 6
param_key (doh_path s) = 7

abbrev pub param_value : SvcbParam → List ℕ
param_value (mandatory_keys ks) = put_keys ks
param_value (alpn_list ns) = put_names ns
param_value no_default_alpn = []
param_value (port n) = put16 n
param_value (ipv4_hints addrs) = put_addresses addrs
param_value (ipv6_hints addrs) = put_addresses addrs
param_value (doh_path s) = s

abbrev pub entry_key : Entry → ℕ
entry_key (known p) = param_key p
entry_key (unknown k v) = k

abbrev pub entry_value : Entry → List ℕ
entry_value (known p) = param_value p
entry_value (unknown k v) = v

abbrev pub put_entry : Entry → List ℕ
put_entry e =
    entry_key e / 256
    ∷ entry_key e % 256
    ∷ length (entry_value e) / 256
    ∷ length (entry_value e) % 256
    ∷ entry_value e

abbrev pub put_entries : List Entry → List ℕ
put_entries [] = []
put_entries (e ∷ es) = put_entry e ++ put_entries es

-- The addresses have the size of their family; the other values are free.
abbrev pub HasSizes : SvcbParam → Type 0
HasSizes (ipv4_hints addrs) = All (λ a. length a ≡ 4) addrs
HasSizes (ipv6_hints addrs) = All (λ a. length a ≡ 16) addrs
HasSizes _ = Unit

abbrev pub IsEntry : Entry → Type 0
IsEntry (known p) = HasSizes p × (length (param_value p) < 2 ^ 16)
IsEntry (unknown k v) = ((k ≡ 5) ⊎ (7 < k)) × (k < 2 ^ 16) × (length v < 2 ^ 16)

abbrev pub known_of : List Entry → List SvcbParam
known_of [] = []
known_of (known p ∷ es) = p ∷ known_of es
known_of (unknown k v ∷ es) = known_of es
