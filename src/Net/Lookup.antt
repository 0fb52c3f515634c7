-- ===== src/Net/Lookup.antt =====
-- Host names and their addresses, nstl/nstl/dns_tools.cpp. getaddrinfo is an argument: the records
-- that it lists, EAI_NONAME, or another failure.
pub mod Results
use nstl.Prelude.{
  ℕ, zero, suc, ◌+◌, ◌-◌, ◌*◌, ◌/◌, ◌%◌, ◌^◌, ◌≤◌, ◌<◌, min, ◌≡◌, refl, sym, ap, ◌∙◌, ◌≢◌, ◌↔◌, ◌⊎◌,
  inl, inr, Bool, true, false, ◌&&◌, ◌||◌, not, Option, none, some, List, [], ◌∷◌, ◌++◌, map,
  append-nil, append_assoc, arith, ltb, leb, ◌==◌, if◌then◌else◌, ltb→lt, lt→ltb, leb→le, le→leb,
  ==_iff, tests, Bool-cases, Option-cases, all_below, all_below_sound, length, get_elem?, take,
  drop, replicate, length-append, take-append-drop, length-take, length-drop, length-replicate,
  take-append, drop-append, take-append_of_le, take-append_of_ge, append-replicate, take_of_ge,
  drop_of_ge, length-map, All, All-append, Exception, nstl_exception, length_error, bad_alloc,
  runtime_error, out_of_range, invalid_argument, Result, ok, err, ◌>>=◌, ◌>>◌, throw_if, >>=-eq-ok,
  Result-cases, get_elem?_of_lt, nil_of_length, find, c_string, codes, drop_next,
}
use nstl.Net.Address.{IpAddrBase, ipv4_size, ipv6_size}
use nstl.Net.Inet.{Family, inet, inet6}
use nstl.Net.Print.{IpAddrGen, ipv4_addr, ipv6_addr}
use nstl.Net.Records.{push_optional}

abbrev pub max_host_size : ℕ
max_host_size = 256

-- The C string in the array that stack_name returns.
unfoldable pub stack_name : List ℕ → Result (List ℕ)
stack_name name = do
  throw_if (length name == 0) nstl_exception
  throw_if (leb max_host_size (length name)) nstl_exception
  ok (c_string name)

-- One addrinfo: `address` holds the bytes of its sin_addr or sin6_addr, and `family` is `none` where
-- it is neither AF_INET nor AF_INET6.
pub record AddrInfo : Type 0 where
  pub family : Option Family
  pub address : IpAddrBase
  pub canonname : Option (List ℕ)

pub data Flags : Type 0 where
  canonname addrconfig : Flags

-- `ai_family` is `none` for AF_UNSPEC, and `stream` tells whether SOCK_STREAM is set.
pub record Hints : Type 0 where
  pub ai_family : Option Family
  pub ai_flags : Flags
  pub stream : Bool

pub data Answer : Type 0 where
  success : List AddrInfo → Answer
  host_not_found failure : Answer

unfoldable pub canonname_loop : List AddrInfo → Option (List ℕ)
canonname_loop [] = none
canonname_loop (info ∷ infos) = elim info.canonname [
  | none ↦ canonname_loop infos
  | some name ↦ some name
]

unfoldable pub address_loop : List AddrInfo → Option (List IpAddrGen) → Option (List IpAddrGen)
address_loop [] retval = retval
address_loop (info ∷ infos) retval = elim info.family [
  | none ↦ address_loop infos retval
  | some f ↦ elim f [
    | inet ↦ address_loop infos (push_optional retval (ipv4_addr (take ipv4_size info.address)))
    | inet6 ↦ address_loop infos (push_optional retval (ipv6_addr (take ipv6_size info.address)))
  ]
]

-- Both functions return nothing for an unknown host, and throw where the resolver fails otherwise.
abbrev pub answered : {A : Type 0} → (List AddrInfo → Option A) → Answer → Result (Option A)
answered found (success infos) = ok (found infos)
answered found host_not_found = ok none
answered found failure = err nstl_exception

-- The enumeration IpClass; `unknown` is any other value that a cast makes.
pub data IpClass : Type 0 where
  ipv4 ipv6 ipv_all unknown : IpClass

abbrev pub class_family : IpClass → Result (Option Family)
class_family ipv4 = ok (some inet)
class_family ipv6 = ok (some inet6)
class_family ipv_all = ok none
class_family unknown = err nstl_exception

module _ (getaddrinfo : List ℕ → Hints → Answer) where
  unfoldable pub canonical_name : List ℕ → Result (Option (List ℕ))
  canonical_name name = stack_name name >>= λ host.
      answered canonname_loop
        (getaddrinfo host (record { ai_family = none; ai_flags = canonname; stream = false }))

  unfoldable pub ips_name : List ℕ → IpClass → Result (Option (List IpAddrGen))
  ips_name name class = stack_name name >>= λ host. class_family class >>= λ family.
      answered (λ infos. address_loop infos none)
        (getaddrinfo host (record { ai_family = family; ai_flags = addrconfig; stream = true }))
