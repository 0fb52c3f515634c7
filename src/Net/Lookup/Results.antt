-- ===== src/Net/Lookup/Results.antt =====
-- What ips_name and canonical_name of nstl/nstl/dns_tools.cpp return.
use nstl.Prelude.{
  ℕ, ◌≤◌, ◌<◌, ◌≡◌, refl, sym, ap, ◌∙◌, ◌⊎◌, inl, inr, true, Option, none, some, List, [], ◌∷◌,
  ◌++◌, append-nil, append_assoc, arith, length, take, nstl_exception, Result, ok, err, c_string,
}
use nstl.Net.Address.{IpAddrBase, ipv4_size, ipv6_size}
use nstl.Net.Inet.{Family, inet, inet6}
use nstl.Net.Print.{IpAddrGen, ipv4_addr, ipv6_addr}
use nstl.Net.Records.{push_optional}
use nstl.Net.Records.Query.{non_empty}
use nstl.Net.Lookup.{
  ipv4, ipv6, ipv_all, stack_name, AddrInfo, Hints, Answer, success, host_not_found, failure,
  address_loop, answered, IpClass, unknown, class_family, ips_name, addrconfig,
}

abbrev of_family : Option Family → IpAddrBase → List IpAddrGen
of_family none a = []
of_family (some inet) a = ipv4_addr (take ipv4_size a) ∷ []
of_family (some inet6) a = ipv6_addr (take ipv6_size a) ∷ []

-- The IP addresses among the records, in their order.
abbrev pub addresses : List AddrInfo → List IpAddrGen
addresses [] = []
addresses (info ∷ infos) = of_family info.family info.address ++ addresses infos

family_cases : (o : Option Family) → (o ≡ none) ⊎ (o ≡ some inet) ⊎ (o ≡ some inet6)
family_cases none = inl refl
family_cases (some inet) = inr (inl refl)
family_cases (some inet6) = inr (inr refl)

address_loop-some :
    (infos : List AddrInfo) (found : List IpAddrGen)
    → address_loop infos (some found) ≡ some (found ++ addresses infos)
unfolding address_loop push_optional
address_loop-some [] found = ap some (sym (append-nil found))
address_loop-some (info ∷ infos) found = elim (family_cases info.family) [
  | inl e ↦ rw e (address_loop-some infos found)
  | inr (inl e) ↦
      let a = ipv4_addr (take ipv4_size info.address) in
      rw e (
        address_loop-some infos (found ++ a ∷ [])
        ∙ ap some (append_assoc found (a ∷ []) (addresses infos)))
  | inr (inr e) ↦
      let a = ipv6_addr (take ipv6_size info.address) in
      rw e (
        address_loop-some infos (found ++ a ∷ [])
        ∙ ap some (append_assoc found (a ∷ []) (addresses infos)))
]

address_loop_lem : (infos : List AddrInfo) → address_loop infos none ≡ non_empty (addresses infos)
unfolding address_loop push_optional
address_loop_lem [] = refl
address_loop_lem (info ∷ infos) = elim (family_cases info.family) [
  | inl e ↦ rw e (address_loop_lem infos)
  | inr (inl e) ↦ rw e (address_loop-some infos (ipv4_addr (take ipv4_size info.address) ∷ []))
  | inr (inr e) ↦ rw e (address_loop-some infos (ipv6_addr (take ipv6_size info.address) ∷ []))
]

-- A name of 1 to 255 bytes.
abbrev pub FitsHost : List ℕ → Type 0
FitsHost name = (0 < length name) × (length name < 256)

pub stack_name_fits : (name : List ℕ) → FitsHost name → stack_name name ≡ ok (c_string name)
unfolding stack_name
stack_name_fits name (some_byte, short) = ground arith

stack_name_refuses :
    (name : List ℕ) → (length name ≡ 0) ⊎ (256 ≤ length name) → stack_name name ≡ err nstl_exception
unfolding stack_name
stack_name_refuses name h = ground arith

answered_same :
    (a : Answer)
    → answered (λ infos. address_loop infos none) a
      ≡ answered (λ infos. non_empty (addresses infos)) a
answered_same (success infos) = ap ok (address_loop_lem infos)
answered_same host_not_found = refl
answered_same failure = refl

host_cases : (name : List ℕ) → FitsHost name ⊎ ((length name ≡ 0) ⊎ (256 ≤ length name))
host_cases name = ground arith

class_cases :
    (class : IpClass) → ((f : Option Family) × (class_family class ≡ ok f)) ⊎ (class ≡ unknown)
class_cases ipv4 = inl (some inet, refl)
class_cases ipv6 = inl (some inet6, refl)
class_cases ipv_all = inl (none, refl)
class_cases unknown = inr refl

module _ (getaddrinfo : List ℕ → Hints → Answer) where
  abbrev pub listed : Option Family → List ℕ → Result (Option (List IpAddrGen))
  listed f name =
      answered (λ infos. non_empty (addresses infos))
        (getaddrinfo (c_string name)
          (record { ai_family = f; ai_flags = addrconfig; stream = true }))

  ips_name_found :
      (name : List ℕ) (class : IpClass) {f : Option Family}
      → FitsHost name
      → class_family class ≡ ok f
      → ips_name getaddrinfo name class ≡ listed f name
  unfolding ips_name
  ips_name_found name class {f} h e =
      rw (stack_name_fits name h, e)
        (answered_same (
          getaddrinfo (c_string name)
            (record { ai_family = f; ai_flags = addrconfig; stream = true })))

  ips_name_unknown :
      (name : List ℕ) → FitsHost name → ips_name getaddrinfo name unknown ≡ err nstl_exception
  unfolding ips_name
  ips_name_unknown name h = rw (stack_name_fits name h) refl

  ips_name_refuses :
      (name : List ℕ) (class : IpClass)
      → (length name ≡ 0) ⊎ (256 ≤ length name)
      → ips_name getaddrinfo name class ≡ err nstl_exception
  unfolding ips_name
  ips_name_refuses name class h = rw (stack_name_refuses name h) refl

  -- For a name of 1 to 255 bytes and a known class, ips_name asks for the name up to its first NUL
  -- and the class's family, and returns the IP addresses of the answer in their order, or nothing
  -- rather than an empty list. Every other name or class is refused.
  pub ips_name_cases :
      (name : List ℕ) (class : IpClass)
      → (FitsHost name
          × ((f : Option Family) × (class_family class ≡ ok f)
              × (ips_name getaddrinfo name class ≡ listed f name)))
        ⊎ (((length name ≡ 0) ⊎ (256 ≤ length name) ⊎ (class ≡ unknown))
            × (ips_name getaddrinfo name class ≡ err nstl_exception))
  ips_name_cases name class = elim (host_cases name) [
    | inr (inl e) ↦ inr (inl e, ips_name_refuses name class (inl e))
    | inr (inr e) ↦ inr (inr (inl e), ips_name_refuses name class (inr e))
    | inl fits ↦ elim (class_cases class) [
      | inl (f, e) ↦ inl (fits, (f, e, ips_name_found name class fits e))
      | inr e ↦ inr (inr (inr e), rw e (ips_name_unknown name fits))
    ]
  ]
