-- ===== src/Net/Print/Blobs.antt =====
-- The byte blobs that is_ipv4 of nstl/nstl/ip_tools.cpp takes for IPv4 addresses.
use nstl.Prelude.{
  ℕ, ◌≡◌, refl, sym, ap, ◌∙◌, ◌≢◌, ◌⊎◌, inl, inr, none, some, List, ◌++◌, arith, ◌==◌, ==_iff,
  Bool-cases, length, take, drop, take-append-drop, length-take, length-drop, take_of_ge,
  nstl_exception, ok, err,
}
use nstl.Net.Address.{IpAddrBase, equal_bytes}
use nstl.Net.Print.{is_ipv4, mapped_prefix}
use nstl.Net.Order.Bytes.{equal_bytes_iff}

-- The blob is `a` itself, or `a` mapped into IPv6.
abbrev pub StandsFor : List ℕ → IpAddrBase → Type 0
StandsFor blob a = (length a ≡ 4) × ((blob ≡ a) ⊎ (blob ≡ mapped_prefix ++ a))

mapped_cut :
    (blob : List ℕ)
    → length blob ≡ 16
    → mapped_prefix ≡ take 12 blob
    → blob ≡ mapped_prefix ++ take 4 (drop 12 blob)
mapped_cut blob s m =
    rw (take_of_ge 4 (drop 12 blob) (omega (arith, length-drop 12 blob)))
      (sym (take-append-drop 12 blob) ∙ ap (λ xs. xs ++ drop 12 blob) (sym m))

-- `is_ipv4` throws exactly for sizes other than 4 and 16; what it returns is the IPv4 address that
-- the blob stands for; and it returns nothing only for 16 bytes without the prefix of mapped
-- addresses.
pub is_ipv4_cases :
    (blob : List ℕ)
    → ((length blob ≢ 4) × (length blob ≢ 16) × (is_ipv4 blob ≡ err nstl_exception))
      ⊎ ((a : IpAddrBase) × StandsFor blob a × (is_ipv4 blob ≡ ok (some a)))
      ⊎ ((length blob ≡ 16) × (take 12 blob ≢ mapped_prefix) × (is_ipv4 blob ≡ ok none))
unfolding is_ipv4
is_ipv4_cases blob = elim (Bool-cases (length blob == 4)) [
  | inl e ↦ inr (inl (blob, (ground arith, inl refl), rw e))
  | inr e ↦ elim (Bool-cases (length blob == 16)) [
    | inl s ↦ elim (Bool-cases (equal_bytes mapped_prefix (take 12 blob))) [
      | inl m ↦ inr (
          inl (
            take 4 (drop 12 blob),
            (
              omega (
                arith,
                length-take 4 (drop 12 blob),
                length-drop 12 blob,
                (==_iff (length blob) 16).0 s,
              ),
              inr (mapped_cut blob ((==_iff (length blob) 16).0 s) ((equal_bytes_iff _ _).0 m)),
            ),
            rw (e, s, m),
          ))
      | inr m ↦ inr (
          inr (
            ground arith,
            (λ h. ground (arith, (equal_bytes_iff mapped_prefix (take 12 blob)).1 (sym h))),
            rw (e, s, m),
          ))
    ]
    | inr s ↦ inl (ground arith, ground arith, rw (e, s))
  ]
]
