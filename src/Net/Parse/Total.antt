-- ===== src/Net/Parse/Total.antt =====
-- The results of the range parsers of nstl/nstl/ip_tools.cpp, for every text.
use nstl.Prelude.{
  c_string, ℕ, ◌+◌, ◌*◌, ◌≤◌, ◌≡◌, refl, ◌⊎◌, inl, inr, Option, none, some, List, arith, ◌==◌,
  Bool-cases, Option-cases, length, drop, Result, ok, ◌>>=◌,
}
use nstl.Prelude.{find}
use nstl.Net.Address.{IpAddrBase, IpRangeBase, range_of_bits, mask_bytes, IsAddr, IsRange}
use nstl.Net.Address.Mask.{mask_bytes-IsAddr}
use nstl.Net.Inet.{Inet, InetLaws, Family, family_size}
use nstl.Net.Parse.{
  parse_ip_address, parse_mask, invalid_mask, range_behind, range_at, parse_ip_range, ip_part,
}

parse_mask_fits :
    (ip_size : ℕ) (v : List ℕ)
    → (parse_mask ip_size v ≡ invalid_mask) ⊎ (parse_mask ip_size v ≤ ip_size * 8)
unfolding parse_mask
parse_mask_fits ip_size v = ground arith

range_of_bits_total :
    (ip_size bits : ℕ) (ip : IpAddrBase)
    → bits ≤ ip_size * 8
    → range_of_bits ip_size ip bits ≡ ok (record { base = ip; mask = mask_bytes ip_size bits })
unfolding range_of_bits
range_of_bits_total ip_size bits ip h = ground arith

abbrev AllOption {ℓ κ} : {A : Type ℓ} → (A → Type κ) → Option A → Type κ
AllOption P none = Unit
AllOption P (some a) = P a

-- The call returns, and a range that it returns is one of `ip_size` bytes.
abbrev pub Returns : ℕ → Result (Option IpRangeBase) → Type 0
Returns ip_size r = (o : Option IpRangeBase) × (r ≡ ok o) × AllOption (IsRange ip_size) o

module _ (lib : Inet) (laws : InetLaws lib) (f : Family) where
  parse_ip_address-IsAddr :
      (v : List ℕ) (a : IpAddrBase) → parse_ip_address lib f v ≡ some a → IsAddr (family_size f) a
  unfolding parse_ip_address
  parse_ip_address-IsAddr v a e = laws.pton-IsAddr f (c_string v) a (ground arith)

  prefix-Returns :
      (ip : IpAddrBase) (m : ℕ)
      → IsAddr (family_size f) ip
      → m ≤ family_size f * 8
      → Returns (family_size f) (range_of_bits (family_size f) ip m >>= λ r. ok (some r))
  prefix-Returns ip m hi h = rw (range_of_bits_total (family_size f) m ip h) (
    some (record { base = ip; mask = mask_bytes (family_size f) m }),
    refl,
    (hi, mask_bytes-IsAddr (family_size f) m),
  )

  masked-Returns :
      (ip : IpAddrBase) (v : List ℕ) (o : Option IpAddrBase)
      → IsAddr (family_size f) ip
      → parse_ip_address lib f v ≡ o
      → AllOption
          (IsRange (family_size f))
          (elim o [ none ↦ none | some ip_mask ↦ some (record { base = ip; mask = ip_mask }) ])
  masked-Returns ip v none hi e = tt
  masked-Returns ip v (some a) hi e = (hi, parse_ip_address-IsAddr v a e)

  range_behind-Returns :
      (ip : IpAddrBase) (v : List ℕ)
      → IsAddr (family_size f) ip
      → Returns (family_size f) (range_behind lib (family_size f) f ip v)
  unfolding range_behind
  range_behind-Returns ip v hi = elim (Bool-cases (length v == 0)) [
    | inl e ↦ rw e (none, refl, tt)
    | inr e ↦ elim (Bool-cases (parse_mask (family_size f) v == invalid_mask)) [
      | inl m ↦ rw (e, m) (_, refl, masked-Returns ip v _ hi refl)
      | inr m ↦
          rw (e, m) (prefix-Returns ip _ hi (ground (arith, parse_mask_fits (family_size f) v)))
    ]
  ]

  range_at-Returns :
      (pos : Option ℕ) (v : List ℕ) (ip : IpAddrBase)
      → IsAddr (family_size f) ip
      → Returns (family_size f) (range_at lib (family_size f) f pos v ip)
  unfolding range_at
  range_at-Returns none v ip hi = prefix-Returns ip (family_size f * 8) hi (omega arith)
  range_at-Returns (some pos) v ip hi = range_behind-Returns ip (drop (pos + 1) v) hi

  -- With an inet_pton and inet_ntop that keep their laws, the range parser throws nothing, whatever
  -- the text; a range that it returns has an address and a netmask of the family's size.
  pub parse_ip_range-Returns :
      (v : List ℕ) → Returns (family_size f) (parse_ip_range lib (family_size f) f v)
  unfolding parse_ip_range
  parse_ip_range-Returns v =
      elim (Option-cases (parse_ip_address lib f (ip_part lib (find b'/' v) v))) [
        | inl e ↦ rw (e, parse_ip_range) (none, refl, tt)
        | inr (a, e) ↦
            rw (e, parse_ip_range)
              (range_at-Returns (find b'/' v) v a (parse_ip_address-IsAddr _ a e))
      ]
