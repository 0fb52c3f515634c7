-- ===== src/Net/Order/Ranges.antt =====
-- The order and the equality of ranges, and membership in a list of ranges
-- (nstl/nstl/ip_tools.cpp).
use nstl.Prelude.{
  ◌≡◌, refl, ap, ◌↔◌, ◌⊎◌, inl, inr, true, false, List, [], ◌∷◌, ◌++◌, arith, Bool-cases,
}
use nstl.Net.Address.{IpRangeBase, IpAddrBase, contains}
use nstl.Net.Order.{range_eq, range_less, IpRangeGen, ipv4_range, ipv6_range, checker, contains_any}
use nstl.Net.Print.{ipv4_addr}
use nstl.Net.Order.Bytes.{less_bytes_trichotomy}

-- Of two ranges exactly one holds: the first is less, they are equal, or the second is less.
pub range_trichotomy :
    (l r : IpRangeBase)
    → ((range_less l r ≡ true) × (range_eq l r ≡ false) × (range_less r l ≡ false))
      ⊎ ((range_less l r ≡ false) × (range_eq l r ≡ true) × (range_less r l ≡ false))
      ⊎ ((range_less l r ≡ false) × (range_eq l r ≡ false) × (range_less r l ≡ true))
unfolding range_less range_eq
range_trichotomy l r =
    ground (arith, less_bytes_trichotomy l.base r.base, less_bytes_trichotomy l.mask r.mask)

abbrev Holds : List IpRangeGen → IpAddrBase → Type 0
Holds ranges a =
    (xs : List IpRangeGen) × (ys : List IpRangeGen) × (r : IpRangeBase) × (ranges
      ≡ xs ++ ipv4_range r ∷ ys)
    × (contains r a ≡ true)

found :
    (ranges : List IpRangeGen) (a : IpAddrBase)
    → contains_any ranges (ipv4_addr a) ≡ true
    → Holds ranges a
unfolding contains_any checker
found [] a e = cc
found (ipv6_range r ∷ ranges) a e =
    let (xs, ys, s, cut, held) = found ranges a e in
    (ipv6_range r ∷ xs, ys, s, ap (◌∷◌ (ipv6_range r)) cut, held)
found (ipv4_range r ∷ ranges) a e = elim (Bool-cases (contains r a)) [
  | inl here ↦ ([], ranges, r, refl, here)
  | inr there ↦
      let (xs, ys, s, cut, held) = found ranges a (ground (arith, there)) in
      (ipv4_range r ∷ xs, ys, s, ap (◌∷◌ (ipv4_range r)) cut, held)
]

holds :
    (xs ys : List IpRangeGen) (r : IpRangeBase) (a : IpAddrBase)
    → contains r a ≡ true
    → contains_any (xs ++ ipv4_range r ∷ ys) (ipv4_addr a) ≡ true
unfolding contains_any checker
holds [] ys r a e = rw e
holds (x ∷ xs) ys r a e = ground (arith, holds xs ys r a e)

-- A list of ranges contains an IPv4 address exactly when an IPv4 range in it does.
pub contains_any_iff :
    (ranges : List IpRangeGen) (a : IpAddrBase)
    → (contains_any ranges (ipv4_addr a) ≡ true) ↔ (
        (xs : List IpRangeGen) × (ys : List IpRangeGen) × (r : IpRangeBase) × (ranges
          ≡ xs ++ ipv4_range r ∷ ys)
        × (contains r a ≡ true))
contains_any_iff ranges a =
    (found ranges a, λ (xs, ys, r, cut, held). rw cut (holds xs ys r a held))
