-- ===== src/Net/Order.antt =====
-- The orders of nstl/nstl/ip_tools.hpp and ip_tools.cpp: equality and `<` of ranges of one family,
-- the order ip_range_less over both families, and membership in a list of ranges.
pub mod Bytes
pub mod Laws
pub mod Ranges
use nstl.Prelude.{
  ℕ, zero, suc, ◌+◌, ◌-◌, ◌*◌, ◌/◌, ◌%◌, ◌^◌, ◌≤◌, ◌<◌, min, ◌≡◌, refl, sym, ap, ◌∙◌, ◌≢◌, ◌↔◌, ◌⊎◌,
  inl, inr, Bool, true, false, ◌&&◌, ◌||◌, not, Option, none, some, List, [], ◌∷◌, ◌++◌, map,
  append-nil, append_assoc, arith, ltb, leb, ◌==◌, if◌then◌else◌, ltb→lt, lt→ltb, leb→le, le→leb,
  ==_iff, tests, Bool-cases, Option-cases, all_below, all_below_sound, length, get_elem?, take,
  drop, replicate, length-append, take-append-drop, length-take, length-drop, length-replicate,
  take-append, drop-append, take-append_of_le, take-append_of_ge, append-replicate, take_of_ge,
  drop_of_ge, length-map, All, All-append, Exception, nstl_exception, length_error, bad_alloc,
  runtime_error, out_of_range, invalid_argument, Result, ok, err, ◌>>=◌, ◌>>◌, throw_if,
}
use nstl.Net.Address.{IpAddrBase, IpRangeBase, equal_bytes, contains, ipv4_size, ipv6_size}
use nstl.Net.Print.{IpAddrGen, ipv4_addr, ipv6_addr}

-- std::array::operator<, the lexicographic order of the bytes.
unfoldable pub less_bytes : List ℕ → List ℕ → Bool
less_bytes [] [] = false
less_bytes [] (y ∷ b) = true
less_bytes (x ∷ a) [] = false
less_bytes (x ∷ a) (y ∷ b) = ltb x y || ((x == y) && less_bytes a b)

-- operator== and operator< of ipv4_range and of ipv6_range compare the tuples (ip, mask).
unfoldable pub range_eq : IpRangeBase → IpRangeBase → Bool
range_eq l r = equal_bytes l.base r.base && equal_bytes l.mask r.mask

unfoldable pub range_less : IpRangeBase → IpRangeBase → Bool
range_less l r =
    less_bytes l.base r.base || (not (less_bytes r.base l.base) && less_bytes l.mask r.mask)

-- std::variant<ipv4_range, ipv6_range>.
pub data IpRangeGen : Type 0 where
  ipv4_range ipv6_range : IpRangeBase → IpRangeGen

-- The four overloads of ip_range_less on operands whose sizes are template arguments.
unfoldable pub sized_less : ℕ → ℕ → IpAddrBase → IpAddrBase → Bool
sized_less l_size r_size l r =
    if ltb l_size r_size then true else if ltb r_size l_size then false else less_bytes l r

-- ip_range_less on variants: std::visit picks the overload, which takes a range's address.
abbrev pub gen_size : IpAddrGen → ℕ
gen_size (ipv4_addr a) = ipv4_size
gen_size (ipv6_addr a) = ipv6_size

abbrev pub gen_bytes : IpAddrGen → IpAddrBase
gen_bytes (ipv4_addr a) = a
gen_bytes (ipv6_addr a) = a

abbrev pub range_key : IpRangeGen → IpAddrGen
range_key (ipv4_range r) = ipv4_addr r.base
range_key (ipv6_range r) = ipv6_addr r.base

unfoldable pub addr_less_addr : IpAddrGen → IpAddrGen → Bool
unfolding sized_less
addr_less_addr l r = sized_less (gen_size l) (gen_size r) (gen_bytes l) (gen_bytes r)

unfoldable pub range_less_addr : IpRangeGen → IpAddrGen → Bool
unfolding addr_less_addr
range_less_addr l r = addr_less_addr (range_key l) r

unfoldable pub addr_less_range : IpAddrGen → IpRangeGen → Bool
unfolding addr_less_addr
addr_less_range l r = addr_less_addr l (range_key r)

unfoldable pub range_less_range : IpRangeGen → IpRangeGen → Bool
unfolding addr_less_addr
range_less_range l r = addr_less_addr (range_key l) (range_key r)

-- address_checker: a range of the other family does not contain the address.
unfoldable pub checker : IpAddrGen → IpRangeGen → Bool
checker (ipv4_addr a) (ipv4_range r) = contains r a
checker (ipv4_addr a) (ipv6_range r) = false
checker (ipv6_addr a) (ipv4_range r) = false
checker (ipv6_addr a) (ipv6_range r) = contains r a

-- The three functions `contains` over a span of ranges.
unfoldable pub contains_any : List IpRangeGen → IpAddrGen → Bool
contains_any [] a = false
contains_any (r ∷ ranges) a = checker a r || contains_any ranges a
