-- ===== src/Net/Print.antt =====
-- The printers of nstl/nstl/ip_tools.cpp, and the recognition of IPv4 addresses among byte blobs.
pub mod Blobs
use nstl.Prelude.{
  ℕ, zero, suc, ◌+◌, ◌-◌, ◌*◌, ◌/◌, ◌%◌, ◌^◌, ◌≤◌, ◌<◌, min, ◌≡◌, refl, sym, ap, ◌∙◌, ◌≢◌, ◌↔◌, ◌⊎◌,
  inl, inr, Bool, true, false, ◌&&◌, ◌||◌, not, Option, none, some, List, [], ◌∷◌, ◌++◌, map,
  append-nil, append_assoc, arith, ltb, leb, ◌==◌, if◌then◌else◌, ltb→lt, lt→ltb, leb→le, le→leb,
  ==_iff, tests, Bool-cases, Option-cases, all_below, all_below_sound, length, get_elem?, take,
  drop, replicate, length-append, take-append-drop, length-take, length-drop, length-replicate,
  take-append, drop-append, take-append_of_le, take-append_of_ge, append-replicate, take_of_ge,
  drop_of_ge, length-map, All, All-append, Exception, nstl_exception, length_error, bad_alloc,
  runtime_error, out_of_range, invalid_argument, Result, ok, err, ◌>>=◌, ◌>>◌, throw_if,
}
use nstl.Net.Address.{IpAddrBase, IpRangeBase, ipv4_size, ipv6_size, equal_bytes}
use nstl.Net.Inet.{Inet, Family, inet, inet6}

-- std::variant<ipv4_addr, ipv6_addr>.
pub data IpAddrGen : Type 0 where
  ipv4_addr ipv6_addr : IpAddrBase → IpAddrGen

module _ (lib : Inet) where
  -- What operator<< writes; `none` is the failbit. Nothing is written behind it.
  unfoldable pub print_address : Family → IpAddrBase → Option (List ℕ)
  print_address f ip = lib.ntop f ip

  unfoldable pub print_range : Family → IpRangeBase → Option (List ℕ)
  unfolding print_address
  print_range f r = elim (print_address f r.base) [
    | none ↦ none
    | some t ↦ elim (print_address f r.mask) [ none ↦ none | some m ↦ some (t ++ b'/' ∷ m) ]
  ]

  -- `to_string` of an address throws where operator<< sets the failbit.
  unfoldable pub to_string : Family → IpAddrBase → Result (List ℕ)
  to_string f ip = elim (lib.ntop f ip) [ none ↦ err nstl_exception | some t ↦ ok t ]

  unfoldable pub to_string_gen : IpAddrGen → Result (List ℕ)
  unfolding to_string
  to_string_gen (ipv4_addr ip) = to_string inet ip
  to_string_gen (ipv6_addr ip) = to_string inet6 ip

  -- `to_string` of a span of bytes takes the family from the size.
  unfoldable pub to_string_span : List ℕ → Result (List ℕ)
  unfolding to_string
  to_string_span ip = do
    throw_if (not (length ip == ipv4_size) && not (length ip == ipv6_size)) nstl_exception
    to_string (if length ip == ipv4_size then inet else inet6) ip

-- The prefix of an IPv4-mapped IPv6 address.
abbrev pub mapped_prefix : List ℕ
mapped_prefix = 0 ∷ 0 ∷ 0 ∷ 0 ∷ 0 ∷ 0 ∷ 0 ∷ 0 ∷ 0 ∷ 0 ∷ 0xFF ∷ 0xFF ∷ []

unfoldable pub is_ipv4 : List ℕ → Result (Option IpAddrBase)
unfolding equal_bytes
is_ipv4 addr =
    if length addr == ipv4_size
    then ok (some addr)
    else if length addr == ipv6_size
    then (if equal_bytes mapped_prefix (take 12 addr)
        then ok (some (take ipv4_size (drop 12 addr)))
        else ok none)
    else err nstl_exception
