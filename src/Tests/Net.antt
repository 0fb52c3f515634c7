-- ===== src/Tests/Net.antt =====
-- Runs of the address code, and its theorems at the addresses of a small table.
pub mod Table
use nstl.Prelude.{
  c_string, ℕ, zero, suc, ◌+◌, ◌-◌, ◌*◌, ◌/◌, ◌%◌, ◌^◌, ◌≤◌, ◌<◌, min, ◌≡◌, refl, sym, ap, ◌∙◌, ◌≢◌,
  ◌↔◌, ◌⊎◌, inl, inr, Bool, true, false, ◌&&◌, ◌||◌, not, Option, none, some, List, [], ◌∷◌, ◌++◌,
  map, append-nil, append_assoc, arith, ltb, leb, ◌==◌, if◌then◌else◌, ltb→lt, lt→ltb, leb→le,
  le→leb, ==_iff, tests, Bool-cases, Option-cases, all_below, all_below_sound, length, get_elem?,
  take, drop, replicate, length-append, take-append-drop, length-take, length-drop,
  length-replicate, take-append, drop-append, take-append_of_le, take-append_of_ge,
  append-replicate, take_of_ge, drop_of_ge, length-map, All, All-append, Exception, nstl_exception,
  length_error, bad_alloc, runtime_error, out_of_range, invalid_argument, Result, ok, err, ◌>>=◌,
  ◌>>◌, throw_if, >>=-eq-ok, Result-cases, get_elem?_of_lt, nil_of_length, find, codes, drop_next,
}
use nstl.Net.Address.{
  IpAddrBase, IpRangeBase, IsAddr, create_mask, range_of_bits, contains, and_arrays, equal_bytes,
  mask_bytes,
}
use nstl.Net.Address.Bits.{address_bits}
use nstl.Net.Address.Prefix.{contains-range_of_bits}
use nstl.Net.Address.Mask.{create_mask_cases}
use nstl.Net.Inet.{inet, inet6}
use nstl.Net.Parse.{
  parse_ip_range, parse_ip_address, digit_value, range_at, range_behind, parse_mask,
}
use nstl.Net.Parse.RoundTrip.{parse_ip_range-print_range, parse_ip_range_cidr, parse_ip_address_nul}
use nstl.Net.Parse.Total.{Returns, parse_ip_range-Returns}
use nstl.Net.Print.{print_range, is_ipv4, IpAddrGen, ipv4_addr, ipv6_addr, mapped_prefix}
use nstl.Net.Print.Blobs.{StandsFor, is_ipv4_cases}
use nstl.Net.Order.{
  range_less, range_eq, addr_less_addr, less_bytes, IpRangeGen, ipv4_range, ipv6_range,
  contains_any,
}
use nstl.Net.Order.Laws.{addr_less_addr_trans, addr_less_addr_total}
use nstl.Net.Order.Ranges.{range_trichotomy, contains_any_iff}
use Table.{
  table, table-InetLaws, ten, class_a, ten_text, class_a_text, table_pton, table_ntop, ten_known,
  class_a_known,
}

twenty_bits : create_mask 4 20 ≡ ok (255 ∷ 255 ∷ 240 ∷ 0 ∷ [])
unfolding create_mask
twenty_bits = refl

too_long : create_mask 4 33 ≡ err nstl_exception
unfolding create_mask
too_long = refl

create_mask_cases_example :
    ((4 * 8 < 20) × (create_mask 4 20 ≡ err nstl_exception))
    ⊎ ((a : IpAddrBase) × (20 ≤ 4 * 8)
        × (create_mask 4 20 ≡ ok a)
        × IsAddr 4 a
        × (address_bits a ≡ replicate 20 1 ++ replicate (4 * 8 - 20) 0))
create_mask_cases_example = create_mask_cases 4 20

abbrev ten_range : IpRangeBase
ten_range = record { base = ten; mask = class_a }

made : range_of_bits 4 ten 8 ≡ ok ten_range
unfolding range_of_bits
made = refl

abbrev host : IpAddrBase
host = 10 ∷ 1 ∷ 2 ∷ 3 ∷ []

contains-range_of_bits_example :
    (contains ten_range host ≡ true) ↔ (take 8 (address_bits host) ≡ take 8 (address_bits ten))
contains-range_of_bits_example =
    contains-range_of_bits 4 8 ten host (omega arith) (omega arith) made

prints : print_range table inet ten_range ≡ some (codes "10.0.0.0/255.0.0.0")
unfolding print_range table_ntop equal_bytes
prints = refl

parse_ip_range-print_range_example :
    parse_ip_range table 4 inet (codes "10.0.0.0/255.0.0.0") ≡ ok (some ten_range)
parse_ip_range-print_range_example =
    parse_ip_range-print_range table table-InetLaws inet ten_range (codes "10.0.0.0/255.0.0.0")
      prints

digits_value : digit_value 0 (codes "8") ≡ 8
unfolding digit_value
digits_value = refl

eight_fits : digit_value 0 (codes "8") ≤ 32
eight_fits = rw digits_value (omega arith)

parse_ip_range_cidr_example :
    parse_ip_range table 4 inet (codes "10.0.0.0/8")
    ≡ (range_of_bits 4 ten (digit_value 0 (codes "8")) >>= λ r. ok (some r))
parse_ip_range_cidr_example =
    parse_ip_range_cidr table table-InetLaws inet ten ten_text (codes "8") ten_known (omega arith)
      (refl, tt) eight_fits

parse_ip_range-Returns_example : Returns 4 (parse_ip_range table 4 inet (codes "10.0.0.0/33"))
parse_ip_range-Returns_example =
    parse_ip_range-Returns table table-InetLaws inet (codes "10.0.0.0/33")

abbrev loopback6 : IpAddrGen
loopback6 = ipv6_addr (0 ∷ 0 ∷ 0 ∷ 0 ∷ 0 ∷ 0 ∷ 0 ∷ 0 ∷ 0 ∷ 0 ∷ 0 ∷ 0 ∷ 0 ∷ 0 ∷ 0 ∷ 1 ∷ [])

four_first :
    (addr_less_addr (ipv4_addr ten) (ipv4_addr host) ≡ true)
    × (addr_less_addr (ipv4_addr host) loopback6 ≡ true)
unfolding addr_less_addr less_bytes
four_first = (refl, refl)
