-- ===== src/Net/Parse.antt =====
-- The parsers of nstl/nstl/ip_tools.cpp: addresses, prefix lengths and ranges in CIDR notation.
-- A std::string_view is the list of its bytes.
pub mod Digits
pub mod Total
pub mod RoundTrip
use nstl.Prelude.{
  c_string, ℕ, zero, suc, ◌+◌, ◌-◌, ◌*◌, ◌<◌, ◌≡◌, refl, Bool, true, false, ◌&&◌, not, List, [],
  ◌∷◌, ◌++◌, ltb, leb, ◌==◌, if◌then◌else◌, length, take, drop, Option, none, some, Result, ok, err,
  ◌>>=◌,
}
use nstl.Prelude.{find}
use nstl.Net.Address.{IpAddrBase, IpRangeBase, ipv4_size, ipv6_size, bytes_in_bits, range_of_bits}
use nstl.Net.Inet.{Inet, Family, inet, inet6, addr_str_len, is_digit}

-- The digits at the front of a text, and the number that they spell behind `acc`.
unfoldable pub digit_count : List ℕ → ℕ
digit_count [] = 0
digit_count (c ∷ s) = if is_digit c then suc (digit_count s) else 0

unfoldable pub digit_value : ℕ → List ℕ → ℕ
digit_value acc [] = acc
digit_value acc (c ∷ s) = digit_value (acc * 10 + (c - b'0')) s

pub record FromChars : Type 0 where
  pub ptr : ℕ
  pub failed : Bool
  pub value : ℕ

-- std::from_chars into a std::uint8_t that holds 0: `ptr` counts the bytes consumed, `failed` says
-- that `ec` is set, and the target keeps its value if it is.
unfoldable pub from_chars_u8 : List ℕ → FromChars
unfolding digit_count digit_value
from_chars_u8 s =
    let n = digit_count s in
    let v = digit_value 0 (take n s) in
    if n == 0
    then record { ptr = 0; failed = true; value = 0 }
    else if ltb 255 v
    then record { ptr = n; failed = true; value = 0 }
    else record { ptr = n; failed = false; value = v }

abbrev pub invalid_mask : ℕ
invalid_mask = 255

unfoldable pub parse_mask : ℕ → List ℕ → ℕ
unfolding from_chars_u8
parse_mask ip_size num_view =
    let val = from_chars_u8 num_view in
    if (val.ptr == length num_view) && not val.failed && leb val.value (ip_size * bytes_in_bits)
    then val.value
    else invalid_mask

module _ (lib : Inet) where
  -- strncpy of the view into the buffer and the NUL behind it leave the C string of the view.
  unfoldable pub parse_ip_address : Family → List ℕ → Option IpAddrBase
  parse_ip_address f ipaddr =
      if leb (addr_str_len f) (length ipaddr) then none else lib.pton f (c_string ipaddr)

  -- The part of `parse_ip_range` behind the slash.
  unfoldable pub range_behind : ℕ → Family → IpAddrBase → List ℕ → Result (Option IpRangeBase)
  range_behind ip_size f ip num_view =
      let mask = parse_mask ip_size num_view in
      let prefixed = range_of_bits ip_size ip mask >>= λ r. ok (some r) in
      let masked : Option IpRangeBase = elim (parse_ip_address f num_view) [
        | none ↦ none
        | some ip_mask ↦ some (record { base = ip; mask = ip_mask })
      ] in
      if length num_view == 0
      then ok none
      else if not (mask == invalid_mask)
      then prefixed
      else ok masked

  unfoldable pub range_at :
      ℕ → Family → Option ℕ → List ℕ → IpAddrBase → Result (Option IpRangeBase)
  range_at ip_size f none range ip =
      range_of_bits ip_size ip (ip_size * bytes_in_bits) >>= λ r. ok (some r)
  range_at ip_size f (some pos) range ip = range_behind ip_size f ip (drop (pos + 1) range)

  -- substr(0, npos) is the whole view.
  abbrev pub ip_part : Option ℕ → List ℕ → List ℕ
  ip_part none range = range
  ip_part (some pos) range = take pos range

  unfoldable pub parse_ip_range : ℕ → Family → List ℕ → Result (Option IpRangeBase)
  parse_ip_range ip_size f range =
      let pos = find b'/' range in
      elim (parse_ip_address f (ip_part pos range)) [
        | none ↦ ok none
        | some ip ↦ range_at ip_size f pos range ip
      ]

  unfoldable pub parse_ip4_address : List ℕ → Option IpAddrBase
  parse_ip4_address = parse_ip_address inet

  unfoldable pub parse_ip6_address : List ℕ → Option IpAddrBase
  parse_ip6_address = parse_ip_address inet6

  unfoldable pub parse_ip4_range : List ℕ → Result (Option IpRangeBase)
  parse_ip4_range = parse_ip_range ipv4_size inet

  unfoldable pub parse_ip6_range : List ℕ → Result (Option IpRangeBase)
  parse_ip6_range = parse_ip_range ipv6_size inet6
