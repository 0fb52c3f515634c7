-- ===== src/Net/Parse/RoundTrip.antt =====
-- The parsers of nstl/nstl/ip_tools.cpp on what its printers write, on CIDR notation, and on
-- texts with a NUL in them.
use nstl.Prelude.{
  c_string, ℕ, suc, ◌+◌, ◌*◌, ◌≤◌, ◌<◌, ◌≡◌, refl, ap, ◌∙◌, ◌≢◌, inl, inr, true, false, some, List,
  [], ◌∷◌, ◌++◌, arith, ◌==◌, Option-cases, length, take, drop, length-append, take-append, All, ok,
  ◌>>=◌,
}
use nstl.Prelude.{find}
use nstl.Net.Address.{IpAddrBase, IpRangeBase, range_of_bits}
use nstl.Net.Inet.{Inet, InetLaws, Family, inet, inet6, addr_str_len, family_size, is_digit}
use nstl.Net.Parse.{
  parse_ip_address, parse_mask, invalid_mask, range_behind, range_at, parse_ip_range, digit_value,
}
use nstl.Net.Parse.Digits.{parse_mask_digits, parse_mask_text}
use nstl.Net.Print.{print_range}

abbrev Plain : List ℕ → Type 0
Plain = All (λ c. (c ≢ 0) × (c ≢ b'/'))

c_string_plain : (t : List ℕ) → All (λ c. c ≢ 0) t → c_string t ≡ t
unfolding c_string
c_string_plain [] h = refl
c_string_plain (c ∷ t) (hc, h) = ground (arith, c_string_plain t h)

c_string_nul : (t junk : List ℕ) → All (λ c. c ≢ 0) t → c_string (t ++ 0 ∷ junk) ≡ t
unfolding c_string
c_string_nul [] junk h = refl
c_string_nul (c ∷ t) junk (hc, h) = ground (arith, c_string_nul t junk h)

find_slash : (t m : List ℕ) → All (λ c. c ≢ b'/') t → find b'/' (t ++ b'/' ∷ m) ≡ some (length t)
unfolding find
find_slash [] m h = refl
find_slash (c ∷ t) m (hc, h) = ground (arith, find_slash t m h)

drop_slash : (t m : List ℕ) → drop (length t + 1) (t ++ b'/' ∷ m) ≡ m
drop_slash [] m = refl
drop_slash (c ∷ t) m =
    let e : suc (length t) + 1 ≡ suc (length t + 1) = omega arith in rw e (drop_slash t m)

-- Bytes behind the first NUL do not count: a text that is short enough with them is read as if it
-- ended at the NUL.
pub parse_ip_address_nul :
    (lib : Inet) (f : Family) (t junk : List ℕ)
    → All (λ c. c ≢ 0) t
    → length t + 1 + length junk < addr_str_len f
    → parse_ip_address lib f (t ++ 0 ∷ junk) ≡ parse_ip_address lib f t
unfolding parse_ip_address
parse_ip_address_nul lib f t junk h short =
    ground (arith, c_string_plain t h, c_string_nul t junk h, length-append t (0 ∷ junk))

parse_ip_address_text :
    (lib : Inet) (f : Family) (t : List ℕ) (a : IpAddrBase)
    → All (λ c. c ≢ 0) t
    → length t < addr_str_len f
    → lib.pton f t ≡ some a
    → parse_ip_address lib f t ≡ some a
unfolding parse_ip_address
parse_ip_address_text lib f t a h short e = ground (arith, c_string_plain t h)

Plain-nul : (t : List ℕ) → Plain t → All (λ c. c ≢ 0) t
Plain-nul [] h = tt
Plain-nul (c ∷ t) (hc, h) = (hc.0, Plain-nul t h)

Plain-slash : (t : List ℕ) → Plain t → All (λ c. c ≢ b'/') t
Plain-slash [] h = tt
Plain-slash (c ∷ t) (hc, h) = (hc.1, Plain-slash t h)

-- The parser cuts a text at its slash.
parse_ip_range_slash :
    (lib : Inet) (ip_size : ℕ) (f : Family) (t m : List ℕ) (a : IpAddrBase)
    → Plain t
    → length t < addr_str_len f
    → lib.pton f t ≡ some a
    → parse_ip_range lib ip_size f (t ++ b'/' ∷ m) ≡ range_behind lib ip_size f a m
unfolding parse_ip_range range_at
parse_ip_range_slash lib ip_size f t m a plain short e =
    let pos = find_slash t m (Plain-slash t plain) in
    let part : parse_ip_address lib f (take (length t) (t ++ b'/' ∷ m)) ≡ some a =
      rw (take-append t (b'/' ∷ m)) (parse_ip_address_text lib f t a (Plain-nul t plain) short e) in
    rw (pos, parse_ip_range)
      (rw part (rw (pos, range_at) (ap (range_behind lib ip_size f a) (drop_slash t m))))

family_bits : (f : Family) → family_size f * 8 ≤ 128
family_bits inet = omega arith
family_bits inet6 = omega arith

prefixed_behind :
    (lib : Inet) (f : Family) (a : IpAddrBase) (digits : List ℕ)
    → 0 < length digits
    → All (λ c. is_digit c ≡ true) digits
    → digit_value 0 digits ≤ family_size f * 8
    → range_behind lib (family_size f) f a digits
      ≡ (range_of_bits (family_size f) a (digit_value 0 digits) >>= λ r. ok (some r))
unfolding range_behind
prefixed_behind lib f a digits pos hd fits =
    let small = family_bits f in
    let e : parse_mask (family_size f) digits ≡ digit_value 0 digits =
      parse_mask_digits (family_size f) digits pos hd fits (omega arith) in
    let filled : (length digits == 0) ≡ false = ground arith in
    let valid : (digit_value 0 digits == invalid_mask) ≡ false = ground arith in
    rw (filled, e, valid)

module _ (lib : Inet) (laws : InetLaws lib) (f : Family) where
  masked_behind :
      (a m : IpAddrBase) (s : List ℕ)
      → lib.ntop f m ≡ some s
      → range_behind lib (family_size f) f a s ≡ ok (some (record { base = a; mask = m }))
  unfolding range_behind
  masked_behind a m s e =
      let (p, q, c, cut, nondigit) = laws.ntop_separator f m s e in
      let text =
        parse_ip_address_text lib f s m (Plain-nul s (laws.ntop_chars f m s e))
          (laws.ntop_fits f m s e) (laws.pton-ntop f m s e) in
      let no_mask : parse_mask (family_size f) s ≡ invalid_mask =
        rw cut (parse_mask_text (family_size f) p q c nondigit) in
      ground (arith, text, no_mask, ap length cut, length-append p (c ∷ q))

  -- With an inet_pton and inet_ntop that keep their laws, the parser reads back every range that the
  -- printer can write, for each family.
  pub parse_ip_range-print_range :
      (r : IpRangeBase) (text : List ℕ)
      → print_range lib f r ≡ some text
      → parse_ip_range lib (family_size f) f text ≡ ok (some r)
  unfolding print_range
  parse_ip_range-print_range r text e = elim (Option-cases (lib.ntop f r.base)) [
    | inl b ↦ ground (arith, b)
    | inr (t, b) ↦ elim (Option-cases (lib.ntop f r.mask)) [
      | inl m ↦ ground (arith, b, m)
      | inr (s, m) ↦
          let shape : text ≡ t ++ b'/' ∷ s = ground (arith, b, m) in
          rw shape (
            parse_ip_range_slash lib (family_size f) f t s r.base (laws.ntop_chars f r.base t b)
              (laws.ntop_fits f r.base t b) (laws.pton-ntop f r.base t b)
            ∙ masked_behind r.base r.mask s m)
    ]
  ]

  -- CIDR notation, with an inet_pton and inet_ntop that keep their laws: the text of an address, a
  -- slash and the digits of a prefix length that fits are read as the range that `range_of_bits` makes.
  pub parse_ip_range_cidr :
      (a : IpAddrBase) (t digits : List ℕ)
      → lib.ntop f a ≡ some t
      → 0 < length digits
      → All (λ c. is_digit c ≡ true) digits
      → digit_value 0 digits ≤ family_size f * 8
      → parse_ip_range lib (family_size f) f (t ++ b'/' ∷ digits)
        ≡ (range_of_bits (family_size f) a (digit_value 0 digits) >>= λ r. ok (some r))
  parse_ip_range_cidr a t digits e pos hd fits =
      parse_ip_range_slash lib (family_size f) f t digits a (laws.ntop_chars f a t e)
        (laws.ntop_fits f a t e) (laws.pton-ntop f a t e)
      ∙ prefixed_behind lib f a digits pos hd fits
