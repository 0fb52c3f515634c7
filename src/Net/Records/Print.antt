-- ===== src/Net/Records/Print.antt =====
-- The stream operator of gen_svcb with its param_visitor, nstl/nstl/dns_tools.cpp, over the text of a
-- stream with default formatting and its failbit.
pub mod Texts
pub mod Cut
use nstl.Prelude.{
  ℕ, zero, suc, ◌+◌, ◌-◌, ◌*◌, ◌/◌, ◌%◌, ◌^◌, ◌≤◌, ◌<◌, min, ◌≡◌, refl, sym, ap, ◌∙◌, ◌≢◌, ◌↔◌, ◌⊎◌,
  inl, inr, Bool, true, false, ◌&&◌, ◌||◌, not, Option, none, some, List, [], ◌∷◌, ◌++◌, map,
  append-nil, append_assoc, arith, ltb, leb, ◌==◌, if◌then◌else◌, ltb→lt, lt→ltb, leb→le, le→leb,
  ==_iff, tests, Bool-cases, Option-cases, all_below, all_below_sound, length, get_elem?, take,
  drop, replicate, length-append, take-append-drop, length-take, length-drop, length-replicate,
  take-append, drop-append, take-append_of_le, take-append_of_ge, append-replicate, take_of_ge,
  drop_of_ge, length-map, All, All-append, Exception, nstl_exception, length_error, bad_alloc,
  runtime_error, out_of_range, invalid_argument, Result, ok, err, ◌>>=◌, ◌>>◌, throw_if, >>=-eq-ok,
  Result-cases, get_elem?_of_lt, nil_of_length, find, c_string, codes, drop_next, same_text,
  same_text_iff, text-cases, same_text_self, same_text_of_ne,
}
use nstl.Net.Address.{IpAddrBase}
use nstl.Net.Inet.{Inet, Family, inet, inet6}
use nstl.Net.Print.{print_address}
use nstl.Net.Svcb.{
  SvcbParam, no_default_alpn, mandatory_keys, doh_path, port, alpn_list, ipv4_hints, ipv6_hints,
}
use nstl.Net.Records.{GenSvcb}
use nstl.Range.{range_print}

pub record OStream : Type 0 where
  pub written : List ℕ
  pub failed : Bool

-- A text goes to a stream that has not failed.
abbrev pub put : List ℕ → OStream → OStream
put text os = if os.failed then os else record os { written = os.written ++ text }

abbrev pub put_printed : Option (List ℕ) → OStream → OStream
put_printed none os = record os { failed = true }
put_printed (some text) os = put text os

-- The digits of a number; a std::uint16_t has five at most.
unfoldable pub decimal_loop : ℕ → ℕ → List ℕ
decimal_loop zero n = []
decimal_loop (suc fuel) n =
    let rest = decimal_loop fuel (n / 10) in
    if ltb n 10 then (b'0' + n) ∷ [] else rest ++ (b'0' + n % 10) ∷ []

abbrev pub decimal : ℕ → List ℕ
decimal = decimal_loop 5

abbrev pub plain : List ℕ → List ℕ
plain text = text

abbrev pub quote : List ℕ
quote = 34 ∷ []

module _ (lib : Inet) where
  abbrev pub put_address : Family → IpAddrBase → OStream → OStream
  put_address f ip os = put_printed (print_address lib f ip) os

  -- The loop behind the first address.
  unfoldable pub hint_print_loop : Family → List IpAddrBase → OStream → OStream
  hint_print_loop f [] os = os
  hint_print_loop f (ip ∷ ips) os = hint_print_loop f ips (put_address f ip (put (codes ",") os))

  unfoldable pub put_hints : Family → List IpAddrBase → OStream → OStream
  put_hints f [] os = os
  put_hints f (ip ∷ ips) os = hint_print_loop f ips (put_address f ip os)

  -- The call operators of param_visitor.
  unfoldable pub param_visitor : SvcbParam → OStream → OStream
  param_visitor no_default_alpn os = put (codes "NO_DEF_ALPN") os
  param_visitor (mandatory_keys keys) os =
      put (codes "}") (put (range_print decimal (codes ",") keys) (put (codes "KEYS={") os))
  param_visitor (doh_path doh) os = put quote (put doh (put (codes "DOH=" ++ quote) os))
  param_visitor (port number) os = put (decimal number) (put (codes "PORT=") os)
  param_visitor (alpn_list []) os = put (codes "}") (put (codes "ALPNS={") os)
  param_visitor (alpn_list (alpn ∷ alpns)) os = put (codes "}") (
      put quote (
        put (range_print plain (quote ++ codes "," ++ quote) (alpn ∷ alpns))
          (put quote (put (codes "ALPNS={") os))))
  param_visitor (ipv4_hints ips) os =
      put (codes "}") (put_hints inet ips (put (codes "IPV4S={") os))
  param_visitor (ipv6_hints ips) os =
      put (codes "}") (put_hints inet6 ips (put (codes "IPV6S={") os))

  -- The loop behind the first parameter.
  unfoldable pub param_print_loop : List SvcbParam → OStream → OStream
  param_print_loop [] os = os
  param_print_loop (param ∷ params) os =
      param_print_loop params (param_visitor param (put (codes " ") os))

  unfoldable pub put_params : List SvcbParam → OStream → OStream
  put_params [] os = os
  put_params (param ∷ params) os = param_print_loop params (param_visitor param os)

  -- The stream operator.
  unfoldable pub print_svcb : GenSvcb → OStream → OStream
  print_svcb item os = put (codes "]") (
      put_params item.params
        (put (codes " [") (put (decimal item.priority) (put (codes " ") (put item.address os)))))
