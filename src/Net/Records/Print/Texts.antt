-- ===== src/Net/Records/Print/Texts.antt =====
-- What the stream operator of gen_svcb writes, nstl/nstl/dns_tools.cpp, against range_print of
-- nstl/nstl/range_print.hpp.
use nstl.Prelude.{
  ℕ, ◌≡◌, refl, sym, ap, ◌∙◌, false, some, List, [], ◌∷◌, ◌++◌, append-nil, append_assoc, All,
  codes,
}
use nstl.Net.Address.{IpAddrBase}
use nstl.Net.Inet.{Inet, Family, inet, inet6}
use nstl.Net.Print.{print_address}
use nstl.Net.Svcb.{
  SvcbParam, no_default_alpn, mandatory_keys, doh_path, port, alpn_list, ipv4_hints, ipv6_hints,
}
use nstl.Net.Records.{GenSvcb}
use nstl.Range.{range_print, stream_loop}
use nstl.Net.Records.Print.{
  OStream, put, put_printed, decimal, plain, quote, put_address, hint_print_loop, put_hints,
  param_visitor, param_print_loop, put_params, print_svcb,
}

-- A stream that has not failed.
abbrev pub good : List ℕ → OStream
good text = record { written = text; failed = false }

module _ (lib : Inet) (shown : Family → IpAddrBase → List ℕ) where
  -- inet_ntop gives the addresses the texts of `shown`.
  abbrev pub AllShown : Family → List IpAddrBase → Type 0
  AllShown f = All (λ ip. print_address lib f ip ≡ some (shown f ip))

  abbrev pub IsShown : SvcbParam → Type 0
  IsShown (ipv4_hints ips) = AllShown inet ips
  IsShown (ipv6_hints ips) = AllShown inet6 ips
  IsShown param = Unit

  -- The text of a parameter.
  abbrev pub param_text : SvcbParam → List ℕ
  param_text no_default_alpn = codes "NO_DEF_ALPN"
  param_text (mandatory_keys keys) =
      codes "KEYS={" ++ range_print decimal (codes ",") keys ++ codes "}"
  param_text (doh_path doh) = codes "DOH=" ++ quote ++ doh ++ quote
  param_text (port number) = codes "PORT=" ++ decimal number
  param_text (alpn_list []) = codes "ALPNS={}"
  param_text (alpn_list (alpn ∷ alpns)) =
      codes "ALPNS={"
      ++ quote
      ++ range_print plain (quote ++ codes "," ++ quote) (alpn ∷ alpns)
      ++ quote
      ++ codes "}"
  param_text (ipv4_hints ips) =
      codes "IPV4S={" ++ range_print (shown inet) (codes ",") ips ++ codes "}"
  param_text (ipv6_hints ips) =
      codes "IPV6S={" ++ range_print (shown inet6) (codes ",") ips ++ codes "}"

  abbrev pub svcb_text : GenSvcb → List ℕ
  svcb_text item =
      item.address
      ++ codes " "
      ++ decimal item.priority
      ++ codes " ["
      ++ range_print param_text (codes " ") item.params
      ++ codes "]"

  put_address_lem :
      (f : Family) (ip : IpAddrBase) (w : List ℕ)
      → print_address lib f ip ≡ some (shown f ip)
      → put_address lib f ip (good w) ≡ good (w ++ shown f ip)
  put_address_lem f ip w e = ap (λ t. put_printed t (good w)) e

  hint_print_loop_lem :
      (f : Family) (ips : List IpAddrBase) (w : List ℕ)
      → AllShown f ips
      → hint_print_loop lib f ips (good w) ≡ good (w ++ stream_loop (shown f) (codes ",") ips)
  unfolding hint_print_loop stream_loop
  hint_print_loop_lem f [] w all = ap good (sym (append-nil w))
  hint_print_loop_lem f (ip ∷ ips) w (here, all) =
      ap (hint_print_loop lib f ips) (put_address_lem f ip (w ++ codes ",") here)
      ∙ hint_print_loop_lem f ips ((w ++ codes ",") ++ shown f ip) all
      ∙ ap good (simp append_assoc refl)

  put_hints_lem :
      (f : Family) (ips : List IpAddrBase) (w : List ℕ)
      → AllShown f ips
      → put_hints lib f ips (good w) ≡ good (w ++ range_print (shown f) (codes ",") ips)
  unfolding put_hints range_print
  put_hints_lem f [] w all = ap good (sym (append-nil w))
  put_hints_lem f (ip ∷ ips) w (here, all) =
      ap (hint_print_loop lib f ips) (put_address_lem f ip w here)
      ∙ hint_print_loop_lem f ips (w ++ shown f ip) all
      ∙ ap good (simp append_assoc refl)

  pub param_visitor_lem :
      (param : SvcbParam) (w : List ℕ)
      → IsShown param
      → param_visitor lib param (good w) ≡ good (w ++ param_text param)
  unfolding param_visitor
  param_visitor_lem no_default_alpn w all = refl
  param_visitor_lem (mandatory_keys keys) w all = ap good (simp append_assoc refl)
  param_visitor_lem (doh_path doh) w all = ap good (simp append_assoc refl)
  param_visitor_lem (port number) w all = ap good (simp append_assoc refl)
  param_visitor_lem (alpn_list []) w all = ap good (simp append_assoc refl)
  param_visitor_lem (alpn_list (alpn ∷ alpns)) w all = ap good (simp append_assoc refl)
  param_visitor_lem (ipv4_hints ips) w all =
      ap (put (codes "}")) (put_hints_lem inet ips (w ++ codes "IPV4S={") all)
      ∙ ap good (simp append_assoc refl)
  param_visitor_lem (ipv6_hints ips) w all =
      ap (put (codes "}")) (put_hints_lem inet6 ips (w ++ codes "IPV6S={") all)
      ∙ ap good (simp append_assoc refl)

  param_print_loop_lem :
      (params : List SvcbParam) (w : List ℕ)
      → All IsShown params
      → param_print_loop lib params (good w) ≡ good (w ++ stream_loop param_text (codes " ") params)
  unfolding param_print_loop stream_loop
  param_print_loop_lem [] w all = ap good (sym (append-nil w))
  param_print_loop_lem (param ∷ params) w (here, all) =
      ap (param_print_loop lib params) (param_visitor_lem param (w ++ codes " ") here)
      ∙ param_print_loop_lem params ((w ++ codes " ") ++ param_text param) all
      ∙ ap good (simp append_assoc refl)

  put_params_lem :
      (params : List SvcbParam) (w : List ℕ)
      → All IsShown params
      → put_params lib params (good w) ≡ good (w ++ range_print param_text (codes " ") params)
  unfolding put_params range_print
  put_params_lem [] w all = ap good (sym (append-nil w))
  put_params_lem (param ∷ params) w (here, all) =
      ap (param_print_loop lib params) (param_visitor_lem param w here)
      ∙ param_print_loop_lem params (w ++ param_text param) all
      ∙ ap good (simp append_assoc refl)

  -- On a stream that has not failed, and where inet_ntop gives every address of the record a text, the
  -- operator leaves the stream good and writes, behind what is there, the address, the priority and,
  -- between brackets, the texts of the parameters as range_print sets them with a space between; the
  -- lists of keys, protocols and addresses in them are as range_print sets them with a comma between.
  pub print_svcb_lem :
      (item : GenSvcb) (w : List ℕ)
      → All IsShown item.params
      → print_svcb lib item (good w) ≡ good (w ++ svcb_text item)
  unfolding print_svcb
  print_svcb_lem item w all =
      ap (put (codes "]")) (
        put_params_lem item.params
          ((((w ++ item.address) ++ codes " ") ++ decimal item.priority) ++ codes " [") all)
      ∙ ap good (simp append_assoc refl)
