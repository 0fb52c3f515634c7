-- ===== src/Tests/Svcb.antt =====
-- SVCB records on a stream, with a C library that knows two addresses.
use nstl.Prelude.{ℕ, ◌≡◌, refl, none, some, List, [], ◌∷◌, ◌++◌, if◌then◌else◌, codes}
use nstl.Net.Address.{IpAddrBase, equal_bytes}
use nstl.Net.Inet.{Family, inet}
use nstl.Net.Print.{print_address}
use nstl.Net.Svcb.{SvcbParam, no_default_alpn, mandatory_keys, port, alpn_list, ipv4_hints}
use nstl.Net.Records.{GenSvcb}
use nstl.Net.Records.Print.{
  print_svcb, put_params, param_print_loop, param_visitor, put_hints, hint_print_loop, decimal,
  decimal_loop,
}
use nstl.Net.Records.Print.Texts.{good, svcb_text, print_svcb_lem}
use nstl.Net.Records.Print.Cut.{bad, cut_text, print_svcb_cut}
use nstl.Range.{range_print, stream_loop}
use nstl.Tests.Net.Table.{
  table, table_ntop, ten, class_a, ten_text, class_a_text, ten_known, class_a_known,
}

abbrev stranger : IpAddrBase
stranger = 10 ∷ 0 ∷ 0 ∷ 1 ∷ []

abbrev text_by_table : Family → IpAddrBase → List ℕ
text_by_table f ip = if equal_bytes ip ten then ten_text else class_a_text

abbrev first_params : List SvcbParam
first_params = port 443 ∷ mandatory_keys (1 ∷ 3 ∷ []) ∷ []

abbrev record_shown : GenSvcb
record_shown = record {
  address = codes "a.b";
  priority = 1;
  params =
      port 443
      ∷ mandatory_keys (1 ∷ 3 ∷ [])
      ∷ alpn_list (codes "h2" ∷ codes "h3" ∷ [])
      ∷ ipv4_hints (ten ∷ class_a ∷ [])
      ∷ [];
}

abbrev record_text : List ℕ
record_text =
    codes "a.b 1 [PORT=443 KEYS={1,3} ALPNS={"
    ++ (34 ∷ codes "h2")
    ++ (34 ∷ 44 ∷ 34 ∷ codes "h3")
    ++ (34 ∷ codes "} IPV4S={10.0.0.0,255.0.0.0}]")

prints : print_svcb table record_shown (good []) ≡ good record_text
unfolding print_svcb put_params param_print_loop param_visitor put_hints hint_print_loop
    decimal_loop range_print stream_loop print_address table_ntop equal_bytes
prints = refl

ten_known_here : print_address table inet ten ≡ some ten_text
unfolding print_address
ten_known_here = ten_known

class_a_known_here : print_address table inet class_a ≡ some class_a_text
unfolding print_address
class_a_known_here = class_a_known

print_svcb_lem_example :
    print_svcb table record_shown (good (codes "> "))
    ≡ good (codes "> " ++ svcb_text table text_by_table record_shown)
unfolding equal_bytes
print_svcb_lem_example =
    print_svcb_lem table text_by_table record_shown (codes "> ")
      (tt, (tt, (tt, ((ten_known_here, (class_a_known_here, tt)), tt))))

refused : print_address table inet stranger ≡ none
unfolding print_address table_ntop equal_bytes
refused = refl

print_svcb_cut_example :
    print_svcb table
      (record {
        address = codes "a.b";
        priority = 1;
        params = first_params ++ ipv4_hints (stranger ∷ ten ∷ []) ∷ no_default_alpn ∷ [];
      })
      (good [])
    ≡ bad (
        []
        ++ codes "a.b"
        ++ codes " "
        ++ decimal 1
        ++ codes " ["
        ++ cut_text table text_by_table first_params)
print_svcb_cut_example =
    print_svcb_cut table text_by_table (codes "a.b") 1 first_params (no_default_alpn ∷ []) stranger
      (ten ∷ []) [] (tt, (tt, tt)) refused
