-- ===== src/Net/Records/Print/Cut.antt =====
-- The stream operator of gen_svcb, nstl/nstl/dns_tools.cpp, where an address has no text.
use nstl.Prelude.{
  ℕ, ◌≡◌, refl, ap, ◌∙◌, inl, inr, true, none, List, [], ◌∷◌, ◌++◌, append_assoc, Option-cases, All,
  codes,
}
use nstl.Net.Address.{IpAddrBase}
use nstl.Net.Inet.{Inet, Family, inet, inet6}
use nstl.Net.Print.{print_address}
use nstl.Net.Svcb.{
  SvcbParam, no_default_alpn, mandatory_keys, doh_path, port, alpn_list, ipv4_hints, ipv6_hints,
}
use nstl.Range.{range_print, stream_loop}
use nstl.Net.Records.Print.{
  OStream, put, put_printed, decimal, hint_print_loop, put_hints, param_visitor, param_print_loop,
  put_params, print_svcb,
}
use nstl.Net.Records.Print.Texts.{good, IsShown, param_text, param_visitor_lem}

-- A stream that has failed.
abbrev pub bad : List ℕ → OStream
bad text = record { written = text; failed = true }

module _ (lib : Inet) where
  -- A stream that has failed.
  hint_print_loop-bad :
      (f : Family) (ips : List IpAddrBase) (w : List ℕ) → hint_print_loop lib f ips (bad w) ≡ bad w
  unfolding hint_print_loop
  hint_print_loop-bad f [] w = refl
  hint_print_loop-bad f (ip ∷ ips) w = elim (Option-cases (print_address lib f ip)) [
    | inl e ↦
        ap (λ t. hint_print_loop lib f ips (put_printed t (bad w))) e ∙ hint_print_loop-bad f ips w
    | inr (t, e) ↦
        ap (λ s. hint_print_loop lib f ips (put_printed s (bad w))) e ∙ hint_print_loop-bad f ips w
  ]

  put_hints-bad :
      (f : Family) (ips : List IpAddrBase) (w : List ℕ) → put_hints lib f ips (bad w) ≡ bad w
  unfolding put_hints
  put_hints-bad f [] w = refl
  put_hints-bad f (ip ∷ ips) w = elim (Option-cases (print_address lib f ip)) [
    | inl e ↦
        ap (λ t. hint_print_loop lib f ips (put_printed t (bad w))) e ∙ hint_print_loop-bad f ips w
    | inr (t, e) ↦
        ap (λ s. hint_print_loop lib f ips (put_printed s (bad w))) e ∙ hint_print_loop-bad f ips w
  ]

  param_visitor-bad : (param : SvcbParam) (w : List ℕ) → param_visitor lib param (bad w) ≡ bad w
  unfolding param_visitor
  param_visitor-bad no_default_alpn w = refl
  param_visitor-bad (mandatory_keys keys) w = refl
  param_visitor-bad (doh_path doh) w = refl
  param_visitor-bad (port number) w = refl
  param_visitor-bad (alpn_list []) w = refl
  param_visitor-bad (alpn_list (alpn ∷ alpns)) w = refl
  param_visitor-bad (ipv4_hints ips) w = ap (put (codes "}")) (put_hints-bad inet ips w)
  param_visitor-bad (ipv6_hints ips) w = ap (put (codes "}")) (put_hints-bad inet6 ips w)

  param_print_loop-bad :
      (params : List SvcbParam) (w : List ℕ) → param_print_loop lib params (bad w) ≡ bad w
  unfolding param_print_loop
  param_print_loop-bad [] w = refl
  param_print_loop-bad (param ∷ params) w =
      ap (param_print_loop lib params) (param_visitor-bad param w) ∙ param_print_loop-bad params w

  hints_cut :
      (ip : IpAddrBase) (ips : List IpAddrBase) (w : List ℕ)
      → print_address lib inet ip ≡ none
      → param_visitor lib (ipv4_hints (ip ∷ ips)) (good w) ≡ bad (w ++ codes "IPV4S={")
  unfolding param_visitor put_hints
  hints_cut ip ips w e =
      ap
        (λ t.
          put (codes "}")
            (hint_print_loop lib inet ips (put_printed t (good (w ++ codes "IPV4S={")))))
        e
      ∙ ap (put (codes "}")) (hint_print_loop-bad inet ips (w ++ codes "IPV4S={"))

module _ (lib : Inet) (shown : Family → IpAddrBase → List ℕ) where
  param_print_loop_cut :
      (before after : List SvcbParam) (ip : IpAddrBase) (ips : List IpAddrBase) (w : List ℕ)
      → All (IsShown lib shown) before
      → print_address lib inet ip ≡ none
      → param_print_loop lib (before ++ ipv4_hints (ip ∷ ips) ∷ after) (good w)
        ≡ bad (w ++ stream_loop (param_text lib shown) (codes " ") before ++ codes " IPV4S={")
  unfolding param_print_loop stream_loop
  param_print_loop_cut [] after ip ips w all e =
      ap (param_print_loop lib after) (hints_cut lib ip ips (w ++ codes " ") e)
      ∙ param_print_loop-bad lib after ((w ++ codes " ") ++ codes "IPV4S={")
      ∙ ap bad (simp append_assoc refl)
  param_print_loop_cut (param ∷ before) after ip ips w (here, all) e =
      ap (param_print_loop lib (before ++ ipv4_hints (ip ∷ ips) ∷ after))
        (param_visitor_lem lib shown param (w ++ codes " ") here)
      ∙ param_print_loop_cut before after ip ips ((w ++ codes " ") ++ param_text lib shown param)
          all e
      ∙ ap bad (simp append_assoc refl)

  -- What stands before the address that has no text.
  abbrev pub cut_text : List SvcbParam → List ℕ
  cut_text [] = codes "IPV4S={"
  cut_text (param ∷ params) =
      range_print (param_text lib shown) (codes " ") (param ∷ params) ++ codes " IPV4S={"

  put_params_cut :
      (before after : List SvcbParam) (ip : IpAddrBase) (ips : List IpAddrBase) (w : List ℕ)
      → All (IsShown lib shown) before
      → print_address lib inet ip ≡ none
      → put_params lib (before ++ ipv4_hints (ip ∷ ips) ∷ after) (good w)
        ≡ bad (w ++ cut_text before)
  unfolding put_params range_print
  put_params_cut [] after ip ips w all e =
      ap (param_print_loop lib after) (hints_cut lib ip ips w e)
      ∙ param_print_loop-bad lib after (w ++ codes "IPV4S={")
  put_params_cut (param ∷ before) after ip ips w (here, all) e =
      ap (param_print_loop lib (before ++ ipv4_hints (ip ∷ ips) ∷ after))
        (param_visitor_lem lib shown param w here)
      ∙ param_print_loop_cut before after ip ips (w ++ param_text lib shown param) all e
      ∙ ap bad (simp append_assoc refl)

  -- Where inet_ntop refuses the first IPv4 hint of a parameter, and gives a text to every address of the
  -- parameters before it, the operator leaves a stream that was good with its failbit set, and with the
  -- record's text only up to the brace of that parameter: neither what stands behind it nor the closing
  -- bracket is written.
  pub print_svcb_cut :
      (address : List ℕ) (priority : ℕ) (before after : List SvcbParam) (ip : IpAddrBase)
      (ips : List IpAddrBase) (w : List ℕ)
      → All (IsShown lib shown) before
      → print_address lib inet ip ≡ none
      → print_svcb lib
          (record {
            address = address;
            priority = priority;
            params = before ++ ipv4_hints (ip ∷ ips) ∷ after;
          })
          (good w)
        ≡ bad (w ++ address ++ codes " " ++ decimal priority ++ codes " [" ++ cut_text before)
  unfolding print_svcb
  print_svcb_cut address priority before after ip ips w all e =
      ap (put (codes "]")) (
        put_params_cut before after ip ips
          ((((w ++ address) ++ codes " ") ++ decimal priority) ++ codes " [") all e)
      ∙ ap bad (simp append_assoc refl)
