-- ===== src/Net/Records/Texts.antt =====
-- The character strings of TXT records, each behind its length (nstl/nstl/dns_tools_posix.cpp).
use nstl.Prelude.{
  ℕ, zero, suc, ◌≤◌, ◌≡◌, sym, ap, some, List, [], ◌∷◌, ◌++◌, append-nil, append_assoc, arith,
  length, length-append, take-append, drop-append,
}
use nstl.Net.Records.{c_in, t_txt, txt_item, text_loop}
use nstl.Net.Svcb.Wire.{put_names}

abbrev pub joined : List (List ℕ) → List ℕ
joined [] = []
joined (s ∷ ss) = s ++ joined ss

text_loop-put_names :
    (fuel : ℕ) (ss : List (List ℕ)) (item : List ℕ)
    → length (put_names ss) ≤ fuel
    → text_loop fuel (put_names ss) item ≡ some (item ++ joined ss)
unfolding text_loop
text_loop-put_names fuel [] item h = ap some (sym (append-nil item))
text_loop-put_names zero (s ∷ ss) item h = absurd (omega arith)
text_loop-put_names (suc fuel) (s ∷ ss) item h =
    let len = length-append s (put_names ss) in
    let ih = text_loop-put_names fuel ss (item ++ s) (omega (arith, len)) in
    ground (
      arith,
      len,
      ih,
      take-append s (put_names ss),
      drop-append s (put_names ss),
      append_assoc item s (joined ss),
    )

-- The text of a TXT record is the concatenation of its character strings, however it is cut.
pub txt_item-put_names :
    (ss : List (List ℕ))
    → txt_item (record { rr_class = c_in; rr_type = t_txt; rdata = put_names ss })
      ≡ some (joined ss)
unfolding txt_item
txt_item-put_names ss = text_loop-put_names (length (put_names ss)) ss [] (omega arith)
