-- ===== src/Net/Records/Names.antt =====
-- The names in MX, CNAME and SRV answers, nstl/nstl/dns_tools_posix.cpp.
use nstl.Prelude.{
  ℕ, ◌≤◌, ◌<◌, min, ◌≡◌, ap, ◌↔◌, some, List, arith, length, drop, length-take, take_of_ge,
}
use nstl.Net.Records.{
  RawRecord, Expand, c_in, t_mx, t_srv, strnlen_prefix, mx_item, srv_item, word_at,
}

whole_name : (n : ℕ) (name : List ℕ) → (strnlen_prefix n name ≡ name) ↔ (length name ≤ n)
whole_name n name = (
  (λ e. omega (arith, ap length e, length-take {0} (min (length name) n) name)),
  (λ h. take_of_ge (min (length name) n) name (omega arith)),
)

-- Of a well-formed MX record whose name takes `n` bytes in the message the handler returns the whole
-- name exactly if the name is at most `n` characters long, so not where it is compressed to less.
pub mx_item_whole :
    (expand : Expand) (r : RawRecord) (n : ℕ) (name : List ℕ)
    → r.rr_class ≡ c_in
    → r.rr_type ≡ t_mx
    → 3 ≤ length r.rdata
    → expand (drop 2 r.rdata) ≡ some (n, name)
    → (mx_item expand r ≡ some (record { address = name; priority = word_at 0 r.rdata }))
      ↔ (length name ≤ n)
unfolding mx_item
mx_item_whole expand r n name hc ht hl e =
    ((λ d. (whole_name n name).0 (ground arith)), (λ h. ground (arith, (whole_name n name).1 h)))

-- The same of SRV records.
pub srv_item_whole :
    (expand : Expand) (r : RawRecord) (n : ℕ) (name : List ℕ)
    → r.rr_class ≡ c_in
    → r.rr_type ≡ t_srv
    → 6 < length r.rdata
    → expand (drop 6 r.rdata) ≡ some (n, name)
    → (srv_item expand r
        ≡ some (record {
          address = name;
          port = word_at 4 r.rdata;
          priority = word_at 0 r.rdata;
          weight = word_at 2 r.rdata;
        }))
      ↔ (length name ≤ n)
unfolding srv_item
srv_item_whole expand r n name hc ht hl e =
    ((λ d. (whole_name n name).0 (ground arith)), (λ h. ground (arith, (whole_name n name).1 h)))
