-- ===== src/Tests/Hosts.antt =====
-- Runs of the queries and of the lookup of hosts.
use nstl.Prelude.{ℕ, ◌≤◌, ◌≡◌, refl, none, some, List, [], ◌∷◌, arith, ok, c_string, codes}
use nstl.Net.Inet.{inet}
use nstl.Net.Print.{ipv4_addr}
use nstl.Net.Records.{
  push_optional, RawRecord, c_in, t_txt, txt_item, collect, text_loop, query_loop,
}
use nstl.Net.Records.Query.{Grows}
use nstl.Net.Client.{Resolver, txt_name, query_of, records_of, process_item}
use nstl.Net.Client.Queries.{Answers, query_of_ends}
use nstl.Net.Lookup.{Hints, Answer, success, ipv4, ips_name, stack_name, address_loop}

abbrev spf : RawRecord
spf = record { rr_class = c_in; rr_type = t_txt; rdata = 6 ∷ codes "v=spf1" }

-- One TXT record in a message of 40 bytes.
abbrev resolver : Resolver
resolver = record {
  nquery = λ name ns_type k. some 40;
  parse = λ name ns_type len. some (some spf ∷ none ∷ []);
  expand = λ s. none;
}

answers : txt_name resolver 9 32 (codes "example.org") ≡ ok (some (some (codes "v=spf1" ∷ [])))
unfolding txt_name query_of records_of process_item stack_name c_string query_loop collect txt_item
    text_loop push_optional
answers = refl

bounded :
    (i : ℕ) (n : ℕ) → resolver.nquery (c_string (codes "example.org")) t_txt i ≡ some n → n ≤ 40
bounded i n e = ground arith

query_of_ends_example :
    (longer : List ℕ) × (last : ℕ) × (size : ℕ) × Grows
      (resolver.nquery (c_string (codes "example.org")) t_txt)
      0
      32
      longer
      last
      size
    × Answers resolver 10 32
        (c_string (codes "example.org"))
        t_txt
        txt_item
        last
        size
        (query_of resolver 10 32 t_txt txt_item (codes "example.org"))
query_of_ends_example =
    query_of_ends resolver 10 32 t_txt txt_item (codes "example.org") 40 (omega arith) bounded
      (omega arith) (omega arith)

abbrev home : List ℕ → Hints → Answer
home name hints =
    success (record { family = some inet; address = 127 ∷ 0 ∷ 0 ∷ 1 ∷ []; canonname = none } ∷ [])

looks_up :
    ips_name home (codes "localhost") ipv4 ≡ ok (some (ipv4_addr (127 ∷ 0 ∷ 0 ∷ 1 ∷ []) ∷ []))
unfolding ips_name stack_name c_string address_loop push_optional
looks_up = refl
