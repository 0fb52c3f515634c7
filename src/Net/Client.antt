-- ===== src/Net/Client.antt =====
-- The queries of DnsClient, nstl/nstl/dns_tools_posix.cpp: a query for one type of record, its
-- answers and what is made of them. The resolver's library is an argument.
pub mod Queries
use nstl.Prelude.{
  ℕ, zero, suc, ◌+◌, ◌-◌, ◌*◌, ◌/◌, ◌%◌, ◌^◌, ◌≤◌, ◌<◌, min, ◌≡◌, refl, sym, ap, ◌∙◌, ◌≢◌, ◌↔◌, ◌⊎◌,
  inl, inr, Bool, true, false, ◌&&◌, ◌||◌, not, Option, none, some, List, [], ◌∷◌, ◌++◌, map,
  append-nil, append_assoc, arith, ltb, leb, ◌==◌, if◌then◌else◌, ltb→lt, lt→ltb, leb→le, le→leb,
  ==_iff, tests, Bool-cases, Option-cases, all_below, all_below_sound, length, get_elem?, take,
  drop, replicate, length-append, take-append-drop, length-take, length-drop, length-replicate,
  take-append, drop-append, take-append_of_le, take-append_of_ge, append-replicate, take_of_ge,
  drop_of_ge, length-map, All, All-append, Exception, nstl_exception, length_error, bad_alloc,
  runtime_error, out_of_range, invalid_argument, Result, ok, err, ◌>>=◌, ◌>>◌, throw_if, >>=-eq-ok,
  Result-cases, get_elem?_of_lt, nil_of_length, find, c_string, codes, drop_next,
}
use nstl.Net.Lookup.{stack_name}
use nstl.Net.Records.{
  RawRecord, Expand, MxSrv, GenSrv, GenSvcb, t_cname, t_mx, t_txt, t_srv, mx_item, c_name_item,
  srv_item, svcb_item, txt_item, collect, query_loop,
}

-- res_nquery for a name and a type, the n-th time that it is called; ns_initparse and ns_parserr on
-- an answer of some length, `none` where the message is broken; and dn_expand in that message.
pub record Resolver : Type 0 where
  pub nquery : List ℕ → ℕ → ℕ → Option ℕ
  pub parse : List ℕ → ℕ → ℕ → Option (List (Option RawRecord))
  pub expand : Expand

-- `buff_size` is the size of the buffer before the call; the outer `none` means that the fuel ran out.
module _ (resolver : Resolver) (fuel buff_size : ℕ) where
  unfoldable pub process_item :
      {A : Type 0} → List ℕ → ℕ → (List (Option RawRecord) → Option A) → Option (Option A)
  process_item name ns_type func =
      elim (query_loop fuel (resolver.nquery name ns_type) 0 buff_size) [
        | none ↦ none
        | some none ↦ some none
        | some (some (len, size)) ↦ elim (resolver.parse name ns_type len) [
          | none ↦ some none
          | some records ↦ some (func records)
        ]
      ]

  -- A member function: the records of one type, as the handler reads them.
  unfoldable pub records_of :
      {A : Type 0} → ℕ → (RawRecord → Option A) → List ℕ → Option (Option (List A))
  records_of ns_type handle name =
      process_item name ns_type (λ records. collect handle records none)

  -- The functions of the namespace, which copy the name to the stack first.
  unfoldable pub query_of :
      {A : Type 0} → ℕ → (RawRecord → Option A) → List ℕ → Result (Option (Option (List A)))
  query_of ns_type handle name = stack_name name >>= λ host. ok (records_of ns_type handle host)

  unfoldable pub mx_name : List ℕ → Result (Option (Option (List MxSrv)))
  mx_name = query_of t_mx (mx_item resolver.expand)

  unfoldable pub txt_name : List ℕ → Result (Option (Option (List (List ℕ))))
  txt_name = query_of t_txt txt_item

  unfoldable pub c_name : List ℕ → Result (Option (Option (List (List ℕ))))
  c_name = query_of t_cname (c_name_item resolver.expand)

  unfoldable pub srv_name : List ℕ → Result (Option (Option (List GenSrv)))
  srv_name = query_of t_srv (srv_item resolver.expand)

  -- The types Svcb and Https of the enumeration SvcbType.
  unfoldable pub svcb_name : ℕ → List ℕ → Result (Option (Option (List GenSvcb)))
  svcb_name svcb_type = query_of svcb_type (svcb_item svcb_type resolver.expand)
