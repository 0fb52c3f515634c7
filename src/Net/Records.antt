-- ===== src/Net/Records.antt =====
-- The record handlers of DnsClient, nstl/nstl/dns_tools_posix.cpp: MX, TXT, CNAME, SRV and SVCB
-- answers. A message is the list of what ns_parserr makes of its answer records, `none` where it
-- fails; `expand` is dn_expand on the rest of a record's data: how many bytes the compressed name
-- takes there, and the name that it stands for, a C string.
pub mod Print
pub mod Query
pub mod Names
pub mod Texts
use nstl.Prelude.{
  ℕ, zero, suc, ◌+◌, ◌-◌, ◌*◌, ◌/◌, ◌%◌, ◌^◌, ◌≤◌, ◌<◌, min, ◌≡◌, refl, sym, ap, ◌∙◌, ◌≢◌, ◌↔◌, ◌⊎◌,
  inl, inr, Bool, true, false, ◌&&◌, ◌||◌, not, Option, none, some, List, [], ◌∷◌, ◌++◌, map,
  append-nil, append_assoc, arith, ltb, leb, ◌==◌, if◌then◌else◌, ltb→lt, lt→ltb, leb→le, le→leb,
  ==_iff, tests, Bool-cases, Option-cases, all_below, all_below_sound, length, get_elem?, take,
  drop, replicate, length-append, take-append-drop, length-take, length-drop, length-replicate,
  take-append, drop-append, take-append_of_le, take-append_of_ge, append-replicate, take_of_ge,
  drop_of_ge, length-map, All, All-append, Exception, nstl_exception, length_error, bad_alloc,
  runtime_error, out_of_range, invalid_argument, Result, ok, err, ◌>>=◌, ◌>>◌, throw_if, >>=-eq-ok,
  Result-cases, get_elem?_of_lt, nil_of_length, find, codes, drop_next,
}
use nstl.Net.Svcb.{SvcbParam, get16, resolve_params}

pub record RawRecord : Type 0 where
  pub rr_class : ℕ
  pub rr_type : ℕ
  pub rdata : List ℕ

abbrev pub Expand : Type 0
Expand = List ℕ → Option (ℕ × List ℕ)

pub record MxSrv : Type 0 where
  pub address : List ℕ
  pub priority : ℕ

pub record GenSrv : Type 0 where
  pub address : List ℕ
  pub port : ℕ
  pub priority : ℕ
  pub weight : ℕ

pub record GenSvcb : Type 0 where
  pub address : List ℕ
  pub priority : ℕ
  pub params : List SvcbParam

-- ns_c_in and the record types ns_t_cname, ns_t_mx, ns_t_txt and ns_t_srv.
abbrev pub c_in : ℕ
c_in = 1

abbrev pub t_cname : ℕ
t_cname = 5

abbrev pub t_mx : ℕ
t_mx = 15

abbrev pub t_txt : ℕ
t_txt = 16

abbrev pub t_srv : ℕ
t_srv = 33

abbrev pub is_answer : ℕ → RawRecord → Bool
is_answer tgt_type r = (r.rr_class == c_in) && (r.rr_type == tgt_type)

-- strnlen of a C string: its length, and at most `n`.
abbrev pub strnlen_prefix : ℕ → List ℕ → List ℕ
strnlen_prefix n name = take (min (length name) n) name

-- ns_get16 at an offset that the handler has checked.
unfoldable pub word_at : ℕ → List ℕ → ℕ
word_at i s = elim (drop i s) [ [] ↦ 0 | hi ∷ t ↦ elim t [ [] ↦ 0 | lo ∷ u ↦ get16 hi lo ] ]

-- What one record adds: `none` is a `continue`.
unfoldable pub mx_item : Expand → RawRecord → Option MxSrv
mx_item expand r =
    let named : Option MxSrv = elim (expand (drop 2 r.rdata)) [
      | none ↦ none
      | some (expanded_length, name) ↦
          some
            (record { address = strnlen_prefix expanded_length name; priority = word_at 0 r.rdata })
    ] in
    if not (is_answer t_mx r) || ltb (length r.rdata) 3 then none else named

unfoldable pub c_name_item : Expand → RawRecord → Option (List ℕ)
c_name_item expand r =
    let named : Option (List ℕ) = elim (expand r.rdata) [
      | none ↦ none
      | some (len, name) ↦ some (strnlen_prefix len name)
    ] in
    if not (is_answer t_cname r) then none else named

unfoldable pub srv_item : Expand → RawRecord → Option GenSrv
srv_item expand r =
    let named : Option GenSrv = elim (expand (drop 6 r.rdata)) [
      | none ↦ none
      | some (len, name) ↦ some (record {
        address = strnlen_prefix len name;
        port = word_at 4 r.rdata;
        priority = word_at 0 r.rdata;
        weight = word_at 2 r.rdata;
      })
    ] in
    if not (is_answer t_srv r) || leb (length r.rdata) 6 then none else named

-- SVCB and HTTPS records: the root name is written as a dot, and the whole name is taken.
abbrev pub dotted : List ℕ → List ℕ
dotted [] = b'.' ∷ []
dotted (c ∷ name) = c ∷ name

unfoldable pub svcb_item : ℕ → Expand → RawRecord → Option GenSvcb
svcb_item tgt_type expand r =
    let named : Option GenSvcb = elim (expand (drop 2 r.rdata)) [
      | none ↦ none
      | some (buff_n, name) ↦ some (record {
        address = dotted name;
        priority = word_at 0 r.rdata;
        params = resolve_params (drop (2 + buff_n) r.rdata);
      })
    ] in
    if not (is_answer tgt_type r) || ltb (length r.rdata) 2 then none else named

-- The loop over the character strings of a TXT record; the fuel is the number of bytes.
unfoldable pub text_loop : ℕ → List ℕ → List ℕ → Option (List ℕ)
text_loop fuel [] item = some item
text_loop zero (text_len ∷ p) item = none
text_loop (suc fuel) (text_len ∷ p) item =
    let rest = text_loop fuel (drop text_len p) (item ++ take text_len p) in
    if ltb (length p) text_len then none else rest

unfoldable pub txt_item : RawRecord → Option (List ℕ)
txt_item r = if not (is_answer t_txt r) then none else text_loop (length r.rdata) r.rdata []

-- The loop over the records of a message. `retval` is emplaced by the first record that counts.
module _ {A : Type 0} where
  unfoldable pub push_optional : Option (List A) → A → Option (List A)
  push_optional none item = some (item ∷ [])
  push_optional (some items) item = some (items ++ item ∷ [])

  unfoldable pub collect :
      (RawRecord → Option A) → List (Option RawRecord) → Option (List A) → Option (List A)
  collect handle [] retval = retval
  collect handle (none ∷ records) retval = collect handle records retval
  collect handle (some r ∷ records) retval =
      collect handle records
        (elim (handle r) [ none ↦ retval | some item ↦ push_optional retval item ])

-- The queries of one name, with the answers' sizes as the resolver gives them: the size for the
-- k-th query, `none` where res_nquery returns 0 or less. The result is the length of an answer that
-- fits the buffer and the buffer's size then; an inner `none` is `return false`, and the outer `none` means that
-- the fuel ran out.
unfoldable pub query_loop : ℕ → (ℕ → Option ℕ) → ℕ → ℕ → Option (Option (ℕ × ℕ))
query_loop zero query k buff_size = none
query_loop (suc fuel) query k buff_size = elim (query k) [
  | none ↦ some none
  | some len ↦ elim (leb buff_size len) [
    | true ↦ query_loop fuel query (k + 1) (len + 1)
    | false ↦ some (some (len, buff_size))
  ]
]
