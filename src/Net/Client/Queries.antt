-- ===== src/Net/Client/Queries.antt =====
-- The results of the queries of nstl/nstl/dns_tools_posix.cpp.
use nstl.Prelude.{
  ℕ, ◌+◌, ◌≤◌, ◌<◌, ◌≡◌, ap, ◌∙◌, ◌⊎◌, inl, inr, Option, none, some, List, arith, Result,
  Option-cases, ok, c_string,
}
use nstl.Net.Lookup.Results.{FitsHost, stack_name_fits}
use nstl.Net.Records.{RawRecord, query_loop, collect}
use nstl.Net.Records.Query.{Grows, query_loop_ends, collect_lem, results, non_empty}
use nstl.Net.Client.{Resolver, process_item, records_of, query_of}

module _ (resolver : Resolver) (fuel buff_size : ℕ) where
  process_item_answer :
      {A : Type 0} (name : List ℕ) (ns_type : ℕ) (func : List (Option RawRecord) → Option A)
      (len size : ℕ) (records : List (Option RawRecord))
      → query_loop fuel (resolver.nquery name ns_type) 0 buff_size ≡ some (some (len, size))
      → resolver.parse name ns_type len ≡ some records
      → process_item resolver fuel buff_size name ns_type func ≡ some (func records)
  unfolding process_item
  process_item_answer name ns_type func len size records e p = ground arith

  process_item_failed :
      {A : Type 0} (name : List ℕ) (ns_type : ℕ) (func : List (Option RawRecord) → Option A)
      → query_loop fuel (resolver.nquery name ns_type) 0 buff_size ≡ some none
      → process_item resolver fuel buff_size name ns_type func ≡ some none
  unfolding process_item
  process_item_failed name ns_type func e = ground arith

  process_item_broken :
      {A : Type 0} (name : List ℕ) (ns_type : ℕ) (func : List (Option RawRecord) → Option A)
      (len size : ℕ)
      → query_loop fuel (resolver.nquery name ns_type) 0 buff_size ≡ some (some (len, size))
      → resolver.parse name ns_type len ≡ none
      → process_item resolver fuel buff_size name ns_type func ≡ some none
  unfolding process_item
  process_item_broken name ns_type func len size e p = ground arith

  -- What a query gives behind the last call of res_nquery, with a buffer of size `size`.
  abbrev pub Answers :
      {A : Type 0}
      → List ℕ
      → ℕ
      → (RawRecord → Option A)
      → ℕ
      → ℕ
      → Result (Option (Option (List A)))
      → Type 0
  Answers host ns_type handle last size result =
      ((resolver.nquery host ns_type last ≡ none) × (result ≡ ok (some none)))
      ⊎ ((len : ℕ) × (resolver.nquery host ns_type last ≡ some len)
          × (len < size)
          × (((resolver.parse host ns_type len ≡ none) × (result ≡ ok (some none)))
              ⊎ ((records : List (Option RawRecord)) × (resolver.parse host ns_type len
                    ≡ some records)
                  × (result ≡ ok (some (non_empty (results handle records)))))))

  -- A query for a name of 1 to 255 bytes ends if no answer is longer than `bound` and the fuel is
  -- above `bound + 1` less the buffer's size. It asks again, with a buffer one longer than the answer,
  -- as long as the answer does not fit. Where the last call of res_nquery fails, or its answer cannot be
  -- parsed, it returns nothing; and else the items that the handler makes of that answer's records, in
  -- their order, and nothing rather than an empty list.
  pub query_of_ends :
      {A : Type 0} (ns_type : ℕ) (handle : RawRecord → Option A) (name : List ℕ) (bound : ℕ)
      → FitsHost name
      → ((i : ℕ) (n : ℕ) → resolver.nquery (c_string name) ns_type i ≡ some n → n ≤ bound)
      → bound + 2 ≤ fuel + buff_size
      → 0 < fuel
      → (longer : List ℕ) × (last : ℕ) × (size : ℕ) × Grows
          (resolver.nquery (c_string name) ns_type)
          0
          buff_size
          longer
          last
          size
        × Answers
            (c_string name)
            ns_type
            handle
            last
            size
            (query_of resolver fuel buff_size ns_type handle name)
  unfolding query_of records_of
  query_of_ends {A} ns_type handle name bound fits small enough some_fuel =
      let host = c_string name in
      let func : List (Option RawRecord) → Option (List A) =
        λ records. collect handle records none in
      let (longer, last, size, grows, ends) =
        query_loop_ends fuel bound (resolver.nquery host ns_type) 0 buff_size small enough
          some_fuel in
      rw (stack_name_fits name fits) (
        longer,
        last,
        size,
        grows,
        elim ends [
          | inl (n, e) ↦ inl (n, ap ok (process_item_failed host ns_type func e))
          | inr (len, n, l, e) ↦ elim (Option-cases (resolver.parse host ns_type len)) [
            | inl p ↦
                inr (len, n, l, inl (p, ap ok (process_item_broken host ns_type func len size e p)))
            | inr (records, p) ↦ inr (
              len,
              n,
              l,
              inr (
                records,
                p,
                ap ok (
                    process_item_answer host ns_type func len size records e p
                    ∙ ap some (collect_lem handle records)),
              ),
            )
          ]
        ],
      )
