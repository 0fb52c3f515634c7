-- ===== src/Net/Records/Query.antt =====
-- The query loop and the loop over the records, nstl/nstl/dns_tools_posix.cpp.
use nstl.Prelude.{
  ℕ, zero, suc, ◌+◌, ◌≤◌, ◌<◌, ◌≡◌, refl, sym, ap, ◌∙◌, ◌⊎◌, inl, inr, Option, none, some, List, [],
  ◌∷◌, ◌++◌, append-nil, append_assoc, arith, leb, Bool-cases, Option-cases,
}
use nstl.Net.Records.{RawRecord, query_loop, collect, push_optional}

-- The queries whose answers did not fit: with a buffer of size `buff_size` from the k-th on, up to the
-- one that is the `last`, with a buffer of size `size`. Each makes the buffer one longer than its answer.
abbrev pub Grows : (ℕ → Option ℕ) → ℕ → ℕ → List ℕ → ℕ → ℕ → Type 0
Grows query k buff_size [] last size = (last ≡ k) × (size ≡ buff_size)
Grows query k buff_size (n ∷ longer) last size =
    (query k ≡ some n) × (buff_size ≤ n) × Grows query (k + 1) (n + 1) longer last size

-- The last query fails, or its answer fits the buffer.
abbrev pub Outcome : (ℕ → Option ℕ) → ℕ → ℕ → Option (Option (ℕ × ℕ)) → Type 0
Outcome query last size answer =
    ((query last ≡ none) × (answer ≡ some none))
    ⊎ ((len : ℕ) × (query last ≡ some len) × (len < size) × (answer ≡ some (some (len, size))))

-- If no answer is longer than `bound`, fuel above `bound + 1` less the buffer's size is enough: the
-- loop queries with a larger buffer as long as the answer does not fit, and ends with the first query
-- that fails, or whose answer fits its buffer.
pub query_loop_ends :
    (fuel bound : ℕ) (query : ℕ → Option ℕ) (k buff_size : ℕ)
    → ((i : ℕ) (n : ℕ) → query i ≡ some n → n ≤ bound)
    → bound + 2 ≤ fuel + buff_size
    → 0 < fuel
    → (longer : List ℕ) × (last : ℕ) × (size : ℕ) × Grows query k buff_size longer last size
      × Outcome query last size (query_loop fuel query k buff_size)
unfolding query_loop
query_loop_ends zero bound query k buff_size small enough h = absurd (omega arith)
query_loop_ends (suc fuel) bound query k buff_size small enough h = elim (Option-cases (query k)) [
  | inl e ↦ ([], k, buff_size, (refl, refl), inl (e, rw (e, query_loop)))
  | inr (n, e) ↦ elim (Bool-cases (leb buff_size n)) [
    | inr fits ↦
        ([], k, buff_size, (refl, refl), inr (n, e, ground arith, rw (e, query_loop, fits)))
    | inl too_long ↦
        let (longer, last, size, grows, ends) =
          query_loop_ends fuel bound query (k + 1) (n + 1) small (ground (arith, small k n e))
            (ground (arith, small k n e)) in
        (n ∷ longer, last, size, (e, ground arith, grows), rw (e, query_loop, too_long) ends)
  ]
]

-- What a handler makes of the records that it takes, in their order.
abbrev with_item : {A : Type 0} → Option A → List A → List A
with_item none items = items
with_item (some a) items = a ∷ items

abbrev pub results : {A : Type 0} → (RawRecord → Option A) → List (Option RawRecord) → List A
results handle [] = []
results handle (none ∷ records) = results handle records
results handle (some r ∷ records) = with_item (handle r) (results handle records)

-- A result with no items is no result.
abbrev pub non_empty : {A : Type 0} → List A → Option (List A)
non_empty [] = none
non_empty (a ∷ items) = some (a ∷ items)

collect-some :
    {A : Type 0} (handle : RawRecord → Option A) (records : List (Option RawRecord))
    (items : List A)
    → collect handle records (some items) ≡ some (items ++ results handle records)
unfolding collect push_optional
collect-some handle [] items = ap some (sym (append-nil items))
collect-some handle (none ∷ records) items = collect-some handle records items
collect-some handle (some r ∷ records) items = elim (Option-cases (handle r)) [
  | inl e ↦ rw e (collect-some handle records items)
  | inr (a, e) ↦ rw e (
      collect-some handle records (items ++ a ∷ [])
      ∙ ap some (append_assoc items (a ∷ []) (results handle records)))
]

-- A query returns the items of the records that the handler takes, in order, and nothing rather than
-- an empty list.
pub collect_lem :
    {A : Type 0} (handle : RawRecord → Option A) (records : List (Option RawRecord))
    → collect handle records none ≡ non_empty (results handle records)
unfolding collect push_optional
collect_lem handle [] = refl
collect_lem handle (none ∷ records) = collect_lem handle records
collect_lem handle (some r ∷ records) = elim (Option-cases (handle r)) [
  | inl e ↦ rw e (collect_lem handle records)
  | inr (a, e) ↦ rw e (collect-some handle records (a ∷ []))
]
