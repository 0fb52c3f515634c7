-- ===== src/Trigger/Reads.antt =====
-- The data that the thread of a trigger takes, nstl/nstl/file_trigger_linux.cpp.
use nstl.Prelude.{
  ℕ, zero, suc, ◌+◌, ◌≡◌, refl, sym, ap, ◌∙◌, Bool, true, false, List, [], ◌∷◌, ◌++◌, append_assoc,
  arith, All, ok,
}
use nstl.Trigger.{
  Read, would_block, interrupted, failed, at_end, got, Taken, read_data, Worker, dropped, take_data,
}

abbrev pub IsWhole : Read → Type 0
IsWhole would_block = Unit
IsWhole interrupted = Unit
IsWhole failed = ⊥
IsWhole at_end = Unit
IsWhole (got bytes) = Unit

-- The data that is there before the `n`th answer that no more is to be read.
abbrev pub pieces : ℕ → List Read → List (List ℕ)
pieces zero reads = []
pieces (suc n) [] = []
pieces (suc n) (would_block ∷ reads) = pieces n reads
pieces (suc n) (interrupted ∷ reads) = pieces (suc n) reads
pieces (suc n) (failed ∷ reads) = pieces (suc n) reads
pieces (suc n) (at_end ∷ reads) = pieces n reads
pieces (suc n) (got bytes ∷ reads) = bytes ∷ pieces (suc n) reads

pieces-nil : (n : ℕ) → pieces n [] ≡ []
pieces-nil zero = refl
pieces-nil (suc n) = refl

-- One `_read_data`, and what is left for the later ones.
abbrev pub Takes : ℕ → List Read → Taken → Type 0
Takes n reads taken =
    ((more : Bool) × (taken.result ≡ ok more))
    × (pieces (suc n) reads ≡ taken.calls ++ pieces n taken.left)
    × All IsWhole taken.left

pub read_data-Takes :
    (n : ℕ) (reads : List Read) → All IsWhole reads → Takes n reads (read_data true reads)
unfolding read_data
read_data-Takes n [] whole = ((true, refl), sym (pieces-nil n), tt)
read_data-Takes n (would_block ∷ reads) (t, whole) = ((true, refl), refl, whole)
read_data-Takes n (interrupted ∷ reads) (t, whole) = read_data-Takes n reads whole
read_data-Takes n (failed ∷ reads) (t, whole) = absurd t
read_data-Takes n (at_end ∷ reads) (t, whole) = ((false, refl), refl, whole)
read_data-Takes n (got bytes ∷ reads) (t, whole) =
    let ((more, e), cut, left) = read_data-Takes n reads whole in
    ((more, e), ap (bytes ∷◌) cut, left)

-- A worker has taken `m` pieces more than another one.
abbrev pub Advances : ℕ → Worker → Worker → Type 0
Advances m w later =
    ((n : ℕ)
      → later.delivered ++ pieces n later.data_reads ≡ w.delivered ++ pieces (m + n) w.data_reads)
    × All IsWhole later.data_reads

pub take_data-Advances :
    (w : Worker)
    → All IsWhole w.data_reads
    → ((take_data w).0 ≡ ok tt) × Advances 1 w (take_data w).1
unfolding take_data
take_data-Advances w whole =
    let ((more, e), cut, left) = read_data-Takes 0 w.data_reads whole in
    let taken = read_data true w.data_reads in
    (
      ap dropped e,
      (
        (λ n.
            let (returned, cut_n, left_n) = read_data-Takes n w.data_reads whole in
            append_assoc w.delivered taken.calls (pieces n taken.left)
            ∙ ap (w.delivered ++◌) (sym cut_n)
            ∙ (let e : suc n ≡ 1 + n = omega arith in
                ap (λ k. w.delivered ++ pieces k w.data_reads) e)),
        left,
      ),
    )
