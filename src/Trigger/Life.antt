-- ===== src/Trigger/Life.antt =====
-- A trigger from its factory to its stop, nstl/nstl/file_trigger_linux.cpp.
use nstl.Prelude.{
  ℕ, suc, ◌<◌, ◌≡◌, refl, sym, ap, ◌∙◌, Bool, true, false, some, List, [], ◌∷◌, ◌++◌, append-nil,
  arith, ltb, ◌==◌, if◌then◌else◌, lt→ltb, All, Result, ok, ◌>>=◌, ◌>>◌,
}
use nstl.Signal.Wait.{Ready}
use nstl.Signal.Wait.Rounds.{IsSteady}
use nstl.Trigger.{
  Read, would_block, interrupted, failed, at_end, got, Taken, read_data, Worker, start_trigger,
  guards, factory_file, stop_trigger, Trigger,
}
use nstl.Trigger.Reads.{IsWhole, pieces, read_data-Takes}
use nstl.Trigger.Loop.{visits, asks_exit_in}
use nstl.Trigger.Stop.{stop_trigger-Stopped}

-- A read that does not call back takes the same data.
read_data_skips :
    (reads : List Read)
    → (read_data false reads) ≡ record {
      result = (read_data true reads).result;
      calls = [];
      left = (read_data true reads).left;
    }
unfolding read_data
read_data_skips [] = refl
read_data_skips (would_block ∷ reads) = refl
read_data_skips (interrupted ∷ reads) = read_data_skips reads
read_data_skips (failed ∷ reads) = refl
read_data_skips (at_end ∷ reads) = refl
read_data_skips (got bytes ∷ reads) = read_data_skips reads

-- The thread that starts has taken the data that is there, and called back for it if it was asked to.
abbrev pub Starts : Bool → List Read → Result Worker → Type 0
Starts sow reads started =
    (w : Worker) × (started ≡ ok w)
    × All IsWhole w.data_reads
    × (w.delivered ≡ (if sow then pieces 1 reads else []))
    × ((n : ℕ) → pieces (suc n) reads ≡ pieces 1 reads ++ pieces n w.data_reads)

-- What the constructor makes of its read.
abbrev started_on : List Bool → Taken → Result Worker
started_on inotify_reads taken = taken.result >>= λ more.
    ok (record { data_reads = taken.left; inotify_reads = inotify_reads; delivered = taken.calls })

start_on :
    (sow : Bool) (reads : List Read) (inotify_reads : List Bool)
    → start_trigger true true true sow reads inotify_reads
      ≡ started_on inotify_reads (read_data sow reads)
unfolding start_trigger
start_on sow reads inotify_reads = refl

started_ok :
    (inotify_reads : List Bool) (taken : Taken) (more : Bool)
    → taken.result ≡ ok more
    → started_on inotify_reads taken
      ≡ ok (record {
        data_reads = taken.left;
        inotify_reads = inotify_reads;
        delivered = taken.calls;
      })
started_ok inotify_reads taken more e =
    ap
      (λ r. r >>= λ m. ok (record {
        data_reads = taken.left;
        inotify_reads = inotify_reads;
        delivered = taken.calls;
      }))
      e

-- What one read takes is the first piece.
first_piece :
    (reads : List Read) → All IsWhole reads → (read_data true reads).calls ≡ pieces 1 reads
first_piece reads whole =
    let (returned, cut, left) = read_data-Takes 0 reads whole in
    sym (cut ∙ append-nil (read_data true reads).calls)

later_pieces :
    (reads : List Read)
    → All IsWhole reads
    → (n : ℕ) → pieces (suc n) reads ≡ pieces 1 reads ++ pieces n (read_data true reads).left
later_pieces reads whole n =
    let (returned, cut, left) = read_data-Takes n reads whole in
    cut ∙ ap (◌++ pieces n (read_data true reads).left) (first_piece reads whole)

start_trigger-Starts :
    (sow : Bool) (reads : List Read) (inotify_reads : List Bool)
    → All IsWhole reads
    → Starts sow reads (start_trigger true true true sow reads inotify_reads)
start_trigger-Starts true reads inotify_reads whole =
    let ((more, e), cut, left) = read_data-Takes 0 reads whole in
    let taken = read_data true reads in
    (
      record { data_reads = taken.left; inotify_reads = inotify_reads; delivered = taken.calls },
      start_on true reads inotify_reads ∙ started_ok inotify_reads taken more e,
      left,
      first_piece reads whole,
      later_pieces reads whole,
    )
start_trigger-Starts false reads inotify_reads whole =
    let ((more, e), cut, left) = read_data-Takes 0 reads whole in
    let taken = read_data true reads in
    let skipped : Taken = record { result = taken.result; calls = []; left = taken.left } in
    (
      record { data_reads = taken.left; inotify_reads = inotify_reads; delivered = [] },
      start_on false reads inotify_reads
          ∙ ap (started_on inotify_reads) (read_data_skips reads)
          ∙ started_ok inotify_reads skipped more e,
      left,
      refl,
      later_pieces reads whole,
    )

skipped_or_not :
    (sow : Bool) (p q : List (List ℕ))
    → (if sow then [] else p) ++ ((if sow then p else []) ++ q) ≡ p ++ q
skipped_or_not true p q = refl
skipped_or_not false p q = refl

guards_ok :
    (fd buffer_size : ℕ) → 0 < fd → 0 < buffer_size → guards (some fd) buffer_size true ≡ ok tt
guards_ok fd buffer_size h b =
    let positive : ltb 0 fd ≡ true = lt→ltb 0 fd h in
    let room : (buffer_size == 0) ≡ false = ground arith in simp (positive, room) refl

-- From the factory of a file to the stop: with a descriptor above 0, room in the buffer, a callback and
-- a system that does as it is asked, the callback got, in order, all data that was there at the
-- start or at one of the inotify file's events before the end; where it was not asked to be called
-- for what is there at the start, all but that.
pub factory_file-stop_trigger :
    (inotify_fd exit_read fd buffer_size : ℕ) (sow : Bool) (reads : List Read)
    (inotify_reads : List Bool) (rounds : List Ready)
    → 0 < fd
    → 0 < buffer_size
    → All IsWhole reads
    → IsSteady rounds
    → asks_exit_in inotify_fd exit_read rounds ≡ true
    → (w : Worker) × (t : Trigger) × (factory_file
          (some fd)
          buffer_size
          true
          (start_trigger true true true sow reads inotify_reads)
        ≡ ok w)
      × (stop_trigger inotify_fd exit_read true rounds (record { running = true; worker = w })
          ≡ some (ok tt, t))
      × ((if sow then [] else pieces 1 reads) ++ t.worker.delivered
          ≡ pieces (suc (visits inotify_fd exit_read rounds)) reads)
unfolding factory_file
factory_file-stop_trigger inotify_fd exit_read fd buffer_size sow reads inotify_reads rounds h b
      whole steady asks =
    let (w, started, left, first, later) = start_trigger-Starts sow reads inotify_reads whole in
    let (t, stopped, ended, got_all, again) =
      stop_trigger-Stopped inotify_fd exit_read rounds [] true
        (record { running = true; worker = w }) refl left steady asks in
    (
      w,
      t,
      ap (λ g. g >> start_trigger true true true sow reads inotify_reads)
            (guards_ok fd buffer_size h b)
          ∙ started,
      stopped,
      ap ((if sow then [] else pieces 1 reads) ++◌)
            (got_all ∙ ap (◌++ pieces (visits inotify_fd exit_read rounds) w.data_reads) first)
          ∙ skipped_or_not sow (pieces 1 reads)
              (pieces (visits inotify_fd exit_read rounds) w.data_reads)
          ∙ sym (later (visits inotify_fd exit_read rounds)),
    )
