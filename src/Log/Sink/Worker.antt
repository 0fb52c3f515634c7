-- ===== src/Log/Sink/Worker.antt =====
-- The thread of OstreamLog, nstl/nstl/logger.cpp: a round of its loop, and the rounds that stop
-- waits for.
use nstl.Prelude.{
  Bool, true, false, ℕ, zero, suc, ◌+◌, ◌<◌, ◌≡◌, refl, sym, ap, ◌∙◌, Option, none, some, List, [],
  ◌∷◌, ◌++◌, append-nil, append_assoc, arith, length,
}
use mathlib.Core.Path.{subst}
use nstl.Log.Sink.{
  BoundedQueue, QueueLaws, OstreamLog, difference, work, join_worker, rounds, stop_log,
}

abbrev pub lines : List (List ℕ) → List (Option (List ℕ))
lines [] = []
lines (line ∷ ls) = some line ∷ lines ls

pub lines-append : (ls ms : List (List ℕ)) → lines (ls ++ ms) ≡ lines ls ++ lines ms
lines-append [] ms = refl
lines-append (l ∷ ls) ms = ap (λ t. some l ∷ t) (lines-append ls ms)

module _ (lib : BoundedQueue) (laws : QueueLaws lib) where
  -- The thread runs, and the queue holds lines only.
  abbrev pub IsOpen : List (List ℕ) → OstreamLog lib → Type 0
  IsOpen ls s = (s.running ≡ true) × (s.finished ≡ false) × (laws.contents s.queue ≡ lines ls)

  pub work-line :
      (s : OstreamLog lib) (line : List ℕ) (items : List (Option (List ℕ)))
      → laws.contents s.queue ≡ some line ∷ items
      → (rest : lib.Queue) × (work lib s
          ≡ record s { queue = rest; waiting = false; written = s.written ++ line ∷ [] })
        × (laws.contents rest ≡ items)
  unfolding work
  work-line s line items e =
      let (rest, popped, left) = laws.pop_first s.queue (some line) items e in
      (rest, rw (popped, work) refl, left)

  work-end :
      (s : OstreamLog lib) (items : List (Option (List ℕ)))
      → laws.contents s.queue ≡ none ∷ items
      → (rest : lib.Queue) × (work lib s
          ≡ record s { queue = rest; waiting = false; finished = true })
  unfolding work
  work-end s items e =
      let (rest, popped, left) = laws.pop_first s.queue none items e in
      (rest, rw (popped, work) refl)

  pub work-waits :
      (s : OstreamLog lib) → laws.contents s.queue ≡ [] → work lib s ≡ record s { waiting = true }
  unfolding work
  work-waits s e = rw (laws.pop_empty s.queue e, work) refl

  join_step :
      (fuel : ℕ) (s : OstreamLog lib)
      → s.finished ≡ false
      → join_worker lib (suc fuel) s ≡ join_worker lib fuel (work lib s)
  unfolding join_worker
  join_step fuel s f = simp f refl

  join_finished : (fuel : ℕ) (s : OstreamLog lib) → s.finished ≡ true → join_worker lib fuel s ≡ s
  unfolding join_worker
  join_finished zero s f = refl
  join_finished (suc fuel) s f = simp f refl

  abbrev pub Delivered : OstreamLog lib → List (List ℕ) → OstreamLog lib → Type 0
  Delivered s ls t = (t.written ≡ s.written ++ ls) × (t.finished ≡ true)

  join_lines :
      (fuel : ℕ) (s : OstreamLog lib) (ls : List (List ℕ))
      → s.finished ≡ false
      → laws.contents s.queue ≡ lines ls ++ none ∷ []
      → length ls < fuel
      → Delivered s ls (join_worker lib fuel s)
  join_lines zero s ls f e enough = absurd (omega arith)
  join_lines (suc fuel) s [] f e enough =
      let (rest, w) = work-end s [] e in
      let done = record s { queue = rest; waiting = false; finished = true } in
      subst (Delivered s [])
        (sym (join_step fuel s f ∙ ap (join_worker lib fuel) w ∙ join_finished fuel done refl))
        (sym (append-nil s.written), refl)
  join_lines (suc fuel) s (line ∷ ls) f e enough =
      let (rest, w, left) = work-line s line (lines ls ++ none ∷ []) e in
      let (wrote, finished) =
        join_lines fuel
          (record s { queue = rest; waiting = false; written = s.written ++ line ∷ [] }) ls f left
          (omega arith) in
      subst (Delivered s (line ∷ ls)) (sym (join_step fuel s f ∙ ap (join_worker lib fuel) w))
        (wrote ∙ append_assoc s.written (line ∷ []) ls, finished)

  stop_running :
      (s : OstreamLog lib)
      → s.running ≡ true
      → stop_log lib s ≡ (
        join_worker lib
            (rounds lib (lib.size (lib.emplace none s.queue) s.waiting))
            (record s { running = false; queue = lib.emplace none s.queue }),
        true,
      )
  unfolding stop_log
  stop_running s r = simp r refl

  length-lines : (ls : List (List ℕ)) → length (lines ls ++ none ∷ []) ≡ length ls + 1
  length-lines [] = omega arith
  length-lines (l ∷ ls) = omega (arith, length-lines ls)

  enough_rounds : (n : ℕ) (waiting : Bool) → n < rounds lib (difference (n + 1) waiting)
  enough_rounds n false = omega arith
  enough_rounds n true =
      let e : n + 1 ≡ suc n = omega arith in
      subst (λ m. n < rounds lib (difference m true)) (sym e) (omega arith)

  pub stop-IsOpen :
      (s : OstreamLog lib) (ls : List (List ℕ)) → IsOpen ls s → Delivered s ls (stop_log lib s).0
  stop-IsOpen s ls (r, f, e) =
      let queue = lib.emplace none s.queue in
      let asked = record s { running = false; queue = queue } in
      let items : laws.contents queue ≡ lines ls ++ none ∷ [] =
        laws.contents-emplace none s.queue ∙ ap (λ c. c ++ none ∷ []) e in
      let fuel = rounds lib (lib.size queue s.waiting) in
      let size : fuel ≡ rounds lib (difference (length ls + 1) s.waiting) = ap (rounds lib) (
        laws.size_contents queue s.waiting
        ∙ ap (λ n. difference n s.waiting) (ap length items ∙ length-lines ls)) in
      subst (λ t. Delivered s ls t.0) (sym (stop_running s r))
        (join_lines fuel asked ls f items
          (subst (λ n. length ls < n) (sym size) (enough_rounds (length ls) s.waiting)))
