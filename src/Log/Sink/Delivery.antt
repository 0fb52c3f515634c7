-- ===== src/Log/Sink/Delivery.antt =====
-- The lines that OstreamLog of nstl/nstl/logger.cpp writes, for sequences of pushes and of
-- rounds of its thread.
use nstl.Prelude.{
  ℕ, ◌≡◌, refl, sym, ap, ◌∙◌, inl, inr, Bool, true, false, some, List, [], ◌∷◌, ◌++◌, append-nil,
  append_assoc, Bool-cases,
}
use nstl.Log.{Values}
use mathlib.Core.Path.{subst}
use nstl.Log.Sink.Worker.{lines, lines-append, IsOpen, work-line, work-waits, stop-IsOpen}
use nstl.Log.Sink.{
  BoundedQueue, QueueLaws, less, is_terminate, OstreamLog, work, stop_log, push_line,
}

-- A push of a line at a level, or a round of the thread.
pub data Event : Type 0 where
  pushed : Values → List ℕ → Event
  worked : Event

module _ (lib : BoundedQueue) (laws : QueueLaws lib) where
  abbrev pub run : List Event → OstreamLog lib → OstreamLog lib
  run [] s = s
  run (pushed level line ∷ events) s = run events (push_line lib s level line).0
  run (worked ∷ events) s = run events (work lib s)

  -- The lines that are pushed while the queue's size, which counts the thread that waits, is not above the
  -- throttle.
  abbrev taken : Bool → List ℕ → List (List ℕ)
  taken true line = []
  taken false line = line ∷ []

  abbrev pub accepted : List Event → OstreamLog lib → List (List ℕ)
  accepted [] s = []
  accepted (pushed level line ∷ events) s =
      taken (less s.throttle_size (lib.size s.queue s.waiting)) line
      ++ accepted events (push_line lib s level line).0
  accepted (worked ∷ events) s = accepted events (work lib s)

  -- No push is at the level Terminate, which ends the process.
  abbrev pub NoTerminate : List Event → Type 0
  NoTerminate [] = Unit {0}
  NoTerminate (pushed level line ∷ events) = (is_terminate level ≡ false) × NoTerminate events
  NoTerminate (worked ∷ events) = NoTerminate events

  push_full :
      (s : OstreamLog lib) (level : Values) (line : List ℕ)
      → less s.throttle_size (lib.size s.queue s.waiting) ≡ true
      → push_line lib s level line ≡ (s, false)
  unfolding push_line
  push_full s level line full = rw (full, push_line) refl

  push_room :
      (s : OstreamLog lib) (level : Values) (line : List ℕ)
      → less s.throttle_size (lib.size s.queue s.waiting) ≡ false
      → is_terminate level ≡ false
      → push_line lib s level line ≡ (record s { queue = lib.emplace (some line) s.queue }, false)
  unfolding push_line
  push_room s level line room h = rw (room, push_line, h) refl

  -- What a push of a line leaves, where `full` tells whether the line is dropped.
  abbrev Pushed : OstreamLog lib → List (List ℕ) → List ℕ → Bool → OstreamLog lib → Type 0
  Pushed s ls line full t = IsOpen lib laws (ls ++ taken full line) t × (t.written ≡ s.written)

  push-Pushed :
      (s : OstreamLog lib) (ls : List (List ℕ)) (level : Values) (line : List ℕ)
      → is_terminate level ≡ false
      → IsOpen lib laws ls s
      → Pushed s ls line
          (less s.throttle_size (lib.size s.queue s.waiting))
          (push_line lib s level line).0
  push-Pushed s ls level line h (r, f, e) =
      elim (Bool-cases (less s.throttle_size (lib.size s.queue s.waiting))) [
        | inl full ↦
            subst (λ t. Pushed s ls line (less s.throttle_size (lib.size s.queue s.waiting)) t.0)
              (sym (push_full s level line full))
              (subst (λ b. Pushed s ls line b s) (sym full)
                ((r, f, e ∙ ap lines (sym (append-nil ls))), refl))
        | inr room ↦
            subst (λ t. Pushed s ls line (less s.throttle_size (lib.size s.queue s.waiting)) t.0)
              (sym (push_room s level line room h))
              (subst
                (λ b. Pushed s ls line b (record s { queue = lib.emplace (some line) s.queue }))
                (sym room)
                (
                  (
                    r,
                    f,
                    laws.contents-emplace (some line) s.queue
                        ∙ ap (λ c. c ++ some line ∷ []) e
                        ∙ sym (lines-append ls (line ∷ [])),
                  ),
                  refl,
                ))
      ]

  -- A round of the thread moves the first line, if there is one, from the queue to the stream.
  work-IsOpen :
      (s : OstreamLog lib) (ls : List (List ℕ))
      → IsOpen lib laws ls s
      → (ms : List (List ℕ)) × IsOpen lib laws ms (work lib s)
        × ((work lib s).written ++ ms ≡ s.written ++ ls)
  work-IsOpen s [] (r, f, e) =
      subst (λ t. (ms : List (List ℕ)) × IsOpen lib laws ms t × (t.written ++ ms ≡ s.written ++ []))
        (sym (work-waits lib laws s e)) ([], (r, f, e), refl)
  work-IsOpen s (line ∷ ls) (r, f, e) =
      let (rest, w, left) = work-line lib laws s line (lines ls) e in
      subst
        (λ t.
          (ms : List (List ℕ)) × IsOpen lib laws ms t × (t.written ++ ms ≡ s.written ++ line ∷ ls))
        (sym w) (ls, (r, f, left), append_assoc s.written (line ∷ []) ls)

  -- With a queue that keeps its laws, for every sequence of pushes below the level Terminate and
  -- rounds of the thread, from a sink that runs with only lines in its queue: stopping it writes
  -- those lines and then the pushed ones that the throttle lets through, all of them and in that
  -- order, and the thread ends. The throttle is tested on the queue's size, less one while the thread
  -- waits for a line.
  pub stop-run :
      (events : List Event) (s : OstreamLog lib) (ls : List (List ℕ))
      → NoTerminate events
      → IsOpen lib laws ls s
      → ((stop_log lib (run events s)).0.written ≡ s.written ++ (ls ++ accepted events s))
        × ((stop_log lib (run events s)).0.finished ≡ true)
  stop-run [] s ls h is_open =
      let (wrote, finished) = stop-IsOpen lib laws s ls is_open in
      (wrote ∙ ap (λ t. s.written ++ t) (sym (append-nil ls)), finished)
  stop-run (pushed level line ∷ events) s ls (h, hs) is_open =
      let (opened, same) = push-Pushed s ls level line h is_open in
      let full = less s.throttle_size (lib.size s.queue s.waiting) in
      let after = (push_line lib s level line).0 in
      let (wrote, finished) = stop-run events after (ls ++ taken full line) hs opened in
      (
        wrote
            ∙ ap (λ t. t ++ ((ls ++ taken full line) ++ accepted events after)) same
            ∙ ap (λ t. s.written ++ t) (append_assoc ls (taken full line) (accepted events after)),
        finished,
      )
  stop-run (worked ∷ events) s ls h is_open =
      let (ms, opened, moved) = work-IsOpen s ls is_open in
      let (wrote, finished) = stop-run events (work lib s) ms h opened in
      let more = accepted events (work lib s) in
      (
        wrote
            ∙ sym (append_assoc (work lib s).written ms more)
            ∙ ap (λ t. t ++ more) moved
            ∙ append_assoc s.written ls more,
        finished,
      )
