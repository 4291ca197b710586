-- ===== src/Jobs/Sequencer.antt =====
-- backend/app/jobs/base.py: `EventSequencer`, which merges a replayed backlog with a live feed.
pub mod Merge
use ai_kubernetes_troublesho.Prelude.{
  ℕ, Bool, true, false, List, [], ◌∷◌, leb, ◌==◌, nat_eq, if◌then◌else◌,
}
use ai_kubernetes_troublesho.Jobs.Models.{JobEvent}

-- `accept`: whether the event is new, and the position after it. A fresh sequencer's position is
-- `max(0, after_seq)`, which is `after_seq` itself, as a position is a natural number here.
abbrev pub accept : {J : Type 0} → ℕ → JobEvent J → Bool × ℕ
accept position event =
    if event.seq == 0
    then (true, position)
    else if leb event.seq position
    then (false, position)
    else (true, event.seq)

-- What `if sequencer.accept(event): yield event`, run on each event in turn, yields. Where a stream
-- stops before its events are used up, it yields a beginning of this list.
abbrev pub deliver : {J : Type 0} → ℕ → List (JobEvent J) → List (JobEvent J)
deliver position [] = []
deliver position (event ∷ events) =
    let (new, position') = accept position event in
    let rest = deliver position' events in if new then event ∷ rest else rest
