-- ===== src/Jobs/Sequencer/Merge.antt =====
-- The order of what the sequencer of backend/app/jobs/base.py lets through.
use ai_kubernetes_troublesho.Prelude.{ℕ, suc, ◌<◌, ◌≡◌, List, [], ◌∷◌, arith, nat_eq}
use ai_kubernetes_troublesho.Jobs.Models.{JobEvent}
use ai_kubernetes_troublesho.Jobs.Sequencer.{deliver}

-- The events of a log carry the numbers from `n` on.
abbrev pub Numbered : {J : Type 0} → ℕ → List (JobEvent J) → Type 0
Numbered n [] = Unit
Numbered n (event ∷ events) = (event.seq ≡ n) × Numbered (suc n) events

-- The numbers of the events increase, all of them above `position`.
abbrev pub Ascending : {J : Type 0} → ℕ → List (JobEvent J) → Type 0
Ascending position [] = Unit
Ascending position (event ∷ events) = (position < event.seq) × Ascending event.seq events

abbrev pub AllSequenced : {J : Type 0} → List (JobEvent J) → Type 0
AllSequenced [] = Unit
AllSequenced (event ∷ events) = (0 < event.seq) × AllSequenced events

-- Whatever sequenced events reach a stream, repeated, out of order or with gaps, what it yields is
-- strictly increasing in its sequence numbers and lies above the position that the stream began at:
-- no event is yielded twice.
pub deliver-Ascending :
    {J : Type 0} (after_seq : ℕ) (events : List (JobEvent J))
    → AllSequenced events
    → Ascending after_seq (deliver after_seq events)
deliver-Ascending after [] h = tt
deliver-Ascending after (event ∷ events) h =
    ground (arith, deliver-Ascending after events h.1, deliver-Ascending event.seq events h.1)
