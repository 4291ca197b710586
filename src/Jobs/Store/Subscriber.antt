-- ===== src/Jobs/Store/Subscriber.antt =====
-- backend/app/jobs/store.py: the generator that `InMemoryJobStore.subscribe` returns, as a machine.
-- A step of it runs up to the next `yield` or `await`.
use ai_kubernetes_troublesho.Prelude.{
  ℕ, String, Bool, true, not, Option, none, some, List, [], ◌∷◌, ◌++◌, ◌==◌, string_eq, nat_eq,
  keep, if◌then◌else◌,
}
use ai_kubernetes_troublesho.Prelude.Dict.{get, put}
use ai_kubernetes_troublesho.Jobs.Models.{JobEvent, InvestigationJob, terminal}
use ai_kubernetes_troublesho.Jobs.Sequencer.{accept}
use ai_kubernetes_troublesho.Jobs.Store.{Store, Queue, or_empty}

-- Where the generator stands: in the replay, waiting on its queue, or returned.
pub data Phase (J : Type 0) : Type 0 where
  replaying : List (JobEvent J) → Phase J
  live : Phase J
  returned : Phase J

pub record Subscription (J : Type 0) : Type 0 where
  pub subscriber : ℕ
  pub job_id : String
  pub position : ℕ
  pub phase : Phase J

module _ {J : Type 0} where
  -- the part of `subscribe` before the first `yield`: the queue is registered, the backlog copied
  unfoldable pub begin : ℕ → String → ℕ → Store J → Option (Subscription J) × Store J
  begin subscriber job_id after_seq store = elim (get job_id store.jobs) [
    | none ↦ (none, store)
    | some job ↦ (
      some (record {
        subscriber = subscriber;
        job_id = job_id;
        position = after_seq;
        phase = replaying job.events;
      }),
      record store {
        subscribers =
            put job_id
              (or_empty (get job_id store.subscribers)
                ++ (record { subscriber = subscriber; items = [] } ∷ []))
              store.subscribers;
      },
    )
  ]

  -- What `queue.get()` finds, and the subscribers' queues after it.
  abbrev pub first_of : ℕ → List (Queue J) → Option (Option (JobEvent J))
  first_of subscriber [] = none
  first_of subscriber (queue ∷ queues) =
      let rest = first_of subscriber queues in
      if queue.subscriber == subscriber
      then (elim queue.items [ [] ↦ none | item ∷ items ↦ some item ])
      else rest

  abbrev tail_of : List (Option (JobEvent J)) → List (Option (JobEvent J))
  tail_of [] = []
  tail_of (item ∷ items) = items

  abbrev pub take_first : ℕ → List (Queue J) → List (Queue J)
  take_first subscriber [] = []
  take_first subscriber (queue ∷ queues) =
      let rest = take_first subscriber queues in
      if queue.subscriber == subscriber
      then record queue { items = tail_of queue.items } ∷ queues
      else queue ∷ rest

  -- What a step does with an event: the event that is yielded, if any, and the position after it.
  abbrev pub offered : Subscription J → JobEvent J → Option (JobEvent J) × Subscription J
  offered sub event =
      let (new, position) = accept sub.position event in
      (if new then some event else none, record sub { position = position })

  -- The state of the job that the generator holds; an evicted job was terminal.
  abbrev is_over : Option (InvestigationJob J) → Bool
  is_over none = true
  is_over (some job) = terminal job.status

  abbrev from_queue :
      Option (Option (JobEvent J)) → Subscription J → Option (JobEvent J) × Subscription J
  from_queue none sub = (none, sub)
  from_queue (some none) sub = (none, record sub { phase = returned })
  from_queue (some (some event)) sub = offered sub event

  abbrev pub advance_phase :
      Phase J → Subscription J → Store J → Option (JobEvent J) × Subscription J × Store J
  advance_phase (replaying (event ∷ backlog)) sub store =
      let (yielded, sub') = offered sub event in
      (yielded, record sub' { phase = replaying backlog }, store)
  advance_phase (replaying []) sub store = (
    none,
    record sub { phase = if is_over (get sub.job_id store.jobs) then returned else live },
    store,
  )
  advance_phase live sub store =
      let queues = or_empty (get sub.job_id store.subscribers) in
      let (yielded, sub') = from_queue (first_of sub.subscriber queues) sub in
      (
        yielded,
        sub',
        record store {
          subscribers = put sub.job_id (take_first sub.subscriber queues) store.subscribers;
        },
      )
  advance_phase returned sub store = (none, sub, store)

  unfoldable pub advance : Subscription J → Store J → Option (JobEvent J) × Subscription J × Store J
  advance sub store = advance_phase sub.phase sub store

  -- the `finally` of `subscribe`
  unfoldable pub finish : Subscription J → Store J → Store J
  finish sub store = elim (get sub.job_id store.subscribers) [
    | none ↦ store
    | some queues ↦ record store {
      subscribers =
          put sub.job_id (keep (λ queue. not (queue.subscriber == sub.subscriber)) queues)
            store.subscribers;
    }
  ]
