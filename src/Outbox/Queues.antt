-- ===== src/Outbox/Queues.antt =====
-- outbox.go, enqueue and the drainers: one queue and one goroutine for each topic, a semaphore
-- that bounds the goroutines. The receive loop, the drainers and the context interleave; an
-- interleaving is a list of actions, and a step that cannot be taken is `none`.
pub mod Order
pub mod Bounds
pub mod Blocking
mod Examples
use phylax.Base.{
  ℕ, suc, ◌+◌, ◌-◌, ltb, eqb, if◌then◌else◌, Bool, true, false, Text, Map, lookup, insert, text_eq,
  length, List, [], ◌∷◌, ◌++◌, Option, none, some,
}
use phylax.Outbox.{OutboxRow}

-- The capacities of `sem` and of each topic's channel.
abbrev pub max_drainers : ℕ
max_drainers = 64

abbrev pub queue_size : ℕ
queue_size = 256

module _ (Payload : Type 0) where
  -- The goroutine of a topic: not yet started, at its select, in deliverWithRetry, or returned.
  pub data Drainer : Type 0 where
    unstarted idle returned : Drainer
    delivering : OutboxRow Payload → Drainer

  -- topicQueue: the channel's buffer; `once` has run unless the drainer is unstarted.
  pub record TopicQueue : Type 0 where
    pub buffer : List (OutboxRow Payload)
    pub drainer : Drainer

  -- Where the receive loop stands in enqueue: outside, before once.Do, before the send.
  pub data Producer : Type 0 where
    outside : Producer
    starting sending : OutboxRow Payload → Producer

  -- `topics` and `sem` are the fields of OutboxConsumer. `accepted` and `handled` record what went
  -- into and came out of each topic's queue, under its topic; `refused` what was dropped.
  pub record Consumer : Type 0 where
    pub topics : Map Text TopicQueue
    pub sem : ℕ
    pub producer : Producer
    pub is_done : Bool
    pub accepted : List (Text × OutboxRow Payload)
    pub handled : List (Text × OutboxRow Payload)
    pub refused : List (OutboxRow Payload)

  pub data Action : Type 0 where
    -- The receive loop: the call with LoadOrStore, once.Do, the send, the timeout.
    enqueues : OutboxRow Payload → Action
    starts sends times_out : Action
    -- A topic's goroutine: the receive, the return of deliverWithRetry, the return on ctx.Done().
    takes finishes returns : Text → Action
    -- The context is cancelled.
    cancels : Action

module _ {Payload : Type 0} where
  abbrev pub new_queue : TopicQueue Payload
  new_queue = record { buffer = []; drainer = unstarted }

  pub initial : Consumer Payload
  initial = record {
    topics = [];
    sem = 0;
    producer = outside;
    is_done = false;
    accepted = [];
    handled = [];
    refused = [];
  }

  -- A topic that was never stored is like one with a new queue.
  abbrev pub queue_of : Text → Map Text (TopicQueue Payload) → TopicQueue Payload
  queue_of topic topics = elim (lookup topic topics) [ none ↦ new_queue | some q ↦ q ]

  abbrev put : Consumer Payload → Text → TopicQueue Payload → Consumer Payload
  put s topic q = record s { topics = insert topic q s.topics }

  unfoldable pub enqueue_step :
      OutboxRow Payload → Producer Payload → Consumer Payload → Option (Consumer Payload)
  enqueue_step row outside s =
      some (record (put s row.topic (queue_of row.topic s.topics)) { producer = starting row })
  enqueue_step row (starting r) s = none
  enqueue_step row (sending r) s = none

  -- The body of once.Do waits for a place in the semaphore; a later call passes it.
  unfoldable pub once_step :
      OutboxRow Payload → Drainer Payload → Consumer Payload → Option (Consumer Payload)
  once_step row unstarted s =
      if ltb s.sem max_drainers
      then some
          (record (put s row.topic (record (queue_of row.topic s.topics) { drainer = idle })) {
            sem = s.sem + 1;
            producer = sending row;
          })
      else none
  once_step row idle s = some (record s { producer = sending row })
  once_step row returned s = some (record s { producer = sending row })
  once_step row (delivering r) s = some (record s { producer = sending row })

  unfoldable pub start_step : Producer Payload → Consumer Payload → Option (Consumer Payload)
  unfolding once_step
  start_step outside s = none
  start_step (starting row) s = once_step row (queue_of row.topic s.topics).drainer s
  start_step (sending row) s = none

  unfoldable pub send_step : Producer Payload → Consumer Payload → Option (Consumer Payload)
  send_step outside s = none
  send_step (starting row) s = none
  send_step (sending row) s =
      let q = queue_of row.topic s.topics in
      if ltb (length q.buffer) queue_size
      then some (record (put s row.topic (record q { buffer = q.buffer ++ row ∷ [] })) {
        producer = outside;
        accepted = s.accepted ++ (row.topic, row) ∷ [];
      })
      else none

  -- The timer wins the select only while the queue is full.
  unfoldable pub timeout_step : Producer Payload → Consumer Payload → Option (Consumer Payload)
  timeout_step outside s = none
  timeout_step (starting row) s = none
  timeout_step (sending row) s =
      if ltb (length (queue_of row.topic s.topics).buffer) queue_size
      then none
      else some (record s { producer = outside; refused = s.refused ++ row ∷ [] })

  unfoldable pub take_step :
      Text
      → Drainer Payload
      → List (OutboxRow Payload)
      → Consumer Payload
      → Option (Consumer Payload)
  take_step topic idle (r ∷ rest) s =
      some (put s topic (record { buffer = rest; drainer = delivering r }))
  take_step topic _ _ s = none

  unfoldable pub finish_step : Text → Drainer Payload → Consumer Payload → Option (Consumer Payload)
  finish_step topic (delivering r) s =
      some (record (put s topic (record (queue_of topic s.topics) { drainer = idle })) {
        handled = s.handled ++ (topic, r) ∷ [];
      })
  finish_step topic _ s = none

  -- The deferred receive from `sem` frees the place.
  unfoldable pub return_step : Text → Drainer Payload → Consumer Payload → Option (Consumer Payload)
  return_step topic idle s =
      if s.is_done
      then some (record (put s topic (record (queue_of topic s.topics) { drainer = returned })) {
        sem = s.sem - 1;
      })
      else none
  return_step topic _ s = none

  unfoldable pub step : Action Payload → Consumer Payload → Option (Consumer Payload)
  unfolding enqueue_step start_step send_step timeout_step take_step finish_step return_step
  step (enqueues row) s = enqueue_step row s.producer s
  step starts s = start_step s.producer s
  step sends s = send_step s.producer s
  step times_out s = timeout_step s.producer s
  step (takes topic) s =
      take_step topic (queue_of topic s.topics).drainer (queue_of topic s.topics).buffer s
  step (finishes topic) s = finish_step topic (queue_of topic s.topics).drainer s
  step (returns topic) s = return_step topic (queue_of topic s.topics).drainer s
  step cancels s = some (record s { is_done = true })

  unfoldable pub run : List (Action Payload) → Consumer Payload → Option (Consumer Payload)
  run [] s = some s
  run (a ∷ rest) s = elim (step a s) [ none ↦ none | some s' ↦ run rest s' ]
