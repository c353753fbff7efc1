-- ===== src/Outbox/Queues/Bounds.antt =====
-- outbox.go: the semaphore counts the running drainers, and the queues stay within their size.
use phylax.Base.{
  ℕ, ◌+◌, ◌≤◌, ltb, ltb→lt, if◌then◌else◌, Bool-cases, Option-cases, some_inj, Text, Map, lookup,
  insert, lookup-insert, ◌==◌, text_eq, length, length-append, List, [], ◌∷◌, ◌++◌, some, ◌≡◌, refl,
  ap, subst, inl, inr, arith,
}
use phylax.Outbox.{OutboxRow}
use phylax.Outbox.Queues.{
  Drainer, unstarted, idle, returned, delivering, TopicQueue, Producer, outside, starting, sending,
  Consumer, Action, enqueues, starts, sends, times_out, takes, finishes, returns, cancels,
  max_drainers, queue_size, initial, queue_of, enqueue_step, once_step, start_step, send_step,
  timeout_step, take_step, finish_step, return_step, step, run,
}

module _ {Payload : Type 0} where
  pub queue_of-insert :
      (t j : Text) (q : TopicQueue Payload) (m : Map Text (TopicQueue Payload))
      → queue_of j (insert t q m) ≡ (if t == j then q else queue_of j m)
  queue_of-insert t j q m = ground (arith, lookup-insert t j q m)

  abbrev pub alive : Drainer Payload → ℕ
  alive unstarted = 0
  alive idle = 1
  alive returned = 0
  alive (delivering r) = 1

  -- The goroutines that run.
  abbrev pub running : Map Text (TopicQueue Payload) → ℕ
  running [] = 0
  running ((t, q) ∷ m) = alive q.drainer + running m

  running-insert :
      (t : Text) (q : TopicQueue Payload) (m : Map Text (TopicQueue Payload))
      → running (insert t q m) + alive (queue_of t m).drainer ≡ running m + alive q.drainer
  unfolding insert lookup
  running-insert t q [] = omega arith
  running-insert t q ((j, p) ∷ m) = ground (arith, running-insert t q m)

  pub record Bounded (s : Consumer Payload) : Type 0 where
    pub counted : s.sem ≡ running s.topics
    pub capped : s.sem ≤ max_drainers
    pub sized : (t : Text) → length (queue_of t s.topics).buffer ≤ queue_size

  initial-Bounded : Bounded initial
  unfolding initial lookup
  initial-Bounded = record { counted = refl; capped = omega arith; sized = λ t. omega arith }

  sized-insert :
      (t : Text) (q : TopicQueue Payload) (m : Map Text (TopicQueue Payload))
      → length q.buffer ≤ queue_size
      → ((j : Text) → length (queue_of j m).buffer ≤ queue_size)
      → (j : Text) → length (queue_of j (insert t q m)).buffer ≤ queue_size
  sized-insert t q m h k j = ground (arith, queue_of-insert t j q m, k j)

module _ {Payload : Type 0} (s s' : Consumer Payload) (v : Bounded s) where
  enqueue-Bounded :
      (row : OutboxRow Payload) (p : Producer Payload) → enqueue_step row p s ≡ some s' → Bounded s'
  unfolding enqueue_step
  enqueue-Bounded row outside h = subst Bounded (some_inj h) (record {
    counted =
        omega (arith, v.counted, running-insert row.topic (queue_of row.topic s.topics) s.topics);
    capped = v.capped;
    sized = sized-insert row.topic _ s.topics (v.sized row.topic) v.sized;
  })
  enqueue-Bounded row (starting r) h = absurd (cc)
  enqueue-Bounded row (sending r) h = absurd (cc)

  once-Bounded :
      (row : OutboxRow Payload) (d : Drainer Payload)
      → (queue_of row.topic s.topics).drainer ≡ d
      → once_step row d s ≡ some s'
      → Bounded s'
  unfolding once_step
  once-Bounded row unstarted e h = elim (Bool-cases (ltb s.sem max_drainers)) [
    | inr full ↦ absurd (ground (arith, full, h))
    | inl room ↦ subst Bounded (some_inj (rw room at h)) (record {
      counted = omega (
        arith,
        v.counted,
        running-insert row.topic (record (queue_of row.topic s.topics) { drainer = idle }) s.topics,
        ap alive e,
      );
      capped = omega (arith, ltb→lt s.sem max_drainers room);
      sized = sized-insert row.topic _ s.topics (v.sized row.topic) v.sized;
    })
  ]
  once-Bounded row idle e h =
      subst Bounded (some_inj h)
        (record { counted = v.counted; capped = v.capped; sized = v.sized })
  once-Bounded row returned e h =
      subst Bounded (some_inj h)
        (record { counted = v.counted; capped = v.capped; sized = v.sized })
  once-Bounded row (delivering r) e h =
      subst Bounded (some_inj h)
        (record { counted = v.counted; capped = v.capped; sized = v.sized })

  start-Bounded : (p : Producer Payload) → start_step p s ≡ some s' → Bounded s'
  unfolding start_step
  start-Bounded outside h = absurd (cc)
  start-Bounded (starting row) h = once-Bounded row (queue_of row.topic s.topics).drainer refl h
  start-Bounded (sending row) h = absurd (cc)

  send-Bounded : (p : Producer Payload) → send_step p s ≡ some s' → Bounded s'
  unfolding send_step
  send-Bounded outside h = absurd (cc)
  send-Bounded (starting row) h = absurd (cc)
  send-Bounded (sending row) h =
      let q = queue_of row.topic s.topics in
      elim (Bool-cases (ltb (length q.buffer) queue_size)) [
        | inr full ↦ absurd (ground (arith, full, h))
        | inl room ↦ subst Bounded (some_inj (rw room at h)) (record {
          counted = omega (
            arith,
            v.counted,
            running-insert row.topic (record q { buffer = q.buffer ++ row ∷ [] }) s.topics,
          );
          capped = v.capped;
          sized =
              sized-insert row.topic _ s.topics
                (omega (
                  arith,
                  ltb→lt (length q.buffer) queue_size room,
                  length-append q.buffer (row ∷ []),
                ))
                v.sized;
        })
      ]

  timeout-Bounded : (p : Producer Payload) → timeout_step p s ≡ some s' → Bounded s'
  unfolding timeout_step
  timeout-Bounded outside h = absurd (cc)
  timeout-Bounded (starting row) h = absurd (cc)
  timeout-Bounded (sending row) h =
      let q = queue_of row.topic s.topics in
      elim (Bool-cases (ltb (length q.buffer) queue_size)) [
        | inl room ↦ absurd (ground (arith, room, h))
        | inr full ↦
            subst Bounded (some_inj (rw full at h))
              (record { counted = v.counted; capped = v.capped; sized = v.sized })
      ]

  take-Bounded :
      (t : Text) (d : Drainer Payload) (buffer : List (OutboxRow Payload))
      → (queue_of t s.topics).drainer ≡ d
      → (queue_of t s.topics).buffer ≡ buffer
      → take_step t d buffer s ≡ some s'
      → Bounded s'
  unfolding take_step
  take-Bounded t idle (r ∷ rest) e b h = subst Bounded (some_inj h) (record {
    counted = omega (
      arith,
      v.counted,
      running-insert t (record { buffer = rest; drainer = delivering r }) s.topics,
      ap alive e,
    );
    capped = v.capped;
    sized =
        sized-insert t _ s.topics (omega (arith, v.sized t, ap (length {A = OutboxRow Payload}) b))
          v.sized;
  })
  take-Bounded t idle [] e b h = absurd (cc)
  take-Bounded t unstarted buffer e b h = absurd (cc)
  take-Bounded t returned buffer e b h = absurd (cc)
  take-Bounded t (delivering r) buffer e b h = absurd (cc)

  finish-Bounded :
      (t : Text) (d : Drainer Payload)
      → (queue_of t s.topics).drainer ≡ d
      → finish_step t d s ≡ some s'
      → Bounded s'
  unfolding finish_step
  finish-Bounded t (delivering r) e h = subst Bounded (some_inj h) (record {
    counted = omega (
      arith,
      v.counted,
      running-insert t (record (queue_of t s.topics) { drainer = idle }) s.topics,
      ap alive e,
    );
    capped = v.capped;
    sized = sized-insert t _ s.topics (v.sized t) v.sized;
  })
  finish-Bounded t unstarted e h = absurd (cc)
  finish-Bounded t idle e h = absurd (cc)
  finish-Bounded t returned e h = absurd (cc)

  return-Bounded :
      (t : Text) (d : Drainer Payload)
      → (queue_of t s.topics).drainer ≡ d
      → return_step t d s ≡ some s'
      → Bounded s'
  unfolding return_step
  return-Bounded t idle e h = elim (Bool-cases s.is_done) [
    | inr live ↦ absurd (ground (arith, live, h))
    | inl done ↦ subst Bounded (some_inj (rw done at h)) (record {
      counted = omega (
        arith,
        v.counted,
        running-insert t (record (queue_of t s.topics) { drainer = returned }) s.topics,
        ap alive e,
      );
      capped = omega (arith, v.capped);
      sized = sized-insert t _ s.topics (v.sized t) v.sized;
    })
  ]
  return-Bounded t unstarted e h = absurd (cc)
  return-Bounded t returned e h = absurd (cc)
  return-Bounded t (delivering r) e h = absurd (cc)

  step-Bounded : (a : Action Payload) → step a s ≡ some s' → Bounded s'
  unfolding step
  step-Bounded (enqueues row) h = enqueue-Bounded row s.producer h
  step-Bounded starts h = start-Bounded s.producer h
  step-Bounded sends h = send-Bounded s.producer h
  step-Bounded times_out h = timeout-Bounded s.producer h
  step-Bounded (takes t) h = take-Bounded t _ _ refl refl h
  step-Bounded (finishes t) h = finish-Bounded t _ refl h
  step-Bounded (returns t) h = return-Bounded t _ refl h
  step-Bounded cancels h =
      subst Bounded (some_inj h)
        (record { counted = v.counted; capped = v.capped; sized = v.sized })

module _ {Payload : Type 0} where
  -- A run that ends has ended its first step.
  pub run-cons :
      (a : Action Payload) (rest : List (Action Payload)) (s : Consumer Payload)
      {s' : Consumer Payload}
      → run (a ∷ rest) s ≡ some s'
      → (s1 : Consumer Payload) × (step a s ≡ some s1) × (run rest s1 ≡ some s')
  unfolding run
  run-cons a rest s h = elim (Option-cases (step a s)) [
    | inl e ↦ absurd (ground (arith, e, h))
    | inr (s1, e) ↦ (s1, e, ground (arith, e, h))
  ]

  pub run-step :
      (a : Action Payload) (rest : List (Action Payload)) (s s1 : Consumer Payload)
      {s' : Consumer Payload}
      → step a s ≡ some s1
      → run rest s1 ≡ some s'
      → run (a ∷ rest) s ≡ some s'
  unfolding run
  run-step a rest s s1 e h = rw (e, run) h

  run-Bounded :
      (actions : List (Action Payload)) (s s' : Consumer Payload)
      → Bounded s
      → run actions s ≡ some s'
      → Bounded s'
  unfolding run
  run-Bounded [] s s' v h = subst Bounded (some_inj h) v
  run-Bounded (a ∷ rest) s s' v h =
      let (s1, e, r) = run-cons a rest s h in run-Bounded rest s1 s' (step-Bounded s s1 v a e) r

  -- After every interleaving of the receive loop, the drainers and a cancellation the semaphore is
  -- the number of goroutines that run, there are at most 64 of them, and no topic's channel holds
  -- more than 256 rows.
  pub run-initial-Bounded :
      (actions : List (Action Payload)) (s : Consumer Payload)
      → run actions initial ≡ some s
      → Bounded s
  run-initial-Bounded actions s h = run-Bounded actions initial s initial-Bounded h
