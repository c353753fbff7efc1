-- ===== src/Outbox/Queues/Blocking.antt =====
-- outbox.go: when enqueue returns to the receive loop, and when it never does.
use phylax.Base.{
  ◌<◌, ltb, false, Bool-cases, Option-cases, some_inj, Text, lookup, insert, ◌==◌, ==_refl, text_eq,
  text_beq_iff, length, List, [], ◌∷◌, ◌++◌, none, some, ◌≡◌, ◌≢◌, ◌⊎◌, refl, sym, ap, ◌∙◌, subst,
  inl, inr, arith,
}
use phylax.Outbox.{OutboxRow}
use phylax.Outbox.Queues.{
  Drainer, unstarted, idle, returned, delivering, TopicQueue, outside, starting, sending, Consumer,
  Action, enqueues, starts, sends, times_out, takes, finishes, returns, cancels, max_drainers,
  queue_size, queue_of, enqueue_step, once_step, start_step, send_step, timeout_step, take_step,
  finish_step, return_step, step, run,
}
use phylax.Outbox.Queues.Bounds.{queue_of-insert, run-cons, run-step}

module _ {Payload : Type 0} where
  -- The receive loop waits inside once.Do for a place that no running goroutine will free.
  pub record Blocked (row : OutboxRow Payload) (s : Consumer Payload) : Type 0 where
    pub waiting : s.producer ≡ starting row
    pub first : (queue_of row.topic s.topics).drainer ≡ unstarted
    pub full : s.sem ≡ max_drainers
    pub live : s.is_done ≡ false

  -- The context is not cancelled.
  abbrev pub Runs : List (Action Payload) → Type 0
  Runs [] = Unit {0}
  Runs (a ∷ rest) = (a ≢ cancels) × Runs rest

module _ {Payload : Type 0} (row : OutboxRow Payload) (s s' : Consumer Payload)
    (v : Blocked row s) where
  -- A step of another topic's goroutine.
  other_topic :
      (t : Text) (q : TopicQueue Payload) (handled : List (Text × OutboxRow Payload))
      → (queue_of t s.topics).drainer ≢ unstarted
      → Blocked row (record s { topics = insert t q s.topics; handled = handled })
  other_topic t q handled ne = record {
    waiting = v.waiting;
    first = elim (Bool-cases (t == row.topic)) [
      | inl same ↦ absurd (
          ne
            (ap (λ j. (queue_of j s.topics).drainer) ((text_beq_iff t row.topic).0 same) ∙ v.first))
      | inr differ ↦ rw (queue_of-insert t row.topic q s.topics, differ) v.first
    ];
    full = v.full;
    live = v.live;
  }

  take-Blocked :
      (t : Text) (d : Drainer Payload) (buffer : List (OutboxRow Payload))
      → (queue_of t s.topics).drainer ≡ d
      → take_step t d buffer s ≡ some s'
      → Blocked row s'
  unfolding take_step
  take-Blocked t idle (r ∷ rest) e h =
      subst (Blocked row) (some_inj h) (other_topic t _ s.handled (λ u. cc))
  take-Blocked t idle [] e h = absurd (cc)
  take-Blocked t unstarted buffer e h = absurd (cc)
  take-Blocked t returned buffer e h = absurd (cc)
  take-Blocked t (delivering r) buffer e h = absurd (cc)

  finish-Blocked :
      (t : Text) (d : Drainer Payload)
      → (queue_of t s.topics).drainer ≡ d
      → finish_step t d s ≡ some s'
      → Blocked row s'
  unfolding finish_step
  finish-Blocked t (delivering r) e h =
      subst (Blocked row) (some_inj h) (other_topic t _ (s.handled ++ (t, r) ∷ []) (λ u. cc))
  finish-Blocked t unstarted e h = absurd (cc)
  finish-Blocked t idle e h = absurd (cc)
  finish-Blocked t returned e h = absurd (cc)

  return-Blocked : (t : Text) (d : Drainer Payload) → return_step t d s ≡ some s' → Blocked row s'
  unfolding return_step
  return-Blocked t idle h = absurd (ground (arith, v.live, h))
  return-Blocked t unstarted h = absurd (cc)
  return-Blocked t returned h = absurd (cc)
  return-Blocked t (delivering r) h = absurd (cc)

  step-Blocked : (a : Action Payload) → a ≢ cancels → step a s ≡ some s' → Blocked row s'
  unfolding step enqueue_step start_step once_step send_step timeout_step
  step-Blocked (enqueues r) ne h = absurd (ground (arith, v.waiting, h))
  step-Blocked starts ne h = absurd (ground (arith, v.waiting, v.first, v.full, h))
  step-Blocked sends ne h = absurd (ground (arith, v.waiting, h))
  step-Blocked times_out ne h = absurd (ground (arith, v.waiting, h))
  step-Blocked (takes t) ne h = take-Blocked t _ _ refl h
  step-Blocked (finishes t) ne h = finish-Blocked t _ refl h
  step-Blocked (returns t) ne h = return-Blocked t _ h
  step-Blocked cancels ne h = absurd (ne refl)

module _ {Payload : Type 0} where
  run-Blocked :
      (actions : List (Action Payload)) (row : OutboxRow Payload) (s s' : Consumer Payload)
      → Blocked row s
      → Runs actions
      → run actions s ≡ some s'
      → Blocked row s'
  unfolding run
  run-Blocked [] row s s' v c h = subst (Blocked row) (some_inj h) v
  run-Blocked (a ∷ rest) row s s' v c h =
      let (s1, e, r) = run-cons a rest s h in
      run-Blocked rest row s1 s' (step-Blocked row s s1 v a c.0 e) c.1 r

  -- The state after LoadOrStore.
  abbrev pub stored : OutboxRow Payload → Consumer Payload → Consumer Payload
  stored row s = record s {
    topics = insert row.topic (queue_of row.topic s.topics) s.topics;
    producer = starting row;
  }

  pub enqueue_step_lem :
      (row : OutboxRow Payload) (s : Consumer Payload)
      → s.producer ≡ outside
      → step (enqueues row) s ≡ some (stored row s)
  unfolding step enqueue_step
  enqueue_step_lem row s o = rw (o, enqueue_step)

  drainer-stored :
      (row : OutboxRow Payload) (s : Consumer Payload)
      → (queue_of row.topic (stored row s).topics).drainer ≡ (queue_of row.topic s.topics).drainer
  drainer-stored row s =
      let q = queue_of row.topic s.topics in
      let e : queue_of row.topic (insert row.topic q s.topics) ≡ q =
        queue_of-insert row.topic row.topic q s.topics ∙ rw (==_refl row.topic) in
      ap (λ p. p.drainer) e

  -- Once 64 drainers run, a row of a topic that has none stops the receive loop: whatever the
  -- goroutines do, and however long, it stays inside that enqueue as long as the context is not
  -- cancelled.
  pub new_topic_blocks :
      (row : OutboxRow Payload) (s : Consumer Payload) (actions : List (Action Payload))
      (s' : Consumer Payload)
      → s.producer ≡ outside
      → s.sem ≡ max_drainers
      → s.is_done ≡ false
      → lookup row.topic s.topics ≡ none
      → Runs actions
      → run (enqueues row ∷ actions) s ≡ some s'
      → s'.producer ≡ starting row
  new_topic_blocks row s actions s' o full live new c h =
      let (s1, e, r) = run-cons (enqueues row) actions s h in
      (run-Blocked actions row s1 s' (blocks s1 e) c r).waiting
    where
      blocks : (s1 : Consumer Payload) → step (enqueues row) s ≡ some s1 → Blocked row s1
      blocks s1 e = subst (Blocked row) (some_inj (sym (enqueue_step_lem row s o) ∙ e)) (record {
        waiting = refl;
        first = drainer-stored row s ∙ ground (arith, new);
        full = full;
        live = live;
      })

  once_proceeds :
      (row : OutboxRow Payload) (s : Consumer Payload) (d : Drainer Payload)
      → (d ≢ unstarted) ⊎ (s.sem < max_drainers)
      → (s' : Consumer Payload) × (once_step row d s ≡ some s') × (s'.producer ≡ sending row)
  unfolding once_step
  once_proceeds row s unstarted (inl ne) = absurd (ne refl)
  once_proceeds row s unstarted (inr lt) = elim (Option-cases (once_step row unstarted s)) [
    | inl e ↦ absurd (ground (arith, lt, e))
    | inr (s', e) ↦ (s', e, ground (arith, lt, e))
  ]
  once_proceeds row s idle room = (_, refl, refl)
  once_proceeds row s returned room = (_, refl, refl)
  once_proceeds row s (delivering r) room = (_, refl, refl)

  start_proceeds :
      (row : OutboxRow Payload) (s : Consumer Payload)
      → s.producer ≡ starting row
      → ((queue_of row.topic s.topics).drainer ≢ unstarted) ⊎ (s.sem < max_drainers)
      → (s' : Consumer Payload) × (step starts s ≡ some s') × (s'.producer ≡ sending row)
  unfolding step start_step
  start_proceeds row s p room =
      let (s', e, q) = once_proceeds row s (queue_of row.topic s.topics).drainer room in
      (s', ap (λ r. start_step r s) p ∙ e, q)

  -- The send where there is room, and else the timeout.
  last_proceeds :
      (row : OutboxRow Payload) (s : Consumer Payload)
      → s.producer ≡ sending row
      → (last : Action Payload) × (s' : Consumer Payload) × ((last ≡ sends) ⊎ (last ≡ times_out))
        × (step last s ≡ some s')
        × (s'.producer ≡ outside)
  unfolding step send_step timeout_step
  last_proceeds row s p =
      elim (Bool-cases (ltb (length (queue_of row.topic s.topics).buffer) queue_size)) [
        | inl room ↦ elim (Option-cases (step sends s)) [
          | inl e ↦ absurd (ground (arith, p, room, e))
          | inr (s', e) ↦ (sends, s', inl refl, e, ground (arith, p, room, e))
        ]
        | inr full ↦ elim (Option-cases (step times_out s)) [
          | inl e ↦ absurd (ground (arith, p, full, e))
          | inr (s', e) ↦ (times_out, s', inr refl, e, ground (arith, p, full, e))
        ]
      ]

  -- Otherwise enqueue returns: the receive loop is outside it again after LoadOrStore, once.Do and
  -- the send, or after the timeout where the topic's queue is full, if the topic has a drainer
  -- already or fewer than 64 run.
  pub enqueue_returns :
      (row : OutboxRow Payload) (s : Consumer Payload)
      → s.producer ≡ outside
      → ((queue_of row.topic s.topics).drainer ≢ unstarted) ⊎ (s.sem < max_drainers)
      → (last : Action Payload) × (s' : Consumer Payload) × ((last ≡ sends) ⊎ (last ≡ times_out))
        × (run (enqueues row ∷ starts ∷ last ∷ []) s ≡ some s')
        × (s'.producer ≡ outside)
  unfolding run
  enqueue_returns row s o room =
      let (s2, e2, p2) = start_proceeds row (stored row s) refl (rw (drainer-stored row s) room) in
      let (last, s3, which, e3, p3) = last_proceeds row s2 p2 in
      (
        last,
        s3,
        which,
        run-step (enqueues row) (starts ∷ last ∷ []) s (stored row s) (enqueue_step_lem row s o)
            (run-step starts (last ∷ []) (stored row s) s2 e2 (run-step last [] s2 s3 e3 refl)),
        p3,
      )
