-- ===== src/Outbox/Queues/Order.antt =====
-- outbox.go: within a topic the rows are delivered in the order in which they were enqueued.
use phylax.Base.{
  ltb, if◌then◌else◌, false, Bool-cases, some_inj, Text, lookup, insert, ◌==◌, ==_refl, text_eq,
  text_beq_iff, length, List, [], ◌∷◌, ◌++◌, append_assoc, append-nil, some, ◌≡◌, refl, sym, ap,
  ◌∙◌, subst, inl, inr, arith,
}
use phylax.Outbox.{OutboxRow}
use phylax.Outbox.Queues.{
  Drainer, unstarted, idle, returned, delivering, TopicQueue, Producer, outside, starting, sending,
  Consumer, Action, enqueues, starts, sends, times_out, takes, finishes, returns, cancels,
  max_drainers, queue_size, initial, queue_of, enqueue_step, once_step, start_step, send_step,
  timeout_step, take_step, finish_step, return_step, step, run,
}
use phylax.Outbox.Queues.Bounds.{queue_of-insert, run-cons}

module _ {Payload : Type 0} where
  -- The rows of one topic in a record of rows.
  abbrev pub rows_of : Text → List (Text × OutboxRow Payload) → List (OutboxRow Payload)
  rows_of t [] = []
  rows_of t ((j, r) ∷ l) = if j == t then r ∷ rows_of t l else rows_of t l

  abbrev in_hand : Drainer Payload → List (OutboxRow Payload)
  in_hand unstarted = []
  in_hand idle = []
  in_hand returned = []
  in_hand (delivering r) = r ∷ []

  -- The row that is being delivered and those that wait.
  abbrev pub pending : TopicQueue Payload → List (OutboxRow Payload)
  pending q = in_hand q.drainer ++ q.buffer

  abbrev pub InOrder : Consumer Payload → Type 0
  InOrder s =
      (t : Text) → rows_of t s.handled ++ pending (queue_of t s.topics) ≡ rows_of t s.accepted

  rows_of-append :
      (t : Text) (xs ys : List (Text × OutboxRow Payload))
      → rows_of t (xs ++ ys) ≡ rows_of t xs ++ rows_of t ys
  rows_of-append t [] ys = refl
  rows_of-append t ((j, r) ∷ xs) ys = ground (arith, rows_of-append t xs ys)

  rows_of-last :
      (t : Text) (r : OutboxRow Payload) (xs : List (Text × OutboxRow Payload))
      → rows_of t (xs ++ (t, r) ∷ []) ≡ rows_of t xs ++ r ∷ []
  rows_of-last t r xs = rows_of-append t xs ((t, r) ∷ []) ∙ rw (==_refl t)

  rows_of-other :
      (t j : Text) (r : OutboxRow Payload) (xs : List (Text × OutboxRow Payload))
      → (t == j) ≡ false
      → rows_of j (xs ++ (t, r) ∷ []) ≡ rows_of j xs
  rows_of-other t j r xs ne = rows_of-append j xs ((t, r) ∷ []) ∙ rw ne (append-nil (rows_of j xs))

  regroup : (a b c d : List (OutboxRow Payload)) → a ++ (b ++ (c ++ d)) ≡ (a ++ (b ++ c)) ++ d
  regroup a b c d = simp append_assoc

  initial-InOrder : InOrder initial
  unfolding initial lookup
  initial-InOrder t = refl

module _ {Payload : Type 0} (s s' : Consumer Payload) (v : InOrder s) where
  -- A topic's queue is replaced by one with the same pending rows.
  keeps :
      (t : Text) (q : TopicQueue Payload)
      → pending q ≡ pending (queue_of t s.topics)
      → (j : Text)
      → rows_of j s.handled ++ pending (queue_of j (insert t q s.topics)) ≡ rows_of j s.accepted
  keeps t q e j = elim (Bool-cases (t == j)) [
    | inr ne ↦ rw (queue_of-insert t j q s.topics, ne) (v j)
    | inl same ↦
        let p : t ≡ j = (text_beq_iff t j).0 same in
        rw (queue_of-insert t j q s.topics, same, e, p) (v j)
  ]

  enqueue-InOrder :
      (row : OutboxRow Payload) (p : Producer Payload) → enqueue_step row p s ≡ some s' → InOrder s'
  unfolding enqueue_step
  enqueue-InOrder row outside h = subst InOrder (some_inj h) (keeps row.topic _ refl)
  enqueue-InOrder row (starting r) h = absurd (cc)
  enqueue-InOrder row (sending r) h = absurd (cc)

  once-InOrder :
      (row : OutboxRow Payload) (d : Drainer Payload)
      → (queue_of row.topic s.topics).drainer ≡ d
      → once_step row d s ≡ some s'
      → InOrder s'
  unfolding once_step
  once-InOrder row unstarted e h = elim (Bool-cases (ltb s.sem max_drainers)) [
    | inr full ↦ absurd (ground (arith, full, h))
    | inl room ↦
        subst InOrder (some_inj (rw room at h))
          (keeps row.topic _ (ap (λ d. in_hand d ++ (queue_of row.topic s.topics).buffer) (sym e)))
  ]
  once-InOrder row idle e h = subst InOrder (some_inj h) v
  once-InOrder row returned e h = subst InOrder (some_inj h) v
  once-InOrder row (delivering r) e h = subst InOrder (some_inj h) v

  start-InOrder : (p : Producer Payload) → start_step p s ≡ some s' → InOrder s'
  unfolding start_step
  start-InOrder outside h = absurd (cc)
  start-InOrder (starting row) h = once-InOrder row (queue_of row.topic s.topics).drainer refl h
  start-InOrder (sending row) h = absurd (cc)

  -- A row is appended to its topic's queue and to the record of accepted rows.
  sent_in_order :
      (row : OutboxRow Payload) (j : Text)
      → let q = queue_of row.topic s.topics in
        rows_of j s.handled
          ++ pending
              (queue_of j (insert row.topic (record q { buffer = q.buffer ++ row ∷ [] }) s.topics))
        ≡ rows_of j (s.accepted ++ (row.topic, row) ∷ [])
  sent_in_order row j =
      let q = queue_of row.topic s.topics in
      let q' : TopicQueue Payload = record q { buffer = q.buffer ++ row ∷ [] } in
      elim (Bool-cases (row.topic == j)) [
        | inr ne ↦
            rw (queue_of-insert row.topic j q' s.topics, ne)
              (v j ∙ sym (rows_of-other row.topic j row s.accepted ne))
        | inl same ↦
            let p : row.topic ≡ j = (text_beq_iff row.topic j).0 same in
            rw (queue_of-insert row.topic j q' s.topics, same, ← p)
              (regroup (rows_of row.topic s.handled) (in_hand q.drainer) q.buffer (row ∷ [])
                ∙ ap (λ l. l ++ row ∷ []) (v row.topic)
                ∙ sym (rows_of-last row.topic row s.accepted))
      ]

  send-InOrder : (p : Producer Payload) → send_step p s ≡ some s' → InOrder s'
  unfolding send_step
  send-InOrder outside h = absurd (cc)
  send-InOrder (starting row) h = absurd (cc)
  send-InOrder (sending row) h =
      elim (Bool-cases (ltb (length (queue_of row.topic s.topics).buffer) queue_size)) [
        | inr full ↦ absurd (ground (arith, full, h))
        | inl room ↦ subst InOrder (some_inj (rw room at h)) (sent_in_order row)
      ]

  timeout-InOrder : (p : Producer Payload) → timeout_step p s ≡ some s' → InOrder s'
  unfolding timeout_step
  timeout-InOrder outside h = absurd (cc)
  timeout-InOrder (starting row) h = absurd (cc)
  timeout-InOrder (sending row) h =
      elim (Bool-cases (ltb (length (queue_of row.topic s.topics).buffer) queue_size)) [
        | inl room ↦ absurd (ground (arith, room, h))
        | inr full ↦ subst InOrder (some_inj (rw full at h)) v
      ]

  take-InOrder :
      (t : Text) (d : Drainer Payload) (buffer : List (OutboxRow Payload))
      → (queue_of t s.topics).drainer ≡ d
      → (queue_of t s.topics).buffer ≡ buffer
      → take_step t d buffer s ≡ some s'
      → InOrder s'
  unfolding take_step
  take-InOrder t idle (r ∷ rest) e b h =
      subst InOrder (some_inj h)
        (keeps t _ (sym (ap (λ d. in_hand d ++ (queue_of t s.topics).buffer) e ∙ b)))
  take-InOrder t idle [] e b h = absurd (cc)
  take-InOrder t unstarted buffer e b h = absurd (cc)
  take-InOrder t returned buffer e b h = absurd (cc)
  take-InOrder t (delivering r) buffer e b h = absurd (cc)

  -- The delivered row leaves its topic's queue for the record of handled rows.
  finished_in_order :
      (t : Text) (r : OutboxRow Payload)
      → (queue_of t s.topics).drainer ≡ delivering r
      → (j : Text)
      → rows_of j (s.handled ++ (t, r) ∷ [])
          ++ pending
              (queue_of j (insert t (record (queue_of t s.topics) { drainer = idle }) s.topics))
        ≡ rows_of j s.accepted
  finished_in_order t r e j =
      let q = queue_of t s.topics in
      let q' : TopicQueue Payload = record q { drainer = idle } in
      elim (Bool-cases (t == j)) [
        | inr ne ↦
            rw (queue_of-insert t j q' s.topics, ne)
              (ap (λ l. l ++ pending (queue_of j s.topics)) (rows_of-other t j r s.handled ne)
                ∙ v j)
        | inl same ↦
            let p : t ≡ j = (text_beq_iff t j).0 same in
            rw (queue_of-insert t j q' s.topics, same, ← p)
              (ap (λ l. l ++ q.buffer) (rows_of-last t r s.handled)
                ∙ append_assoc (rows_of t s.handled) (r ∷ []) q.buffer
                ∙ ap (λ d. rows_of t s.handled ++ (in_hand d ++ q.buffer)) (sym e)
                ∙ v t)
      ]

  finish-InOrder :
      (t : Text) (d : Drainer Payload)
      → (queue_of t s.topics).drainer ≡ d
      → finish_step t d s ≡ some s'
      → InOrder s'
  unfolding finish_step
  finish-InOrder t (delivering r) e h = subst InOrder (some_inj h) (finished_in_order t r e)
  finish-InOrder t unstarted e h = absurd (cc)
  finish-InOrder t idle e h = absurd (cc)
  finish-InOrder t returned e h = absurd (cc)

  return-InOrder :
      (t : Text) (d : Drainer Payload)
      → (queue_of t s.topics).drainer ≡ d
      → return_step t d s ≡ some s'
      → InOrder s'
  unfolding return_step
  return-InOrder t idle e h = elim (Bool-cases s.is_done) [
    | inr live ↦ absurd (ground (arith, live, h))
    | inl done ↦
        subst InOrder (some_inj (rw done at h))
          (keeps t _ (ap (λ d. in_hand d ++ (queue_of t s.topics).buffer) (sym e)))
  ]
  return-InOrder t unstarted e h = absurd (cc)
  return-InOrder t returned e h = absurd (cc)
  return-InOrder t (delivering r) e h = absurd (cc)

  step-InOrder : (a : Action Payload) → step a s ≡ some s' → InOrder s'
  unfolding step
  step-InOrder (enqueues row) h = enqueue-InOrder row s.producer h
  step-InOrder starts h = start-InOrder s.producer h
  step-InOrder sends h = send-InOrder s.producer h
  step-InOrder times_out h = timeout-InOrder s.producer h
  step-InOrder (takes t) h = take-InOrder t _ _ refl refl h
  step-InOrder (finishes t) h = finish-InOrder t _ refl h
  step-InOrder (returns t) h = return-InOrder t _ refl h
  step-InOrder cancels h = subst InOrder (some_inj h) v

module _ {Payload : Type 0} where
  run-InOrder :
      (actions : List (Action Payload)) (s s' : Consumer Payload)
      → InOrder s
      → run actions s ≡ some s'
      → InOrder s'
  unfolding run
  run-InOrder [] s s' v h = subst InOrder (some_inj h) v
  run-InOrder (a ∷ rest) s s' v h =
      let (s1, e, r) = run-cons a rest s h in run-InOrder rest s1 s' (step-InOrder s s1 v a e) r

  -- After every interleaving, the rows of a topic that were handled, the one being delivered and
  -- those that wait are together, in this order, the rows of that topic that were accepted: within
  -- a topic rows are delivered strictly in the order in which they were enqueued, none is lost
  -- once accepted and none is handled twice.
  pub run-initial-InOrder :
      (actions : List (Action Payload)) (s : Consumer Payload)
      → run actions initial ≡ some s
      → InOrder s
  run-initial-InOrder actions s h = run-InOrder actions initial s initial-InOrder h
