-- ===== src/Cdc/Deliveries.antt =====
-- OnOutboxDelivery, outboxDeliveryFunc and deliverOutbox of cdc.go: the handler of the outbox's rows.
use phylax.Base.{
  ℕ, ◌<◌, Bool, word_mod, add64, sub64-add64, [], ◌∷◌, Option, none, some, Error, ◌≡◌, ap, arith,
}
use phylax.Outbox.{
  OutboxRow, Answers, Counters, calls, acks, ack_statement, deliver_with_retry, retry,
}

-- What a handler returns for a row at each attempt.
abbrev pub Handler : Type 0 → Type 0
Handler Payload = OutboxRow Payload → ℕ → Option Error

module _ {Payload : Type 0} where
  -- The client's handler is set to the one that is given; `none` is nil.
  unfoldable pub on_outbox_delivery :
      Option (Handler Payload) → Option (Handler Payload) → Option (Handler Payload)
  on_outbox_delivery fn current = fn

  -- It logs the row.
  unfoldable pub deliver_outbox : Handler Payload
  deliver_outbox row attempt = none

  unfoldable pub outbox_delivery_func : Option (Handler Payload) → Handler Payload
  unfolding deliver_outbox
  outbox_delivery_func none = deliver_outbox
  outbox_delivery_func (some fn) = fn

  -- Without a handler, each row is delivered at its first attempt, with no wait, and acked, and it counts
  -- as delivered, the gauge being a 64-bit word.
  pub default-acks :
      (row : OutboxRow Payload) (timer_fires : ℕ → Bool) (ack : Option Error) (c : Counters)
      → c.inflight < word_mod
      → let w : Answers = record {
        deliver = outbox_delivery_func none row;
        timer_fires = timer_fires;
        ack = ack;
      } in
        deliver_with_retry w row.id c
        ≡ (record c { delivered = add64 c.delivered 1 }, calls 0 ∷ acks ack_statement row.id ∷ [])
  unfolding outbox_delivery_func deliver_with_retry retry
  default-acks row timer_fires ack c h =
      ap
        (λ i. (
          record c { delivered = add64 c.delivered 1; inflight = i },
          calls 0 ∷ acks ack_statement row.id ∷ [],
        ))
        (sub64-add64 c.inflight 1 h (omega arith))
