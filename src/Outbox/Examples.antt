-- ===== src/Outbox/Examples.antt =====
-- outbox.go: rows and deliveries at concrete inputs.
use phylax.Base.{
  ◌-◌, ℕ, zero, suc, ◌+◌, ◌<◌, ◌^◌, ltb, if◌then◌else◌, Text, codes, print_ℕ, lookup, text_eq,
  text_beq, [], ◌∷◌, ◌++◌, none, some, true, false, Error, message, ok, err, pos, negsuc, ◌≡◌, ◌↔◌,
  ◌⊎◌, inr, refl, arith,
}
use phylax.Change.{Change, string, insert_op}
use phylax.Outbox.{
  OutboxRow, ours, column, to_outbox_row, handle, parse_int, Answers, acks, calls, waits, Counters,
  deliver_with_retry, may_proceed, ack_statement,
}
use phylax.Outbox.Numbers.{print_ℤ}
use phylax.Outbox.Rows.{IsOutboxInsert, Reads, to_outbox_row_reads, handle_claims}
use phylax.Outbox.Retries.{attempts, Fails, FailsAt, deliver_with_retry_ends}

-- A decoder of payloads that keeps the text.
abbrev pub keep_text : Text → Error ⊎ Text
keep_text t = inr t

abbrev pub paid : Change
paid = record {
  table = codes "outbox";
  operation = insert_op;
  old_row = none;
  new_row = some (
      (codes "id", string (codes "-42"))
      ∷ (codes "topic", string (codes "orders"))
      ∷ (codes "payload", string (codes "{}"))
      ∷ []);
}

abbrev paid_row : OutboxRow Text
paid_row = record { id = negsuc 41; topic = codes "orders"; payload = codes "{}" }

-- The bounds of int64.
parse_int_test :
    (parse_int (codes "-9223372036854775808") ≡ ok (negsuc (2 ^ 63 - 1)))
    × (parse_int (codes "9223372036854775808") ≡ err (message (codes "value out of range")))
    × (parse_int (codes "4x") ≡ err (message (codes "invalid syntax")))
unfolding parse_int
parse_int_test = (refl, refl, refl)

to_outbox_row_test : to_outbox_row keep_text paid (codes "outbox") ≡ ours paid_row
unfolding column lookup text_beq print_ℤ print_ℕ
to_outbox_row_test =
    to_outbox_row_reads keep_text paid (codes "outbox") (negsuc 41) (codes "orders") (codes "{}")
      (codes "{}") (refl, refl) (omega arith) refl refl refl refl

handle_claims_example :
    (((handle keep_text paid (codes "outbox")).0 ≡ true) ↔ IsOutboxInsert paid (codes "outbox"))
    × ((row : OutboxRow Text)
        → ((handle keep_text paid (codes "outbox")).1 ≡ some row)
          ↔ (IsOutboxInsert paid (codes "outbox") × Reads keep_text paid.new_row row))
handle_claims_example = handle_claims keep_text paid (codes "outbox")

abbrev no_broker : Error
no_broker = message (codes "broker down")

-- A handler that fails below an attempt.
abbrev fails_below : ℕ → Answers
fails_below n = record {
  deliver = λ i. if ltb i n then some no_broker else none;
  timer_fires = λ i. true;
  ack = none;
}

abbrev zeros : Counters
zeros = record { delivered = 0; inflight = 0; failed = 0 }

second_try_test : deliver_with_retry (fails_below 1) (pos 7) zeros ≡ (
  record zeros { delivered = 1 },
  calls 0 ∷ waits 1_000_000_000 ∷ calls 1 ∷ acks ack_statement (pos 7) ∷ [],
)
unfolding deliver_with_retry
second_try_test = refl

deliver_with_retry_ends_example :
    ((n : ℕ) × (n < 6)
      × Fails (fails_below 2) 0 n
      × ((fails_below 2).deliver (0 + n) ≡ none)
      × (deliver_with_retry (fails_below 2) (pos 7) zeros ≡ (
        record zeros { delivered = 1 },
        attempts 0 (suc n) ++ acks ack_statement (pos 7) ∷ [],
      )))
    ⊎ (Fails (fails_below 2) 0 6
        × (deliver_with_retry (fails_below 2) (pos 7) zeros
            ≡ (record zeros { failed = 1 }, attempts 0 6)))
    ⊎ ((n : ℕ) × (n < 6)
        × Fails (fails_below 2) 0 n
        × (may_proceed (fails_below 2) (0 + n) ≡ false)
        × (deliver_with_retry (fails_below 2) (pos 7) zeros ≡ (zeros, attempts 0 n)))
deliver_with_retry_ends_example =
    deliver_with_retry_ends (fails_below 2) (pos 7) zeros (omega arith)

always_fails : (n i : ℕ) → i < n → FailsAt (fails_below n) i
always_fails n zero h = record { proceeds = refl; error = no_broker; failed = ground (arith, h) }
always_fails n (suc i) h = record { proceeds = refl; error = no_broker; failed = ground (arith, h) }
