-- ===== src/Outbox.antt =====
-- outbox.go: from a change to an outbox row (ToOutboxRow), and one row's delivery with its retries
-- (deliverWithRetry, ack). Queues has the per-topic queues and the drainers. encoding/json and the
-- payload's type are parameters.
pub mod Numbers
pub mod Rows
pub mod Retries
pub mod Queues
pub mod Examples
use phylax.Base.{
  ℕ, zero, suc, ◌+◌, ◌-◌, ◌*◌, ◌%◌, ◌^◌, ltb, leb, eqb, if◌then◌else◌, Bool, true, false, ◌||◌,
  ◌&&◌, not, Text, codes, lookup, Map, ◌==◌, text_eq, add64, sub64, word_mod, List, [], ◌∷◌, ◌++◌,
  Option, none, some, Error, message, wrap, Res, ok, err, panic, ◌>>=◌, wrapped, ℤ, pos, negsuc,
  ◌⊎◌, inl, inr,
}
use phylax.Change.{Change, Row, Value, null, string, other, insert_op}

-- The loop of strconv.ParseUint in base 10: it stops at the first byte that is no digit and as soon
-- as the number leaves 64 bits.
unfoldable pub parse_digits : ℕ → Text → Res ℕ
parse_digits n [] = ok n
parse_digits n (c ∷ cs) =
    let rest = parse_digits (n * 10 + (c - b'0')) cs in
    if not (leb b'0' c && leb c b'9')
    then err (message (codes "invalid syntax"))
    else if ltb (n * 10 + (c - b'0')) word_mod
    then rest
    else err (message (codes "value out of range"))

unfoldable pub parse_uint : Text → Res ℕ
unfolding parse_digits
parse_uint [] = err (message (codes "invalid syntax"))
parse_uint (c ∷ cs) = parse_digits 0 (c ∷ cs)

abbrev pub from_sign : Bool → ℕ → ℤ
from_sign false n = pos n
from_sign true zero = pos 0
from_sign true (suc n) = negsuc n

-- The two range checks of strconv.ParseInt at 64 bits.
abbrev pub in_int64 : Bool → ℕ → Res ℤ
in_int64 negative n =
    if (if negative then leb n (2 ^ 63) else ltb n (2 ^ 63))
    then ok (from_sign negative n)
    else err (message (codes "value out of range"))

-- strconv.ParseInt(s, 10, 64).
unfoldable pub parse_int : Text → Res ℤ
unfolding parse_uint
parse_int [] = err (message (codes "invalid syntax"))
parse_int (c ∷ cs) =
    if eqb c b'-'
    then parse_uint cs >>= in_int64 true
    else if eqb c b'+'
    then parse_uint cs >>= in_int64 false
    else parse_uint (c ∷ cs) >>= in_int64 false

-- `%T` of a column's value.
abbrev pub type_name : Value → Text
type_name null = codes "<nil>"
type_name (string s) = codes "string"
type_name (other t) = t

-- `c.NewRow[name]`: nil in the nil map and for a missing key.
unfoldable pub column : Row → Text → Value
column none name = null
column (some m) name = elim (lookup name m) [ none ↦ null | some v ↦ v ]

-- `c.NewRow[name].(string)` with its check.
unfoldable pub text_column : Row → Text → Res Text
unfolding column
text_column row name = elim (column row name) [
  | string s ↦ ok s
  | v ↦ err (message (codes "outbox " ++ name ++ codes " is not a string, got " ++ type_name v))
]

pub record OutboxRow (Payload : Type 0) : Type 0 where
  pub id : ℤ
  pub topic : Text
  pub payload : Payload

-- The three returns of ToOutboxRow: (nil, false, nil), (nil, true, err), (row, true, nil).
pub data Relevance (Payload : Type 0) : Type 0 where
  not_ours : Relevance Payload
  malformed : Error → Relevance Payload
  ours : OutboxRow Payload → Relevance Payload

-- No step of ToOutboxRow panics, so the last case is not met.
abbrev pub relevance : {Payload : Type 0} → Res (OutboxRow Payload) → Relevance Payload
relevance (ok row) = ours row
relevance (err e) = malformed e
relevance panic = not_ours

-- json.Unmarshal returns an error or the value that it read.
abbrev pub from_json : {Payload : Type 0} → Error ⊎ Payload → Res Payload
from_json (inl e) = err e
from_json (inr payload) = ok payload

-- What Handle makes of the three returns.
abbrev pub claim : {Payload : Type 0} → Relevance Payload → Bool × Option (OutboxRow Payload)
claim not_ours = (false, none)
claim (malformed e) = (true, none)
claim (ours row) = (true, some row)

module _ {Payload : Type 0} (unmarshal : Text → Error ⊎ Payload) where
  -- The checks after the first, in their order.
  unfoldable pub read_row : Row → Res (OutboxRow Payload)
  unfolding text_column parse_int
  read_row new_row = do
    id_str ← text_column new_row (codes "id")
    id ← wrapped (codes "parsing outbox id") (parse_int id_str)
    topic ← text_column new_row (codes "topic")
    payload_str ← text_column new_row (codes "payload")
    payload ← wrapped (codes "parsing outbox payload") (from_json (unmarshal payload_str))
    ok (record { id = id; topic = topic; payload = payload })

  unfoldable pub to_outbox_row : Change → Text → Relevance Payload
  to_outbox_row c table_name =
      if not (c.table == table_name) || not (c.operation == insert_op)
      then not_ours
      else relevance (read_row c.new_row)

  -- Handle: whether the change was the outbox's, and the row to enqueue, if any.
  unfoldable pub handle : Change → Text → Bool × Option (OutboxRow Payload)
  unfolding to_outbox_row
  handle c table_name = claim (to_outbox_row c table_name)

-- The counters are int64, kept as residues modulo 2^64.
pub record Counters : Type 0 where
  pub delivered : ℕ
  pub inflight : ℕ
  pub failed : ℕ

unfoldable pub stats : Counters → ℕ × ℕ × ℕ
stats c = (c.delivered, c.inflight, c.failed)

abbrev pub max_retries : ℕ
max_retries = 5

-- In nanoseconds, as a time.Duration.
abbrev pub base_backoff : ℕ
base_backoff = 1_000_000_000

-- What the world answers to one delivery: the user's handler at each attempt (`none` is nil), which
-- case of the select wins while it waits before an attempt (true: the timer), and the ack.
pub record Answers : Type 0 where
  pub deliver : ℕ → Option Error
  pub timer_fires : ℕ → Bool
  pub ack : Option Error

-- What one delivery does, in order: the backoffs that it waits out, the calls of the handler by
-- attempt, and the statement that ack executes with its argument.
pub data Event : Type 0 where
  waits : ℕ → Event
  calls : ℕ → Event
  acks : Text → ℤ → Event

pub data Ended : Type 0 where
  succeeded exhausted cancelled : Ended

-- `oc.baseBackoff * time.Duration(1<<uint(attempt-1))`.
abbrev pub backoff : ℕ → ℕ
backoff attempt = (base_backoff * 2 ^ (attempt - 1)) % word_mod

-- The wait before an attempt other than the first: what it adds to the trace.
abbrev pub wait_events : ℕ → List Event
wait_events zero = []
wait_events (suc n) = waits (backoff (suc n)) ∷ []

abbrev pub ack_statement : Text
ack_statement = codes "UPDATE outbox SET delivered_at = now() WHERE id = $1"

abbrev pub may_proceed : Answers → ℕ → Bool
may_proceed w zero = true
may_proceed w (suc n) = w.timer_fires (suc n)

-- The loop from an attempt on, with the attempts that are left; a wait that the context ends is not
-- an event.
unfoldable pub retry : Answers → ℤ → ℕ → ℕ → List Event × Ended
retry w id zero attempt = ([], exhausted)
retry w id (suc left) attempt =
    let (events, end) = retry w id left (suc attempt) in
    if not (may_proceed w attempt) then ([], cancelled) else elim (w.deliver attempt) [
      | none ↦ (wait_events attempt ++ calls attempt ∷ acks ack_statement id ∷ [], succeeded)
      | some e ↦ (wait_events attempt ++ calls attempt ∷ events, end)
    ]

abbrev pub settle : Ended → Counters → Counters
settle succeeded c = record c { delivered = add64 c.delivered 1 }
settle exhausted c = record c { failed = add64 c.failed 1 }
settle cancelled c = c

-- inflight is raised at the start and lowered by the deferred call, on every way out; the ack's
-- error is only logged.
unfoldable pub deliver_with_retry : Answers → ℤ → Counters → Counters × List Event
unfolding retry
deliver_with_retry w id c =
    let raised = record c { inflight = add64 c.inflight 1 } in
    let (events, end) = retry w id (suc max_retries) 0 in
    let settled = settle end raised in
    (record settled { inflight = sub64 settled.inflight 1 }, events)
