-- ===== src/Cdc.antt =====
-- cdc.go: the client's configuration, its registrations, which errors are retried, the loop of
-- Start over the results of its sessions, and the snapshot of the metrics.
pub mod Configs
pub mod Retries
pub mod Registrations
pub mod Goroutines
pub mod Orders
pub mod Races
pub mod Deliveries
pub mod Changes
pub mod Sessions
mod Examples
use phylax.Base.{
  ℕ, suc, ◌+◌, ◌-◌, ◌*◌, ltb, eqb, if◌then◌else◌, Bool, true, false, ◌||◌, not, Text, codes,
  print_ℕ, Map, lookup, insert, ◌==◌, text_eq, List, [], ◌∷◌, ◌++◌, map, Option, none, some, Error,
  message, wrap, Chan, pg_error, canceled, deadline_exceeded, no_rows, Res, ok, err, panic, ◌>>=◌,
  ℤ, pos, negsuc,
}
use phylax.Change.{Change, MetricsSnapshot}
use phylax.Broadcast.{
  Broadcaster, new_broadcaster, subscribe, unsubscribe, publish, subscriber_count, changes_dropped,
}
use phylax.Outbox.{Counters}
use phylax.Stream.{ReplicationStream, replication_lag, outbox_stats}

pub record Config : Type 0 where
  pub dsn : Text
  pub tables : List Text
  pub slot_name : Text
  pub publication_name : Text
  pub change_buffer_size : ℤ
  pub outbox_table : Text

abbrev pub default_change_buffer_size : ℤ
default_change_buffer_size = pos 100

abbrev pub default_slot_name : Text
default_slot_name = codes "my_slot"

abbrev pub default_publication_name : Text
default_publication_name = codes "my_publication"

-- `sub_ids` is a set, and `next_sub_id` counts the registrations, of which there are less than 2^63.
pub record Cdc : Type 0 where
  pub cfg : Config
  pub broadcaster : Broadcaster
  pub sub_ids : Map Text (Unit {0})
  pub next_sub_id : ℕ

abbrev is_nil {ℓ} : {A : Type ℓ} → List A → Bool
is_nil [] = true
is_nil (x ∷ xs) = false

abbrev or_default : Text → Text → Text
or_default [] text = text
or_default (c ∷ cs) text = c ∷ cs

-- `<= 0`.
abbrev or_default_size : ℤ → ℤ
or_default_size (pos (suc n)) = pos (suc n)
or_default_size n = default_change_buffer_size

-- `heap` is the memory of the channels when the client is made.
unfoldable pub new : List (Chan Change) → Config → Res Cdc
new heap cfg =
    if is_nil cfg.dsn
    then err (message (codes "phylax: Config.DSN is required"))
    else if is_nil cfg.tables
    then err (message (codes "phylax: Config.Tables must list at least one table"))
    else ok (record {
      cfg = record cfg {
        slot_name = or_default cfg.slot_name default_slot_name;
        publication_name = or_default cfg.publication_name default_publication_name;
        change_buffer_size = or_default_size cfg.change_buffer_size;
      };
      broadcaster = new_broadcaster heap;
      sub_ids = [];
      next_sub_id = 0;
    })

abbrev pub registration_id : ℕ → Text
registration_id n = codes "onchange-" ++ print_ℕ n

-- The address of the channel that the registration's goroutine ranges over, and the client.
unfoldable pub on_change : Cdc → Res (ℕ × Cdc)
on_change c = do
  let n = c.next_sub_id + 1
  let id = registration_id n
  r ← subscribe id c.cfg.change_buffer_size c.broadcaster
  let (ch, b) = r
  ok (ch, record c { broadcaster = b; sub_ids = insert id tt c.sub_ids; next_sub_id = n })

unfoldable pub unsubscribe_ids : List Text → Broadcaster → Res Broadcaster
unsubscribe_ids [] b = ok b
unsubscribe_ids (id ∷ ids) b = do b' ← unsubscribe id b; unsubscribe_ids ids b'

abbrev pub ids_of : Map Text (Unit {0}) → List Text
ids_of m = map (λ entry. entry.0) m

unfoldable pub unsubscribe_all : Cdc → Res Cdc
unfolding unsubscribe_ids
unsubscribe_all c = do
  b ← unsubscribe_ids (ids_of c.sub_ids) c.broadcaster
  ok (record c { broadcaster = b; sub_ids = [] })

-- The stream's change handler, with the client's broadcaster as its state.
unfoldable pub publish_change : Change → Broadcaster → Broadcaster × Res (Unit {0})
publish_change change b = elim (publish change b) [
  | ok b' ↦ (b', ok tt)
  | err e ↦ (b, err e)
  | panic ↦ (b, panic)
]

-- The snapshot at a time, of the current stream, if there is one, and its outbox's counters.
unfoldable pub metrics_snapshot :
    {Payload State : Type 0}
    → ℕ
    → Option (ReplicationStream Payload State × Option Counters)
    → Broadcaster
    → MetricsSnapshot
metrics_snapshot now none b = record {
  changes_processed = 0;
  changes_dropped = changes_dropped b;
  subscribers = subscriber_count b;
  replication_lag = 0;
  outbox_delivered = 0;
  outbox_inflight = 0;
  outbox_failed = 0;
}
metrics_snapshot now (some (s, counters)) b =
    let (delivered, inflight, failed) = outbox_stats counters in
    record {
      changes_processed = elim s.decoder.metrics [ none ↦ 0 | some n ↦ n ];
      changes_dropped = changes_dropped b;
      subscribers = subscriber_count b;
      replication_lag = replication_lag now s;
      outbox_delivered = delivered;
      outbox_inflight = inflight;
      outbox_failed = failed;
    }

-- `strings.Contains(dsn, "?")`.
abbrev has_query : Text → Bool
has_query [] = false
has_query (c ∷ cs) = eqb c b'?' || has_query cs

unfoldable pub replication_dsn : Text → Text
replication_dsn dsn =
    let sep = if has_query dsn then codes "&" else codes "?" in
    dsn ++ sep ++ codes "replication=database"

-- errors.Is for the two errors of a context, and the first *pgconn.PgError of errors.As.
abbrev is_context_error : Error → Bool
is_context_error (wrap text e) = is_context_error e
is_context_error canceled = true
is_context_error deadline_exceeded = true
is_context_error e = false

abbrev pg_code : Error → Option Text
pg_code (wrap text e) = pg_code e
pg_code (pg_error code) = some code
pg_code e = none

abbrev pub transient_codes : List Text
transient_codes =
    codes "08000"
    ∷ codes "08001"
    ∷ codes "08003"
    ∷ codes "08006"
    ∷ codes "53300"
    ∷ codes "57P01"
    ∷ codes "57P02"
    ∷ codes "57P03"
    ∷ codes "57P04"
    ∷ []

abbrev pub contains : List Text → Text → Bool
contains [] code = false
contains (c ∷ cs) code = (c == code) || contains cs code

abbrev code_retryable : Option Text → Bool
code_retryable none = true
code_retryable (some code) = contains transient_codes code

unfoldable pub retryable : Option Error → Bool
retryable none = false
retryable (some e) = if is_context_error e then false else code_retryable (pg_code e)

-- In nanoseconds.
abbrev pub initial_backoff : ℕ
initial_backoff = 1_000_000_000

abbrev pub max_backoff : ℕ
max_backoff = 30_000_000_000

abbrev pub min : ℕ → ℕ → ℕ
min a b = if ltb b a then b else a

-- One round of the loop of Start: what runOnce returns, whether the context is done at the check
-- that follows, and whether sleepCtx sleeps its time out.
pub record Round : Type 0 where
  pub result : Option Error
  pub is_done : Bool
  pub slept : Bool

-- The loop has not ended with the rounds so far, or it ended with a value of lastErr.
pub data Loop : Type 0 where
  retrying : Loop
  ended : Option Error → Loop

abbrev is_none {ℓ} : {A : Type ℓ} → Option A → Bool
is_none none = true
is_none (some a) = false

abbrev pub stops : Round → Bool
stops r = is_none r.result || r.is_done || not (retryable r.result)

-- The backoffs that sleepCtx was called with, and the end.
unfoldable pub retry_loop : List Round → ℕ → List ℕ × Loop
retry_loop [] backoff = ([], retrying)
retry_loop (r ∷ rs) backoff =
    let (slept, end) = retry_loop rs (min (backoff * 2) max_backoff) in
    if stops r
    then ([], ended r.result)
    else if not r.slept
    then (backoff ∷ [], ended r.result)
    else (backoff ∷ slept, end)

-- What Start returns, if it does, with the client; `done` is the last look at ctx.Err().
unfoldable pub finish : Bool → Loop → Cdc → Option (Res (Option Error × Cdc))
unfolding unsubscribe_all
finish done retrying c = none
finish done (ended e) c = some do c' ← unsubscribe_all c; ok (if done then none else e, c')

unfoldable pub start : List Round → Bool → Cdc → Option (Res (Option Error × Cdc))
unfolding retry_loop finish
start rounds done c = finish done (retry_loop rounds initial_backoff).1 c
