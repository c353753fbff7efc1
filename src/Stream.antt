-- ===== src/Stream.antt =====
-- stream.go: what a CopyData message does, with the routing of its changes, and the lag.
-- The parsers of pglogrepl, json.Unmarshal and the ChangeHandler are parameters. A time is a number
-- of nanoseconds since the epoch.
pub mod Lag
pub mod Routing
pub mod Sessions
pub mod Positions
pub mod Status
pub mod Runs
mod Examples
use phylax.Base.{
  ℕ, ◌+◌, ◌-◌, ◌%◌, ltb, leb, eqb, if◌then◌else◌, Bool, true, false, ◌||◌, Text, codes, word_mod,
  length, List, [], ◌∷◌, ◌++◌, Option, none, some, Error, message, wrap, Res, ok, err, panic,
  wrapped, ◌>>=◌, ◌⊎◌, text_eq,
}
use phylax.Change.{Change}
use phylax.Decode.{Decoder, Message, decode}
use phylax.Broadcast.{Broadcaster, publish, new_broadcaster}
use phylax.Outbox.{OutboxRow, handle, Counters, stats}

pub record Keepalive : Type 0 where
  pub server_wal_end : ℕ
  pub reply_requested : Bool

pub record XLogData : Type 0 where
  pub wal_start : ℕ
  pub server_wal_end : ℕ
  pub wal_data : Text

-- What the stream calls of pglogrepl.
pub record Pglogrepl : Type 0 where
  pub parse_keepalive : Text → Res Keepalive
  pub parse_xlog_data : Text → Res XLogData
  pub parse : Text → Res Message

-- The LSNs are uint64. `reply_now` is whether the channel of capacity one holds its token,
-- `enqueued` what was given to the outbox's enqueue, `state` what the ChangeHandler keeps.
pub record ReplicationStream (Payload State : Type 0) : Type 0 where
  pub decoder : Decoder
  pub last_lsn : ℕ
  pub server_wal_end : ℕ
  pub last_data_at : ℕ
  pub reply_now : Bool
  pub broadcaster : Broadcaster
  pub enqueued : List (OutboxRow Payload)
  pub state : State

unfoldable pub new_stream :
    {Payload State : Type 0} → ℕ → ℕ → State → ReplicationStream Payload State
new_stream start_lsn now state = record {
  decoder = record { relations = []; metrics = some 0 };
  last_lsn = start_lsn;
  server_wal_end = 0;
  last_data_at = now;
  reply_now = false;
  broadcaster = new_broadcaster [];
  enqueued = [];
  state = state;
}

unfoldable pub plugin_args : Text → List Text
plugin_args publication =
    codes "proto_version '1'" ∷ (codes "publication_names '" ++ publication ++ codes "'") ∷ []

-- START_REPLICATION, by what pglogrepl.StartReplication returns for the slot, the position and the
-- arguments of the plugin.
unfoldable pub start_replication :
    (Text → ℕ → List Text → Res (Unit {0})) → Text → Text → ℕ → Res (Unit {0})
unfolding plugin_args
start_replication call slot publication lsn =
    wrapped (codes "starting replication") (call slot lsn (plugin_args publication))

-- NewReplicationStream, at a time.
unfoldable pub new_replication_stream :
    {Payload State : Type 0}
    → (Text → ℕ → List Text → Res (Unit {0}))
    → Text
    → Text
    → ℕ
    → ℕ
    → State
    → Res (ReplicationStream Payload State)
unfolding start_replication new_stream
new_replication_stream call slot publication start_lsn now state = do
  done ← start_replication call slot publication start_lsn
  ok (new_stream start_lsn now state)

-- OutboxStats: zeros without a consumer.
unfoldable pub outbox_stats : Option Counters → ℕ × ℕ × ℕ
outbox_stats none = (0, 0, 0)
outbox_stats (some counters) = stats counters

abbrev pub idle_lag_reset : ℕ
idle_lag_reset = 15_000_000_000

-- A clock that went back gives a negative duration, which is not over the limit.
unfoldable pub replication_lag : {Payload State : Type 0} → ℕ → ReplicationStream Payload State → ℕ
replication_lag now s =
    if ltb idle_lag_reset (now - s.last_data_at)
    then 0
    else if leb s.server_wal_end s.last_lsn
    then 0
    else s.server_wal_end - s.last_lsn

abbrev pub to_list {ℓ} : {A : Type ℓ} → Option A → List A
to_list none = []
to_list (some a) = a ∷ []

-- Calls in sequence on a state, up to the first that returns an error or panics.
abbrev pub and_then {ℓ} :
    {State : Type ℓ}
    → State × Res (Unit {0})
    → (State → State × Res (Unit {0}))
    → State × Res (Unit {0})
and_then (s, ok done) next = next s
and_then (s, err e) next = (s, err e)
and_then (s, panic) next = (s, panic)

module _ {Payload State : Type 0} (unmarshal : Text → Error ⊎ Payload) (outbox_table : Text)
    (handler : Change → State → State × Res (Unit {0})) where
  abbrev handled :
      ReplicationStream Payload State
      → Broadcaster
      → State × Res (Unit {0})
      → ReplicationStream Payload State × Res (Unit {0})
  handled s b (state, r) =
      (record s { broadcaster = b; state = state }, wrapped (codes "change handler failed") r)

  -- Publish returns no error; it panics on a closed channel.
  abbrev published :
      Change
      → ReplicationStream Payload State
      → Res Broadcaster
      → ReplicationStream Payload State × Res (Unit {0})
  published change s (ok b) = handled s b (handler change s.state)
  published change s (err e) = (s, err e)
  published change s panic = (s, panic)

  -- One round of the loop over the changes.
  unfoldable pub route :
      Change → ReplicationStream Payload State → ReplicationStream Payload State × Res (Unit {0})
  route change s =
      let (is_handled, row) = handle unmarshal change outbox_table in
      if is_handled
      then (record s { enqueued = s.enqueued ++ to_list row }, ok tt)
      else published change s (publish change s.broadcaster)

  unfoldable pub route_all :
      List Change
      → ReplicationStream Payload State
      → ReplicationStream Payload State × Res (Unit {0})
  route_all [] s = (s, ok tt)
  route_all (change ∷ changes) s = and_then (route change s) (λ s'. route_all changes s')

  abbrev on_decoded :
      ReplicationStream Payload State
      → Res (List Change)
      → ReplicationStream Payload State × Res (Unit {0})
  on_decoded s (ok changes) = route_all changes s
  on_decoded s (err e) = (s, err (wrap (codes "decoding WAL data") e))
  on_decoded s panic = (s, panic)

  abbrev on_keepalive :
      ReplicationStream Payload State
      → Res Keepalive
      → ReplicationStream Payload State × Res (Unit {0})
  on_keepalive s (ok k) = (
    record s { server_wal_end = k.server_wal_end; reply_now = s.reply_now || k.reply_requested },
    ok tt,
  )
  on_keepalive s (err e) = (s, err (wrap (codes "parsing primary keepalive message") e))
  on_keepalive s panic = (s, panic)

  module _ (lib : Pglogrepl) where
    -- The three positions are stored before the record is decoded.
    abbrev pub received_data :
        ℕ → XLogData → ReplicationStream Payload State → ReplicationStream Payload State
    received_data now x s = record s {
      server_wal_end = x.server_wal_end;
      last_lsn = (x.wal_start + length x.wal_data) % word_mod;
      last_data_at = now;
    }

    unfoldable pub on_xlog_data :
        ℕ
        → ReplicationStream Payload State
        → Res XLogData
        → ReplicationStream Payload State × Res (Unit {0})
    on_xlog_data now s (ok x) =
        let (d, changes) = decode lib.parse s.decoder x.wal_data in
        on_decoded (record (received_data now x s) { decoder = d }) changes
    on_xlog_data now s (err e) = (s, err (wrap (codes "parsing XLogData message") e))
    on_xlog_data now s panic = (s, panic)

    -- `data.Data[0]` panics on an empty message.
    unfoldable pub handle_copy_data :
        ℕ
        → Text
        → ReplicationStream Payload State
        → ReplicationStream Payload State × Res (Unit {0})
    handle_copy_data now [] s = (s, panic)
    handle_copy_data now (id ∷ rest) s =
        if eqb id b'k'
        then on_keepalive s (lib.parse_keepalive rest)
        else if eqb id b'w'
        then on_xlog_data now s (lib.parse_xlog_data rest)
        else (s, ok tt)
