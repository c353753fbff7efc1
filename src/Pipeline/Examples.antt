-- ===== src/Pipeline/Examples.antt =====
-- The stream and one handler of /events at concrete events.
use phylax.Base.{
  eqb, if◌then◌else◌, Res, err, insert, Text, codes, All, List, [], ◌∷◌, none, some, message, ok,
  ◌≡◌, refl, arith, text_eq, text_beq, lookup,
}
use phylax.Change.{Change, insert_op, truncate_op}
use phylax.Decode.{
  Message, relation, inserted, truncated, unrelated, decode, decode_message, truncate_changes,
  relation_for, tuple_to_map,
}
use phylax.Outbox.{handle, read_row}
use phylax.Outbox.Examples.{keep_text}
use phylax.Broadcast.{new_broadcaster}
use phylax.Sse.Connections.{Connection, Handlers, connects, greets, sends, pings}
use phylax.Sse.Examples.{marshal, idle, idle-AreSound}
use phylax.Stream.{ReplicationStream, Pglogrepl, XLogData, new_stream}
use phylax.Stream.Routing.{others}
use phylax.Listener.Clients.{FitsOnLine}
use phylax.Listener.Examples.{marshal-FitsOnLine}
use phylax.Pipeline.{Event, receives, rounds, acts, StreamLoop, run}
use phylax.Pipeline.Traces.{Deed, changes_of, AreDecoded, deeds_of, OnActs}
use phylax.Pipeline.Delivery.{BothSound}
use phylax.Pipeline.Prints.{IsBeside, Reached, run_reaches}

abbrev stream : ReplicationStream Text Handlers
stream = new_stream 90 0 idle

stream-BothSound : BothSound stream
unfolding new_stream new_broadcaster
stream-BothSound = record { stream_valid = tt; sound = idle-AreSound }

-- A relation and a TRUNCATE of it twice, by their first byte.
abbrev parse : Text → Res Message
parse [] = ok unrelated
parse (c ∷ cs) =
    if eqb c b'R'
    then ok (relation (record { relation_id = 1; relation_name = codes "orders"; columns = [] }))
    else if eqb c b'O'
    then ok (relation (record { relation_id = 2; relation_name = codes "outbox"; columns = [] }))
    else if eqb c b'I'
    then ok (inserted 2 none)
    else ok (truncated (1 ∷ 1 ∷ []))

abbrev lib : Pglogrepl
lib = record {
  parse_keepalive = λ t. err (message (codes "short"));
  parse_xlog_data = λ t. err (message (codes "short"));
  parse = parse;
}

abbrev data_of : Text → XLogData
data_of text = record { wal_start = 100; server_wal_end = 200; wal_data = text }

abbrev cleared : Change
cleared = record { table = codes "orders"; operation = truncate_op; old_row = none; new_row = none }

-- A row that the outbox cannot read.
abbrev unread : Change
unread = record { table = codes "outbox"; operation = insert_op; old_row = none; new_row = none }

-- One change of the last record is left; the record at 2 is not received yet, as a change is left then.
abbrev loop : StreamLoop Text
loop = record { stream = stream; pending = [] }

abbrev events : List Event
events =
    receives 0 (data_of (codes "R"))
    ∷ acts (greets 0 none)
    ∷ receives 1 (data_of (codes "T"))
    ∷ rounds
    ∷ receives 2 (data_of (codes "O"))
    ∷ acts (sends 0 none)
    ∷ rounds
    ∷ receives 2 (data_of (codes "O"))
    ∷ receives 3 (data_of (codes "I"))
    ∷ rounds
    ∷ acts (pings 0 (some (message (codes "broken pipe"))))
    ∷ receives 4 (data_of (codes "T"))
    ∷ rounds
    ∷ []

abbrev deeds : List Deed
deeds = deeds_of lib stream.decoder events []

events-AreDecoded : AreDecoded lib stream.decoder deeds
unfolding new_stream decode decode_message truncate_changes relation_for insert lookup tuple_to_map
events-AreDecoded = (
  (_, refl),
  (tt, ((_, refl), (tt, (tt, (tt, ((_, refl), ((_, refl), (tt, (tt, ((_, refl), (tt, tt))))))))))),
)

events-Beside : All (OnActs (IsBeside 1)) events
events-Beside = (
  tt,
  (
    (tt, tt, refl),
    (tt, (tt, (tt, ((tt, tt, refl), (tt, (tt, (tt, (tt, ((tt, tt, refl), (tt, (tt, tt))))))))))),
  ),
)

all-FitsOnLine : (changes : List Change) → All (FitsOnLine marshal) changes
all-FitsOnLine [] = tt
all-FitsOnLine (x ∷ xs) = (marshal-FitsOnLine x, all-FitsOnLine xs)

-- The broadcaster gets three changes, and none of the outbox's.
others_test :
    others keep_text (codes "outbox") (changes_of deeds) ≡ cleared ∷ cleared ∷ cleared ∷ []
unfolding new_stream decode decode_message truncate_changes relation_for insert lookup tuple_to_map
    others handle text_beq read_row
others_test = refl

run_reaches_example :
    (l : StreamLoop Text) × (c : Connection) × (run keep_text
        (codes "outbox")
        marshal
        lib
        (acts connects ∷ events)
        loop
      ≡ ok l)
    × Reached keep_text (codes "outbox") marshal lib loop deeds none l c
unfolding new_stream
run_reaches_example =
    run_reaches keep_text (codes "outbox") marshal lib loop events none stream-BothSound
      events-AreDecoded events-Beside (omega arith)
      (all-FitsOnLine (others keep_text (codes "outbox") (changes_of deeds)))
