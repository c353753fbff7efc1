-- ===== src/Stream/Examples.antt =====
-- stream.go at concrete messages.
use phylax.Base.{
  if◌then◌else◌, Text, codes, text_beq, text_eq, List, [], ◌∷◌, ◌++◌, none, some, true, false,
  message, Res, ok, err, ◌≡◌, refl, arith,
}
use phylax.Change.{Change, delete_op}
use phylax.Decode.{unrelated, decode, decode_message}
use phylax.Broadcast.{new_broadcaster}
use phylax.Outbox.Examples.{keep_text, paid}
use phylax.Stream.{
  Pglogrepl, ReplicationStream, new_stream, replication_lag, handle_copy_data, route_all,
  on_xlog_data,
}
use phylax.Stream.Sessions.{
  Session, new_session, Action, checks, receives, ticks, replies, returned, waiting, copy_data,
  heartbeat_step, reply_step, run, server_error, error_response,
}
use phylax.Stream.Routing.{RoutedPart, route_all_lem}
use phylax.Stream.Positions.{handle_copy_data-last_lsn}
use phylax.Stream.Status.{reported, run_reports}
use phylax.Stream.Runs.{Ascending, reports-Ascending}

-- Records that start at 100 and are not changes, and keepalives that ask for a reply.
abbrev server : Pglogrepl
server = record {
  parse_keepalive = λ t. ok (record { server_wal_end = 500; reply_requested = true });
  parse_xlog_data = λ t. ok (record { wal_start = 100; server_wal_end = 400; wal_data = t });
  parse = λ t. ok unrelated;
}

-- A handler that keeps what it was called with, and fails on deletes.
abbrev logs : Change → List Change → List Change × Res (Unit {0})
logs change seen = (
  seen ++ change ∷ [],
  if text_beq change.operation delete_op then err (message (codes "no")) else ok tt,
)

abbrev fresh : ReplicationStream Text (List Change)
fresh = new_stream 90 5_000_000_000 []

abbrev lagging : ReplicationStream Text (List Change)
lagging = record fresh { server_wal_end = 400 }

lag_test :
    (replication_lag 20_000_000_000 lagging ≡ 310) × (replication_lag 20_000_000_001 lagging ≡ 0)
unfolding replication_lag new_stream
lag_test = (refl, refl)

abbrev sold : Change
sold = record paid { table = codes "sales" }

abbrev dropped : Change
dropped = record sold { operation = delete_op }

route_all_lem_example :
    RoutedPart keep_text
      (codes "outbox")
      logs
      (sold ∷ paid ∷ dropped ∷ sold ∷ [])
      fresh
      (route_all keep_text (codes "outbox") logs (sold ∷ paid ∷ dropped ∷ sold ∷ []) fresh)
unfolding new_stream new_broadcaster
route_all_lem_example =
    route_all_lem keep_text (codes "outbox") logs (sold ∷ paid ∷ dropped ∷ sold ∷ []) fresh tt

handle_copy_data-last_lsn_example :
    (handle_copy_data keep_text (codes "outbox") logs server 6 (codes "wabc") fresh).0.last_lsn
    ≡ 103
unfolding new_stream
handle_copy_data-last_lsn_example =
    handle_copy_data-last_lsn keep_text (codes "outbox") logs server 6 (codes "wabc") fresh

-- A tick, a record, a keepalive, its reply, and a record that ends where the last one did.
abbrev day : List Action
day =
    ticks none
    ∷ checks
    ∷ receives 6 (copy_data (codes "wabc"))
    ∷ checks
    ∷ receives 7 (copy_data (codes "k"))
    ∷ replies none
    ∷ checks
    ∷ receives 8 (copy_data (codes "wdef"))
    ∷ checks
    ∷ receives 9 (error_response (codes "shutdown") (codes "") (codes "57P01"))
    ∷ []

abbrev after_day : Session Text (List Change)
after_day = record {
  stream = record fresh { last_lsn = 103; server_wal_end = 400; last_data_at = 8 };
  position = returned (err (server_error (codes "shutdown") (codes "") (codes "57P01")));
  heartbeat = waiting;
  is_done = false;
  sent = 90 ∷ 103 ∷ [];
}

day-run : run keep_text (codes "outbox") logs server day (new_session fresh) ≡ some after_day
unfolding run new_session new_stream handle_copy_data heartbeat_step on_xlog_data decode
    decode_message route_all reply_step
day-run = refl

run_reports_example : after_day.sent ≡ [] ++ reported server day 90
unfolding new_session new_stream
run_reports_example =
    run_reports keep_text (codes "outbox") logs server day (new_session fresh) after_day day-run

reports-Ascending_example : Ascending 90 after_day.sent
unfolding new_stream
reports-Ascending_example =
    reports-Ascending keep_text (codes "outbox") logs server day fresh after_day
      (
        omega arith,
        (
          omega arith,
          (
            omega arith,
            (
              omega arith,
              (
                omega arith,
                (omega arith, (omega arith, (omega arith, (omega arith, (omega arith, tt))))),
              ),
            ),
          ),
        ),
      )
      day-run
