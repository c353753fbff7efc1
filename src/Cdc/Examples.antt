-- ===== src/Cdc/Examples.antt =====
-- cdc.go at concrete configurations and sessions.
use phylax.Base.{
  ℕ, Text, codes, print_ℕ, insert, lookup, text_beq, text_eq, get_elem?, List, [], ◌∷◌, none, some,
  true, false, Error, wrap, pg_error, ok, err, pos, ◌≡◌, refl, arith,
}
use phylax.Change.{Change}
use phylax.Broadcast.{Broadcaster, new_broadcaster}
use phylax.Broadcast.Valid.{IsValid}
use phylax.Broadcast.Entries.{HasEntry}
use phylax.Outbox.Examples.{keep_text, paid}
use phylax.Stream.{ReplicationStream, new_stream, route_all}
use phylax.Cdc.{
  Config, Cdc, registration_id, ids_of, contains, unsubscribe_ids, unsubscribe_all, publish_change,
  retryable, Round, start, replication_dsn,
}
use phylax.Cdc.Retries.{cause, IsTransient, retryable_lem, backoffs, start_returns}
use phylax.Cdc.Goroutines.{consume, unsubscribe_all-consume}
use phylax.Cdc.Races
use phylax.Cdc.Races.{Race, reserves, subscribes, takes, drops, quiet}
use phylax.Cdc.Races.Leaks.{drop_all, on_change_escapes}
use phylax.Cdc.Registrations.{Registered, on_change_lem, Removed, unsubscribe_all_lem}
use phylax.Setup.{
  slot_confirmed_flush_lsn, ensure_replication_slot, slot_exists, ensure_publication,
  publication_exists,
}
use phylax.Setup.Examples.{two_flags}
use phylax.Cdc.Sessions.{
  default_client_config, Driver, run_once, opens, closes, starts, replication, admin, outbox,
}
use phylax.Cdc.Sessions.Starts.{SessionShape, run_once_lem}
use phylax.Broadcast.Views.Quotients.{view}
use phylax.Cdc.Orders.{unsubscribe_all-order}
use mathlib.Core.List.Permᴰ
use phylax.Cdc.Changes.{DeliveredBy, changes_delivered}

abbrev config : Config
config = record {
  dsn = codes "postgres://db/app?sslmode=off";
  tables = codes "orders" ∷ [];
  slot_name = [];
  publication_name = codes "pub";
  change_buffer_size = pos 0;
  outbox_table = codes "outbox";
}

-- The two URLs of the default settings are those of one DSN.
default_client_config_test :
    default_client_config.database_url ≡ replication_dsn default_client_config.admin_url
unfolding replication_dsn
default_client_config_test = refl

replication_dsn_test :
    (replication_dsn config.dsn ≡ codes "postgres://db/app?sslmode=off&replication=database")
    × (replication_dsn (codes "db") ≡ codes "db?replication=database")
unfolding replication_dsn
replication_dsn_test = (refl, refl)

abbrev restarting : Error
restarting = wrap (codes "phylax: admin connection") (pg_error (codes "57P03"))

abbrev denied : Error
denied = wrap (codes "phylax: admin connection") (pg_error (codes "28P01"))

retryable_lem_example :
    (retryable (some denied) ≡ true → IsTransient (cause denied))
    × (IsTransient (cause denied) → retryable (some denied) ≡ true)
retryable_lem_example = retryable_lem denied

abbrev fails_with : Error → Round
fails_with e = record { result = some e; is_done = false; slept = true }

abbrev rounds : List Round
rounds = fails_with restarting ∷ fails_with restarting ∷ fails_with denied ∷ []

-- The sixth and the seventh backoff.
backoffs_test : backoffs 4 3 ≡ 16_000_000_000 ∷ 30_000_000_000 ∷ 30_000_000_000 ∷ []
unfolding backoffs
backoffs_test = refl

abbrev client : Cdc
client = record {
  cfg = record config { change_buffer_size = pos 100 };
  broadcaster = new_broadcaster [];
  sub_ids = [];
  next_sub_id = 0;
}

client-start : start rounds false client ≡ some (ok (some denied, client))
unfolding start retryable text_beq
client-start = refl

start_returns_example :
    (false ≡ false)
    × (retryable (some denied) ≡ false)
    × ((n : ℕ) × (r : Round) × (get_elem? rounds n ≡ some r) × (r.result ≡ some denied))
start_returns_example =
    start_returns rounds false client client denied
      ((λ h. cc, λ h. cc), ((λ h. cc, λ h. cc), ((λ h. cc, λ h. cc), tt))) client-start

client-Registered : Registered client
unfolding new_broadcaster
client-Registered = record { known = λ id h. absurd (cc); valid = tt }

-- A client with one registration.
abbrev registered : Cdc
registered = (on_change_lem client 100 refl client-Registered).1

abbrev bought : Change
bought = record {
  table = codes "orders";
  operation = codes "insert";
  old_row = none;
  new_row = none;
}

-- A client whose one registration has two changes in its channel.
abbrev busy : Cdc
busy = record client {
  broadcaster = record {
    heap = record { capacity = 100; buffer = bought ∷ bought ∷ []; is_closed = false } ∷ [];
    subscribers = some ((registration_id 1, record { ch = 0; dropped = 0 }) ∷ []);
  };
  sub_ids = (registration_id 1, tt) ∷ [];
  next_sub_id = 1;
}

-- A shutdown between the two steps of the client's second OnChange, and another one after it.
on_change_escapes_example :
    (w : Race) × (ch : ℕ) × (Races.run
        (reserves
          ∷ takes
          ∷ drop_all
              (registration_id 1 ∷ registration_id 2 ∷ [])
              (subscribes 0 ∷ takes ∷ drops ∷ []))
        (quiet busy)
      ≡ ok w)
    × HasEntry w.client.broadcaster (registration_id 2) ch
    × IsValid w.client.broadcaster
unfolding insert print_ℕ lookup text_beq
on_change_escapes_example =
    on_change_escapes busy 100 (takes ∷ drops ∷ []) refl ((_, refl, refl), tt, refl, tt)

unsubscribe_all-consume_example :
    (c' : Cdc) × (b : Broadcaster) × (unsubscribe_all busy ≡ ok c')
    × (consume 3 0 c'.broadcaster ≡ ok (b, bought ∷ bought ∷ [], true))
unfolding print_ℕ lookup text_beq
unsubscribe_all-consume_example =
    unsubscribe_all-consume busy (registration_id 1) (record { ch = 0; dropped = 0 })
      (record { capacity = 100; buffer = bought ∷ bought ∷ []; is_closed = false }) 3
      ((_, refl, refl), tt, refl, tt) refl refl refl (omega arith)

unsubscribe_all_lem_example :
    (c' : Cdc) × (unsubscribe_all registered ≡ ok c')
    × Removed (contains (ids_of registered.sub_ids)) registered.broadcaster c'.broadcaster
    × (c'.sub_ids ≡ [])
unsubscribe_all_lem_example =
    unsubscribe_all_lem registered (on_change_lem client 100 refl client-Registered).8.valid

-- A client with two registrations.
abbrev registered_twice : Cdc
registered_twice = record client {
  broadcaster = record {
    heap =
        record { capacity = 100; buffer = bought ∷ []; is_closed = false }
        ∷ record { capacity = 100; buffer = []; is_closed = false }
        ∷ [];
    subscribers = some (
        (registration_id 1, record { ch = 0; dropped = 0 })
        ∷ (registration_id 2, record { ch = 1; dropped = 3 })
        ∷ []);
  };
  sub_ids = (registration_id 1, tt) ∷ (registration_id 2, tt) ∷ [];
  next_sub_id = 2;
}

registered_twice-IsValid : IsValid registered_twice.broadcaster
unfolding lookup text_beq print_ℕ
registered_twice-IsValid =
    ((_, refl, refl), (λ e. omega arith, tt), refl, ((_, refl, refl), tt, refl, tt))

unsubscribe_all-order_example :
    (c' : Cdc) × (b : Broadcaster) × (v : IsValid c'.broadcaster) × (u : IsValid b)
    × (unsubscribe_all registered_twice ≡ ok c')
    × (unsubscribe_ids (registration_id 2 ∷ registration_id 1 ∷ []) registered_twice.broadcaster
        ≡ ok b)
    × (view c'.broadcaster v ≡ view b u)
unsubscribe_all-order_example =
    unsubscribe_all-order registered_twice (registration_id 2 ∷ registration_id 1 ∷ [])
      registered_twice-IsValid ∣ Permᴰ.swap refl refl ∣₁

abbrev stream : ReplicationStream Text Broadcaster
stream = new_stream 90 0 (new_broadcaster [])

abbrev sold : Change
sold = record paid { table = codes "sales" }

changes_delivered_example :
    DeliveredBy keep_text
      (codes "outbox")
      (paid ∷ sold ∷ [])
      stream
      (route_all keep_text (codes "outbox") publish_change (paid ∷ sold ∷ []) stream)
unfolding new_stream new_broadcaster
changes_delivered_example =
    changes_delivered keep_text (codes "outbox") (paid ∷ sold ∷ []) stream tt tt

-- A driver that answers every call, and a stream that ends with an error.
abbrev driver : Driver
driver = record {
  connect_replication = λ url. ok tt;
  connect_admin = λ url. ok tt;
  connect_outbox = λ url. ok tt;
  identify_system = ok 90;
  start_replication = λ slot lsn args. ok tt;
  run = err restarting;
}

run_once_test :
    (run_once two_flags driver config (true, false)).0
    ≡ opens replication
      ∷ opens admin
      ∷ opens outbox
      ∷ starts [] 7 (codes "proto_version '1'" ∷ codes "publication_names 'pub'" ∷ [])
      ∷ closes admin
      ∷ closes replication
      ∷ []
unfolding run_once slot_confirmed_flush_lsn ensure_replication_slot slot_exists ensure_publication
    publication_exists text_beq
run_once_test = refl

run_once_lem_example :
    SessionShape two_flags driver config
      (true, false)
      (run_once two_flags driver config (true, false))
run_once_lem_example = run_once_lem two_flags driver config (true, false)
