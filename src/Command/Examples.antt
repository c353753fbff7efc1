-- ===== src/Command/Examples.antt =====
-- cmd/phylax/main.go at concrete options.
use phylax.Base.{
  ◌+◌, ◌≤◌, true, false, Text, text_beq, List, codes, [], ◌∷◌, ◌++◌, none, some, Error, message,
  wrap, ok, ◌≡◌, refl, ◌⊎◌, arith,
}
use phylax.Change.{Change, insert_op, delete_op}
use phylax.Broadcast.{subscribe}
use phylax.Command.{
  Options, checked_flags, split_tables, dashboard_url, registers, listens, warns, starts, run,
  backwards,
}
use phylax.Command.Tables.{Entry, IsEntry, split_tables-joined}
use phylax.Command.Flags.{
  dsn, tables, no_http, verbose, default_options, exits, parse_flags, parse_bool, argument_of,
}
use phylax.Command.Flags.Settings.{Setting, joins, spaces, raises, chooses, args_of}
use phylax.Command.Flags.Readings.{given, IsReadAs, parse_flags_lem}
use phylax.Command.Semaphores
use phylax.Command.Semaphores.{
  webhook_concurrency, Deliveries, calls, ends, fresh, in_flight, changes_of,
}
use phylax.Command.Semaphores.Ends.{left, IsFinished, CanStep, run_ends}

abbrev options : Options
options = record {
  dsn = codes "postgres://db/app";
  tables = codes " orders,, users\t";
  webhook = [];
  slot = [];
  publication = codes "pub";
  outbox_table = [];
  addr = codes ":8080";
  no_http = false;
  verbose = false;
}

split_tables_test :
    (split_tables options.tables ≡ codes "orders" ∷ codes "users" ∷ [])
    × (split_tables (codes " , ") ≡ [])
    × (split_tables (194 ∷ 160 ∷ 97 ∷ 227 ∷ 128 ∷ 128 ∷ []) ≡ (97 ∷ []) ∷ [])
unfolding split_tables
split_tables_test = (refl, refl, refl)

dashboard_url_test :
    (dashboard_url (codes ":8080") ≡ codes "http://localhost:8080/dashboard")
    × (dashboard_url (codes "0.0.0.0:80") ≡ codes "http://0.0.0.0:80/dashboard")
unfolding dashboard_url
dashboard_url_test = (refl, refl)

checked_flags_test :
    (checked_flags options ≡ some options) × (checked_flags (record options { tables = [] }) ≡ none)
unfolding checked_flags
checked_flags_test = (refl, refl)

abbrev in_use : Error
in_use = message (codes "address already in use")

-- The console's address is taken, and Start returns when the process is stopped.
run_test : run (λ addr. some in_use) (λ c. some (ok (none, c))) [] options ≡ (
  registers none
      ∷ listens (codes ":8080")
      ∷ warns (wrap (codes "listen :8080") in_use)
      ∷ starts
      ∷ [],
  some (ok none),
)
unfolding run subscribe
run_test = refl

-- A flag that is set twice, and operands after the flags.
abbrev line : List Setting
line =
    joins true dsn (codes "postgres://db/app?sslmode=off")
    ∷ spaces false tables (codes "users")
    ∷ raises false no_http
    ∷ spaces true tables (codes "-orders,")
    ∷ chooses false verbose false
    ∷ []

abbrev operands : List Text
operands = codes "--" ∷ codes "-tables" ∷ []

parse_flags_lem_example : IsReadAs (args_of line ++ operands) (given line)
unfolding argument_of
parse_flags_lem_example = parse_flags_lem line operands refl

given_test : given line ≡ record default_options {
  dsn = codes "postgres://db/app?sslmode=off";
  tables = codes "-orders,";
  no_http = true;
}
unfolding text_beq
given_test = refl

-- -h is no error; an unknown flag, a flag without its value and a value that is no Boolean are.
parse_flags_test :
    (parse_flags (codes "-h" ∷ []) ≡ exits 0)
    × (parse_flags (codes "-port=80" ∷ []) ≡ exits 2)
    × (parse_flags (codes "-dsn=db" ∷ codes "--tables" ∷ []) ≡ exits 2)
    × (parse_flags (codes "-v=yes" ∷ []) ≡ exits 2)
    × (parse_flags (codes "-dsn=db" ∷ codes "orders" ∷ codes "-tables=orders" ∷ []) ≡ exits 2)
unfolding parse_flags checked_flags text_beq parse_bool
parse_flags_test = (refl, refl, refl, refl, refl)

abbrev orders : Entry
orders = record { left = codes " "; name = codes "public.orders"; right = [] }

abbrev nothing : Entry
nothing = record { left = codes "\t "; name = []; right = codes " " }

orders-IsEntry : IsEntry orders
unfolding backwards
orders-IsEntry = record {
  left_blank = (refl, tt);
  right_blank = tt;
  no_comma = ground arith;
  first = (omega arith, refl);
  last = (omega arith, refl);
}

nothing-IsEntry : IsEntry nothing
unfolding backwards
nothing-IsEntry = record {
  left_blank = (refl, (refl, tt));
  right_blank = (refl, tt);
  no_comma = tt;
  first = tt;
  last = tt;
}

split_tables-joined_example :
    split_tables (codes " public.orders,\t  , public.orders")
    ≡ codes "public.orders" ∷ codes "public.orders" ∷ []
split_tables-joined_example =
    split_tables-joined (orders ∷ nothing ∷ orders ∷ [])
      (orders-IsEntry, (nothing-IsEntry, (orders-IsEntry, tt)))

abbrev order : Change
order = record { table = codes "orders"; operation = insert_op; old_row = none; new_row = none }

abbrev cancel : Change
cancel = record { table = codes "orders"; operation = delete_op; old_row = none; new_row = none }

-- The second delivery ends before the first one.
abbrev overtaken : Deliveries
overtaken = record { pending = order ∷ []; posts = (order, false) ∷ (cancel, true) ∷ []; held = 1 }

run_ends_example :
    (in_flight overtaken.posts ≤ webhook_concurrency)
    × (changes_of overtaken.posts ++ overtaken.pending ≡ order ∷ cancel ∷ order ∷ [])
    × (3 + left overtaken ≡ 6)
    × (IsFinished overtaken ⊎ CanStep overtaken)
    × (left overtaken ≡ 0 → IsFinished overtaken)
unfolding Semaphores.run fresh
run_ends_example =
    run_ends (order ∷ cancel ∷ order ∷ []) (calls ∷ calls ∷ ends 1 ∷ []) overtaken refl
