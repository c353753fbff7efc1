-- ===== src/Broadcast/Examples.antt =====
-- broadcast.go on a broadcaster with one subscriber whose buffer holds one change.
use phylax.Base.{
  ◌+◌, ◌%◌, word_mod, Text, codes, lookup, insert, List, [], ◌∷◌, none, some, false, ok, panic,
  Chan, negsuc, ◌≡◌, refl, arith, text_eq, text_beq, nat_eq,
}
use phylax.Change.{Change, insert_op}
use phylax.Broadcast.{
  Subscription, Broadcaster, new_broadcaster, subscribe, publish, receive, subscriber_count,
}
use phylax.Broadcast.Valid.{IsValid}
use phylax.Broadcast.History.{
  Op, subscribes, unsubscribes, publishes, receives, World, step, run, run_total,
}
use phylax.Broadcast.Totals.{accounted_in, run-accounted}
use phylax.Broadcast.History.Fates.{Extends, Tracks, Fates, Leaves, published_of, publications}
use phylax.Broadcast.History.Fates.Tracking.{run-Tracks}

abbrev insert_into : Text → Change
insert_into table = record {
  table = table;
  operation = insert_op;
  old_row = none;
  new_row = some [];
}

abbrev first : Change
first = insert_into (codes "users")

abbrev second : Change
second = insert_into (codes "orders")

abbrev empty_chan : Chan Change
empty_chan = record { capacity = 1; buffer = []; is_closed = false }

abbrev a_sub : Subscription
a_sub = record { ch = 0; dropped = 0 }

abbrev one : Broadcaster
one = record { heap = empty_chan ∷ []; subscribers = some ((codes "a", a_sub) ∷ []) }

-- The second change finds the buffer full.
drop_test :
    run
      (subscribes (codes "a") 1 ∷ publishes first ∷ publishes second ∷ receives 0 ∷ [])
      (record { broadcaster = new_broadcaster []; taken = [] })
    ≡ ok (record {
      broadcaster = record {
        heap = empty_chan ∷ [];
        subscribers = some ((codes "a", record { ch = 0; dropped = 1 }) ∷ []);
      };
      taken = (0, first) ∷ [];
    })
unfolding run step subscribe publish receive insert new_broadcaster text_beq
drop_test = refl

-- A negative buffer size is a panic of make.
negative_test : subscribe (codes "a") (negsuc 0) one ≡ panic
unfolding subscribe
negative_test = refl

one-IsValid : IsValid one
unfolding lookup
one-IsValid = ((empty_chan, refl, refl), tt, refl, tt)

abbrev busy : List Op
busy =
    publishes first
    ∷ subscribes (codes "b") 10
    ∷ publishes second
    ∷ receives 0
    ∷ unsubscribes (codes "b")
    ∷ []

abbrev start : World
start = record { broadcaster = one; taken = [] }

run_total_example : (w' : World) × (run busy start ≡ ok w') × IsValid w'.broadcaster
run_total_example = run_total busy start one-IsValid

start-Tracks : Tracks (codes "a") 0 start []
unfolding lookup text_beq
start-Tracks = record {
  sub = a_sub;
  ch = empty_chan;
  found = refl;
  address = refl;
  at = refl;
  kept = refl;
  lost = refl;
  fits = omega arith;
}

busy-Leaves : Leaves (codes "a") busy
busy-Leaves = (λ e. ground arith, (λ e. ground arith, tt))

run-Tracks_example :
    (w' : World) × (more : Fates) × (run busy start ≡ ok w')
    × ((t' : Tracks (codes "a") 0 w' more) × Extends more start-Tracks.ch t'.ch)
    × (published_of more ≡ publications busy)
run-Tracks_example = run-Tracks busy (codes "a") 0 start [] one-IsValid start-Tracks busy-Leaves

-- Of two changes, one is read and one finds the buffer full.
run-accounted_example :
    (w' : World) × (run (publishes first ∷ publishes second ∷ receives 0 ∷ []) start ≡ ok w')
    × (subscriber_count w'.broadcaster ≡ subscriber_count start.broadcaster)
    × (accounted_in w' % word_mod
        ≡ (accounted_in start
            + (subscriber_count start.broadcaster + (subscriber_count start.broadcaster + 0)))
          % word_mod)
run-accounted_example =
    run-accounted (publishes first ∷ publishes second ∷ receives 0 ∷ []) start one-IsValid
      (tt, (tt, (tt, tt)))
