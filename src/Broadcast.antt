-- ===== src/Broadcast.antt =====
-- broadcast.go: the Broadcaster. A method runs under the mutex, so it is one step on the state.
pub mod Valid
pub mod Publish
pub mod History
pub mod Entries
pub mod Views
pub mod Totals
mod Examples
use phylax.Base.{
  ℕ, Bool, true, false, Text, Map, lookup, insert, delete, length, set, add64, List, [], ◌∷◌, ◌++◌,
  Option, none, some, Res, ok, err, panic, ◌>>=◌, text_eq, ℤ, Chan, make_chan, try_send, close_chan,
  load,
}
use phylax.Change.{Change}

-- `ch` is the channel's address.
pub record Subscription : Type 0 where
  pub ch : ℕ
  pub dropped : ℕ

-- The nil map (`none`) until the first Subscribe; beside it the memory of the channels.
pub record Broadcaster : Type 0 where
  pub heap : List (Chan Change)
  pub subscribers : Option (Map Text Subscription)

unfoldable pub new_broadcaster : List (Chan Change) → Broadcaster
new_broadcaster heap = record { heap = heap; subscribers = none }

-- Reading a nil map is reading an empty one.
abbrev pub entries : Option (Map Text Subscription) → Map Text Subscription
entries none = []
entries (some m) = m

-- The new channel's address is the first free one.
unfoldable pub subscribe : Text → ℤ → Broadcaster → Res (ℕ × Broadcaster)
subscribe id buffer_size b = do
  ch ← make_chan buffer_size
  let address = length b.heap
  ok (
    address,
    record {
      heap = b.heap ++ ch ∷ [];
      subscribers = some (insert id (record { ch = address; dropped = 0 }) (entries b.subscribers));
    },
  )

abbrev close_at : Broadcaster → Text → Option Subscription → Res Broadcaster
close_at b id none = ok b
close_at b id (some sub) = do
  ch ← load b.heap sub.ch
  closed ← close_chan ch
  ok (record {
    heap = set b.heap sub.ch closed;
    subscribers = some (delete id (entries b.subscribers));
  })

unfoldable pub unsubscribe : Text → Broadcaster → Res Broadcaster
unsubscribe id b = close_at b id (lookup id (entries b.subscribers))

abbrev pub sent :
    List (Chan Change) → Subscription → Option (Chan Change) → List (Chan Change) × Subscription
sent heap sub (some ch) = (set heap sub.ch ch, sub)
sent heap sub none = (heap, record sub { dropped = add64 sub.dropped 1 })

-- One round of the loop of Publish.
unfoldable pub deliver :
    Change → List (Chan Change) → Subscription → Res (List (Chan Change) × Subscription)
deliver change heap sub = do
  ch ← load heap sub.ch
  outcome ← try_send change ch
  ok (sent heap sub outcome)

unfoldable pub deliver_all :
    Change
    → List (Chan Change)
    → Map Text Subscription
    → Res (List (Chan Change) × Map Text Subscription)
deliver_all change heap [] = ok (heap, [])
deliver_all change heap ((id, sub) ∷ subs) = deliver change heap sub >>= λ (heap', sub').
    deliver_all change heap' subs >>= λ (heap'', subs'). ok (heap'', (id, sub') ∷ subs')

-- Ranging over a nil map does nothing, and leaves it nil.
abbrev publish_to : Change → Broadcaster → Option (Map Text Subscription) → Res Broadcaster
publish_to change b none = ok b
publish_to change b (some subs) = deliver_all change b.heap subs >>= λ (heap, subs').
    ok (record { heap = heap; subscribers = some subs' })

unfoldable pub publish : Change → Broadcaster → Res Broadcaster
unfolding deliver_all deliver
publish change b = publish_to change b b.subscribers

unfoldable pub subscriber_count : Broadcaster → ℕ
subscriber_count b = length (entries b.subscribers)

abbrev pub total_dropped : Map Text Subscription → ℕ → ℕ
total_dropped [] total = total
total_dropped ((id, sub) ∷ subs) total = total_dropped subs (add64 total sub.dropped)

unfoldable pub changes_dropped : Broadcaster → ℕ
changes_dropped b = total_dropped (entries b.subscribers) 0

-- What the goroutine of a subscriber does with its channel, `for change := range ch`: `none` is
-- the end of the loop, and a channel that is open and empty blocks (no step).
pub data Received : Type 0 where
  change : Change → Received
  finished blocked : Received

abbrev pub take_front :
    List (Chan Change) → ℕ → Chan Change → List Change → List (Chan Change) × Received
take_front heap a ch (c ∷ rest) = (set heap a (record ch { buffer = rest }), Received.change c)
take_front heap a ch [] =
    (heap, elim ch.is_closed [ true ↦ Received.finished | false ↦ Received.blocked ])

unfoldable pub receive : ℕ → Broadcaster → Res (Broadcaster × Received)
receive a b = do
  ch ← load b.heap a
  let (heap, r) = take_front b.heap a ch ch.buffer
  ok (record b { heap = heap }, r)
