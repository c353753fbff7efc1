-- ===== src/Sse/Streams.antt =====
-- NewSSEHandler of sse.go: what a connection was sent, of all that is published while it is open.
pub mod Follows
pub mod Feeds
pub mod Sent
pub mod Serves
use phylax.Base.{
  ℕ, ◌+◌, ◌%◌, ◌<◌, ◌≤◌, word_mod, Text, text_eq, lookup, length, get_elem?, List, [], ◌∷◌, ◌++◌,
  some, Chan, ◌≡◌, ◌≢◌,
}
use phylax.Change.{Change}
use phylax.Broadcast.{Subscription, Broadcaster, entries}
use phylax.Broadcast.History.{World}
use phylax.Broadcast.History.Fates.{
  Fates, published_of, kept_of, lost_of, taken_from, Tracks, IsExact,
}
use phylax.Sse.{Item, greeting, ping, change, nil_change}
use phylax.Sse.Connections.{
  Phase, opening, streaming, leaving, ended, Connection, Handlers, Action, publishes, reads,
  subscriber_id,
}

-- The changes among what was written.
abbrev pub sent_of : List Item → List Change
sent_of [] = []
sent_of (change c json ∷ items) = c ∷ sent_of items
sent_of (item ∷ items) = sent_of items

abbrev pub published_by : Action → List Change
published_by (publishes c) = c ∷ []
published_by a = []

abbrev pub published_in : List Action → List Change
published_in [] = []
published_in (a ∷ actions) = published_by a ++ published_in actions

-- The handler has not come to its end.
abbrev pub IsRunning : Phase → Type 0
IsRunning opening = Unit
IsRunning streaming = Unit
IsRunning phase = ⊥

-- Only the handler of the n-th request reads its channel.
abbrev pub IsAlone : ℕ → Action → Type 0
IsAlone n (reads id) = id ≢ subscriber_id n
IsAlone n a = Unit

-- A subscriber whose buffer of this size was empty before its fates.
pub record IsTracked (size : ℕ) (id : Text) (a : ℕ) (w : World) (fates : Fates) : Type 0 where
  pub tracks : Tracks id a w fates
  pub exact : IsExact size 0 fates (length tracks.ch.buffer)
  pub sized : tracks.ch.capacity ≡ size

-- What was published is what was kept for a connection and what was dropped; it was sent the changes that
-- were read from its channel, by which it follows what was kept.
abbrev pub Follows : Connection → Broadcaster → List (ℕ × Change) → List Change → Type 0
Follows c b taken published =
    (fates : Fates) × IsTracked 10 c.id c.ch (record { broadcaster = b; taken = taken }) fates
    × (published_of fates ≡ published)
    × (sent_of c.written ≡ taken_from c.ch taken)

pub record IsFed (i : ℕ) (published : List Change) (taken : List (ℕ × Change)) (w : Handlers)
    : Type 0 where
  pub c : Connection
  pub at : get_elem? w.connections i ≡ some c
  pub fed : IsRunning c.phase → Follows c w.broadcaster taken published
