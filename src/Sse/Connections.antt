-- ===== src/Sse/Connections.antt =====
-- NewSSEHandler and NewMetricsHandler of sse.go. Handlers of /events, and what else uses the
-- broadcaster, interleave: an interleaving is a list of actions, and an action that cannot be taken
-- changes nothing. json.Marshal and the writes are parameters, by what they return.
use phylax.Base.{
  ℕ, Bool, true, false, Text, codes, print_ℕ, lookup, text_eq, add64, get_elem?, set, List, [], ◌∷◌,
  ◌++◌, Option, none, some, Error, Res, ok, ◌>>=◌, ◌⊎◌, inl, inr, ℤ, pos,
}
use phylax.Change.{Change, MetricsSnapshot}
use phylax.Broadcast.{Broadcaster, entries, subscribe, unsubscribe, publish, receive, Received}
use phylax.Sse.{Item, greeting, ping, change, nil_change}

-- Where a handler stands: subscribed with the preamble to write, in its select, with the deferred
-- Unsubscribe to run, or returned.
pub data Phase : Type 0 where
  opening streaming leaving ended : Phase

-- `written` is what was written without an error.
pub record Connection : Type 0 where
  pub id : Text
  pub ch : ℕ
  pub phase : Phase
  pub written : List Item

-- What the handlers of one Server share, and their connections in the order of their subscriptions.
pub record Handlers : Type 0 where
  pub broadcaster : Broadcaster
  pub next_subscriber_id : ℕ
  pub connections : List Connection

pub data Action : Type 0 where
  -- A request to /events whose writer can flush; one whose writer cannot is answered with a 500.
  connects refuses : Action
  -- A handler: the preamble, the change that is next in its channel, and the heartbeat, each with
  -- what Write returns; the end of the request; the deferred Unsubscribe.
  greets sends pings : ℕ → Option Error → Action
  disconnects unsubscribes : ℕ → Action
  -- Other users of the broadcaster: Subscribe, Unsubscribe, Publish, and a read by a goroutine of
  -- another id.
  subscribes : Text → ℕ → Action
  drops : Text → Action
  publishes : Change → Action
  reads : Text → Action

abbrev pub subscriber_id : ℕ → Text
subscriber_id n = codes "sse-" ++ print_ℕ n

abbrev pub buffer_size : ℤ
buffer_size = pos 10

unfoldable pub connect : Handlers → Res Handlers
connect w = do
  let n = add64 w.next_subscriber_id 1
  r ← subscribe (subscriber_id n) buffer_size w.broadcaster
  let (ch, b) = r
  let c : Connection = record { id = subscriber_id n; ch = ch; phase = opening; written = [] }
  ok (record { broadcaster = b; next_subscriber_id = n; connections = w.connections ++ c ∷ [] })

abbrev pub put : Handlers → ℕ → Connection → Handlers
put w i c = record w { connections = set w.connections i c }

-- A write that fails ends the handler.
abbrev pub wrote : Connection → Item → Option Error → Connection
wrote c item none = record c { phase = streaming; written = c.written ++ item ∷ [] }
wrote c item (some e) = record c { phase = leaving }

abbrev pub marshalled : Connection → (Text → Item) → Option Error → Error ⊎ Text → Connection
marshalled c item answer (inl e) = record c { phase = leaving }
marshalled c item answer (inr json) = wrote c (item json) answer

module _ (marshal : Change → Error ⊎ Text) where
  -- `change := <-ch` takes nil from a closed channel, and the JSON of nil is null.
  abbrev pub received : Handlers → ℕ → Connection → Option Error → Broadcaster × Received → Handlers
  received w i c answer (b, Received.change x) =
      put (record w { broadcaster = b }) i (marshalled c (change x) answer (marshal x))
  received w i c answer (b, Received.finished) =
      put (record w { broadcaster = b }) i (wrote c nil_change answer)
  received w i c answer (b, Received.blocked) = w

  -- What a handler can do where it stands.
  unfoldable pub handler_step : Action → ℕ → Connection → Phase → Handlers → Res Handlers
  handler_step (greets j answer) i c opening w = ok (put w i (wrote c greeting answer))
  handler_step (sends j answer) i c streaming w = do
    r ← receive c.ch w.broadcaster
    ok (received w i c answer r)
  handler_step (pings j answer) i c streaming w = ok (put w i (wrote c ping answer))
  handler_step (disconnects j) i c streaming w = ok (put w i (record c { phase = leaving }))
  handler_step (unsubscribes j) i c leaving w = do
    b ← unsubscribe c.id w.broadcaster
    ok (put (record w { broadcaster = b }) i (record c { phase = ended }))
  handler_step _ i c phase w = ok w

  abbrev pub handler_at : Action → ℕ → Handlers → Option Connection → Res Handlers
  handler_at a i w none = ok w
  handler_at a i w (some c) = handler_step a i c c.phase w

  abbrev pub read_by : Handlers → Option ℕ → Res Handlers
  read_by w none = ok w
  read_by w (some ch) = do
    r ← receive ch w.broadcaster
    let (b, _) = r
    ok (record w { broadcaster = b })

  abbrev pub channel_of : Text → Broadcaster → Option ℕ
  channel_of id b = elim (lookup id (entries b.subscribers)) [
    | none ↦ none
    | some sub ↦ some sub.ch
  ]

  unfoldable pub step : Action → Handlers → Res Handlers
  unfolding connect handler_step
  step connects w = connect w
  step refuses w = ok w
  step (greets i answer) w = handler_at (greets i answer) i w (get_elem? w.connections i)
  step (sends i answer) w = handler_at (sends i answer) i w (get_elem? w.connections i)
  step (pings i answer) w = handler_at (pings i answer) i w (get_elem? w.connections i)
  step (disconnects i) w = handler_at (disconnects i) i w (get_elem? w.connections i)
  step (unsubscribes i) w = handler_at (unsubscribes i) i w (get_elem? w.connections i)
  step (subscribes id size) w = do
    r ← subscribe id (pos size) w.broadcaster
    let (ch, b) = r
    ok (record w { broadcaster = b })
  step (drops id) w = do b ← unsubscribe id w.broadcaster; ok (record w { broadcaster = b })
  step (publishes x) w = do b ← publish x w.broadcaster; ok (record w { broadcaster = b })
  step (reads id) w = read_by w (channel_of id w.broadcaster)

  unfoldable pub run : List Action → Handlers → Res Handlers
  unfolding step
  run [] w = ok w
  run (a ∷ actions) w = do w' ← step a w; run actions w'

-- The frames that NewMetricsHandler writes over its ticks, each with what Write returns, up to the
-- end of the request; and whether it has returned by itself.
unfoldable pub metrics_frames :
    (MetricsSnapshot → Error ⊎ Text) → List (MetricsSnapshot × Option Error) → List Text × Bool
metrics_frames marshal [] = ([], false)
metrics_frames marshal ((snapshot, answer) ∷ ticks) =
    let (frames, returned) = metrics_frames marshal ticks in
    elim (marshal snapshot) [
      | inl e ↦ ([], true)
      | inr json ↦ elim answer [ none ↦ (json ∷ frames, returned) | some e ↦ ([], true) ]
    ]
