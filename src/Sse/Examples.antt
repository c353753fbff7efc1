-- ===== src/Sse/Examples.antt =====
-- sse.go at concrete requests.
use phylax.Base.{
  ℕ, true, Text, codes, length, get_elem?, List, [], ◌∷◌, ◌++◌, none, some, Error, message, ok, ◌≡◌,
  ◌≢◌, refl, ap, ◌⊎◌, inr, arith,
}
use phylax.Change.{Change, insert_op, MetricsSnapshot}
use phylax.Broadcast.{new_broadcaster}
use phylax.Sse.Connections
use phylax.Sse.Connections.{
  Handlers, connects, greets, sends, pings, disconnects, unsubscribes, publishes, subscribes,
  metrics_frames,
}
use phylax.Sse.Safety.{AreSound, IsForeign}
use phylax.Sse.Runs.{run_sound}
use phylax.Sse.Streams.{IsRunning}
use phylax.Sse.Streams.Serves.{IsServed, run_serves}
use phylax.Sse.Lifecycle
use phylax.Sse.Lifecycle.{
  Server, Call, obtained, serving, closed, serves, runs, asks, marks, new_server, started,
}
use phylax.Sse.Lifecycle.Closing.{run_closes}

abbrev pub order : Change
order = record { table = codes "orders"; operation = insert_op; old_row = none; new_row = none }

abbrev pub marshal : Change → Error ⊎ Text
marshal c = inr (codes "{}")

abbrev pub idle : Handlers
idle = record { broadcaster = new_broadcaster []; next_subscriber_id = 0; connections = [] }

pub idle-AreSound : AreSound idle
idle-AreSound = record {
  valid = unfold new_broadcaster in tt;
  numbered = refl;
  each = λ i c e. absurd (cc);
}

-- One client sees a change and leaves, and another one stays.
abbrev visits : List Connections.Action
visits =
    connects
    ∷ greets 0 none
    ∷ subscribes (codes "onchange-1") 1
    ∷ connects
    ∷ publishes order
    ∷ sends 0 none
    ∷ pings 0 (some (message (codes "broken pipe")))
    ∷ unsubscribes 0
    ∷ []

abbrev first_code : Text → ℕ
first_code [] = 0
first_code (c ∷ cs) = c

other_id : IsForeign (subscribes (codes "onchange-1") 1)
other_id n e = omega (arith, ap first_code e)

run_sound_example : (w : Handlers) × (Connections.run marshal visits idle ≡ ok w) × AreSound w
run_sound_example =
    run_sound marshal visits idle idle-AreSound
      (tt, (tt, (other_id, (tt, (tt, (tt, (tt, (tt, tt)))))))) (omega arith)

-- One change is sent, and another one waits.
abbrev pub visit : List Connections.Action
visit = greets 0 none ∷ publishes order ∷ sends 0 none ∷ pings 0 none ∷ publishes order ∷ []

run_serves_example :
    (w : Handlers) × (c : Connections.Connection) × (Connections.run marshal (connects ∷ visit) idle
      ≡ ok w)
    × (get_elem? w.connections 0 ≡ some c)
    × (IsRunning c.phase → IsServed w c (order ∷ order ∷ []))
run_serves_example =
    run_serves marshal idle visit idle-AreSound (tt, (tt, (tt, (tt, (tt, tt)))))
      (tt, (tt, (tt, (tt, (tt, tt))))) (omega arith)

metrics_frames_test :
    (snapshot : MetricsSnapshot)
    → metrics_frames
        (λ s. inr (codes "{}"))
        ((snapshot, none)
          ∷ (snapshot, some (message (codes "broken pipe")))
          ∷ (snapshot, none)
          ∷ [])
      ≡ (codes "{}" ∷ [], true)
unfolding metrics_frames
metrics_frames_test snapshot = refl

abbrev server : Server Text Text
server = new_server (codes "broadcaster") (codes "zeros") none none

asked :
    (Lifecycle.run
      (codes "broadcaster")
      (codes "zeros")
      (serves ∷ runs 0 ∷ asks ∷ [])
      (started server)).asked
    ≢ []
unfolding Lifecycle.run started new_server
asked e = cc e

-- A Shutdown between two calls of Serve.
run_closes_example :
    let w : Lifecycle.Lifecycle Text Text =
      Lifecycle.run
        (codes "broadcaster")
        (codes "zeros")
        ((serves ∷ runs 0 ∷ asks ∷ []) ++ marks ∷ serves ∷ [])
        (started server) in
    (length w.flags ≡ 1)
    × ((i a : ℕ) → get_elem? w.calls i ≢ some (serving a))
    × ((i a : ℕ)
        → get_elem? w.calls i ≡ some (obtained a)
        → get_elem? (Lifecycle.step (codes "broadcaster") (codes "zeros") (runs i) w).calls i
          ≡ some closed)
run_closes_example =
    run_closes (codes "broadcaster") (codes "zeros") server (serves ∷ runs 0 ∷ asks ∷ [])
      (serves ∷ []) (unfold new_server in refl) asked
