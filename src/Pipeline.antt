-- ===== src/Pipeline.antt =====
-- The stream of stream.go, the client's publishChange of cdc.go and the handlers of /events of sse.go on
-- one broadcaster, the client's. The records that the stream receives, the rounds of its loop over the
-- changes of a record and the handlers' actions interleave: an interleaving is a list of events.
pub mod Traces
pub mod Delivery
pub mod Turns
pub mod Prints
mod Examples
use phylax.Base.{
  ℕ, codes, wrap, ◌≡◌, Text, List, [], ◌∷◌, Error, Res, ok, err, panic, ◌>>=◌, ◌⊎◌, refl, ap, map,
}
use phylax.Change.{Change}
use phylax.Broadcast.{Broadcaster}
use phylax.Cdc.{publish_change}
use phylax.Sse.Connections
use phylax.Sse.Connections.{Handlers, Action}
use phylax.Decode.{Decoder, decode}
use phylax.Stream.{
  ReplicationStream, XLogData, Pglogrepl, received_data, on_xlog_data, and_then, route, route_all,
}

-- The stream's ChangeHandler is publishChange on the broadcaster that the handlers of /events share.
unfoldable pub publish_change_to : Change → Handlers → Handlers × Res (Unit {0})
unfolding publish_change
publish_change_to change w =
    let (b, r) = publish_change change w.broadcaster in (record w { broadcaster = b }, r)

-- The stream receives a record and decodes it; its loop goes over the next of the record's changes; an
-- action of the handlers, or of another user of the broadcaster, beside it.
pub data Event : Type 0 where
  receives : ℕ → XLogData → Event
  rounds : Event
  acts : Action → Event

-- The stream, with the changes of the last record that its loop has not gone over yet.
pub record StreamLoop (Payload : Type 0) : Type 0 where
  pub stream : ReplicationStream Payload Handlers
  pub pending : List Change

abbrev pub returned {ℓ} : {A : Type ℓ} → A × Res (Unit {0}) → Res A
returned (a, ok done) = ok a
returned (a, err e) = err e
returned (a, panic) = panic

-- A record that cannot be decoded ends the stream.
abbrev pub after_decode : Res (List Change) → Res (List Change)
after_decode (ok changes) = ok changes
after_decode (err e) = err (wrap (codes "decoding WAL data") e)
after_decode panic = panic

module _ {Payload : Type 0} (unmarshal : Text → Error ⊎ Payload) (outbox_table : Text)
    (marshal : Change → Error ⊎ Text) (lib : Pglogrepl) where
  -- The stream when it has decoded a record.
  abbrev pub decoded_stream :
      ℕ
      → XLogData
      → Decoder
      → ReplicationStream Payload Handlers
      → ReplicationStream Payload Handlers
  decoded_stream now x d s =
      record (received_data unmarshal outbox_table publish_change_to lib now x s) { decoder = d }

  -- The goroutine of the stream takes a turn: it receives a record only when its loop has ended, and goes
  -- over the next change only when one is left; a turn that is not its to take changes nothing.
  abbrev pub received_record :
      ℕ → XLogData → ReplicationStream Payload Handlers → List Change → Res (StreamLoop Payload)
  received_record now x s (c ∷ rest) = ok (record { stream = s; pending = c ∷ rest })
  received_record now x s [] =
      let (d, r) = decode lib.parse s.decoder x.wal_data in
      do
        changes ← after_decode r
        ok (record { stream = decoded_stream now x d s; pending = changes })

  abbrev pub round : ReplicationStream Payload Handlers → List Change → Res (StreamLoop Payload)
  round s [] = ok (record { stream = s; pending = [] })
  round s (c ∷ rest) = do
    s' ← returned (route unmarshal outbox_table publish_change_to c s)
    ok (record { stream = s'; pending = rest })

  unfoldable pub step : Event → StreamLoop Payload → Res (StreamLoop Payload)
  unfolding route publish_change_to
  step (receives now x) l = received_record now x l.stream l.pending
  step rounds l = round l.stream l.pending
  step (acts a) l = do
    w ← Connections.step marshal a l.stream.state
    let s : ReplicationStream Payload Handlers = record l.stream { state = w }
    ok (record l { stream = s })

  unfoldable pub run : List Event → StreamLoop Payload → Res (StreamLoop Payload)
  unfolding step
  run [] l = ok l
  run (e ∷ events) l = do l ← step e l; run events l

  -- The loop has ended, or else the error has ended the stream.
  abbrev looped : Res (ReplicationStream Payload Handlers) → Res (StreamLoop Payload)
  looped r = do s ← r; ok (record { stream = s; pending = [] })

  -- The rounds of the loop, with nothing beside them, are the loop of the stream.
  pub run-route_all :
      (changes : List Change) (s : ReplicationStream Payload Handlers)
      → run (map (λ c. rounds) changes) (record { stream = s; pending = changes })
        ≡ looped (returned (route_all unmarshal outbox_table publish_change_to changes s))
  unfolding run step route_all
  run-route_all [] s = refl
  run-route_all (c ∷ cs) s =
      by_route (λ s'. run-route_all cs s') (route unmarshal outbox_table publish_change_to c s)
    where
      by_route :
          ((s' : ReplicationStream Payload Handlers)
            → run (map (λ c. rounds) cs) (record { stream = s'; pending = cs })
              ≡ looped (returned (route_all unmarshal outbox_table publish_change_to cs s')))
          → (r : ReplicationStream Payload Handlers × Res (Unit {0}))
          → ((returned r >>= λ s'. ok (record { stream = s'; pending = cs }))
              >>= run (map (λ c. rounds) cs))
            ≡ looped (
                returned
                  (and_then r (λ s'. route_all unmarshal outbox_table publish_change_to cs s')))
      by_route later (s', ok done) = later s'
      by_route later (s', err e) = refl
      by_route later (s', panic) = refl

  -- A record, with nothing beside it, is the handling of a record.
  pub run-on_xlog_data :
      (now : ℕ) (x : XLogData) (d : Decoder) (changes : List Change)
      (s : ReplicationStream Payload Handlers)
      → decode lib.parse s.decoder x.wal_data ≡ (d, ok changes)
      → run (receives now x ∷ map (λ c. rounds) changes) (record { stream = s; pending = [] })
        ≡ looped (returned (on_xlog_data unmarshal outbox_table publish_change_to lib now s (ok x)))
  unfolding run step on_xlog_data
  run-on_xlog_data now x d changes s e = rw e (run-route_all changes (decoded_stream now x d s))
