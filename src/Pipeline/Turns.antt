-- ===== src/Pipeline/Turns.antt =====
-- The turns of the stream and of the handlers of /events, over any interleaving.
use phylax.Base.{
  ℕ, ◌+◌, ◌<◌, length, word_mod, Text, text_eq, All, List, [], ◌∷◌, ◌++◌, Error, Res, ok, ◌≡◌, refl,
  sym, ◌∙◌, ap, ◌⊎◌, arith, append-nil,
}
use phylax.Change.{Change}
use phylax.Sse.Connections
use phylax.Sse.Connections.{Connection, Handlers, Action, connects, publishes}
use phylax.Sse.Safety.{IsForeign}
use phylax.Sse.Runs.{step-Steps}
use phylax.Decode.{Decoder, decode}
use phylax.Stream.{Pglogrepl, XLogData, ReplicationStream}
use phylax.Stream.Routing.{rows_of}
use phylax.Pipeline.Traces.{
  Deed, decoded, routed, acted, changes_in, decoded_in, deeds_of, OnActs, changes_of, AreDecoded,
}
use phylax.Pipeline.Delivery.{BothSound, Played, routes-Played, Played-cons}
use phylax.Pipeline.{
  Event, receives, rounds, acts, StreamLoop, decoded_stream, received_record, step, run,
}

module _ {Payload : Type 0} (unmarshal : Text → Error ⊎ Payload) (outbox_table : Text)
    (marshal : Change → Error ⊎ Text) (lib : Pglogrepl) where
  acts-Played :
      (a : Action) (s : ReplicationStream Payload Handlers)
      → BothSound s
      → IsForeign a
      → length s.state.connections + 1 < word_mod
      → (w : Handlers) × (Connections.step marshal a s.state ≡ ok w)
        × Played unmarshal outbox_table marshal lib (acted a ∷ []) s (record s { state = w })
  unfolding rows_of Connections.run
  acts-Played a s h f small =
      let (w, e, sound, few) = step-Steps marshal a s.state h.sound f small in
      (
        w,
        e,
        record {
          played = rw e refl;
          enqueued = sym (append-nil s.enqueued);
          are_sound = record { stream_valid = h.stream_valid; sound = sound };
          few = few;
        },
      )

  decodes-Played :
      (now : ℕ) (x : XLogData) (d : Decoder) (s : ReplicationStream Payload Handlers)
      → BothSound s
      → Played unmarshal outbox_table marshal lib
          (decoded now x ∷ [])
          s
          (decoded_stream unmarshal outbox_table marshal lib now x d s)
  unfolding rows_of Connections.run
  decodes-Played now x d s h = record {
    played = refl;
    enqueued = sym (append-nil s.enqueued);
    are_sound = record { stream_valid = h.stream_valid; sound = h.sound };
    few = omega arith;
  }

  received_record-decoded :
      (now : ℕ) (x : XLogData) (d : Decoder) (changes : List Change)
      (s : ReplicationStream Payload Handlers)
      → s.decoder ≡ d
      → (decode lib.parse d x.wal_data).1 ≡ ok changes
      → received_record unmarshal outbox_table marshal lib now x s []
        ≡ ok (record {
          stream =
              decoded_stream unmarshal outbox_table marshal lib now x
                (decode lib.parse d x.wal_data).0
                s;
          pending = changes_in (decode lib.parse d x.wal_data).1;
        })
  received_record-decoded now x d changes s h e = rw (h, e) refl

  -- What the loop has gone over and what it has left are together what was decoded.
  abbrev GoesOver : Decoder → List Change → List Deed → List Change → Type 0
  GoesOver d pending deeds left = pending ++ decoded_in lib d deeds ≡ changes_of deeds ++ left

  abbrev PlayedBy :
      Decoder
      → List Change
      → List Deed
      → ReplicationStream Payload Handlers
      → Res (StreamLoop Payload)
      → Type 0
  PlayedBy d pending deeds s r =
      (l : StreamLoop Payload) × (r ≡ ok l)
      × Played unmarshal outbox_table marshal lib deeds s l.stream
      × GoesOver d pending deeds l.pending

  -- One deed, and the others.
  PlayedBy-cons :
      (e : Deed) (deeds : List Deed) (d d1 : Decoder) (pending pending1 : List Change)
      (s s1 : ReplicationStream Payload Handlers) (r : Res (StreamLoop Payload))
      → Played unmarshal outbox_table marshal lib (e ∷ []) s s1
      → ((left : List Change)
          → GoesOver d1 pending1 deeds left
          → GoesOver d pending (e ∷ deeds) left)
      → PlayedBy d1 pending1 deeds s1 r
      → PlayedBy d pending (e ∷ deeds) s r
  PlayedBy-cons e deeds d d1 pending pending1 s s1 r p over (l, done, q, g) = (
    l,
    done,
    Played-cons unmarshal outbox_table marshal lib e deeds s s1 l.stream p q,
    over l.pending g,
  )

  pub run-Played :
      (events : List Event) (d : Decoder) (pending : List Change)
      (s : ReplicationStream Payload Handlers)
      → s.decoder ≡ d
      → BothSound s
      → All (OnActs IsForeign) events
      → length s.state.connections + length events < word_mod
      → AreDecoded lib d (deeds_of lib d events pending)
      → PlayedBy d pending
          (deeds_of lib d events pending)
          s
          (run unmarshal outbox_table marshal lib events (record { stream = s; pending = pending }))
  unfolding run step rows_of Connections.run
  run-Played [] d pending s at h f small dec = (
    record { stream = s; pending = pending },
    refl,
    record {
      played = refl;
      enqueued = sym (append-nil s.enqueued);
      are_sound = h;
      few = omega arith;
    },
    append-nil pending,
  )
  run-Played (receives now x ∷ events) d (c ∷ pending) s at h f small dec =
      run-Played events d (c ∷ pending) s at h f.1 (omega (arith, small)) dec
  run-Played (receives now x ∷ events) d [] s at h f small ((changes, e), dec) =
      let d1 = (decode lib.parse d x.wal_data).0 in
      let left = changes_in (decode lib.parse d x.wal_data).1 in
      let s1 = decoded_stream unmarshal outbox_table marshal lib now x d1 s in
      let p = decodes-Played now x d1 s h in
      rw (received_record-decoded now x d changes s at e) (
        PlayedBy-cons (decoded now x) (deeds_of lib d1 events left) d d1 [] left s s1 _ p
          (λ left g. g)
          (run-Played events d1 left s1 refl p.are_sound f.1 (omega (arith, small)) dec))
  run-Played (rounds ∷ events) d [] s at h f small dec =
      run-Played events d [] s at h f.1 (omega (arith, small)) dec
  run-Played (rounds ∷ events) d (c ∷ pending) s at h f small dec =
      let (s1, done, p, same) =
        routes-Played unmarshal outbox_table marshal lib c s h (omega (arith, small)) in
      rw done (
        PlayedBy-cons (routed c) (deeds_of lib d events pending) d d (c ∷ pending) pending s s1 _ p
          (λ left g. ap (λ cs. c ∷ cs) g)
          (run-Played events d pending s1 (same ∙ at) p.are_sound f.1 (omega (arith, p.few, small))
            dec.1))
  run-Played (acts a ∷ events) d pending s at h f small dec =
      let (w, done, p) = acts-Played a s h f.0 (omega (arith, small)) in
      rw done (
        PlayedBy-cons (acted a) (deeds_of lib d events pending) d d pending pending s
          (record s { state = w }) _ p (λ left g. g)
          (run-Played events d pending (record s { state = w }) at p.are_sound f.1
            (omega (arith, p.few, small)) dec.1))
