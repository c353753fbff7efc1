-- ===== src/Pipeline/Traces.antt =====
-- What a list of events is: the actions that the handlers of /events see, the changes that the loop goes over,
-- and the records, with the decoder between them.
use phylax.Base.{
  All, length, ◌≤◌, arith, ℕ, if◌then◌else◌, Text, text_eq, List, [], ◌∷◌, ◌++◌, Error, Res, ok,
  ◌≡◌, ◌⊎◌,
}
use phylax.Change.{Change}
use phylax.Outbox.{handle}
use phylax.Sse.Connections.{Action, publishes}
use phylax.Decode.{Decoder, decode}
use phylax.Stream.{Pglogrepl, XLogData}
use phylax.Pipeline.{Event, receives, rounds, acts}

-- What an event comes to: a record was decoded, the loop went over a change, or an action was done.
pub data Deed : Type 0 where
  decoded : ℕ → XLogData → Deed
  routed : Change → Deed
  acted : Action → Deed

module _ {Payload : Type 0} (unmarshal : Text → Error ⊎ Payload) (outbox_table : Text) where
  -- What the handlers of /events see of the events.
  abbrev pub actions_by : Deed → List Action
  actions_by (routed c) = if (handle unmarshal c outbox_table).0 then [] else publishes c ∷ []
  actions_by (acted a) = a ∷ []
  actions_by (decoded now x) = []

  abbrev pub actions_of : List Deed → List Action
  actions_of [] = []
  actions_of (e ∷ events) = actions_by e ++ actions_of events

-- The changes that the stream's loop went over.
abbrev pub changes_of : List Deed → List Change
changes_of [] = []
changes_of (routed c ∷ events) = c ∷ changes_of events
changes_of (acted a ∷ events) = changes_of events
changes_of (decoded now x ∷ events) = changes_of events

-- What holds of the actions beside the stream.
abbrev pub OnAct : (Action → Type 0) → Deed → Type 0
OnAct P (routed c) = Unit
OnAct P (acted a) = P a
OnAct P (decoded now x) = Unit

-- The decoder after an event.
abbrev pub decoder_after : Pglogrepl → Decoder → Deed → Decoder
decoder_after lib d (decoded now x) = (decode lib.parse d x.wal_data).0
decoder_after lib d e = d

-- Every record can be decoded.
abbrev pub IsDecoded : Pglogrepl → Decoder → Deed → Type 0
IsDecoded lib d (decoded now x) =
    (changes : List Change) × ((decode lib.parse d x.wal_data).1 ≡ ok changes)
IsDecoded lib d e = Unit

abbrev pub AreDecoded : Pglogrepl → Decoder → List Deed → Type 0
AreDecoded lib d [] = Unit
AreDecoded lib d (e ∷ events) = IsDecoded lib d e × AreDecoded lib (decoder_after lib d e) events

-- The changes that the records decode to.
abbrev pub changes_in : Res (List Change) → List Change
changes_in (ok changes) = changes
changes_in r = []

abbrev pub decoded_in : Pglogrepl → Decoder → List Deed → List Change
decoded_in lib d [] = []
decoded_in lib d (decoded now x ∷ events) =
    changes_in (decode lib.parse d x.wal_data).1
    ++ decoded_in lib (decoder_after lib d (decoded now x)) events
decoded_in lib d (routed c ∷ events) = decoded_in lib d events
decoded_in lib d (acted a ∷ events) = decoded_in lib d events

-- What events come to, from this decoder on and with these changes left: the loop goes over the changes of
-- a record in their order, and the next record is received when none is left.
abbrev pub deeds_of : Pglogrepl → Decoder → List Event → List Change → List Deed
deeds_of lib d [] pending = []
deeds_of lib d (receives now x ∷ events) [] =
    decoded now x
    ∷ deeds_of lib (decode lib.parse d x.wal_data).0 events
        (changes_in (decode lib.parse d x.wal_data).1)
deeds_of lib d (receives now x ∷ events) (c ∷ pending) = deeds_of lib d events (c ∷ pending)
deeds_of lib d (rounds ∷ events) [] = deeds_of lib d events []
deeds_of lib d (rounds ∷ events) (c ∷ pending) = routed c ∷ deeds_of lib d events pending
deeds_of lib d (acts a ∷ events) pending = acted a ∷ deeds_of lib d events pending

-- What holds of the actions among events.
abbrev pub OnActs : (Action → Type 0) → Event → Type 0
OnActs P (receives now x) = Unit
OnActs P rounds = Unit
OnActs P (acts a) = P a

pub All-deeds_of :
    (P : Action → Type 0) (lib : Pglogrepl) (d : Decoder) (events : List Event)
    (pending : List Change)
    → All (OnActs P) events
    → All (OnAct P) (deeds_of lib d events pending)
All-deeds_of P lib d [] pending h = tt
All-deeds_of P lib d (receives now x ∷ events) [] h = (
  tt,
  All-deeds_of P lib (decode lib.parse d x.wal_data).0 events
      (changes_in (decode lib.parse d x.wal_data).1) h.1,
)
All-deeds_of P lib d (receives now x ∷ events) (c ∷ pending) h =
    All-deeds_of P lib d events (c ∷ pending) h.1
All-deeds_of P lib d (rounds ∷ events) [] h = All-deeds_of P lib d events [] h.1
All-deeds_of P lib d (rounds ∷ events) (c ∷ pending) h =
    (tt, All-deeds_of P lib d events pending h.1)
All-deeds_of P lib d (acts a ∷ events) pending h = (h.0, All-deeds_of P lib d events pending h.1)

pub length-deeds_of :
    (lib : Pglogrepl) (d : Decoder) (events : List Event) (pending : List Change)
    → length (deeds_of lib d events pending) ≤ length events
length-deeds_of lib d [] pending = omega arith
length-deeds_of lib d (receives now x ∷ events) [] = omega (
  arith,
  length-deeds_of lib (decode lib.parse d x.wal_data).0 events
      (changes_in (decode lib.parse d x.wal_data).1),
)
length-deeds_of lib d (receives now x ∷ events) (c ∷ pending) =
    omega (arith, length-deeds_of lib d events (c ∷ pending))
length-deeds_of lib d (rounds ∷ events) [] = omega (arith, length-deeds_of lib d events [])
length-deeds_of lib d (rounds ∷ events) (c ∷ pending) =
    omega (arith, length-deeds_of lib d events pending)
length-deeds_of lib d (acts a ∷ events) pending =
    omega (arith, length-deeds_of lib d events pending)
