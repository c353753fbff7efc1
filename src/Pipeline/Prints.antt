-- ===== src/Pipeline/Prints.antt =====
-- From the changes of the stream to what a client of /events prints.
use phylax.Base.{
  ℕ, suc, ◌+◌, ◌<◌, ◌≤◌, length, word_mod, Bool-cases, Text, text_eq, All, All-append, get_elem?,
  List, [], ◌∷◌, ◌++◌, Option, some, Error, ok, ◌≡◌, refl, sym, ap, subst, ◌⊎◌, inl, inr, arith,
}
use phylax.Change.{Change}
use phylax.Outbox.{handle}
use phylax.Sse.Connections.{Connection, Action, connects, publishes}
use phylax.Sse.Safety.{IsForeign}
use phylax.Sse.Streams.{published_by, published_in, IsRunning, IsAlone}
use phylax.Stream.{Pglogrepl}
use phylax.Stream.Routing.{rows_of, others}
use phylax.Listener.Clients.{FitsOnLine, IsPrinted, run_prints}
use phylax.Pipeline.{Event, receives, rounds, acts, StreamLoop, run}
use phylax.Pipeline.Traces.{
  Deed, decoded, routed, acted, actions_by, actions_of, changes_of, OnAct, OnActs, AreDecoded,
  decoded_in, deeds_of, All-deeds_of, length-deeds_of,
}
use phylax.Pipeline.Delivery.{BothSound}
use phylax.Pipeline.Turns.{run-Played}

-- An action beside the stream: no other user has an id of the form "sse-n", reads the channel of the n-th
-- request, or publishes.
abbrev pub IsBeside : ℕ → Action → Type 0
IsBeside n a = IsForeign a × IsAlone n a × (published_by a ≡ [])

OnAct-All :
    (P Q : Action → Type 0) (deeds : List Deed)
    → ((a : Action) → P a → Q a)
    → All (OnAct P) deeds
    → All (OnAct Q) deeds
OnAct-All P Q [] p h = tt
OnAct-All P Q (routed c ∷ deeds) p h = (tt, OnAct-All P Q deeds p h.1)
OnAct-All P Q (decoded now x ∷ deeds) p h = (tt, OnAct-All P Q deeds p h.1)
OnAct-All P Q (acted a ∷ deeds) p h = (p a h.0, OnAct-All P Q deeds p h.1)

OnActs-All :
    (P Q : Action → Type 0) (events : List Event)
    → ((a : Action) → P a → Q a)
    → All (OnActs P) events
    → All (OnActs Q) events
OnActs-All P Q [] p h = tt
OnActs-All P Q (receives now x ∷ events) p h = (tt, OnActs-All P Q events p h.1)
OnActs-All P Q (rounds ∷ events) p h = (tt, OnActs-All P Q events p h.1)
OnActs-All P Q (acts a ∷ events) p h = (p a h.0, OnActs-All P Q events p h.1)

module _ {Payload : Type 0} (unmarshal : Text → Error ⊎ Payload) (outbox_table : Text) where
  actions_of-All :
      (P : Action → Type 0) (events : List Deed)
      → ((c : Change) → P (publishes c))
      → All (OnAct P) events
      → All P (actions_of unmarshal outbox_table events)
  actions_of-All P [] p h = tt
  actions_of-All P (decoded now x ∷ events) p h = actions_of-All P events p h.1
  actions_of-All P (acted a ∷ events) p h = (h.0, actions_of-All P events p h.1)
  actions_of-All P (routed c ∷ events) p h =
      All-append P (actions_by unmarshal outbox_table (routed c)) _
        (elim (Bool-cases (handle unmarshal c outbox_table).0) [
          | inl claimed ↦ rw claimed tt
          | inr not_ours ↦ rw not_ours (p c, tt)
        ])
        (actions_of-All P events p h.1)

  length-actions_of :
      (events : List Deed) → length (actions_of unmarshal outbox_table events) ≤ length events
  length-actions_of [] = omega arith
  length-actions_of (decoded now x ∷ events) = omega (arith, length-actions_of events)
  length-actions_of (acted a ∷ events) = omega (arith, length-actions_of events)
  length-actions_of (routed c ∷ events) = elim (Bool-cases (handle unmarshal c outbox_table).0) [
    | inl claimed ↦ rw claimed (omega (arith, length-actions_of events))
    | inr not_ours ↦ rw not_ours (omega (arith, length-actions_of events))
  ]

  -- What is published beside the stream is nothing.
  published_in-actions_of :
      (n : ℕ) (events : List Deed)
      → All (OnAct (IsBeside n)) events
      → published_in (actions_of unmarshal outbox_table events)
        ≡ others unmarshal outbox_table (changes_of events)
  unfolding others
  published_in-actions_of n [] h = refl
  published_in-actions_of n (decoded now x ∷ events) h = published_in-actions_of n events h.1
  published_in-actions_of n (acted a ∷ events) h = rw h.0.2 (published_in-actions_of n events h.1)
  published_in-actions_of n (routed c ∷ events) h =
      elim (Bool-cases (handle unmarshal c outbox_table).0) [
        | inl claimed ↦ rw claimed (published_in-actions_of n events h.1)
        | inr not_ours ↦ rw not_ours (ap (λ cs. c ∷ cs) (published_in-actions_of n events h.1))
      ]

-- Where a run of events ends, by what they come to, with the connection that a request at its start opened.
abbrev pub Reached :
    {Payload : Type 0}
    → (Text → Error ⊎ Payload)
    → Text
    → (Change → Error ⊎ Text)
    → Pglogrepl
    → StreamLoop Payload
    → List Deed
    → Option Error
    → StreamLoop Payload
    → Connection
    → Type 0
Reached unmarshal outbox_table marshal lib l deeds e l' c =
    (l.pending ++ decoded_in lib l.stream.decoder deeds ≡ changes_of deeds ++ l'.pending)
    × (l'.stream.enqueued ≡ l.stream.enqueued ++ rows_of unmarshal outbox_table (changes_of deeds))
    × (get_elem? l'.stream.state.connections (length l.stream.state.connections) ≡ some c)
    × (IsRunning c.phase
        → IsPrinted marshal l'.stream.state c (others unmarshal outbox_table (changes_of deeds)) e)

-- From a request to /events on, beside the records that the stream receives, the rounds of its loop over
-- their changes, and any other handlers and users of the client's broadcaster, in any order and with any
-- failures of these: nothing panics or ends the stream. The loop goes over the changes that the records
-- decode to, in their order, one at each of its rounds, and those it has not gone over are what is left
-- of the last record, before which no other is received; enqueue is called with the rows of the outbox's
-- inserts among them, in their order; and while the handler runs, a client whose connection ends has
-- printed exactly the JSON of the changes that it was sent, one by one and in order. With what waits in
-- its channel, these are all changes that the loop has gone over and that are not the outbox's, without
-- those that were dropped, which are counted: in every state that is reached, the next change published
-- is kept where fewer than ten wait in the channel, and dropped where ten do.
-- The conditions: both broadcasters and the handlers are sound before; each record that is received can
-- be decoded; no other user has an id of the form "sse-n", reads the handler's channel or publishes; the
-- JSON of each such change is one line that fits the client's scanner; and the requests are less than 2^64.
pub run_reaches :
    {Payload : Type 0} (unmarshal : Text → Error ⊎ Payload) (outbox_table : Text)
    (marshal : Change → Error ⊎ Text) (lib : Pglogrepl) (l : StreamLoop Payload)
    (events : List Event) (e : Option Error)
    → BothSound l.stream
    → AreDecoded lib l.stream.decoder (deeds_of lib l.stream.decoder events l.pending)
    → All (OnActs (IsBeside (suc (length l.stream.state.connections)))) events
    → length l.stream.state.connections + suc (length events) < word_mod
    → All (FitsOnLine marshal) (
        others unmarshal outbox_table (changes_of (deeds_of lib l.stream.decoder events l.pending)))
    → (l' : StreamLoop Payload) × (c : Connection) × (run unmarshal outbox_table marshal lib
          (acts connects ∷ events)
          l
        ≡ ok l')
      × Reached unmarshal outbox_table marshal lib l
          (deeds_of lib l.stream.decoder events l.pending)
          e
          l'
          c
run_reaches unmarshal outbox_table marshal lib l events e h dec beside small fits =
    let s = l.stream in
    let n = suc (length s.state.connections) in
    let deeds = deeds_of lib s.decoder events l.pending in
    let acts_beside = All-deeds_of (IsBeside n) lib s.decoder events l.pending beside in
    let foreign = OnAct-All (IsBeside n) IsForeign deeds (λ a k. k.0) acts_beside in
    let alone = OnAct-All (IsBeside n) (IsAlone n) deeds (λ a k. k.1) acts_beside in
    let actions = actions_of unmarshal outbox_table deeds in
    let published = published_in-actions_of unmarshal outbox_table n deeds acts_beside in
    let (l', done, p, over) =
      run-Played unmarshal outbox_table marshal lib (acts connects ∷ events) s.decoder l.pending s
        refl h (tt, OnActs-All (IsBeside n) IsForeign events (λ a k. k.0) beside)
        (omega (arith, small)) (tt, dec) in
    let (w, c, played, at, prints) =
      run_prints marshal s.state actions e h.sound
        (actions_of-All unmarshal outbox_table IsForeign deeds (λ c. tt) foreign)
        (actions_of-All unmarshal outbox_table (IsAlone n) deeds (λ c. tt) alone)
        (omega (
          arith,
          small,
          length-actions_of unmarshal outbox_table deeds,
          length-deeds_of lib s.decoder events l.pending,
        ))
        (subst (All (FitsOnLine marshal)) (sym published) fits) in
    let same : w ≡ l'.stream.state = cc (played, p.played) in
    (
      l',
      c,
      done,
      (
        over,
        p.enqueued,
        rw (sym same) at,
        λ running.
            subst (λ cs. IsPrinted marshal l'.stream.state c cs e) published
              (subst (λ x. IsPrinted marshal x c (published_in actions) e) same (prints running)),
      ),
    )
