-- ===== src/Pipeline/Delivery.antt =====
-- From the changes of the stream to what a client of /events is sent and prints.
use phylax.Base.{
  ◌+◌, ◌<◌, ◌≤◌, length, word_mod, Bool-cases, Text, text_eq, List, [], ◌∷◌, ◌++◌, Error, Res, ok,
  ◌>>=◌, >>=-eq-ok, ◌≡◌, refl, sym, ◌∙◌, ap, ◌⊎◌, inl, inr, arith, append_assoc, append-nil,
}
use phylax.Change.{Change}
use phylax.Outbox.{handle}
use phylax.Broadcast.Valid.{IsValid}
use phylax.Broadcast.Publish.{publish_lem}
use phylax.Cdc.{publish_change}
use phylax.Sse.Connections
use phylax.Sse.Connections.{Connection, Handlers, Action, connects, publishes}
use phylax.Sse.Safety.{AreSound}
use phylax.Sse.Runs.{step-Steps}
use phylax.Stream.{Pglogrepl, route, to_list, ReplicationStream}
use phylax.Stream.Routing.{rows_of, route-outbox, route-other, handle-none}
use phylax.Pipeline.Traces.{
  Deed, decoded, routed, acted, actions_by, actions_of, changes_of, decoder_after,
}
use phylax.Pipeline.{publish_change_to, returned}

-- Both broadcasters are sound.
pub record BothSound {Payload : Type 0} (s : ReplicationStream Payload Handlers) : Type 0 where
  pub stream_valid : IsValid s.broadcaster
  pub sound : AreSound s.state

actions_run :
    (marshal : Change → Error ⊎ Text) (first rest : List Action) (w w1 : Handlers)
    → Connections.run marshal first w ≡ ok w1
    → Connections.run marshal (first ++ rest) w ≡ Connections.run marshal rest w1
unfolding Connections.run
actions_run marshal [] rest w w1 e = ap (λ r. r >>= Connections.run marshal rest) e
actions_run marshal (a ∷ first) rest w w1 e =
    let (w', e', e1) = >>=-eq-ok (Connections.step marshal a w) _ e in
    rw e' (actions_run marshal first rest w' w1 e1)

module _ {Payload : Type 0} (unmarshal : Text → Error ⊎ Payload) (outbox_table : Text)
    (marshal : Change → Error ⊎ Text) (lib : Pglogrepl) where
  -- What events come to: the handlers of /events have seen their actions, and the outbox has got its rows.
  pub record Played (events : List Deed) (s s' : ReplicationStream Payload Handlers) : Type 0 where
    pub played :
        Connections.run marshal (actions_of unmarshal outbox_table events) s.state ≡ ok s'.state
    pub enqueued : s'.enqueued ≡ s.enqueued ++ rows_of unmarshal outbox_table (changes_of events)
    pub are_sound : BothSound s'
    pub few : length s'.state.connections ≤ length s.state.connections + length events

  -- A step, with the decoder after it.
  abbrev pub StepsBy :
      Deed → ReplicationStream Payload Handlers → Res (ReplicationStream Payload Handlers) → Type 0
  StepsBy e s r =
      (s' : ReplicationStream Payload Handlers) × (r ≡ ok s')
      × Played (e ∷ []) s s'
      × (s'.decoder ≡ decoder_after lib s.decoder e)

  publishes_lem :
      (c : Change) (w : Handlers)
      → AreSound w
      → length w.connections + 1 < word_mod
      → (w' : Handlers) × (publish_change_to c w ≡ (w', ok tt))
        × (Connections.run marshal (publishes c ∷ []) w ≡ ok w')
        × AreSound w'
        × (length w'.connections ≤ length w.connections + 1)
  unfolding publish_change_to publish_change Connections.run Connections.step
  publishes_lem c w h small =
      let (w', e, sound, few) = step-Steps marshal (publishes c) w h tt small in
      let (b, done, _, _, _, _) = publish_lem c w.broadcaster h.valid in
      let stepped : Connections.step marshal (publishes c) w ≡ ok (record w { broadcaster = b }) =
        rw done refl in
      let same : record w { broadcaster = b } ≡ w' = cc (stepped, e) in
      let called : publish_change c w.broadcaster ≡ (b, ok tt) = rw (done, publish_change) refl in
      (
        w',
        ap (λ r. (record w { broadcaster = r.0 }, r.1)) called ∙ ap (λ x. (x, ok tt)) same,
        rw e refl,
        sound,
        few,
      )

  pub routes-Played :
      (c : Change) (s : ReplicationStream Payload Handlers)
      → BothSound s
      → length s.state.connections + 1 < word_mod
      → StepsBy (routed c) s (returned (route unmarshal outbox_table publish_change_to c s))
  unfolding rows_of
  routes-Played c s h small = elim (Bool-cases (handle unmarshal c outbox_table).0) [
    | inl claimed ↦ (
      record s { enqueued = s.enqueued ++ to_list (handle unmarshal c outbox_table).1 },
      ap returned (route-outbox unmarshal outbox_table publish_change_to c s claimed),
      record {
        played = rw claimed (unfold Connections.run in refl);
        enqueued = ap (λ rows. s.enqueued ++ rows) (sym (append-nil _));
        are_sound = record { stream_valid = h.stream_valid; sound = h.sound };
        few = omega arith;
      },
      refl,
    )
    | inr not_ours ↦
        let none_ = handle-none unmarshal outbox_table publish_change_to c not_ours in
        let (b, e, valid, _, _, _) = publish_lem c s.broadcaster h.stream_valid in
        let (w, done, seen, sound, few) = publishes_lem c s.state h.sound small in
        (
          record s { broadcaster = b; state = w },
          ap returned
              (route-other unmarshal outbox_table publish_change_to c s b w (ok tt) none_ e done),
          record {
            played = rw not_ours seen;
            enqueued = rw none_ (sym (append-nil s.enqueued));
            are_sound = record { stream_valid = valid; sound = sound };
            few = few;
          },
          refl,
        )
  ]

  rows_of-cons :
      (e : Deed) (events : List Deed)
      → rows_of unmarshal outbox_table (changes_of (e ∷ events))
        ≡ rows_of unmarshal outbox_table (changes_of (e ∷ []))
          ++ rows_of unmarshal outbox_table (changes_of events)
  unfolding rows_of
  rows_of-cons (routed c) events =
      ap (λ rows. rows ++ rows_of unmarshal outbox_table (changes_of events))
        (sym (append-nil (to_list (handle unmarshal c outbox_table).1)))
  rows_of-cons (acted a) events = refl
  rows_of-cons (decoded now x) events = refl

  pub Played-cons :
      (e : Deed) (events : List Deed) (s s1 s2 : ReplicationStream Payload Handlers)
      → Played (e ∷ []) s s1
      → Played events s1 s2
      → Played (e ∷ events) s s2
  Played-cons e events s s1 s2 p q = record {
    played =
        ap
          (λ first.
            Connections.run marshal (first ++ actions_of unmarshal outbox_table events) s.state)
          (sym (append-nil (actions_by unmarshal outbox_table e)))
        ∙ actions_run marshal (actions_by unmarshal outbox_table e ++ [])
            (actions_of unmarshal outbox_table events) s.state s1.state p.played
        ∙ q.played;
    enqueued =
        q.enqueued
        ∙ ap (λ rows. rows ++ rows_of unmarshal outbox_table (changes_of events)) p.enqueued
        ∙ append_assoc s.enqueued (rows_of unmarshal outbox_table (changes_of (e ∷ [])))
            (rows_of unmarshal outbox_table (changes_of events))
        ∙ ap (λ rows. s.enqueued ++ rows) (sym (rows_of-cons e events));
    are_sound = q.are_sound;
    few = omega (arith, p.few, q.few);
  }
