-- ===== src/Sse/Streams/Sent.antt =====
-- Every step keeps a connection fed.
use phylax.Base.{
  ℕ, suc, ◌+◌, ◌<◌, add64, word_mod, Text, text_eq, lookup, length, get_elem?-lt,
  get_elem?-append_left, All, List, [], ◌∷◌, ◌++◌, append-nil, append_assoc, Option-cases, Error,
  ok, ◌≡◌, ◌≢◌, refl, sym, ◌∙◌, subst, ◌⊎◌, inl, inr, arith,
}
use phylax.Change.{Change}
use phylax.Broadcast.{entries}
use phylax.Broadcast.Valid.{Live-lookup}
use phylax.Broadcast.Entries.{subscribe-Keeps, unsubscribe-Keeps, publish-Keeps, receive-Keeps}
use phylax.Broadcast.History.{Op}
use phylax.Sse.Connections.{
  opening, Connection, Handlers, Action, connects, refuses, greets, sends, pings, disconnects,
  unsubscribes, subscribes, drops, publishes, reads, subscriber_id, connect, channel_of, step, run,
}
use phylax.Sse.Safety.{AreSound, IsForeign, subscriber_id-injective}
use phylax.Sse.Runs.{step-Steps}
use phylax.Sse.Streams.{published_by, published_in, IsAlone, IsFed}
use phylax.Sse.Streams.Follows.{
  op-Follows, other_read, noted, subscribes-History, unsubscribes-History, publishes-History,
}
use phylax.Sse.Streams.Feeds.{Feeds, kept-IsFed}
use phylax.Sse.Streams.Feeds.Others.{handler-Feeds}

module _ (marshal : Change → Error ⊎ Text) (i : ℕ) (w : Handlers) (taken : List (ℕ × Change))
    (published : List Change) (h : AreSound w) (f : IsFed i published taken w) where
  own_id : f.c.id ≡ subscriber_id (suc i)
  own_id = (h.each i f.c f.at).known

  connects-Feeds :
      length w.connections + 1 < word_mod → Feeds i published connects (step marshal connects w)
  unfolding step connect
  connects-Feeds small =
      let n = suc (length w.connections) in
      let next : add64 w.next_subscriber_id 1 ≡ n = omega (arith, h.numbered) in
      let (b, done, _, _) = subscribe-Keeps (subscriber_id n) 10 w.broadcaster h.valid in
      let c : Connection = record {
        id = subscriber_id n;
        ch = length w.broadcaster.heap;
        phase = opening;
        written = [];
      } in
      let lt = get_elem?-lt w.connections i f.at in
      let ne : subscriber_id n ≢ f.c.id =
        λ same. omega (arith, lt, subscriber_id-injective n (suc i) (same ∙ own_id)) in
      (
        record { broadcaster = b; next_subscriber_id = n; connections = w.connections ++ c ∷ [] },
        taken,
        rw (next, done) refl,
        record {
          c = f.c;
          at = get_elem?-append_left w.connections (c ∷ []) i lt ∙ f.at;
          fed = λ run_.
              op-Follows (Op.subscribes (subscriber_id n) 10) f.c w.broadcaster b taken taken
                published h.valid (ne, tt)
                (subscribes-History (subscriber_id n) 10 _ w.broadcaster b taken done) refl
                (f.fed run_);
        },
      )

  reads-Feeds :
      (id : Text)
      → id ≢ subscriber_id (suc i)
      → Feeds i published (reads id) (step marshal (reads id) w)
  unfolding step
  reads-Feeds id alone = elim (Option-cases (lookup id (entries w.broadcaster.subscribers))) [
    | inl e ↦
        rw (e, channel_of)
          (w, taken, refl, kept-IsFed marshal i w taken published h (reads id) refl f)
    | inr (sub, e) ↦
        let (b, r, done, _, _) =
          receive-Keeps sub.ch w.broadcaster h.valid
            (Live-lookup w.broadcaster.heap id sub (entries w.broadcaster.subscribers) h.valid e) in
        (
          record w { broadcaster = b },
          noted taken sub.ch r,
          rw (e, channel_of, done) refl,
          record {
            c = f.c;
            at = f.at;
            fed = λ run_.
                other_read f.c w.broadcaster b id sub.ch r taken published h.valid (sub, e, refl)
                  (λ same. alone (same ∙ own_id)) done (f.fed run_);
          },
        )
  ]

  step-Feeds :
      (a : Action)
      → IsForeign a
      → IsAlone (suc i) a
      → length w.connections + 1 < word_mod
      → Feeds i published a (step marshal a w)
  unfolding step
  step-Feeds connects g alone small = connects-Feeds small
  step-Feeds refuses g alone small =
      (w, taken, refl, kept-IsFed marshal i w taken published h refuses refl f)
  step-Feeds (greets j answer) g alone small =
      handler-Feeds marshal i w taken published h (greets j answer) j refl f
  step-Feeds (sends j answer) g alone small =
      handler-Feeds marshal i w taken published h (sends j answer) j refl f
  step-Feeds (pings j answer) g alone small =
      handler-Feeds marshal i w taken published h (pings j answer) j refl f
  step-Feeds (disconnects j) g alone small =
      handler-Feeds marshal i w taken published h (disconnects j) j refl f
  step-Feeds (unsubscribes j) g alone small =
      handler-Feeds marshal i w taken published h (unsubscribes j) j refl f
  step-Feeds (subscribes id size) g alone small =
      let (b, done, _, _) = subscribe-Keeps id size w.broadcaster h.valid in
      (
        record w { broadcaster = b },
        taken,
        rw done refl,
        record {
          c = f.c;
          at = f.at;
          fed = λ run_.
              op-Follows (Op.subscribes id size) f.c w.broadcaster b taken taken published h.valid
                (λ same. g (suc i) (same ∙ own_id), tt)
                (subscribes-History id size _ w.broadcaster b taken done) refl (f.fed run_);
        },
      )
  step-Feeds (drops id) g alone small =
      let (b, done, _, _) = unsubscribe-Keeps id w.broadcaster h.valid in
      (
        record w { broadcaster = b },
        taken,
        rw done refl,
        record {
          c = f.c;
          at = f.at;
          fed = λ run_.
              op-Follows (Op.unsubscribes id) f.c w.broadcaster b taken taken published h.valid
                (λ same. g (suc i) (same ∙ own_id), tt)
                (unsubscribes-History id w.broadcaster b taken done) refl (f.fed run_);
        },
      )
  step-Feeds (publishes x) g alone small =
      let (b, done, _) = publish-Keeps x w.broadcaster h.valid in
      (
        record w { broadcaster = b },
        taken,
        rw done refl,
        record {
          c = f.c;
          at = f.at;
          fed = λ run_.
              op-Follows (Op.publishes x) f.c w.broadcaster b taken taken published h.valid tt
                (publishes-History x w.broadcaster b taken done) refl (f.fed run_);
        },
      )
  step-Feeds (reads id) g alone small = reads-Feeds id alone

module _ (marshal : Change → Error ⊎ Text) (i : ℕ) where
  pub run-Feeds :
      (actions : List Action) (w : Handlers) (taken : List (ℕ × Change)) (published : List Change)
      → AreSound w
      → IsFed i published taken w
      → All IsForeign actions
      → All (IsAlone (suc i)) actions
      → length w.connections + length actions < word_mod
      → (w' : Handlers) × (taken' : List (ℕ × Change)) × (run marshal actions w ≡ ok w')
        × AreSound w'
        × IsFed i (published ++ published_in actions) taken' w'
  unfolding run
  run-Feeds [] w taken published h f g alone small =
      (w, taken, refl, h, subst (λ p. IsFed i p taken w) (sym (append-nil published)) f)
  run-Feeds (a ∷ actions) w taken published h f g alone small =
      let (w1, e1, h1, few) = step-Steps marshal a w h g.0 (omega (arith, small)) in
      let (w1', taken1, e1', f1) =
        step-Feeds marshal i w taken published h f a g.0 alone.0 (omega (arith, small)) in
      let same : w1' ≡ w1 = cc (e1, e1') in
      let (w2, taken2, e2, h2, f2) =
        run-Feeds actions w1 taken1 (published ++ published_by a) h1
          (subst (λ w. IsFed i (published ++ published_by a) taken1 w) same f1) g.1 alone.1
          (omega (arith, few, small)) in
      (
        w2,
        taken2,
        rw e1 e2,
        h2,
        subst (λ p. IsFed i p taken2 w2)
            (append_assoc published (published_by a) (published_in actions)) f2,
      )
