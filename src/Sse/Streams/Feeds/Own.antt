-- ===== src/Sse/Streams/Feeds/Own.antt =====
-- The connection follows what is published over the steps of its own handler.
use phylax.Base.{
  ℕ, Text, text_eq, get_elem?, List, [], ◌∷◌, ◌++◌, Option, some, Error, ok, ◌≡◌, ◌≢◌, refl, subst,
  ◌⊎◌,
}
use phylax.Change.{Change}
use phylax.Broadcast.{Broadcaster, entries, receive, Received}
use phylax.Broadcast.Valid.{IsOpen, Live-lookup}
use phylax.Broadcast.Entries.{unsubscribe-Keeps, receive-Keeps}
use phylax.Sse.{greeting, ping}
use phylax.Sse.Connections.{
  Phase, opening, streaming, leaving, ended, Connection, Handlers, Action, greets, sends, pings,
  disconnects, unsubscribes, put, received, handler_step,
}
use phylax.Sse.Safety.{AreSound}
use phylax.Sse.Streams.{published_by, IsRunning, Follows}
use phylax.Sse.Streams.Follows.{wrote-Follows, marshalled-Follows}
use phylax.Sse.Streams.Feeds.{Feeds, still-Follows, put-IsFed}

module _ (marshal : Change → Error ⊎ Text) (i : ℕ) (w : Handlers) (taken : List (ℕ × Change))
    (published : List Change) (h : AreSound w) where
  own_sends :
      (j : ℕ) (answer : Option Error) (c : Connection)
      → get_elem? w.connections i ≡ some c
      → c.phase ≡ streaming
      → Follows c w.broadcaster taken published
      → Feeds i published (sends j answer) (handler_step marshal (sends j answer) i c streaming w)
  unfolding handler_step
  own_sends j answer c at p f =
      let (sub, e, q) = (h.each i c at).live (λ r. cc) in
      let open_ : IsOpen w.broadcaster.heap c.ch =
        subst (IsOpen w.broadcaster.heap) q
          (Live-lookup w.broadcaster.heap c.id sub (entries w.broadcaster.subscribers) h.valid e) in
      let (b, r, done, _, not_finished) = receive-Keeps c.ch w.broadcaster h.valid open_ in
      rw done (by_result b r open_ done not_finished)
    where
      by_result :
          (b : Broadcaster) (r : Received)
          → IsOpen w.broadcaster.heap c.ch
          → receive c.ch w.broadcaster ≡ ok (b, r)
          → r ≢ Received.finished
          → Feeds i published (sends j answer) (ok (received marshal w i c answer (b, r)))
      by_result b (Received.change x) o done n = (
        _,
        taken ++ (c.ch, x) ∷ [],
        refl,
        put-IsFed w b i c _ _ _ at (
            marshalled-Follows c x answer (marshal x) w.broadcaster b taken published h.valid o done
              f),
      )
      by_result b Received.finished o done n = absurd (n refl)
      by_result b Received.blocked o done n = (
        w,
        taken,
        refl,
        record {
          c = c;
          at = at;
          fed = λ run_. still-Follows c w.broadcaster taken published [] refl f;
        },
      )

  -- A step of the connection's own handler.
  pub own-Feeds :
      (a : Action) (c : Connection) (phase : Phase)
      → published_by a ≡ []
      → get_elem? w.connections i ≡ some c
      → c.phase ≡ phase
      → (IsRunning phase → Follows c w.broadcaster taken published)
      → Feeds i published a (handler_step marshal a i c phase w)
  unfolding handler_step
  own-Feeds (greets j answer) c opening n at p f = (
    _,
    taken,
    refl,
    put-IsFed w w.broadcaster i c _ taken _ at
        (wrote-Follows c greeting answer w.broadcaster taken published refl (f tt)),
  )
  own-Feeds (sends j answer) c streaming n at p f = own_sends j answer c at p (f tt)
  own-Feeds (pings j answer) c streaming n at p f = (
    _,
    taken,
    refl,
    put-IsFed w w.broadcaster i c _ taken _ at
        (wrote-Follows c ping answer w.broadcaster taken published refl (f tt)),
  )
  own-Feeds (disconnects j) c streaming n at p f =
      (_, taken, refl, put-IsFed w w.broadcaster i c _ taken _ at (λ run_. absurd run_))
  own-Feeds (unsubscribes j) c leaving n at p f =
      let (b, done, _, _) = unsubscribe-Keeps c.id w.broadcaster h.valid in
      let c' : Connection = record c { phase = ended } in
      (
        put (record w { broadcaster = b }) i c',
        taken,
        rw done refl,
        put-IsFed w b i c c' taken (published ++ []) at (λ run_. absurd run_),
      )
  own-Feeds a c phase n at p f = (
    w,
    taken,
    refl,
    record {
      c = c;
      at = at;
      fed = λ run_.
          still-Follows c w.broadcaster taken published (published_by a) n
            (f (subst IsRunning p run_));
    },
  )
