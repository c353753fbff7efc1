-- ===== src/Sse/Streams/Feeds/Others.antt =====
-- The connection follows what is published over the steps of other handlers.
use phylax.Base.{
  ℕ, suc, Text, text_eq, get_elem?, List, [], ◌++◌, Option, Option-cases, some, some_inj, Error, ok,
  ◌≡◌, ◌≢◌, refl, sym, ◌∙◌, subst, ◌⊎◌, inl, inr, arith, ℕ_discrete,
}
use phylax.Change.{Change}
use phylax.Broadcast.{Broadcaster, entries, receive, Received}
use phylax.Broadcast.Valid.{IsOpen, Live-lookup}
use phylax.Broadcast.Entries.{HasEntry, unsubscribe-Keeps, receive-Keeps}
use phylax.Broadcast.History.{Op}
use phylax.Sse.Connections.{
  Phase, opening, streaming, leaving, ended, Connection, Handlers, Action, greets, sends, pings,
  disconnects, unsubscribes, put, received, handler_step, handler_at,
}
use phylax.Sse.Safety.{AreSound, subscriber_id-injective}
use phylax.Sse.Streams.{published_by, IsRunning, Follows, IsFed}
use phylax.Sse.Streams.Follows.{op-Follows, other_read, noted, unsubscribes-History}
use phylax.Sse.Streams.Feeds.{Feeds, still-Follows, other-IsFed, kept-IsFed}
use phylax.Sse.Streams.Feeds.Own.{own-Feeds}

module _ (marshal : Change → Error ⊎ Text) (i : ℕ) (w : Handlers) (taken : List (ℕ × Change))
    (published : List Change) (h : AreSound w) where
  -- Ids of different connections.
  ids_differ :
      (j : ℕ) (c d : Connection)
      → get_elem? w.connections i ≡ some c
      → get_elem? w.connections j ≡ some d
      → j ≢ i
      → d.id ≢ c.id
  ids_differ j c d at at' ne same = omega (
    arith,
    ne,
    subscriber_id-injective (suc j) (suc i)
        (sym (h.each j d at').known ∙ same ∙ (h.each i c at).known),
  )

  other_sends :
      (j k : ℕ) (answer : Option Error) (d : Connection)
      → IsFed i published taken w
      → get_elem? w.connections j ≡ some d
      → d.phase ≡ streaming
      → j ≢ i
      → Feeds i published (sends k answer) (handler_step marshal (sends k answer) j d streaming w)
  unfolding handler_step
  other_sends j k answer d f at p ne =
      let (sub, e, q) = (h.each j d at).live (λ r. cc) in
      let open_ : IsOpen w.broadcaster.heap d.ch =
        subst (IsOpen w.broadcaster.heap) q
          (Live-lookup w.broadcaster.heap d.id sub (entries w.broadcaster.subscribers) h.valid e) in
      let (b, r, done, _, not_finished) = receive-Keeps d.ch w.broadcaster h.valid open_ in
      rw done (by_result b r (sub, e, q) done not_finished)
    where
      by_result :
          (b : Broadcaster) (r : Received)
          → HasEntry w.broadcaster d.id d.ch
          → receive d.ch w.broadcaster ≡ ok (b, r)
          → r ≢ Received.finished
          → Feeds i published (sends k answer) (ok (received marshal w j d answer (b, r)))
      by_result b (Received.change x) entry done n = (
        _,
        noted taken d.ch (Received.change x),
        refl,
        other-IsFed w b i j f.c _ _ _ f.at ne (λ run_.
            other_read f.c w.broadcaster b d.id d.ch (Received.change x) taken published h.valid
              entry (ids_differ j f.c d f.at at ne) done (f.fed run_)),
      )
      by_result b Received.finished entry done n = absurd (n refl)
      by_result b Received.blocked entry done n =
          (w, taken, refl, kept-IsFed marshal i w taken published h (sends k answer) refl f)

  -- A step of another handler.
  other-Feeds :
      (a : Action) (j : ℕ) (d : Connection) (phase : Phase)
      → published_by a ≡ []
      → IsFed i published taken w
      → get_elem? w.connections j ≡ some d
      → d.phase ≡ phase
      → j ≢ i
      → Feeds i published a (handler_step marshal a j d phase w)
  unfolding handler_step
  other-Feeds (greets k answer) j d opening n f at p ne = (
    _,
    taken,
    refl,
    other-IsFed w w.broadcaster i j f.c _ taken _ f.at ne
        (λ run_. still-Follows f.c w.broadcaster taken published [] refl (f.fed run_)),
  )
  other-Feeds (sends k answer) j d streaming n f at p ne = other_sends j k answer d f at p ne
  other-Feeds (pings k answer) j d streaming n f at p ne = (
    _,
    taken,
    refl,
    other-IsFed w w.broadcaster i j f.c _ taken _ f.at ne
        (λ run_. still-Follows f.c w.broadcaster taken published [] refl (f.fed run_)),
  )
  other-Feeds (disconnects k) j d streaming n f at p ne = (
    _,
    taken,
    refl,
    other-IsFed w w.broadcaster i j f.c _ taken _ f.at ne
        (λ run_. still-Follows f.c w.broadcaster taken published [] refl (f.fed run_)),
  )
  other-Feeds (unsubscribes k) j d leaving n f at p ne =
      let (b, done, _, _) = unsubscribe-Keeps d.id w.broadcaster h.valid in
      let d' : Connection = record d { phase = ended } in
      (
        put (record w { broadcaster = b }) j d',
        taken,
        rw done refl,
        other-IsFed w b i j f.c d' taken (published ++ []) f.at ne (λ run_.
            op-Follows (Op.unsubscribes d.id) f.c w.broadcaster b taken taken published h.valid
              (ids_differ j f.c d f.at at ne, tt)
              (unsubscribes-History d.id w.broadcaster b taken done) refl (f.fed run_)),
      )
  other-Feeds a j d phase n f at p ne =
      (w, taken, refl, kept-IsFed marshal i w taken published h a n f)

  pub handler-Feeds :
      (a : Action) (j : ℕ)
      → published_by a ≡ []
      → IsFed i published taken w
      → Feeds i published a (handler_at marshal a j w (get_elem? w.connections j))
  handler-Feeds a j n f = elim (Option-cases (get_elem? w.connections j)) [
    | inl e ↦ rw e (w, taken, refl, kept-IsFed marshal i w taken published h a n f)
    | inr (d, e) ↦ rw e (elim (ℕ_discrete j i) [
      | yes same ↦
          let at : get_elem? w.connections i ≡ some d =
            subst (λ k. get_elem? w.connections k ≡ some d) same e in
          let is_c : f.c ≡ d = some_inj (sym f.at ∙ at) in
          subst (λ k. Feeds i published a (handler_step marshal a k d d.phase w)) (sym same)
            (own-Feeds marshal i w taken published h a d d.phase n at refl (
              subst
                (λ (c : Connection). IsRunning c.phase → Follows c w.broadcaster taken published)
                is_c f.fed))
      | no ne ↦ other-Feeds a j d d.phase n f e refl ne
    ])
  ]
