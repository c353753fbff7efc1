-- ===== src/Stream/Routing.antt =====
-- handleCopyData of stream.go: which changes go to the outbox, and which to the subscribers and the
-- handler.
use phylax.Base.{
  true, false, Bool-cases, if◌then◌else◌, Text, codes, List, [], ◌∷◌, ◌++◌, append_assoc,
  append-nil, none, Error, Res, ok, err, panic, ◌>>=◌, wrapped, ◌≡◌, ◌≢◌, refl, sym, ◌∙◌, ap, ◌⊎◌,
  inl, inr,
}
use phylax.Change.{Change}
use phylax.Broadcast.{Broadcaster, publish}
use phylax.Broadcast.Valid.{IsValid}
use phylax.Broadcast.Publish.{publish_lem}
use phylax.Outbox.{OutboxRow, handle, claim, to_outbox_row, Relevance, not_ours, malformed, ours}
use phylax.Stream.{ReplicationStream, to_list, and_then, route, route_all}

module _ {Payload : Type 0} (unmarshal : Text → Error ⊎ Payload) (outbox_table : Text) where
  -- The rows that the outbox is given, and the changes that are not the outbox's.
  unfoldable pub rows_of : List Change → List (OutboxRow Payload)
  rows_of [] = []
  rows_of (c ∷ cs) = to_list (handle unmarshal c outbox_table).1 ++ rows_of cs

  unfoldable pub others : List Change → List Change
  others [] = []
  others (c ∷ cs) =
      let rest = others cs in if (handle unmarshal c outbox_table).0 then rest else c ∷ rest

-- Changes published one after the other.
unfoldable pub publish_all : List Change → Broadcaster → Res Broadcaster
publish_all [] b = ok b
publish_all (c ∷ cs) b = do b' ← publish c b; publish_all cs b'

-- The handler called with changes one after the other, up to its first failure.
unfoldable pub call_all :
    {State : Type 0}
    → (Change → State → State × Res (Unit {0}))
    → List Change
    → State
    → State × Res (Unit {0})
call_all handler [] state = (state, ok tt)
call_all handler (c ∷ cs) state = and_then (handler c state) (λ state'. call_all handler cs state')

module _ {Payload State : Type 0} (unmarshal : Text → Error ⊎ Payload) (outbox_table : Text)
    (handler : Change → State → State × Res (Unit {0})) where
  -- What became of the changes `seen`, in that order: an outbox row was enqueued once and went
  -- nowhere else, every other change was published and then handled once.
  pub record Routed (seen : List Change) (s s' : ReplicationStream Payload State)
      (r : Res (Unit {0})) : Type 0 where
    pub enqueued : s'.enqueued ≡ s.enqueued ++ rows_of unmarshal outbox_table seen
    pub published :
        publish_all (others unmarshal outbox_table seen) s.broadcaster ≡ ok s'.broadcaster
    pub result : Res (Unit {0})
    pub called : call_all handler (others unmarshal outbox_table seen) s.state ≡ (s'.state, result)
    pub reported : r ≡ wrapped (codes "change handler failed") result
    pub kept :
        s' ≡ record s { enqueued = s'.enqueued; broadcaster = s'.broadcaster; state = s'.state }
    pub valid : IsValid s'.broadcaster

  Routed-nil : (s : ReplicationStream Payload State) → IsValid s.broadcaster → Routed [] s s (ok tt)
  unfolding rows_of others publish_all call_all
  Routed-nil s v = record {
    enqueued = sym (append-nil s.enqueued);
    published = refl;
    result = ok tt;
    called = refl;
    reported = refl;
    kept = refl;
    valid = v;
  }

  Routed-outbox :
      (c : Change) (seen : List Change) (s s' : ReplicationStream Payload State)
      (r : Res (Unit {0}))
      → (handle unmarshal c outbox_table).0 ≡ true
      → Routed seen
          (record s { enqueued = s.enqueued ++ to_list (handle unmarshal c outbox_table).1 })
          s'
          r
      → Routed (c ∷ seen) s s' r
  unfolding rows_of others
  Routed-outbox c seen s s' r h p = record {
    enqueued = p.enqueued ∙ append_assoc s.enqueued _ (rows_of unmarshal outbox_table seen);
    published = rw h p.published;
    result = p.result;
    called = rw h p.called;
    reported = p.reported;
    kept = p.kept;
    valid = p.valid;
  }

  Routed-other :
      (c : Change) (seen : List Change) (s s' : ReplicationStream Payload State)
      (r : Res (Unit {0})) (b : Broadcaster) (state : State)
      → (handle unmarshal c outbox_table ≡ (false, none))
      → publish c s.broadcaster ≡ ok b
      → handler c s.state ≡ (state, ok tt)
      → Routed seen (record s { broadcaster = b; state = state }) s' r
      → Routed (c ∷ seen) s s' r
  unfolding rows_of others publish_all call_all
  Routed-other c seen s s' r b state h e k p = record {
    enqueued = rw h p.enqueued;
    published = rw (h, e) p.published;
    result = p.result;
    called = rw (h, k) p.called;
    reported = p.reported;
    kept = p.kept;
    valid = p.valid;
  }

  -- A handler that fails ends the routing with the change that it was called with.
  Routed-failed :
      (c : Change) (s : ReplicationStream Payload State) (b : Broadcaster) (state : State)
      (r : Res (Unit {0}))
      → handle unmarshal c outbox_table ≡ (false, none)
      → publish c s.broadcaster ≡ ok b
      → IsValid b
      → handler c s.state ≡ (state, r)
      → r ≢ ok tt
      → Routed
          (c ∷ [])
          s
          (record s { broadcaster = b; state = state })
          (wrapped (codes "change handler failed") r)
  unfolding rows_of others publish_all call_all
  Routed-failed c s b state (ok done) h e v k ne = absurd (ne refl)
  Routed-failed c s b state (err f) h e v k ne = record {
    enqueued = rw h (sym (append-nil s.enqueued));
    published = rw (h, e) refl;
    result = err f;
    called = rw (h, k) refl;
    reported = refl;
    kept = refl;
    valid = v;
  }
  Routed-failed c s b state panic h e v k ne = record {
    enqueued = rw h (sym (append-nil s.enqueued));
    published = rw (h, e) refl;
    result = panic;
    called = rw (h, k) refl;
    reported = refl;
    kept = refl;
    valid = v;
  }

  pub handle-none :
      (c : Change)
      → (handle unmarshal c outbox_table).0 ≡ false
      → handle unmarshal c outbox_table ≡ (false, none)
  unfolding handle
  handle-none c h = by_relevance (to_outbox_row unmarshal c outbox_table) h
    where
      by_relevance : (r : Relevance Payload) → (claim r).0 ≡ false → claim r ≡ (false, none)
      by_relevance not_ours h = refl
      by_relevance (malformed e) h = absurd (cc)
      by_relevance (ours row) h = absurd (cc)

  pub route-outbox :
      (c : Change) (s : ReplicationStream Payload State)
      → (handle unmarshal c outbox_table).0 ≡ true
      → route unmarshal outbox_table handler c s
        ≡ (record s { enqueued = s.enqueued ++ to_list (handle unmarshal c outbox_table).1 }, ok tt)
  unfolding route
  route-outbox c s h = rw h refl

  pub route-other :
      (c : Change) (s : ReplicationStream Payload State) (b : Broadcaster) (state : State)
      (r : Res (Unit {0}))
      → handle unmarshal c outbox_table ≡ (false, none)
      → publish c s.broadcaster ≡ ok b
      → handler c s.state ≡ (state, r)
      → route unmarshal outbox_table handler c s
        ≡ (record s { broadcaster = b; state = state }, wrapped (codes "change handler failed") r)
  unfolding route
  route-other c s b state r h e k = rw (h, e, k) refl

  abbrev pub RoutedPart :
      List Change
      → ReplicationStream Payload State
      → ReplicationStream Payload State × Res (Unit {0})
      → Type 0
  RoutedPart changes s (s', r) =
      (seen : List Change) × (rest : List Change) × (changes ≡ seen ++ rest)
      × Routed seen s s' r
      × (r ≡ ok tt → rest ≡ [])

  -- Where the stream's broadcaster is valid, the changes of a record are routed in their order up
  -- to the first one whose handler fails: an insert on the outbox table gives its row to the
  -- outbox (no row if it is malformed) and goes nowhere else; every other change is published once
  -- and then given to the handler once. All are routed if no handler fails, and a failure is
  -- returned wrapped, after the change was published. Nothing else of the stream changes, and the
  -- broadcaster stays valid.
  pub route_all_lem :
      (changes : List Change) (s : ReplicationStream Payload State)
      → IsValid s.broadcaster
      → RoutedPart changes s (route_all unmarshal outbox_table handler changes s)
  unfolding route_all
  route_all_lem [] s v = ([], [], refl, Routed-nil s v, λ e. refl)
  route_all_lem (c ∷ cs) s v = elim (Bool-cases (handle unmarshal c outbox_table).0) [
    | inl h ↦
        let (seen, rest, e, p, f) =
          route_all_lem cs
            (record s { enqueued = s.enqueued ++ to_list (handle unmarshal c outbox_table).1 }) v in
        rw (route-outbox c s h)
          (c ∷ seen, rest, ap (λ l. c ∷ l) e, Routed-outbox c seen s _ _ h p, f)
    | inr h ↦
        let (b, e, valid, _, _, _) = publish_lem c s.broadcaster v in
        called (λ s' v'. route_all_lem cs s' v') (handle-none c h) b e valid (handler c s.state)
          refl
  ]
    where
      called :
          ((s' : ReplicationStream Payload State)
            → IsValid s'.broadcaster
            → RoutedPart cs s' (route_all unmarshal outbox_table handler cs s'))
          → handle unmarshal c outbox_table ≡ (false, none)
          → (b : Broadcaster) → publish c s.broadcaster ≡ ok b
          → IsValid b
          → (answer : State × Res (Unit {0})) → handler c s.state ≡ answer
          → RoutedPart (c ∷ cs) s (route_all unmarshal outbox_table handler (c ∷ cs) s)
      called later h b e valid (state, ok done) k =
          let (seen, rest, e', p, f) = later (record s { broadcaster = b; state = state }) valid in
          rw (route-other c s b state (ok done) h e k)
            (c ∷ seen, rest, ap (λ l. c ∷ l) e', Routed-other c seen s _ _ b state h e k p, f)
      called later h b e valid (state, err g) k = rw (route-other c s b state (err g) h e k) (
        c ∷ [],
        cs,
        refl,
        Routed-failed c s b state (err g) h e valid k (λ x. cc),
        λ x. absurd (cc),
      )
      called later h b e valid (state, panic) k = rw (route-other c s b state panic h e k) (
        c ∷ [],
        cs,
        refl,
        Routed-failed c s b state panic h e valid k (λ x. cc),
        λ x. absurd (cc),
      )
