-- ===== src/Cdc/Changes.antt =====
-- The stream with the client's publishChange as its handler: where every decoded change goes.
use phylax.Base.{
  Text, codes, List, [], ◌∷◌, ◌++◌, append-nil, Error, Res, ok, wrapped, ◌≡◌, refl, sym, ◌∙◌, ap,
  subst, ◌⊎◌,
}
use phylax.Change.{Change}
use phylax.Broadcast.{Broadcaster}
use phylax.Broadcast.Valid.{IsValid}
use phylax.Broadcast.Publish.{publish_lem}
use phylax.Stream.{ReplicationStream, route_all}
use phylax.Stream.Routing.{route_all_lem, rows_of, others, publish_all, call_all}
use phylax.Cdc.{publish_change}

call_all-publish_change :
    (cs : List Change) (b : Broadcaster)
    → IsValid b
    → (b' : Broadcaster) × (call_all publish_change cs b ≡ (b', ok tt))
      × (publish_all cs b ≡ ok b')
      × IsValid b'
unfolding call_all publish_all publish_change
call_all-publish_change [] b v = (b, refl, refl, v)
call_all-publish_change (c ∷ cs) b v =
    let (b1, e, v1, _, _, _) = publish_lem c b v in
    let (b2, called, published, v2) = call_all-publish_change cs b1 v1 in
    (b2, rw (e, publish_change) called, rw e published, v2)

module _ {Payload : Type 0} (unmarshal : Text → Error ⊎ Payload) (outbox_table : Text) where
  -- What became of all changes of a record: the stream, and the broadcasters of the stream and of
  -- the client.
  pub record Delivered (changes : List Change) (s s' : ReplicationStream Payload Broadcaster)
      : Type 0 where
    pub enqueued : s'.enqueued ≡ s.enqueued ++ rows_of unmarshal outbox_table changes
    pub stream_published :
        publish_all (others unmarshal outbox_table changes) s.broadcaster ≡ ok s'.broadcaster
    pub client_published : publish_all (others unmarshal outbox_table changes) s.state ≡ ok s'.state
    pub stream_valid : IsValid s'.broadcaster
    pub client_valid : IsValid s'.state

  abbrev pub DeliveredBy :
      List Change
      → ReplicationStream Payload Broadcaster
      → ReplicationStream Payload Broadcaster × Res (Unit {0})
      → Type 0
  DeliveredBy changes s (s', r) = (r ≡ ok tt) × Delivered changes s s'

  -- With the client's publishChange as the handler and both broadcasters valid, no change ends the
  -- stream: the routing of a record's changes returns nil. The inserts of the outbox's table go to no
  -- broadcaster: for each whose row can be read, enqueue is called with it, in their order, and one
  -- whose row cannot be read goes nowhere. All other changes are published in their order to the
  -- stream's broadcaster and to the client's, and both broadcasters stay valid. What becomes of a row
  -- inside enqueue, which can wait or drop it, and of a change at a full buffer, is not stated.
  pub changes_delivered :
      (changes : List Change) (s : ReplicationStream Payload Broadcaster)
      → IsValid s.broadcaster
      → IsValid s.state
      → DeliveredBy changes s (route_all unmarshal outbox_table publish_change changes s)
  changes_delivered changes s v w =
      let (seen, rest, e, p, all) =
        route_all_lem unmarshal outbox_table publish_change changes s v in
      let (b, called, published, valid) =
        call_all-publish_change (others unmarshal outbox_table seen) s.state w in
      let answer : (b, ok tt) ≡ (state_of, p.result) = sym called ∙ p.called in
      let r : (route_all unmarshal outbox_table publish_change changes s).1 ≡ ok tt =
        p.reported ∙ ap (wrapped (codes "change handler failed")) (sym (ap (λ x. x.1) answer)) in
      let same : seen ≡ changes = sym (append-nil seen) ∙ sym (e ∙ ap (λ l. seen ++ l) (all r)) in
      let state : b ≡ state_of = ap (λ x. x.0) answer in
      (
        r,
        subst (λ l. Delivered l s s') same
            (record {
              enqueued = p.enqueued;
              stream_published = p.published;
              client_published = published ∙ ap ok state;
              stream_valid = p.valid;
              client_valid = subst IsValid state valid;
            }),
      )
    where
      s' : ReplicationStream Payload Broadcaster
      s' = (route_all unmarshal outbox_table publish_change changes s).0

      state_of : Broadcaster
      state_of = s'.state
