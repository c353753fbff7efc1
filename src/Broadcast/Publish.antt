-- ===== src/Broadcast/Publish.antt =====
-- broadcast.go: what Publish, Unsubscribe and a subscriber's receive do to each channel.
use phylax.Base.{
  ℕ, Text, Map, lookup, delete, lookup-delete, ◌==◌, text_beq, if◌then◌else◌, Bool-cases, get_elem?,
  set, get_elem?-set_self, get_elem?-set_ne, get_elem?-lt, add64, List, [], ◌∷◌, Option, none, some,
  true, false, ok, text_eq, Chan, push_back, has_room, ◌≡◌, ◌≢◌, refl, sym, ◌∙◌, inl, inr, arith,
}
use phylax.Change.{Change}
use phylax.Broadcast.{
  Subscription, Broadcaster, entries, deliver, deliver_all, publish, unsubscribe,
}
use phylax.Broadcast.Valid.{
  Fresh, Live, IsValid, Live-except, Live-delete, Live-lookup, Fresh-delete_self, Fresh-lookup,
  found_first,
}

-- The channel after a change was offered: appended where there is room.
abbrev pub offered : Change → Chan Change → Chan Change
offered change ch = if has_room ch then push_back change ch else ch

-- The subscription after a change was offered: one more drop where there is no room.
abbrev pub charged : Chan Change → Subscription → Subscription
charged ch sub = if has_room ch then sub else record sub { dropped = add64 sub.dropped 1 }

deliver_open :
    (change : Change) (heap : List (Chan Change)) (sub : Subscription) (ch : Chan Change)
    → get_elem? heap sub.ch ≡ some ch
    → ch.is_closed ≡ false
    → (heap' : List (Chan Change)) × (deliver change heap sub ≡ ok (heap', charged ch sub))
      × (get_elem? heap' sub.ch ≡ some (offered change ch))
      × ((a : ℕ) → sub.ch ≢ a → get_elem? heap' a ≡ get_elem? heap a)
unfolding deliver
deliver_open change heap sub ch e o = elim (Bool-cases (has_room ch)) [
  | inl room ↦ (
    set heap sub.ch (push_back change ch),
    ground (arith, e, o, room),
    get_elem?-set_self heap sub.ch (push_back change ch) (get_elem?-lt heap sub.ch e)
        ∙ ground (arith, room),
    λ a h. get_elem?-set_ne heap sub.ch a (push_back change ch) h,
  )
  | inr full ↦ (heap, ground (arith, e, o, full), ground (arith, e, full), λ a h. refl)
]

-- Publishing leaves one entry for each id.
abbrev pub SameIds : Map Text Subscription → Map Text Subscription → Type 0
SameIds subs subs' = (id : Text) → lookup id subs ≡ none → lookup id subs' ≡ none

-- What Publish does to the entry of an id, its channel included.
abbrev pub Delivers :
    Change
    → List (Chan Change)
    → Map Text Subscription
    → List (Chan Change)
    → Map Text Subscription
    → Type 0
Delivers change heap subs heap' subs' =
    (id : Text) (sub : Subscription) (ch : Chan Change)
    → lookup id subs ≡ some sub
    → get_elem? heap sub.ch ≡ some ch
    → (lookup id subs' ≡ some (charged ch sub))
      × (get_elem? heap' sub.ch ≡ some (offered change ch))

-- Channels that no entry has stay as they are.
abbrev pub Spares : List (Chan Change) → Map Text Subscription → List (Chan Change) → Type 0
Spares heap subs heap' = (a : ℕ) → Fresh a subs → get_elem? heap' a ≡ get_elem? heap a

pub record Published (change : Change) (heap : List (Chan Change)) (subs : Map Text Subscription)
    (heap' : List (Chan Change)) (subs' : Map Text Subscription) : Type 0 where
  pub delivers : Delivers change heap subs heap' subs'
  pub spares : Spares heap subs heap'
  pub same_ids : SameIds subs subs'
  pub same_channels : (a : ℕ) → Fresh a subs → Fresh a subs'
  pub live : Live heap' subs'

charged-ch : (ch : Chan Change) (sub : Subscription) → (charged ch sub).ch ≡ sub.ch
charged-ch ch sub = ground arith

-- One round of the loop, and the rest of it.
module _ (change : Change) (heap heap1 heap2 : List (Chan Change)) (id : Text) (sub : Subscription)
    (ch : Chan Change) (subs subs2 : Map Text Subscription) (at : get_elem? heap sub.ch ≡ some ch)
    (open_ : ch.is_closed ≡ false) (self : get_elem? heap1 sub.ch ≡ some (offered change ch))
    (others : (a : ℕ) → sub.ch ≢ a → get_elem? heap1 a ≡ get_elem? heap a)
    (v : Live heap ((id, sub) ∷ subs)) (p : Published change heap1 subs heap2 subs2) where
  at_end : get_elem? heap2 sub.ch ≡ some (offered change ch)
  at_end = p.spares sub.ch v.1 ∙ self

  Delivers-cons : Delivers change heap ((id, sub) ∷ subs) heap2 ((id, charged ch sub) ∷ subs2)
  unfolding lookup
  Delivers-cons id' sub' ch' e e' = elim (Bool-cases (text_beq id id')) [
    | inl same ↦
        let q : sub ≡ sub' = found_first sub sub' _ e same in
        let r : ch ≡ ch' = ground (arith, at, e', q) in (rw same (cc (q, r)), cc (q, r, at_end))
    | inr ne ↦
        let later : lookup id' subs ≡ some sub' = ground arith in
        let (l, h) =
          p.delivers id' sub' ch' later
            (others sub'.ch (Fresh-lookup sub.ch id' sub' subs v.1 later) ∙ e') in
        (rw ne l, h)
  ]

  SameIds-cons : SameIds ((id, sub) ∷ subs) ((id, charged ch sub) ∷ subs2)
  unfolding lookup
  SameIds-cons id' e = elim (Bool-cases (text_beq id id')) [
    | inl same ↦ ground arith
    | inr ne ↦ rw ne (p.same_ids id' (ground arith))
  ]

  Published-cons : Published change heap ((id, sub) ∷ subs) heap2 ((id, charged ch sub) ∷ subs2)
  Published-cons = record {
    delivers = Delivers-cons;
    spares = λ a f. p.spares a f.1 ∙ others a (λ e. f.0 (sym e));
    same_ids = SameIds-cons;
    same_channels = λ a f. (λ e. f.0 (e ∙ charged-ch ch sub), p.same_channels a f.1);
    live = (
      rw (charged-ch ch sub) (offered change ch, at_end, ground arith),
      rw (charged-ch ch sub) (p.same_channels sub.ch v.1),
      p.same_ids id v.2,
      p.live,
    );
  }

deliver_all-Published :
    (change : Change) (heap : List (Chan Change)) (subs : Map Text Subscription)
    → Live heap subs
    → (heap' : List (Chan Change)) × (subs' : Map Text Subscription) × (deliver_all change heap subs
        ≡ ok (heap', subs'))
      × Published change heap subs heap' subs'
unfolding deliver_all lookup
deliver_all-Published change heap [] v = (
  heap,
  [],
  refl,
  record {
    delivers = λ id sub ch e. absurd (cc);
    spares = λ a f. refl;
    same_ids = λ id e. refl;
    same_channels = λ a f. tt;
    live = tt;
  },
)
deliver_all-Published change heap ((id, sub) ∷ subs) v =
    let (ch, at, open_) = v.0 in
    let (heap1, done, self, others) = deliver_open change heap sub ch at open_ in
    let v1 : Live heap1 subs = Live-except heap heap1 sub.ch subs others v.1 v.3 in
    let (heap2, subs2, rest, p) = deliver_all-Published change heap1 subs v1 in
    (
      heap2,
      (id, charged ch sub) ∷ subs2,
      rw (done, rest),
      Published-cons change heap heap1 heap2 id sub ch subs subs2 at open_ self others v p,
    )

-- In a valid broadcaster Publish returns, never panics on a closed channel, and keeps it valid.
-- For each subscriber, the change is appended to its channel where that has room, and else it is
-- dropped and counted for that subscriber alone; a channel of no subscriber is left as it is, and
-- no id is added.
pub publish_lem :
    (change : Change) (b : Broadcaster)
    → IsValid b
    → (b' : Broadcaster) × (publish change b ≡ ok b')
      × IsValid b'
      × Delivers change b.heap (entries b.subscribers) b'.heap (entries b'.subscribers)
      × Spares b.heap (entries b.subscribers) b'.heap
      × SameIds (entries b.subscribers) (entries b'.subscribers)
unfolding publish
publish_lem change b v = go b.subscribers v
  where
    go :
        (s : Option (Map Text Subscription))
        → Live b.heap (entries s)
        → (b' : Broadcaster) × (publish change (record b { subscribers = s }) ≡ ok b')
          × IsValid b'
          × Delivers change b.heap (entries s) b'.heap (entries b'.subscribers)
          × Spares b.heap (entries s) b'.heap
          × SameIds (entries s) (entries b'.subscribers)
    go none v = (
      record b { subscribers = none },
      refl,
      tt,
      λ id sub ch e. absurd (unfold lookup in cc),
      λ a f. refl,
      λ id e. e,
    )
    go (some subs) v =
        let (heap', subs', e, p) = deliver_all-Published change b.heap subs v in
        (
          record { heap = heap'; subscribers = some subs' },
          rw e,
          p.live,
          p.delivers,
          p.spares,
          p.same_ids,
        )

close_keeps :
    (heap : List (Chan Change)) (id : Text) (sub : Subscription) (ch closed : Chan Change)
    (subs : Map Text Subscription)
    → Live heap subs
    → lookup id subs ≡ some sub
    → Live (set heap sub.ch closed) (delete id subs)
close_keeps heap id sub ch closed subs v e =
    Live-except heap (set heap sub.ch closed) sub.ch (delete id subs)
      (λ a h. get_elem?-set_ne heap sub.ch a closed h) (Fresh-delete_self heap id sub subs v e)
      (Live-delete heap id subs v)

-- In a valid broadcaster Unsubscribe of a registered id returns, keeps it valid, closes that
-- subscriber's channel with what is buffered in it still to be read, changes no other channel, and
-- removes that id and no other; of an id that is not registered it changes nothing.
pub unsubscribe_lem :
    (id : Text) (b : Broadcaster)
    → IsValid b
    → (lookup id (entries b.subscribers) ≡ none → unsubscribe id b ≡ ok b)
      × ((sub : Subscription) (ch : Chan Change)
          → lookup id (entries b.subscribers) ≡ some sub
          → get_elem? b.heap sub.ch ≡ some ch
          → (b' : Broadcaster) × (unsubscribe id b ≡ ok b')
            × IsValid b'
            × (get_elem? b'.heap sub.ch ≡ some (record ch { is_closed = true }))
            × ((a : ℕ) → sub.ch ≢ a → get_elem? b'.heap a ≡ get_elem? b.heap a)
            × ((j : Text)
                → lookup j (entries b'.subscribers)
                  ≡ (if id == j then none else lookup j (entries b.subscribers))))
unfolding unsubscribe
unsubscribe_lem id b v = (
  λ e. rw (e, unsubscribe),
  λ sub ch e at.
      let (ch', at', open_) = Live-lookup b.heap id sub (entries b.subscribers) v e in
      let o : ch.is_closed ≡ false = ground arith in
      let closed : Chan Change = record ch { is_closed = true } in
      (
        record {
          heap = set b.heap sub.ch closed;
          subscribers = some (delete id (entries b.subscribers));
        },
        ground (arith, e, at, o),
        close_keeps b.heap id sub ch closed (entries b.subscribers) v e,
        get_elem?-set_self b.heap sub.ch closed (get_elem?-lt b.heap sub.ch at),
        λ a h. get_elem?-set_ne b.heap sub.ch a closed h,
        λ j. lookup-delete id j (entries b.subscribers),
      ),
)
