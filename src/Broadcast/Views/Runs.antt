-- ===== src/Broadcast/Views/Runs.antt =====
-- Any history of calls and reads, where each call may find the map in any order.
use phylax.Base.{
  ℕ, text_eq, get_elem?, set, List, [], ◌∷◌, ◌++◌, Option-cases, none, some, Res, ok, Chan, ◌≡◌,
  refl, sym, ◌∙◌, ap, subst, inl, inr,
}
use phylax.Change.{Change}
use phylax.Broadcast.{subscriber_count, changes_dropped}
use phylax.Broadcast.Valid.{IsValid, subscribe-IsValid}
use phylax.Broadcast.Publish.{publish_lem}
use phylax.Broadcast.Entries.{unsubscribe-Keeps}
use phylax.Broadcast.History.{
  Op, subscribes, unsubscribes, publishes, receives, World, step, run, receives_lem, step-IsValid,
}
use phylax.Broadcast.Views.{
  SameView, SameView-refl, SameView-sym, SameView-trans, publish-SameView, unsubscribe-SameView,
  subscribe-SameView,
}
use phylax.Broadcast.Views.Counts.{counts-SameView}

pub record SameWorld (w w' : World) : Type 0 where
  pub view : SameView w.broadcaster w'.broadcaster
  pub taken : w.taken ≡ w'.taken

pub SameWorld-refl : (w : World) → SameWorld w w
SameWorld-refl w = record { view = SameView-refl w.broadcaster; taken = refl }

SameWorld-sym : (w w' : World) → SameWorld w w' → SameWorld w' w
SameWorld-sym w w' h = record {
  view = SameView-sym w.broadcaster w'.broadcaster h.view;
  taken = sym h.taken;
}

SameWorld-trans : (w w' w'' : World) → SameWorld w w' → SameWorld w' w'' → SameWorld w w''
SameWorld-trans w w' w'' h k = record {
  view = SameView-trans w.broadcaster w'.broadcaster w''.broadcaster h.view k.view;
  taken = h.taken ∙ k.taken;
}

-- A history from one state to another, where the state before each call and at the end may be any that has
-- the same view, with one entry for each id.
abbrev pub Runs : List Op → World → World → Type 0
Runs [] w w' = SameWorld w w' × IsValid w'.broadcaster
Runs (op ∷ ops) w w' =
    (u u' : World) × SameWorld w u × IsValid u.broadcaster × (step op u ≡ ok u') × Runs ops u' w'

-- The results of two computations, by what the computations are known to return.
SameWorld-results :
    {r r' : Res World} (x x' w' v' : World)
    → r ≡ ok x
    → r' ≡ ok x'
    → r ≡ ok w'
    → r' ≡ ok v'
    → SameWorld x x'
    → SameWorld w' v'
SameWorld-results x x' w' v' q q' e e' h =
    let first : x ≡ w' = cc (q, e) in
    let second : x' ≡ v' = cc (q', e') in
    subst (λ y. SameWorld y v') first (subst (SameWorld x) second h)

module _ (w v : World) (valid : IsValid w.broadcaster) (valid' : IsValid v.broadcaster)
    (h : SameWorld w v) where
  receives-SameWorld :
      (a : ℕ) (w' v' : World)
      → step (receives a) w ≡ ok w'
      → step (receives a) v ≡ ok v'
      → SameWorld w' v'
  unfolding step
  receives-SameWorld a w' v' e e' = elim (Option-cases (get_elem? w.broadcaster.heap a)) [
    | inl absent ↦
        let absent' : get_elem? v.broadcaster.heap a ≡ none =
          ap (λ heap. get_elem? heap a) (sym (h.view).heap) ∙ absent in
        SameWorld-results w v w' v' (rw (absent, step) refl) (rw (absent', step) refl) e e' h
    | inr (ch, at) ↦
        by_buffer ch ch.buffer at (ap (λ heap. get_elem? heap a) (sym (h.view).heap) ∙ at) refl
  ]
    where
      by_buffer :
          (ch : Chan Change) (buffer : List Change)
          → get_elem? w.broadcaster.heap a ≡ some ch
          → get_elem? v.broadcaster.heap a ≡ some ch
          → ch.buffer ≡ buffer
          → SameWorld w' v'
      by_buffer ch [] at at' b =
          SameWorld-results w v w' v' (receives_lem a w ch [] at b) (receives_lem a v ch [] at' b) e
            e' h
      by_buffer ch (c ∷ rest) at at' b =
          SameWorld-results _ _ w' v' (receives_lem a w ch (c ∷ rest) at b)
            (receives_lem a v ch (c ∷ rest) at' b) e e'
            (record {
              view = record {
                heap = ap (λ heap. set heap a (record ch { buffer = rest })) (h.view).heap;
                same = (h.view).same;
              };
              taken = ap (λ taken. taken ++ (a, c) ∷ []) h.taken;
            })

  step-SameWorld :
      (op : Op) (w' v' : World) → step op w ≡ ok w' → step op v ≡ ok v' → SameWorld w' v'
  unfolding step
  step-SameWorld (subscribes id size) w' v' e e' =
      let (b, q, _) = subscribe-IsValid id size w.broadcaster valid in
      let (b', q', _) = subscribe-IsValid id size v.broadcaster valid' in
      SameWorld-results (record w { broadcaster = b }) (record v { broadcaster = b' }) w' v'
        (rw q refl) (rw q' refl) e e'
        (record {
          view =
              subscribe-SameView w.broadcaster v.broadcaster valid valid' h.view id size _ _ b b' q
                q';
          taken = h.taken;
        })
  step-SameWorld (unsubscribes id) w' v' e e' =
      let (b, q, _, _) = unsubscribe-Keeps id w.broadcaster valid in
      let (b', q', _, _) = unsubscribe-Keeps id v.broadcaster valid' in
      SameWorld-results (record w { broadcaster = b }) (record v { broadcaster = b' }) w' v'
        (rw q refl) (rw q' refl) e e'
        (record {
          view = unsubscribe-SameView w.broadcaster v.broadcaster valid valid' h.view id b b' q q';
          taken = h.taken;
        })
  step-SameWorld (publishes change) w' v' e e' =
      let (b, q, _, _, _, _) = publish_lem change w.broadcaster valid in
      let (b', q', _, _, _, _) = publish_lem change v.broadcaster valid' in
      SameWorld-results (record w { broadcaster = b }) (record v { broadcaster = b' }) w' v'
        (rw q refl) (rw q' refl) e e'
        (record {
          view = publish-SameView w.broadcaster v.broadcaster valid valid' h.view change b b' q q';
          taken = h.taken;
        })
  step-SameWorld (receives a) w' v' e e' = receives-SameWorld a w' v' e e'

Runs-SameWorld :
    (ops : List Op) (w v w' v' : World)
    → SameWorld w v
    → Runs ops w w'
    → Runs ops v v'
    → SameWorld w' v'
Runs-SameWorld [] w v w' v' h r r' =
    SameWorld-trans w' w v' (SameWorld-sym w w' r.0) (SameWorld-trans w v v' h r'.0)
Runs-SameWorld (op ∷ ops) w v w' v' h (u, u1, same, valid, e, rest)
      (x, x1, same', valid', e', rest') =
    Runs-SameWorld ops u1 x1 w' v'
      (step-SameWorld u x valid valid'
        (SameWorld-trans u w x (SameWorld-sym w u same) (SameWorld-trans w v x h same')) op u1 x1 e
        e')
      rest rest'

run-Runs :
    (ops : List Op) (w : World)
    → IsValid w.broadcaster
    → (w' : World) × (run ops w ≡ ok w') × IsValid w'.broadcaster × Runs ops w w'
unfolding run
run-Runs [] w v = (w, refl, v, (SameWorld-refl w, v))
run-Runs (op ∷ ops) w v =
    let (w1, e1, v1) = step-IsValid op w v in
    let (w2, e2, v2, r) = run-Runs ops w1 v1 in
    (w2, rw e1 e2, v2, (w, w1, SameWorld-refl w, v, e1, r))

Runs-IsValid : (ops : List Op) (w w' : World) → Runs ops w w' → IsValid w'.broadcaster
Runs-IsValid [] w w' r = r.1
Runs-IsValid (op ∷ ops) w w' (u, u1, _, _, _, rest) = Runs-IsValid ops u1 w' rest

-- Nothing that users of a broadcaster see depends on the order in which Go's loops run over the map of
-- its subscribers. A history of calls and reads on a valid broadcaster has an outcome, and every way in
-- which it can run, where each call may find the entries in any order, reads the same changes from the
-- same channels, leaves the same channels and the same subscription of each id, and ends with the same
-- SubscriberCount and ChangesDropped.
pub Runs-agree :
    (ops : List Op) (w w'' : World)
    → IsValid w.broadcaster
    → Runs ops w w''
    → (w' : World) × (run ops w ≡ ok w')
      × SameWorld w' w''
      × (subscriber_count w'.broadcaster ≡ subscriber_count w''.broadcaster)
      × (changes_dropped w'.broadcaster ≡ changes_dropped w''.broadcaster)
Runs-agree ops w w'' v r' =
    let (w', e, v', r) = run-Runs ops w v in
    let same = Runs-SameWorld ops w w w' w'' (SameWorld-refl w) r r' in
    let (count, dropped) =
      counts-SameView w'.broadcaster w''.broadcaster v' (Runs-IsValid ops w w'' r') same.view in
    (w', e, same, count, dropped)
