-- ===== src/Broadcast/History.antt =====
-- broadcast.go over any history of calls, interleaved with the reads of the subscribers'
-- goroutines.
pub mod Fates
use phylax.Base.{
  ℕ, suc, ◌+◌, ◌%◌, ◌≤◌, ◌<◌, word_mod, ltb, Text, Map, lookup, insert, lookup-insert_ne,
  lookup-delete, ◌==◌, text_beq_iff, subst, if◌then◌else◌, Option-cases, length, get_elem?, set,
  get_elem?-set_self, get_elem?-set_ne, get_elem?-lt, get_elem?-none, get_elem?-append_left,
  length-append, add64, All, List, [], ◌∷◌, ◌++◌, map, append_assoc, append-nil, Option, none, some,
  Bool, true, false, Res, ok, err, panic, ◌>>=◌, text_eq, nat_eq, eqb, Chan, ℤ, pos, push_back,
  has_room, load, ◌≡◌, ◌≢◌, refl, sym, ◌∙◌, ap, inl, inr, arith, ℕ_discrete,
}
use phylax.Change.{Change}
use phylax.Broadcast.{
  Subscription, Broadcaster, entries, subscribe, publish, unsubscribe, receive, Received,
  take_front,
}
use phylax.Broadcast.Valid.{
  IsOpen, Fresh, Live, IsValid, Live-keep, subscribe-IsValid, Fresh-delete_self, Fresh-lookup,
  Live-lookup,
}
use phylax.Broadcast.Publish.{charged, offered, publish_lem, unsubscribe_lem}

-- A call by some goroutine, or a subscriber's goroutine reading the channel at an address.
pub data Op : Type 0 where
  subscribes : Text → ℕ → Op
  unsubscribes : Text → Op
  publishes : Change → Op
  receives : ℕ → Op

-- The broadcaster, and what was read so far, with the address that it was read from.
pub record World : Type 0 where
  pub broadcaster : Broadcaster
  pub taken : List (ℕ × Change)

abbrev note_received : World → ℕ → Broadcaster × Received → World
note_received w a (b, Received.change c) = record {
  broadcaster = b;
  taken = w.taken ++ (a, c) ∷ [];
}
note_received w a (b, _) = record w { broadcaster = b }

-- Nobody reads an address before there is a channel.
unfoldable pub step : Op → World → Res World
step (subscribes id size) w =
    subscribe id (pos size) w.broadcaster >>= λ (a, b). ok (record w { broadcaster = b })
step (unsubscribes id) w = do b ← unsubscribe id w.broadcaster; ok (record w { broadcaster = b })
step (publishes change) w = do b ← publish change w.broadcaster; ok (record w { broadcaster = b })
step (receives a) w = elim (get_elem? w.broadcaster.heap a) [
  | none ↦ ok w
  | some ch ↦ do r ← receive a w.broadcaster; ok (note_received w a r)
]

unfoldable pub run : List Op → World → Res World
run [] w = ok w
run (op ∷ ops) w = do w' ← step op w; run ops w'

pub set-IsOpen :
    (heap : List (Chan Change)) (a : ℕ) (ch ch' : Chan Change)
    → get_elem? heap a ≡ some ch
    → ch'.is_closed ≡ ch.is_closed
    → (x : ℕ) → IsOpen heap x
    → IsOpen (set heap a ch') x
set-IsOpen heap a ch ch' at same x (c, e, o) = elim (ℕ_discrete a x) [
  | yes p ↦ (
    ch',
    subst (λ y. get_elem? (set heap a ch') y ≡ some ch') p
        (get_elem?-set_self heap a ch' (get_elem?-lt heap a at)),
    ground (arith, p),
  )
  | no n ↦ (c, get_elem?-set_ne heap a x ch' n ∙ e, o)
]

-- A read takes the front of the buffer, if there is one.
pub receives_lem :
    (a : ℕ) (w : World) (ch : Chan Change) (buffer : List Change)
    → get_elem? w.broadcaster.heap a ≡ some ch
    → ch.buffer ≡ buffer
    → step (receives a) w
      ≡ ok (elim buffer [
        | [] ↦ w
        | c ∷ rest ↦ record {
          broadcaster = record w.broadcaster {
            heap = set w.broadcaster.heap a (record ch { buffer = rest });
          };
          taken = w.taken ++ (a, c) ∷ [];
        }
      ])
unfolding step receive
receives_lem a w ch [] at e = ground arith
receives_lem a w ch (c ∷ rest) at e = ground arith

-- No call and no read panics, so nothing is sent on a closed channel and nothing is closed twice;
-- validity is kept.
pub step-IsValid :
    (op : Op) (w : World)
    → IsValid w.broadcaster
    → (w' : World) × (step op w ≡ ok w') × IsValid w'.broadcaster
unfolding step
step-IsValid (subscribes id size) w v =
    let (b, e, v') = subscribe-IsValid id size w.broadcaster v in
    (record w { broadcaster = b }, rw e, v')
step-IsValid (unsubscribes id) w v =
    elim (Option-cases (lookup id (entries w.broadcaster.subscribers))) [
      | inl e ↦ (w, rw ((unsubscribe_lem id w.broadcaster v).0 e), v)
      | inr (sub, e) ↦
          let (ch, at, o) =
            Live-lookup w.broadcaster.heap id sub (entries w.broadcaster.subscribers) v e in
          let (b, done, v', _, _, _) = (unsubscribe_lem id w.broadcaster v).1 sub ch e at in
          (record w { broadcaster = b }, rw done, v')
    ]
step-IsValid (publishes change) w v =
    let (b, e, v', _, _, _) = publish_lem change w.broadcaster v in
    (record w { broadcaster = b }, rw e, v')
step-IsValid (receives a) w v = elim (Option-cases (get_elem? w.broadcaster.heap a)) [
  | inl e ↦ (w, rw (e, step), v)
  | inr (ch, at) ↦ read_valid ch ch.buffer at refl
]
  where
    read_valid :
        (ch : Chan Change) (buffer : List Change)
        → get_elem? w.broadcaster.heap a ≡ some ch
        → ch.buffer ≡ buffer
        → (w' : World) × (step (receives a) w ≡ ok w') × IsValid w'.broadcaster
    read_valid ch [] at e = (w, receives_lem a w ch [] at e, v)
    read_valid ch (c ∷ rest) at e = (
      _,
      receives_lem a w ch (c ∷ rest) at e,
      Live-keep w.broadcaster.heap _ (entries w.broadcaster.subscribers)
          (set-IsOpen w.broadcaster.heap a ch (record ch { buffer = rest }) at refl) v,
    )

-- From a valid broadcaster, and so from a new one, every history of Subscribe (with a size that is
-- not negative), Unsubscribe, Publish and reads runs to its end without a panic, in any order and
-- with any ids: no send on a closed channel, no second close. The broadcaster stays valid.
pub run_total :
    (ops : List Op) (w : World)
    → IsValid w.broadcaster
    → (w' : World) × (run ops w ≡ ok w') × IsValid w'.broadcaster
unfolding run
run_total [] w v = (w, refl, v)
run_total (op ∷ ops) w v =
    let (w1, e, v1) = step-IsValid op w v in
    let (w2, e2, v2) = run_total ops w1 v1 in (w2, rw e e2, v2)
