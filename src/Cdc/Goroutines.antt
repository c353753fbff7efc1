-- ===== src/Cdc/Goroutines.antt =====
-- The goroutine of OnChange (cdc.go): it calls the function with what its channel gives.
use phylax.Base.{
  ℕ, zero, suc, ◌<◌, Bool, true, false, Text, text_eq, lookup, length, get_elem?, get_elem?-lt,
  get_elem?-set_self, set, List, [], ◌∷◌, some, some_inj, Res, ok, ◌>>=◌, load, Chan, ◌≡◌, refl,
  sym, ◌∙◌, ap, arith,
}
use phylax.Change.{Change}
use phylax.Broadcast.{Subscription, Broadcaster, entries, receive, Received, take_front}
use phylax.Broadcast.Valid.{IsValid}
use phylax.Cdc.{Cdc, ids_of, contains, unsubscribe_all}
use phylax.Cdc.Registrations.{unsubscribe_all_lem}

abbrev called :
    Change → Res (Broadcaster × List Change × Bool) → Res (Broadcaster × List Change × Bool)
called change r = do (b, changes, ended) ← r; ok (b, change ∷ changes, ended)

-- The loop for at most as many reads of the channel as the fuel: the changes that the function was called
-- with, and whether the loop has ended.
unfoldable pub consume : ℕ → ℕ → Broadcaster → Res (Broadcaster × List Change × Bool)
consume zero a b = ok (b, [], false)
consume (suc fuel) a b = do
  (b', r) ← receive a b
  elim r [
    | Received.change change ↦ called change (consume fuel a b')
    | Received.finished ↦ ok (b', [], true)
    | Received.blocked ↦ ok (b', [], false)
  ]

-- Of a closed channel.
consume-closed :
    (changes : List Change) (fuel a : ℕ) (b : Broadcaster) (ch : Chan Change)
    → get_elem? b.heap a ≡ some ch
    → ch.buffer ≡ changes
    → ch.is_closed ≡ true
    → length changes < fuel
    → (b' : Broadcaster) × (consume fuel a b ≡ ok (b', changes, true))
unfolding consume receive
consume-closed changes zero a b ch at e closed h = absurd (omega (arith, h))
consume-closed [] (suc fuel) a b ch at e closed h = (b, rw (at, load, e, take_front, closed) refl)
consume-closed (change ∷ changes) (suc fuel) a b ch at e closed h =
    let rest : Chan Change = record ch { buffer = changes } in
    let (b', done) =
      consume-closed changes fuel a (record b { heap = set b.heap a rest }) rest
        (get_elem?-set_self b.heap a rest (get_elem?-lt b.heap a at)) refl closed
        (omega (arith, h)) in
    (b', rw (at, load, e, take_front, done) refl)

-- When Start shuts down a client with a valid broadcaster, the goroutine of each of its registrations
-- ends: it calls the registration's function with the changes that its channel still holds, all of
-- them and in their order, and then its loop is over, after one read more than there are changes.
pub unsubscribe_all-consume :
    (c : Cdc) (id : Text) (sub : Subscription) (ch : Chan Change) (fuel : ℕ)
    → IsValid c.broadcaster
    → contains (ids_of c.sub_ids) id ≡ true
    → lookup id (entries c.broadcaster.subscribers) ≡ some sub
    → get_elem? c.broadcaster.heap sub.ch ≡ some ch
    → length ch.buffer < fuel
    → (c' : Cdc) × (b : Broadcaster) × (unsubscribe_all c ≡ ok c')
      × (consume fuel sub.ch c'.broadcaster ≡ ok (b, ch.buffer, true))
unsubscribe_all-consume c id sub ch fuel v known e at h =
    let (c', done, removed, _) = unsubscribe_all_lem c v in
    let (ch', at', shut) = removed.closes id sub known e in
    let (closed, kept) = removed.buffers sub.ch ch at in
    let same : ch' ≡ record ch { is_closed = closed } = some_inj (sym at' ∙ kept) in
    let (b, ends) =
      consume-closed ch.buffer fuel sub.ch c'.broadcaster ch' at'
        (ap (λ (c : Chan Change). c.buffer) same) shut h in
    (c', b, done, ends)
