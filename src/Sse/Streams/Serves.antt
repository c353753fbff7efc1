-- ===== src/Sse/Streams/Serves.antt =====
-- What a client of /events is sent, from its request on.
use phylax.Base.{
  has_room, push_back, if◌then◌else◌, true, ◌≤◌, suc, ◌+◌, ◌<◌, ◌%◌, add64, word_mod, Text, text_eq,
  lookup, insert, lookup-insert_self, false, length, get_elem?, get_elem?-append_last, All, List,
  [], ◌∷◌, ◌++◌, some, Error, ok, ◌≡◌, refl, ◌∙◌, ap, subst, ◌⊎◌, Chan, arith,
}
use phylax.Change.{Change}
use phylax.Broadcast.{Subscription, Broadcaster, entries, subscribe, publish}
use phylax.Broadcast.Valid.{IsValid}
use phylax.Broadcast.Publish.{publish_lem}
use phylax.Broadcast.History.Fates.{Fates, IsExact, published_of, kept_of, lost_of}
use phylax.Sse.Connections.{
  opening, Connection, Handlers, Action, connects, subscriber_id, connect, step, run,
}
use phylax.Sse.Safety.{AreSound, IsForeign}
use phylax.Sse.Runs.{step-Steps}
use phylax.Sse.Streams.{sent_of, published_in, IsRunning, IsAlone, IsFed}
use phylax.Sse.Streams.Sent.{run-Feeds}

-- The connection of a request, before its handler has done anything.
connects-IsFed :
    (marshal : Change → Error ⊎ Text) (w : Handlers)
    → AreSound w
    → length w.connections + 1 < word_mod
    → (w' : Handlers) × (step marshal connects w ≡ ok w') × IsFed (length w.connections) [] [] w'
unfolding step connect subscribe
connects-IsFed marshal w h small =
    let n = suc (length w.connections) in
    let next : add64 w.next_subscriber_id 1 ≡ n = omega (arith, h.numbered) in
    let ch : Chan Change = record { capacity = 10; buffer = []; is_closed = false } in
    let sub : Subscription = record { ch = length w.broadcaster.heap; dropped = 0 } in
    let c : Connection = record {
      id = subscriber_id n;
      ch = length w.broadcaster.heap;
      phase = opening;
      written = [];
    } in
    (
      record {
        broadcaster = record {
          heap = w.broadcaster.heap ++ ch ∷ [];
          subscribers = some (insert (subscriber_id n) sub (entries w.broadcaster.subscribers));
        };
        next_subscriber_id = n;
        connections = w.connections ++ c ∷ [];
      },
      rw next refl,
      record {
        c = c;
        at = get_elem?-append_last w.connections c;
        fed = λ run_. (
          [],
          record {
            tracks = record {
              sub = sub;
              ch = ch;
              found = lookup-insert_self (subscriber_id n) sub (entries w.broadcaster.subscribers);
              address = refl;
              at = get_elem?-append_last w.broadcaster.heap ch;
              kept = refl;
              lost = omega arith;
              fits = omega arith;
            };
            exact = refl;
            sized = refl;
          },
          refl,
          refl,
        );
      },
    )

-- What the next publication comes to for a subscriber: with fewer than ten changes waiting, the change
-- waits behind them; with ten, it is dropped and counted.
abbrev pub IsOffered : Broadcaster → Text → Subscription → Chan Change → Type 0
IsOffered b id sub ch =
    (x : Change)
    → (b' : Broadcaster) × (publish x b ≡ ok b')
      × (length ch.buffer < 10
          → (lookup id (entries b'.subscribers) ≡ some sub)
            × (get_elem? b'.heap sub.ch ≡ some (record ch { buffer = ch.buffer ++ x ∷ [] })))
      × (length ch.buffer ≡ 10
          → (lookup id (entries b'.subscribers)
              ≡ some (record sub { dropped = add64 sub.dropped 1 }))
            × (get_elem? b'.heap sub.ch ≡ some ch))

tracked-IsOffered :
    (b : Broadcaster) (id : Text) (sub : Subscription) (ch : Chan Change)
    → IsValid b
    → lookup id (entries b.subscribers) ≡ some sub
    → get_elem? b.heap sub.ch ≡ some ch
    → ch.capacity ≡ 10
    → IsOffered b id sub ch
tracked-IsOffered b id sub ch v found at size x =
    let (b', e, _, delivers, _, _) = publish_lem x b v in
    let (l, h) = delivers id sub ch found at in
    (
      b',
      e,
      λ few.
          let room : has_room ch ≡ true = ground (arith, few, size) in
          (
            l
                ∙ ap (λ r. some (if r then sub else record sub { dropped = add64 sub.dropped 1 }))
                    room,
            h ∙ ap (λ r. some (if r then push_back x ch else ch)) room,
          ),
      λ all.
          let full : has_room ch ≡ false = ground (arith, all, size) in
          (
            l
                ∙ ap (λ r. some (if r then sub else record sub { dropped = add64 sub.dropped 1 }))
                    full,
            h ∙ ap (λ r. some (if r then push_back x ch else ch)) full,
          ),
    )

-- What a connection was sent, by its fates since its request: the changes that entered the buffer of its
-- channel and those that missed it, which is full at 10 changes, and the reads between them.
abbrev pub IsServed : Handlers → Connection → List Change → Type 0
IsServed w c published =
    (fates : Fates) × (sub : Subscription) × (ch : Chan Change) × (published_of fates ≡ published)
    × (lookup c.id (entries w.broadcaster.subscribers) ≡ some sub)
    × (get_elem? w.broadcaster.heap sub.ch ≡ some ch)
    × (sent_of c.written ++ ch.buffer ≡ kept_of fates)
    × (sub.dropped ≡ lost_of fates % word_mod)
    × IsExact 10 0 fates (length ch.buffer)
    × (length ch.buffer ≤ 10)
    × IsOffered w.broadcaster c.id sub ch

-- From a request to /events on, while its handler runs, what its client was sent and what waits in its
-- channel are together, in the order of publication, all changes that were published since, without
-- those that were dropped, which the subscription's counter counts modulo 2^64. At most ten wait, and in
-- every state that is reached the next change published is kept behind them where fewer than ten wait,
-- and is dropped and counted where ten do; so the changes, with as many reads as were sent between them,
-- fill and empty a buffer of ten that was empty at the request, each being dropped exactly at ten.
-- This holds beside any number of other handlers and other users of the broadcaster, in any order and
-- with any failures, where no other user has an id of the form "sse-n" and none reads the handler's
-- channel. The requests have to be less than 2^64.
pub run_serves :
    (marshal : Change → Error ⊎ Text) (w : Handlers) (actions : List Action)
    → AreSound w
    → All IsForeign actions
    → All (IsAlone (suc (length w.connections))) actions
    → length w.connections + suc (length actions) < word_mod
    → (w' : Handlers) × (c : Connection) × (run marshal (connects ∷ actions) w ≡ ok w')
      × (get_elem? w'.connections (length w.connections) ≡ some c)
      × (IsRunning c.phase → IsServed w' c (published_in actions))
unfolding run
run_serves marshal w actions h g alone small =
    let i = length w.connections in
    let (w1, e1, h1, few) = step-Steps marshal connects w h tt (omega (arith, small)) in
    let (w1', e1', f1) = connects-IsFed marshal w h (omega (arith, small)) in
    let same : w1' ≡ w1 = cc (e1, e1') in
    let (w2, taken, e2, h2, f) =
      run-Feeds marshal i actions w1 [] [] h1 (subst (IsFed i [] []) same f1) g alone
        (omega (arith, few, small)) in
    (
      w2,
      f.c,
      rw e1 e2,
      f.at,
      λ run_.
          let (fates, t, p, s) = f.fed run_ in
          let at : get_elem? w2.broadcaster.heap t.tracks.sub.ch ≡ some t.tracks.ch =
            rw t.tracks.address t.tracks.at in
          (
            fates,
            t.tracks.sub,
            t.tracks.ch,
            p,
            t.tracks.found,
            at,
            ap (λ cs. cs ++ t.tracks.ch.buffer) s ∙ t.tracks.kept,
            t.tracks.lost,
            t.exact,
            omega (arith, t.tracks.fits, t.sized),
            tracked-IsOffered w2.broadcaster f.c.id t.tracks.sub t.tracks.ch h2.valid t.tracks.found
                at t.sized,
          ),
    )
