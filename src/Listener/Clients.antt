-- ===== src/Listener/Clients.antt =====
-- What the client of cmd/sse-client/main.go prints of the changes that the server of sse.go publishes.
use phylax.Base.{
  suc, ◌+◌, ◌<◌, length, word_mod, Text, All, List, [], ◌∷◌, ◌++◌, get_elem?, text_eq, some, Option,
  Error, ok, ◌≡◌, ◌≢◌, refl, sym, subst, ◌⊎◌, inr,
}
use phylax.Change.{Change}
use phylax.Broadcast.History.Fates.{Fates, enters, misses, leaves, published_of, kept_of}
use phylax.Sse.{Item, greeting, ping, change, nil_change, render}
use phylax.Sse.Connections.{Connection, Handlers, Action, connects, run}
use phylax.Sse.Safety.{AreSound, IsForeign}
use phylax.Sse.Runs.{run_sound}
use phylax.Sse.Marshals.{IsMarshalled, run-IsMarshalledAt}
use phylax.Sse.Streams.{sent_of, published_in, IsRunning, IsAlone}
use phylax.Sse.Streams.Serves.{IsServed, run_serves}
use phylax.Listener.{replied, listen, max_token_size}
use phylax.Listener.Frames.{OneLine, Fits, payloads, listen_body-render}

module _ (marshal : Change → Error ⊎ Text) where
  -- The JSON of each change.
  abbrev pub AreJsons : List Change → List Text → Type 0
  AreJsons [] [] = Unit
  AreJsons (x ∷ xs) (json ∷ jsons) = (marshal x ≡ inr json) × AreJsons xs jsons
  AreJsons _ _ = ⊥

  -- The JSON of a change, if it has one, is one line that the client's scanner takes.
  abbrev pub FitsOnLine : Change → Type 0
  FitsOnLine x =
      (json : Text) → marshal x ≡ inr json → OneLine json × (length json + 6 < max_token_size)

  payloads-AreJsons :
      (items : List Item)
      → All (IsMarshalled marshal) items
      → All (λ item. item ≢ nil_change) items
      → AreJsons (sent_of items) (payloads items)
  unfolding payloads
  payloads-AreJsons [] m r = tt
  payloads-AreJsons (greeting ∷ items) m r = payloads-AreJsons items m.1 r.1
  payloads-AreJsons (ping ∷ items) m r = payloads-AreJsons items m.1 r.1
  payloads-AreJsons (change x json ∷ items) m r = (m.0, payloads-AreJsons items m.1 r.1)
  payloads-AreJsons (nil_change ∷ items) m r = absurd (r.0 refl)

  sent-Fits :
      (items : List Item)
      → All (IsMarshalled marshal) items
      → All FitsOnLine (sent_of items)
      → All Fits items
  sent-Fits [] m f = tt
  sent-Fits (greeting ∷ items) m f = (tt, sent-Fits items m.1 f)
  sent-Fits (ping ∷ items) m f = (tt, sent-Fits items m.1 f)
  sent-Fits (change x json ∷ items) m f = (f.0 json m.0, sent-Fits items m.1 f.1)
  sent-Fits (nil_change ∷ items) m f = (tt, sent-Fits items m.1 f)

-- What was kept is among what was published.
All-kept_of :
    (P : Change → Type 0) (fates : Fates) → All P (published_of fates) → All P (kept_of fates)
All-kept_of P [] h = tt
All-kept_of P (enters c ∷ fates) h = (h.0, All-kept_of P fates h.1)
All-kept_of P (misses c ∷ fates) h = All-kept_of P fates h.1
All-kept_of P (leaves ∷ fates) h = All-kept_of P fates h

All-prefix : (P : Change → Type 0) (xs ys : List Change) → All P (xs ++ ys) → All P xs
All-prefix P [] ys h = tt
All-prefix P (x ∷ xs) ys h = (h.0, All-prefix P xs ys h.1)

-- The client has printed the JSON of the changes that were sent, and they go on with those that wait
-- in the channel.
abbrev pub IsPrinted :
    (Change → Error ⊎ Text) → Handlers → Connection → List Change → Option Error → Type 0
IsPrinted marshal w c published e =
    (jsons : List Text) × (listen (replied (render c.written) e) ≡ (jsons, e))
    × AreJsons marshal (sent_of c.written) jsons
    × IsServed w c published

-- From a request to /events on, while its handler runs, a client whose connection ends has printed exactly
-- the JSON of the changes that it was sent, one by one and in their order; with what waits in its
-- channel, these changes are all that were published since, without those that were dropped, which are
-- counted: a change is dropped exactly where ten wait in the channel. The client returns the error that ended its connection. The JSON of
-- each published change, where it has one, has to be one line that fits the client's scanner, no other
-- user of the broadcaster has an id of the form "sse-n" and none reads the handler's channel, and the
-- requests are less than 2^64.
pub run_prints :
    (marshal : Change → Error ⊎ Text) (w : Handlers) (actions : List Action) (e : Option Error)
    → AreSound w
    → All IsForeign actions
    → All (IsAlone (suc (length w.connections))) actions
    → length w.connections + suc (length actions) < word_mod
    → All (FitsOnLine marshal) (published_in actions)
    → (w' : Handlers) × (c : Connection) × (run marshal (connects ∷ actions) w ≡ ok w')
      × (get_elem? w'.connections (length w.connections) ≡ some c)
      × (IsRunning c.phase → IsPrinted marshal w' c (published_in actions) e)
unfolding listen
run_prints marshal w actions e h g alone small fits =
    let (w1, c, run_, at, served) = run_serves marshal w actions h g alone small in
    let (w2, run2, sound) = run_sound marshal (connects ∷ actions) w h (tt, g) small in
    let same : w2 ≡ w1 = cc (run_, run2) in
    let real = ((subst AreSound same sound).each (length w.connections) c at).real in
    let marshalled = run-IsMarshalledAt marshal (connects ∷ actions) w w1 run_ c at in
    (
      w1,
      c,
      run_,
      at,
      λ running.
          let (fates, sub, ch, p, found, heap, kept, lost, exact, at_most, offers) =
            served running in
          let all_kept : All (FitsOnLine marshal) (kept_of fates) =
            All-kept_of (FitsOnLine marshal) fates
              (subst (All (FitsOnLine marshal)) (sym p) fits) in
          let all_sent =
            All-prefix (FitsOnLine marshal) (sent_of c.written) ch.buffer
              (subst (All (FitsOnLine marshal)) (sym kept) all_kept) in
          (
            payloads c.written,
            listen_body-render c.written e (sent-Fits marshal c.written marshalled all_sent),
            payloads-AreJsons marshal c.written marshalled real,
            served running,
          ),
    )
