-- ===== src/Sse/Streams/Feeds.antt =====
-- A connection follows what is published, over any interleaving.
pub mod Own
pub mod Others
use phylax.Base.{
  ℕ, suc, Text, text_eq, get_elem?, get_elem?-lt, get_elem?-set_self, get_elem?-set_ne, List, [],
  ◌∷◌, ◌++◌, append-nil, Option, Option-cases, some, some_inj, Error, Res, ok, ◌≡◌, ◌≢◌, refl, sym,
  ◌∙◌, subst, ◌⊎◌, inl, inr, arith, ℕ_discrete,
}
use phylax.Change.{Change}
use phylax.Broadcast.{Broadcaster, entries, receive, Received}
use phylax.Broadcast.Valid.{IsOpen, Live-lookup}
use phylax.Broadcast.Entries.{HasEntry, unsubscribe-Keeps, receive-Keeps}
use phylax.Broadcast.History.{Op}
use phylax.Sse.{greeting, ping}
use phylax.Sse.Connections.{
  Phase, opening, streaming, leaving, ended, Connection, Handlers, Action, greets, sends, pings,
  disconnects, unsubscribes, put, received, handler_step, handler_at,
}
use phylax.Sse.Safety.{AreSound, subscriber_id-injective}
use phylax.Sse.Streams.{published_by, IsRunning, Follows, IsFed}
use phylax.Sse.Streams.Follows.{
  op-Follows, other_read, wrote-Follows, marshalled-Follows, noted, unsubscribes-History,
}

abbrev pub Feeds : ℕ → List Change → Action → Res Handlers → Type 0
Feeds i published a r =
    (w : Handlers) × (taken : List (ℕ × Change)) × (r ≡ ok w)
    × IsFed i (published ++ published_by a) taken w

pub still-Follows :
    (c : Connection) (b : Broadcaster) (taken : List (ℕ × Change)) (published more : List Change)
    → more ≡ []
    → Follows c b taken published
    → Follows c b taken (published ++ more)
still-Follows c b taken published more e (fates, t, p, s) =
    (fates, t, p ∙ rw e (sym (append-nil published)), s)

-- The connection has written.
pub put-IsFed :
    (w : Handlers) (b : Broadcaster) (i : ℕ) (c c' : Connection) (taken : List (ℕ × Change))
    (published : List Change)
    → get_elem? w.connections i ≡ some c
    → (IsRunning c'.phase → Follows c' b taken published)
    → IsFed i published taken (put (record w { broadcaster = b }) i c')
put-IsFed w b i c c' taken published at f = record {
  c = c';
  at = get_elem?-set_self w.connections i c' (get_elem?-lt w.connections i at);
  fed = f;
}

-- Another one has.
pub other-IsFed :
    (w : Handlers) (b : Broadcaster) (i j : ℕ) (c d : Connection) (taken : List (ℕ × Change))
    (published : List Change)
    → get_elem? w.connections i ≡ some c
    → j ≢ i
    → (IsRunning c.phase → Follows c b taken published)
    → IsFed i published taken (put (record w { broadcaster = b }) j d)
other-IsFed w b i j c d taken published at ne f = record {
  c = c;
  at = get_elem?-set_ne w.connections j i d ne ∙ at;
  fed = f;
}

module _ (marshal : Change → Error ⊎ Text) (i : ℕ) (w : Handlers) (taken : List (ℕ × Change))
    (published : List Change) (h : AreSound w) where
  -- The connection is as it was, and so is the broadcaster.
  pub kept-IsFed :
      (a : Action)
      → published_by a ≡ []
      → IsFed i published taken w
      → IsFed i (published ++ published_by a) taken w
  kept-IsFed a n f = record {
    c = f.c;
    at = f.at;
    fed = λ run_. still-Follows f.c w.broadcaster taken published (published_by a) n (f.fed run_);
  }
