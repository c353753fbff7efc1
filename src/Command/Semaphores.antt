-- ===== src/Command/Semaphores.antt =====
-- webhookChangeHandler: its callback, which takes a slot of the semaphore for each change, and the
-- goroutines that deliver the changes. The deliveries themselves are Webhook.antt's.
pub mod Ends
use phylax.Base.{
  ℕ, zero, suc, ◌+◌, ◌*◌, ◌<◌, ◌≤◌, ltb, if◌then◌else◌, Bool, true, false, length, length-append,
  get_elem?, set, All, List, [], ◌∷◌, ◌++◌, append_assoc, map, Option, none, some, some_inj, ◌>>=◌,
  ◌≡◌, refl, sym, ◌∙◌, ap, subst, ◌≢◌, Bool-cases, ltb→lt, lt→ltb, ◌⊎◌, inl, inr, arith,
}
use phylax.Change.{Change}

abbrev pub webhook_concurrency : ℕ
webhook_concurrency = 5

-- The changes that the callback was not yet called with, the goroutines in the order of their start, each
-- with its change and whether it has ended, and how many values the channel of the semaphore holds.
pub record Deliveries : Type 0 where
  pub pending : List Change
  pub posts : List (Change × Bool)
  pub held : ℕ

-- The callback with the next change, and the end of the i-th goroutine.
pub data Action : Type 0 where
  calls : Action
  ends : ℕ → Action

unfoldable pub fresh : List Change → Deliveries
fresh changes = record { pending = changes; posts = []; held = 0 }

-- A send to a full channel blocks, and so does a read from an empty one.
abbrev pub acquire : List Change → Deliveries → Option Deliveries
acquire [] w = none
acquire (change ∷ pending) w =
    if ltb w.held webhook_concurrency
    then some
        (record { pending = pending; posts = w.posts ++ (change, false) ∷ []; held = suc w.held })
    else none

abbrev pub release : ℕ → Change → ℕ → Deliveries → Option Deliveries
release i change zero w = none
release i change (suc held) w =
    some (record w { posts = set w.posts i (change, true); held = held })

abbrev pub end_at : ℕ → Option (Change × Bool) → Deliveries → Option Deliveries
end_at i (some (change, false)) w = release i change w.held w
end_at i _ w = none

-- `none` where the action blocks or there is none to take.
unfoldable pub step : Action → Deliveries → Option Deliveries
step calls w = acquire w.pending w
step (ends i) w = end_at i (get_elem? w.posts i) w

unfoldable pub run : List Action → Deliveries → Option Deliveries
unfolding step
run [] w = some w
run (a ∷ actions) w = elim (step a w) [ none ↦ none | some w' ↦ run actions w' ]

-- The goroutines that have not ended.
unfoldable pub in_flight : List (Change × Bool) → ℕ
in_flight [] = 0
in_flight ((change, true) ∷ posts) = in_flight posts
in_flight ((change, false) ∷ posts) = suc (in_flight posts)

abbrev pub changes_of : List (Change × Bool) → List Change
changes_of posts = map (λ post. post.0) posts
