-- ===== src/Webhook/Attempts.antt =====
-- postWithRetry of cmd/phylax/main.go: how often a change is posted, and with which sleeps.
use phylax.Base.{
  ℕ, zero, suc, ◌+◌, ◌*◌, ◌≤◌, ◌<◌, Option-cases, Text, List, [], ◌∷◌, ◌++◌, none, some, Error, ◌≡◌,
  refl, ◌⊎◌, inl, inr, arith,
}
use phylax.Webhook.{
  Answer, failed, responded, post_json, Event, posts, sleeps, gives_up, second, post_from,
  post_with_retry,
}

-- A response with a 2xx status.
abbrev pub Succeeds : Answer → Type 0
Succeeds a =
    (code : ℕ) × (status : Text) × (a ≡ responded code status) × (200 ≤ code) × (code < 300)

post_json-Succeeds : (a : Answer) → post_json a ≡ none → Succeeds a
unfolding post_json
post_json-Succeeds (failed e) h = absurd (cc)
post_json-Succeeds (responded code status) h =
    (code, status, refl, ground (arith, h), ground (arith, h))

post_json-fails : (a : Answer) (e : Error) → post_json a ≡ some e → ¬ Succeeds a
unfolding post_json
post_json-fails a e h (code, status, same, low, high) = ground (arith, same, h, low, high)

-- The posts of n attempts from one on, each followed by its sleep.
pub tries : Text → ℕ → ℕ → List Event
tries body from zero = []
tries body from (suc n) = posts body ∷ sleeps (from * second) ∷ tries body (suc from) n

-- The first n attempts from one on fail.
abbrev pub Fail : (ℕ → Answer) → ℕ → ℕ → Type 0
Fail answers from zero = Unit
Fail answers from (suc n) = (¬ Succeeds (answers from)) × Fail answers (suc from) n

-- The ways in which `left` attempts from one on can end.
abbrev pub Ends : (ℕ → Answer) → Text → ℕ → ℕ → List Event → Type 0
Ends answers body from left events =
    ((n : ℕ) × (n < left)
      × Fail answers from n
      × Succeeds (answers (n + from))
      × (events ≡ tries body from n ++ posts body ∷ []))
    ⊎ (Fail answers from left × (events ≡ tries body from left ++ gives_up ∷ []))

post_from-Ends :
    (answers : ℕ → Answer) (body : Text) (left from : ℕ)
    → Ends answers body from left (post_from answers body left from)
unfolding post_from tries
post_from-Ends answers body zero from = inr (tt, refl)
post_from-Ends answers body (suc left) from = elim (Option-cases (post_json (answers from))) [
  | inl good ↦
      inl (0, omega arith, tt, rw (← here) (post_json-Succeeds (answers from) good), rw good refl)
  | inr (e, bad) ↦
      let no = post_json-fails (answers from) e bad in
      elim (post_from-Ends answers body left (suc from)) [
        | inl (n, lt, fs, good, r) ↦
            inl (suc n, omega arith, (no, fs), rw (shift n) good, rw (bad, r) refl)
        | inr (fs, r) ↦ inr ((no, fs), rw (bad, r) refl)
      ]
]
  where
    here : from ≡ 0 + from
    here = omega arith

    shift : (n : ℕ) → suc n + from ≡ n + suc from
    shift n = omega arith

-- A change that json.Marshal encodes is posted until a response has a 2xx status, at most three
-- times; after the k-th failed attempt, the last included, it sleeps k seconds. After three failures
-- the change is dropped, with a log line; after a success nothing more is done.
pub post_with_retry_lem :
    (answers : ℕ → Answer) (body : Text)
    → Ends answers body 1 3 (post_with_retry answers (inr body))
unfolding post_with_retry
post_with_retry_lem answers body = post_from-Ends answers body 3 1
