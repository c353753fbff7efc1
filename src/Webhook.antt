-- ===== src/Webhook.antt =====
-- cmd/phylax/main.go: one change's delivery to the webhook (postWithRetry, postJSON). json.Marshal and
-- the HTTP client are parameters, by their answers.
pub mod Attempts
mod Examples
use phylax.Base.{
  ℕ, zero, suc, ◌*◌, ltb, leb, if◌then◌else◌, Bool, true, false, ◌||◌, Text, codes, List, [], ◌∷◌,
  ◌++◌, Option, none, some, Error, message, ◌⊎◌, inl, inr,
}

-- What client.Post returns: an error, or a response with its status code and its status line.
pub data Answer : Type 0 where
  failed : Error → Answer
  responded : ℕ → Text → Answer

unfoldable pub post_json : Answer → Option Error
post_json (failed e) = some e
post_json (responded code status) =
    if ltb code 200 || leb 300 code
    then some (message (codes "unexpected status " ++ status))
    else none

-- A POST of a body, a sleep in nanoseconds, and the log line of a change that is dropped.
pub data Event : Type 0 where
  posts : Text → Event
  sleeps : ℕ → Event
  gives_up : Event

abbrev pub second : ℕ
second = 1_000_000_000

abbrev pub max_attempts : ℕ
max_attempts = 3

-- The loop from an attempt on, with the attempts that are left.
unfoldable pub post_from : (ℕ → Answer) → Text → ℕ → ℕ → List Event
unfolding post_json
post_from answers body zero attempt = gives_up ∷ []
post_from answers body (suc left) attempt =
    let rest = post_from answers body left (suc attempt) in
    posts body
    ∷ elim (post_json (answers attempt)) [ none ↦ [] | some e ↦ sleeps (attempt * second) ∷ rest ]

-- The body is json.Marshal's result; the answers are those to the attempts from 1 on.
unfoldable pub post_with_retry : (ℕ → Answer) → Error ⊎ Text → List Event
unfolding post_from
post_with_retry answers (inl e) = []
post_with_retry answers (inr body) = post_from answers body max_attempts 1
