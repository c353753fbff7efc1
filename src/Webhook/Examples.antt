-- ===== src/Webhook/Examples.antt =====
-- postWithRetry at concrete answers.
use phylax.Base.{ℕ, ltb, if◌then◌else◌, codes, [], ◌∷◌, inr, ◌≡◌, refl}
use phylax.Webhook.{Answer, responded, posts, sleeps, post_with_retry}
use phylax.Webhook.Attempts.{Ends, post_with_retry_lem}

-- A server that is unavailable at the first attempt.
abbrev second_time : ℕ → Answer
second_time n = if ltb n 2 then responded 503 (codes "503") else responded 204 (codes "204")

post_with_retry_test :
    post_with_retry second_time (inr (codes "{}"))
    ≡ posts (codes "{}") ∷ sleeps 1_000_000_000 ∷ posts (codes "{}") ∷ []
unfolding post_with_retry
post_with_retry_test = refl

post_with_retry_lem_example :
    Ends second_time (codes "{}") 1 3 (post_with_retry second_time (inr (codes "{}")))
post_with_retry_lem_example = post_with_retry_lem second_time (codes "{}")
