-- ===== src/Listener/Examples.antt =====
-- cmd/sse-client/main.go at concrete streams.
use phylax.Base.{
  ℕ, zero, suc, Text, codes, length, ◌+◌, ◌<◌, List, [], ◌∷◌, ◌++◌, subst, none, some, Error,
  message, ◌≡◌, refl, ap, arith,
}
use phylax.Change.{Change}
use phylax.Sse.{Item, greeting, ping, change, render, data_frame}
use phylax.Sse.Examples.{order, marshal}
use phylax.Listener.Clients.{FitsOnLine}
use phylax.Listener.{listen_body, too_long, max_token_size}
use phylax.Listener.Frames.{OneLine, payloads}
use phylax.Listener.Cuts.{listen-overlong}

abbrev stream : List Item
stream = greeting ∷ change order (codes "{}") ∷ ping ∷ change order (codes "[]") ∷ []

abbrev reset : Error
reset = message (codes "connection reset")

unfoldable copies : ℕ → Text
copies zero = []
copies (suc n) = b'x' ∷ copies n

length-copies : (n : ℕ) → length (copies n) ≡ n
unfolding copies
length-copies zero = refl
length-copies (suc n) = ap suc (length-copies n)

copies-OneLine : (n : ℕ) → OneLine (copies n)
unfolding copies
copies-OneLine zero = tt
copies-OneLine (suc n) = ((omega arith, omega arith), copies-OneLine n)

-- A change whose JSON has 65530 bytes.
listen-overlong_example :
    listen_body (render stream ++ (data_frame (copies 65530) ++ codes ": ping")) none
    ≡ (codes "{}" ∷ codes "[]" ∷ [], some too_long)
unfolding payloads listen_body
listen-overlong_example =
    listen-overlong stream (copies 65530) (codes ": ping") none
      (tt, ((ground arith, omega arith), (tt, ((ground arith, omega arith), tt))))
      (copies-OneLine 65530) (omega (arith, length-copies 65530))

pub marshal-FitsOnLine : (x : Change) → FitsOnLine marshal x
marshal-FitsOnLine x json e =
    let same : codes "{}" ≡ json = cc e in
    subst (λ t. OneLine t × (length t + 6 < max_token_size)) same (ground arith, omega arith)
