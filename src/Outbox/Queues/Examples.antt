-- ===== src/Outbox/Queues/Examples.antt =====
-- outbox.go: the queues at concrete interleavings, and 64 topics in use.
use phylax.Base.{
  ℕ, zero, suc, Text, codes, print_ℕ, lookup, insert, text_eq, text_beq, List, [], ◌∷◌, ◌++◌, none,
  some, false, pos, ◌≡◌, refl,
}
use phylax.Outbox.{OutboxRow}
use phylax.Outbox.Queues.{
  Consumer, Action, enqueues, starts, sends, takes, finishes, outside, starting, max_drainers,
  initial, step, run,
}
use phylax.Outbox.Queues.Order.{InOrder, run-initial-InOrder}
use phylax.Outbox.Queues.Bounds.{Bounded, run-step, run-initial-Bounded}
use phylax.Outbox.Queues.Blocking.{stored, enqueue_step_lem, new_topic_blocks}

-- A row of a topic; the payload is a number.
abbrev row_of : ℕ → Text → OutboxRow ℕ
row_of id topic = record { id = pos id; topic = topic; payload = id }

-- One row enqueued, received by its drainer and handled.
abbrev deliver_one : ℕ → Text → List (Action ℕ)
deliver_one id topic =
    enqueues (row_of id topic) ∷ starts ∷ sends ∷ takes topic ∷ finishes topic ∷ []

abbrev two_rows : List (Action ℕ)
two_rows = deliver_one 1 (codes "a") ++ deliver_one 2 (codes "a")

abbrev state_after : List (Action ℕ) → Consumer ℕ
state_after actions = elim (run actions initial) [ none ↦ initial | some s ↦ s ]

two_rows-run : run two_rows initial ≡ some (state_after two_rows)
unfolding run step initial lookup insert text_beq
two_rows-run = refl

-- Both rows handled, in order, by one goroutine.
two_rows_test :
    ((state_after two_rows).handled
      ≡ (codes "a", row_of 1 (codes "a")) ∷ (codes "a", row_of 2 (codes "a")) ∷ [])
    × ((state_after two_rows).sem ≡ 1)
unfolding run step initial lookup insert text_beq
two_rows_test = (refl, refl)

run-initial-InOrder_example : InOrder (state_after two_rows)
run-initial-InOrder_example = run-initial-InOrder two_rows (state_after two_rows) two_rows-run

run-initial-Bounded_example : Bounded (state_after two_rows)
run-initial-Bounded_example = run-initial-Bounded two_rows (state_after two_rows) two_rows-run

-- n topics with a row each.
abbrev many_topics : ℕ → List (Action ℕ)
many_topics zero = []
many_topics (suc n) = many_topics n ++ deliver_one n (print_ℕ n)

busy : Consumer ℕ
busy = state_after (many_topics max_drainers)

abbrev new_row : OutboxRow ℕ
new_row = row_of 99 (codes "new")

-- Every topic's row has been handled, and the 64 goroutines are idle.
busy_test :
    (busy.producer ≡ outside)
    × (busy.sem ≡ max_drainers)
    × (busy.is_done ≡ false)
    × (lookup (codes "new") busy.topics ≡ none)
unfolding busy run step initial lookup insert text_beq print_ℕ
busy_test = (refl, refl, refl, refl)

stuck_run : run (enqueues new_row ∷ []) busy ≡ some (stored new_row busy)
unfolding run
stuck_run =
    run-step (enqueues new_row) [] busy (stored new_row busy)
      (enqueue_step_lem new_row busy busy_test.0) refl

new_topic_blocks_example : (stored new_row busy).producer ≡ starting new_row
new_topic_blocks_example =
    new_topic_blocks new_row busy [] (stored new_row busy) busy_test.0 busy_test.1 busy_test.2
      busy_test.3 tt stuck_run
