-- ===== src/Examples/Tasks.antt =====
-- Runs of the factories and of the accept queue of the asyncio API.
use raknet_python.Prelude.{◌≡◌, refl, true, false, some, List, [], ◌∷◌, ◌++◌, ℕ}
use raknet_python.AsyncPeer.{completes, is_abandoned, is_cancelled}
use raknet_python.AsyncPeer.AcceptQueue.{AcceptQueue}
use raknet_python.AsyncPeer.AcceptQueue.Order.{
  Move, putting, running, getting, moves, waiting, moves-waiting,
}
use raknet_python.AsyncPeer.Factories.{create_connection}
use raknet_python.AsyncPeer.Factories.Tidy.{IsClean, IsLeft, create_connection-IsClean}
use raknet_python.Examples.World.{small}
use raknet_python.Examples.Setup.{call, resolved}

-- The task is cancelled while it waits for an answer.
create_connection-IsClean_example :
    IsClean small true (
      create_connection small completes completes is_cancelled
        (λ p. p)
        (λ p. p)
        call
        resolved
        (some 4))
    × IsLeft small (
        create_connection small is_abandoned completes is_cancelled
          (λ p. p)
          (λ p. p)
          call
          resolved
          (some 4))
create_connection-IsClean_example =
    create_connection-IsClean small (λ p. p) (λ p h. h) true completes is_cancelled (λ p. p) call
      resolved (some 4)

abbrev new_queue : AcceptQueue ℕ
new_queue = record { queue = 3 ∷ []; scheduled = 4 ∷ []; loop_closed = false }

abbrev plan : List (Move ℕ)
plan = putting 5 ∷ getting ∷ getting ∷ running ∷ putting 6 ∷ getting ∷ running ∷ []

moves-waiting_example :
    (moves new_queue plan).0 ++ waiting (moves new_queue plan).1 ≡ 3 ∷ 4 ∷ 5 ∷ 6 ∷ []
moves-waiting_example = moves-waiting new_queue plan refl
