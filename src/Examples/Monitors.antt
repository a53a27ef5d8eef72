-- ===== src/Examples/Monitors.antt =====
-- The theorems on the request monitor, at a history with three requests and one turn.
use sleepy_hot_stuff.Base.{ℕ, ◌≡◌, refl, false, some, List, [], ◌∷◌, ◌++◌, ℤ, pos}
use sleepy_hot_stuff.Env.{Env}
use sleepy_hot_stuff.Db.{no_persist, write_fails}
use sleepy_hot_stuff.Consensus.State.{Replica, persist, emit}
use sleepy_hot_stuff.Consensus.Sequence.{increment}
use sleepy_hot_stuff.Consensus.View.{tell_everyone, leader_id}
use sleepy_hot_stuff.Consensus.Propose.{monitor_turn, start_hotstuff, await_proposal}
use sleepy_hot_stuff.Consensus.Dispatch.{
  Event, request, requests, monitor, step, run, handle_request, handle_batch_request,
}
use sleepy_hot_stuff.Consensus.Dispatch.Requests.{all_arrivals, all_batches, batch_of, proposes}
use sleepy_hot_stuff.Message.{RawMessage}
use sleepy_hot_stuff.Consensus.Dispatch.Order.{Proposals, run-in_order}
use sleepy_hot_stuff.Consensus.Dispatch.Turns.{Turn, monitor_turn-Turn}
use sleepy_hot_stuff.Queue.{append, append_batch, grab_with_max_len, grab_with_max_len_and_clear}
use sleepy_hot_stuff.Utils.IntByteMap
use sleepy_hot_stuff.Examples.Setup.{test_env, test_replica}

abbrev env : Env
env = test_env no_persist

abbrev at : Event → (ℕ → ℤ) × Event
at ev = (λ n. pos n, ev)

abbrev requests_and_turn : List ((ℕ → ℤ) × Event)
requests_and_turn =
    at (request (some (1 ∷ [])))
    ∷ at (monitor (pos 1))
    ∷ at (requests (some (2 ∷ []) ∷ some (3 ∷ []) ∷ []))
    ∷ []

goes_on : (run env requests_and_turn test_replica).halted ≡ false
unfolding run step handle_request handle_batch_request append append_batch persist emit increment
    tell_everyone monitor_turn start_hotstuff await_proposal grab_with_max_len_and_clear
    IntByteMap.get_len write_fails leader_id
goes_on = refl

run-in_order_example :
    (batches : List RawMessage) × Proposals env requests_and_turn test_replica batches
    × (batches ++ (run env requests_and_turn test_replica).queue
        ≡ test_replica.queue ++ all_arrivals requests_and_turn)
run-in_order_example = run-in_order env requests_and_turn test_replica goes_on

-- The turn has proposed the first request, and the others wait.
proposed_first :
    all_batches env requests_and_turn test_replica ≡ record { msg = some (1 ∷ []) } ∷ []
unfolding all_batches batch_of proposes step handle_request append persist leader_id
    IntByteMap.get_len grab_with_max_len monitor_turn
proposed_first = refl

-- A replica with a request in its queue.
abbrev asked : Replica
asked = record test_replica { queue = record { msg = some (1 ∷ []) } ∷ [] }

turn_goes_on : (monitor_turn env (pos 1) asked).0.halted ≡ false
unfolding persist emit increment tell_everyone monitor_turn start_hotstuff await_proposal
    grab_with_max_len_and_clear IntByteMap.get_len write_fails leader_id
turn_goes_on = refl

monitor_turn-Turn_example : Turn env (pos 1) asked (monitor_turn env (pos 1) asked).0
monitor_turn-Turn_example = monitor_turn-Turn env (pos 1) asked turn_goes_on
