-- ===== src/Queue/Tests.antt =====
-- Calls of push and pop on a queue of capacity 2.
use i_tcp.Common.{ℕ, ◌≤◌, ◌≡◌, List, [], ◌∷◌, ◌++◌, length}
use i_tcp.Queue.{new}
use i_tcp.Queue.Holds.{Holds}
use i_tcp.Queue.Schedule.{Call, put, take, Trace, run, run_fifo}

abbrev calls : List (Call ℕ)
calls = put 1 ∷ take ∷ take ∷ put 2 ∷ put 3 ∷ put 4 ∷ take ∷ []

abbrev outcome : Trace ℕ
outcome = run (record { queue = new 2 0; accepted = []; taken = [] }) calls

run_fifo_example :
    (held : List ℕ) × Holds outcome.queue held
    × (outcome.accepted ≡ outcome.taken ++ held)
    × (length held ≤ 2)
run_fifo_example = run_fifo 2 0 calls
