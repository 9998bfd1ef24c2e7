-- ===== src/Pool/Tests.antt =====
-- state_machines/one-shot-state-machine-pool.h, snapshot-state-machine-pool.cc: pools of two machines that
-- take weights up to 10.
use polar_express.Base.{[], ◌∷◌, ℕ, ◌≡◌, refl, some, true, arith}
use polar_express.Pool.{Pool, new, add_new_input}
use polar_express.Pool.Weights
use polar_express.Pool.Weights.{IsBalanced, IsRunning, Reach, pool-IsBalanced}
use polar_express.Pool.Pipeline
use polar_express.Pool.Pipeline.{Pipeline, Snapshot, new_pipeline}

-- Inputs are numbers, and the output of each weighs as much as its number.
abbrev weigh_output : ℕ → ℕ
weigh_output n = n

-- One input of weight 4 was added, and its machine was started.
abbrev one_added : Pool ℕ
one_added = record (new 10 2) {
  num_running_state_machines = 1;
  running_machine_output_weight = (0, 7) ∷ [];
  total_running_output_weight = 7;
  num_constructed = 1;
}

added : (add_new_input weigh_output (some 9) 7 4 (new 10 2)).1 ≡ one_added
unfolding add_new_input
added = refl

reached : Reach weigh_output 10 2 (add_new_input weigh_output (some 9) 7 4 (new 10 2)).1
reached = Weights.Reach.next Weights.Reach.start (Weights.Step.adds (some 9) 7 4 (omega arith))

pool-IsBalanced_example : IsBalanced (add_new_input weigh_output (some 9) 7 4 (new 10 2)).1
pool-IsBalanced_example = pool-IsBalanced weigh_output 10 2 reached

-- One input of weight 4, a file of 7 bytes, in front of a pool that takes 10.
abbrev begun : Pipeline ℕ
begun = record (new_pipeline 10 2 10 1) {
  pool = (add_new_input (Pipeline.output_weight (λ n. n) 10) (some 10) 7 4 (new 10 2)).1;
}

abbrev seven_bytes : Snapshot
seven_bytes = record { is_regular = true; length = 7 }
