-- ===== src/Pool/Reserved.antt =====
-- state_machines/snapshot-state-machine-pool.cc: the room that is reserved in the next pool.
use polar_express.Base.{
  ℕ, ◌+◌, ◌≤◌, ◌<◌, ◌≡◌, Option, none, some, List, [], ◌∷◌, ◌++◌, if◌then◌else◌, min,
}
use polar_express.Pool.{Pool, word}
use polar_express.Pool.Weights
use polar_express.Pool.Weights.{IsBalanced, IsExact}
use polar_express.Pool.Pipeline.{Snapshot, is_counted, Pipeline}

-- The next pool has room for the output of all machines that run.
pub record IsReserved {Input : Type 0} (top : ℕ) (l : Pipeline Input) : Type 0 where
  pub balanced : IsBalanced l.pool
  pub measured : l.next_pool_max_input_weight ≡ top
  pub bound : l.next_pool.max_pending_inputs_weight ≡ top
  pub fits : l.next_pool.pending_inputs_weight + l.pool.total_running_output_weight ≤ top
  pub exact : IsExact (λ _. 0) l.pool

-- What a finished machine adds to the queue of the next pool.
abbrev pub passed_on : {Input : Type 0} → Pipeline Input → Option Snapshot → List (Snapshot × ℕ)
passed_on l none = []
passed_on l (some g) =
    if is_counted g then (g, min l.next_pool_max_input_weight g.length) ∷ [] else []

module _ {Input : Type 0} (top : ℕ) (some_room : 0 < top) (small : top + top < word) where
  -- The machine's result is in the queue, with `rest` left to come.
  record IsPassed (l l' : Pipeline Input) (rest : ℕ) (more : List (Snapshot × ℕ)) : Type 0 where
    pub pool_is : l'.pool ≡ l.pool
    pub measured : l'.next_pool_max_input_weight ≡ top
    pub bound : l'.next_pool.max_pending_inputs_weight ≡ top
    pub fits : l'.next_pool.pending_inputs_weight + rest ≤ top
    pub queue : l'.next_pool.pending_inputs ≡ l.next_pool.pending_inputs ++ more
