-- ===== src/Pool/Pipeline.antt =====
-- state_machines/snapshot-state-machine-pool.cc with the pool behind it: each generated snapshot
-- becomes an input of the next pool.
use polar_express.Base.{
  ℕ, ◌+◌, ◌≤◌, ◌<◌, ◌≡◌, Bool, Option, none, some, [], ◌∷◌, ◌++◌, ltb, assert, ◌>>=◌, ◌>>◌, ◌&&◌,
  ◌%◌, if◌then◌else◌, min, max,
}
use polar_express.Pool.{
  Pool, word, new, weight_of, can_accept_new_input, try_run_next, add_new_input,
  delete_state_machine, input_weight_remaining,
}
use polar_express.Pool.Weights.{IsRunning}

-- What the pools ask of a snapshot.
pub record Snapshot : Type 0 where
  pub is_regular : Bool
  pub length : ℕ

abbrev pub is_counted : Snapshot → Bool
is_counted g = g.is_regular && ltb 0 g.length

-- AddNewInput, up to the run of a machine, which only takes inputs off the queue.
unfoldable pub enqueue : {Input : Type 0} → Input → ℕ → Pool Input → Pool Input
unfolding can_accept_new_input
enqueue input weight p =
    if can_accept_new_input weight p
    then record p {
      pending_inputs = p.pending_inputs ++ (input, weight) ∷ [];
      pending_inputs_weight = (p.pending_inputs_weight + weight) % word;
    }
    else p

-- The pool of snapshots and the pool behind it, whose room was measured when it was empty.
pub record Pipeline (Input : Type 0) : Type 0 where
  pub pool : Pool Input
  pub next_pool : Pool Snapshot
  pub next_pool_max_input_weight : ℕ
  pub num_snapshots_generated : ℕ
  pub size_of_snapshots_generated : ℕ

abbrev pub new_pipeline : {Input : Type 0} → ℕ → ℕ → ℕ → ℕ → Pipeline Input
new_pipeline max_weight max_machines next_weight next_machines = record {
  pool = new max_weight max_machines;
  next_pool = new next_weight next_machines;
  next_pool_max_input_weight = next_weight;
  num_snapshots_generated = 0;
  size_of_snapshots_generated = 0;
}

module _ {Input : Type 0} where
  -- The calls of the base class see the room of the next pool.
  abbrev pub room_of : Pipeline Input → Option ℕ
  room_of l = some (input_weight_remaining l.next_pool)

  unfoldable pub handle_finished_internal :
      Option Snapshot → Pipeline Input → Option (Pipeline Input)
  unfolding enqueue can_accept_new_input
  handle_finished_internal none l = some l
  handle_finished_internal (some g) l =
      if is_counted g
      then assert (can_accept_new_input 1 l.next_pool)
        >> some (record l {
          next_pool = enqueue g (min l.next_pool_max_input_weight g.length) l.next_pool;
          num_snapshots_generated = l.num_snapshots_generated + 1;
          size_of_snapshots_generated = l.size_of_snapshots_generated + g.length;
        })
      else some l

  -- HandleStateMachineFinished: the result is passed on before the machine is deleted.
  unfoldable pub handle_state_machine_finished :
      ℕ → Option Snapshot → Pipeline Input → Option (Pipeline Input)
  unfolding handle_finished_internal delete_state_machine
  handle_state_machine_finished id generated l = do
    l' ← handle_finished_internal generated l
    p ← delete_state_machine id l'.pool
    some (record l' { pool = p })

  -- `file_size` is 0 for what is not a regular file.
  abbrev pub output_weight : (Input → ℕ) → ℕ → Input → ℕ
  output_weight file_size next_max input = min next_max (max 1 (file_size input))

  -- What a snapshot takes of the next pool.
  abbrev pub weight_in_next : Pipeline Input → Option Snapshot → ℕ
  weight_in_next l none = 0
  weight_in_next l (some g) = if is_counted g then min l.next_pool_max_input_weight g.length else 0

  module _ (file_size : Input → ℕ) where
    -- Inputs come, posted calls run, machines finish, and the next pool takes inputs off its queue.
    -- A snapshot weighs no more than was foreseen when its machine was started.
    pub data Step : Pipeline Input → Pipeline Input → Type 0 where
      adds :
          {l : Pipeline Input} (input : Input) (weight : ℕ)
          → weight + l.pool.max_pending_inputs_weight < word
          → Step l (record l {
            pool =
                (add_new_input
                  (output_weight file_size l.next_pool_max_input_weight)
                  (room_of l)
                  input
                  weight
                  l.pool).1;
          })
      tries :
          {l : Pipeline Input}
          → Step l (record l {
            pool =
                try_run_next
                  (output_weight file_size l.next_pool_max_input_weight)
                  (room_of l)
                  l.pool;
          })
      finishes :
          {l l' : Pipeline Input} (id : ℕ) (generated : Option Snapshot)
          → IsRunning id l.pool.running_machine_output_weight
          → weight_in_next l generated ≤ weight_of id l.pool.running_machine_output_weight
          → handle_state_machine_finished id generated l ≡ some l'
          → Step l l'
      drains :
          {l : Pipeline Input} (next_pool : Pool Snapshot)
          → next_pool.pending_inputs_weight ≤ l.next_pool.pending_inputs_weight
          → next_pool.max_pending_inputs_weight ≡ l.next_pool.max_pending_inputs_weight
          → Step l (record l { next_pool = next_pool })

    pub data Reach (start : Pipeline Input) : Pipeline Input → Type 0 where
      here : Reach start start
      next : {l l' : Pipeline Input} → Reach start l → Step l l' → Reach start l'
