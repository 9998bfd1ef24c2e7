-- ===== src/Pool.antt =====
-- state_machines/state-machine-pool.h and one-shot-state-machine-pool.h: inputs wait in a queue, by
-- weight, and each runs on a state machine of its own. `room` is InputWeightRemaining of the next
-- pool, if there is one.
pub mod Weights
pub mod Pipeline
pub mod Reserved
pub mod Persistent
pub mod Tests
use polar_express.Base.{
  ℕ, zero, suc, ◌+◌, ◌-◌, ◌*◌, ◌^◌, ◌%◌, Bool, true, false, not, ◌&&◌, ◌||◌, Option, none, some,
  List, [], ◌∷◌, ◌++◌, leb, ltb, ◌==◌, if◌then◌else◌, is_empty, ◌>>=◌, ◌>>◌, assert,
}

-- The values of size_t.
abbrev pub word : ℕ
word = 2 ^ 64

-- Subtraction of a size_t, which wraps around.
abbrev pub minus : ℕ → ℕ → ℕ
minus a b = (word + a - b) % word

-- A running machine is named by the number of machines that were constructed before it; with it
-- stands its entry in running_machine_output_weight_. `posted` counts the calls of
-- TryRunNextStateMachine that are posted to the strand.
pub record Pool (Input : Type 0) : Type 0 where
  pub max_pending_inputs_weight : ℕ
  pub max_simultaneous_state_machines : ℕ
  pub pending_inputs : List (Input × ℕ)
  pub pending_inputs_weight : ℕ
  pub num_running_state_machines : ℕ
  pub num_finished_state_machines : ℕ
  pub running_machine_output_weight : List (ℕ × ℕ)
  pub total_running_output_weight : ℕ
  pub num_constructed : ℕ
  pub posted : ℕ

abbrev pub new : {Input : Type 0} → ℕ → ℕ → Pool Input
new max_weight max_machines = record {
  max_pending_inputs_weight = max_weight;
  max_simultaneous_state_machines = max_machines;
  pending_inputs = [];
  pending_inputs_weight = 0;
  num_running_state_machines = 0;
  num_finished_state_machines = 0;
  running_machine_output_weight = [];
  total_running_output_weight = 0;
  num_constructed = 0;
  posted = 0;
}

-- The entry of a machine in the map, 0 if it has none, and the map without it.
unfoldable pub weight_of : ℕ → List (ℕ × ℕ) → ℕ
weight_of id [] = 0
weight_of id (r ∷ rs) = let rest = weight_of id rs in if r.0 == id then r.1 else rest

unfoldable pub erase : ℕ → List (ℕ × ℕ) → List (ℕ × ℕ)
erase id [] = []
erase id (r ∷ rs) = let rest = erase id rs in if r.0 == id then rs else r ∷ rest

module _ {Input : Type 0} where
  unfoldable pub can_accept_new_input : ℕ → Pool Input → Bool
  can_accept_new_input weight p =
      leb ((p.pending_inputs_weight + weight) % word) p.max_pending_inputs_weight

  abbrev pub input_weight_remaining : Pool Input → ℕ
  input_weight_remaining p = minus p.max_pending_inputs_weight p.pending_inputs_weight

  abbrev pub is_completely_idle : Pool Input → Bool
  is_completely_idle p = is_empty p.pending_inputs && (p.num_running_state_machines == 0)

  module _ (output_weight_to_be_added_by_input : Input → ℕ) where
    -- PopNextInput, and a machine for the input.
    abbrev pub run_front : List (Input × ℕ) → Pool Input → Pool Input
    run_front [] p = p
    run_front (i ∷ is) p = record p {
      pending_inputs = is;
      pending_inputs_weight = minus p.pending_inputs_weight i.1;
      num_running_state_machines = p.num_running_state_machines + 1;
      running_machine_output_weight =
          (p.num_constructed, output_weight_to_be_added_by_input i.0)
          ∷ p.running_machine_output_weight;
      total_running_output_weight =
          (p.total_running_output_weight + output_weight_to_be_added_by_input i.0) % word;
      num_constructed = p.num_constructed + 1;
    }

    unfoldable pub try_run_next_internal : Pool Input → Pool Input
    try_run_next_internal p =
        if leb p.max_simultaneous_state_machines p.num_running_state_machines
        then p
        else run_front p.pending_inputs p

    -- The next pool might not be able to accept the output.
    abbrev pub is_blocked : Option ℕ → List (Input × ℕ) → Pool Input → Bool
    is_blocked none is p = false
    is_blocked (some room) [] p = false
    is_blocked (some room) (i ∷ is) p =
        ltb room ((p.total_running_output_weight + output_weight_to_be_added_by_input i.0) % word)

    unfoldable pub try_run_next : Option ℕ → Pool Input → Pool Input
    unfolding try_run_next_internal
    try_run_next room p = if is_blocked room p.pending_inputs p then p else try_run_next_internal p

    unfoldable pub add_new_input : Option ℕ → Input → ℕ → Pool Input → Bool × Pool Input
    unfolding can_accept_new_input try_run_next
    add_new_input room input weight p =
        if can_accept_new_input weight p
        then (
          true,
          try_run_next room (record p {
            pending_inputs = p.pending_inputs ++ (input, weight) ∷ [];
            pending_inputs_weight = (p.pending_inputs_weight + weight) % word;
          }),
        )
        else (false, p)

  -- DeleteStateMachine, which HandleStateMachineFinished calls.
  unfoldable pub delete_state_machine : ℕ → Pool Input → Option (Pool Input)
  unfolding weight_of erase
  delete_state_machine id p = do
    let weight = weight_of id p.running_machine_output_weight
    assert (leb weight p.total_running_output_weight)
    some (record p {
      total_running_output_weight = p.total_running_output_weight - weight;
      running_machine_output_weight = erase id p.running_machine_output_weight;
      num_running_state_machines = p.num_running_state_machines - 1;
      num_finished_state_machines = p.num_finished_state_machines + 1;
      posted = p.posted + 1;
    })
