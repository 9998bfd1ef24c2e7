-- ===== src/Pool/Persistent.antt =====
-- state_machines/persistent-state-machine-pool.h with state-machine-pool.h: a pool whose machines are
-- fed until they are told to exit.
pub mod Calls
pub mod Sets
pub mod Kept
pub mod Limbo
pub mod Steps
pub mod Activated
pub mod Runs
pub mod Operations
pub mod Ending
mod Tests
use polar_express.Base.{
  ℕ, ◌+◌, ◌-◌, ◌%◌, Bool, true, false, not, ◌&&◌, Option, none, some, List, [], ◌∷◌, ◌++◌, length,
  leb, ltb, ◌==◌, if◌then◌else◌, is_empty, min, ◌>>=◌, ◌>>◌, assert,
}
use polar_express.Pool.{word, minus}

-- What a pool asks of a machine, which is named by the number of machines that were made before it.
pub data Call (Input : Type 0) : Type 0 where
  start : ℕ → Call Input
  run : ℕ → Input → Call Input
  try_continue : ℕ → Call Input
  finish_and_exit : ℕ → Call Input

-- A machine with no entry in output_weight_outstanding_ has the weight 0 there. `kicks` counts the
-- calls of TryRunNextStateMachine that are posted for the preceding pool.
pub record PersistentPool (Input : Type 0) : Type 0 where
  pub max_simultaneous_state_machines : ℕ
  pub max_pending_inputs_weight : ℕ
  pub pending_inputs : List (Input × ℕ)
  pub pending_inputs_weight : ℕ
  pub idle_state_machines : List ℕ
  pub active_state_machines : List ℕ
  pub terminated_state_machines : List ℕ
  pub output_weight_outstanding : ℕ → ℕ
  pub active_output_weight_outstanding : ℕ
  pub num_constructed : ℕ
  pub calls : List (Call Input)
  pub kicks : ℕ

abbrev pub new_persistent : {Input : Type 0} → ℕ → ℕ → PersistentPool Input
new_persistent max_weight max_machines = record {
  max_simultaneous_state_machines = max_machines;
  max_pending_inputs_weight = max_weight;
  pending_inputs = [];
  pending_inputs_weight = 0;
  idle_state_machines = [];
  active_state_machines = [];
  terminated_state_machines = [];
  output_weight_outstanding = λ _. 0;
  active_output_weight_outstanding = 0;
  num_constructed = 0;
  calls = [];
  kicks = 0;
}

-- std::set, as a list with no element twice.
unfoldable pub is_in : ℕ → List ℕ → Bool
is_in m [] = false
is_in m (x ∷ xs) = let rest = is_in m xs in if x == m then true else rest

unfoldable pub set_insert : ℕ → List ℕ → List ℕ
unfolding is_in
set_insert m xs = if is_in m xs then xs else m ∷ xs

unfoldable pub set_erase : ℕ → List ℕ → List ℕ
set_erase m [] = []
set_erase m (x ∷ xs) = let rest = set_erase m xs in if x == m then rest else x ∷ rest

unfoldable pub assign : ℕ → ℕ → (ℕ → ℕ) → ℕ → ℕ
assign m w f n = if n == m then w else f n

module _ {Input : Type 0} where
  -- `preceding_is_done` is the answer of the preceding pool, or of IsExpectingMoreInput without one.
  abbrev pub is_done : Bool → PersistentPool Input → Bool
  is_done preceding_is_done p =
      is_empty p.pending_inputs && (is_empty p.active_state_machines && preceding_is_done)

  unfoldable pub terminate_state_machine : ℕ → PersistentPool Input → PersistentPool Input
  unfolding set_insert
  terminate_state_machine m p = record p {
    active_state_machines = set_insert m p.active_state_machines;
    terminated_state_machines = set_insert m p.terminated_state_machines;
    calls = p.calls ++ finish_and_exit m ∷ [];
  }

  -- The loop of TerminateAllStateMachinesWithNoPendingOutput over the idle machines.
  unfoldable pub terminate_idle : List ℕ → List ℕ → PersistentPool Input → PersistentPool Input
  unfolding terminate_state_machine
  terminate_idle [] with_output p = record p { idle_state_machines = with_output }
  terminate_idle (m ∷ ms) with_output p = elim (p.output_weight_outstanding m == 0) [
    | true ↦ terminate_idle ms with_output (terminate_state_machine m p)
    | false ↦ terminate_idle ms (with_output ++ m ∷ []) p
  ]

  unfoldable pub terminate_if_done : Bool → PersistentPool Input → PersistentPool Input
  unfolding terminate_idle
  terminate_if_done preceding_is_done p =
      if is_done preceding_is_done p then terminate_idle p.idle_state_machines [] p else p

  -- DeactivateStateMachine of an active machine, once it is no longer active: it is idle again,
  -- unless it is terminated, now or before.
  unfoldable pub retire : Bool → ℕ → PersistentPool Input → PersistentPool Input
  unfolding terminate_state_machine is_in
  retire preceding_is_done m p =
      if is_in m p.terminated_state_machines
      then p
      else if is_done preceding_is_done p
      then terminate_state_machine m p
      else record p { idle_state_machines = p.idle_state_machines ++ m ∷ [] }

  unfoldable pub deactivate : Bool → ℕ → PersistentPool Input → Option (PersistentPool Input)
  unfolding retire set_erase is_in
  deactivate preceding_is_done m p =
      if is_in m p.active_state_machines
      then assert (leb (p.output_weight_outstanding m) p.active_output_weight_outstanding)
        >> some (
            retire preceding_is_done m (record p {
              active_state_machines = set_erase m p.active_state_machines;
              active_output_weight_outstanding =
                  p.active_output_weight_outstanding - p.output_weight_outstanding m;
            }))
      else some p

  -- TryActivateStateMachine, from the insertion on.
  unfoldable pub activate : ℕ → PersistentPool Input → PersistentPool Input
  unfolding set_insert
  activate m p = record p {
    active_state_machines = set_insert m p.active_state_machines;
    active_output_weight_outstanding =
        (p.active_output_weight_outstanding + p.output_weight_outstanding m) % word;
  }

  unfoldable pub construct : PersistentPool Input → PersistentPool Input
  unfolding assign
  construct p = record p {
    output_weight_outstanding = assign p.num_constructed 0 p.output_weight_outstanding;
    num_constructed = p.num_constructed + 1;
    calls = p.calls ++ start p.num_constructed ∷ [];
  }

  -- A machine is the first idle one, or a new one.
  unfoldable pub activate_front : List ℕ → PersistentPool Input → Option ℕ × PersistentPool Input
  unfolding activate construct
  activate_front (m ∷ ms) p = (some m, activate m (record p { idle_state_machines = ms }))
  activate_front [] p =
      if ltb (length p.active_state_machines + length p.terminated_state_machines)
        p.max_simultaneous_state_machines
      then (some p.num_constructed, activate p.num_constructed (construct p))
      else (none, p)

  unfoldable pub try_activate : PersistentPool Input → Option ℕ × PersistentPool Input
  unfolding activate_front
  try_activate p = activate_front p.idle_state_machines p

  -- StateMachineProducedOutput: only the output of a terminated machine is subtracted unchecked.
  unfoldable pub produced_output : ℕ → ℕ → PersistentPool Input → Option (PersistentPool Input)
  unfolding is_in assign
  produced_output m remaining p =
      if is_in m p.terminated_state_machines
      then some (record p {
        active_output_weight_outstanding =
            if is_in m p.active_state_machines
            then minus p.active_output_weight_outstanding (p.output_weight_outstanding m)
            else p.active_output_weight_outstanding;
        output_weight_outstanding = assign m 0 p.output_weight_outstanding;
      })
      else assert (leb remaining (p.output_weight_outstanding m))
        >> assert
            (leb (p.output_weight_outstanding m - remaining) p.active_output_weight_outstanding)
        >> some (record p {
          output_weight_outstanding = assign m remaining p.output_weight_outstanding;
          active_output_weight_outstanding =
              p.active_output_weight_outstanding - (p.output_weight_outstanding m - remaining);
        })

  unfoldable pub handle_finished : Bool → ℕ → PersistentPool Input → PersistentPool Input
  unfolding set_erase terminate_if_done
  handle_finished preceding_is_done m p =
      terminate_if_done preceding_is_done
        (record p { active_state_machines = set_erase m p.active_state_machines })

  abbrev pub kick_preceding : Option ℕ → PersistentPool Input → PersistentPool Input
  kick_preceding none p = p
  kick_preceding (some output) p =
      if ltb output (minus p.max_pending_inputs_weight p.pending_inputs_weight)
      then record p { kicks = p.kicks + 1 }
      else p
