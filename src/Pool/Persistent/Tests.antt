-- ===== src/Pool/Persistent/Tests.antt =====
-- state_machines/persistent-state-machine-pool.h: a pool of two machines that takes weights up to 10.
use polar_express.Base.{
  ℕ, ◌≡◌, ◌≤◌, ◌<◌, ◌↔◌, refl, inr, Bool, true, false, none, some, [], ◌∷◌, arith,
}
use polar_express.Pool.{minus}
use polar_express.Pool.Persistent.{
  PersistentPool, start, run, new_persistent, assign, is_in, produced_output,
}
use polar_express.Pool.Persistent.Calls.{Around, try_run_next, deactivate_and_try_run_next}
use polar_express.Pool.Persistent.Kept.{Kept}
use polar_express.Pool.Persistent.Operations
use polar_express.Pool.Persistent.Operations.{
  Operation, adds, outputs, perform, Reach, persistent_pool_runs,
}
use polar_express.Pool.Persistent.Ending.{exit_with_output-fails}

-- Inputs are numbers, and the output of each weighs as much as its number, up to 20.
abbrev weigh_output : ℕ → ℕ
weigh_output n = n

abbrev around : Bool → Around
around done = record {
  next_room = some 100;
  preceding_output = some 0;
  preceding_is_done = done;
  continues = λ _. false;
}

-- One input of weight 5 was added, and runs on the first machine.
abbrev one_added : PersistentPool ℕ
one_added = record (new_persistent 10 2) {
  active_state_machines = 0 ∷ [];
  output_weight_outstanding = assign 0 5 (assign 0 0 (λ _. 0));
  active_output_weight_outstanding = 5;
  num_constructed = 1;
  calls = start 0 ∷ run 0 5 ∷ [];
  kicks = 1;
}

added : perform weigh_output 20 (adds (around false) 5 5) (new_persistent 10 2) ≡ some one_added
unfolding perform
added = refl

one_added-Reach : Reach weigh_output 20 10 2 one_added
one_added-Reach =
    Operations.Reach.next (adds (around false) 5 5) Operations.Reach.begun (omega arith) added

persistent_pool_runs_example :
    (q : PersistentPool ℕ) × (perform weigh_output 20 (outputs 0 2) one_added ≡ some q) × Kept q
unfolding is_in assign
persistent_pool_runs_example =
    persistent_pool_runs weigh_output 20 10 2 (outputs 0 2) one_added-Reach
      (refl, inr (omega arith))

-- Two idle machines hold weights of 3 and 7.
abbrev two_idle : PersistentPool ℕ
two_idle = record (new_persistent 10 2) {
  output_weight_outstanding = assign 0 3 (assign 1 7 (λ _. 0));
  num_constructed = 2;
}

exit_with_output-fails_example :
    (p1 : PersistentPool ℕ) × (p2 : PersistentPool ℕ) × (try_run_next weigh_output 20
        (around true)
        (record two_idle { idle_state_machines = 0 ∷ 1 ∷ [] })
      ≡ some p1)
    × (produced_output 0 0 p1 ≡ some p2)
    × (p2.active_output_weight_outstanding ≡ minus 0 3)
    × ((deactivate_and_try_run_next weigh_output 20 (around true) 0 p2 ≡ none)
        ↔ ((0 < 3) × (3 ≤ 7)))
unfolding assign is_in
exit_with_output-fails_example =
    exit_with_output-fails weigh_output 20 (around true) refl 0 1 [] 0 two_idle refl refl refl refl
      refl (omega arith) (omega arith)
