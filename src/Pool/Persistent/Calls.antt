-- ===== src/Pool/Persistent/Calls.antt =====
-- state_machines/persistent-state-machine-pool.h: the calls, which do what other pools allow.
use polar_express.Base.{
  ℕ, ◌+◌, ◌%◌, Bool, true, false, Option, none, some, List, [], ◌∷◌, ◌++◌, leb, ltb, if◌then◌else◌,
  min, ◌>>=◌,
}
use polar_express.Pool.{word, minus}
use polar_express.Pool.Persistent.{
  run, try_continue, PersistentPool, assign, terminate_if_done, deactivate, try_activate,
  kick_preceding,
}

-- What the pool is told during a call: the room of the next pool, the outstanding output weight of
-- the preceding pool, whether that one is done, and which machines the derived class continues.
pub record Around : Type 0 where
  pub next_room : Option ℕ
  pub preceding_output : Option ℕ
  pub preceding_is_done : Bool
  pub continues : ℕ → Bool

module _ {Input : Type 0} (output_weight_internal : Input → ℕ) (max_generated : ℕ) where
  abbrev pub outstanding_of_front : List ℕ → (ℕ → ℕ) → ℕ
  outstanding_of_front [] f = 0
  outstanding_of_front (m ∷ ms) f = f m

  -- OutputWeightToBeAddedByInput.
  unfoldable pub added_by : Input → PersistentPool Input → ℕ
  added_by input p = min max_generated (
      (output_weight_internal input
        + outstanding_of_front p.idle_state_machines p.output_weight_outstanding)
      % word)

  unfoldable pub feed : ℕ → Input → ℕ → PersistentPool Input → PersistentPool Input
  unfolding added_by assign
  feed m input weight p = record p {
    output_weight_outstanding =
        assign m ((p.output_weight_outstanding m + weight) % word) p.output_weight_outstanding;
    active_output_weight_outstanding = (p.active_output_weight_outstanding + weight) % word;
    calls = p.calls ++ run m input ∷ [];
  }

  -- TryRunNextInput, up to its last test, with what PopNextInput finds.
  unfoldable pub take_from :
      List (Input × ℕ) → Bool → ℕ → PersistentPool Input → Option (PersistentPool Input)
  unfolding deactivate feed added_by
  take_from [] preceding_is_done m p = deactivate preceding_is_done m p
  take_from (i ∷ is) preceding_is_done m p =
      let popped = record p {
        pending_inputs = is;
        pending_inputs_weight = minus p.pending_inputs_weight i.1;
      } in
      some (feed m i.0 (added_by i.0 popped) popped)

  unfoldable pub try_run_next_input :
      Bool → ℕ → PersistentPool Input → Option (PersistentPool Input)
  unfolding take_from terminate_if_done
  try_run_next_input preceding_is_done m p =
      take_from p.pending_inputs preceding_is_done m p >>= λ q.
      some (terminate_if_done preceding_is_done q)

  unfoldable pub is_blocked : Option ℕ → List (Input × ℕ) → PersistentPool Input → Bool
  unfolding added_by
  is_blocked none is p = false
  is_blocked (some room) [] p = false
  is_blocked (some room) (i ∷ is) p =
      ltb room ((p.active_output_weight_outstanding + added_by i.0 p) % word)

  module _ (a : Around) where
    unfoldable pub run_activated : Option ℕ → PersistentPool Input → Option (PersistentPool Input)
    unfolding try_run_next_input
    run_activated none p = some p
    run_activated (some m) p =
        if a.continues m
        then some (record p { calls = p.calls ++ try_continue m ∷ [] })
        else try_run_next_input a.preceding_is_done m p

    unfoldable pub try_run_next_internal : PersistentPool Input → Option (PersistentPool Input)
    unfolding try_activate run_activated
    try_run_next_internal p = run_activated (try_activate p).0 (try_activate p).1

    unfoldable pub try_run_next : PersistentPool Input → Option (PersistentPool Input)
    unfolding try_run_next_internal is_blocked
    try_run_next p =
        if is_blocked a.next_room p.pending_inputs p
        then some p
        else try_run_next_internal p >>= λ q. some (kick_preceding a.preceding_output q)

    unfoldable pub deactivate_and_try_run_next :
        ℕ → PersistentPool Input → Option (PersistentPool Input)
    unfolding deactivate try_run_next
    deactivate_and_try_run_next m p = deactivate a.preceding_is_done m p >>= λ q. try_run_next q

    unfoldable pub add_new_input :
        Input → ℕ → PersistentPool Input → Option (Bool × PersistentPool Input)
    unfolding try_run_next
    add_new_input input weight p =
        if leb ((p.pending_inputs_weight + weight) % word) p.max_pending_inputs_weight
        then (try_run_next (record p {
          pending_inputs = p.pending_inputs ++ (input, weight) ∷ [];
          pending_inputs_weight = (p.pending_inputs_weight + weight) % word;
        })
            >>= λ q. some (true, q))
        else some (false, p)
