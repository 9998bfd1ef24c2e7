-- ===== src/Pool/Persistent/Operations.antt =====
-- state_machines/persistent-state-machine-pool.h: any sequence of the calls that a pool gets.
use polar_express.Base.{
  ℕ, ◌+◌, ◌%◌, ◌≤◌, ◌≡◌, ◌⊎◌, refl, sym, ap, subst, ◌∙◌, Bool, true, Option, some, List, [], ◌∷◌,
  ◌++◌, leb, is_empty, arith, Bool-cases, inl, inr, bind-some, some_inj, ◌>>=◌,
}
use polar_express.Pool.{word}
use polar_express.Pool.Persistent.{
  PersistentPool, new_persistent, is_in, produced_output, handle_finished,
}
use polar_express.Pool.Persistent.Calls.{
  Around, try_run_next, deactivate_and_try_run_next, add_new_input,
}
use polar_express.Pool.Persistent.Kept.{Kept}
use polar_express.Pool.Persistent.Steps.{deactivate-Kept}
use polar_express.Pool.Persistent.Runs.{
  produced_output-Kept, handle_finished-Kept, IsSmall, IsQuiet, IsQuietBut, try_run_next-Kept,
}

-- What happens to a pool: an input comes, a posted call runs, a machine has produced output with so
-- much left, a machine is done with its input, or a machine has exited.
pub data Operation (Input : Type 0) : Type 0 where
  adds : Around → Input → ℕ → Operation Input
  tries : Around → Operation Input
  outputs : ℕ → ℕ → Operation Input
  deactivates : Around → ℕ → Operation Input
  finishes : Bool → ℕ → Operation Input

module _ {Input : Type 0} (out : Input → ℕ) (max_generated : ℕ) where
  unfoldable pub perform : Operation Input → PersistentPool Input → Option (PersistentPool Input)
  unfolding add_new_input try_run_next produced_output deactivate_and_try_run_next handle_finished
  perform (adds a input weight) p =
      add_new_input out max_generated a input weight p >>= λ r. some r.1
  perform (tries a) p = try_run_next out max_generated a p
  perform (outputs m remaining) p = produced_output m remaining p
  perform (deactivates a m) p = deactivate_and_try_run_next out max_generated a m p
  perform (finishes d m) p = some (handle_finished d m p)

  -- An active machine has no more output left than it had, only a terminated machine exits, and the
  -- pool is only told that all is done when the idle machines have no output outstanding.
  abbrev pub IsAllowed : Operation Input → PersistentPool Input → Type 0
  IsAllowed (adds a input weight) p = IsSmall max_generated p
  IsAllowed (tries a) p = IsSmall max_generated p × IsQuiet a.preceding_is_done p
  IsAllowed (outputs m remaining) p =
      (is_in m p.active_state_machines ≡ true)
      × ((is_in m p.terminated_state_machines ≡ true) ⊎ (remaining ≤ p.output_weight_outstanding m))
  IsAllowed (deactivates a m) p = IsSmall max_generated p × IsQuietBut a.preceding_is_done m p
  IsAllowed (finishes d m) p = is_in m p.terminated_state_machines ≡ true

  pub data Reach (max_weight max_machines : ℕ) : PersistentPool Input → Type 0 where
    begun : Reach max_weight max_machines (new_persistent max_weight max_machines)
    next :
        {p q : PersistentPool Input} (op : Operation Input)
        → Reach max_weight max_machines p
        → IsAllowed op p
        → perform op p ≡ some q
        → Reach max_weight max_machines q

  append-nonempty : (is : List (Input × ℕ)) (i : Input × ℕ) → is_empty (is ++ i ∷ []) ≡ true → ⊥
  append-nonempty [] i h = cc
  append-nonempty (x ∷ xs) i h = cc

  perform-Kept :
      (op : Operation Input) (p : PersistentPool Input)
      → Kept p
      → IsAllowed op p
      → (q : PersistentPool Input) × (perform op p ≡ some q) × Kept q
  unfolding add_new_input deactivate_and_try_run_next perform
  perform-Kept (adds a input weight) p k small =
      elim (Bool-cases
        (leb ((p.pending_inputs_weight + weight) % word) p.max_pending_inputs_weight)) [
          | inr refused ↦ rw refused (p, refl, k)
          | inl accepted ↦
              let longer : PersistentPool Input = record p {
                pending_inputs = p.pending_inputs ++ (input, weight) ∷ [];
                pending_inputs_weight = (p.pending_inputs_weight + weight) % word;
              } in
              let (q, ran, k') =
                try_run_next-Kept out max_generated a longer k small
                  λ _ empty _. absurd (append-nonempty p.pending_inputs (input, weight) empty) in
              rw accepted (q, bind-some _ (bind-some _ ran refl) refl, k')
        ]
  perform-Kept (tries a) p k (small, quiet) = try_run_next-Kept out max_generated a p k small quiet
  perform-Kept (outputs m remaining) p k (on, c) = produced_output-Kept m remaining p k on c
  perform-Kept (deactivates a m) p k (small, quiet) =
      let (r, off, k', inputs, lighter, was_last) =
        deactivate-Kept a.preceding_is_done m p k
          λ on d empty last. omega (arith, quiet d empty last) in
      let (q, ran, k'') =
        try_run_next-Kept out max_generated a r k' (omega (arith, small, lighter))
          λ d empty none_active.
            let empty' = ap (λ xs. is_empty xs) (sym inputs) ∙ empty in
            let (last, same) = was_last d empty' none_active in
            omega (arith, same, quiet d empty' last) in
      (q, bind-some _ off ran, k'')
  perform-Kept (finishes d m) p k ended = (_, refl, handle_finished-Kept d m p k ended)

  Reach-Kept :
      (max_weight max_machines : ℕ) {p : PersistentPool Input}
      → Reach max_weight max_machines p
      → Kept p
  unfolding is_in
  Reach-Kept max_weight max_machines begun = record {
    idle_set = tt;
    active_set = tt;
    apart = λ m i. (refl, refl);
    fresh = λ m h. (refl, refl, refl);
    weighs = refl;
    done = λ m e. refl;
    running = omega arith;
    fits = omega arith;
  }
  Reach-Kept max_weight max_machines (next {p} op before allowed made) =
      let (q, done, k) = perform-Kept op p (Reach-Kept max_weight max_machines before) allowed in
      subst (λ r. Kept r) (some_inj (sym done ∙ made)) k

  -- In every pool that is reached from a new one by allowed operations, an allowed operation ends
  -- with no failed assertion, and in the pool that it leaves a machine is idle or active or neither,
  -- no idle machine is terminated, at most the maximum is idle or active, a terminated machine has
  -- no output outstanding, and the outstanding output weight is that of the active machines.
  pub persistent_pool_runs :
      (max_weight max_machines : ℕ) {p : PersistentPool Input} (op : Operation Input)
      → Reach max_weight max_machines p
      → IsAllowed op p
      → (q : PersistentPool Input) × (perform op p ≡ some q) × Kept q
  persistent_pool_runs max_weight max_machines {p} op reach allowed =
      perform-Kept op p (Reach-Kept max_weight max_machines reach) allowed
