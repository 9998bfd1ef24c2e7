-- ===== src/Pool/Persistent/Ending.antt =====
-- state_machines/persistent-state-machine-pool.h: machines that are told to exit with output left.
use polar_express.Base.{
  ℕ, ◌+◌, ◌-◌, ◌%◌, ◌≤◌, ◌<◌, ◌≡◌, ◌↔◌, refl, sym, ap, ◌∙◌, Bool, true, false, Option, none, some,
  List, [], ◌∷◌, ◌++◌, leb, ltb, ◌==◌, ==_refl, if◌then◌else◌, arith, Bool-cases, inl, inr,
  bind-some, le→leb, leb→le,
}
use polar_express.Pool.{word, minus}
use polar_express.Pool.Persistent.{
  PersistentPool, finish_and_exit, is_in, set_insert, set_erase, assign, terminate_state_machine,
  terminate_if_done, retire, deactivate, activate, activate_front, try_activate, produced_output,
  kick_preceding,
}
use polar_express.Pool.Persistent.Calls.{
  Around, take_from, try_run_next_input, run_activated, try_run_next_internal, is_blocked,
  try_run_next, deactivate_and_try_run_next,
}
use polar_express.Pool.Persistent.Sets.{is_in-cons, ==_swap}

conflict : {A : Type 0} {x : A} → some x ≡ none → ⊥
conflict h = cc

-- Two weights, the first of which was subtracted from 0.
wraps : (a b : ℕ) → a < word → b < word → (minus 0 a + b) % word < b → (0 < a) × (a ≤ b)
wraps a b h h' e = (omega (arith, h, h', e), omega (arith, h, h', e))

wraps_back : (a b : ℕ) → a < word → b < word → 0 < a → a ≤ b → (minus 0 a + b) % word < b
wraps_back a b h h' e e' = omega (arith, h, h', e, e')

lt-leb : (a b : ℕ) → b < a → leb a b ≡ false
lt-leb a b h = ground arith

module _ {Input : Type 0} where
  -- No input waits, `m` is the only active machine, and the weight is `t`.
  abbrev alone : ℕ → ℕ → PersistentPool Input → PersistentPool Input
  alone m t p = record p {
    pending_inputs = [];
    active_state_machines = m ∷ [];
    active_output_weight_outstanding = t;
  }

  abbrev exiting : ℕ → ℕ → PersistentPool Input → PersistentPool Input
  exiting m t p = record (alone m t p) {
    terminated_state_machines = m ∷ p.terminated_state_machines;
    calls = p.calls ++ finish_and_exit m ∷ [];
  }

  deactivate-alone :
      (m t : ℕ) (p : PersistentPool Input)
      → is_in m p.terminated_state_machines ≡ false
      → deactivate true m (alone m t p) ≡ (
          if leb (p.output_weight_outstanding m) t
          then some (exiting m (t - p.output_weight_outstanding m) p)
          else none)
  unfolding deactivate retire terminate_state_machine set_insert set_erase is_in
  deactivate-alone m t p alive = elim (Bool-cases (leb (p.output_weight_outstanding m) t)) [
    | inl e ↦ rw (==_refl m, e, alive) refl
    | inr e ↦ rw (==_refl m, e) refl
  ]

  -- A machine that was told to exit has no weight left once it has produced its output.
  produced-exiting :
      (m remaining t : ℕ) (p : PersistentPool Input)
      → produced_output m remaining (exiting m t p)
        ≡ some (record (exiting m t p) {
          active_output_weight_outstanding = minus t (p.output_weight_outstanding m);
          output_weight_outstanding = assign m 0 p.output_weight_outstanding;
        })
  unfolding produced_output is_in
  produced-exiting m remaining t p = rw (==_refl m) refl

  deactivate-exiting :
      (d : Bool) (m t : ℕ) (p : PersistentPool Input)
      → p.output_weight_outstanding m ≡ 0
      → deactivate d m (exiting m t p)
        ≡ some (record (exiting m t p) { active_state_machines = [] })
  unfolding deactivate retire set_erase is_in
  deactivate-exiting d m t p e =
      let w = p.output_weight_outstanding m in
      rw (==_refl m, le→leb w t (omega (arith, e)))
        (ap
          (λ x. some (record (exiting m t p) {
            active_state_machines = [];
            active_output_weight_outstanding = x;
          }))
          (omega (arith, e)))

  kicked :
      (o : Option ℕ) (p : PersistentPool Input)
      → (k : ℕ) × (kick_preceding o p ≡ record p { kicks = k })
  kicked none p = (p.kicks, refl)
  kicked (some output) p =
      elim (Bool-cases (ltb output (minus p.max_pending_inputs_weight p.pending_inputs_weight))) [
        | inl e ↦ (p.kicks + 1, rw e refl)
        | inr e ↦ (p.kicks, rw e refl)
      ]

  module _ (out : Input → ℕ) (max_generated : ℕ) (a : Around)
      (preceding_done : a.preceding_is_done ≡ true) where
    -- No input waits, no machine is active, and the first idle one is `m`.
    abbrev waiting : ℕ → List ℕ → ℕ → PersistentPool Input → PersistentPool Input
    waiting m ms t p = record p {
      pending_inputs = [];
      idle_state_machines = m ∷ ms;
      active_state_machines = [];
      active_output_weight_outstanding = t;
    }

    unblocked :
        (o : Option ℕ) (p : PersistentPool Input) → is_blocked out max_generated o [] p ≡ false
    unfolding is_blocked
    unblocked none p = refl
    unblocked (some room) p = refl

    internal-waiting :
        (m : ℕ) (ms : List ℕ) (t : ℕ) (p : PersistentPool Input)
        → is_in m p.terminated_state_machines ≡ false
        → a.continues m ≡ false
        → try_run_next_internal out max_generated a (waiting m ms t p) ≡ (
            if leb (p.output_weight_outstanding m) ((t + p.output_weight_outstanding m) % word)
            then some (
                exiting m
                  ((t + p.output_weight_outstanding m) % word - p.output_weight_outstanding m)
                  (record p { idle_state_machines = ms }))
            else none)
    unfolding try_run_next_internal try_activate activate_front activate run_activated
        try_run_next_input take_from set_insert is_in terminate_if_done
    internal-waiting m ms t p alive new_input =
        let s : ℕ = (t + p.output_weight_outstanding m) % word in
        rw
          (
            new_input,
            preceding_done,
            deactivate-alone m s (record p { idle_state_machines = ms }) alive,
          )
          (elim (Bool-cases (leb (p.output_weight_outstanding m) s)) [
            | inl e ↦ rw e refl
            | inr e ↦ rw e refl
          ])

    -- The first idle machine is told to exit, unless the assertion on its weight fails.
    try_run_next-waiting :
        (m : ℕ) (ms : List ℕ) (t : ℕ) (p : PersistentPool Input)
        → is_in m p.terminated_state_machines ≡ false
        → a.continues m ≡ false
        → let w = p.output_weight_outstanding m in
          let s = (t + w) % word in
          (w ≤ s
            → (k : ℕ) × (try_run_next out max_generated a (waiting m ms t p)
                ≡ some (record (exiting m (s - w) (record p { idle_state_machines = ms })) {
                  kicks = k;
                })))
          × (s < w → try_run_next out max_generated a (waiting m ms t p) ≡ none)
    unfolding try_run_next
    try_run_next-waiting m ms t p alive new_input =
        let w : ℕ = p.output_weight_outstanding m in
        let s : ℕ = (t + w) % word in
        let free = unblocked a.next_room (waiting m ms t p) in
        let runs = internal-waiting m ms t p alive new_input in
        (
          λ h.
              let (k, after) =
                kicked a.preceding_output
                  (exiting m (s - w) (record p { idle_state_machines = ms })) in
              (k, rw (free, runs, le→leb w s h) (ap some after)),
          λ h. rw (free, runs, lt-leb w s h) refl,
        )

    -- The machine that has exited is deactivated, and the next idle one is tried.
    next-waiting :
        (m n : ℕ) (rest : List ℕ) (t : ℕ) (p : PersistentPool Input)
        → (m == n) ≡ false
        → is_in n p.terminated_state_machines ≡ false
        → a.continues n ≡ false
        → p.output_weight_outstanding m ≡ 0
        → let w = p.output_weight_outstanding n in
          ((deactivate_and_try_run_next out max_generated a m
                (exiting m t (record p { idle_state_machines = n ∷ rest }))
              ≡ none)
            ↔ ((t + w) % word < w))
    unfolding deactivate_and_try_run_next
    next-waiting m n rest t p differ alive new_input e =
        let w : ℕ = p.output_weight_outstanding n in
        let r : PersistentPool Input = record p {
          terminated_state_machines = m ∷ p.terminated_state_machines;
          calls = p.calls ++ finish_and_exit m ∷ [];
        } in
        let off =
          deactivate-exiting a.preceding_is_done m t (record p { idle_state_machines = n ∷ rest })
            e in
        let (passes, fails) =
          try_run_next-waiting n rest t r
            (is_in-cons n m p.terminated_state_machines ∙ rw (differ, alive) refl) new_input in
        (
          λ h. elim (Bool-cases (leb w ((t + w) % word))) [
            | inl enough ↦
                let (k, ran) = passes (leb→le w ((t + w) % word) enough) in
                absurd (conflict (sym ran ∙ sym (bind-some _ off refl) ∙ h))
            | inr less ↦ ground (arith, less)
          ],
          λ h. bind-some _ off (fails h),
        )

    -- Suppose that nothing is left to do for any pool, that no machine is active, and that the first
    -- idle machines are `m` and `n`, both with a weight that fits a size_t and neither to be
    -- continued. Then the next call tells `m` to exit. The output that `m` then produces makes the
    -- outstanding output weight of the pool the difference of 0 and the weight of `m`, as a size_t.
    -- When `m` is deactivated thereafter, the assertion on the weight of `n` fails exactly if `m` had
    -- output outstanding and `n` has no less.
    pub exit_with_output-fails :
        (m n : ℕ) (rest : List ℕ) (remaining : ℕ) (p : PersistentPool Input)
        → (m == n) ≡ false
        → is_in m p.terminated_state_machines ≡ false
        → is_in n p.terminated_state_machines ≡ false
        → a.continues m ≡ false
        → a.continues n ≡ false
        → p.output_weight_outstanding m < word
        → p.output_weight_outstanding n < word
        → (p1 : PersistentPool Input) × (p2 : PersistentPool Input) × (try_run_next out
              max_generated a
              (waiting m (n ∷ rest) 0 p)
            ≡ some p1)
          × (produced_output m remaining p1 ≡ some p2)
          × (p2.active_output_weight_outstanding ≡ minus 0 (p.output_weight_outstanding m))
          × ((deactivate_and_try_run_next out max_generated a m p2 ≡ none) ↔ (
              (0 < p.output_weight_outstanding m)
              × (p.output_weight_outstanding m ≤ p.output_weight_outstanding n)))
    unfolding assign
    exit_with_output-fails m n rest remaining p differ alive alive' new_input new_input' small
          small' =
        let w : ℕ = p.output_weight_outstanding m in
        let w' : ℕ = p.output_weight_outstanding n in
        let first : (0 + w) % word ≡ w = omega (arith, small) in
        let (k, ran) =
          (try_run_next-waiting m (n ∷ rest) 0 p alive new_input).0 (omega (arith, first)) in
        let left : (0 + w) % word - w ≡ 0 = omega (arith, first) in
        let q : PersistentPool Input = record p { idle_state_machines = n ∷ rest; kicks = k } in
        let t : ℕ = (0 + w) % word - w in
        let p2 : PersistentPool Input = record (exiting m t q) {
          active_output_weight_outstanding = minus t w;
          output_weight_outstanding = assign m 0 p.output_weight_outstanding;
        } in
        let kept : assign m 0 p.output_weight_outstanding n ≡ w' = rw (==_swap m n differ) refl in
        let second =
          next-waiting m n rest (minus t w)
            (record p {
              output_weight_outstanding = assign m 0 p.output_weight_outstanding;
              kicks = k;
            })
            differ alive' new_input' (rw (==_refl m) refl) in
        (
          exiting m t q,
          p2,
          ran,
          produced-exiting m remaining t q,
          ap (λ x. minus x w) left,
          (
            λ h. wraps w w' small small' (ground (arith, (second.0 h))),
            λ (some_left, no_less).
                second.1 (omega (arith, wraps_back w w' small small' some_left no_less)),
          ),
        )
