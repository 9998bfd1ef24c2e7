-- ===== src/Pool/Persistent/Runs.antt =====
-- state_machines/persistent-state-machine-pool.h: what holds in every run of a pool.
use polar_express.Base.{
  ℕ, ◌+◌, ◌-◌, ◌%◌, ◌≤◌, ◌<◌, ◌≡◌, ◌⊎◌, refl, sym, ap, subst, ◌∙◌, Bool, true, false, Option, none,
  some, List, [], ◌∷◌, ltb, le→leb, ◌==◌, ==_iff, is_empty, arith, Bool-cases, inl, inr, bind-some,
  assert,
}
use polar_express.Pool.{word, minus}
use polar_express.Pool.Persistent.{
  PersistentPool, is_in, set_erase, assign, try_activate, activate_front, produced_output,
  handle_finished, kick_preceding,
}
use polar_express.Pool.Persistent.Calls.{
  Around, added_by, feed, take_from, try_run_next_input, run_activated, try_run_next_internal,
  is_blocked, try_run_next,
}
use polar_express.Pool.Persistent.Sets.{
  sum_of, le-sum_of, sum_of-assign, sum_of-assign_absent, conflict, erase-absent,
}
use polar_express.Pool.Persistent.Kept.{IsKept, Kept}
use polar_express.Pool.Persistent.Limbo.{erase-Limbo}
use polar_express.Pool.Persistent.Steps.{
  weight_of_all, terminate_if_done-Kept, IsSettled, deactivate-Kept,
}
use polar_express.Pool.Persistent.Activated.{IsActivated, activate_front-IsActivated}

module _ {max : ℕ} {idle active ended : List ℕ} {f : ℕ → ℕ} {total num : ℕ}
    (k : IsKept max idle active ended f total num) (m : ℕ) (on : is_in m active ≡ true) where
  not_idle : is_in m idle ≡ false
  not_idle = elim (Bool-cases (is_in m idle)) [
    | inl i ↦ absurd (conflict on (k.apart m i).0)
    | inr i ↦ i
  ]

  -- An active machine has a new weight, which is 0 if it is terminated.
  assign-Kept :
      (w total' : ℕ)
      → total' + f m ≡ total + w
      → sum_of f idle + total' < word
      → (is_in m ended ≡ true → w ≡ 0)
      → IsKept max idle active ended (assign m w f) total' num
  unfolding assign
  assign-Kept w total' e small ends =
      let sum = sum_of-assign f m w active k.active_set on in
      let waiting = sum_of-assign_absent f m w idle not_idle in
      record {
        idle_set = k.idle_set;
        active_set = k.active_set;
        apart = k.apart;
        fresh = k.fresh;
        weighs = omega (arith, e, sum, k.weighs);
        done = λ n i. elim (Bool-cases (n == m)) [
          | inl h ↦ rw h (ends (ap (λ x. is_in x ended) (sym ((==_iff n m).0 h)) ∙ i))
          | inr h ↦ rw h (k.done n i)
        ];
        running = k.running;
        fits = omega (arith, e, sum, waiting, k.weighs, small);
      }

module _ {Input : Type 0} where
  -- The weights of one more input can be added without a carry.
  abbrev pub IsSmall : ℕ → PersistentPool Input → Type 0
  IsSmall max_generated p = weight_of_all p + max_generated < word

  -- If nothing is left to do for any pool, then the idle machines have no output outstanding.
  abbrev pub IsQuiet : Bool → PersistentPool Input → Type 0
  IsQuiet d p =
      d ≡ true
      → is_empty p.pending_inputs ≡ true
      → is_empty p.active_state_machines ≡ true
      → sum_of p.output_weight_outstanding p.idle_state_machines ≡ 0

  -- The same for the time when `m` is no longer active.
  abbrev pub IsQuietBut : Bool → ℕ → PersistentPool Input → Type 0
  IsQuietBut d m p =
      d ≡ true
      → is_empty p.pending_inputs ≡ true
      → is_empty (set_erase m p.active_state_machines) ≡ true
      → sum_of p.output_weight_outstanding p.idle_state_machines + p.output_weight_outstanding m ≡ 0

  pub produced_output-Kept :
      (m remaining : ℕ) (p : PersistentPool Input)
      → Kept p
      → is_in m p.active_state_machines ≡ true
      → (is_in m p.terminated_state_machines ≡ true) ⊎ (remaining ≤ p.output_weight_outstanding m)
      → (q : PersistentPool Input) × (produced_output m remaining p ≡ some q) × Kept q
  unfolding produced_output
  produced_output-Kept m remaining p k on c =
      elim (Bool-cases (is_in m p.terminated_state_machines)) [
        | inl ended ↦
            let none_left = k.done m ended in
            rw (ended, on)
              (
                _,
                refl,
                assign-Kept k m on 0 _ (omega (arith, none_left, k.weighs, k.fits))
                    (omega (arith, none_left, k.weighs, k.fits)) λ _. refl,
              )
        | inr alive ↦
            let enough : remaining ≤ p.output_weight_outstanding m = elim c [
              | inl ended ↦ absurd (conflict ended alive)
              | inr h ↦ h
            ] in
            let within = le-sum_of p.output_weight_outstanding m p.active_state_machines on in
            rw alive (
              _,
              bind-some _
                  (bind-some _ (ap assert (le→leb _ _ enough))
                    (ap assert (le→leb _ _ (omega (arith, within, k.weighs)))))
                  refl,
              assign-Kept k m on remaining _ (omega (arith, within, k.weighs, enough))
                  (omega (arith, within, k.weighs, enough, k.fits))
                  λ ended. absurd (conflict ended alive),
            )
      ]

  pub handle_finished-Kept :
      (d : Bool) (m : ℕ) (p : PersistentPool Input)
      → Kept p
      → is_in m p.terminated_state_machines ≡ true
      → Kept (handle_finished d m p)
  unfolding handle_finished
  handle_finished-Kept d m p k ended =
      terminate_if_done-Kept d
        (record p { active_state_machines = set_erase m p.active_state_machines })
        (elim (Bool-cases (is_in m p.active_state_machines)) [
          | inl on ↦
              let same : p.active_output_weight_outstanding - p.output_weight_outstanding m
                  ≡ p.active_output_weight_outstanding =
                omega (arith, k.done m ended) in
              subst
                (λ n. Kept (record p {
                  active_state_machines = set_erase m p.active_state_machines;
                  active_output_weight_outstanding = n;
                }))
                same (erase-Limbo m on k).kept
          | inr off ↦
              subst (λ xs. Kept (record p { active_state_machines = xs }))
                (sym (erase-absent m p.active_state_machines off)) k
        ])

module _ {Input : Type 0} (out : Input → ℕ) (max_generated : ℕ) where
  feed-Kept :
      (m : ℕ) (input : Input) (w : ℕ) (p : PersistentPool Input)
      → Kept p
      → is_in m p.active_state_machines ≡ true
      → is_in m p.terminated_state_machines ≡ false
      → weight_of_all p + w < word
      → Kept (feed out max_generated m input w p)
  unfolding feed
  feed-Kept m input w p k on alive small =
      let within = le-sum_of p.output_weight_outstanding m p.active_state_machines on in
      let mine : (p.output_weight_outstanding m + w) % word ≡ p.output_weight_outstanding m + w =
        omega (arith, within, small) in
      let all : (p.active_output_weight_outstanding + w) % word
          ≡ p.active_output_weight_outstanding + w =
        omega (arith, k.weighs, small) in
      assign-Kept k m on _ _ (omega (arith, mine, all)) (omega (arith, all, k.weighs, small))
        λ ended. absurd (conflict ended alive)

  take_from-Kept :
      (is : List (Input × ℕ)) (d : Bool) (m : ℕ) (p : PersistentPool Input)
      → Kept p
      → is_in m p.active_state_machines ≡ true
      → is_in m p.terminated_state_machines ≡ false
      → IsSmall max_generated p
      → (is_empty is ≡ true
          → IsSettled d m
              (record p { active_state_machines = set_erase m p.active_state_machines }))
      → (q : PersistentPool Input) × (take_from out max_generated is d m p ≡ some q) × Kept q
  unfolding take_from added_by
  take_from-Kept [] d m p k on alive small settled =
      let (q, off, k', _, _, _) = deactivate-Kept d m p k λ _. settled refl in (q, off, k')
  take_from-Kept (i ∷ is) d m p k on alive small settled =
      let popped = record p {
        pending_inputs = is;
        pending_inputs_weight = minus p.pending_inputs_weight i.1;
      } in
      (
        _,
        refl,
        feed-Kept m i.0 (added_by out max_generated i.0 popped) popped k on alive
            (omega (arith, small)),
      )

  module _ (a : Around) where
    try_run_next_internal-Kept :
        (p : PersistentPool Input)
        → Kept p
        → IsSmall max_generated p
        → IsQuiet a.preceding_is_done p
        → (q : PersistentPool Input) × (try_run_next_internal out max_generated a p ≡ some q)
          × Kept q
    unfolding try_run_next_internal try_activate run_activated try_run_next_input
    try_run_next_internal-Kept p k small quiet =
        went (activate_front p.idle_state_machines p).0 _
          (activate_front-IsActivated p.idle_state_machines p refl k)
      where
        went :
            (o : Option ℕ) (q : PersistentPool Input)
            → IsActivated o p q
            → (r : PersistentPool Input) × (run_activated out max_generated a o q ≡ some r) × Kept r
        went none q g = (q, refl, g.kept)
        went (some m) q g = elim (Bool-cases (a.continues m)) [
          | inl e ↦ rw e (_, refl, g.kept)
          | inr e ↦
              let on = g.on m refl in
              let (r, taken, k') =
                take_from-Kept q.pending_inputs a.preceding_is_done m q g.kept on (g.alive m refl)
                  (omega (arith, small, g.weight))
                  λ _ d empty last.
                    let (none_active, mine) = g.settles m refl last in
                    omega (
                      arith,
                      mine,
                      quiet d (ap (λ xs. is_empty xs) (sym g.inputs) ∙ empty) none_active,
                    ) in
              rw e (_, bind-some _ taken refl, terminate_if_done-Kept a.preceding_is_done r k')
        ]

    pub try_run_next-Kept :
        (p : PersistentPool Input)
        → Kept p
        → IsSmall max_generated p
        → IsQuiet a.preceding_is_done p
        → (q : PersistentPool Input) × (try_run_next out max_generated a p ≡ some q) × Kept q
    unfolding try_run_next
    try_run_next-Kept p k small quiet =
        elim (Bool-cases (is_blocked out max_generated a.next_room p.pending_inputs p)) [
          | inl e ↦ rw e (p, refl, k)
          | inr e ↦
              let (q, ran, k') = try_run_next_internal-Kept p k small quiet in
              rw e (_, bind-some _ ran refl, kicked a.preceding_output q k')
        ]
      where
        kicked : (o : Option ℕ) (q : PersistentPool Input) → Kept q → Kept (kick_preceding o q)
        kicked none q k = k
        kicked (some output) q k =
            elim (Bool-cases
              (ltb output (minus q.max_pending_inputs_weight q.pending_inputs_weight))) [
                | inl e ↦ rw e k
                | inr e ↦ rw e k
              ]
