-- ===== src/Pool/Persistent/Steps.antt =====
-- state_machines/persistent-state-machine-pool.h: the steps that machines take between the sets.
use polar_express.Base.{
  ℕ, ◌+◌, ◌-◌, ◌≤◌, ◌≡◌, refl, sym, ap, subst, ◌∙◌, Bool, true, false, ◌&&◌, some, List, [], ◌∷◌,
  ◌++◌, le→leb, ◌==◌, ==_iff, ==_refl, is_empty, arith, Bool-cases, inl, inr, append_assoc,
  append-nil, bind-some, assert,
}
use polar_express.Pool.Persistent.{
  PersistentPool, is_in, set_insert, set_erase, is_done, terminate_state_machine, terminate_idle,
  terminate_if_done, retire, deactivate,
}
use polar_express.Pool.Persistent.Sets.{
  sum_of, le-sum_of, sum_of-erase, sum_of-append, conflict, erase-absent,
}
use polar_express.Pool.Persistent.Kept.{Kept, IsLimbo, Limbo-terminate, Limbo-idle, insert-absent}
use polar_express.Pool.Persistent.Limbo.{pull-Limbo, erase-Limbo}

-- The outstanding output weight of all machines that are idle or active.
abbrev pub weight_of_all : {Input : Type 0} → PersistentPool Input → ℕ
weight_of_all p =
    sum_of p.output_weight_outstanding p.idle_state_machines
    + sum_of p.output_weight_outstanding p.active_state_machines

done_parts : (a b d : Bool) → (a && (b && d)) ≡ true → (a ≡ true) × (b ≡ true) × (d ≡ true)
done_parts a b d h = ground arith

parts_done : (a b d : Bool) → a ≡ true → b ≡ true → d ≡ true → (a && (b && d)) ≡ true
parts_done a b d h h' h'' = ground arith

pub erase-insert : (m : ℕ) (xs : List ℕ) → is_in m xs ≡ false → set_erase m (set_insert m xs) ≡ xs
unfolding set_erase
erase-insert m xs off =
    ap (set_erase m) (insert-absent m xs off) ∙ rw (==_refl m) (erase-absent m xs off)

module _ {Input : Type 0} where
  abbrev pub Limbo : ℕ → PersistentPool Input → Type 0
  Limbo m p =
      IsLimbo m p.max_simultaneous_state_machines p.idle_state_machines p.active_state_machines
        p.terminated_state_machines p.output_weight_outstanding p.active_output_weight_outstanding
        p.num_constructed

  terminate-Kept :
      (m : ℕ) (p : PersistentPool Input)
      → Limbo m p
      → is_in m p.terminated_state_machines ≡ false
      → p.output_weight_outstanding m ≡ 0
      → Kept (terminate_state_machine m p)
  unfolding terminate_state_machine
  terminate-Kept m p l alive zero_left = Limbo-terminate l alive zero_left

  terminate_idle-Kept :
      (ms with_output : List ℕ) (p : PersistentPool Input)
      → Kept (record p { idle_state_machines = with_output ++ ms })
      → Kept (terminate_idle ms with_output p)
  unfolding terminate_idle terminate_state_machine
  terminate_idle-Kept [] with_output p k =
      subst (λ xs. Kept (record p { idle_state_machines = xs })) (append-nil with_output) k
  terminate_idle-Kept (m ∷ ms) with_output p k =
      elim (Bool-cases (p.output_weight_outstanding m == 0)) [
        | inl e ↦
            let (l, alive) = pull-Limbo with_output m ms k in
            rw (e, terminate_idle)
              (terminate_idle-Kept ms with_output (terminate_state_machine m p)
                (Limbo-terminate l alive ((==_iff (p.output_weight_outstanding m) 0).0 e)))
        | inr e ↦
            rw (e, terminate_idle)
              (terminate_idle-Kept ms (with_output ++ m ∷ []) p (
                subst (λ xs. Kept (record p { idle_state_machines = xs }))
                  (sym (append_assoc with_output (m ∷ []) ms)) k))
      ]

  pub terminate_if_done-Kept :
      (d : Bool) (p : PersistentPool Input) → Kept p → Kept (terminate_if_done d p)
  unfolding terminate_if_done
  terminate_if_done-Kept d p k = elim (Bool-cases (is_done d p)) [
    | inl e ↦ rw e (terminate_idle-Kept p.idle_state_machines [] p k)
    | inr e ↦ rw e k
  ]

  -- A machine that is told to exit has no output outstanding.
  abbrev pub IsSettled : Bool → ℕ → PersistentPool Input → Type 0
  IsSettled d m p =
      d ≡ true
      → is_empty p.pending_inputs ≡ true
      → is_empty p.active_state_machines ≡ true
      → p.output_weight_outstanding m ≡ 0

  retire-done :
      (d : Bool) (m : ℕ) (p : PersistentPool Input)
      → is_in m p.terminated_state_machines ≡ false
      → is_done d p ≡ true
      → retire d m p ≡ terminate_state_machine m p
  unfolding retire
  retire-done d m p alive e = rw (alive, e) refl

  retire-Kept :
      (d : Bool) (m : ℕ) (p : PersistentPool Input)
      → Limbo m p
      → IsSettled d m p
      → Kept (retire d m p)
  unfolding retire
  retire-Kept d m p l settled = elim (Bool-cases (is_in m p.terminated_state_machines)) [
    | inl e ↦ rw e l.kept
    | inr alive ↦ elim (Bool-cases (is_done d p)) [
      | inl e ↦
          let (nothing_waits, nothing_runs, over) = done_parts _ _ d e in
          subst Kept (sym (retire-done d m p alive e))
            (terminate-Kept m p l alive (settled over nothing_waits nothing_runs))
      | inr e ↦ rw (alive, e) (Limbo-idle l alive)
    ]
  ]

  -- The inputs stay, and no weight is new.
  retire-lighter :
      (d : Bool) (m : ℕ) (p : PersistentPool Input)
      → Limbo m p
      → ((retire d m p).pending_inputs ≡ p.pending_inputs)
        × (weight_of_all (retire d m p) ≤ weight_of_all p + p.output_weight_outstanding m)
  unfolding retire terminate_state_machine
  retire-lighter d m p l = elim (Bool-cases (is_in m p.terminated_state_machines)) [
    | inl e ↦ rw e (refl, omega arith)
    | inr alive ↦ elim (Bool-cases (is_done d p)) [
      | inl e ↦
          rw (alive, e)
            (
              refl,
              omega (
                arith,
                ap (sum_of p.output_weight_outstanding)
                    (insert-absent m p.active_state_machines l.not_active),
              ),
            )
      | inr e ↦
          rw (alive, e)
            (
              refl,
              omega
                  (arith, sum_of-append p.output_weight_outstanding p.idle_state_machines (m ∷ [])),
            )
    ]
  ]

  -- If all is done and yet no machine is active, then the machine was terminated before.
  retire-quiet :
      (d : Bool) (m : ℕ) (p : PersistentPool Input)
      → Limbo m p
      → d ≡ true
      → is_empty p.pending_inputs ≡ true
      → is_empty (retire d m p).active_state_machines ≡ true
      → (is_empty p.active_state_machines ≡ true)
        × (sum_of (retire d m p).output_weight_outstanding (retire d m p).idle_state_machines
            ≡ sum_of p.output_weight_outstanding p.idle_state_machines)
  unfolding retire terminate_state_machine
  retire-quiet d m p l over empty = elim (Bool-cases (is_in m p.terminated_state_machines)) [
    | inl e ↦ rw e λ h. (h, refl)
    | inr alive ↦ elim (Bool-cases (is_done d p)) [
      | inl e ↦
          rw (alive, e)
            λ h. absurd (
              conflict h
                (ap (λ xs. is_empty xs) (insert-absent m p.active_state_machines l.not_active)))
      | inr e ↦ rw (alive, e) λ h. absurd (conflict (parts_done _ _ d empty h over) e)
    ]
  ]

  pub deactivate-Kept :
      (d : Bool) (m : ℕ) (p : PersistentPool Input)
      → Kept p
      → (is_in m p.active_state_machines ≡ true
          → IsSettled d m
              (record p { active_state_machines = set_erase m p.active_state_machines }))
      → (q : PersistentPool Input) × (deactivate d m p ≡ some q)
        × Kept q
        × (q.pending_inputs ≡ p.pending_inputs)
        × (weight_of_all q ≤ weight_of_all p)
        × (d ≡ true
            → is_empty p.pending_inputs ≡ true
            → is_empty q.active_state_machines ≡ true
            → (is_empty (set_erase m p.active_state_machines) ≡ true)
              × (sum_of q.output_weight_outstanding q.idle_state_machines
                  ≡ sum_of p.output_weight_outstanding p.idle_state_machines))
  unfolding deactivate
  deactivate-Kept d m p k settled = elim (Bool-cases (is_in m p.active_state_machines)) [
    | inr off ↦ rw off (
      p,
      refl,
      k,
      refl,
      omega arith,
      λ over empty h.
          (ap (λ xs. is_empty xs) (erase-absent m p.active_state_machines off) ∙ h, refl),
    )
    | inl on ↦
        let enough = le→leb (p.output_weight_outstanding m) p.active_output_weight_outstanding (
          omega (
            arith,
            k.weighs,
            le-sum_of p.output_weight_outstanding m p.active_state_machines on,
          )) in
        let erased : PersistentPool Input = record p {
          active_state_machines = set_erase m p.active_state_machines;
          active_output_weight_outstanding =
              p.active_output_weight_outstanding - p.output_weight_outstanding m;
        } in
        let l : Limbo m erased = erase-Limbo m on k in
        let (inputs, lighter) = retire-lighter d m erased l in
        let (sum, _) =
          sum_of-erase p.output_weight_outstanding m p.active_state_machines k.active_set on in
        rw on (
          _,
          bind-some _ (ap assert enough) refl,
          retire-Kept d m erased l (settled on),
          inputs,
          omega (arith, lighter, sum),
          retire-quiet d m erased l,
        )
  ]
