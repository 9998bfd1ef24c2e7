-- ===== src/Pool/Persistent/Activated.antt =====
-- state_machines/persistent-state-machine-pool.h: the machine that was made active.
use polar_express.Base.{
  ℕ, ◌+◌, ◌≤◌, ◌<◌, ◌≡◌, refl, sym, ap, subst, ◌∙◌, true, false, Option, some, List, [], ◌∷◌,
  length, ltb, ltb→lt, ==_refl, some_inj, is_empty, arith, Bool-cases, inl, inr,
}
use polar_express.Pool.Persistent.{
  PersistentPool, is_in, set_insert, set_erase, activate, construct, activate_front,
}
use polar_express.Pool.Persistent.Sets.{sum_of, is_in-cons}
use polar_express.Pool.Persistent.Kept.{Kept, Limbo-activate, insert-absent}
use polar_express.Pool.Persistent.Limbo.{pull-Limbo, new-Limbo}
use polar_express.Pool.Persistent.Steps.{weight_of_all, erase-insert, Limbo}

module _ {Input : Type 0} where
  -- The machine that was made active, if one was, and what stays as it was.
  pub record IsActivated (o : Option ℕ) (p q : PersistentPool Input) : Type 0 where
    pub kept : Kept q
    pub on : (m : ℕ) → o ≡ some m → is_in m q.active_state_machines ≡ true
    pub alive : (m : ℕ) → o ≡ some m → is_in m q.terminated_state_machines ≡ false
    pub inputs : q.pending_inputs ≡ p.pending_inputs
    pub weight : weight_of_all q ≡ weight_of_all p
    pub settles :
        (m : ℕ)
        → o ≡ some m
        → is_empty (set_erase m q.active_state_machines) ≡ true
        → (is_empty p.active_state_machines ≡ true)
          × (q.output_weight_outstanding m
              ≤ sum_of p.output_weight_outstanding p.idle_state_machines)

  activate-IsActivated :
      (m : ℕ) (p r : PersistentPool Input)
      → Limbo m p
      → is_in m p.terminated_state_machines ≡ false
      → p.pending_inputs ≡ r.pending_inputs
      → weight_of_all p + p.output_weight_outstanding m ≡ weight_of_all r
      → p.active_state_machines ≡ r.active_state_machines
      → p.output_weight_outstanding m ≤ sum_of r.output_weight_outstanding r.idle_state_machines
      → IsActivated (some m) r (activate m p)
  unfolding activate
  activate-IsActivated m p r l alive inputs w active mine =
      let same = insert-absent m p.active_state_machines l.not_active in
      let here : is_in m (set_insert m p.active_state_machines) ≡ true =
        ap (is_in m) same ∙ is_in-cons m m p.active_state_machines ∙ rw (==_refl m) refl in
      record {
        kept = Limbo-activate l;
        on = λ n e.
            subst (λ x. is_in x (set_insert m p.active_state_machines) ≡ true) (some_inj e) here;
        alive = λ n e. subst (λ x. is_in x p.terminated_state_machines ≡ false) (some_inj e) alive;
        inputs = inputs;
        weight = omega (arith, w, ap (sum_of p.output_weight_outstanding) same);
        settles = λ n e.
            subst
              (λ x.
                is_empty (set_erase x (set_insert m p.active_state_machines)) ≡ true
                → (is_empty r.active_state_machines ≡ true)
                  × (p.output_weight_outstanding x
                      ≤ sum_of r.output_weight_outstanding r.idle_state_machines))
              (some_inj e)
              λ h. (
                ap (λ xs. is_empty xs)
                      (sym active ∙ sym (erase-insert m p.active_state_machines l.not_active))
                    ∙ h,
                mine,
              );
      }

  new-IsActivated :
      (p : PersistentPool Input)
      → p.idle_state_machines ≡ []
      → Kept p
      → length p.active_state_machines + length p.terminated_state_machines
        < p.max_simultaneous_state_machines
      → IsActivated (some p.num_constructed) p (activate p.num_constructed (construct p))
  unfolding construct
  new-IsActivated p e k room =
      let place : length p.idle_state_machines + length p.active_state_machines
          < p.max_simultaneous_state_machines =
        omega (arith, ap (λ xs. length xs) e, room) in
      let (l, waiting, same, zero_new) = new-Limbo place k in
      activate-IsActivated p.num_constructed (construct p) p l
        (k.fresh p.num_constructed (omega arith)).2 refl (omega (arith, waiting, same, zero_new))
        refl (omega (arith, zero_new))

  pub activate_front-IsActivated :
      (is : List ℕ) (p : PersistentPool Input)
      → p.idle_state_machines ≡ is
      → Kept p
      → IsActivated (activate_front is p).0 p (activate_front is p).1
  unfolding activate_front
  activate_front-IsActivated (m ∷ ms) p e k =
      let (l, alive) =
        pull-Limbo [] m ms (subst (λ xs. Kept (record p { idle_state_machines = xs })) e k) in
      activate-IsActivated m (record p { idle_state_machines = ms }) p l alive refl
        (omega (arith, ap (sum_of p.output_weight_outstanding) e)) refl
        (omega (arith, ap (sum_of p.output_weight_outstanding) e))
  activate_front-IsActivated [] p e k =
      elim (Bool-cases (
        ltb (length p.active_state_machines + length p.terminated_state_machines)
          p.max_simultaneous_state_machines)) [
            | inr full ↦ rw full (record {
              kept = k;
              on = λ m h. cc;
              alive = λ m h. cc;
              inputs = refl;
              weight = refl;
              settles = λ m h. cc;
            })
            | inl room ↦ rw room (new-IsActivated p e k (ltb→lt _ _ room))
          ]
