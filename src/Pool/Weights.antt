-- ===== src/Pool/Weights.antt =====
-- state_machines/one-shot-state-machine-pool.h: the weights that a pool keeps are those of its
-- inputs and of its machines.
use polar_express.Base.{
  ℕ, suc, ◌+◌, ◌%◌, ◌≤◌, ◌<◌, ◌≡◌, refl, sym, ap, subst, ◌∙◌, ◌⊎◌, inl, inr, true, false, Option,
  some, List, [], ◌∷◌, ◌++◌, length, leb, ltb, leb→le, le→leb, ◌==◌, arith, Bool-cases, bind-some,
  some_inj, assert, ◌-◌, none, ◌>>=◌,
}
use polar_express.Pool.{
  Pool, word, new, weight_of, erase, can_accept_new_input, run_front, try_run_next_internal,
  is_blocked, try_run_next, add_new_input, delete_state_machine,
}

abbrev pub weigh : {A : Type 0} → List (A × ℕ) → ℕ
weigh [] = 0
weigh (x ∷ xs) = x.1 + weigh xs

abbrev pub IsRunning : ℕ → List (ℕ × ℕ) → Type 0
IsRunning id [] = ⊥
IsRunning id (r ∷ rs) = (r.0 ≡ id) ⊎ IsRunning id rs

-- The weights and the counts are those of the queue and of the running machines, and within bounds;
-- a total that no size_t holds has wrapped around.
pub record IsBalanced {Input : Type 0} (p : Pool Input) : Type 0 where
  pub pending : p.pending_inputs_weight ≡ weigh p.pending_inputs
  pub pending_small : p.pending_inputs_weight < word
  pub pending_fits : p.pending_inputs_weight ≤ p.max_pending_inputs_weight
  pub running : p.num_running_state_machines ≡ length p.running_machine_output_weight
  pub running_fits : p.num_running_state_machines ≤ p.max_simultaneous_state_machines
  pub total : p.total_running_output_weight ≡ weigh p.running_machine_output_weight % word

none-some : {A : Type 0} {x : A} → some x ≡ none → ⊥
none-some h = cc

weigh-append : {A : Type 0} (xs ys : List (A × ℕ)) → weigh (xs ++ ys) ≡ weigh xs + weigh ys
weigh-append [] ys = omega arith
weigh-append (x ∷ xs) ys = omega (arith, weigh-append xs ys)

weigh-erase : (id : ℕ) (rs : List (ℕ × ℕ)) → weigh (erase id rs) + weight_of id rs ≡ weigh rs
unfolding erase weight_of
weigh-erase id [] = refl
weigh-erase id (r ∷ rs) = elim (Bool-cases (r.0 == id)) [
  | inl e ↦ rw e (omega arith)
  | inr e ↦ rw e (omega (arith, weigh-erase id rs))
]

length-erase :
    (id : ℕ) (rs : List (ℕ × ℕ)) → IsRunning id rs → suc (length (erase id rs)) ≡ length rs
unfolding erase
length-erase id [] m = absurd m
length-erase id (r ∷ rs) m = elim (Bool-cases (r.0 == id)) [
  | inl e ↦ rw e refl
  | inr e ↦ rw e (ap suc (length-erase id rs (elsewhere e m)))
]
  where
    elsewhere : (r.0 == id) ≡ false → (r.0 ≡ id) ⊎ IsRunning id rs → IsRunning id rs
    elsewhere e (inl here) = absurd (ground arith)
    elsewhere e (inr there) = there

module _ {Input : Type 0} (out : Input → ℕ) where
  run_front-IsBalanced :
      (is : List (Input × ℕ)) (p : Pool Input)
      → p.pending_inputs ≡ is
      → p.num_running_state_machines < p.max_simultaneous_state_machines
      → IsBalanced p
      → IsBalanced (run_front out is p)
  run_front-IsBalanced [] p e room b = b
  run_front-IsBalanced (i ∷ is) p e room b = record {
    pending = omega (arith, b.pending ∙ ap weigh e, b.pending_small);
    pending_small = omega arith;
    pending_fits = omega (arith, b.pending_fits, b.pending ∙ ap weigh e, b.pending_small);
    running = omega (arith, b.running);
    running_fits = omega arith;
    total = omega (arith, b.total);
  }

  ltb-false : (a b : ℕ) → ltb a b ≡ false → b ≤ a
  ltb-false a b e = ground arith

  leb-false : (a b : ℕ) → leb a b ≡ false → b < a
  leb-false a b e = ground arith

  pub try_run_next-IsBalanced :
      (room : Option ℕ) (p : Pool Input) → IsBalanced p → IsBalanced (try_run_next out room p)
  unfolding try_run_next try_run_next_internal
  try_run_next-IsBalanced room p b = elim (Bool-cases (is_blocked out room p.pending_inputs p)) [
    | inl e ↦ rw e b
    | inr e ↦
        elim (Bool-cases (leb p.max_simultaneous_state_machines p.num_running_state_machines)) [
          | inl full ↦ rw (e, full) b
          | inr free ↦
              rw (e, free) (run_front-IsBalanced p.pending_inputs p refl (leb-false _ _ free) b)
        ]
  ]

  accepted-IsBalanced :
      (input : Input) (weight : ℕ) (p : Pool Input)
      → weight + p.max_pending_inputs_weight < word
      → can_accept_new_input weight p ≡ true
      → IsBalanced p
      → IsBalanced (record p {
        pending_inputs = p.pending_inputs ++ (input, weight) ∷ [];
        pending_inputs_weight = (p.pending_inputs_weight + weight) % word;
      })
  unfolding can_accept_new_input
  accepted-IsBalanced input weight p small e b =
      let n : ℕ = (p.pending_inputs_weight + weight) % word in
      let exact : n ≡ p.pending_inputs_weight + weight = omega (arith, b.pending_fits) in
      record {
        pending =
            exact ∙ omega (arith, b.pending, weigh-append p.pending_inputs ((input, weight) ∷ []));
        pending_small = omega arith;
        pending_fits = leb→le n p.max_pending_inputs_weight e;
        running = b.running;
        running_fits = b.running_fits;
        total = b.total;
      }

  pub add_new_input-IsBalanced :
      (room : Option ℕ) (input : Input) (weight : ℕ) (p : Pool Input)
      → weight + p.max_pending_inputs_weight < word
      → IsBalanced p
      → IsBalanced (add_new_input out room input weight p).1
  unfolding add_new_input
  add_new_input-IsBalanced room input weight p small b =
      elim (Bool-cases (can_accept_new_input weight p)) [
        | inl e ↦
            rw e (try_run_next-IsBalanced room _ (accepted-IsBalanced input weight p small e b))
        | inr e ↦ rw e b
      ]

  abbrev deleted : ℕ → Pool Input → Pool Input
  deleted id p = record p {
    total_running_output_weight =
        p.total_running_output_weight - weight_of id p.running_machine_output_weight;
    running_machine_output_weight = erase id p.running_machine_output_weight;
    num_running_state_machines = p.num_running_state_machines - 1;
    num_finished_state_machines = p.num_finished_state_machines + 1;
    posted = p.posted + 1;
  }

  deleted-IsBalanced :
      (id : ℕ) (p : Pool Input)
      → IsRunning id p.running_machine_output_weight
      → weight_of id p.running_machine_output_weight ≤ p.total_running_output_weight
      → IsBalanced p
      → IsBalanced (deleted id p)
  deleted-IsBalanced id p m enough b = record {
    pending = b.pending;
    pending_small = b.pending_small;
    pending_fits = b.pending_fits;
    running = omega (arith, b.running, length-erase id p.running_machine_output_weight m);
    running_fits = omega (arith, b.running_fits);
    total = omega (arith, b.total, weigh-erase id p.running_machine_output_weight, enough);
  }

  delete-deleted :
      (id : ℕ) (p : Pool Input)
      → weight_of id p.running_machine_output_weight ≤ p.total_running_output_weight
      → delete_state_machine id p ≡ some (deleted id p)
  unfolding delete_state_machine
  delete-deleted id p enough = bind-some _ (ap assert (le→leb _ _ enough)) refl

  delete-enough :
      (id : ℕ) (p q : Pool Input)
      → delete_state_machine id p ≡ some q
      → weight_of id p.running_machine_output_weight ≤ p.total_running_output_weight
  unfolding delete_state_machine
  delete-enough id p q e =
      let rs : List (ℕ × ℕ) = p.running_machine_output_weight in
      elim (Bool-cases (leb (weight_of id rs) p.total_running_output_weight)) [
        | inl h ↦ leb→le _ _ h
        | inr h ↦ absurd (none-some (sym e ∙ ap (λ b. assert b >>= λ _. some (deleted id p)) h))
      ]

  -- The total has not wrapped around.
  abbrev pub IsExact : Pool Input → Type 0
  IsExact p = p.total_running_output_weight ≡ weigh p.running_machine_output_weight

  pub delete-IsBalanced :
      (id : ℕ) (p : Pool Input)
      → IsRunning id p.running_machine_output_weight
      → IsBalanced p
      → IsExact p
      → (q : Pool Input) × (delete_state_machine id p ≡ some q)
        × IsBalanced q
        × IsExact q
        × (q.total_running_output_weight + weight_of id p.running_machine_output_weight
            ≡ p.total_running_output_weight)
  delete-IsBalanced id p m b exact =
      let erased = weigh-erase id p.running_machine_output_weight in
      let enough : weight_of id p.running_machine_output_weight ≤ p.total_running_output_weight =
        omega (arith, exact, erased) in
      (
        deleted id p,
        delete-deleted id p enough,
        deleted-IsBalanced id p m enough b,
        omega (arith, exact, erased),
        omega (arith, exact, erased),
      )

  -- What happens to a pool: an input comes, the strand runs a posted call, a machine finishes.
  pub data Step : Pool Input → Pool Input → Type 0 where
    adds :
        {p : Pool Input} (room : Option ℕ) (input : Input) (weight : ℕ)
        → weight + p.max_pending_inputs_weight < word
        → Step p (add_new_input out room input weight p).1
    tries : {p : Pool Input} (room : Option ℕ) → Step p (try_run_next out room p)
    finishes :
        {p q : Pool Input} (id : ℕ)
        → IsRunning id p.running_machine_output_weight
        → delete_state_machine id p ≡ some q
        → Step p q

  pub data Reach (max_weight max_machines : ℕ) : Pool Input → Type 0 where
    start : Reach max_weight max_machines (new max_weight max_machines)
    next :
        {p q : Pool Input}
        → Reach max_weight max_machines p
        → Step p q
        → Reach max_weight max_machines q

  Step-IsBalanced : {p q : Pool Input} → Step p q → IsBalanced p → IsBalanced q
  Step-IsBalanced {p} (adds room input weight small) b =
      add_new_input-IsBalanced room input weight p small b
  Step-IsBalanced {p} (tries room) b = try_run_next-IsBalanced room p b
  Step-IsBalanced {p} {q} (finishes id m e) b =
      let enough = delete-enough id p q e in
      subst IsBalanced (some_inj (sym (delete-deleted id p enough) ∙ e))
        (deleted-IsBalanced id p m enough b)

  -- In every pool that is reached from a new one, if the weight of each input and the pool's maximum
  -- have a sum that fits a size_t: the weight of the inputs that wait is the sum of their weights
  -- and at most the maximum, the number of running machines is right and at most the maximum, and
  -- the outstanding output weight is the sum over the running machines, modulo 2 ^ 64.
  pub pool-IsBalanced :
      (max_weight max_machines : ℕ) {p : Pool Input}
      → Reach max_weight max_machines p
      → IsBalanced p
  pool-IsBalanced max_weight max_machines start = record {
    pending = refl;
    pending_small = omega arith;
    pending_fits = omega arith;
    running = refl;
    running_fits = omega arith;
    total = refl;
  }
  pool-IsBalanced max_weight max_machines (next before step) =
      Step-IsBalanced step (pool-IsBalanced max_weight max_machines before)

  -- What a pool with a next pool keeps: the total is exact, and at most the room in the next pool.
  module _ (most : ℕ) (bounded : (i : Input) → out i ≤ most) (room : ℕ)
      (small : room + most < word) where
    abbrev pub HasRoom : Pool Input → Type 0
    HasRoom p = IsExact p × (p.total_running_output_weight ≤ room)

    run_front-HasRoom :
        (is : List (Input × ℕ)) (p : Pool Input)
        → is_blocked out (some room) is p ≡ false
        → HasRoom p
        → HasRoom (run_front out is p)
    run_front-HasRoom [] p e h = h
    run_front-HasRoom (i ∷ is) p e (exact, fits) = (
      omega (arith, exact, fits, bounded i.0, small),
      ltb-false room ((p.total_running_output_weight + out i.0) % word) e,
    )

    -- A pool with a next pool only starts a machine if the output of all its machines, that of the
    -- new one included, fits the next pool.
    pub try_run_next-HasRoom :
        (p : Pool Input) → HasRoom p → HasRoom (try_run_next out (some room) p)
    unfolding try_run_next try_run_next_internal
    try_run_next-HasRoom p h = elim (Bool-cases (is_blocked out (some room) p.pending_inputs p)) [
      | inl e ↦ rw e h
      | inr e ↦
          elim (Bool-cases (leb p.max_simultaneous_state_machines p.num_running_state_machines)) [
            | inl full ↦ rw (e, full) h
            | inr free ↦ rw (e, free) (run_front-HasRoom p.pending_inputs p e h)
          ]
    ]

    pub add_new_input-HasRoom :
        (input : Input) (weight : ℕ) (p : Pool Input)
        → HasRoom p
        → HasRoom (add_new_input out (some room) input weight p).1
    unfolding add_new_input
    add_new_input-HasRoom input weight p h = elim (Bool-cases (can_accept_new_input weight p)) [
      | inl e ↦ rw e (
          try_run_next-HasRoom
            (record p {
              pending_inputs = p.pending_inputs ++ (input, weight) ∷ [];
              pending_inputs_weight = (p.pending_inputs_weight + weight) % word;
            })
            h)
      | inr e ↦ rw e h
    ]
