-- ===== src/StateMachine/Queue.antt =====
-- state_machines/state-machine.h: the bookkeeping of the queue, and when the done callback is
-- called.
use polar_express.Base.{
  ℕ, suc, ◌+◌, ◌≡◌, refl, sym, subst, is_empty, ◌∙◌, ap, ◌↔◌, ◌⊎◌, inl, inr, Bool, true, false,
  List, [], ◌∷◌, ◌++◌, Option, none, some, arith, length, length-append, some_inj, Bool-cases, ◌==◌,
  not, ◌&&◌,
}
use polar_express.StateMachine.{
  Command, Definition, Machine, new, post_event_callback, obey_all, process_event, enter, fire_row,
  run_front, clear_external, call_done, finish_run, run_next_event,
}
use polar_express.StateMachine.Balance.{
  externals, externals-append, IsBalanced, new-IsBalanced, obey_all-IsBalanced,
}

module _ {State Event Fields : Type 0} where
  -- Nothing is queued and no callback can come.
  pub record IsFinished (m : Machine State Event Fields) : Type 0 where
    pub no_events : m.events ≡ []
    pub no_tasks : m.tasks ≡ []
    pub no_callbacks : m.outstanding ≡ []
    pub not_idle : m.idle ≡ false

  IsFinished-iff :
      (m : Machine State Event Fields)
      → IsBalanced m
      → (((m.active_callbacks == 0) && (is_empty m.events && not m.idle)) ≡ true) ↔ IsFinished m
  IsFinished-iff m b = (λ e. finish m.events m.outstanding m.tasks refl refl refl e, λ f. ready f)
    where
      finish :
          (es os : List Event) (ts : List Bool)
          → m.events ≡ es
          → m.outstanding ≡ os
          → m.tasks ≡ ts
          → ((m.active_callbacks == 0) && (is_empty m.events && not m.idle)) ≡ true
          → IsFinished m
      finish [] [] [] p q r e = record {
        no_events = p;
        no_tasks = r;
        no_callbacks = q;
        not_idle = ground arith;
      }
      finish (x ∷ es) os ts p q r e = ground arith
      finish [] (o ∷ os) ts p q r e = ground (arith, b.counted, ap length q)
      finish [] [] (t ∷ ts) p q r e = absurd (omega (arith, b.paired, ap length p, ap length r))

      ready : IsFinished m → ((m.active_callbacks == 0) && (is_empty m.events && not m.idle)) ≡ true
      ready f =
          let n : m.active_callbacks ≡ 0 =
            omega (arith, b.counted, ap length f.no_callbacks, ap externals f.no_tasks) in
          rw (n, f.no_events, f.not_idle)

  -- The outcome of RunNextEvent: the done callback is called when nothing is left, and not
  -- otherwise.
  pub record Outcome (before after : Machine State Event Fields) : Type 0 where
    pub balanced : IsBalanced after
    pub called_once : (after.done ≡ before.done) ⊎ (after.done ≡ before.done + 1)
    pub called_iff : (after.done ≡ before.done + 1) ↔ IsFinished after

  call_done-Outcome :
      (before m : Machine State Event Fields)
      → m.done ≡ before.done
      → IsBalanced m
      → Outcome before (call_done m)
  call_done-Outcome before m d b =
      elim (Bool-cases ((m.active_callbacks == 0) && (is_empty m.events && not m.idle))) [
        | inl e ↦ rw e (record {
          balanced = record { paired = b.paired; counted = b.counted };
          called_once = inr (omega arith);
          called_iff = (
            λ _.
                let f = (IsFinished-iff m b).0 e in
                record {
                  no_events = f.no_events;
                  no_tasks = f.no_tasks;
                  no_callbacks = f.no_callbacks;
                  not_idle = f.not_idle;
                },
            λ _. omega arith,
          );
        })
        | inr e ↦ rw e (record {
          balanced = b;
          called_once = inl d;
          called_iff =
              (λ h. absurd (omega arith), λ f. absurd (true_false ((IsFinished-iff m b).1 f) e));
        })
      ]
    where
      true_false : {x : Bool} → x ≡ true → x ≡ false → ⊥
      true_false p q = cc

module _ {State Event Action Fields : Type 0} (d : Definition State Event Action Fields) where
  process_event-IsBalanced :
      (e : Event) (m m' : Machine State Event Fields)
      → IsBalanced m
      → process_event d e m ≡ some m'
      → IsBalanced m' × (m'.done ≡ m.done)
  unfolding process_event
  process_event-IsBalanced e m m' b = look (d.row m.state e)
    where
      handled :
          (s : State) (r : Option (Fields × List (Command Event)))
          → enter d s r m ≡ some m'
          → IsBalanced m' × (m'.done ≡ m.done)
      handled s none h = cc
      handled s (some (f, cs)) h =
          let (g, n) =
            obey_all-IsBalanced cs (record m { fields = f })
              (record { paired = b.paired; counted = b.counted }) in
          subst (λ x. IsBalanced x × (x.done ≡ m.done)) (some_inj h)
            (record { paired = g.paired; counted = g.counted }, n)

      look :
          (r : Option (Action × State))
          → fire_row d e r m ≡ some m'
          → IsBalanced m' × (m'.done ≡ m.done)
      look none h =
          subst (λ x. IsBalanced x × (x.done ≡ m.done)) (some_inj h)
            (record { paired = b.paired; counted = b.counted }, refl)
      look (some (a, s)) h = handled s (d.handle a m.fields) h

  cleared :
      (t : Bool) (m : Machine State Event Fields) (k : ℕ)
      → m.active_callbacks ≡ k + externals (t ∷ [])
      → let n = clear_external t m in
        (n.active_callbacks ≡ k)
        × (n.events ≡ m.events)
        × (n.outstanding ≡ m.outstanding)
        × (n.tasks ≡ m.tasks)
        × (n.done ≡ m.done)
  cleared true m k e = (ground arith, refl, refl, refl, refl)
  cleared false m k e = (omega arith, refl, refl, refl, refl)

  -- One task, run on a machine whose bookkeeping is in order.
  pub run_task-Outcome :
      (t : Bool) (ts : List Bool) (m m' : Machine State Event Fields)
      → m.tasks ≡ t ∷ ts
      → IsBalanced m
      → run_next_event d t (record m { tasks = ts }) ≡ some m'
      → Outcome m m'
  unfolding run_next_event
  run_task-Outcome t ts m m' e b h =
      let (active, same_events, same_outstanding, same_tasks, same_done) =
        cleared t (record m { tasks = ts }) (length m.outstanding + externals ts) popped in
      run n.events refl (omega (arith, ap length same_events, ap length e, b.paired))
        (omega (arith, active, ap length same_outstanding, ap externals same_tasks)) same_done
        (ap length same_tasks) h
    where
      n : Machine State Event Fields
      n = clear_external t (record m { tasks = ts })

      popped : m.active_callbacks ≡ length m.outstanding + externals ts + externals (t ∷ [])
      popped = omega (arith, b.counted, ap externals e, externals-append (t ∷ []) ts)

      run :
          (es : List Event)
          → n.events ≡ es
          → length n.events ≡ suc (length ts)
          → n.active_callbacks ≡ length n.outstanding + externals n.tasks
          → n.done ≡ m.done
          → length n.tasks ≡ length ts
          → finish_run (run_front d es n) ≡ some m'
          → Outcome m m'
      run [] e' paired counted same k h = absurd (omega (arith, ap length e'))
      run (x ∷ es) e' paired counted same k h =
          finish (process_event d x (record n { events = es })) refl h
        where
          finish :
              (r : Option (Machine State Event Fields))
              → process_event d x (record n { events = es }) ≡ r
              → finish_run r ≡ some m'
              → Outcome m m'
          finish none p h = cc
          finish (some o) p h =
              let (b', same') =
                process_event-IsBalanced x (record n { events = es }) o
                  (record { paired = omega (arith, ap length e'); counted = counted }) p in
              subst (Outcome m) (some_inj h) (call_done-Outcome m o (same' ∙ same) b')

  -- What can happen: the strand runs its oldest task, someone invokes an outstanding callback, or
  -- the owner calls a public method, which sets fields and issues commands.
  pub data Step : Machine State Event Fields → Machine State Event Fields → Type 0 where
    runs :
        {m m' : Machine State Event Fields} (t : Bool) (ts : List Bool)
        → m.tasks ≡ t ∷ ts
        → run_next_event d t (record m { tasks = ts }) ≡ some m'
        → Step m m'
    invokes :
        {m m' : Machine State Event Fields} (xs ys : List Event) (e : Event)
        → m.outstanding ≡ xs ++ e ∷ ys
        → m' ≡ post_event_callback e true (record m { outstanding = xs ++ ys })
        → Step m m'
    owner :
        {m m' : Machine State Event Fields} (f : Fields) (cs : List (Command Event))
        → m' ≡ obey_all cs (record m { fields = f })
        → Step m m'

  pub data Reach (s : State) (f : Fields) : Machine State Event Fields → Type 0 where
    start : Reach s f (new s f)
    next : {m m' : Machine State Event Fields} → Reach s f m → Step m m' → Reach s f m'

  pub invoke-IsBalanced :
      (xs ys : List Event) (e : Event) (m : Machine State Event Fields)
      → m.outstanding ≡ xs ++ e ∷ ys
      → IsBalanced m
      → IsBalanced (post_event_callback e true (record m { outstanding = xs ++ ys }))
  unfolding post_event_callback
  invoke-IsBalanced xs ys e m o b = record {
    paired =
        omega (arith, b.paired, length-append m.events (e ∷ []), length-append m.tasks (true ∷ []));
    counted = omega (
      arith,
      b.counted,
      ap length o,
      length-append xs (e ∷ ys),
      length-append xs ys,
      externals-append m.tasks (true ∷ []),
    );
  }

  Step-IsBalanced : {m m' : Machine State Event Fields} → Step m m' → IsBalanced m → IsBalanced m'
  Step-IsBalanced {m} {m'} (runs t ts e h) b = (run_task-Outcome t ts m m' e b h).balanced
  Step-IsBalanced {m} (invokes xs ys e o is) b =
      subst IsBalanced (sym is) (invoke-IsBalanced xs ys e m o b)
  Step-IsBalanced {m} (owner f cs is) b =
      subst IsBalanced (sym is)
        (obey_all-IsBalanced cs (record m { fields = f })
          (record { paired = b.paired; counted = b.counted })).0

  Reach-IsBalanced :
      {s : State} {f : Fields} {m : Machine State Event Fields} → Reach s f m → IsBalanced m
  Reach-IsBalanced {s} {f} start = new-IsBalanced s f
  Reach-IsBalanced (next r st) = Step-IsBalanced st (Reach-IsBalanced r)

  -- In every machine reached from a new one by any steps, each queued event has its task, and the
  -- count of external callbacks is exact. A run of the oldest task calls the done callback at most
  -- once, and calls it exactly if it leaves no queued event, no task, no outstanding callback and
  -- no idle flag.
  pub run_next_event_lem :
      {s : State} {f : Fields} {m m' : Machine State Event Fields} (t : Bool) (ts : List Bool)
      → Reach s f m
      → m.tasks ≡ t ∷ ts
      → run_next_event d t (record m { tasks = ts }) ≡ some m'
      → IsBalanced m × Outcome m m'
  run_next_event_lem {m = m} {m' = m'} t ts r e h =
      (Reach-IsBalanced r, run_task-Outcome t ts m m' e (Reach-IsBalanced r) h)
