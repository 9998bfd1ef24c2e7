-- ===== src/StateMachine/Guide.antt =====
-- state_machines/state-machine.h: machines with several events under way. A derived class gives a
-- guide, which says what holds of the state, the queued events, the external callbacks and the
-- fields; from it follow, for every run, that it does hold and that no handler's assertion fails.
use polar_express.Base.{
  ◌≡◌, refl, sym, ap, subst, ◌∙◌, ◌⊎◌, inl, inr, Bool, true, false, List, [], ◌∷◌, ◌++◌, none, some,
  arith, length, Bool-cases, ◌==◌, not, ◌&&◌, is_empty, some_inj, append-nil, append_assoc,
}
use polar_express.StateMachine.{
  Command, post, external, set_idle, notify, Definition, Machine, new, post_event_callback, obey,
  obey_all, process_event, enter, fire_row, run_front, clear_external, call_done, finish_run,
  run_next_event,
}
use polar_express.StateMachine.Balance.{IsBalanced, new-IsBalanced, obey_all-IsBalanced}
use polar_express.StateMachine.Queue.{run_task-Outcome, invoke-IsBalanced}

-- The events that some commands queue, and those whose external callbacks they create.
abbrev pub posted : {E : Type 0} → List (Command E) → List E
posted [] = []
posted (post e ∷ cs) = e ∷ posted cs
posted (external e ∷ cs) = posted cs
posted (set_idle b ∷ cs) = posted cs
posted (notify n ∷ cs) = posted cs

abbrev pub awaited : {E : Type 0} → List (Command E) → List E
awaited [] = []
awaited (post e ∷ cs) = awaited cs
awaited (external e ∷ cs) = e ∷ awaited cs
awaited (set_idle b ∷ cs) = awaited cs
awaited (notify n ∷ cs) = awaited cs

module _ {State Event Action Fields : Type 0} where
  -- `Holds s es os f`: in state s, with the events es queued and the external callbacks os
  -- outstanding. `Served` is what a service may do to the fields before it invokes a callback, and
  -- `Call` is what else may happen: a public method that the owner may call, or a change from
  -- outside. A front event meets no transition, or its handler's assertions hold.
  pub record Guide (d : Definition State Event Action Fields) : Type 1 where
    pub Holds : State → List Event → List Event → Fields → Type 0
    pub Served : State → Event → Fields → Fields → Type 0
    pub Call : State → List Event → Fields → Fields → List (Command Event) → Type 0
    pub ran :
        (s : State) (e : Event) (es os : List Event) (f : Fields)
        → Holds s (e ∷ es) os f
        → ((d.row s e ≡ none) × Holds s es os f)
          ⊎ ((a : Action) × (s' : State) × (f' : Fields) × (cs : List (Command Event)) × (d.row s e
                ≡ some (a, s'))
              × (d.handle a f ≡ some (f', cs))
              × Holds s' (es ++ posted cs) (os ++ awaited cs) f')
    pub served :
        (s : State) (e : Event) (es xs ys : List Event) (f f' : Fields)
        → Holds s es (xs ++ e ∷ ys) f
        → Served s e f f'
        → Holds s (es ++ e ∷ []) (xs ++ ys) f'
    pub called :
        (s : State) (es os : List Event) (f f' : Fields) (cs : List (Command Event))
        → Holds s es os f
        → Call s es f f' cs
        → Holds s (es ++ posted cs) (os ++ awaited cs) f'

module _ {State Event Fields : Type 0} where
  obey_all-adds :
      (cs : List (Command Event)) (m : Machine State Event Fields)
      → ((obey_all cs m).state ≡ m.state)
        × ((obey_all cs m).fields ≡ m.fields)
        × ((obey_all cs m).events ≡ m.events ++ posted cs)
        × ((obey_all cs m).outstanding ≡ m.outstanding ++ awaited cs)
  unfolding obey_all post_event_callback
  obey_all-adds [] m = (refl, refl, sym (append-nil m.events), sym (append-nil m.outstanding))
  obey_all-adds (post e ∷ cs) m =
      let (s, f, es, os) = obey_all-adds cs (obey (post e) m) in
      (s, f, es ∙ append_assoc m.events (e ∷ []) (posted cs), os)
  obey_all-adds (external e ∷ cs) m =
      let (s, f, es, os) = obey_all-adds cs (obey (external e) m) in
      (s, f, es, os ∙ append_assoc m.outstanding (e ∷ []) (awaited cs))
  obey_all-adds (set_idle b ∷ cs) m = obey_all-adds cs (record m { idle = b })
  obey_all-adds (notify n ∷ cs) m = obey_all-adds cs (record m { calls = m.calls ++ n ∷ [] })

module _ {State Event Action Fields : Type 0} {d : Definition State Event Action Fields}
    (g : Guide d) where
  abbrev pub Guided : Machine State Event Fields → Type 0
  Guided m = g.Holds m.state m.events m.outstanding m.fields

  call_done-Guided : (m : Machine State Event Fields) → Guided m → Guided (call_done m)
  call_done-Guided m h =
      elim (Bool-cases ((m.active_callbacks == 0) && (is_empty m.events && not m.idle))) [
        | inl e ↦ rw e h
        | inr e ↦ rw e h
      ]

  process_event-Guided :
      (e : Event) (es : List Event) (m : Machine State Event Fields)
      → g.Holds m.state (e ∷ es) m.outstanding m.fields
      → (m' : Machine State Event Fields) × (process_event d e (record m { events = es }) ≡ some m')
        × Guided m'
  unfolding process_event
  process_event-Guided e es m h = elim (g.ran m.state e es m.outstanding m.fields h) [
    | inl (row, h') ↦ (
      record m { events = es; dropped = m.dropped ++ e ∷ [] },
      ap (λ x. fire_row d e x (record m { events = es })) row,
      h',
    )
    | inr (a, s, f, cs, row, handle, h') ↦
        let n : Machine State Event Fields = record m { events = es; fields = f } in
        let (state, fields, events, outstanding) = obey_all-adds cs n in
        (
          record (obey_all cs n) { state = s },
          ap (λ x. fire_row d e x (record m { events = es })) row
              ∙ ap (λ x. enter d s x (record m { events = es })) handle,
          subst (λ x. g.Holds s x (obey_all cs n).outstanding (obey_all cs n).fields) (sym events)
              (subst (λ x. g.Holds s (es ++ posted cs) x (obey_all cs n).fields) (sym outstanding)
                (subst (λ x. g.Holds s (es ++ posted cs) (m.outstanding ++ awaited cs) x)
                  (sym fields) h')),
        )
  ]

  -- Running the oldest task, on a machine whose bookkeeping is in order, does not fail.
  run_next_event-Guided :
      (t : Bool) (ts : List Bool) (m : Machine State Event Fields)
      → m.tasks ≡ t ∷ ts
      → IsBalanced m
      → Guided m
      → (m' : Machine State Event Fields) × (run_next_event d t (record m { tasks = ts }) ≡ some m')
        × Guided m'
  unfolding run_next_event
  run_next_event-Guided t ts m tasks b h = front m.events refl t
    where
      front :
          (es : List Event)
          → m.events ≡ es
          → (x : Bool)
          → (m' : Machine State Event Fields) × (finish_run (
                run_front d
                  (clear_external x (record m { tasks = ts })).events
                  (clear_external x (record m { tasks = ts })))
              ≡ some m')
            × Guided m'
      front [] e x = absurd (omega (arith, ap length e, b.paired, ap length tasks))
      front (y ∷ ys) e true =
          let (m', run, h') =
            process_event-Guided y ys (clear_external true (record m { tasks = ts }))
              (subst (λ z. g.Holds m.state z m.outstanding m.fields) e h) in
          (
            call_done m',
            ap (λ z. finish_run (run_front d z (clear_external true (record m { tasks = ts })))) e
                ∙ ap finish_run run,
            call_done-Guided m' h',
          )
      front (y ∷ ys) e false =
          let (m', run, h') =
            process_event-Guided y ys (record m { tasks = ts })
              (subst (λ z. g.Holds m.state z m.outstanding m.fields) e h) in
          (
            call_done m',
            ap (λ z. finish_run (run_front d z (record m { tasks = ts }))) e ∙ ap finish_run run,
            call_done-Guided m' h',
          )

  -- The strand runs its oldest task; a service ends its work and invokes the callback; or a call or
  -- a change from outside.
  pub data Step : Machine State Event Fields → Machine State Event Fields → Type 0 where
    runs :
        {m m' : Machine State Event Fields} (t : Bool) (ts : List Bool)
        → m.tasks ≡ t ∷ ts
        → run_next_event d t (record m { tasks = ts }) ≡ some m'
        → Step m m'
    invokes :
        {m m' : Machine State Event Fields} (xs ys : List Event) (e : Event) (f : Fields)
        → m.outstanding ≡ xs ++ e ∷ ys
        → g.Served m.state e m.fields f
        → m' ≡ post_event_callback e true (record m { outstanding = xs ++ ys; fields = f })
        → Step m m'
    calls :
        {m m' : Machine State Event Fields} (f : Fields) (cs : List (Command Event))
        → g.Call m.state m.events m.fields f cs
        → m' ≡ obey_all cs (record m { fields = f })
        → Step m m'

  pub data Reach (s : State) (f : Fields) : Machine State Event Fields → Type 0 where
    start : Reach s f (new s f)
    next : {m m' : Machine State Event Fields} → Reach s f m → Step m m' → Reach s f m'

  Step-Guided :
      {m m' : Machine State Event Fields}
      → Step m m'
      → IsBalanced m × Guided m
      → IsBalanced m' × Guided m'
  unfolding post_event_callback
  Step-Guided {m} {m'} (runs t ts e h) (b, g') =
      let (n, run, g'') = run_next_event-Guided t ts m e b g' in
      ((run_task-Outcome d t ts m m' e b h).balanced, subst Guided (some_inj (sym run ∙ h)) g'')
  Step-Guided {m} {m'} (invokes xs ys e f o s is) (b, h) = (
    subst IsBalanced (sym is) (
        invoke-IsBalanced d xs ys e (record m { fields = f }) o
          (record { paired = b.paired; counted = b.counted })),
    subst Guided (sym is) (
        g.served m.state e m.events xs ys m.fields f
          (subst (λ x. g.Holds m.state m.events x m.fields) o h) s),
  )
  Step-Guided {m} {m'} (calls f cs call is) (b, h) =
      let n : Machine State Event Fields = record m { fields = f } in
      let (state, fields, events, outstanding) = obey_all-adds cs n in
      (
        subst IsBalanced (sym is)
            (obey_all-IsBalanced cs n (record { paired = b.paired; counted = b.counted })).0,
        subst Guided (sym is) (
            rebuilt state fields events outstanding
              (g.called m.state m.events m.outstanding m.fields f cs h call)),
      )
    where
      rebuilt :
          {s s' : State} {f f' : Fields} {es es' os os' : List Event}
          → s' ≡ s
          → f' ≡ f
          → es' ≡ es
          → os' ≡ os
          → g.Holds s es os f
          → g.Holds s' es' os' f'
      rebuilt a b c d h = rw (a, b, c, d) h

  pub Reach-Guided :
      {s : State} {f : Fields} {m : Machine State Event Fields}
      → g.Holds s [] [] f
      → Reach s f m
      → IsBalanced m × Guided m
  Reach-Guided {s} {f} h start = (new-IsBalanced s f, h)
  Reach-Guided h (next before st) = Step-Guided st (Reach-Guided h before)

  -- In every machine that is reached, the oldest task, if there is one, runs without a failed
  -- assertion.
  pub Reach-runs :
      {s : State} {f : Fields} {m : Machine State Event Fields} (t : Bool) (ts : List Bool)
      → g.Holds s [] [] f
      → Reach s f m
      → m.tasks ≡ t ∷ ts
      → (m' : Machine State Event Fields) × (run_next_event d t (record m { tasks = ts }) ≡ some m')
        × Guided m'
  Reach-runs {m = m} t ts h reach tasks =
      let (b, h') = Reach-Guided h reach in run_next_event-Guided t ts m tasks b h'
