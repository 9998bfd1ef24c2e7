-- ===== src/StateMachine/Control.antt =====
-- state_machines/state-machine.h: machines in which one event at a time is under way. A derived
-- class gives a protocol; from it follow, for every run, that no handler's assertion fails and that
-- each event meets a transition.
use polar_express.Base.{
  ◌≡◌, refl, sym, ap, subst, ◌∙◌, inl, inr, Bool, true, false, List, [], ◌∷◌, ◌++◌, Option, none,
  some, arith, length, Bool-cases, ◌==◌, not, ◌&&◌, is_empty, some_inj,
}
use polar_express.StateMachine.{
  Command, Definition, Machine, new, post_event_callback, obey_all, process_event, enter, fire_row,
  run_front, clear_external, call_done, finish_run, run_next_event,
}
use polar_express.StateMachine.Balance.{IsBalanced, new-IsBalanced, obey_all-IsBalanced}
use polar_express.StateMachine.Queue.{run_task-Outcome, invoke-IsBalanced}
use polar_express.StateMachine.Protocol.{
  Protocol, IsControlled, opt_list, obey_all-Adds, front_only, invoked_only,
}

module _ {State Event Action Fields : Type 0} {d : Definition State Event Action Fields}
    (p : Protocol d) where
  call_done-IsControlled :
      (k : Option Event) (m : Machine State Event Fields)
      → IsControlled p k m
      → IsControlled p k (call_done m)
  call_done-IsControlled k m c = elim (Bool-cases done) [
    | inl e ↦
        rw e (record { ready = c.ready; under_way = c.under_way; none_dropped = c.none_dropped })
    | inr e ↦ rw e c
  ]
    where
      done : Bool
      done = (m.active_callbacks == 0) && (is_empty m.events && not m.idle)

  -- A queued event is served: its transition exists and its handler's assertions hold.
  process_event-IsControlled :
      (e : Event) (m : Machine State Event Fields)
      → m.events ≡ []
      → m.outstanding ≡ []
      → m.dropped ≡ []
      → p.Ready m.state (some e) m.fields
      → (k : Option Event) × (m' : Machine State Event Fields) × (process_event d e m ≡ some m')
        × IsControlled p k m'
  unfolding process_event
  process_event-IsControlled e m es os ds r =
      let (a, s, f, cs, k, row, handle, adds, r') = p.handled m.state e m.fields r in
      let (way, dropped, fields, state) = obey_all-Adds cs (record m { fields = f }) k es os adds in
      (
        k,
        record (obey_all cs (record m { fields = f })) { state = s },
        ap (λ x. fire_row d e x m) row ∙ ap (λ x. enter d s x m) handle,
        record {
          ready = subst (λ x. p.Ready s k x) (sym fields) r';
          under_way = way;
          none_dropped = dropped ∙ ds;
        },
      )

  -- Running the oldest task does not fail, and keeps one event under way at most.
  pub run_next_event-IsControlled :
      (t : Bool) (ts : List Bool) (k : Option Event) (m : Machine State Event Fields)
      → m.tasks ≡ t ∷ ts
      → IsBalanced m
      → IsControlled p k m
      → (k' : Option Event) × (m' : Machine State Event Fields) × (run_next_event d t
            (record m { tasks = ts })
          ≡ some m')
        × IsControlled p k' m'
  unfolding run_next_event
  run_next_event-IsControlled t ts k m tasks b c =
      let (e, is, es, os) =
        front_only m.events m.outstanding k (length ts) (omega (arith, b.paired, ap length tasks))
          c.under_way in
      let n : Machine State Event Fields = clear_external t (record m { tasks = ts }) in
      let (same_state, same_fields, same_events, same_outstanding, same_dropped) = cleared t in
      let (k', m', run, c') =
        process_event-IsControlled e (record n { events = [] }) refl (same_outstanding ∙ os)
          (same_dropped ∙ c.none_dropped)
          (subst (λ s. p.Ready s (some e) n.fields) (sym same_state)
            (subst (λ f. p.Ready m.state (some e) f) (sym same_fields)
              (subst (λ x. p.Ready m.state x m.fields) is c.ready))) in
      (
        k',
        call_done m',
        ap (λ x. finish_run (run_front d x n)) (same_events ∙ es) ∙ ap finish_run run,
        call_done-IsControlled k' m' c',
      )
    where
      cleared :
          (x : Bool)
          → let n = clear_external x (record m { tasks = ts }) in
            (n.state ≡ m.state)
            × (n.fields ≡ m.fields)
            × (n.events ≡ m.events)
            × (n.outstanding ≡ m.outstanding)
            × (n.dropped ≡ m.dropped)
      cleared true = (refl, refl, refl, refl, refl)
      cleared false = (refl, refl, refl, refl, refl)

  -- The strand runs its oldest task; a service ends its work and invokes the callback; or the owner
  -- calls a public method while no event is under way.
  pub data Step : Machine State Event Fields → Machine State Event Fields → Type 0 where
    runs :
        {m m' : Machine State Event Fields} (t : Bool) (ts : List Bool)
        → m.tasks ≡ t ∷ ts
        → run_next_event d t (record m { tasks = ts }) ≡ some m'
        → Step m m'
    invokes :
        {m m' : Machine State Event Fields} (xs ys : List Event) (e : Event) (f : Fields)
        → m.outstanding ≡ xs ++ e ∷ ys
        → p.Served e m.fields f
        → m' ≡ post_event_callback e true (record m { outstanding = xs ++ ys; fields = f })
        → Step m m'
    calls :
        {m m' : Machine State Event Fields} (f : Fields) (cs : List (Command Event))
        → m.events ≡ []
        → m.outstanding ≡ []
        → p.Call m.state m.fields f cs
        → m' ≡ obey_all cs (record m { fields = f })
        → Step m m'

  pub data Reach (s : State) (f : Fields) : Machine State Event Fields → Type 0 where
    start : Reach s f (new s f)
    next : {m m' : Machine State Event Fields} → Reach s f m → Step m m' → Reach s f m'

  Step-IsControlled :
      {m m' : Machine State Event Fields} (k : Option Event)
      → Step m m'
      → IsBalanced m
      → IsControlled p k m
      → (k' : Option Event) × IsControlled p k' m'
  unfolding post_event_callback
  Step-IsControlled {m} {m'} k (runs t ts e h) b c =
      let (k', n, run, c') = run_next_event-IsControlled t ts k m e b c in
      (k', subst (IsControlled p k') (some_inj (sym run ∙ h)) c')
  Step-IsControlled {m} {m'} k (invokes xs ys e f o s is) b c =
      let (at, es, none_left) =
        invoked_only m.events xs ys e k (ap (◌++◌ m.events) (sym o) ∙ c.under_way) in
      (
        some e,
        subst (IsControlled p (some e)) (sym is) (record {
          ready =
              p.served m.state e m.fields f (subst (λ x. p.Ready m.state x m.fields) at c.ready) s;
          under_way = rw (es, none_left);
          none_dropped = c.none_dropped;
        }),
      )
  Step-IsControlled {m} {m'} k (calls f cs es os call is) b c =
      let at : k ≡ none = quiet k (sym c.under_way ∙ rw (es, os)) in
      let (k', adds, r) =
        p.called m.state m.fields f cs (subst (λ x. p.Ready m.state x m.fields) at c.ready) call in
      let (way, dropped, fields, state) =
        obey_all-Adds cs (record m { fields = f }) k' es os adds in
      (
        k',
        subst (IsControlled p k') (sym is) (record {
          ready =
              subst (λ x. p.Ready x k' (obey_all cs (record m { fields = f })).fields) (sym state)
                (subst (λ x. p.Ready m.state k' x) (sym fields) r);
          under_way = way;
          none_dropped = dropped ∙ c.none_dropped;
        }),
      )
    where
      quiet : (x : Option Event) → opt_list x ≡ [] → x ≡ none
      quiet none e = refl
      quiet (some y) e = cc

  -- The owner's and the services' parts keep the bookkeeping in order too.
  Step-IsBalanced : {m m' : Machine State Event Fields} → Step m m' → IsBalanced m → IsBalanced m'
  Step-IsBalanced {m} {m'} (runs t ts e h) b = (run_task-Outcome d t ts m m' e b h).balanced
  Step-IsBalanced {m} (invokes xs ys e f o s is) b = subst IsBalanced (sym is) (
      invoke-IsBalanced d xs ys e (record m { fields = f }) o
        (record { paired = b.paired; counted = b.counted }))
  Step-IsBalanced {m} (calls f cs es os call is) b =
      subst IsBalanced (sym is)
        (obey_all-IsBalanced cs (record m { fields = f })
          (record { paired = b.paired; counted = b.counted })).0

  pub Reach-IsControlled :
      {s : State} {f : Fields} {m : Machine State Event Fields}
      → p.Ready s none f
      → Reach s f m
      → IsBalanced m × ((k : Option Event) × IsControlled p k m)
  Reach-IsControlled {s} {f} r start =
      (new-IsBalanced s f, (none, record { ready = r; under_way = refl; none_dropped = refl }))
  Reach-IsControlled r (next before st) =
      let (b, (k, c)) = Reach-IsControlled r before in
      (Step-IsBalanced st b, Step-IsControlled k st b c)

  -- In every machine that runs, services and legal calls reach from a new one, no event was dropped
  -- for want of a transition, and the oldest task, if there is one, runs without a failed assertion.
  pub Reach-runs :
      {s : State} {f : Fields} {m : Machine State Event Fields} (t : Bool) (ts : List Bool)
      → p.Ready s none f
      → Reach s f m
      → m.tasks ≡ t ∷ ts
      → (m.dropped ≡ [])
        × ((m' : Machine State Event Fields) × (run_next_event d t (record m { tasks = ts })
              ≡ some m')
            × (m'.dropped ≡ []))
  Reach-runs {m = m} t ts r reach tasks =
      let (b, (k, c)) = Reach-IsControlled r reach in
      let (k', m', run, c') = run_next_event-IsControlled t ts k m tasks b c in
      (c.none_dropped, (m', run, c'.none_dropped))
