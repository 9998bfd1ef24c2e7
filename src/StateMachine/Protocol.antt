-- ===== src/StateMachine/Protocol.antt =====
-- state_machines/state-machine.h: the protocol of a machine in which one event at a time is under
-- way, and what the commands of one handler add to the queue.
use polar_express.Base.{
  ℕ, suc, ◌≡◌, refl, ap, ◌∙◌, List, [], ◌∷◌, ◌++◌, Option, none, some, arith, length, length-append,
}
use polar_express.StateMachine.{
  Command, post, external, set_idle, notify, Definition, Machine, post_event_callback, obey,
  obey_all,
}

-- The events that some commands cause, at once or by an external callback.
abbrev pub caused : {E : Type 0} → List (Command E) → List E
caused [] = []
caused (post e ∷ cs) = e ∷ caused cs
caused (external e ∷ cs) = e ∷ caused cs
caused (set_idle b ∷ cs) = caused cs
caused (notify n ∷ cs) = caused cs

abbrev pub opt_list : {E : Type 0} → Option E → List E
opt_list none = []
opt_list (some e) = e ∷ []

module _ {State Event Action Fields : Type 0} where
  -- `Ready s k f`: the state and the fields, while the event `k` is under way, or none. `Served e`
  -- is what a service may do to the fields before it invokes the callback for `e`, and `Call` are
  -- the public methods that the owner may call while no event is under way.
  pub record Protocol (d : Definition State Event Action Fields) : Type 1 where
    pub Ready : State → Option Event → Fields → Type 0
    pub Served : Event → Fields → Fields → Type 0
    pub Call : State → Fields → Fields → List (Command Event) → Type 0
    pub handled :
        (s : State) (e : Event) (f : Fields)
        → Ready s (some e) f
        → (a : Action) × (s' : State) × (f' : Fields) × (cs : List (Command Event)) × (k : Option
            Event)
          × (d.row s e ≡ some (a, s'))
          × (d.handle a f ≡ some (f', cs))
          × (caused cs ≡ opt_list k)
          × Ready s' k f'
    pub served :
        (s : State) (e : Event) (f f' : Fields)
        → Ready s (some e) f
        → Served e f f'
        → Ready s (some e) f'
    pub called :
        (s : State) (f f' : Fields) (cs : List (Command Event))
        → Ready s none f
        → Call s f f' cs
        → (k : Option Event) × (caused cs ≡ opt_list k) × Ready s k f'

  -- The event under way is queued or waits for its callback; none was dropped.
  pub record IsControlled {d : Definition State Event Action Fields} (p : Protocol d)
      (k : Option Event) (m : Machine State Event Fields) : Type 0 where
    pub ready : p.Ready m.state k m.fields
    pub under_way : m.events ++ m.outstanding ≡ opt_list k
    pub none_dropped : m.dropped ≡ []

pub front_only :
    {Event : Type 0} (es os : List Event) (k : Option Event) (n : ℕ)
    → length es ≡ suc n
    → es ++ os ≡ opt_list k
    → (e : Event) × (k ≡ some e) × (es ≡ e ∷ []) × (os ≡ [])
front_only [] os k n h c = absurd (omega arith)
front_only (x ∷ xs) os none n h c = cc
front_only (x ∷ []) [] (some y) n h c = (x, cc, refl, refl)
front_only (x ∷ []) (o ∷ os) (some y) n h c = cc
front_only (x ∷ z ∷ xs) os (some y) n h c = cc

pub invoked_only :
    {Event : Type 0} (es xs ys : List Event) (e : Event) (k : Option Event)
    → es ++ (xs ++ e ∷ ys) ≡ opt_list k
    → (k ≡ some e) × (es ≡ []) × (xs ++ ys ≡ [])
invoked_only es xs ys e none c =
    absurd (omega (arith, ap length c, length-append es (xs ++ e ∷ ys), length-append xs (e ∷ ys)))
invoked_only (x ∷ es) xs ys e (some y) c =
    absurd (omega (arith, ap length c, length-append es (xs ++ e ∷ ys), length-append xs (e ∷ ys)))
invoked_only [] [] ys e (some y) c = (cc, refl, cc)
invoked_only [] (x ∷ []) ys e (some y) c = cc
invoked_only [] (x ∷ z ∷ xs) ys e (some y) c = cc

module _ {State Event Fields : Type 0} where
  -- The same control state.
  abbrev pub Same : Machine State Event Fields → Machine State Event Fields → Type 0
  Same m n =
      (n.events ≡ m.events)
      × (n.outstanding ≡ m.outstanding)
      × (n.dropped ≡ m.dropped)
      × (n.fields ≡ m.fields)
      × (n.state ≡ m.state)

  pub obey_all-quiet :
      (cs : List (Command Event)) (m : Machine State Event Fields)
      → caused cs ≡ []
      → Same m (obey_all cs m)
  unfolding obey_all
  obey_all-quiet [] m c = (refl, refl, refl, refl, refl)
  obey_all-quiet (post e ∷ cs) m c = cc
  obey_all-quiet (external e ∷ cs) m c = cc
  obey_all-quiet (set_idle b ∷ cs) m c = obey_all-quiet cs (record m { idle = b }) c
  obey_all-quiet (notify n ∷ cs) m c = obey_all-quiet cs (record m { calls = m.calls ++ n ∷ [] }) c

  abbrev pub Adds : Option Event → Machine State Event Fields → Machine State Event Fields → Type 0
  Adds k m n =
      (n.events ++ n.outstanding ≡ opt_list k)
      × (n.dropped ≡ m.dropped)
      × (n.fields ≡ m.fields)
      × (n.state ≡ m.state)

  one-Adds :
      (x y : Event) (ys : List Event) (m n o : Machine State Event Fields)
      → x ∷ ys ≡ y ∷ []
      → n.events ++ n.outstanding ≡ x ∷ []
      → Same n o
      → (n.dropped ≡ m.dropped) × (n.fields ≡ m.fields) × (n.state ≡ m.state)
      → Adds (some y) m o
  one-Adds x y ys m n o e a (p, q, r, s, v) (t, u, w) = (rw (p, q) (a ∙ cc), r ∙ t, s ∙ u, v ∙ w)

  -- Commands add what they cause, in one place or the other.
  pub obey_all-Adds :
      (cs : List (Command Event)) (m : Machine State Event Fields) (k : Option Event)
      → m.events ≡ []
      → m.outstanding ≡ []
      → caused cs ≡ opt_list k
      → Adds k m (obey_all cs m)
  unfolding obey_all post_event_callback
  obey_all-Adds cs m none e o c =
      let (p, q, r, s, v) = obey_all-quiet cs m c in (rw (p, q, e, o), r, s, v)
  obey_all-Adds [] m (some x) e o c = cc
  obey_all-Adds (post y ∷ cs) m (some x) e o c =
      one-Adds y x (caused cs) m (obey (post y) m) (obey_all cs (obey (post y) m)) c (rw (e, o))
        (obey_all-quiet cs (obey (post y) m) (cc)) (refl, refl, refl)
  obey_all-Adds (external y ∷ cs) m (some x) e o c =
      one-Adds y x (caused cs) m (obey (external y) m) (obey_all cs (obey (external y) m)) c
        (rw (e, o)) (obey_all-quiet cs (obey (external y) m) (cc)) (refl, refl, refl)
  obey_all-Adds (set_idle b ∷ cs) m (some x) e o c =
      obey_all-Adds cs (record m { idle = b }) (some x) e o c
  obey_all-Adds (notify n ∷ cs) m (some x) e o c =
      obey_all-Adds cs (record m { calls = m.calls ++ n ∷ [] }) (some x) e o c
