-- ===== src/StateMachine/Balance.antt =====
-- state_machines/state-machine.h: the bookkeeping of events, tasks and external callbacks.
use polar_express.Base.{
  ℕ, suc, ◌+◌, ◌≡◌, refl, ◌∙◌, Bool, true, false, List, [], ◌∷◌, ◌++◌, arith, length, length-append,
}
use polar_express.StateMachine.{
  Command, post, external, set_idle, notify, Machine, new, post_event_callback, obey, obey_all,
}

-- How many of the tasks on the strand come from external callbacks.
abbrev pub externals : List Bool → ℕ
externals [] = 0
externals (true ∷ ts) = suc (externals ts)
externals (false ∷ ts) = externals ts

pub externals-append : (xs ys : List Bool) → externals (xs ++ ys) ≡ externals xs + externals ys
externals-append [] ys = omega arith
externals-append (true ∷ xs) ys = omega (arith, externals-append xs ys)
externals-append (false ∷ xs) ys = omega (arith, externals-append xs ys)

module _ {State Event Fields : Type 0} where
  -- Each queued event has a task that will run it, and the count of external callbacks is that of
  -- the callbacks that have not been invoked or whose task has not run.
  pub record IsBalanced (m : Machine State Event Fields) : Type 0 where
    pub paired : length m.events ≡ length m.tasks
    pub counted : m.active_callbacks ≡ length m.outstanding + externals m.tasks

  pub new-IsBalanced : (s : State) (f : Fields) → IsBalanced (new s f)
  new-IsBalanced s f = record { paired = refl; counted = refl }

  pub post_event_callback-IsBalanced :
      (e : Event) (m : Machine State Event Fields)
      → IsBalanced m
      → IsBalanced (post_event_callback e false m)
  unfolding post_event_callback
  post_event_callback-IsBalanced e m b = record {
    paired =
        omega
          (arith, b.paired, length-append m.events (e ∷ []), length-append m.tasks (false ∷ []));
    counted = omega (arith, b.counted, externals-append m.tasks (false ∷ []));
  }

  obey-IsBalanced :
      (c : Command Event) (m : Machine State Event Fields)
      → IsBalanced m
      → IsBalanced (obey c m) × ((obey c m).done ≡ m.done)
  unfolding obey post_event_callback
  obey-IsBalanced (post e) m b = (post_event_callback-IsBalanced e m b, refl)
  obey-IsBalanced (external e) m b = (
    record {
      paired = b.paired;
      counted = omega (arith, b.counted, length-append m.outstanding (e ∷ []));
    },
    refl,
  )
  obey-IsBalanced (set_idle i) m b = (record { paired = b.paired; counted = b.counted }, refl)
  obey-IsBalanced (notify n) m b = (record { paired = b.paired; counted = b.counted }, refl)

  pub obey_all-IsBalanced :
      (cs : List (Command Event)) (m : Machine State Event Fields)
      → IsBalanced m
      → IsBalanced (obey_all cs m) × ((obey_all cs m).done ≡ m.done)
  unfolding obey_all
  obey_all-IsBalanced [] m b = (b, refl)
  obey_all-IsBalanced (c ∷ cs) m b =
      let (b', d) = obey-IsBalanced c m b in
      let (b'', d') = obey_all-IsBalanced cs (obey c m) b' in (b'', d' ∙ d)
