-- ===== src/StateMachine.antt =====
-- state_machines/state-machine.h: the event queue, the tasks on the strand and the count of
-- external callbacks, over the transition table and the action handlers of a derived class.
pub mod Balance
pub mod Queue
pub mod Protocol
pub mod Control
pub mod Guide
use polar_express.Base.{
  ℕ, zero, suc, ◌+◌, ◌-◌, Bool, true, false, not, ◌&&◌, List, [], ◌∷◌, ◌++◌, Option, none, some,
  ltb, ◌==◌, if◌then◌else◌, is_empty,
}

-- What a handler asks of the state machine, in order. `notify` is a call of the callback with
-- that number, which the owner has set.
pub data Command (Event : Type 0) : Type 0 where
  post : Event → Command Event
  external : Event → Command Event
  set_idle : Bool → Command Event
  notify : ℕ → Command Event

-- The derived class: `row` looks an event up in the transition table, and `handle` is the handler
-- of an action, over the object's fields. `none` is a failed assertion.
pub record Definition (State Event Action Fields : Type 0) : Type 0 where
  pub row : State → Event → Option (Action × State)
  pub handle : Action → Fields → Option (Fields × List (Command Event))

-- `tasks` are the RunNextEvent calls on the strand, each with its is_external; `outstanding` are
-- the external callbacks that are created and not yet invoked; `done` counts the calls of the
-- done callback; `calls` lists those of the owner's callbacks, and `dropped` the events that met no
-- transition.
pub record Machine (State Event Fields : Type 0) : Type 0 where
  pub state : State
  pub fields : Fields
  pub events : List Event
  pub tasks : List Bool
  pub active_callbacks : ℕ
  pub outstanding : List Event
  pub idle : Bool
  pub done : ℕ
  pub calls : List ℕ
  pub dropped : List Event

module _ {State Event Fields : Type 0} where
  abbrev pub new : State → Fields → Machine State Event Fields
  new s f = record {
    state = s;
    fields = f;
    events = [];
    tasks = [];
    active_callbacks = 0;
    outstanding = [];
    idle = false;
    done = 0;
    calls = [];
    dropped = [];
  }

  unfoldable pub post_event_callback :
      Event → Bool → Machine State Event Fields → Machine State Event Fields
  post_event_callback e is_external m = record m {
    events = m.events ++ e ∷ [];
    tasks = m.tasks ++ is_external ∷ [];
  }

  unfoldable pub post_event : Event → Machine State Event Fields → Machine State Event Fields
  unfolding post_event_callback
  post_event e m = post_event_callback e false m

  unfoldable pub create_external_event_callback :
      Event → Machine State Event Fields → Machine State Event Fields
  create_external_event_callback e m = record m {
    active_callbacks = m.active_callbacks + 1;
    outstanding = m.outstanding ++ e ∷ [];
  }

  unfoldable pub obey : Command Event → Machine State Event Fields → Machine State Event Fields
  unfolding post_event create_external_event_callback
  obey (post e) m = post_event e m
  obey (external e) m = create_external_event_callback e m
  obey (set_idle b) m = record m { idle = b }
  obey (notify n) m = record m { calls = m.calls ++ n ∷ [] }

  unfoldable pub obey_all :
      List (Command Event) → Machine State Event Fields → Machine State Event Fields
  unfolding obey
  obey_all [] m = m
  obey_all (c ∷ cs) m = obey_all cs (obey c m)

  -- A public method of the derived class: it sets fields and issues commands.
  abbrev pub perform :
      Option (Fields × List (Command Event))
      → Machine State Event Fields
      → Option (Machine State Event Fields)
  perform none m = none
  perform (some (f, cs)) m = some (obey_all cs (record m { fields = f }))

  abbrev pub clear_external : Bool → Machine State Event Fields → Machine State Event Fields
  clear_external false m = m
  clear_external true m = record m {
    idle = false;
    active_callbacks =
        if ltb 0 m.active_callbacks then m.active_callbacks - 1 else m.active_callbacks;
  }

  abbrev pub call_done : Machine State Event Fields → Machine State Event Fields
  call_done m =
      if (m.active_callbacks == 0) && (is_empty m.events && not m.idle)
      then record m { done = m.done + 1 }
      else m

  abbrev pub finish_run : Option (Machine State Event Fields) → Option (Machine State Event Fields)
  finish_run none = none
  finish_run (some m) = some (call_done m)

module _ {State Event Action Fields : Type 0} (d : Definition State Event Action Fields) where
  abbrev pub enter :
      State
      → Option (Fields × List (Command Event))
      → Machine State Event Fields
      → Option (Machine State Event Fields)
  enter s none m = none
  enter s (some (f, cs)) m = some (record (obey_all cs (record m { fields = f })) { state = s })

  abbrev pub fire_row :
      Event
      → Option (Action × State)
      → Machine State Event Fields
      → Option (Machine State Event Fields)
  fire_row e none m = some (record m { dropped = m.dropped ++ e ∷ [] })
  fire_row e (some (a, s)) m = enter s (d.handle a m.fields) m

  -- boost::msm's process_event: the action of the row, then its target state.
  unfoldable pub process_event :
      Event → Machine State Event Fields → Option (Machine State Event Fields)
  unfolding obey_all
  process_event e m = fire_row e (d.row m.state e) m

  abbrev pub run_front :
      List Event → Machine State Event Fields → Option (Machine State Event Fields)
  run_front [] m = some m
  run_front (e ∷ es) m = process_event e (record m { events = es })

  -- RunNextEvent, with the done callback set.
  unfoldable pub run_next_event :
      Bool → Machine State Event Fields → Option (Machine State Event Fields)
  unfolding process_event
  run_next_event is_external m =
      let m' = clear_external is_external m in finish_run (run_front m'.events m')

  -- The strand runs its oldest task.
  abbrev pub run_task : List Bool → Machine State Event Fields → Option (Machine State Event Fields)
  run_task [] m = some m
  run_task (t ∷ ts) m = run_next_event t (record m { tasks = ts })
