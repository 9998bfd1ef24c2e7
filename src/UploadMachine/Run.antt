-- ===== src/UploadMachine/Run.antt =====
-- state_machines/upload-state-machine.h and .cc on the engine: what holds in every run.
use polar_express.Base.{◌≡◌, refl, Bool, false, none, some, List, [], ◌∷◌}
use polar_express.StateMachine.{Machine, run_next_event}
use polar_express.StateMachine.Guide.{Guide, Reach, Reach-Guided, Reach-runs}
use polar_express.GlacierConnection.{Settings}
use polar_express.GlacierConnection.Json.{Json}
use polar_express.UploadMachine.{
  State, wait_for_connection, wait_for_new_bundle, Event, row, Fields, new_fields,
}
use polar_express.UploadMachine.Handlers.{definition, handle}
use polar_express.UploadMachine.Phase.{rests}
use polar_express.UploadMachine.Outside.{Served}
use polar_express.UploadMachine.Held.{Holds, Call}
use polar_express.UploadMachine.Turns.{ran, served}
use polar_express.UploadMachine.Owner.{called}

module _ (s : Settings) (j : Json) where
  unfoldable pub guide : Guide (definition s j)
  unfolding definition row handle
  guide = record {
    Holds = Holds s j;
    Served = λ st e f f'. Served e f f';
    Call = Call s j;
    ran = ran s j;
    served = served s j;
    called = called s j;
  }

  new-Holds : (b : Bool) → Holds s j wait_for_connection [] [] (new_fields j b)
  unfolding new_fields
  new-Holds b = record {
    phase = rests;
    in_queue = refl;
    outside = refl;
    is_ready = (tt, refl, refl, λ e. cc);
    awake = λ u. cc;
  }

  -- In every upload machine that is reached from a new one, by steps of the strand, answers of the
  -- services, calls of the owner and losses of the connection that `Served` and `Call` allow, the
  -- oldest task, if there is one, runs without a failed assertion. What `Served` asks for is that a
  -- vault's creation succeeds, that a created vault is then described under its name, and that the
  -- connection that reports an archive's id is open.
  pub upload_machine_runs :
      {m : Machine State Event (Fields j)} (has_callback : Bool) (t : Bool) (ts : List Bool)
      → Reach guide wait_for_connection (new_fields j has_callback) m
      → m.tasks ≡ t ∷ ts
      → (m' : Machine State Event (Fields j)) × (run_next_event
            (definition s j)
            t
            (record m { tasks = ts })
          ≡ some m')
  unfolding guide
  upload_machine_runs b t ts r e =
      let (m', run, h) =
        Reach-runs guide {s = wait_for_connection} {f = new_fields j b} t ts (new-Holds b) r e in
      (m', run)

  -- No bundle and no request to exit is forgotten: in every upload machine that is so reached, if it
  -- waits for a new bundle with an empty queue, then no bundle is there and no exit was asked for.
  pub no_bundle_forgotten :
      {m : Machine State Event (Fields j)} (has_callback : Bool)
      → Reach guide wait_for_connection (new_fields j has_callback) m
      → m.state ≡ wait_for_new_bundle
      → m.events ≡ []
      → (m.fields.next_bundle ≡ none) × (m.fields.exit_requested ≡ false)
  unfolding guide
  no_bundle_forgotten b r e q =
      let (balanced, h) =
        Reach-Guided guide {s = wait_for_connection} {f = new_fields j b} (new-Holds b) r in
      h.awake (rw (e, q) refl)
