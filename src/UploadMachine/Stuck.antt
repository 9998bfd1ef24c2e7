-- ===== src/UploadMachine/Stuck.antt =====
-- state_machines/upload-state-machine.cc: a run in which a vault is not created.
use polar_express.Base.{
  ℕ, zero, suc, ◌≡◌, refl, Bool, true, false, Option, none, some, List, [], ◌∷◌, ◌>>=◌,
  if◌then◌else◌,
}
use polar_express.StateMachine.{Machine, new, run_next_event, post_event_callback}
use polar_express.GlacierConnection.{Settings}
use polar_express.GlacierConnection.Json.{Json}
use polar_express.UploadMachine.{
  State, wait_for_connection, wait_for_vault_creation, Event, connection_ready, vault_created,
  Fields,
}
use polar_express.UploadMachine.Handlers.{definition}

module _ (s : Settings) (j : Json) where
  abbrev Run : Type 0
  Run = Machine State Event (Fields j)

  -- What a service leaves in the fields: a connection that was opened again, and no created vault.
  abbrev serve : Event → Fields j → Fields j
  serve connection_ready f = record f { connection = record f.connection { is_open = true } }
  serve _ f = f

  -- The next thing that happens: a task runs, or else a service answers, or else nothing is left.
  unfoldable advance : List Bool → List Event → Run → Option Run
  unfolding run_next_event
  advance (t ∷ ts) os m = run_next_event (definition s j) t (record m { tasks = ts })
  advance [] (e ∷ es) m =
      some (post_event_callback e true (record m { outstanding = es; fields = serve e m.fields }))
  advance [] [] m = some m

  unfoldable pub drive : ℕ → Run → Option Run
  unfolding advance
  drive zero m = some m
  drive (suc n) m = advance m.tasks m.outstanding m >>= drive n

module _ (j : Json) where
  -- The machine while its vault is created: the connection is then open or lost, and no bundle is
  -- under way.
  abbrev pub creating : Bool → Fields j → Machine State Event (Fields j)
  creating is_open f = record (new wait_for_vault_creation f) {
    active_callbacks = 1;
    outstanding = vault_created ∷ [];
    fields = record f {
      connection = record f.connection { has_strand = true; is_open = is_open };
      attempted_vault_creation = true;
      vault_was_created = false;
      current_bundle = none;
    };
  }

module _ (s : Settings) (j : Json) where
  -- When the answer to a vault's creation comes, the vault was not created and no bundle is under way,
  -- the run ends in a failed assertion: at the next task if the connection is open, and otherwise
  -- once the machine has noticed the loss and a service has opened the connection again. All steps
  -- before that succeed, and lead to the event that asks for the vault's description again.
  pub failed_creation-stuck :
      (is_open : Bool) (f : Fields j)
      → (m : Machine State Event (Fields j)) × (drive s j
            (if is_open then 1 else 4)
            (creating j is_open f)
          ≡ some m)
        × (m.state ≡ (if is_open then wait_for_vault_creation else wait_for_connection))
        × (m.events ≡ (if is_open then vault_created else connection_ready) ∷ [])
        × (drive s j (if is_open then 2 else 5) (creating j is_open f) ≡ none)
  unfolding drive post_event_callback definition
  failed_creation-stuck true f = (_, refl, refl, refl, refl)
  failed_creation-stuck false f = (_, refl, refl, refl, refl)
