-- ===== src/UploadMachine/Tests.antt =====
-- state_machines/upload-state-machine.cc: a run up to the wait for a bundle, and witnesses.
use polar_express.Base.{
  ◌≡◌, refl, Bool, true, false, Option, none, some, List, [], ◌∷◌, ◌++◌, Bytes, codes,
}
use polar_express.Http.{cleared, HttpResponse}
use polar_express.StateMachine.{
  external, Machine, new, run_next_event, run_task, obey_all, post_event_callback,
}
use polar_express.StateMachine.Guide.{Reach, start, next, runs, invokes, calls}
use polar_express.GlacierConnection.{Settings, new_connection, clean_up_request_state}
use polar_express.GlacierConnection.Json.{new_description}
use polar_express.GlacierConnection.Handlers.{handle_describe_vault}
use polar_express.GlacierConnection.Tests.{settings, json}
use polar_express.UploadMachine.{
  State, wait_for_connection, Event, connection_ready, vault_description_ready, Fields, new_fields,
}
use polar_express.UploadMachine.Handlers.{definition, internal_start}
use polar_express.UploadMachine.Outside.{answered}
use polar_express.UploadMachine.Held.{starts}
use polar_express.UploadMachine.Run.{guide, upload_machine_runs, no_bundle_forgotten}
use polar_express.UploadMachine.Stuck.{drive, creating, failed_creation-stuck}

abbrev sample : Settings
sample = settings false

abbrev Upload : Type 0
Upload = Machine State Event (Fields json)

abbrev fresh_fields : Fields json
fresh_fields = record {
  has_callback = true;
  exit_requested = false;
  connection = new_connection;
  vault_name = [];
  attempted_vault_creation = false;
  vault_was_created = false;
  vault_description = new_description json;
  next_bundle = none;
  current_bundle = none;
  recorded = [];
  removed = [];
}

abbrev started_fields : Fields json
started_fields = record fresh_fields {
  vault_name = codes "v";
  connection = record new_connection { has_strand = true };
}

abbrev open_fields : Fields json
open_fields = record started_fields {
  connection = record new_connection { has_strand = true; is_open = true };
}

abbrev started_machine : Upload
unfolding obey_all
started_machine =
    obey_all (external connection_ready ∷ [])
      (record (new wait_for_connection fresh_fields) { fields = started_fields })

abbrev opened_machine : Upload
unfolding post_event_callback started_machine
opened_machine =
    post_event_callback connection_ready true
      (record started_machine { outstanding = []; fields = open_fields })

opened-Reach : Reach (guide sample json) wait_for_connection (new_fields json true) opened_machine
unfolding guide new_fields opened_machine internal_start
opened-Reach =
    next
      (next start
        (calls started_fields (external connection_ready ∷ []) (starts (codes "v") refl refl) refl))
      (invokes [] [] connection_ready open_fields refl (true, refl) refl)

upload_machine_runs_example :
    (m' : Upload) × (run_next_event
        (definition sample json)
        true
        (record opened_machine { tasks = [] })
      ≡ some m')
unfolding opened_machine
upload_machine_runs_example = upload_machine_runs sample json true true [] opened-Reach refl

-- The machine after its oldest task.
abbrev ran : Upload → Upload
unfolding run_next_event definition
ran m = elim (run_task (definition sample json) m.tasks m) [ some m' ↦ m' | none ↦ m ]

abbrev asking_machine : Upload
unfolding ran opened_machine
asking_machine = ran opened_machine

abbrev response : HttpResponse × Bytes
response = (cleared, codes "v")

abbrev described_fields : Fields json
unfolding asking_machine
described_fields = record asking_machine.fields {
  connection =
      clean_up_request_state
        (record (answered true true response asking_machine.fields.connection) {
          last_operation_succeeded = true;
        });
  vault_description = record (new_description json) { vault_name = codes "v" };
}

abbrev described_machine : Upload
unfolding post_event_callback asking_machine described_fields
described_machine =
    post_event_callback vault_description_ready true
      (record asking_machine { outstanding = []; fields = described_fields })

abbrev waiting_machine : Upload
unfolding ran described_machine
waiting_machine = ran (ran (ran described_machine))

waiting-Reach : Reach (guide sample json) wait_for_connection (new_fields json true) waiting_machine
unfolding guide new_fields waiting_machine opened_machine handle_describe_vault
    polar_express.Base.order
waiting-Reach =
    next
      (next
        (next
          (next (next opened-Reach (runs true [] refl refl)) (
            invokes [] [] vault_description_ready described_fields refl
              (
                true,
                true,
                response,
                (described_fields.connection, described_fields.vault_description),
                refl,
                (λ _ _ _. refl),
                refl,
              )
              refl))
          (runs true [] refl refl))
        (runs false [] refl refl))
      (runs false [] refl refl)

no_bundle_forgotten_example :
    (waiting_machine.fields.next_bundle ≡ none) × (waiting_machine.fields.exit_requested ≡ false)
unfolding waiting_machine polar_express.Base.order
no_bundle_forgotten_example = no_bundle_forgotten sample json true waiting-Reach refl refl

failed_creation-stuck_example :
    (m : Upload) × (drive sample json 4 (creating json false started_fields) ≡ some m)
    × (m.state ≡ wait_for_connection)
    × (m.events ≡ connection_ready ∷ [])
    × (drive sample json 5 (creating json false started_fields) ≡ none)
failed_creation-stuck_example = failed_creation-stuck sample json false started_fields
