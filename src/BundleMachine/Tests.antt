-- ===== src/BundleMachine/Tests.antt =====
-- Runs of the bundle state machine, over a bundle that is a count of payloads, a size and a flag.
use polar_express.Base.{ℕ, List, ◌+◌, ◌≡◌, refl, Bool, true, false, some, [], ◌∷◌, length}
use mathlib.Core.Option
use polar_express.StateMachine.{Machine, new, run_next_event, obey_all, post}
use polar_express.StateMachine.Queue
use polar_express.StateMachine.Queue.{run_next_event_lem}
use polar_express.StateMachine.Balance.{IsBalanced}
use polar_express.StateMachine.Control
use polar_express.BundleMachine.Table
use polar_express.BundleMachine.Table.{State, Event}
use polar_express.BundleMachine.Fields.{Snapshot, Services, Fields, initial, total_length}
use polar_express.BundleMachine.Handlers.{definition, handle, bundle_snapshot}
use polar_express.BundleMachine.Outside.{Call}
use polar_express.BundleMachine.Run.{protocol, bundle_machine_runs, chunk_bytes_pending_exact}

record ToyBundle : Type 0 where
  payloads : ℕ
  bytes : ℕ
  final : Bool

abbrev toy_services : Services
toy_services = record {
  Bundle = ToyBundle;
  new_bundle = record { payloads = 0; bytes = 0; final = false };
  payloads_size = λ b. b.payloads;
  size = λ b. b.bytes;
  is_finalized = λ b. b.final;
  start_new_payload = λ b. record b { payloads = b.payloads + 1; bytes = b.bytes + 512 };
  add_block_metadata = λ c b. b;
  append_block_contents = λ xs b. record b { bytes = b.bytes + length xs };
  finalize = λ b. record b { final = true };
  finalize_compression = λ xs. xs;
  max_bundle_size = 600;
  new_open = refl;
  start_open = λ b. refl;
  add_open = λ c b. refl;
  append_open = λ xs b. refl;
  finalize_final = λ b. refl;
}

abbrev one_file : Snapshot
one_file = record {
  path = b'f' ∷ [];
  chunks =
      record { block_id = 4; block_length = 70 } ∷ record { block_id = 9; block_length = 30 } ∷ [];
}

abbrev begun : Fields toy_services
begun = initial toy_services (b'/' ∷ [])

abbrev given : Machine State Event (Fields toy_services)
given =
    obey_all (post Event.new_snapshot_ready ∷ []) (record (new State.wait_for_new_snapshot begun) {
      fields = record begun { pending_snapshot = some one_file };
    })

given_reached : Control.Reach (protocol toy_services) State.wait_for_new_snapshot begun given
unfolding bundle_snapshot
given_reached = Control.Reach.next Control.Reach.start (
    Control.Step.calls (record begun { pending_snapshot = some one_file })
      (post Event.new_snapshot_ready ∷ []) refl refl (Call.snapshots one_file begun _ _ refl) refl)

abbrev summary : Machine State Event (Fields toy_services) → State × List Event × ℕ
summary m = (m.state, m.events, m.fields.chunk_bytes_pending)

-- The first task queues both chunks and takes the first.
given_runs :
    Option.map summary
      (run_next_event (definition toy_services) false (record given { tasks = [] }))
    ≡ some (State.have_chunks, Event.new_chunk_ready ∷ [], 30)
unfolding run_next_event handle Table.row obey_all
given_runs = refl

bundle_machine_runs_example :
    (given.dropped ≡ [])
    × ((m : Machine State Event (Fields toy_services)) × (run_next_event
            (definition toy_services)
            false
            (record given { tasks = [] })
          ≡ some m)
        × (m.dropped ≡ []))
unfolding obey_all
bundle_machine_runs_example =
    bundle_machine_runs toy_services (b'/' ∷ []) false [] given_reached refl

chunk_bytes_pending_exact_example :
    given.fields.chunk_bytes_pending ≡ total_length given.fields.pending_chunks
chunk_bytes_pending_exact_example = chunk_bytes_pending_exact toy_services (b'/' ∷ []) given_reached

-- What that task leaves.
given_next :
    (m : Machine State Event (Fields toy_services)) × (run_next_event
        (definition toy_services)
        false
        (record given { tasks = [] })
      ≡ some m)
given_next =
    let (_, (m, run, _)) =
      bundle_machine_runs toy_services (b'/' ∷ []) false [] given_reached
        (unfold obey_all in refl) in
    (m, run)

-- The machine of the bookkeeping's theorem, after one event was posted by its owner.
given_queue : Queue.Reach (definition toy_services) State.wait_for_new_snapshot begun given
given_queue = Queue.Reach.next Queue.Reach.start (
    Queue.Step.owner (record begun { pending_snapshot = some one_file })
      (post Event.new_snapshot_ready ∷ []) refl)

run_next_event_lem_example : IsBalanced given × Queue.Outcome given given_next.0
unfolding obey_all
run_next_event_lem_example =
    run_next_event_lem (definition toy_services) false [] given_queue refl given_next.1
