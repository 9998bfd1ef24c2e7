-- ===== src/BundleMachine/Run.antt =====
-- state_machines/bundle-state-machine.h and .cc: every run of the machine.
use polar_express.Base.{◌≡◌, refl, inl, Bool, Option, none, some, List, [], ◌∷◌, Bytes}
use polar_express.StateMachine.{Machine, run_next_event}
use polar_express.StateMachine.Protocol.{Protocol}
use polar_express.StateMachine.Control.{Reach, Reach-runs, Reach-IsControlled}
use polar_express.BundleMachine.Table.{State, Event}
use polar_express.BundleMachine.Fields.{Services, Fields, initial, total_length}
use polar_express.BundleMachine.Handlers.{definition}
use polar_express.BundleMachine.Ready.{Common, Ready}
use polar_express.BundleMachine.Duties.{handled}
use polar_express.BundleMachine.Outside.{Served, Call, served, called}

module _ (s : Services) where
  abbrev pub protocol : Protocol (definition s)
  protocol = record {
    Ready = Ready s;
    Served = Served s;
    Call = Call s;
    handled = handled s;
    served = served s;
    called = called s;
  }

  pub initial-Ready : (root : Bytes) → Ready s State.wait_for_new_snapshot none (initial s root)
  initial-Ready root = (
    record { exact = refl; has_cryptor = refl; has_reader = inl refl },
    record {
      bundle = s.new_bundle;
      is_active = refl;
      not_final = s.new_open;
      none_generated = refl;
    },
    refl,
    refl,
  )

  -- In every machine that is reached from a new one by its tasks, by its services and by calls that
  -- the methods' contracts allow: no event has been dropped for want of a row in the transition
  -- table, and the next task runs with no assertion failing, and again drops no event.
  pub bundle_machine_runs :
      (root : Bytes) {m : Machine State Event (Fields s)} (t : Bool) (ts : List Bool)
      → Reach protocol State.wait_for_new_snapshot (initial s root) m
      → m.tasks ≡ t ∷ ts
      → (m.dropped ≡ [])
        × ((m' : Machine State Event (Fields s)) × (run_next_event
                (definition s)
                t
                (record m { tasks = ts })
              ≡ some m')
            × (m'.dropped ≡ []))
  bundle_machine_runs root t ts reach e = Reach-runs protocol t ts (initial-Ready root) reach e

  Common-of : (st : State) (k : Option Event) (f : Fields s) → Ready s st k f → Common s f
  Common-of State.wait_for_new_snapshot none f r = r.0
  Common-of State.wait_for_new_snapshot (some Event.new_snapshot_ready) f r = r.0
  Common-of State.wait_for_new_snapshot (some Event.flush_forced) f r = r.0
  Common-of State.have_chunks (some Event.flush_forced) f r = r.0
  Common-of State.have_chunks (some Event.no_chunks_remaining) f r = r.0
  Common-of State.have_chunks (some Event.new_chunk_ready) f r = r.0
  Common-of State.wait_for_existing_bundle_info (some Event.existing_bundle_info_ready) f r = r.0
  Common-of State.have_existing_bundle_info (some Event.chunk_already_in_bundle) f r = r.0
  Common-of State.have_existing_bundle_info (some Event.chunk_not_yet_in_bundle) f r = r.0
  Common-of State.wait_for_chunk_contents (some Event.chunk_contents_ready) f r = r.0
  Common-of State.have_chunk_contents (some Event.chunk_contents_hash_ready) f r = r.0
  Common-of State.have_chunk_contents_and_hash_validity (some Event.chunk_contents_hash_mismatch) f
        r =
      r.0
  Common-of State.have_chunk_contents_and_hash_validity (some Event.chunk_contents_hash_match) f r =
      r.0
  Common-of State.wait_for_compression (some Event.compression_done) f r = r.0
  Common-of State.chunk_finished (some Event.max_bundle_size_not_reached) f r = r.0
  Common-of State.chunk_finished (some Event.max_bundle_size_reached) f r = r.0
  Common-of State.have_bundle (some Event.bundle_empty) f r = r
  Common-of State.have_bundle (some Event.bundle_ready) f r = r.0
  Common-of State.wait_for_encryption (some Event.encryption_done) f r = r.0
  Common-of State.wait_for_bundle_hash (some Event.bundle_hashed) f r = r.0
  Common-of State.wait_for_bundle_to_record (some Event.bundle_recorded) f r = r.0
  Common-of State.wait_for_bundle_to_write (some Event.bundle_written) f r = r.0
  Common-of State.wait_for_bundle_retrieval none f r = r.0
  Common-of State.wait_for_bundle_retrieval (some Event.continue_after_bundle_retrieved) f r = r.0
  Common-of State.wait_for_bundle_retrieval (some Event.flush_forced) f r = r.0
  Common-of State.done none f r = r
  Common-of _ _ f r = absurd r

  -- In every machine that is reached from a new one by its tasks, by its services and by calls that
  -- the methods' contracts allow, the number that chunk_bytes_pending reports is the total length of
  -- the chunks that wait.
  pub chunk_bytes_pending_exact :
      (root : Bytes) {m : Machine State Event (Fields s)}
      → Reach protocol State.wait_for_new_snapshot (initial s root) m
      → m.fields.chunk_bytes_pending ≡ total_length m.fields.pending_chunks
  chunk_bytes_pending_exact root {m} reach =
      let (b, (k, c)) = Reach-IsControlled protocol (initial-Ready root) reach in
      (Common-of m.state k m.fields c.ready).exact
