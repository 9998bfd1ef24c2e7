-- ===== src/BundleMachine/Duties.antt =====
-- state_machines/bundle-state-machine.h and .cc: the obligations of the machine's protocol, for each
-- row of the transition table, each service and each public method.
use polar_express.Base.{◌≡◌, refl, false, Option, none, some, List, [], ◌∷◌, ◌++◌, if◌then◌else◌}
use polar_express.StateMachine.{Command, external, set_idle}
use polar_express.StateMachine.Protocol.{caused, opt_list}
use polar_express.BundleMachine.Table.{State, Event, Action, row}
use polar_express.BundleMachine.Fields.{Services, Fields}
use polar_express.BundleMachine.Handlers.{
  Reply, handle, notify_if, idle_unless_asked, bundle_ready_call,
}
use polar_express.BundleMachine.Ready.{Common, Ready, Leads, next_chunk-Leads}
use polar_express.BundleMachine.Steps.{
  start_new_snapshot-Leads, reset_for_next_snapshot-Leads, get_existing_bundle_info-Leads,
  inspect_existing_bundle_info-Leads, read_chunk_contents-Leads, hash_chunk_contents-Leads,
  inspect_chunk_contents-Leads, idle_causes_nothing,
}
use polar_express.BundleMachine.Bundling.{
  finish_chunk-Leads, finalize_bundle-Leads, with_generated-Leads, reset_for_next_bundle-Leads,
}

module _ (s : Services) where
  abbrev pub Handled : State → Event → Fields s → Type 0
  Handled st e f =
      (a : Action) × (t : State) × (f' : Fields s) × (cs : List (Command Event)) × (k : Option
        Event)
      × (row st e ≡ some (a, t))
      × (handle s a f ≡ some (f', cs))
      × (caused cs ≡ opt_list k)
      × Ready s t k f'

  by_row :
      (st t : State) (e : Event) (a : Action) (f : Fields s)
      → row st e ≡ some (a, t)
      → Leads s t (handle s a f)
      → Handled st e f
  by_row st t e a f r (f', cs, k, h, c, ready) = (a, t, f', cs, k, r, h, c, ready)

  with_cryptor :
      (t : State) (e : Event) (f : Fields s) (r : Reply s)
      → Common s f
      → Leads s t r
      → Leads s t (if f.cryptor then r else none)
  with_cryptor t e f r c l = rw c.has_cryptor l

  pub handled : (st : State) (e : Event) (f : Fields s) → Ready s st (some e) f → Handled st e f
  unfolding row handle
  handled State.wait_for_new_snapshot Event.new_snapshot_ready f r =
      by_row State.wait_for_new_snapshot State.have_chunks Event.new_snapshot_ready
        Action.start_new_snapshot f refl (start_new_snapshot-Leads s f r)
  handled State.wait_for_new_snapshot Event.flush_forced f r =
      by_row State.wait_for_new_snapshot State.have_chunks Event.flush_forced
        Action.start_new_snapshot f refl (start_new_snapshot-Leads s f r)
  handled State.have_chunks Event.flush_forced f r =
      by_row State.have_chunks State.have_bundle Event.flush_forced Action.finalize_bundle f refl
        (finalize_bundle-Leads s f r)
  handled State.have_chunks Event.no_chunks_remaining f r =
      by_row State.have_chunks State.wait_for_new_snapshot Event.no_chunks_remaining
        Action.reset_for_next_snapshot f refl (reset_for_next_snapshot-Leads s f r)
  handled State.have_chunks Event.new_chunk_ready f r =
      by_row State.have_chunks State.wait_for_existing_bundle_info Event.new_chunk_ready
        Action.get_existing_bundle_info f refl (get_existing_bundle_info-Leads s f r)
  handled State.wait_for_existing_bundle_info Event.existing_bundle_info_ready f r =
      by_row State.wait_for_existing_bundle_info State.have_existing_bundle_info
        Event.existing_bundle_info_ready Action.inspect_existing_bundle_info f refl
        (inspect_existing_bundle_info-Leads s f r)
  handled State.have_existing_bundle_info Event.chunk_already_in_bundle f (c, b) =
      by_row State.have_existing_bundle_info State.have_chunks Event.chunk_already_in_bundle
        Action.discard_chunk f refl (next_chunk-Leads s f c b)
  handled State.have_existing_bundle_info Event.chunk_not_yet_in_bundle f r =
      by_row State.have_existing_bundle_info State.wait_for_chunk_contents
        Event.chunk_not_yet_in_bundle Action.read_chunk_contents f refl
        (read_chunk_contents-Leads s f r)
  handled State.wait_for_chunk_contents Event.chunk_contents_ready f r =
      by_row State.wait_for_chunk_contents State.have_chunk_contents Event.chunk_contents_ready
        Action.hash_chunk_contents f refl (hash_chunk_contents-Leads s f r)
  handled State.have_chunk_contents Event.chunk_contents_hash_ready f r =
      by_row State.have_chunk_contents State.have_chunk_contents_and_hash_validity
        Event.chunk_contents_hash_ready Action.inspect_chunk_contents f refl
        (inspect_chunk_contents-Leads s f f.hash_is_valid r)
  handled State.have_chunk_contents_and_hash_validity Event.chunk_contents_hash_mismatch f (c, b) =
      by_row State.have_chunk_contents_and_hash_validity State.have_chunks
        Event.chunk_contents_hash_mismatch Action.discard_chunk f refl (next_chunk-Leads s f c b)
  handled State.have_chunk_contents_and_hash_validity Event.chunk_contents_hash_match f r =
      by_row State.have_chunk_contents_and_hash_validity State.wait_for_compression
        Event.chunk_contents_hash_match Action.compress_chunk_contents f refl
        (f, external Event.compression_done ∷ [], some Event.compression_done, refl, refl, r)
  handled State.wait_for_compression Event.compression_done f r =
      by_row State.wait_for_compression State.chunk_finished Event.compression_done
        Action.finish_chunk f refl (finish_chunk-Leads s f r)
  handled State.chunk_finished Event.max_bundle_size_not_reached f (c, b) =
      by_row State.chunk_finished State.have_chunks Event.max_bundle_size_not_reached
        Action.discard_chunk f refl (next_chunk-Leads s f c b)
  handled State.chunk_finished Event.max_bundle_size_reached f r =
      by_row State.chunk_finished State.have_bundle Event.max_bundle_size_reached
        Action.finalize_bundle f refl (finalize_bundle-Leads s f r)
  handled State.have_bundle Event.bundle_empty f r =
      by_row State.have_bundle State.done Event.bundle_empty Action.clean_up f refl
        (f, set_idle false ∷ [], none, refl, refl, r)
  handled State.have_bundle Event.bundle_ready f r =
      by_row State.have_bundle State.wait_for_encryption Event.bundle_ready Action.encrypt_bundle f
        refl
        (with_cryptor State.wait_for_encryption Event.encryption_done f _ r.0
          (with_generated-Leads s State.wait_for_encryption Event.encryption_done f r.1 r))
  handled State.wait_for_encryption Event.encryption_done f r =
      by_row State.wait_for_encryption State.wait_for_bundle_hash Event.encryption_done
        Action.hash_bundle f refl
        (with_cryptor State.wait_for_bundle_hash Event.bundle_hashed f _ r.0
          (with_generated-Leads s State.wait_for_bundle_hash Event.bundle_hashed f r.1 r))
  handled State.wait_for_bundle_hash Event.bundle_hashed f r =
      by_row State.wait_for_bundle_hash State.wait_for_bundle_to_record Event.bundle_hashed
        Action.record_bundle f refl
        (with_generated-Leads s State.wait_for_bundle_to_record Event.bundle_recorded f r.1 r)
  handled State.wait_for_bundle_to_record Event.bundle_recorded f r =
      by_row State.wait_for_bundle_to_record State.wait_for_bundle_to_write Event.bundle_recorded
        Action.write_bundle f refl
        (with_generated-Leads s State.wait_for_bundle_to_write Event.bundle_written f r.1 r)
  handled State.wait_for_bundle_to_write Event.bundle_written f r =
      by_row State.wait_for_bundle_to_write State.wait_for_bundle_retrieval Event.bundle_written
        Action.execute_bundle_ready_callback f refl
        (
          f,
          notify_if s f.bundle_ready_callback bundle_ready_call ++ idle_unless_asked s f,
          none,
          refl,
          idle_causes_nothing s f f.bundle_ready_callback bundle_ready_call,
          r,
        )
  handled State.wait_for_bundle_retrieval Event.continue_after_bundle_retrieved f r =
      by_row State.wait_for_bundle_retrieval State.have_chunks Event.continue_after_bundle_retrieved
        Action.reset_for_next_bundle f refl (reset_for_next_bundle-Leads s f r)
  handled State.wait_for_bundle_retrieval Event.flush_forced f r =
      by_row State.wait_for_bundle_retrieval State.have_chunks Event.flush_forced
        Action.reset_for_next_bundle f refl (reset_for_next_bundle-Leads s f r)
  handled _ _ f r = absurd r
