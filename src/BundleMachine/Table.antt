-- ===== src/BundleMachine/Table.antt =====
-- state_machines/bundle-state-machine.h: states, events, actions and the transition table.
use polar_express.Base.{Option, none, some}

pub data State : Type 0 where
  wait_for_new_snapshot have_chunks wait_for_existing_bundle_info : State
  have_existing_bundle_info wait_for_chunk_contents have_chunk_contents : State
  have_chunk_contents_and_hash_validity wait_for_compression chunk_finished : State
  have_bundle wait_for_encryption wait_for_bundle_hash wait_for_bundle_to_record : State
  wait_for_bundle_to_write wait_for_bundle_retrieval done : State

pub data Event : Type 0 where
  new_snapshot_ready no_chunks_remaining new_chunk_ready existing_bundle_info_ready : Event
  chunk_already_in_bundle chunk_not_yet_in_bundle chunk_contents_ready : Event
  chunk_contents_hash_ready chunk_contents_hash_mismatch chunk_contents_hash_match : Event
  compression_done max_bundle_size_not_reached max_bundle_size_reached bundle_empty : Event
  bundle_ready encryption_done bundle_hashed bundle_recorded bundle_written : Event
  continue_after_bundle_retrieved flush_forced : Event

pub data Action : Type 0 where
  start_new_snapshot reset_for_next_snapshot get_existing_bundle_info : Action
  inspect_existing_bundle_info discard_chunk read_chunk_contents hash_chunk_contents : Action
  inspect_chunk_contents compress_chunk_contents finish_chunk finalize_bundle : Action
  encrypt_bundle hash_bundle record_bundle write_bundle execute_bundle_ready_callback : Action
  reset_for_next_bundle clean_up : Action

-- The rows of the transition table, in its order.
unfoldable pub row : State → Event → Option (Action × State)
row wait_for_new_snapshot new_snapshot_ready = some (start_new_snapshot, have_chunks)
row wait_for_new_snapshot flush_forced = some (start_new_snapshot, have_chunks)
row have_chunks flush_forced = some (finalize_bundle, have_bundle)
row have_chunks no_chunks_remaining = some (reset_for_next_snapshot, wait_for_new_snapshot)
row have_chunks new_chunk_ready = some (get_existing_bundle_info, wait_for_existing_bundle_info)
row wait_for_existing_bundle_info existing_bundle_info_ready =
    some (inspect_existing_bundle_info, have_existing_bundle_info)
row have_existing_bundle_info chunk_already_in_bundle = some (discard_chunk, have_chunks)
row have_existing_bundle_info chunk_not_yet_in_bundle =
    some (read_chunk_contents, wait_for_chunk_contents)
row wait_for_chunk_contents chunk_contents_ready = some (hash_chunk_contents, have_chunk_contents)
row have_chunk_contents chunk_contents_hash_ready =
    some (inspect_chunk_contents, have_chunk_contents_and_hash_validity)
row have_chunk_contents_and_hash_validity chunk_contents_hash_mismatch =
    some (discard_chunk, have_chunks)
row have_chunk_contents_and_hash_validity chunk_contents_hash_match =
    some (compress_chunk_contents, wait_for_compression)
row wait_for_compression compression_done = some (finish_chunk, chunk_finished)
row chunk_finished max_bundle_size_not_reached = some (discard_chunk, have_chunks)
row chunk_finished max_bundle_size_reached = some (finalize_bundle, have_bundle)
row have_bundle bundle_empty = some (clean_up, done)
row have_bundle bundle_ready = some (encrypt_bundle, wait_for_encryption)
row wait_for_encryption encryption_done = some (hash_bundle, wait_for_bundle_hash)
row wait_for_bundle_hash bundle_hashed = some (record_bundle, wait_for_bundle_to_record)
row wait_for_bundle_to_record bundle_recorded = some (write_bundle, wait_for_bundle_to_write)
row wait_for_bundle_to_write bundle_written =
    some (execute_bundle_ready_callback, wait_for_bundle_retrieval)
row wait_for_bundle_retrieval continue_after_bundle_retrieved =
    some (reset_for_next_bundle, have_chunks)
row wait_for_bundle_retrieval flush_forced = some (reset_for_next_bundle, have_chunks)
row _ _ = none
