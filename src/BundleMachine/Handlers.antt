-- ===== src/BundleMachine/Handlers.antt =====
-- state_machines/bundle-state-machine.cc: the action handlers and the public methods. An assertion,
-- or a null pointer that is followed, makes the result `none`.
use polar_express.Base.{
  ℕ, ◌+◌, ◌-◌, Bool, true, false, not, ◌&&◌, ◌||◌, Option, none, some, List, [], ◌∷◌, ◌++◌, Bytes,
  leb, ltb, ◌==◌, if◌then◌else◌, is_empty,
}
use polar_express.StateMachine.{Command, post, external, set_idle, notify, Definition}
use polar_express.BundleMachine.Table.{State, Event, Action, row}
use polar_express.BundleMachine.Fields.{Chunk, Snapshot, AnnotationId, id_of, Services, Fields}

abbrev pub snapshot_done_call : ℕ
snapshot_done_call = 0

abbrev pub bundle_ready_call : ℕ
bundle_ready_call = 1

unfoldable pub member : ℕ → List ℕ → Bool
member x [] = false
member x (y ∷ ys) = (x == y) || member x ys

module _ (s : Services) where
  abbrev pub Reply : Type 0
  Reply = Option (Fields s × List (Command Event))

  unfoldable pub push_pending_chunks_for_snapshot : List Chunk → Fields s → Fields s
  push_pending_chunks_for_snapshot [] f = f
  push_pending_chunks_for_snapshot (c ∷ cs) f = push_pending_chunks_for_snapshot cs (record f {
    pending_chunks = f.pending_chunks ++ c ∷ [];
    chunk_bytes_pending = f.chunk_bytes_pending + c.block_length;
  })

  -- PopPendingChunk, then the choice that NextChunk makes on its result.
  unfoldable pub next_chunk_from : List Chunk → Fields s → Fields s × List (Command Event)
  next_chunk_from (c ∷ cs) f = (
    record f {
      active_chunk = some c;
      pending_chunks = cs;
      chunk_bytes_pending = f.chunk_bytes_pending - c.block_length;
    },
    post Event.new_chunk_ready ∷ [],
  )
  next_chunk_from [] f =
      if f.flush_requested || f.exit_requested
      then (record f { flush_requested = false }, post Event.flush_forced ∷ [])
      else (f, post Event.no_chunks_remaining ∷ set_idle true ∷ [])

  unfoldable pub next_chunk : Fields s → Fields s × List (Command Event)
  unfolding next_chunk_from
  next_chunk f = next_chunk_from f.pending_chunks f

  unfoldable pub load_snapshot : Option Snapshot → Fields s → Fields s
  unfolding push_pending_chunks_for_snapshot
  load_snapshot none f = f
  load_snapshot (some p) f = record (push_pending_chunks_for_snapshot p.chunks f) {
    reader = some (f.root ++ p.path);
  }

  abbrev pub idle_unless_asked : Fields s → List (Command Event)
  idle_unless_asked f =
      if not f.exit_requested && not f.flush_requested then set_idle true ∷ [] else []

  abbrev pub notify_if : Bool → ℕ → List (Command Event)
  notify_if b n = if b then notify n ∷ [] else []

  unfoldable pub reset_for_next_snapshot : Fields s → Reply
  reset_for_next_snapshot f =
      if is_empty f.pending_chunks
      then some (
        record f { pending_snapshot = none },
        notify_if f.snapshot_done_callback snapshot_done_call ++ idle_unless_asked f,
      )
      else none

  unfoldable pub get_existing_bundle_info : Option Chunk → Fields s → Reply
  unfolding member
  get_existing_bundle_info none f = none
  get_existing_bundle_info (some c) f = some (
    record f { existing = none },
    (if member c.block_id f.block_ids_in_active_bundle
        then post Event.existing_bundle_info_ready ∷ []
        else external Event.existing_bundle_info_ready ∷ []),
  )

  abbrev pub is_assigned : Option AnnotationId → Bool
  is_assigned (some (id_of n)) = true
  is_assigned _ = false

  unfoldable pub inspect_existing_bundle_info : Option Chunk → Fields s → Reply
  unfolding member
  inspect_existing_bundle_info none f = none
  inspect_existing_bundle_info (some c) f = some (
    f,
    (if is_assigned f.existing || member c.block_id f.block_ids_in_active_bundle
        then post Event.chunk_already_in_bundle ∷ []
        else post Event.chunk_not_yet_in_bundle ∷ []),
  )

  unfoldable pub read_chunk_contents : Option Chunk → Option Bytes → Fields s → Reply
  read_chunk_contents (some c) (some path) f =
      some (record f { block_data = [] }, external Event.chunk_contents_ready ∷ [])
  read_chunk_contents _ _ f = none

  unfoldable pub hash_chunk_contents : Option Chunk → Fields s → Reply
  hash_chunk_contents none f = none
  hash_chunk_contents (some c) f =
      some (record f { hash_is_valid = false }, external Event.chunk_contents_hash_ready ∷ [])

  abbrev pub start_if_none : s.Bundle → s.Bundle
  start_if_none b = if s.payloads_size b == 0 then s.start_new_payload b else b

  unfoldable pub finish_chunk : Option Chunk → Option s.Bundle → Fields s → Reply
  finish_chunk (some c) (some b) f =
      if s.is_finalized b
      then none
      else (let b' =
            s.append_block_contents f.compressed (s.add_block_metadata c (start_if_none b)) in
          some (
            record f {
              block_data = [];
              block_ids_in_active_bundle = c.block_id ∷ f.block_ids_in_active_bundle;
              active_bundle = some b';
              compressed = [];
            },
            (if leb s.max_bundle_size (s.size b')
                then post Event.max_bundle_size_reached ∷ []
                else post Event.max_bundle_size_not_reached ∷ []),
          ))
  finish_chunk _ _ f = none

  -- AnnotatedBundleData's constructor: the data of a bundle is handed out once it is final.
  abbrev pub annotated : s.Bundle → Option s.Bundle
  annotated b = if s.is_finalized b then some b else none

  abbrev pub bundle_made : Fields s → Option s.Bundle → Reply
  bundle_made f none = none
  bundle_made f (some g) = some (
    record f {
      generated_bundle = some g;
      active_bundle = none;
      block_ids_in_active_bundle = [];
      compressed = [];
    },
    post Event.bundle_ready ∷ [],
  )

  unfoldable pub finalize_bundle : Option s.Bundle → Option s.Bundle → Fields s → Reply
  finalize_bundle (some b) none f =
      if s.is_finalized b
      then none
      else (if s.payloads_size b == 0
          then some (f, post Event.bundle_empty ∷ [])
          else (let b' = s.append_block_contents (s.finalize_compression f.compressed) b in
              if ltb 0 (s.size b')
              then bundle_made f (annotated (s.finalize b'))
              else some (
                record f { active_bundle = some b'; compressed = [] },
                post Event.bundle_empty ∷ [],
              )))
  finalize_bundle _ _ f = none

  -- A step that needs the generated bundle, and waits for a service.
  abbrev pub with_generated : Option s.Bundle → Fields s → Event → Reply
  with_generated none f e = none
  with_generated (some g) f e = some (f, external e ∷ [])

  unfoldable pub reset_for_next_bundle : Option s.Bundle → Fields s → Reply
  unfolding next_chunk
  reset_for_next_bundle (some b) f = none
  reset_for_next_bundle none f = some (
      next_chunk (record f {
        generated_bundle = none;
        active_bundle = some s.new_bundle;
        block_ids_in_active_bundle = [];
      }))

  unfoldable pub handle : Action → Fields s → Reply
  unfolding load_snapshot next_chunk reset_for_next_snapshot get_existing_bundle_info
      inspect_existing_bundle_info read_chunk_contents hash_chunk_contents finish_chunk
      finalize_bundle reset_for_next_bundle
  handle Action.start_new_snapshot f =
      some (next_chunk (load_snapshot f.pending_snapshot (record f { reader = none })))
  handle Action.reset_for_next_snapshot f = reset_for_next_snapshot f
  handle Action.get_existing_bundle_info f = get_existing_bundle_info f.active_chunk f
  handle Action.inspect_existing_bundle_info f = inspect_existing_bundle_info f.active_chunk f
  handle Action.discard_chunk f = some (next_chunk f)
  handle Action.read_chunk_contents f = read_chunk_contents f.active_chunk f.reader f
  handle Action.hash_chunk_contents f = hash_chunk_contents f.active_chunk f
  handle Action.inspect_chunk_contents f = some (
    f,
    (if f.hash_is_valid
        then post Event.chunk_contents_hash_match ∷ []
        else post Event.chunk_contents_hash_mismatch ∷ []),
  )
  handle Action.compress_chunk_contents f = some (f, external Event.compression_done ∷ [])
  handle Action.finish_chunk f = finish_chunk f.active_chunk f.active_bundle f
  handle Action.finalize_bundle f = finalize_bundle f.active_bundle f.generated_bundle f
  handle Action.encrypt_bundle f =
      if f.cryptor then with_generated f.generated_bundle f Event.encryption_done else none
  handle Action.hash_bundle f =
      if f.cryptor then with_generated f.generated_bundle f Event.bundle_hashed else none
  handle Action.record_bundle f = with_generated f.generated_bundle f Event.bundle_recorded
  handle Action.write_bundle f = with_generated f.generated_bundle f Event.bundle_written
  handle Action.execute_bundle_ready_callback f =
      some (f, notify_if f.bundle_ready_callback bundle_ready_call ++ idle_unless_asked f)
  handle Action.reset_for_next_bundle f = reset_for_next_bundle f.active_bundle f
  handle Action.clean_up f = some (f, set_idle false ∷ [])

  -- BundleSnapshot, Continue, FlushCurrentBundle and FinishAndExit.
  unfoldable pub bundle_snapshot : Snapshot → Option Snapshot → Fields s → Reply
  bundle_snapshot p none f =
      some (record f { pending_snapshot = some p }, post Event.new_snapshot_ready ∷ [])
  bundle_snapshot p (some q) f = none

  unfoldable pub continue : Option s.Bundle → Fields s → Reply
  continue none f = none
  continue (some g) f =
      some (record f { generated_bundle = none }, post Event.continue_after_bundle_retrieved ∷ [])

  unfoldable pub flush_current_bundle : Fields s → Reply
  flush_current_bundle f = some (record f { flush_requested = true }, post Event.flush_forced ∷ [])

  unfoldable pub finish_and_exit : Fields s → Reply
  finish_and_exit f = some (record f { exit_requested = true }, post Event.flush_forced ∷ [])

  abbrev pub definition : Definition State Event Action (Fields s)
  definition = record { row = row; handle = handle }
