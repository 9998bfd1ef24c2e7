-- ===== src/SnapshotMachine.antt =====
-- state_machines/snapshot-state-machine.h and .cc, and util/snapshot-util.cc: one file's snapshot is
-- generated, compared with the one before, and recorded.
pub mod Compare
pub mod Run
pub mod Tests
use polar_express.Base.{
  ℕ, Bool, true, false, ◌&&◌, Option, none, some, List, [], ◌∷◌, Bytes, bytes_eq, ◌==◌,
  if◌then◌else◌,
}
use polar_express.StateMachine.{Command, post, external, Definition}

-- proto/snapshot.proto, the fields that are compared. A getter gives the default where the field
-- is missing; integers and truth values are only compared, and stand as numbers.
pub record Snapshot : Type 0 where
  pub owner_user : Bytes
  pub owner_group : Bytes
  pub uid : ℕ
  pub gid : ℕ
  pub mode : ℕ
  pub creation_time : ℕ
  pub modification_time : ℕ
  pub access_time : ℕ
  pub is_regular : ℕ
  pub is_deleted : ℕ
  pub snapshot_length : ℕ
  pub sha1_digest : Option Bytes

-- Digests are compared if both are present.
unfoldable pub digests_agree : Option Bytes → Option Bytes → Bool
digests_agree (some x) (some y) = bytes_eq x y
digests_agree _ _ = true

unfoldable pub file_contents_equal : Snapshot → Snapshot → Bool
unfolding digests_agree
file_contents_equal lhs rhs =
    (lhs.creation_time == rhs.creation_time)
    && ((lhs.modification_time == rhs.modification_time)
        && ((lhs.is_regular == rhs.is_regular)
            && ((lhs.is_deleted == rhs.is_deleted)
                && ((lhs.snapshot_length == rhs.snapshot_length)
                    && digests_agree lhs.sha1_digest rhs.sha1_digest))))

unfoldable pub all_metadata_equal : Snapshot → Snapshot → Bool
unfolding file_contents_equal
all_metadata_equal lhs rhs =
    bytes_eq lhs.owner_user rhs.owner_user
    && (bytes_eq lhs.owner_group rhs.owner_group
        && ((lhs.uid == rhs.uid)
            && ((lhs.gid == rhs.gid)
                && ((lhs.mode == rhs.mode)
                    && ((lhs.access_time == rhs.access_time) && file_contents_equal lhs rhs)))))

pub data State : Type 0 where
  wait_for_new_file_path : State
  wait_for_candidate_snapshot : State
  wait_for_previous_snapshot : State
  have_snapshots : State
  wait_for_chunk_hashes : State
  have_chunk_hashes : State
  wait_for_snapshot_to_record : State
  done : State

pub data Event : Type 0 where
  new_file_path_ready : Event
  candidate_snapshot_ready : Event
  previous_snapshot_ready : Event
  need_chunk_hashes : Event
  chunk_hashes_ready : Event
  ready_to_record : Event
  snapshot_recorded : Event
  no_updates_necessary : Event

pub data Action : Type 0 where
  request_generate_candidate_snapshot : Action
  request_previous_snapshot : Action
  inspect_snapshots : Action
  request_generate_and_hash_chunks : Action
  inspect_chunk_hashes : Action
  record_candidate_snapshot : Action
  clean_up : Action

-- The transition table.
unfoldable pub row : State → Event → Option (Action × State)
row State.wait_for_new_file_path Event.new_file_path_ready =
    some (Action.request_generate_candidate_snapshot, State.wait_for_candidate_snapshot)
row State.wait_for_candidate_snapshot Event.candidate_snapshot_ready =
    some (Action.request_previous_snapshot, State.wait_for_previous_snapshot)
row State.wait_for_previous_snapshot Event.previous_snapshot_ready =
    some (Action.inspect_snapshots, State.have_snapshots)
row State.have_snapshots Event.need_chunk_hashes =
    some (Action.request_generate_and_hash_chunks, State.wait_for_chunk_hashes)
row State.wait_for_chunk_hashes Event.chunk_hashes_ready =
    some (Action.inspect_chunk_hashes, State.have_chunk_hashes)
row State.have_chunk_hashes Event.ready_to_record =
    some (Action.record_candidate_snapshot, State.wait_for_snapshot_to_record)
row State.have_snapshots Event.ready_to_record =
    some (Action.record_candidate_snapshot, State.wait_for_snapshot_to_record)
row State.wait_for_snapshot_to_record Event.snapshot_recorded = some (Action.clean_up, State.done)
row State.have_snapshots Event.no_updates_necessary = some (Action.clean_up, State.done)
row _ _ = none

pub record Fields : Type 0 where
  pub candidate_snapshot : Option Snapshot
  pub previous_snapshot : Option Snapshot
  pub root : Bytes
  pub filepath : Bytes

abbrev pub initial : Fields
initial = record { candidate_snapshot = none; previous_snapshot = none; root = []; filepath = [] }

abbrev pub Reply : Type 0
Reply = Option (Fields × List (Command Event))

-- GetLatestSnapshot gets the candidate's file: a null pointer must not be followed.
unfoldable pub handle_request_previous_snapshot : Option Snapshot → Fields → Reply
handle_request_previous_snapshot none f = none
handle_request_previous_snapshot (some c) f = some (f, external Event.previous_snapshot_ready ∷ [])

-- By whether all metadata are equal, and whether the contents are.
abbrev pub inspected : Bool → Bool → Fields → Reply
inspected true b f =
    some (record f { candidate_snapshot = none }, post Event.no_updates_necessary ∷ [])
inspected false true f = some (f, post Event.ready_to_record ∷ [])
inspected false false f = some (f, post Event.need_chunk_hashes ∷ [])

unfoldable pub handle_inspect_snapshots : Option Snapshot → Option Snapshot → Fields → Reply
handle_inspect_snapshots (some c) (some p) f =
    inspected (all_metadata_equal c p) (file_contents_equal c p) f
handle_inspect_snapshots _ _ f = none

-- A service that takes the candidate must be given one.
unfoldable pub with_candidate : Option Snapshot → Event → Fields → Reply
with_candidate none e f = none
with_candidate (some c) e f = some (f, external e ∷ [])

unfoldable pub handle : Action → Fields → Reply
unfolding handle_request_previous_snapshot handle_inspect_snapshots with_candidate
handle Action.request_generate_candidate_snapshot f =
    some (f, external Event.candidate_snapshot_ready ∷ [])
handle Action.request_previous_snapshot f = handle_request_previous_snapshot f.candidate_snapshot f
handle Action.inspect_snapshots f =
    handle_inspect_snapshots f.candidate_snapshot f.previous_snapshot f
handle Action.request_generate_and_hash_chunks f =
    with_candidate f.candidate_snapshot Event.chunk_hashes_ready f
handle Action.inspect_chunk_hashes f = some (f, post Event.ready_to_record ∷ [])
handle Action.record_candidate_snapshot f =
    with_candidate f.candidate_snapshot Event.snapshot_recorded f
handle Action.clean_up f = some (f, [])

-- InternalStart, which Start calls.
unfoldable pub internal_start : Bytes → Bytes → Fields → Fields × List (Command Event)
internal_start root filepath f =
    (record f { root = root; filepath = filepath }, post Event.new_file_path_ready ∷ [])

abbrev pub definition : Definition State Event Action Fields
definition = record { row = row; handle = handle }
