-- ===== src/UploadMachine.antt =====
-- state_machines/upload-state-machine.h and .cc: bundles are uploaded to a vault, one after the
-- other, recorded, and deleted from the disk; a connection that closes is opened again.
pub mod Phase
pub mod Creation
pub mod Inputs
pub mod Handlers
pub mod Ready
pub mod Steps
pub mod Uploading
pub mod Outside
pub mod Calls
pub mod Held
pub mod Turns
pub mod Owner
pub mod Run
pub mod Stuck
mod Tests
use polar_express.Base.{
  Bool, true, false, not, ◌||◌, ◌&&◌, Option, none, some, List, [], ◌∷◌, ◌++◌, map, Bytes, bytes_eq,
  is_empty, if◌then◌else◌, ◌>>=◌, ◌>>◌, assert,
}
use polar_express.StateMachine.{Command, post, external, set_idle, notify, Definition}
use polar_express.GlacierConnection.{
  Settings, Connection, new_connection, last_operation_succeeded_method, reopen, close,
  describe_vault, create_vault, upload_archive,
}
use polar_express.GlacierConnection.Json.{Json, VaultDescription, new_description}

pub data State : Type 0 where
  wait_for_connection : State
  wait_for_vault_description : State
  have_vault_description : State
  wait_for_vault_creation : State
  wait_for_new_bundle : State
  ready_to_upload : State
  wait_for_upload_to_complete : State
  wait_for_upload_to_record : State
  wait_for_bundle_to_delete : State
  wait_for_updated_bundle_retrieval : State
  done : State

pub data Event : Type 0 where
  connection_ready : Event
  connection_closed : Event
  vault_description_ready : Event
  vault_missing : Event
  vault_created : Event
  vault_ok : Event
  new_bundle_pending : Event
  new_bundle_ready : Event
  no_bundle_pending : Event
  upload_completed : Event
  upload_recorded : Event
  bundle_deleted : Event
  updated_bundle_retrieved : Event
  flush_forced : Event

pub data Action : Type 0 where
  reopen_connection : Action
  get_vault_description : Action
  inspect_vault_description : Action
  creates_vault : Action
  wait_for_input : Action
  inspect_next_bundle : Action
  start_upload : Action
  record_upload : Action
  delete_bundle : Action
  execute_bundle_uploaded_callback : Action
  clean_up : Action

unfoldable pub row : State → Event → Option (Action × State)
row wait_for_connection connection_ready = some (get_vault_description, wait_for_vault_description)
row wait_for_vault_description connection_closed = some (reopen_connection, wait_for_connection)
row wait_for_vault_description vault_description_ready =
    some (inspect_vault_description, have_vault_description)
row have_vault_description connection_closed = some (reopen_connection, wait_for_connection)
row have_vault_description vault_missing = some (creates_vault, wait_for_vault_creation)
row wait_for_vault_creation connection_closed = some (reopen_connection, wait_for_connection)
row wait_for_vault_creation vault_created = some (get_vault_description, wait_for_vault_description)
row have_vault_description vault_ok = some (inspect_next_bundle, ready_to_upload)
row ready_to_upload no_bundle_pending = some (wait_for_input, wait_for_new_bundle)
row ready_to_upload new_bundle_ready = some (start_upload, wait_for_upload_to_complete)
row ready_to_upload flush_forced = some (clean_up, done)
row wait_for_new_bundle new_bundle_pending = some (inspect_next_bundle, ready_to_upload)
row wait_for_upload_to_complete connection_closed = some (reopen_connection, wait_for_connection)
row wait_for_upload_to_complete upload_completed = some (record_upload, wait_for_upload_to_record)
row wait_for_upload_to_record connection_closed = some (reopen_connection, wait_for_connection)
row wait_for_upload_to_record upload_recorded = some (delete_bundle, wait_for_bundle_to_delete)
row wait_for_bundle_to_delete bundle_deleted =
    some (execute_bundle_uploaded_callback, wait_for_updated_bundle_retrieval)
row wait_for_updated_bundle_retrieval updated_bundle_retrieved =
    some (inspect_next_bundle, ready_to_upload)
row _ _ = none

-- What the machine reads of an annotated bundle.
pub record BundleData : Type 0 where
  pub file_contents : List Bytes
  pub sha256_linear_digest : Bytes
  pub sha256_tree_digest : Bytes
  pub unique_filename : Bytes
  pub server_bundle_id : Bytes
  pub persistence_file_path : Bytes

-- The object's fields; `removed` are the files that were removed from the disk, and `recorded` the
-- bundles that were given to the database.
pub record Fields (j : Json) : Type 0 where
  pub has_callback : Bool
  pub exit_requested : Bool
  pub connection : Connection
  pub vault_name : Bytes
  pub attempted_vault_creation : Bool
  pub vault_was_created : Bool
  pub vault_description : VaultDescription j
  pub next_bundle : Option BundleData
  pub current_bundle : Option BundleData
  pub recorded : List BundleData
  pub removed : List Bytes

-- The constructor, with the callback set or not.
unfoldable pub new_fields : (j : Json) → Bool → Fields j
new_fields j has_callback = record {
  has_callback = has_callback;
  exit_requested = false;
  connection = new_connection;
  vault_name = [];
  attempted_vault_creation = false;
  vault_was_created = false;
  vault_description = new_description j;
  next_bundle = none;
  current_bundle = none;
  recorded = [];
  removed = [];
}

abbrev pub is_none : {A : Type 0} → Option A → Bool
is_none none = true
is_none (some a) = false

-- The test of several handlers, whether the connection can no longer be trusted.
abbrev pub has_failed : Connection → Bool
has_failed c = not c.is_open || not (last_operation_succeeded_method c)
