-- ===== src/UploadMachine/Handlers.antt =====
-- state_machines/upload-state-machine.cc: the handlers of the upload machine and its public methods.
use polar_express.Base.{
  true, false, not, ◌||◌, Option, none, some, List, [], ◌∷◌, ◌++◌, map, Bytes, bytes_eq, is_empty,
  if◌then◌else◌, ◌>>=◌, ◌>>◌, assert,
}
use polar_express.StateMachine.{Command, post, external, set_idle, notify, Definition}
use polar_express.GlacierConnection.{
  Settings, Connection, reopen, close, describe_vault, create_vault, upload_archive,
}
use polar_express.GlacierConnection.Json.{Json}
use polar_express.UploadMachine.{
  State, Event, connection_ready, connection_closed, vault_description_ready, vault_missing,
  vault_created, vault_ok, new_bundle_pending, new_bundle_ready, no_bundle_pending,
  upload_completed, upload_recorded, bundle_deleted, updated_bundle_retrieved, flush_forced, Action,
  reopen_connection, get_vault_description, inspect_vault_description, creates_vault,
  wait_for_input, inspect_next_bundle, start_upload, record_upload, delete_bundle,
  execute_bundle_uploaded_callback, clean_up, row, BundleData, Fields, is_none, has_failed,
}

module _ (s : Settings) (j : Json) where
  abbrev pub Result : Type 0
  Result = Option (Fields j × List (Command Event))

  abbrev pub post_connection_closed : Fields j → Result
  post_connection_closed f =
      some (record f { connection = close f.connection }, post connection_closed ∷ [])

  -- The bundle that was under way becomes the next one again.
  abbrev pub take_back : Option BundleData → Fields j → Option (Fields j)
  take_back none f = some f
  take_back (some b) f =
      assert (is_none f.next_bundle)
      >> some (record f {
        next_bundle = some b;
        current_bundle = none;
        attempted_vault_creation = false;
      })

  unfoldable pub handle_reopen_connection : Fields j → Result
  handle_reopen_connection f = take_back f.current_bundle f >>= λ f'.
      assert (reopen f'.connection) >> some (f', external connection_ready ∷ [])

  unfoldable pub handle_get_vault_description : Fields j → Result
  unfolding describe_vault
  handle_get_vault_description f =
      if not f.connection.is_open
      then some (f, post connection_closed ∷ [])
      else (assert (not f.attempted_vault_creation || f.vault_was_created)
          >> (assert (describe_vault s f.vault_name f.connection).0
              >> some (
                record f { connection = (describe_vault s f.vault_name f.connection).1 },
                external vault_description_ready ∷ [],
              )))

  unfoldable pub handle_inspect_vault_description : Fields j → Result
  unfolding bytes_eq
  handle_inspect_vault_description f =
      if has_failed f.connection
      then post_connection_closed f
      else (if bytes_eq f.vault_description.vault_name f.vault_name
          then some (f, post vault_ok ∷ [])
          else some (f, post vault_missing ∷ []))

  unfoldable pub handle_create_vault_action : Fields j → Result
  unfolding create_vault
  handle_create_vault_action f =
      if has_failed f.connection
      then post_connection_closed f
      else (assert (not f.attempted_vault_creation)
          >> (assert (create_vault s f.vault_name f.connection).0
              >> some (
                record f {
                  attempted_vault_creation = true;
                  connection = (create_vault s f.vault_name f.connection).1;
                },
                external vault_created ∷ [],
              )))

  unfoldable pub handle_wait_for_input : Fields j → Result
  handle_wait_for_input f = some (f, if f.exit_requested then [] else (set_idle true ∷ []))

  abbrev pub inspect_next : Option BundleData → Fields j → Result
  inspect_next (some b) f =
      some (record f { current_bundle = some b; next_bundle = none }, post new_bundle_ready ∷ [])
  inspect_next none f = some (
    record f { current_bundle = none },
    (if f.exit_requested then post flush_forced else post no_bundle_pending) ∷ [],
  )

  unfoldable pub handle_inspect_next_bundle : Fields j → Result
  handle_inspect_next_bundle f = inspect_next f.next_bundle f

  -- What UploadArchive returns is not looked at.
  unfoldable pub upload : BundleData → Fields j → Connection
  unfolding upload_archive
  upload b f =
      (upload_archive s f.vault_name (map some b.file_contents) b.sha256_linear_digest
        b.sha256_tree_digest b.unique_filename f.connection).1

  unfoldable pub start_upload_of : Option BundleData → Fields j → Result
  unfolding upload
  start_upload_of none f = none
  start_upload_of (some b) f =
      assert (is_empty b.server_bundle_id)
      >> some (record f { connection = upload b f }, external upload_completed ∷ [])

  unfoldable pub handle_start_upload : Fields j → Result
  unfolding start_upload_of
  handle_start_upload f =
      if not f.connection.is_open
      then some (f, post connection_closed ∷ [])
      else start_upload_of f.current_bundle f

  abbrev pub record_upload_of : Option BundleData → Fields j → Result
  record_upload_of none f = none
  record_upload_of (some b) f =
      if is_empty b.server_bundle_id
      then post_connection_closed f
      else some (record f { recorded = f.recorded ++ b ∷ [] }, external upload_recorded ∷ [])

  unfoldable pub handle_record_upload : Fields j → Result
  handle_record_upload f =
      if has_failed f.connection
      then post_connection_closed f
      else record_upload_of f.current_bundle f

  abbrev pub delete_bundle_of : Option BundleData → Fields j → Result
  delete_bundle_of none f = none
  delete_bundle_of (some b) f = some (
    record f {
      removed = f.removed ++ b.persistence_file_path ∷ [];
      current_bundle = some (record b { persistence_file_path = [] });
    },
    post bundle_deleted ∷ [],
  )

  unfoldable pub handle_delete_bundle : Fields j → Result
  handle_delete_bundle f = delete_bundle_of f.current_bundle f

  unfoldable pub handle_execute_bundle_uploaded_callback : Fields j → Result
  handle_execute_bundle_uploaded_callback f =
      some (f, if f.has_callback then (notify 0 ∷ set_idle true ∷ []) else (set_idle true ∷ []))

  unfoldable pub handle_clean_up : Fields j → Result
  handle_clean_up f = some (record f { connection = close f.connection }, set_idle false ∷ [])

  unfoldable pub handle : Action → Fields j → Result
  unfolding handle_reopen_connection handle_get_vault_description handle_inspect_vault_description
      handle_create_vault_action handle_wait_for_input handle_inspect_next_bundle
      handle_start_upload handle_record_upload handle_delete_bundle
      handle_execute_bundle_uploaded_callback handle_clean_up
  handle reopen_connection f = handle_reopen_connection f
  handle get_vault_description f = handle_get_vault_description f
  handle inspect_vault_description f = handle_inspect_vault_description f
  handle creates_vault f = handle_create_vault_action f
  handle wait_for_input f = handle_wait_for_input f
  handle inspect_next_bundle f = handle_inspect_next_bundle f
  handle start_upload f = handle_start_upload f
  handle record_upload f = handle_record_upload f
  handle delete_bundle f = handle_delete_bundle f
  handle execute_bundle_uploaded_callback f = handle_execute_bundle_uploaded_callback f
  handle clean_up f = handle_clean_up f

  unfoldable pub definition : Definition State Event Action (Fields j)
  unfolding row handle
  definition = record { row = row; handle = handle }

  -- The public methods.
  unfoldable pub upload_bundle : BundleData → Fields j → Result
  upload_bundle b f =
      assert (is_none f.next_bundle)
      >> some (record f { next_bundle = some b }, post new_bundle_pending ∷ [])

  unfoldable pub finish_and_exit : Fields j → Result
  finish_and_exit f = some (record f { exit_requested = true }, post new_bundle_pending ∷ [])

  unfoldable pub retrieve_last_uploaded_bundle : Fields j → Option BundleData × Result
  retrieve_last_uploaded_bundle f = (f.current_bundle, some (f, post updated_bundle_retrieved ∷ []))

  unfoldable pub internal_start : Bytes → Fields j → Result
  internal_start name f =
      assert (not (is_empty name))
      >> some (
        record f { vault_name = name; connection = record f.connection { has_strand = true } },
        external connection_ready ∷ [],
      )
