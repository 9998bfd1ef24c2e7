-- ===== src/UploadMachine/Uploading.antt =====
-- state_machines/upload-state-machine.cc: the steps from the upload of a bundle to its deletion, and
-- all steps together.
use polar_express.Base.{
  ◌≡◌, refl, sym, ap, ◌∙◌, inl, inr, true, false, not, some, [], ◌∷◌, ◌++◌, map, Bytes, is_empty,
  if◌then◌else◌, ◌>>◌, assert, arith, Bool-cases,
}
use polar_express.StateMachine.{post, external, set_idle, notify}
use polar_express.GlacierConnection.{Settings, close}
use polar_express.GlacierConnection.Pending.{
  has_strand-perform_operation, perform_operation, uploads_archive,
}
use polar_express.GlacierConnection.Json.{Json}
use polar_express.UploadMachine.{
  State, wait_for_connection, wait_for_vault_description, have_vault_description,
  wait_for_vault_creation, ready_to_upload, wait_for_upload_to_complete, wait_for_upload_to_record,
  wait_for_bundle_to_delete, wait_for_updated_bundle_retrieval, done, Event, connection_ready,
  connection_closed, vault_description_ready, vault_missing, vault_created, vault_ok,
  new_bundle_ready, no_bundle_pending, upload_completed, upload_recorded, bundle_deleted,
  updated_bundle_retrieved, flush_forced, start_upload, record_upload, delete_bundle,
  execute_bundle_uploaded_callback, clean_up, row, BundleData, Fields, has_failed,
}
use polar_express.UploadMachine.Handlers.{
  handle, upload, start_upload_of, handle_start_upload, handle_record_upload, handle_delete_bundle,
  handle_execute_bundle_uploaded_callback, handle_clean_up,
}
use polar_express.UploadMachine.Phase.{rests, due}
use polar_express.UploadMachine.Ready.{
  IsQuiet, IsHolding, IsSent, IsUploaded, Ready, IsStep, posting, awaiting,
}
use polar_express.UploadMachine.Steps.{
  closed-lem, step-reopen-none, step-reopen-holding, step-get_vault_description,
  step-inspect_vault_description,
}
use polar_express.UploadMachine.Creation.{step-create_vault}
use polar_express.UploadMachine.Inputs.{step-wait_for_input, step-inspect_next_bundle}

module _ (s : Settings) (j : Json) where
  upload-keeps : (b : BundleData) (f : Fields j) → IsQuiet f → (upload s j b f).has_strand ≡ true
  unfolding upload perform_operation
  upload-keeps b f q =
      has_strand-perform_operation s
        (uploads_archive f.vault_name (map some b.file_contents) b.sha256_linear_digest
          b.sha256_tree_digest b.unique_filename)
        f.connection
      ∙ q.opened.has_strand

  start_upload-closed :
      (f : Fields j)
      → f.connection.is_open ≡ false
      → handle_start_upload s j f ≡ some (f, post connection_closed ∷ [])
  unfolding handle_start_upload
  start_upload-closed f c =
      ap
        (λ x.
          if not x
          then some (f, post connection_closed ∷ [])
          else start_upload_of s j f.current_bundle f)
        c

  start_upload-open :
      (b : BundleData) (f : Fields j)
      → f.connection.is_open ≡ true
      → f.current_bundle ≡ some b
      → b.server_bundle_id ≡ []
      → handle_start_upload s j f
        ≡ some (record f { connection = upload s j b f }, external upload_completed ∷ [])
  unfolding handle_start_upload start_upload_of
  start_upload-open b f o c e =
      ap
        (λ x.
          if not x
          then some (f, post connection_closed ∷ [])
          else start_upload_of s j f.current_bundle f)
        o
      ∙ ap (λ x. start_upload_of s j x f) c
      ∙ ap
          (λ x.
            assert (is_empty x)
            >> some (record f { connection = upload s j b f }, external upload_completed ∷ []))
          e

  step-start_upload :
      (f : Fields j) → IsQuiet f × IsHolding f → IsStep s j ready_to_upload new_bundle_ready f
  unfolding handle row
  step-start_upload f (q, h) = elim (Bool-cases f.connection.is_open) [
    | inr c ↦
        posting s j {to = wait_for_upload_to_complete} {x = connection_closed} {after = f}
          {action = start_upload} refl (start_upload-closed f c) ((q, h, c)) tt
    | inl o ↦
        awaiting s j {to = wait_for_upload_to_complete} {x = upload_completed}
          {after = record f { connection = upload s j h.bundle f }} {action = start_upload} refl
          (start_upload-open h.bundle f o h.current h.not_uploaded)
          ((
            record { has_strand = upload-keeps h.bundle f q; fresh = q.opened.fresh },
            record {
              bundle = h.bundle;
              current = h.current;
              not_uploaded = h.not_uploaded;
              no_next = h.no_next;
            },
          ))
          tt
  ]

  record_upload-failed :
      (f : Fields j)
      → has_failed f.connection ≡ true
      → handle_record_upload s j f
        ≡ some (record f { connection = close f.connection }, post connection_closed ∷ [])
  unfolding handle_record_upload
  record_upload-failed f e = ground (arith, e)

  step-record_upload :
      (f : Fields j)
      → IsQuiet f × IsSent f
      → IsStep s j wait_for_upload_to_complete upload_completed f
  unfolding handle row handle_record_upload
  step-record_upload f (q, u) = look u.bundle.server_bundle_id refl
    where
      failed :
          u.bundle.server_bundle_id ≡ []
          → handle_record_upload s j f
            ≡ some (record f { connection = close f.connection }, post connection_closed ∷ [])
          → IsStep s j wait_for_upload_to_complete upload_completed f
      failed i e =
          posting s j {to = wait_for_upload_to_record} {x = connection_closed}
            {after = record f { connection = close f.connection }} {action = record_upload} refl e
            ((
              closed-lem s j f q,
              record {
                bundle = u.bundle;
                current = u.current;
                not_uploaded = i;
                no_next = u.no_next;
              },
              refl,
            ))
            tt

      look :
          (i : Bytes)
          → u.bundle.server_bundle_id ≡ i
          → IsStep s j wait_for_upload_to_complete upload_completed f
      look [] i = elim (Bool-cases (has_failed f.connection)) [
        | inl e ↦ failed i (record_upload-failed f e)
        | inr e ↦ failed i (rw (e, u.current, i) refl)
      ]
      look (c ∷ cs) i =
          awaiting s j {to = wait_for_upload_to_record} {x = upload_recorded}
            {after = record f { recorded = f.recorded ++ u.bundle ∷ [] }} {action = record_upload}
            refl (rw (u.well (λ k. absurd (cons_nil (sym i ∙ k))), u.current, i) refl)
            ((
              record {
                opened = record { has_strand = q.opened.has_strand; fresh = q.opened.fresh };
                not_pending = q.not_pending;
              },
              record { bundle = u.bundle; current = u.current; no_next = u.no_next },
            ))
            tt
        where
          cons_nil : c ∷ cs ≡ [] → ⊥
          cons_nil h = cc

  step-delete_bundle :
      (f : Fields j)
      → IsQuiet f × IsUploaded f
      → IsStep s j wait_for_upload_to_record upload_recorded f
  unfolding handle row handle_delete_bundle
  step-delete_bundle f (q, u) =
      posting s j {to = wait_for_bundle_to_delete} {x = bundle_deleted}
        {after = record f {
          removed = f.removed ++ u.bundle.persistence_file_path ∷ [];
          current_bundle = some (record u.bundle { persistence_file_path = [] });
        }}
        {action = delete_bundle} refl (rw u.current refl)
        ((
          record {
            opened = record { has_strand = q.opened.has_strand; fresh = q.opened.fresh };
            not_pending = q.not_pending;
          },
          record {
            bundle = record u.bundle { persistence_file_path = [] };
            current = refl;
            no_next = u.no_next;
          },
        ))
        tt

  step-execute_callback :
      (f : Fields j) → IsQuiet f → IsStep s j wait_for_bundle_to_delete bundle_deleted f
  unfolding handle row handle_execute_bundle_uploaded_callback
  step-execute_callback f q = record {
    action = execute_bundle_uploaded_callback;
    to = wait_for_updated_bundle_retrieval;
    after = f;
    commands = if f.has_callback then (notify 0 ∷ set_idle true ∷ []) else (set_idle true ∷ []);
    phase = rests;
    row_is = refl;
    handle_is = refl;
    posts = ground arith;
    awaits = ground arith;
    is_ready = q;
    wakes = tt;
  }

  step-clean_up : (f : Fields j) → IsStep s j ready_to_upload flush_forced f
  unfolding handle row handle_clean_up
  step-clean_up f = record {
    action = clean_up;
    to = done;
    after = record f { connection = close f.connection };
    commands = set_idle false ∷ [];
    phase = rests;
    row_is = refl;
    handle_is = refl;
    posts = refl;
    awaits = refl;
    is_ready = tt;
    wakes = tt;
  }

  -- The event that drives the machine meets a transition, whose handler's assertions hold.
  pub step : (from : State) (e : Event) (f : Fields j) → Ready from (due e) f → IsStep s j from e f
  unfolding row
  step wait_for_connection connection_ready f r =
      step-get_vault_description s j wait_for_connection connection_ready f refl r
  step wait_for_vault_description connection_closed f r =
      step-reopen-none s j wait_for_vault_description f refl r
  step wait_for_vault_description vault_description_ready f r =
      step-inspect_vault_description s j f r
  step have_vault_description connection_closed f r =
      step-reopen-none s j have_vault_description f refl r
  step have_vault_description vault_missing f r = step-create_vault s j f r
  step have_vault_description vault_ok f r =
      step-inspect_next_bundle s j have_vault_description vault_ok f refl r
  step wait_for_vault_creation connection_closed f r =
      step-reopen-none s j wait_for_vault_creation f refl r
  step wait_for_vault_creation vault_created f (q, n, c) =
      step-get_vault_description s j wait_for_vault_creation vault_created f refl (q, n, λ _. c)
  step ready_to_upload new_bundle_ready f r = step-start_upload f r
  step ready_to_upload no_bundle_pending f r = step-wait_for_input s j f r
  step ready_to_upload flush_forced f r = step-clean_up f
  step wait_for_upload_to_complete connection_closed f r =
      step-reopen-holding s j wait_for_upload_to_complete f refl r
  step wait_for_upload_to_complete upload_completed f r = step-record_upload f r
  step wait_for_upload_to_record connection_closed f r =
      step-reopen-holding s j wait_for_upload_to_record f refl r
  step wait_for_upload_to_record upload_recorded f r = step-delete_bundle f r
  step wait_for_bundle_to_delete bundle_deleted f (q, u) = step-execute_callback f q
  step wait_for_updated_bundle_retrieval updated_bundle_retrieved f r =
      step-inspect_next_bundle s j wait_for_updated_bundle_retrieval updated_bundle_retrieved f refl
        r
  step _ _ f r = absurd r
