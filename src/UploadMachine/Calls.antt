-- ===== src/UploadMachine/Calls.antt =====
-- state_machines/upload-state-machine.cc: the public methods and when the owner may call them, and
-- the loss of the connection.
use polar_express.Base.{◌≡◌, refl, sym, ◌∙◌, ◌≢◌, false, some}
use polar_express.GlacierConnection.Json.{Json}
use polar_express.UploadMachine.{
  State, wait_for_connection, wait_for_vault_description, have_vault_description,
  wait_for_vault_creation, wait_for_new_bundle, ready_to_upload, wait_for_upload_to_complete,
  wait_for_upload_to_record, wait_for_bundle_to_delete, wait_for_updated_bundle_retrieval, done,
  connection_ready, connection_closed, vault_description_ready, vault_missing, vault_created,
  vault_ok, new_bundle_ready, no_bundle_pending, upload_completed, upload_recorded, bundle_deleted,
  updated_bundle_retrieved, flush_forced, BundleData, Fields, has_failed,
}
use polar_express.UploadMachine.Phase.{Phase, rests, waits, due}
use polar_express.UploadMachine.Ready.{
  IsFresh, IsOpened, IsQuiet, IsClosed, HasNone, IsSettled, IsFound, IsHolding, IsSent, IsUploaded,
  Ready,
}

module _ {j : Json} where
  -- A change of the fields that takes nothing from a state's promises.
  pub record IsMild (s : State) (f f' : Fields j) : Type 0 where
    pub strand : f'.connection.has_strand ≡ f.connection.has_strand
    pub pending : f'.connection.operation_pending ≡ f.connection.operation_pending
    pub closed : IsClosed f → IsClosed f'
    pub found : IsFound f → IsFound f'
    pub fresh : IsFresh f.next_bundle → IsFresh f'.next_bundle
    pub current : f'.current_bundle ≡ f.current_bundle
    pub attempted : f'.attempted_vault_creation ≡ f.attempted_vault_creation
    pub was_created : f'.vault_was_created ≡ f.vault_was_created
    pub next :
        s ≢ wait_for_updated_bundle_retrieval
        → (b : BundleData) → f.current_bundle ≡ some b
        → f'.next_bundle ≡ f.next_bundle
    pub well :
        s ≡ wait_for_upload_to_complete
        → has_failed f.connection ≡ false
        → has_failed f'.connection ≡ false

  module _ (s : State) (f f' : Fields j) (m : IsMild s f f') where
    IsOpened-mild : IsOpened f → IsOpened f'
    IsOpened-mild o = record { has_strand = m.strand ∙ o.has_strand; fresh = m.fresh o.fresh }

    IsQuiet-mild : IsQuiet f → IsQuiet f'
    IsQuiet-mild q = record {
      opened = IsOpened-mild q.opened;
      not_pending = m.pending ∙ q.not_pending;
    }

    HasNone-mild : HasNone f → HasNone f'
    HasNone-mild n = m.current ∙ n

    IsSettled-mild : IsSettled f → IsSettled f'
    IsSettled-mild v a = m.was_created ∙ v (sym m.attempted ∙ a)

    IsHolding-mild : s ≢ wait_for_updated_bundle_retrieval → IsHolding f → IsHolding f'
    IsHolding-mild n h = record {
      bundle = h.bundle;
      current = m.current ∙ h.current;
      not_uploaded = h.not_uploaded;
      no_next = m.next n h.bundle h.current ∙ h.no_next;
    }

    IsUploaded-mild : s ≢ wait_for_updated_bundle_retrieval → IsUploaded f → IsUploaded f'
    IsUploaded-mild n h = record {
      bundle = h.bundle;
      current = m.current ∙ h.current;
      no_next = m.next n h.bundle h.current ∙ h.no_next;
    }

  IsSent-mild : (f f' : Fields j) → IsMild wait_for_upload_to_complete f f' → IsSent f → IsSent f'
  IsSent-mild f f' m h = record {
    bundle = h.bundle;
    current = m.current ∙ h.current;
    no_next = m.next (λ e. cc) h.bundle h.current ∙ h.no_next;
    well = λ i. m.well refl (h.well i);
  }

  pub Ready-mild :
      (s : State) (p : Phase) (f f' : Fields j) → IsMild s f f' → Ready s p f → Ready s p f'
  Ready-mild wait_for_connection rests f f' m (x, n, o, v) =
      (m.fresh x, HasNone-mild _ f f' m n, m.pending ∙ o, IsSettled-mild _ f f' m v)
  Ready-mild wait_for_connection (waits connection_ready) f f' m (q, n, v) =
      (IsQuiet-mild _ f f' m q, HasNone-mild _ f f' m n, IsSettled-mild _ f f' m v)
  Ready-mild wait_for_connection (due connection_ready) f f' m (q, n, v) =
      (IsQuiet-mild _ f f' m q, HasNone-mild _ f f' m n, IsSettled-mild _ f f' m v)
  Ready-mild wait_for_vault_description (waits vault_description_ready) f f' m (q, n, v) =
      (IsOpened-mild _ f f' m q, HasNone-mild _ f f' m n, IsSettled-mild _ f f' m v)
  Ready-mild wait_for_vault_description (due vault_description_ready) f f' m (q, n, v, x) =
      (IsQuiet-mild _ f f' m q, HasNone-mild _ f f' m n, IsSettled-mild _ f f' m v, m.found x)
  Ready-mild wait_for_vault_description (due connection_closed) f f' m (q, n, v, c) =
      (IsQuiet-mild _ f f' m q, HasNone-mild _ f f' m n, IsSettled-mild _ f f' m v, m.closed c)
  Ready-mild have_vault_description (due connection_closed) f f' m (q, n, v, c) =
      (IsQuiet-mild _ f f' m q, HasNone-mild _ f f' m n, IsSettled-mild _ f f' m v, m.closed c)
  Ready-mild have_vault_description (due vault_missing) f f' m (q, n, a) =
      (IsQuiet-mild _ f f' m q, HasNone-mild _ f f' m n, m.attempted ∙ a)
  Ready-mild have_vault_description (due vault_ok) f f' m q = IsQuiet-mild _ f f' m q
  Ready-mild wait_for_vault_creation (waits vault_created) f f' m (q, n) =
      (IsOpened-mild _ f f' m q, HasNone-mild _ f f' m n)
  Ready-mild wait_for_vault_creation (due vault_created) f f' m (q, n, c) =
      (IsQuiet-mild _ f f' m q, HasNone-mild _ f f' m n, m.was_created ∙ c)
  Ready-mild wait_for_vault_creation (due connection_closed) f f' m (q, n, v, c) =
      (IsQuiet-mild _ f f' m q, HasNone-mild _ f f' m n, IsSettled-mild _ f f' m v, m.closed c)
  Ready-mild ready_to_upload (due new_bundle_ready) f f' m (q, h) =
      (IsQuiet-mild _ f f' m q, IsHolding-mild _ f f' m (λ e. cc) h)
  Ready-mild ready_to_upload (due no_bundle_pending) f f' m q = IsQuiet-mild _ f f' m q
  Ready-mild ready_to_upload (due flush_forced) f f' m r = tt
  Ready-mild wait_for_new_bundle rests f f' m q = IsQuiet-mild _ f f' m q
  Ready-mild wait_for_upload_to_complete (due connection_closed) f f' m (q, h, c) =
      (IsQuiet-mild _ f f' m q, IsHolding-mild _ f f' m (λ e. cc) h, m.closed c)
  Ready-mild wait_for_upload_to_complete (waits upload_completed) f f' m (q, h) =
      (IsOpened-mild _ f f' m q, IsHolding-mild _ f f' m (λ e. cc) h)
  Ready-mild wait_for_upload_to_complete (due upload_completed) f f' m (q, h) =
      (IsQuiet-mild _ f f' m q, IsSent-mild f f' m h)
  Ready-mild wait_for_upload_to_record (waits upload_recorded) f f' m (q, h) =
      (IsQuiet-mild _ f f' m q, IsUploaded-mild _ f f' m (λ e. cc) h)
  Ready-mild wait_for_upload_to_record (due upload_recorded) f f' m (q, h) =
      (IsQuiet-mild _ f f' m q, IsUploaded-mild _ f f' m (λ e. cc) h)
  Ready-mild wait_for_upload_to_record (due connection_closed) f f' m (q, h, c) =
      (IsQuiet-mild _ f f' m q, IsHolding-mild _ f f' m (λ e. cc) h, m.closed c)
  Ready-mild wait_for_bundle_to_delete (due bundle_deleted) f f' m (q, h) =
      (IsQuiet-mild _ f f' m q, IsUploaded-mild _ f f' m (λ e. cc) h)
  Ready-mild wait_for_updated_bundle_retrieval rests f f' m q = IsQuiet-mild _ f f' m q
  Ready-mild wait_for_updated_bundle_retrieval (due updated_bundle_retrieved) f f' m q =
      IsQuiet-mild _ f f' m q
  Ready-mild done rests f f' m r = tt
  Ready-mild _ _ f f' m r = absurd r
