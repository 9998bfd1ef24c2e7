-- ===== src/UploadMachine/Ready.antt =====
-- state_machines/upload-state-machine.cc: what holds of the fields in each state, and that each
-- handler's assertions hold there.

use polar_express.Base.{◌≡◌, ◌≢◌, refl, true, false, Option, none, some, List, [], ◌∷◌}
use polar_express.StateMachine.{Command, post, external}
use polar_express.StateMachine.Guide.{posted, awaited}
use polar_express.GlacierConnection.{Settings}
use polar_express.GlacierConnection.Json.{Json}
use polar_express.UploadMachine.{
  State, wait_for_connection, wait_for_vault_description, have_vault_description,
  wait_for_vault_creation, wait_for_new_bundle, ready_to_upload, wait_for_upload_to_complete,
  wait_for_upload_to_record, wait_for_bundle_to_delete, wait_for_updated_bundle_retrieval, done,
  Event, connection_ready, connection_closed, vault_description_ready, vault_missing, vault_created,
  vault_ok, new_bundle_ready, no_bundle_pending, upload_completed, upload_recorded, bundle_deleted,
  updated_bundle_retrieved, flush_forced, Action, row, BundleData, Fields, has_failed,
}
use polar_express.UploadMachine.Handlers.{handle}
use polar_express.UploadMachine.Phase.{
  Phase, rests, waits, due, queued, outstanding_of, is_no_bundle,
}

-- A bundle that waits has not been uploaded.
abbrev pub IsFresh : Option BundleData → Type 0
IsFresh none = Unit
IsFresh (some b) = b.server_bundle_id ≡ []

module _ {j : Json} where
  pub record IsOpened (f : Fields j) : Type 0 where
    pub has_strand : f.connection.has_strand ≡ true
    pub fresh : IsFresh f.next_bundle

  -- No operation of the connection is pending.
  pub record IsQuiet (f : Fields j) : Type 0 where
    pub opened : IsOpened f
    pub not_pending : f.connection.operation_pending ≡ false

  abbrev pub IsClosed : Fields j → Type 0
  IsClosed f = f.connection.is_open ≡ false

  abbrev pub HasNone : Fields j → Type 0
  HasNone f = f.current_bundle ≡ none

  -- A vault that the machine tried to create has been created.
  abbrev pub IsSettled : Fields j → Type 0
  IsSettled f = f.attempted_vault_creation ≡ true → f.vault_was_created ≡ true

  -- A vault that was created is the one that is described.
  abbrev pub IsFound : Fields j → Type 0
  IsFound f =
      f.vault_was_created ≡ true
      → f.connection.is_open ≡ true
      → f.connection.last_request_succeeded ≡ true
      → f.vault_description.vault_name ≡ f.vault_name

  -- The bundle under way, which is not uploaded yet.
  pub record IsHolding (f : Fields j) : Type 0 where
    pub bundle : BundleData
    pub current : f.current_bundle ≡ some bundle
    pub not_uploaded : bundle.server_bundle_id ≡ []
    pub no_next : f.next_bundle ≡ none

  -- The bundle that was sent: if it has an id, the connection is well.
  pub record IsSent (f : Fields j) : Type 0 where
    pub bundle : BundleData
    pub current : f.current_bundle ≡ some bundle
    pub no_next : f.next_bundle ≡ none
    pub well : bundle.server_bundle_id ≢ [] → has_failed f.connection ≡ false

  pub record IsUploaded (f : Fields j) : Type 0 where
    pub bundle : BundleData
    pub current : f.current_bundle ≡ some bundle
    pub no_next : f.next_bundle ≡ none

  -- No bundle and no request to exit is there.
  abbrev pub IsCalm : Fields j → Type 0
  IsCalm f = (f.next_bundle ≡ none) × (f.exit_requested ≡ false)

  -- What holds in a state while something is under way; ⊥ where that does not happen.
  abbrev pub Ready : State → Phase → Fields j → Type 0
  Ready wait_for_connection rests f =
      IsFresh f.next_bundle × HasNone f × (f.connection.operation_pending ≡ false) × IsSettled f
  Ready wait_for_connection (waits connection_ready) f = IsQuiet f × HasNone f × IsSettled f
  Ready wait_for_connection (due connection_ready) f = IsQuiet f × HasNone f × IsSettled f
  Ready wait_for_vault_description (waits vault_description_ready) f =
      IsOpened f × HasNone f × IsSettled f
  Ready wait_for_vault_description (due vault_description_ready) f =
      IsQuiet f × HasNone f × IsSettled f × IsFound f
  Ready wait_for_vault_description (due connection_closed) f =
      IsQuiet f × HasNone f × IsSettled f × IsClosed f
  Ready have_vault_description (due connection_closed) f =
      IsQuiet f × HasNone f × IsSettled f × IsClosed f
  Ready have_vault_description (due vault_missing) f =
      IsQuiet f × HasNone f × (f.attempted_vault_creation ≡ false)
  Ready have_vault_description (due vault_ok) f = IsQuiet f
  Ready wait_for_vault_creation (waits vault_created) f = IsOpened f × HasNone f
  Ready wait_for_vault_creation (due vault_created) f =
      IsQuiet f × HasNone f × (f.vault_was_created ≡ true)
  Ready wait_for_vault_creation (due connection_closed) f =
      IsQuiet f × HasNone f × IsSettled f × IsClosed f
  Ready ready_to_upload (due new_bundle_ready) f = IsQuiet f × IsHolding f
  Ready ready_to_upload (due no_bundle_pending) f = IsQuiet f
  Ready ready_to_upload (due flush_forced) f = Unit
  Ready wait_for_new_bundle rests f = IsQuiet f
  Ready wait_for_upload_to_complete (due connection_closed) f = IsQuiet f × IsHolding f × IsClosed f
  Ready wait_for_upload_to_complete (waits upload_completed) f = IsOpened f × IsHolding f
  Ready wait_for_upload_to_complete (due upload_completed) f = IsQuiet f × IsSent f
  Ready wait_for_upload_to_record (waits upload_recorded) f = IsQuiet f × IsUploaded f
  Ready wait_for_upload_to_record (due upload_recorded) f = IsQuiet f × IsUploaded f
  Ready wait_for_upload_to_record (due connection_closed) f = IsQuiet f × IsHolding f × IsClosed f
  Ready wait_for_bundle_to_delete (due bundle_deleted) f = IsQuiet f × IsUploaded f
  Ready wait_for_updated_bundle_retrieval rests f = IsQuiet f
  Ready wait_for_updated_bundle_retrieval (due updated_bundle_retrieved) f = IsQuiet f
  Ready done rests f = Unit
  Ready _ _ f = ⊥

  -- How the wait for a bundle begins: with a step that saw none, and no request to exit.
  abbrev pub Wakes : State → Phase → Fields j → Event → Fields j → Type 0
  Wakes wait_for_new_bundle p f' e f = (p ≡ rests) × (is_no_bundle e ≡ true) × (f' ≡ f)
  Wakes ready_to_upload (due x) f' e f = is_no_bundle x ≡ true → IsCalm f'
  Wakes s p f' e f = Unit

module _ (s : Settings) (j : Json) where
  -- A step of the machine, from one state and phase to the next.
  pub record IsStep (from : State) (e : Event) (f : Fields j) : Type 0 where
    pub action : Action
    pub to : State
    pub after : Fields j
    pub commands : List (Command Event)
    pub phase : Phase
    pub row_is : row from e ≡ some (action, to)
    pub handle_is : handle s j action f ≡ some (after, commands)
    pub posts : posted commands ≡ queued phase
    pub awaits : awaited commands ≡ outstanding_of phase
    pub is_ready : Ready to phase after
    pub wakes : Wakes to phase after e f

  -- A step that posts its event.
  pub posting :
      {from to : State} {e x : Event} {f after : Fields j} {action : Action}
      → row from e ≡ some (action, to)
      → handle s j action f ≡ some (after, post x ∷ [])
      → Ready to (due x) after
      → Wakes to (due x) after e f
      → IsStep from e f
  posting {to = to} {x = x} {after = after} {action = action} r h ready wakes = record {
    action = action;
    to = to;
    after = after;
    commands = post x ∷ [];
    phase = due x;
    row_is = r;
    handle_is = h;
    posts = refl;
    awaits = refl;
    is_ready = ready;
    wakes = wakes;
  }

  -- A step that waits for its event.
  pub awaiting :
      {from to : State} {e x : Event} {f after : Fields j} {action : Action}
      → row from e ≡ some (action, to)
      → handle s j action f ≡ some (after, external x ∷ [])
      → Ready to (waits x) after
      → Wakes to (waits x) after e f
      → IsStep from e f
  awaiting {to = to} {x = x} {after = after} {action = action} r h ready wakes = record {
    action = action;
    to = to;
    after = after;
    commands = external x ∷ [];
    phase = waits x;
    row_is = r;
    handle_is = h;
    posts = refl;
    awaits = refl;
    is_ready = ready;
    wakes = wakes;
  }
