-- ===== src/UploadMachine/Creation.antt =====
-- state_machines/upload-state-machine.cc: the steps that create a vault.
use polar_express.Base.{
  ◌≡◌, refl, ap, ◌∙◌, inl, inr, true, false, not, some, [], ◌∷◌, ◌++◌, if◌then◌else◌, ◌>>◌, assert,
  arith, Bool-cases,
}
use polar_express.StateMachine.{post, external}
use polar_express.GlacierConnection.{
  Settings, close, create_vault, vault_request, vault_path_prefix,
}
use polar_express.GlacierConnection.Pending.{has_strand-begin}
use polar_express.GlacierConnection.Unsent.{begin-starts}
use polar_express.GlacierConnection.Json.{Json}
use polar_express.Http.{put}
use polar_express.UploadMachine.{
  have_vault_description, wait_for_vault_creation, connection_closed, vault_missing, vault_created,
  creates_vault, row, Fields, has_failed,
}
use polar_express.UploadMachine.Handlers.{Result, handle, handle_create_vault_action}
use polar_express.UploadMachine.Ready.{IsQuiet, HasNone, IsStep, posting, awaiting}
use polar_express.UploadMachine.Steps.{asserted, closed-lem}

module _ (s : Settings) (j : Json) where
  create_vault-starts :
      (f : Fields j)
      → IsQuiet f
      → has_failed f.connection ≡ false
      → (create_vault s f.vault_name f.connection).0 ≡ true
  unfolding create_vault
  create_vault-starts f q e =
      ap (λ x. x.0)
        (begin-starts s false (vault_request s put (vault_path_prefix ++ f.vault_name)) [] []
          f.connection (ground (arith, e)) q.not_pending refl)

  create_vault-keeps :
      (f : Fields j) → IsQuiet f → (create_vault s f.vault_name f.connection).1.has_strand ≡ true
  unfolding create_vault
  create_vault-keeps f q =
      has_strand-begin s false (vault_request s put (vault_path_prefix ++ f.vault_name)) [] []
        f.connection
      ∙ q.opened.has_strand

  create_vault_action-open :
      (f : Fields j)
      → has_failed f.connection ≡ false
      → f.attempted_vault_creation ≡ false
      → (create_vault s f.vault_name f.connection).0 ≡ true
      → handle_create_vault_action s j f
        ≡ some (
          record f {
            attempted_vault_creation = true;
            connection = (create_vault s f.vault_name f.connection).1;
          },
          external vault_created ∷ [],
        )
  unfolding handle_create_vault_action
  create_vault_action-open f e a d =
      ap
        (λ x.
          if x
          then some (record f { connection = close f.connection }, post connection_closed ∷ [])
          else asked)
        e
      ∙ asserted s j _ _ (ap not a) d
    where
      asked : Result s j
      asked =
          assert (not f.attempted_vault_creation)
          >> (assert (create_vault s f.vault_name f.connection).0
              >> some (
                record f {
                  attempted_vault_creation = true;
                  connection = (create_vault s f.vault_name f.connection).1;
                },
                external vault_created ∷ [],
              ))

  create_vault_action-failed :
      (f : Fields j)
      → has_failed f.connection ≡ true
      → handle_create_vault_action s j f
        ≡ some (record f { connection = close f.connection }, post connection_closed ∷ [])
  unfolding handle_create_vault_action
  create_vault_action-failed f e = ground (arith, e)

  pub step-create_vault :
      (f : Fields j)
      → IsQuiet f × HasNone f × (f.attempted_vault_creation ≡ false)
      → IsStep s j have_vault_description vault_missing f
  unfolding handle row
  step-create_vault f (q, n, a) = elim (Bool-cases (has_failed f.connection)) [
    | inl e ↦
        posting s j {to = wait_for_vault_creation} {x = connection_closed}
          {after = record f { connection = close f.connection }} {action = creates_vault} refl
          (create_vault_action-failed f e) ((closed-lem s j f q, n, (λ h. cc), refl)) tt
    | inr e ↦
        awaiting s j {to = wait_for_vault_creation} {x = vault_created}
          {after = record f {
            attempted_vault_creation = true;
            connection = (create_vault s f.vault_name f.connection).1;
          }}
          {action = creates_vault} refl (create_vault_action-open f e a (create_vault-starts f q e))
          ((record { has_strand = create_vault-keeps f q; fresh = q.opened.fresh }, n)) tt
  ]
