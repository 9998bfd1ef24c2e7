-- ===== src/UploadMachine/Held.antt =====
-- state_machines/upload-state-machine.h and .cc on the engine: what each event and each callback do to
-- the queue.
use polar_express.Base.{
  ◌≡◌, refl, sym, ap, subst, ◌∙◌, ◌≢◌, ◌⊎◌, inl, inr, Bool, true, false, not, none, some, List, [],
  ◌∷◌, ◌++◌, Bytes, arith, Bool-cases, append-nil,
}
use polar_express.StateMachine.{Command}
use polar_express.StateMachine.Guide.{posted, awaited}
use polar_express.GlacierConnection.{Settings}
use polar_express.GlacierConnection.Json.{Json}
use polar_express.UploadMachine.{
  State, wait_for_connection, wait_for_new_bundle, ready_to_upload, wait_for_upload_to_complete,
  wait_for_updated_bundle_retrieval, Event, connection_ready, wait_for_vault_description,
  have_vault_description, wait_for_vault_creation, wait_for_upload_to_record,
  wait_for_bundle_to_delete, connection_closed, vault_description_ready, vault_missing,
  vault_created, vault_ok, new_bundle_ready, upload_completed, upload_recorded, bundle_deleted,
  flush_forced, no_bundle_pending, updated_bundle_retrieved, BundleData, Fields,
}
use polar_express.UploadMachine.Handlers.{
  upload_bundle, finish_and_exit, retrieve_last_uploaded_bundle, internal_start,
}
use polar_express.UploadMachine.Phase.{
  Phase, rests, waits, due, mains, queued, outstanding_of, is_note, is_no_bundle, unannounced,
  mains-append, announced_after-other,
}
use polar_express.UploadMachine.Ready.{Ready, IsCalm, IsStep, Wakes}

module _ (s : Settings) (j : Json) where
  -- One event drives the machine, the rest of the queue is notes, and a machine that waits for a
  -- bundle without a note has none, and no request to exit.
  pub record Holds (st : State) (es os : List Event) (f : Fields j) : Type 0 where
    pub phase : Phase
    pub in_queue : mains es ≡ queued phase
    pub outside : os ≡ outstanding_of phase
    pub is_ready : Ready st phase f
    pub awake : unannounced st es ≡ true → IsCalm f

  -- What the owner may do: start the machine once, give a bundle that has not been uploaded while no
  -- bundle is there or the last one waits to be retrieved, ask for the exit, and retrieve a bundle
  -- once. The connection may be lost, except while an upload that succeeded is reported.
  pub data Call : State → List Event → Fields j → Fields j → List (Command Event) → Type 0 where
    starts :
        {es : List Event} {f f' : Fields j} {cs : List (Command Event)} (name : Bytes)
        → f.connection.has_strand ≡ false
        → internal_start s j name f ≡ some (f', cs)
        → Call wait_for_connection es f f' cs
    uploads :
        {st : State} {es : List Event} {f f' : Fields j} {cs : List (Command Event)}
        (b : BundleData)
        → b.server_bundle_id ≡ []
        → (f.current_bundle ≡ none) ⊎ (st ≡ wait_for_updated_bundle_retrieval)
        → upload_bundle s j b f ≡ some (f', cs)
        → Call st es f f' cs
    finishes :
        {st : State} {es : List Event} {f f' : Fields j} {cs : List (Command Event)}
        → finish_and_exit s j f ≡ some (f', cs)
        → Call st es f f' cs
    retrieves :
        {es : List Event} {f f' : Fields j} {cs : List (Command Event)}
        → mains es ≡ []
        → (retrieve_last_uploaded_bundle s j f).1 ≡ some (f', cs)
        → Call wait_for_updated_bundle_retrieval es f f' cs
    drops :
        {st : State} {es : List Event} {f f' : Fields j} {cs : List (Command Event)}
        → st ≢ wait_for_upload_to_complete
        → f' ≡ record f { connection = record f.connection { is_open = false } }
        → cs ≡ []
        → Call st es f f' cs

  awake-step :
      (from : State) (e : Event) (es ps : List Event) (f : Fields j) (to : State) (p : Phase)
      (after : Fields j)
      → mains es ≡ []
      → (unannounced from (e ∷ es) ≡ true → IsCalm f)
      → (is_no_bundle e ≡ true → from ≡ ready_to_upload)
      → ps ≡ queued p
      → Ready to p after
      → Wakes to p after e f
      → unannounced to (es ++ ps) ≡ true
      → IsCalm after
  awake-step from e es ps f wait_for_new_bundle p after m w at q r (k, n, same) u =
      subst IsCalm (sym same) (
        w (
          subst (λ x. unannounced x (e ∷ es) ≡ true) (sym (at n))
            (rw n (
              subst (λ x. unannounced wait_for_new_bundle x ≡ true)
                (ap (◌++◌ es) (q ∙ ap queued k) ∙ append-nil es) u))))
  awake-step from e es ps f ready_to_upload (due x) after m w at q r k u =
      elim (Bool-cases (is_no_bundle x)) [
        | inl n ↦ k n
        | inr n ↦ absurd (
            not_false (
              sym u
              ∙ ap (unannounced ready_to_upload) (ap (◌++◌ es) q)
              ∙ ap not (announced_after-other es x m n)))
      ]
    where
      not_false : ◌≡◌ {A = Bool} true false → ⊥
      not_false h = cc
  awake-step from e es ps f ready_to_upload rests after m w at q r k u = absurd r
  awake-step from e es ps f ready_to_upload (waits x) after m w at q r k u = absurd r
  awake-step from e es ps f _ p after m w at q r k u = cc

  pub due-Ready :
      (st : State) (e : Event) (f : Fields j)
      → Ready st (due e) f
      → (is_note e ≡ false) × (is_no_bundle e ≡ true → st ≡ ready_to_upload)
  due-Ready wait_for_connection connection_ready f r = (refl, λ h. cc)
  due-Ready wait_for_vault_description connection_closed f r = (refl, λ h. cc)
  due-Ready wait_for_vault_description vault_description_ready f r = (refl, λ h. cc)
  due-Ready have_vault_description connection_closed f r = (refl, λ h. cc)
  due-Ready have_vault_description vault_missing f r = (refl, λ h. cc)
  due-Ready have_vault_description vault_ok f r = (refl, λ h. cc)
  due-Ready wait_for_vault_creation connection_closed f r = (refl, λ h. cc)
  due-Ready wait_for_vault_creation vault_created f r = (refl, λ h. cc)
  due-Ready ready_to_upload new_bundle_ready f r = (refl, λ h. cc)
  due-Ready ready_to_upload no_bundle_pending f r = (refl, λ h. refl)
  due-Ready ready_to_upload flush_forced f r = (refl, λ h. cc)
  due-Ready wait_for_upload_to_complete connection_closed f r = (refl, λ h. cc)
  due-Ready wait_for_upload_to_complete upload_completed f r = (refl, λ h. cc)
  due-Ready wait_for_upload_to_record connection_closed f r = (refl, λ h. cc)
  due-Ready wait_for_upload_to_record upload_recorded f r = (refl, λ h. cc)
  due-Ready wait_for_bundle_to_delete bundle_deleted f r = (refl, λ h. cc)
  due-Ready wait_for_updated_bundle_retrieval updated_bundle_retrieved f r = (refl, λ h. cc)
  due-Ready _ _ f r = absurd r

  mains-queued :
      (st : State) (p : Phase) (f : Fields j) → Ready st p f → mains (queued p) ≡ queued p
  mains-queued st rests f r = refl
  mains-queued st (waits e) f r = refl
  mains-queued st (due e) f r = let (n, k) = due-Ready st e f r in ground (arith, n)

  -- A step leads to what the guide asks for.
  pub after_step :
      (from : State) (e : Event) (es : List Event) (f : Fields j)
      → mains es ≡ []
      → (unannounced from (e ∷ es) ≡ true → IsCalm f)
      → (is_no_bundle e ≡ true → from ≡ ready_to_upload)
      → (t : IsStep s j from e f)
      → Holds t.to (es ++ posted t.commands) ([] ++ awaited t.commands) t.after
  after_step from e es f m w at t = record {
    phase = t.phase;
    in_queue =
        mains-append es (posted t.commands)
        ∙ ap (λ x. x ++ mains (posted t.commands)) m
        ∙ ap mains t.posts
        ∙ mains-queued t.to t.phase t.after t.is_ready;
    outside = t.awaits;
    is_ready = t.is_ready;
    awake =
        awake-step from e es (posted t.commands) f t.to t.phase t.after m w at t.posts t.is_ready
          t.wakes;
  }
