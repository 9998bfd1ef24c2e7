-- ===== src/UploadMachine/Outside.antt =====
-- state_machines/upload-state-machine.cc: what services, the owner and the network may do, and that
-- what holds of the fields is kept.
use polar_express.Base.{
  ◌≡◌, refl, sym, subst, ◌∙◌, ◌≢◌, Bool, true, false, some, List, [], Bytes, some_inj,
}
use polar_express.Http.{HttpResponse}
use polar_express.GlacierConnection.{Connection}
use polar_express.GlacierConnection.Json.{Json, VaultDescription}
use polar_express.GlacierConnection.Handlers.{
  handle_describe_vault, handle_create_vault, handle_upload_archive,
}
use polar_express.GlacierConnection.Responses.{
  IsEnded, handle_describe_vault_lem, handle_flags_lem, handle_upload_archive_lem,
}
use polar_express.UploadMachine.{
  State, wait_for_connection, wait_for_vault_description, wait_for_vault_creation,
  wait_for_upload_to_complete, wait_for_upload_to_record, Event, connection_ready,
  vault_description_ready, vault_created, upload_completed, upload_recorded, BundleData, Fields,
}
use polar_express.UploadMachine.Phase.{waits, due, is_note, unannounced}
use polar_express.UploadMachine.Ready.{Ready}

-- The connection when a response, or a failure, has come.
abbrev pub answered : Bool → Bool → HttpResponse × Bytes → Connection → Connection
answered opened succeeded r c = record c {
  is_open = opened;
  last_request_succeeded = succeeded;
  response = some r;
}

-- What the end of an operation leaves of the connection.
abbrev EndsAs : Connection → Bool → Bool → Connection → Type 0
EndsAs before o l c =
    (c.operation_pending ≡ false)
    × (c.is_open ≡ o)
    × (c.last_request_succeeded ≡ l)
    × (c.has_strand ≡ before.has_strand)

IsEnded-EndsAs :
    (c c' : Connection) (o l : Bool) (r : HttpResponse × Bytes)
    → IsEnded (answered o l r c) c'
    → EndsAs c o l c'
IsEnded-EndsAs c c' o l r e = (e.not_pending, e.still_open, e.same_request, e.same_strand)

module _ {j : Json} where
  -- What a service does before it invokes the callback. The vault that was created is described by
  -- its name, a vault's creation succeeds, and an id comes over an open connection.
  abbrev pub Served : Event → Fields j → Fields j → Type 0
  Served connection_ready f f' =
      (o : Bool) × (f' ≡ record f { connection = record f.connection { is_open = o } })
  Served vault_description_ready f f' =
      (o l : Bool) × (r : HttpResponse × Bytes) × (out : Connection × VaultDescription j)
      × (handle_describe_vault j f.vault_description (answered o l r f.connection) ≡ some out)
      × (f.vault_was_created ≡ true → o ≡ true → l ≡ true → out.1.vault_name ≡ f.vault_name)
      × (f' ≡ record f { connection = out.0; vault_description = out.1 })
  Served vault_created f f' =
      (o l : Bool) × (r : HttpResponse × Bytes) × (c : Connection) × (handle_create_vault
          (answered o l r f.connection)
        ≡ some (c, true))
      × (f' ≡ record f { connection = c; vault_was_created = true })
  Served upload_completed f f' =
      (o l : Bool) × (r : HttpResponse × Bytes) × (out : Connection × Bytes) × (b : BundleData)
      × (f.current_bundle ≡ some b)
      × (handle_upload_archive (answered o l r f.connection) ≡ some out)
      × (out.1 ≢ [] → o ≡ true)
      × (f' ≡ record f {
        connection = out.0;
        current_bundle = some (record b { server_bundle_id = out.1 });
      })
  Served upload_recorded f f' = f' ≡ f
  Served _ f f' = ⊥

  described_ends :
      (f : Fields j) (o l : Bool) (r : HttpResponse × Bytes) (out : Connection × VaultDescription j)
      → handle_describe_vault j f.vault_description (answered o l r f.connection) ≡ some out
      → EndsAs f.connection o l out.0
  described_ends f o l (r, p) out h =
      let (x, e, (ended, k)) =
        handle_describe_vault_lem j f.vault_description (answered o l (r, p) f.connection) r p
          refl in
      subst (λ y. EndsAs f.connection o l y.0) (some_inj (sym e ∙ h))
        (IsEnded-EndsAs f.connection x.0 o l (r, p) ended)

  created_ends :
      (f : Fields j) (o l : Bool) (r : HttpResponse × Bytes) (out : Connection × Bool)
      → handle_create_vault (answered o l r f.connection) ≡ some out
      → EndsAs f.connection o l out.0
  created_ends f o l (r, p) out h =
      let ((c, b, e, ended, k, _), _, _) =
        handle_flags_lem (answered o l (r, p) f.connection) r p refl in
      subst (λ y. EndsAs f.connection o l y.0) (some_inj (sym e ∙ h))
        (IsEnded-EndsAs f.connection c o l (r, p) ended)

  -- An id comes only with a request that succeeded.
  uploaded_ends :
      (f : Fields j) (o l : Bool) (r : HttpResponse × Bytes) (out : Connection × Bytes)
      → handle_upload_archive (answered o l r f.connection) ≡ some out
      → EndsAs f.connection o l out.0 × (out.1 ≢ [] → l ≡ true)
  uploaded_ends f o l (r, p) out h =
      let (c, id, e, ended, succeeded, given) =
        handle_upload_archive_lem (answered o l (r, p) f.connection) r p refl in
      subst (λ y. EndsAs f.connection o l y.0 × (y.1 ≢ [] → l ≡ true)) (some_inj (sym e ∙ h))
        (IsEnded-EndsAs f.connection c o l (r, p) ended, λ n. ((given id n).0 refl).0)

  -- A service's work leads from the wait for its callback to the queued event.
  pub Served-Ready :
      (s : State) (e : Event) (f f' : Fields j)
      → Ready s (waits e) f
      → Served e f f'
      → Ready s (due e) f'
  Served-Ready wait_for_connection connection_ready f f' (q, n, v) (o, is) =
      subst (λ x. Ready wait_for_connection (due connection_ready) x) (sym is)
        (
          record {
            opened = record { has_strand = q.opened.has_strand; fresh = q.opened.fresh };
            not_pending = q.not_pending;
          },
          n,
          v,
        )
  Served-Ready wait_for_vault_description vault_description_ready f f' (q, n, v)
        (o, l, r, out, h, named, is) =
      let (pending, open', succeeded, strand) = described_ends f o l r out h in
      subst (λ x. Ready wait_for_vault_description (due vault_description_ready) x) (sym is)
        (
          record {
            opened = record { has_strand = strand ∙ q.has_strand; fresh = q.fresh };
            not_pending = pending;
          },
          n,
          v,
          λ c i t. named c (sym open' ∙ i) (sym succeeded ∙ t),
        )
  Served-Ready wait_for_vault_creation vault_created f f' (q, n) (o, l, r, c, h, is) =
      let (pending, open', succeeded, strand) = created_ends f o l r (c, true) h in
      subst (λ x. Ready wait_for_vault_creation (due vault_created) x) (sym is)
        (
          record {
            opened = record { has_strand = strand ∙ q.has_strand; fresh = q.fresh };
            not_pending = pending;
          },
          n,
          refl,
        )
  Served-Ready wait_for_upload_to_complete upload_completed f f' (q, k)
        (o, l, r, out, b, at, h, well, is) =
      let ((pending, open', succeeded, strand), sure) = uploaded_ends f o l r out h in
      subst (λ x. Ready wait_for_upload_to_complete (due upload_completed) x) (sym is)
        (
          record {
            opened = record { has_strand = strand ∙ q.has_strand; fresh = q.fresh };
            not_pending = pending;
          },
          record {
            bundle = record b { server_bundle_id = out.1 };
            current = refl;
            no_next = k.no_next;
            well = λ i. rw (open', succeeded, well i, sure i) refl;
          },
        )
  Served-Ready wait_for_upload_to_record upload_recorded f f' r is =
      subst (λ x. Ready wait_for_upload_to_record (due upload_recorded) x) (sym is) r
  Served-Ready _ _ f f' r h = absurd r

  -- A callback that the machine waits for is no note, and the machine does not wait for a bundle.
  pub waits-Ready :
      (s : State) (e : Event) (f : Fields j)
      → Ready s (waits e) f
      → (is_note e ≡ false) × ((es : List Event) → unannounced s es ≡ false)
  waits-Ready wait_for_connection connection_ready f r = (refl, λ _. refl)
  waits-Ready wait_for_vault_description vault_description_ready f r = (refl, λ _. refl)
  waits-Ready wait_for_vault_creation vault_created f r = (refl, λ _. refl)
  waits-Ready wait_for_upload_to_complete upload_completed f r = (refl, λ _. refl)
  waits-Ready wait_for_upload_to_record upload_recorded f r = (refl, λ _. refl)
  waits-Ready _ _ f r = absurd r
