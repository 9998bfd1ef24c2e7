-- ===== src/BundleMachine/Steps.antt =====
-- state_machines/bundle-state-machine.cc: each handler, run on fields that are ready for it, passes
-- its assertions and leaves fields that are ready for the event that it causes.
use polar_express.Base.{
  ℕ, ◌≡◌, refl, sym, ap, subst, ◌∙◌, inl, Bool, true, false, ◌||◌, none, some, [], ◌∷◌, ◌++◌, arith,
  if◌then◌else◌,
}
use polar_express.StateMachine.{post, external}
use polar_express.StateMachine.Protocol.{caused}
use polar_express.BundleMachine.Table.{State, Event}
use polar_express.BundleMachine.Fields.{Services, Fields}
use polar_express.BundleMachine.Handlers.{
  member, next_chunk, load_snapshot, get_existing_bundle_info, inspect_existing_bundle_info,
  read_chunk_contents, hash_chunk_contents, reset_for_next_snapshot, is_assigned, notify_if,
  idle_unless_asked, snapshot_done_call,
}
use polar_express.BundleMachine.Ready.{
  Common, IsFilling, HasChunk, Leads, next_chunk-Leads, load_snapshot-Common,
}

module _ (s : Services) where
  -- The facts pass to fields that agree where the facts look.
  pub carry-Common :
      {f g : Fields s}
      → Common s f
      → g.chunk_bytes_pending ≡ f.chunk_bytes_pending
      → g.pending_chunks ≡ f.pending_chunks
      → g.cryptor ≡ f.cryptor
      → g.reader ≡ f.reader
      → Common s g
  carry-Common c n p k r = record {
    exact = rw (n, p) c.exact;
    has_cryptor = k ∙ c.has_cryptor;
    has_reader = rw (p, r) c.has_reader;
  }

  pub carry-Common-IsFilling :
      {f g : Fields s}
      → IsFilling s f
      → g.active_bundle ≡ f.active_bundle
      → g.generated_bundle ≡ f.generated_bundle
      → IsFilling s g
  carry-Common-IsFilling b a n = record {
    bundle = b.bundle;
    is_active = a ∙ b.is_active;
    not_final = b.not_final;
    none_generated = n ∙ b.none_generated;
  }

  pub carry-Common-HasChunk :
      {f g : Fields s}
      → HasChunk s f
      → g.active_chunk ≡ f.active_chunk
      → g.reader ≡ f.reader
      → HasChunk s g
  carry-Common-HasChunk h a r = record {
    chunk = h.chunk;
    path = h.path;
    is_active = a ∙ h.is_active;
    can_read = r ∙ h.can_read;
  }

  pub start_new_snapshot-Leads :
      (f : Fields s)
      → Common s f × IsFilling s f × (f.pending_chunks ≡ [])
      → Leads s State.have_chunks
          (some (next_chunk s (load_snapshot s f.pending_snapshot (record f { reader = none }))))
  start_new_snapshot-Leads f (c, b, e) =
      let g : Fields s = record f { reader = none } in
      let (c', b') =
        load_snapshot-Common s f.pending_snapshot g
          (record { exact = c.exact; has_cryptor = c.has_cryptor; has_reader = inl e })
          (carry-Common-IsFilling b refl refl) e in
      next_chunk-Leads s (load_snapshot s f.pending_snapshot g) c' b'

  pub idle_causes_nothing :
      (f : Fields s) (b : Bool) (n : ℕ) → caused (notify_if s b n ++ idle_unless_asked s f) ≡ []
  idle_causes_nothing f b n = ground arith

  pub reset_for_next_snapshot-Leads :
      (f : Fields s)
      → Common s f × IsFilling s f × (f.pending_chunks ≡ [])
      → Leads s State.wait_for_new_snapshot (reset_for_next_snapshot s f)
  unfolding reset_for_next_snapshot
  reset_for_next_snapshot-Leads f (c, b, e) = (
    record f { pending_snapshot = none },
    notify_if s f.snapshot_done_callback snapshot_done_call ++ idle_unless_asked s f,
    none,
    rw e,
    idle_causes_nothing f f.snapshot_done_callback snapshot_done_call,
    (carry-Common c refl refl refl refl, carry-Common-IsFilling b refl refl, e, refl),
  )

  pub get_existing_bundle_info-Leads :
      (f : Fields s)
      → Common s f × IsFilling s f × HasChunk s f
      → Leads s State.wait_for_existing_bundle_info (get_existing_bundle_info s f.active_chunk f)
  unfolding get_existing_bundle_info
  get_existing_bundle_info-Leads f (c, b, h) =
      subst (λ x. Leads s State.wait_for_existing_bundle_info (get_existing_bundle_info s x f))
        (sym h.is_active)
        (
          record f { existing = none },
          (if member h.chunk.block_id f.block_ids_in_active_bundle
              then post Event.existing_bundle_info_ready ∷ []
              else external Event.existing_bundle_info_ready ∷ []),
          some Event.existing_bundle_info_ready,
          refl,
          ground arith,
          (
            carry-Common c refl refl refl refl,
            carry-Common-IsFilling b refl refl,
            carry-Common-HasChunk h refl refl,
          ),
        )

  pub inspect_existing_bundle_info-Leads :
      (f : Fields s)
      → Common s f × IsFilling s f × HasChunk s f
      → Leads s State.have_existing_bundle_info (inspect_existing_bundle_info s f.active_chunk f)
  unfolding inspect_existing_bundle_info
  inspect_existing_bundle_info-Leads f (c, b, h) =
      subst (λ x. Leads s State.have_existing_bundle_info (inspect_existing_bundle_info s x f))
        (sym h.is_active)
        (split (is_assigned s f.existing || member h.chunk.block_id f.block_ids_in_active_bundle))
    where
      split :
          (known : Bool)
          → Leads s State.have_existing_bundle_info (
              some (
                f,
                (if known
                    then post Event.chunk_already_in_bundle ∷ []
                    else post Event.chunk_not_yet_in_bundle ∷ []),
              ))
      split true = (
        f,
        post Event.chunk_already_in_bundle ∷ [],
        some Event.chunk_already_in_bundle,
        refl,
        refl,
        (c, b),
      )
      split false = (
        f,
        post Event.chunk_not_yet_in_bundle ∷ [],
        some Event.chunk_not_yet_in_bundle,
        refl,
        refl,
        (c, b, h),
      )

  pub read_chunk_contents-Leads :
      (f : Fields s)
      → Common s f × IsFilling s f × HasChunk s f
      → Leads s State.wait_for_chunk_contents (read_chunk_contents s f.active_chunk f.reader f)
  unfolding read_chunk_contents
  read_chunk_contents-Leads f (c, b, h) = (
    record f { block_data = [] },
    external Event.chunk_contents_ready ∷ [],
    some Event.chunk_contents_ready,
    ap (λ x. read_chunk_contents s x f.reader f) h.is_active
        ∙ ap (λ x. read_chunk_contents s (some h.chunk) x f) h.can_read,
    refl,
    (
      carry-Common c refl refl refl refl,
      carry-Common-IsFilling b refl refl,
      carry-Common-HasChunk h refl refl,
    ),
  )

  pub hash_chunk_contents-Leads :
      (f : Fields s)
      → Common s f × IsFilling s f × HasChunk s f
      → Leads s State.have_chunk_contents (hash_chunk_contents s f.active_chunk f)
  unfolding hash_chunk_contents
  hash_chunk_contents-Leads f (c, b, h) = (
    record f { hash_is_valid = false },
    external Event.chunk_contents_hash_ready ∷ [],
    some Event.chunk_contents_hash_ready,
    ap (λ x. hash_chunk_contents s x f) h.is_active,
    refl,
    (
      carry-Common c refl refl refl refl,
      carry-Common-IsFilling b refl refl,
      carry-Common-HasChunk h refl refl,
    ),
  )

  pub inspect_chunk_contents-Leads :
      (f : Fields s) (valid : Bool)
      → Common s f × IsFilling s f × HasChunk s f
      → Leads s State.have_chunk_contents_and_hash_validity (
          some (
            f,
            (if valid
                then post Event.chunk_contents_hash_match ∷ []
                else post Event.chunk_contents_hash_mismatch ∷ []),
          ))
  inspect_chunk_contents-Leads f true (c, b, h) = (
    f,
    post Event.chunk_contents_hash_match ∷ [],
    some Event.chunk_contents_hash_match,
    refl,
    refl,
    (c, b, h),
  )
  inspect_chunk_contents-Leads f false (c, b, h) = (
    f,
    post Event.chunk_contents_hash_mismatch ∷ [],
    some Event.chunk_contents_hash_mismatch,
    refl,
    refl,
    (c, b),
  )
