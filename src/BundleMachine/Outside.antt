-- ===== src/BundleMachine/Outside.antt =====
-- state_machines/bundle-state-machine.cc: what the services and the owner may do, and what holds then.
use polar_express.Base.{
  ◌≡◌, refl, sym, ap, subst, ◌∙◌, Bool, true, Option, none, some, List, Bytes, some_inj,
}
use polar_express.StateMachine.{Command}
use polar_express.StateMachine.Protocol.{caused, opt_list}
use polar_express.BundleMachine.Table.{State, Event}
use polar_express.BundleMachine.Fields.{Snapshot, AnnotationId, Services, Fields}
use polar_express.BundleMachine.Handlers.{
  Reply, bundle_snapshot, continue, flush_current_bundle, finish_and_exit,
}
use polar_express.BundleMachine.Ready.{Ready}
use polar_express.BundleMachine.Steps.{carry-Common, carry-Common-IsFilling, carry-Common-HasChunk}

module _ (s : Services) where
  -- A service writes its result through the pointers that it was given.
  abbrev pub Served : Event → Fields s → Fields s → Type 0
  Served Event.existing_bundle_info_ready f g =
      (x : Option AnnotationId) × (g ≡ record f { existing = x })
  Served Event.chunk_contents_ready f g = (xs : Bytes) × (g ≡ record f { block_data = xs })
  Served Event.chunk_contents_hash_ready f g = (b : Bool) × (g ≡ record f { hash_is_valid = b })
  Served Event.compression_done f g = (xs : Bytes) × (g ≡ record f { compressed = xs })
  Served Event.encryption_done f g = (b : s.Bundle) × (g ≡ record f { generated_bundle = some b })
  Served Event.bundle_hashed f g = (b : s.Bundle) × (g ≡ record f { generated_bundle = some b })
  Served Event.bundle_recorded f g = (b : s.Bundle) × (g ≡ record f { generated_bundle = some b })
  Served Event.bundle_written f g = (b : s.Bundle) × (g ≡ record f { generated_bundle = some b })
  Served _ f g = ⊥

  pub served :
      (st : State) (e : Event) (f g : Fields s)
      → Ready s st (some e) f
      → Served e f g
      → Ready s st (some e) g
  served State.wait_for_existing_bundle_info Event.existing_bundle_info_ready f g (c, b, h)
        (x, is) =
      subst (Ready s State.wait_for_existing_bundle_info (some Event.existing_bundle_info_ready))
        (sym is)
        (
          carry-Common s c refl refl refl refl,
          carry-Common-IsFilling s b refl refl,
          carry-Common-HasChunk s h refl refl,
        )
  served _ Event.existing_bundle_info_ready f g r sv = absurd r
  served State.wait_for_chunk_contents Event.chunk_contents_ready f g (c, b, h) (x, is) =
      subst (Ready s State.wait_for_chunk_contents (some Event.chunk_contents_ready)) (sym is) (
        carry-Common s c refl refl refl refl,
        carry-Common-IsFilling s b refl refl,
        carry-Common-HasChunk s h refl refl,
      )
  served _ Event.chunk_contents_ready f g r sv = absurd r
  served State.have_chunk_contents Event.chunk_contents_hash_ready f g (c, b, h) (x, is) =
      subst (Ready s State.have_chunk_contents (some Event.chunk_contents_hash_ready)) (sym is) (
        carry-Common s c refl refl refl refl,
        carry-Common-IsFilling s b refl refl,
        carry-Common-HasChunk s h refl refl,
      )
  served _ Event.chunk_contents_hash_ready f g r sv = absurd r
  served State.wait_for_compression Event.compression_done f g (c, b, h) (x, is) =
      subst (Ready s State.wait_for_compression (some Event.compression_done)) (sym is) (
        carry-Common s c refl refl refl refl,
        carry-Common-IsFilling s b refl refl,
        carry-Common-HasChunk s h refl refl,
      )
  served _ Event.compression_done f g r sv = absurd r
  served State.wait_for_encryption Event.encryption_done f g (c, h) (x, is) =
      subst (Ready s State.wait_for_encryption (some Event.encryption_done)) (sym is) (
        carry-Common s c refl refl refl refl,
        record { bundle = x; is_generated = refl; none_active = h.none_active },
      )
  served _ Event.encryption_done f g r sv = absurd r
  served State.wait_for_bundle_hash Event.bundle_hashed f g (c, h) (x, is) =
      subst (Ready s State.wait_for_bundle_hash (some Event.bundle_hashed)) (sym is) (
        carry-Common s c refl refl refl refl,
        record { bundle = x; is_generated = refl; none_active = h.none_active },
      )
  served _ Event.bundle_hashed f g r sv = absurd r
  served State.wait_for_bundle_to_record Event.bundle_recorded f g (c, h) (x, is) =
      subst (Ready s State.wait_for_bundle_to_record (some Event.bundle_recorded)) (sym is) (
        carry-Common s c refl refl refl refl,
        record { bundle = x; is_generated = refl; none_active = h.none_active },
      )
  served _ Event.bundle_recorded f g r sv = absurd r
  served State.wait_for_bundle_to_write Event.bundle_written f g (c, h) (x, is) =
      subst (Ready s State.wait_for_bundle_to_write (some Event.bundle_written)) (sym is) (
        carry-Common s c refl refl refl refl,
        record { bundle = x; is_generated = refl; none_active = h.none_active },
      )
  served _ Event.bundle_written f g r sv = absurd r
  served _ Event.new_snapshot_ready f g r sv = absurd sv
  served _ Event.no_chunks_remaining f g r sv = absurd sv
  served _ Event.new_chunk_ready f g r sv = absurd sv
  served _ Event.chunk_already_in_bundle f g r sv = absurd sv
  served _ Event.chunk_not_yet_in_bundle f g r sv = absurd sv
  served _ Event.chunk_contents_hash_mismatch f g r sv = absurd sv
  served _ Event.chunk_contents_hash_match f g r sv = absurd sv
  served _ Event.max_bundle_size_not_reached f g r sv = absurd sv
  served _ Event.max_bundle_size_reached f g r sv = absurd sv
  served _ Event.bundle_empty f g r sv = absurd sv
  served _ Event.bundle_ready f g r sv = absurd sv
  served _ Event.continue_after_bundle_retrieved f g r sv = absurd sv
  served _ Event.flush_forced f g r sv = absurd sv

  -- The public methods, in the states in which their contracts allow them.
  pub data Call : State → Fields s → Fields s → List (Command Event) → Type 0 where
    snapshots :
        (p : Snapshot) (f g : Fields s) (cs : List (Command Event))
        → bundle_snapshot s p f.pending_snapshot f ≡ some (g, cs)
        → Call State.wait_for_new_snapshot f g cs
    continues :
        (f g : Fields s) (cs : List (Command Event))
        → continue s f.generated_bundle f ≡ some (g, cs)
        → Call State.wait_for_bundle_retrieval f g cs
    flushes :
        (f g : Fields s) (cs : List (Command Event))
        → flush_current_bundle s f ≡ some (g, cs)
        → Call State.wait_for_new_snapshot f g cs
    exits :
        (f g : Fields s) (cs : List (Command Event))
        → finish_and_exit s f ≡ some (g, cs)
        → Call State.wait_for_new_snapshot f g cs

  abbrev pub Caused : State → List (Command Event) → Fields s → Type 0
  Caused st cs g = (k : Option Event) × (caused cs ≡ opt_list k) × Ready s st k g

  of_reply :
      (st : State) (f g : Fields s) (cs ds : List (Command Event))
      → ◌≡◌ {A = Reply s} (some (f, cs)) (some (g, ds))
      → Caused st cs f
      → Caused st ds g
  of_reply st f g cs ds e c = subst (λ x. Caused st x.1 x.0) (some_inj e) c

  pub called :
      (st : State) (f g : Fields s) (cs : List (Command Event))
      → Ready s st none f
      → Call st f g cs
      → Caused st cs g
  unfolding bundle_snapshot continue flush_current_bundle finish_and_exit
  called st f g cs r (snapshots p _ _ _ e) =
      of_reply State.wait_for_new_snapshot (record f { pending_snapshot = some p }) g _ cs
        (ap (λ x. bundle_snapshot s p x f) (sym r.3) ∙ e)
        (
          some Event.new_snapshot_ready,
          refl,
          (carry-Common s r.0 refl refl refl refl, carry-Common-IsFilling s r.1 refl refl, r.2),
        )
  called st f g cs r (continues _ _ _ e) =
      of_reply State.wait_for_bundle_retrieval (record f { generated_bundle = none }) g _ cs
        (ap (λ x. continue s x f) (sym r.1.is_generated) ∙ e)
        (
          some Event.continue_after_bundle_retrieved,
          refl,
          (carry-Common s r.0 refl refl refl refl, r.1.none_active),
        )
  called st f g cs r (flushes _ _ _ e) =
      of_reply State.wait_for_new_snapshot (record f { flush_requested = true }) g _ cs e
        (
          some Event.flush_forced,
          refl,
          (carry-Common s r.0 refl refl refl refl, carry-Common-IsFilling s r.1 refl refl, r.2),
        )
  called st f g cs r (exits _ _ _ e) =
      of_reply State.wait_for_new_snapshot (record f { exit_requested = true }) g _ cs e
        (
          some Event.flush_forced,
          refl,
          (carry-Common s r.0 refl refl refl refl, carry-Common-IsFilling s r.1 refl refl, r.2),
        )
