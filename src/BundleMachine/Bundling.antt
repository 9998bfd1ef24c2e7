-- ===== src/BundleMachine/Bundling.antt =====
-- state_machines/bundle-state-machine.cc: the handlers that fill, finish and hand over a bundle.
use polar_express.Base.{
  ◌≡◌, refl, sym, ap, subst, ◌∙◌, inl, inr, Bool, true, false, none, some, [], ◌∷◌, leb, ltb, ◌==◌,
  if◌then◌else◌, Bool-cases,
}
use polar_express.StateMachine.{post, external}
use polar_express.BundleMachine.Table.{State, Event}
use polar_express.BundleMachine.Fields.{Services, Fields}
use polar_express.BundleMachine.Handlers.{
  finish_chunk, finalize_bundle, reset_for_next_bundle, start_if_none, bundle_made, annotated,
  with_generated,
}
use polar_express.BundleMachine.Ready.{
  Common, IsFilling, HasChunk, HasBundle, Ready, Leads, next_chunk-Leads,
}
use polar_express.BundleMachine.Steps.{carry-Common}

module _ (s : Services) where
  start_if_none-open :
      (b : s.Bundle) → s.is_finalized b ≡ false → s.is_finalized (start_if_none s b) ≡ false
  start_if_none-open b e = elim (Bool-cases (s.payloads_size b == 0)) [
    | inl h ↦ rw h (s.start_open b ∙ e)
    | inr h ↦ rw h e
  ]

  pub finish_chunk-Leads :
      (f : Fields s)
      → Common s f × IsFilling s f × HasChunk s f
      → Leads s State.chunk_finished (finish_chunk s f.active_chunk f.active_bundle f)
  unfolding finish_chunk
  finish_chunk-Leads f (c, b, h) =
      subst (λ x. Leads s State.chunk_finished (finish_chunk s x f.active_bundle f))
        (sym h.is_active)
        (subst (λ x. Leads s State.chunk_finished (finish_chunk s (some h.chunk) x f))
          (sym b.is_active) (rw b.not_final (choose (leb s.max_bundle_size (s.size filled)))))
    where
      filled : s.Bundle
      filled =
          s.append_block_contents f.compressed
            (s.add_block_metadata h.chunk (start_if_none s b.bundle))

      g : Fields s
      g = record f {
        block_data = [];
        block_ids_in_active_bundle = h.chunk.block_id ∷ f.block_ids_in_active_bundle;
        active_bundle = some filled;
        compressed = [];
      }

      filling : IsFilling s g
      filling = record {
        bundle = filled;
        is_active = refl;
        not_final =
            s.append_open f.compressed _
            ∙ s.add_open h.chunk _
            ∙ start_if_none-open b.bundle b.not_final;
        none_generated = b.none_generated;
      }

      choose :
          (full : Bool)
          → Leads s State.chunk_finished (
              some (
                g,
                (if full
                    then post Event.max_bundle_size_reached ∷ []
                    else post Event.max_bundle_size_not_reached ∷ []),
              ))
      choose true = (
        g,
        post Event.max_bundle_size_reached ∷ [],
        some Event.max_bundle_size_reached,
        refl,
        refl,
        (carry-Common s c refl refl refl refl, filling),
      )
      choose false = (
        g,
        post Event.max_bundle_size_not_reached ∷ [],
        some Event.max_bundle_size_not_reached,
        refl,
        refl,
        (carry-Common s c refl refl refl refl, filling),
      )

  pub finalize_bundle-Leads :
      (f : Fields s)
      → Common s f × IsFilling s f
      → Leads s State.have_bundle (finalize_bundle s f.active_bundle f.generated_bundle f)
  unfolding finalize_bundle
  finalize_bundle-Leads f (c, b) =
      subst (λ x. Leads s State.have_bundle (finalize_bundle s x f.generated_bundle f))
        (sym b.is_active)
        (subst (λ x. Leads s State.have_bundle (finalize_bundle s (some b.bundle) x f))
          (sym b.none_generated) (rw b.not_final (choose (s.payloads_size b.bundle == 0))))
    where
      b' : s.Bundle
      b' = s.append_block_contents (s.finalize_compression f.compressed) b.bundle

      last : Fields s
      last = record f { active_bundle = some b'; compressed = [] }

      made : Fields s
      made = record f {
        generated_bundle = some (s.finalize b');
        active_bundle = none;
        block_ids_in_active_bundle = [];
        compressed = [];
      }

      some_data :
          (any : Bool)
          → Leads s State.have_bundle (
              if any
              then bundle_made s f (annotated s (s.finalize b'))
              else some (last, post Event.bundle_empty ∷ []))
      some_data true = (
        made,
        post Event.bundle_ready ∷ [],
        some Event.bundle_ready,
        rw (s.finalize_final b') refl,
        refl,
        (
          carry-Common s c refl refl refl refl,
          record { bundle = s.finalize b'; is_generated = refl; none_active = refl },
        ),
      )
      some_data false = (
        last,
        post Event.bundle_empty ∷ [],
        some Event.bundle_empty,
        refl,
        refl,
        carry-Common s c refl refl refl refl,
      )

      choose :
          (empty : Bool)
          → Leads s State.have_bundle (
              if empty
              then some (f, post Event.bundle_empty ∷ [])
              else (if ltb 0 (s.size b')
                  then bundle_made s f (annotated s (s.finalize b'))
                  else some (last, post Event.bundle_empty ∷ [])))
      choose true = (f, post Event.bundle_empty ∷ [], some Event.bundle_empty, refl, refl, c)
      choose false = some_data (ltb 0 (s.size b'))

  -- The services that work on the finished bundle.
  pub with_generated-Leads :
      (t : State) (e : Event) (f : Fields s)
      → HasBundle s f
      → Ready s t (some e) f
      → Leads s t (with_generated s f.generated_bundle f e)
  with_generated-Leads t e f h r =
      (f, external e ∷ [], some e, ap (λ x. with_generated s x f e) h.is_generated, refl, r)

  pub reset_for_next_bundle-Leads :
      (f : Fields s)
      → Common s f × (f.active_bundle ≡ none)
      → Leads s State.have_chunks (reset_for_next_bundle s f.active_bundle f)
  unfolding reset_for_next_bundle
  reset_for_next_bundle-Leads f (c, e) =
      subst (λ x. Leads s State.have_chunks (reset_for_next_bundle s x f)) (sym e)
        (next_chunk-Leads s fresh (carry-Common s c refl refl refl refl) (record {
          bundle = s.new_bundle;
          is_active = refl;
          not_final = s.new_open;
          none_generated = refl;
        }))
    where
      fresh : Fields s
      fresh = record f {
        generated_bundle = none;
        active_bundle = some s.new_bundle;
        block_ids_in_active_bundle = [];
      }
