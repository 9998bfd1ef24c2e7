-- ===== src/BundleMachine/Ready.antt =====
-- state_machines/bundle-state-machine.cc: what holds of the fields in each state, and that each
-- handler brings it about for the state that follows.
use polar_express.Base.{
  ◌+◌, ◌-◌, ◌≡◌, refl, sym, ap, ◌∙◌, ◌⊎◌, inl, inr, true, false, ◌||◌, Option, none, some, List, [],
  ◌∷◌, ◌++◌, Bytes, arith, Bool-cases, length,
}
use polar_express.StateMachine.{Command, post, set_idle}
use polar_express.StateMachine.Protocol.{caused, opt_list}
use polar_express.BundleMachine.Table.{State, Event}
use polar_express.BundleMachine.Fields.{Chunk, Snapshot, Services, Fields, total_length}
use polar_express.BundleMachine.Handlers.{
  Reply, push_pending_chunks_for_snapshot, next_chunk, next_chunk_from, load_snapshot,
}

module _ (s : Services) where
  -- The count of waiting bytes is exact, the cryptor is there, and waiting chunks have a reader.
  pub record Common (f : Fields s) : Type 0 where
    pub exact : f.chunk_bytes_pending ≡ total_length f.pending_chunks
    pub has_cryptor : f.cryptor ≡ true
    pub has_reader : (f.pending_chunks ≡ []) ⊎ ((path : Bytes) × (f.reader ≡ some path))

  -- A bundle is being filled.
  pub record IsFilling (f : Fields s) : Type 0 where
    pub bundle : s.Bundle
    pub is_active : f.active_bundle ≡ some bundle
    pub not_final : s.is_finalized bundle ≡ false
    pub none_generated : f.generated_bundle ≡ none

  -- A chunk is being worked on.
  pub record HasChunk (f : Fields s) : Type 0 where
    pub chunk : Chunk
    pub path : Bytes
    pub is_active : f.active_chunk ≡ some chunk
    pub can_read : f.reader ≡ some path

  -- A bundle is finished and not yet given up.
  pub record HasBundle (f : Fields s) : Type 0 where
    pub bundle : s.Bundle
    pub is_generated : f.generated_bundle ≡ some bundle
    pub none_active : f.active_bundle ≡ none

  abbrev pub Ready : State → Option Event → Fields s → Type 0
  Ready State.wait_for_new_snapshot none f =
      Common f × IsFilling f × (f.pending_chunks ≡ []) × (f.pending_snapshot ≡ none)
  Ready State.wait_for_new_snapshot (some Event.new_snapshot_ready) f =
      Common f × IsFilling f × (f.pending_chunks ≡ [])
  Ready State.wait_for_new_snapshot (some Event.flush_forced) f =
      Common f × IsFilling f × (f.pending_chunks ≡ [])
  Ready State.have_chunks (some Event.flush_forced) f = Common f × IsFilling f
  Ready State.have_chunks (some Event.no_chunks_remaining) f =
      Common f × IsFilling f × (f.pending_chunks ≡ [])
  Ready State.have_chunks (some Event.new_chunk_ready) f = Common f × IsFilling f × HasChunk f
  Ready State.wait_for_existing_bundle_info (some Event.existing_bundle_info_ready) f =
      Common f × IsFilling f × HasChunk f
  Ready State.have_existing_bundle_info (some Event.chunk_already_in_bundle) f =
      Common f × IsFilling f
  Ready State.have_existing_bundle_info (some Event.chunk_not_yet_in_bundle) f =
      Common f × IsFilling f × HasChunk f
  Ready State.wait_for_chunk_contents (some Event.chunk_contents_ready) f =
      Common f × IsFilling f × HasChunk f
  Ready State.have_chunk_contents (some Event.chunk_contents_hash_ready) f =
      Common f × IsFilling f × HasChunk f
  Ready State.have_chunk_contents_and_hash_validity (some Event.chunk_contents_hash_mismatch) f =
      Common f × IsFilling f
  Ready State.have_chunk_contents_and_hash_validity (some Event.chunk_contents_hash_match) f =
      Common f × IsFilling f × HasChunk f
  Ready State.wait_for_compression (some Event.compression_done) f =
      Common f × IsFilling f × HasChunk f
  Ready State.chunk_finished (some Event.max_bundle_size_not_reached) f = Common f × IsFilling f
  Ready State.chunk_finished (some Event.max_bundle_size_reached) f = Common f × IsFilling f
  Ready State.have_bundle (some Event.bundle_empty) f = Common f
  Ready State.have_bundle (some Event.bundle_ready) f = Common f × HasBundle f
  Ready State.wait_for_encryption (some Event.encryption_done) f = Common f × HasBundle f
  Ready State.wait_for_bundle_hash (some Event.bundle_hashed) f = Common f × HasBundle f
  Ready State.wait_for_bundle_to_record (some Event.bundle_recorded) f = Common f × HasBundle f
  Ready State.wait_for_bundle_to_write (some Event.bundle_written) f = Common f × HasBundle f
  Ready State.wait_for_bundle_retrieval none f = Common f × HasBundle f
  Ready State.wait_for_bundle_retrieval (some Event.continue_after_bundle_retrieved) f =
      Common f × (f.active_bundle ≡ none)
  Ready State.wait_for_bundle_retrieval (some Event.flush_forced) f =
      Common f × (f.active_bundle ≡ none)
  Ready State.done none f = Common f
  Ready _ _ f = ⊥

  -- What a reply of a handler has to bring about in the target state.
  abbrev pub Leads : State → Reply s → Type 0
  Leads t r =
      (f : Fields s) × (cs : List (Command Event)) × (k : Option Event) × (r ≡ some (f, cs))
      × (caused cs ≡ opt_list k)
      × Ready t k f

  pub next_chunk-Leads :
      (f : Fields s) → Common f → IsFilling f → Leads State.have_chunks (some (next_chunk s f))
  unfolding next_chunk next_chunk_from
  next_chunk-Leads f c b = choose f.pending_chunks refl
    where
      choose :
          (cs : List Chunk)
          → f.pending_chunks ≡ cs
          → Leads State.have_chunks (some (next_chunk_from s cs f))
      choose [] e = ask (Bool-cases (f.flush_requested || f.exit_requested))
        where
          ask :
              ((f.flush_requested || f.exit_requested) ≡ true)
                ⊎ ((f.flush_requested || f.exit_requested) ≡ false)
              → Leads State.have_chunks (some (next_chunk_from s [] f))
          ask (inl asked) = rw asked (
            record f { flush_requested = false },
            post Event.flush_forced ∷ [],
            some Event.flush_forced,
            refl,
            refl,
            (
              record { exact = c.exact; has_cryptor = c.has_cryptor; has_reader = c.has_reader },
              record {
                bundle = b.bundle;
                is_active = b.is_active;
                not_final = b.not_final;
                none_generated = b.none_generated;
              },
            ),
          )
          ask (inr quiet) = rw quiet (
            f,
            post Event.no_chunks_remaining ∷ set_idle true ∷ [],
            some Event.no_chunks_remaining,
            refl,
            refl,
            (c, b, e),
          )
      choose (x ∷ xs) e = (
        record f {
          active_chunk = some x;
          pending_chunks = xs;
          chunk_bytes_pending = f.chunk_bytes_pending - x.block_length;
        },
        post Event.new_chunk_ready ∷ [],
        some Event.new_chunk_ready,
        refl,
        refl,
        (
          record {
            exact = omega (arith, c.exact, ap total_length e);
            has_cryptor = c.has_cryptor;
            has_reader = inr reader;
          },
          record {
            bundle = b.bundle;
            is_active = b.is_active;
            not_final = b.not_final;
            none_generated = b.none_generated;
          },
          record { chunk = x; path = reader.0; is_active = refl; can_read = reader.1 },
        ),
      )
        where
          reader : (path : Bytes) × (f.reader ≡ some path)
          reader = elim c.has_reader [
            | inl none_left ↦ absurd (omega (arith, ap length (sym e ∙ none_left)))
            | inr r ↦ r
          ]

  total_length-append :
      (xs ys : List Chunk) → total_length (xs ++ ys) ≡ total_length xs + total_length ys
  total_length-append [] ys = omega arith
  total_length-append (x ∷ xs) ys = omega (arith, total_length-append xs ys)

  -- Queueing the chunks of a snapshot keeps the count of bytes exact.
  push-exact :
      (cs : List Chunk) (f : Fields s)
      → f.chunk_bytes_pending ≡ total_length f.pending_chunks
      → let g = push_pending_chunks_for_snapshot s cs f in
        (g.chunk_bytes_pending ≡ total_length g.pending_chunks)
        × (g.cryptor ≡ f.cryptor)
        × (g.active_bundle ≡ f.active_bundle)
        × (g.generated_bundle ≡ f.generated_bundle)
  unfolding push_pending_chunks_for_snapshot
  push-exact [] f e = (e, refl, refl, refl)
  push-exact (c ∷ cs) f e =
      push-exact cs
        (record f {
          pending_chunks = f.pending_chunks ++ c ∷ [];
          chunk_bytes_pending = f.chunk_bytes_pending + c.block_length;
        })
        (omega (arith, e, total_length-append f.pending_chunks (c ∷ [])))

  pub load_snapshot-Common :
      (p : Option Snapshot) (f : Fields s)
      → Common f
      → IsFilling f
      → f.pending_chunks ≡ []
      → Common (load_snapshot s p f) × IsFilling (load_snapshot s p f)
  unfolding load_snapshot
  load_snapshot-Common none f c b e = (c, b)
  load_snapshot-Common (some p) f c b e =
      let (exact, cryptor, active, generated) = push-exact p.chunks f c.exact in
      (
        record {
          exact = exact;
          has_cryptor = cryptor ∙ c.has_cryptor;
          has_reader = inr (f.root ++ p.path, refl);
        },
        record {
          bundle = b.bundle;
          is_active = active ∙ b.is_active;
          not_final = b.not_final;
          none_generated = generated ∙ b.none_generated;
        },
      )
