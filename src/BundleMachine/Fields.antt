-- ===== src/BundleMachine/Fields.antt =====
-- The data members of BundleStateMachineImpl (state_machines/bundle-state-machine.h), and what it
-- uses of the bundle and of its services.
use polar_express.Base.{ℕ, ◌≡◌, Bool, true, false, Option, none, some, List, [], ◌∷◌, Bytes, ◌+◌}

-- proto/block.proto and proto/snapshot.proto, as far as this machine reads them.
pub record Chunk : Type 0 where
  pub block_id : ℕ
  pub block_length : ℕ

pub record Snapshot : Type 0 where
  pub path : Bytes
  pub chunks : List Chunk

-- BundleAnnotations.id, an int64 that is negative while the bundle has no id.
pub data AnnotationId : Type 0 where
  id_of : ℕ → AnnotationId
  unassigned : AnnotationId

-- file/bundle.h as this machine uses it, and the compressor. A bundle's own assertions are those of
-- the module Bundle; the laws are the ones that the machine's assertions rest on.
pub record Services : Type 1 where
  pub Bundle : Type 0
  pub new_bundle : Bundle
  pub payloads_size : Bundle → ℕ
  pub size : Bundle → ℕ
  pub is_finalized : Bundle → Bool
  pub start_new_payload : Bundle → Bundle
  pub add_block_metadata : Chunk → Bundle → Bundle
  pub append_block_contents : Bytes → Bundle → Bundle
  pub finalize : Bundle → Bundle
  -- The rest of the compressed stream; CompressData is a service of its own.
  pub finalize_compression : Bytes → Bytes
  pub max_bundle_size : ℕ
  pub new_open : is_finalized new_bundle ≡ false
  pub start_open : (b : Bundle) → is_finalized (start_new_payload b) ≡ is_finalized b
  pub add_open : (c : Chunk) (b : Bundle) → is_finalized (add_block_metadata c b) ≡ is_finalized b
  pub append_open :
      (xs : Bytes) (b : Bundle) → is_finalized (append_block_contents xs b) ≡ is_finalized b
  pub finalize_final : (b : Bundle) → is_finalized (finalize b) ≡ true

-- A null pointer is `none`. `cryptor` tells whether InternalStart has set the cryptor and its
-- keys; `reader` is the path of the chunk reader.
pub record Fields (s : Services) : Type 0 where
  pub root : Bytes
  pub cryptor : Bool
  pub snapshot_done_callback : Bool
  pub bundle_ready_callback : Bool
  pub flush_requested : Bool
  pub exit_requested : Bool
  pub pending_snapshot : Option Snapshot
  pub pending_chunks : List Chunk
  pub chunk_bytes_pending : ℕ
  pub active_chunk : Option Chunk
  pub existing : Option AnnotationId
  pub block_data : Bytes
  pub hash_is_valid : Bool
  pub compressed : Bytes
  pub block_ids_in_active_bundle : List ℕ
  pub active_bundle : Option s.Bundle
  pub generated_bundle : Option s.Bundle
  pub reader : Option Bytes

-- The constructor, and then the two callbacks and InternalStart.
abbrev pub initial : (s : Services) → Bytes → Fields s
initial s root = record {
  root = root;
  cryptor = true;
  snapshot_done_callback = true;
  bundle_ready_callback = true;
  flush_requested = false;
  exit_requested = false;
  pending_snapshot = none;
  pending_chunks = [];
  chunk_bytes_pending = 0;
  active_chunk = none;
  existing = none;
  block_data = [];
  hash_is_valid = false;
  compressed = [];
  block_ids_in_active_bundle = [];
  active_bundle = some s.new_bundle;
  generated_bundle = none;
  reader = none;
}

-- The bytes of the chunks that wait.
abbrev pub total_length : List Chunk → ℕ
total_length [] = 0
total_length (c ∷ cs) = c.block_length + total_length cs
