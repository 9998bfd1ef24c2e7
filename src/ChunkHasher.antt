-- ===== src/ChunkHasher.antt =====
-- services/chunk-hasher-impl.cc and services/chunk-reader-impl.cc: a file is read block by block,
-- each block becomes a chunk of the snapshot, and the blocks and the whole file are hashed. The
-- file is the list of the bytes that are mapped.
pub mod Blocks
pub mod Chunks
pub mod Tests
use polar_express.Base.{
  ℕ, zero, suc, ◌+◌, ◌-◌, Bool, true, false, not, ◌&&◌, ◌||◌, Option, none, some, List, [], ◌∷◌,
  ◌++◌, Bytes, length, take, drop, min, ltb, ◌==◌, if◌then◌else◌, bytes_eq, ◌>>=◌,
}
use polar_express.Hash.{HashEngine}

-- proto/snapshot.proto and proto/block.proto, as far as the hasher writes them.
pub record Chunk : Type 0 where
  pub offset : ℕ
  pub block_length : ℕ
  pub sha1_digest : Bytes

pub record Snapshot : Type 0 where
  pub is_regular : Bool
  pub file_length : ℕ
  pub chunks : List Chunk
  pub whole_sha1_digest : Option Bytes

-- A text field that may be missing.
abbrev pub text_of : Option Bytes → Bytes
text_of none = []
text_of (some xs) = xs

-- ReadBlockDataForChunk: nothing behind the end of the file, and less than was asked for at it.
unfoldable pub read_block_data : Bytes → ℕ → ℕ → Bytes
read_block_data file offset size =
    if ltb offset (length file) && ltb 0 size
    then take (min (offset + size) (length file) - offset) (drop offset file)
    else []

module _ (h : HashEngine) where
  open h use {Engine, fresh, update, final, hex}

  -- HashData, in hexadecimal.
  unfoldable pub hash_block : Bytes → Bytes
  hash_block xs = hex (final (update fresh xs)).0

  -- ValidateHash.
  unfoldable pub validate_hash : Chunk → Bytes → Bool
  unfolding hash_block
  validate_hash c xs = bytes_eq (hash_block xs) c.sha1_digest

  -- The chunks so far and the engine of the whole file, after a block; no chunk is made for an
  -- empty one.
  unfoldable pub update_hashes : Bytes → ℕ → List Chunk → Engine → List Chunk × Engine
  unfolding hash_block
  update_hashes [] offset cs e = (cs, e)
  update_hashes (x ∷ xs) offset cs e = (
    cs
        ++ record {
          offset = offset;
          block_length = length (x ∷ xs);
          sha1_digest = hash_block (x ∷ xs);
        }
          ∷ [],
    update e (x ∷ xs),
  )

  -- The chunks, the whole file's digest, and the engine that is kept for the next file.
  abbrev pub Result : Type 0
  Result = List Chunk × Bytes × Engine

  module _ (max_block_size : ℕ) where
    -- UpdateHashesFromBlockData: a short block is the last one, or else `rest` goes on.
    abbrev pub finish_or_continue : Bytes → List Chunk → Engine → Option Result → Option Result
    finish_or_continue xs cs e rest =
        if ltb (length xs) max_block_size then some (cs, hex (final e).0, (final e).1) else rest

    -- ContinueGeneratingAndHashingChunks, which the reader's callback calls again through
    -- UpdateHashesFromBlockData; the fuel bounds how often.
    unfoldable pub continue_generating : ℕ → Bytes → ℕ → List Chunk → Engine → Option Result
    unfolding read_block_data update_hashes
    continue_generating zero file offset cs e = none
    continue_generating (suc f) file offset cs e =
        let xs = read_block_data file offset max_block_size in
        let (ds, e') = update_hashes xs offset cs e in
        let rest = continue_generating f file (offset + length xs) ds e' in
        finish_or_continue xs ds e' rest

    -- GenerateAndHashChunks. The encoder appends to the text that the snapshot's digest already has.
    unfoldable pub generate_and_hash_chunks :
        ℕ → Bytes → Snapshot → Engine → Option (Snapshot × Engine)
    unfolding continue_generating
    generate_and_hash_chunks f file s e =
        if not s.is_regular || (s.file_length == 0)
        then some (s, e)
        else (continue_generating f file 0 s.chunks e >>= λ r. some (
          record s { chunks = r.0; whole_sha1_digest = some (text_of s.whole_sha1_digest ++ r.1) },
          r.2,
        ))
