-- ===== src/ChunkHasher/Tests.antt =====
-- services/chunk-hasher-impl.cc: a file of five bytes in blocks of two, with a toy digest.
use polar_express.Base.{
  ◌≡◌, refl, true, some, none, List, [], ◌∷◌, ◌++◌, Bytes, map, flatten, arith, All, append-nil,
  append_assoc, length,
}
use polar_express.Hash.{HashEngine}
use polar_express.BundleHasher.Digests.{ArePieces}
use polar_express.ChunkHasher.{Chunk, Snapshot, generate_and_hash_chunks}
use polar_express.ChunkHasher.Blocks.{block_of}
use polar_express.ChunkHasher.Chunks.{IsHashed, generate_and_hash_chunks_lem}

abbrev toy : HashEngine
toy = record {
  Engine = Bytes;
  fresh = [];
  update = λ e xs. e ++ xs;
  final = λ e. (length e ∷ [], []);
  digest = λ xs. length xs ∷ [];
  hex = λ d. d;
  update_nil = append-nil;
  update_append = λ e xs ys. append_assoc e xs ys;
  final_lem = λ xs. refl;
}

abbrev five : Bytes
five = 1 ∷ 2 ∷ 3 ∷ 4 ∷ 5 ∷ []

abbrev unhashed : Snapshot
unhashed = record { is_regular = true; file_length = 5; chunks = []; whole_sha1_digest = none }

generate_and_hash_chunks_lem_example :
    (new : List Chunk) × (generate_and_hash_chunks toy 2 6 five unhashed []
      ≡ some (record unhashed { chunks = new; whole_sha1_digest = some (5 ∷ []) }, []))
    × ArePieces 2 (map (block_of five) new)
    × (flatten (map (block_of five) new) ≡ five)
    × All (IsHashed toy 2 five) new
generate_and_hash_chunks_lem_example =
    generate_and_hash_chunks_lem toy 2 five 6 unhashed (omega arith) (omega arith) refl
      (omega arith)
