-- ===== src/BundleHasher/Tests.antt =====
-- Runs and instances, with pieces of three bytes and an engine that sums what it is fed.
use polar_express.Base.{
  ℕ, ◌+◌, ◌%◌, ◌<◌, ◌≡◌, refl, ◌↔◌, true, List, [], ◌∷◌, ◌++◌, map, flatten, append_assoc,
  append-nil, Bytes, some, arith, length,
}
use polar_express.Hash.{HashEngine}
use polar_express.BundleHasher.{hash_data, validate_hashes, compute_final_tree_hash}
use polar_express.BundleHasher.Digests.{ArePieces}
use polar_express.BundleHasher.Merkle.{Tree, leaves, root, IsPacked, compute_final_tree_hash_lem}
use polar_express.BundleHasher.Correct.{hash_data_lem, hash_data_split, validate_hashes_lem}

-- The engine holds what it was fed; its digest weighs each byte by its place.
abbrev weigh : ℕ → Bytes → ℕ
weigh n [] = n
weigh n (x ∷ xs) = weigh ((n + n + x) % 251) xs

abbrev toy_digest : Bytes → Bytes
toy_digest xs = weigh 1 xs ∷ []

toy_append : (e xs ys : Bytes) → (e ++ xs) ++ ys ≡ e ++ (xs ++ ys)
toy_append e xs ys = append_assoc e xs ys

abbrev toy : HashEngine
toy = record {
  Engine = Bytes;
  fresh = [];
  update = λ e xs. e ++ xs;
  final = λ e. (toy_digest e, []);
  digest = toy_digest;
  hex = λ d. d;
  update_nil = append-nil;
  update_append = toy_append;
  final_lem = λ xs. refl;
}

abbrev parts : List Bytes
parts = (1 ∷ 2 ∷ []) ∷ [] ∷ (3 ∷ 4 ∷ 5 ∷ 6 ∷ 7 ∷ 8 ∷ []) ∷ (9 ∷ 10 ∷ []) ∷ []

-- Four pieces: 1 2 3, 4 5 6, 7 8 9 and 10.
parts_run :
    hash_data toy 3 parts
    ≡ some (
      toy_digest (flatten parts),
      toy_digest (
          toy_digest (toy_digest (1 ∷ 2 ∷ 3 ∷ []) ++ toy_digest (4 ∷ 5 ∷ 6 ∷ []))
          ++ toy_digest (toy_digest (7 ∷ 8 ∷ 9 ∷ []) ++ toy_digest (10 ∷ []))),
    )
unfolding hash_data flatten
parts_run = refl

compute_final_tree_hash_lem_example :
    (t : Tree) × (k : ℕ) × (compute_final_tree_hash toy 3 ((1 ∷ []) ∷ (2 ∷ []) ∷ (3 ∷ []) ∷ []) []
      ≡ some (root toy_digest t))
    × (leaves t ≡ (1 ∷ []) ∷ (2 ∷ []) ∷ (3 ∷ []) ∷ [])
    × IsPacked k t
compute_final_tree_hash_lem_example =
    compute_final_tree_hash_lem toy 3 ((1 ∷ []) ∷ (2 ∷ []) ∷ (3 ∷ []) ∷ []) [] (omega arith)
      (omega arith)

parts_some : 0 < length (flatten parts)
unfolding flatten
parts_some = omega arith

hash_data_lem_example :
    (ps : List Bytes) × (t : Tree) × (k : ℕ) × ArePieces 3 ps
    × (flatten ps ≡ flatten parts)
    × (leaves t ≡ map toy_digest ps)
    × IsPacked k t
    × (hash_data toy 3 parts ≡ some (toy_digest (flatten parts), root toy_digest t))
hash_data_lem_example = hash_data_lem toy 3 parts (omega arith) parts_some

hash_data_split_example : hash_data toy 3 parts ≡ hash_data toy 3 (flatten parts ∷ [])
unfolding flatten
hash_data_split_example = hash_data_split toy 3 parts (flatten parts ∷ []) (omega arith) refl

validate_hashes_lem_example :
    (validate_hashes toy 3 (flatten parts) (7 ∷ []) (8 ∷ []) ≡ some true)
    ↔ (hash_data toy 3 parts ≡ some (7 ∷ [], 8 ∷ []))
validate_hashes_lem_example = validate_hashes_lem toy 3 parts (7 ∷ []) (8 ∷ []) (omega arith)
