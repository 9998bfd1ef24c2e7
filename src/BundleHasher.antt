-- ===== src/BundleHasher.antt =====
-- services/bundle-hasher-impl.cc: the linear SHA-256 digest and the Glacier tree digest of the
-- parts of a bundle. The size of a piece, kTreeHashIntermediateDigestDataSize, is a parameter of
-- the functions; `tree_hash_piece_size` is its value in the source.
pub mod Merkle
pub mod Pieces
pub mod Vectors
pub mod Digests
pub mod Correct
pub mod Tests
use polar_express.Base.{
  ℕ, zero, suc, ◌+◌, ◌-◌, ◌*◌, ◌%◌, min, Bool, ◌&&◌, Option, none, some, List, [], ◌∷◌, ◌++◌, Bytes,
  ltb, leb, ◌==◌, if◌then◌else◌, bytes_eq, length, take, drop, replicate, not,
}
use polar_express.Hash.{HashEngine}

abbrev pub tree_hash_piece_size : ℕ
tree_hash_piece_size = 1024 * 1024

abbrev pub digest_size : ℕ
digest_size = 32

pub compare_digests : Bytes → Bytes → Option (Bytes × Bytes) → Option Bool
compare_digests linear tree none = none
compare_digests linear tree (some (l, t)) = some (bytes_eq linear l && bytes_eq tree t)

module _ (h : HashEngine) where
  open h use {Engine, fresh, update, final, hex}

  -- CalculateDigest is Update and then Final.
  abbrev pub calculate_digest : Engine → Bytes → Bytes × Engine
  calculate_digest e xs = final (update e xs)

  -- The loop over pairs of neighbours; a last digest with no neighbour is left out.
  pub pair_up : List Bytes → List Bytes
  pair_up [] = []
  pair_up (l ∷ []) = []
  pair_up (l ∷ r ∷ ds) = (final (update (update fresh l) r)).0 ∷ pair_up ds

  pub last_digest : List Bytes → List Bytes
  last_digest [] = []
  last_digest (d ∷ []) = d ∷ []
  last_digest (d ∷ e ∷ ds) = last_digest (e ∷ ds)

  pub next_level : List Bytes → List Bytes
  unfolding pair_up last_digest
  next_level ds = if length ds % 2 == 0 then pair_up ds else pair_up ds ++ last_digest ds

  -- ComputeFinalTreeHash: `out` is the digest's buffer as the caller hands it over. `none` means
  -- that the fuel, which bounds the depth of the recursion, ran out.
  pub compute_final_tree_hash : ℕ → List Bytes → Bytes → Option Bytes
  unfolding next_level
  compute_final_tree_hash zero ds out = none
  compute_final_tree_hash (suc f) [] out = some out
  compute_final_tree_hash (suc f) (d ∷ []) out = some d
  compute_final_tree_hash (suc f) (d ∷ e ∷ ds) out =
      compute_final_tree_hash f (next_level (d ∷ e ∷ ds)) out

  -- The local variables of HashData.
  pub record Progress : Type 0 where
    pub linear : Engine
    pub tree : Engine
    pub digests : List Bytes
    pub bytes_in_current : ℕ

  abbrev pub start : Progress
  start = record { linear = fresh; tree = fresh; digests = []; bytes_in_current = 0 }

  -- Finalize the tree engine into the list of intermediate digests.
  abbrev pub push_final : Progress → Progress
  push_final p = record p {
    tree = (final p.tree).1;
    digests = p.digests ++ (final p.tree).0 ∷ [];
    bytes_in_current = 0;
  }

  module _ (piece : ℕ) where
    -- Leftover data of the vectors before, completed as far as this one goes: the offset reached.
    pub fill_leftover : Bytes → Progress → ℕ × Progress
    fill_leftover xs p =
        let offset = min (length xs) (piece - p.bytes_in_current) in
        if ltb 0 p.bytes_in_current
        then (
          offset,
          record p {
            tree = update p.tree (take offset xs);
            bytes_in_current = p.bytes_in_current + offset;
          },
        )
        else (0, p)

    pub close_piece : Progress → Progress
    close_piece p = if p.bytes_in_current == piece then push_final p else p

    pub push_piece : Bytes → ℕ → Progress → Progress
    push_piece xs offset p =
        let (d, e) = calculate_digest p.tree (take piece (drop offset xs)) in
        record p { tree = e; digests = p.digests ++ d ∷ [] }

    -- for (; offset <= data->size() - piece; offset += piece), with fuel for its rounds.
    pub whole_pieces : ℕ → Bytes → ℕ → Progress → ℕ × Progress
    unfolding push_piece
    whole_pieces zero xs offset p = (offset, p)
    whole_pieces (suc f) xs offset p =
        let next = whole_pieces f xs (offset + piece) (push_piece xs offset p) in
        if leb offset (length xs - piece) then next else (offset, p)

    pub keep_leftover : Bytes → ℕ → Progress → Progress
    keep_leftover xs offset p = if offset == length xs then p else record p {
      tree = update p.tree (drop offset xs);
      bytes_in_current = length xs - offset;
    }

    -- The body of the loop over the vectors, for one that is not empty.
    pub add_data : Bytes → Progress → Progress
    unfolding fill_leftover close_piece whole_pieces keep_leftover
    add_data xs p =
        let (offset, q) = fill_leftover xs (record p { linear = update p.linear xs }) in
        let q' = close_piece q in
        let (offset', r) =
          (if leb piece (length xs) then whole_pieces (length xs) xs offset q' else (offset, q')) in
        keep_leftover xs offset' r

    pub add_all : List Bytes → Progress → Progress
    unfolding add_data
    add_all [] p = p
    add_all ([] ∷ xss) p = add_all xss p
    add_all ((x ∷ xs) ∷ xss) p = add_all xss (add_data (x ∷ xs) p)

    pub close_last : Progress → Progress
    close_last p = if p.bytes_in_current == 0 then p else push_final p

    pub intermediate_digests : List Bytes → Progress
    unfolding add_all close_last
    intermediate_digests xss = close_last (add_all xss start)

    -- HashData: the linear and the tree digest, in hexadecimal.
    -- The digests are returned; the code appends them to the caller's two strings.
    pub hash_data : List Bytes → Option (Bytes × Bytes)
    unfolding intermediate_digests compute_final_tree_hash
    hash_data xss =
        let p = intermediate_digests xss in
        elim (compute_final_tree_hash (suc (length p.digests)) p.digests
          (replicate digest_size 0)) [
            | none ↦ none
            | some tree ↦ some (hex (final p.linear).0, hex tree)
          ]

    -- ComputeSequentialHashes calls HashData; ValidateHashes compares its result.
    pub validate_hashes : Bytes → Bytes → Bytes → Option Bool
    unfolding compare_digests
    validate_hashes xs linear tree = compare_digests linear tree (hash_data (xs ∷ []))
