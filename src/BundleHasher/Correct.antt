-- ===== src/BundleHasher/Correct.antt =====
-- The digests that services/bundle-hasher-impl.cc reports for a bundle.
use polar_express.Base.{
  ℕ, suc, ◌<◌, ◌≡◌, refl, sym, ap, ap₂, subst, ◌∙◌, ◌↔◌, true, List, [], ◌∷◌, ◌++◌, map, flatten,
  append-nil, Bytes, Option, some, none, arith, length, take, drop, replicate, length-append,
  take_all, drop_all, take_append, drop_append, bytes_eq_refl, bytes_eq→≡,
}
use polar_express.Hash.{HashEngine}
use polar_express.BundleHasher.{
  compute_final_tree_hash, hash_data, compare_digests, validate_hashes, digest_size,
}
use polar_express.BundleHasher.Digests.{ArePieces, intermediate_digests_lem}
use polar_express.BundleHasher.Merkle.{Tree, leaves, root, IsPacked, compute_final_tree_hash_lem}

head_piece :
    (piece : ℕ) (p : Bytes) (ps : List Bytes)
    → ArePieces piece (p ∷ ps)
    → (p ≡ take piece (flatten (p ∷ ps))) × (flatten ps ≡ drop piece (flatten (p ∷ ps)))
unfolding flatten
head_piece piece p [] a = rw append-nil (sym (take_all piece p a.1), sym (drop_all piece p a.1))
head_piece piece p (q ∷ ps) a = (
  subst (λ n. p ≡ take n (p ++ flatten (q ∷ ps))) a.0 (sym (take_append p _)),
  subst (λ n. flatten (q ∷ ps) ≡ drop n (p ++ flatten (q ∷ ps))) a.0 (sym (drop_append p _)),
)

tail_pieces :
    (piece : ℕ) (p : Bytes) (ps : List Bytes) → ArePieces piece (p ∷ ps) → ArePieces piece ps
tail_pieces piece p [] a = tt
tail_pieces piece p (q ∷ ps) a = a.1

piece_pos :
    (piece : ℕ) (p : Bytes) (ps : List Bytes)
    → 0 < piece
    → ArePieces piece (p ∷ ps)
    → 0 < length (flatten (p ∷ ps))
unfolding flatten
piece_pos piece p [] pos a = omega (arith, length-append p [])
piece_pos piece p (q ∷ ps) pos a = omega (arith, length-append p (flatten (q ∷ ps)))

-- Data has one decomposition into pieces.
pieces_unique :
    (piece : ℕ) (ps qs : List Bytes)
    → 0 < piece
    → ArePieces piece ps
    → ArePieces piece qs
    → flatten ps ≡ flatten qs
    → ps ≡ qs
unfolding flatten
pieces_unique piece [] [] pos a b e = refl
pieces_unique piece [] (q ∷ qs) pos a b e =
    absurd (omega (arith, piece_pos piece q qs pos b, ap length e))
pieces_unique piece (p ∷ ps) [] pos a b e =
    absurd (omega (arith, piece_pos piece p ps pos a, ap length e))
pieces_unique piece (p ∷ ps) (q ∷ qs) pos a b e =
    let (p_is, ps_are) = head_piece piece p ps a in
    let (q_is, qs_are) = head_piece piece q qs b in
    ap₂ ◌∷◌ (p_is ∙ ap (take piece) e ∙ sym q_is) (
      pieces_unique piece ps qs pos (tail_pieces piece p ps a) (tail_pieces piece q qs b)
        (ps_are ∙ ap (drop piece) e ∙ sym qs_are))

length-map : (f : Bytes → Bytes) (xs : List Bytes) → length (map f xs) ≡ length xs
length-map f [] = refl
length-map f (x ∷ xs) = ap suc (length-map f xs)

flatten_pos : (xss : List Bytes) → 0 < length (flatten xss) → 0 < length xss
unfolding flatten
flatten_pos [] h = h
flatten_pos (x ∷ xss) h = omega arith

compare_digests_lem :
    (linear tree : Bytes) (r : Option (Bytes × Bytes))
    → (compare_digests linear tree r ≡ some true) ↔ (r ≡ some (linear, tree))
unfolding compare_digests
compare_digests_lem linear tree none = (λ e. cc, λ e. cc)
compare_digests_lem linear tree (some (l, t)) = (
  λ e. ground (arith, bytes_eq→≡ linear l, bytes_eq→≡ tree t),
  λ e.
      let l_is : linear ≡ l = cc in
      let t_is : tree ≡ t = cc in rw (l_is, t_is, bytes_eq_refl l, bytes_eq_refl t),
)

module _ (h : HashEngine) (piece : ℕ) where
  open h use {Engine, fresh, update, final, digest, hex, update_nil, update_append, final_lem}

  -- What HashData makes of the outcome of its first half.
  report : Engine → List Bytes → Option (Bytes × Bytes)
  report l ds = elim (compute_final_tree_hash h (suc (length ds)) ds (replicate digest_size 0)) [
    | none ↦ none
    | some tree ↦ some (hex (final l).0, hex tree)
  ]

  hash_data-report :
      (xss : List Bytes) (ps : List Bytes)
      → 0 < piece
      → ArePieces piece ps
      → flatten ps ≡ flatten xss
      → hash_data h piece xss ≡ report (update fresh (flatten xss)) (map digest ps)
  unfolding hash_data report
  hash_data-report xss ps pos a e =
      let (qs, b, e', d, l) = intermediate_digests_lem h piece xss pos in
      ap₂ report l (d ∙ ap (map digest) (pieces_unique piece qs ps pos b a (e' ∙ sym e)))

  -- The digests depend on the data alone, and not on how it is spread over vectors.
  pub hash_data_split :
      (xss yss : List Bytes)
      → 0 < piece
      → flatten xss ≡ flatten yss
      → hash_data h piece xss ≡ hash_data h piece yss
  hash_data_split xss yss pos e =
      let (ps, a, e', _, _) = intermediate_digests_lem h piece xss pos in
      hash_data-report xss ps pos a e'
      ∙ ap (λ ys. report (update fresh ys) (map digest ps)) e
      ∙ sym (hash_data-report yss ps pos a (e' ∙ e))

  -- For data that is not empty HashData returns; the first digest is that of the joined data, and
  -- the second is the root of the tree hash over the digests of its consecutive pieces.
  pub hash_data_lem :
      (xss : List Bytes)
      → 0 < piece
      → 0 < length (flatten xss)
      → (ps : List Bytes) × (t : Tree) × (k : ℕ) × ArePieces piece ps
        × (flatten ps ≡ flatten xss)
        × (leaves t ≡ map digest ps)
        × IsPacked k t
        × (hash_data h piece xss ≡ some (hex (digest (flatten xss)), hex (root digest t)))
  unfolding report
  hash_data_lem xss pos nonempty =
      let (ps, a, e, _, _) = intermediate_digests_lem h piece xss pos in
      let some_ps : 0 < length (map digest ps) = omega (
        arith,
        length-map digest ps,
        flatten_pos ps (subst (λ ys. 0 < length ys) (sym e) nonempty),
      ) in
      let (t, k, found, over, packed) =
        compute_final_tree_hash_lem h (suc (length (map digest ps))) (map digest ps)
          (replicate digest_size 0) some_ps (omega arith) in
      (
        ps,
        t,
        k,
        a,
        e,
        over,
        packed,
        hash_data-report xss ps pos a e ∙ rw (report, found, final_lem (flatten xss)),
      )

  -- ValidateHashes accepts exactly the two digests that ComputeSequentialHashes reports for the
  -- same bytes, spread over vectors in any way.
  pub validate_hashes_lem :
      (xss : List Bytes) (linear tree : Bytes)
      → 0 < piece
      → (validate_hashes h piece (flatten xss) linear tree ≡ some true)
        ↔ (hash_data h piece xss ≡ some (linear, tree))
  unfolding validate_hashes flatten
  validate_hashes_lem xss linear tree pos =
      subst
        (λ r.
          (compare_digests linear tree r ≡ some true)
          ↔ (hash_data h piece xss ≡ some (linear, tree)))
        (hash_data_split xss (flatten xss ∷ []) pos (sym (append-nil (flatten xss))))
        (compare_digests_lem linear tree (hash_data h piece xss))
