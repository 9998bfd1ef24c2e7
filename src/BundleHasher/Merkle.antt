-- ===== src/BundleHasher/Merkle.antt =====
-- ComputeFinalTreeHash of services/bundle-hasher-impl.cc against Amazon's definition of a tree
-- hash: a binary tree over the digests of the pieces, filled from the left, in which a digest
-- with no neighbour moves up a level unchanged.
use polar_express.Base.{
  ℕ, zero, suc, ◌+◌, ◌%◌, ◌≤◌, ◌<◌, ◌≡◌, refl, sym, ap, ap₂, ◌∙◌, inl, inr, List, [], ◌∷◌, ◌++◌,
  append_assoc, append-nil, Bytes, some, arith, ◌==◌, Bool-cases, length, map, ==_iff,
}
use polar_express.Hash.{HashEngine}
use polar_express.BundleHasher.{pair_up, last_digest, next_level, compute_final_tree_hash}

pub data Tree : Type 0 where
  leaf : Bytes → Tree
  node : Tree → Tree → Tree

abbrev pub leaves : Tree → List Bytes
leaves (leaf d) = d ∷ []
leaves (node l r) = leaves l ++ leaves r

abbrev pub root : (Bytes → Bytes) → Tree → Bytes
root digest (leaf d) = d
root digest (node l r) = digest (root digest l ++ root digest r)

-- All 2 ^ k leaves of depth k.
pub data IsPerfect : ℕ → Tree → Type 0 where
  one : (d : Bytes) → IsPerfect zero (leaf d)
  two : {k : ℕ} {l r : Tree} → IsPerfect k l → IsPerfect k r → IsPerfect (suc k) (node l r)

-- Filled from the left, with a depth of at most k.
pub data IsPacked : ℕ → Tree → Type 0 where
  lone : (d : Bytes) → IsPacked zero (leaf d)
  split : {k : ℕ} {l r : Tree} → IsPerfect k l → IsPacked k r → IsPacked (suc k) (node l r)
  up : {k : ℕ} {t : Tree} → IsPacked k t → IsPacked (suc k) t

perfect-IsPacked : {k : ℕ} {t : Tree} → IsPerfect k t → IsPacked k t
perfect-IsPacked (one d) = lone d
perfect-IsPacked (two p q) = split p (perfect-IsPacked q)

-- The trees of a level: each perfect but the last.
abbrev Level : ℕ → List Tree → Type 0
Level k [] = Unit {0}
Level k (t ∷ []) = IsPacked k t
Level k (t ∷ u ∷ ts) = IsPerfect k t × Level k (u ∷ ts)

abbrev all_leaves : List Tree → List Bytes
all_leaves [] = []
all_leaves (t ∷ ts) = leaves t ++ all_leaves ts

pair_trees : List Tree → List Tree
pair_trees [] = []
pair_trees (t ∷ []) = t ∷ []
pair_trees (t ∷ u ∷ ts) = node t u ∷ pair_trees ts

pair_trees-Level : (k : ℕ) (ts : List Tree) → Level k ts → Level (suc k) (pair_trees ts)
unfolding pair_trees
pair_trees-Level k [] l = tt
pair_trees-Level k (t ∷ []) l = up l
pair_trees-Level k (t ∷ u ∷ []) l = split l.0 l.1
pair_trees-Level k (t ∷ u ∷ v ∷ []) l = (two l.0 l.1.0, up l.1.1)
pair_trees-Level k (t ∷ u ∷ v ∷ w ∷ ts) l = (two l.0 l.1.0, pair_trees-Level k (v ∷ w ∷ ts) l.1.1)

leaves-pair_trees : (ts : List Tree) → all_leaves (pair_trees ts) ≡ all_leaves ts
unfolding pair_trees
leaves-pair_trees [] = refl
leaves-pair_trees (t ∷ []) = refl
leaves-pair_trees (t ∷ u ∷ ts) =
    ap (◌++◌ (leaves t ++ leaves u)) (leaves-pair_trees ts)
    ∙ append_assoc (leaves t) (leaves u) (all_leaves ts)

length-pair_trees :
    (ts : List Tree) → length (pair_trees ts) + length (pair_trees ts) ≤ suc (length ts)
unfolding pair_trees
length-pair_trees [] = omega arith
length-pair_trees (t ∷ []) = omega arith
length-pair_trees (t ∷ u ∷ ts) = omega (arith, length-pair_trees ts)

leaf-Level : (ds : List Bytes) → Level zero (map leaf ds)
leaf-Level [] = tt
leaf-Level (d ∷ []) = lone d
leaf-Level (d ∷ e ∷ ds) = (one d, leaf-Level (e ∷ ds))

leaves-leaf : (ds : List Bytes) → all_leaves (map leaf ds) ≡ ds
leaves-leaf [] = refl
leaves-leaf (d ∷ ds) = ap (◌∷◌ d) (leaves-leaf ds)

module _ (h : HashEngine) where
  open h use {Engine, fresh, update, final, digest, update_append, final_lem}

  abbrev roots : List Tree → List Bytes
  roots = map (root digest)

  pair_digest : (l r : Bytes) → (final (update (update fresh l) r)).0 ≡ digest (l ++ r)
  pair_digest l r = rw (update_append fresh l r, final_lem (l ++ r))

  -- The pairs and the digest that is left, in one recursion.
  next_level-odd :
      (ts : List Tree)
      → length (roots ts) % 2 ≡ 1
      → pair_up h (roots ts) ++ last_digest h (roots ts) ≡ roots (pair_trees ts)
  unfolding pair_up last_digest pair_trees
  next_level-odd [] e = absurd (omega arith)
  next_level-odd (t ∷ []) e = refl
  next_level-odd (t ∷ u ∷ []) e = absurd (omega arith)
  next_level-odd (t ∷ u ∷ v ∷ ts) e =
      ap₂ ◌∷◌ (pair_digest (root digest t) (root digest u)) (next_level-odd (v ∷ ts) (omega arith))

  next_level-even :
      (ts : List Tree) → length (roots ts) % 2 ≡ 0 → pair_up h (roots ts) ≡ roots (pair_trees ts)
  unfolding pair_up pair_trees
  next_level-even [] e = refl
  next_level-even (t ∷ []) e = absurd (omega arith)
  next_level-even (t ∷ u ∷ ts) e =
      ap₂ ◌∷◌ (pair_digest (root digest t) (root digest u)) (next_level-even ts (omega arith))

  next_level_lem : (ts : List Tree) → next_level h (roots ts) ≡ roots (pair_trees ts)
  unfolding next_level
  next_level_lem ts = elim (Bool-cases (length (roots ts) % 2 == 0)) [
    | inl e ↦ rw e (next_level-even ts ((==_iff _ _).0 e))
    | inr e ↦ rw e (next_level-odd ts (ground arith))
  ]

  pair_trees_pos : (ts : List Tree) → 0 < length ts → 0 < length (pair_trees ts)
  unfolding pair_trees
  pair_trees_pos [] p = p
  pair_trees_pos (t ∷ []) p = p
  pair_trees_pos (t ∷ u ∷ ts) p = omega arith

  -- From a level of trees, the recursion ends at the root of one tree over the same leaves.
  tree_hash_of_Level :
      (fuel k : ℕ) (ts : List Tree) (out : Bytes)
      → 0 < length ts
      → length ts ≤ fuel
      → Level k ts
      → (t : Tree) × (j : ℕ) × (compute_final_tree_hash h fuel (roots ts) out
          ≡ some (root digest t))
        × (leaves t ≡ all_leaves ts)
        × IsPacked j t
  unfolding compute_final_tree_hash
  tree_hash_of_Level zero k ts out nonempty enough l = absurd (omega arith)
  tree_hash_of_Level (suc f) k [] out nonempty enough l = absurd (omega arith)
  tree_hash_of_Level (suc f) k (t ∷ []) out nonempty enough l =
      (t, k, refl, sym (append-nil (leaves t)), l)
  tree_hash_of_Level (suc f) k (t ∷ u ∷ ts) out nonempty enough l =
      let (v, j, e, s, p) =
        tree_hash_of_Level f (suc k) (pair_trees (t ∷ u ∷ ts)) out
          (pair_trees_pos (t ∷ u ∷ ts) nonempty) (omega (arith, length-pair_trees (t ∷ u ∷ ts)))
          (pair_trees-Level k (t ∷ u ∷ ts) l) in
      (v, j, rw (next_level_lem (t ∷ u ∷ ts)) e, s ∙ leaves-pair_trees (t ∷ u ∷ ts), p)

  roots-leaf : (ds : List Bytes) → roots (map leaf ds) ≡ ds
  roots-leaf [] = refl
  roots-leaf (d ∷ ds) = ap (◌∷◌ d) (roots-leaf ds)

  length-leaf : (ds : List Bytes) → length (map leaf ds) ≡ length ds
  length-leaf [] = refl
  length-leaf (d ∷ ds) = ap suc (length-leaf ds)

  -- With fuel for each digest, ComputeFinalTreeHash returns, for any number of digests but zero,
  -- the root of the tree over them that is filled from the left; what `out` held is overwritten.
  pub compute_final_tree_hash_lem :
      (fuel : ℕ) (ds : List Bytes) (out : Bytes)
      → 0 < length ds
      → length ds ≤ fuel
      → (t : Tree) × (k : ℕ) × (compute_final_tree_hash h fuel ds out ≡ some (root digest t))
        × (leaves t ≡ ds)
        × IsPacked k t
  compute_final_tree_hash_lem fuel ds out nonempty enough =
      let (t, k, e, s, p) =
        tree_hash_of_Level fuel zero (map leaf ds) out (omega (arith, length-leaf ds))
          (omega (arith, length-leaf ds)) (leaf-Level ds) in
      (
        t,
        k,
        ap (λ es. compute_final_tree_hash h fuel es out) (sym (roots-leaf ds)) ∙ e,
        s ∙ leaves-leaf ds,
        p,
      )
