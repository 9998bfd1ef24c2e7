-- ===== src/BundleHasher/Digests.antt =====
-- HashData of services/bundle-hasher-impl.cc as a whole: its intermediate digests are those of the
-- consecutive pieces of the joined data, and the linear digest is that of the joined data.
use polar_express.Base.{
  ℕ, suc, ◌≤◌, ◌<◌, ◌≡◌, refl, sym, subst, ◌∙◌, false, List, [], ◌∷◌, ◌++◌, map, flatten,
  append-nil, append_assoc, Bytes, arith, ◌==◌, length, All, flatten-snoc, map-snoc, ==_iff,
}
use polar_express.Hash.{HashEngine}
use polar_express.BundleHasher.{
  Progress, start, add_data, add_all, close_last, intermediate_digests,
}
use polar_express.BundleHasher.Pieces.{Fed}
use polar_express.BundleHasher.Vectors.{add_data-Fed}

-- The pieces of some data: each of the full size but the last, which has at least one byte.
abbrev pub ArePieces : ℕ → List Bytes → Type 0
ArePieces piece [] = Unit {0}
ArePieces piece (p ∷ []) = (0 < length p) × (length p ≤ piece)
ArePieces piece (p ∷ q ∷ ps) = (length p ≡ piece) × ArePieces piece (q ∷ ps)

ArePieces-full :
    (piece : ℕ) (ps : List Bytes)
    → 0 < piece
    → All (λ xs. length xs ≡ piece) ps
    → ArePieces piece ps
ArePieces-full piece [] pos full = tt
ArePieces-full piece (p ∷ []) pos full = omega arith
ArePieces-full piece (p ∷ q ∷ ps) pos full = (full.0, ArePieces-full piece (q ∷ ps) pos full.1)

ArePieces-snoc :
    (piece : ℕ) (ps : List Bytes) (r : Bytes)
    → 0 < length r
    → length r ≤ piece
    → All (λ xs. length xs ≡ piece) ps
    → ArePieces piece (ps ++ r ∷ [])
ArePieces-snoc piece [] r some short full = (some, short)
ArePieces-snoc piece (p ∷ []) r some short full = (full.0, (some, short))
ArePieces-snoc piece (p ∷ q ∷ ps) r some short full =
    (full.0, ArePieces-snoc piece (q ∷ ps) r some short full.1)

module _ (h : HashEngine) (piece : ℕ) where
  open h use {Engine, fresh, update, final, digest, update_nil, update_append, final_lem}

  add_all-Fed :
      (xss : List Bytes) (seen : Bytes) (whole : List Bytes) (rest : Bytes) (p : Progress h)
      → 0 < piece
      → Fed h piece (update fresh seen) seen whole rest p
      → (whole' : List Bytes) × (rest' : Bytes) × Fed h piece
          (update fresh (seen ++ flatten xss))
          (seen ++ flatten xss)
          whole'
          rest'
          (add_all h piece xss p)
  unfolding add_all flatten
  add_all-Fed [] seen whole rest p pos f = (whole, rest, rw append-nil f)
  add_all-Fed ([] ∷ xss) seen whole rest p pos f = add_all-Fed xss seen whole rest p pos f
  add_all-Fed ((x ∷ xs) ∷ xss) seen whole rest p pos f =
      let (w, r, g) = add_data-Fed h piece seen (x ∷ xs) whole rest p pos f in
      let (w', r', g') = add_all-Fed xss (seen ++ x ∷ xs) w r (add_data h piece (x ∷ xs) p) pos g in
      (
        w',
        r',
        subst (λ ys. Fed h piece (update fresh ys) ys w' r' (add_all h piece ((x ∷ xs) ∷ xss) p))
            (append_assoc seen (x ∷ xs) (flatten xss)) g',
      )

  -- However the data is spread over the vectors, the intermediate digests are those of its
  -- consecutive pieces, and the linear engine has been fed all of it in order.
  pub intermediate_digests_lem :
      (xss : List Bytes)
      → 0 < piece
      → let p = intermediate_digests h piece xss in
        (ps : List Bytes) × ArePieces piece ps
        × (flatten ps ≡ flatten xss)
        × (p.digests ≡ map digest ps)
        × (p.linear ≡ update fresh (flatten xss))
  unfolding intermediate_digests close_last flatten
  intermediate_digests_lem xss pos = finish (add_all-Fed xss [] [] [] (start h) pos empty)
    where
      empty : Fed h piece (update fresh []) [] [] [] (start h)
      empty = record {
        full = tt;
        short = pos;
        joined = refl;
        linear_fed = sym (update_nil fresh);
        tree_fed = sym (update_nil fresh);
        digested = refl;
        counted = refl;
      }

      q : Progress h
      q = add_all h piece xss (start h)

      Done : Type 0
      Done =
          (ps : List Bytes) × ArePieces piece ps
          × (flatten ps ≡ flatten xss)
          × ((close_last h piece q).digests ≡ map digest ps)
          × ((close_last h piece q).linear ≡ update fresh (flatten xss))

      finish :
          ((whole : List Bytes) × (rest : Bytes) × Fed h piece
              (update fresh (flatten xss))
              (flatten xss)
              whole
              rest
              q)
          → Done
      finish (w, [], f) = rw ((==_iff _ _).1 f.counted) (
        w,
        ArePieces-full piece w pos f.full,
        sym (append-nil (flatten w)) ∙ f.joined,
        f.digested,
        f.linear_fed,
      )
      finish (w, r ∷ rs, f) = rw (some_left f.counted) (
        w ++ (r ∷ rs) ∷ [],
        ArePieces-snoc piece w (r ∷ rs) (omega arith) (omega (arith, f.short)) f.full,
        flatten-snoc w (r ∷ rs) ∙ f.joined,
        (rw (f.tree_fed, final_lem (r ∷ rs), f.digested) (sym (map-snoc digest w (r ∷ rs)))),
        f.linear_fed,
      )
        where
          some_left : {n : ℕ} → q.bytes_in_current ≡ suc n → (q.bytes_in_current == 0) ≡ false
          some_left e = ground arith
