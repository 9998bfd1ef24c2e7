-- ===== src/BundleHasher/Pieces.antt =====
-- HashData of services/bundle-hasher-impl.cc, one vector at a time: what the engines have been
-- fed after each of its steps.
use polar_express.Base.{
  ℕ, ◌+◌, ◌-◌, ◌≤◌, ◌<◌, min, ◌≡◌, refl, sym, ap, ◌∙◌, ◌⊎◌, inl, inr, true, false, List, [], ◌∷◌,
  ◌++◌, map, flatten, append-nil, append_assoc, Bytes, arith, ◌==◌, Bool-cases, lt→ltb, ==_iff,
  length, take, length-append, length-take, All, All-append, flatten-snoc, map-snoc,
}
use polar_express.Hash.{HashEngine}
use polar_express.BundleHasher.{Progress, fill_leftover, push_final, close_piece}

module _ (h : HashEngine) (piece : ℕ) where
  open h use {Engine, fresh, update, final, digest, update_nil, update_append, final_lem}

  -- Of the bytes `seen`, `whole` are the pieces whose digests are listed, and `rest` is in the
  -- tree engine; the linear engine is `l`.
  pub record Fed (l : Engine) (seen : Bytes) (whole : List Bytes) (rest : Bytes) (p : Progress h)
      : Type 0 where
    pub full : All (λ xs. length xs ≡ piece) whole
    pub short : length rest < piece
    pub joined : flatten whole ++ rest ≡ seen
    pub linear_fed : p.linear ≡ l
    pub tree_fed : p.tree ≡ update fresh rest
    pub digested : p.digests ≡ map digest whole
    pub counted : p.bytes_in_current ≡ length rest

  -- A full piece moves from the engine to the list.
  pub push_final-Fed :
      (l : Engine) (seen : Bytes) (whole : List Bytes) (rest : Bytes) (p : Progress h)
      → 0 < piece
      → All (λ xs. length xs ≡ piece) whole
      → flatten whole ++ rest ≡ seen
      → p.linear ≡ l
      → p.tree ≡ update fresh rest
      → p.digests ≡ map digest whole
      → length rest ≡ piece
      → Fed l seen (whole ++ rest ∷ []) [] (push_final h p)
  push_final-Fed l seen whole rest p pos full joined e t d n = record {
    full = All-append _ whole (rest ∷ []) full (n, tt);
    short = pos;
    joined = append-nil _ ∙ flatten-snoc whole rest ∙ joined;
    linear_fed = e;
    tree_fed = rw (t, final_lem rest) (sym (update_nil fresh));
    digested = rw (t, final_lem rest, d) (sym (map-snoc digest whole rest));
    counted = refl;
  }

  -- The state between the first two steps and the loop over whole pieces.
  abbrev pub Filled : Engine → Bytes → Bytes → ℕ → Progress h → Type 0
  Filled l seen xs offset q =
      (whole : List Bytes) × (rest : Bytes) × Fed l (seen ++ take offset xs) whole rest q
      × (offset ≤ length xs)
      × ((rest ≡ []) ⊎ ((offset ≡ length xs) × (length xs < piece)))

  fill_none :
      (xs : Bytes) (p : Progress h) → p.bytes_in_current ≡ 0 → fill_leftover h piece xs p ≡ (0, p)
  unfolding fill_leftover
  fill_none xs p e = ground arith

  fill_some :
      (xs : Bytes) (p : Progress h)
      → 0 < p.bytes_in_current
      → let offset = min (length xs) (piece - p.bytes_in_current) in
        fill_leftover h piece xs p ≡ (
          offset,
          record p {
            tree = update p.tree (take offset xs);
            bytes_in_current = p.bytes_in_current + offset;
          },
        )
  unfolding fill_leftover
  fill_some xs p e = rw (lt→ltb _ _ e)

  close_full :
      (p : Progress h) → p.bytes_in_current ≡ piece → close_piece h piece p ≡ push_final h p
  unfolding close_piece
  close_full p e = rw ((==_iff _ _).1 e)

  close_short : (p : Progress h) → p.bytes_in_current < piece → close_piece h piece p ≡ p
  unfolding close_piece
  close_short p e = ground arith

  -- With nothing left over, the vector is not touched.
  fill_close_none :
      (l : Engine) (seen : Bytes) (whole : List Bytes) (xs : Bytes) (p : Progress h)
      → 0 < piece
      → Fed l seen whole [] p
      → Filled l seen xs
          (fill_leftover h piece xs p).0
          (close_piece h piece (fill_leftover h piece xs p).1)
  fill_close_none l seen whole xs p pos f =
      rw (fill_none xs p f.counted)
        (rw (close_short p (omega arith)) (whole, [], rw append-nil f, omega arith, inl refl))

  fill_close_some :
      (l : Engine) (seen : Bytes) (whole : List Bytes) (rest xs : Bytes) (p : Progress h)
      → 0 < piece
      → 0 < length rest
      → Fed l seen whole rest p
      → Filled l seen xs
          (fill_leftover h piece xs p).0
          (close_piece h piece (fill_leftover h piece xs p).1)
  fill_close_some l seen whole rest xs p pos some f =
      rw (fill_some xs p (omega arith)) (split (Bool-cases (length rest + k == piece)))
    where
      k : ℕ
      k = min (length xs) (piece - p.bytes_in_current)

      q : Progress h
      q = record p { tree = update p.tree (take k xs); bytes_in_current = p.bytes_in_current + k }

      joined : flatten whole ++ (rest ++ take k xs) ≡ seen ++ take k xs
      joined =
          sym (append_assoc (flatten whole) rest (take k xs)) ∙ ap (λ ys. ys ++ take k xs) f.joined

      fed : update p.tree (take k xs) ≡ update fresh (rest ++ take k xs)
      fed = rw f.tree_fed (update_append fresh rest (take k xs))

      count : length (rest ++ take k xs) ≡ length rest + k
      count = omega (arith, length-append rest (take k xs), length-take k xs)

      split :
          (((length rest + k) == piece) ≡ true) ⊎ (((length rest + k) == piece) ≡ false)
          → Filled l seen xs k (close_piece h piece q)
      split (inl e) = rw (close_full q (ground (arith, f.counted))) (
        whole ++ (rest ++ take k xs) ∷ [],
        [],
        push_final-Fed l (seen ++ take k xs) whole (rest ++ take k xs) q pos f.full joined
            f.linear_fed fed f.digested (ground (arith, count)),
        omega arith,
        inl refl,
      )
      split (inr e) = rw (close_short q (ground (arith, f.counted))) (
        whole,
        rest ++ take k xs,
        record {
          full = f.full;
          short = ground (arith, count);
          joined = joined;
          linear_fed = f.linear_fed;
          tree_fed = fed;
          digested = f.digested;
          counted = omega (arith, count, f.counted);
        },
        omega arith,
        inr (ground (arith, f.counted), ground (arith, f.counted)),
      )

  pub fill_close-Filled :
      (l : Engine) (seen : Bytes) (whole : List Bytes) (rest xs : Bytes) (p : Progress h)
      → 0 < piece
      → Fed l seen whole rest p
      → Filled l seen xs
          (fill_leftover h piece xs p).0
          (close_piece h piece (fill_leftover h piece xs p).1)
  fill_close-Filled l seen whole [] xs p pos f = fill_close_none l seen whole xs p pos f
  fill_close-Filled l seen whole (r ∷ rs) xs p pos f =
      fill_close_some l seen whole (r ∷ rs) xs p pos (omega arith) f
