-- ===== src/BundleHasher/Vectors.antt =====
-- HashData of services/bundle-hasher-impl.cc: the body of its loop over the vectors.
use polar_express.Base.{
  ℕ, zero, suc, ◌+◌, ◌-◌, ◌≤◌, ◌<◌, ◌≡◌, refl, sym, ap, subst, ◌∙◌, ◌⊎◌, inl, inr, true, false,
  List, [], ◌∷◌, ◌++◌, flatten, append-nil, append_assoc, Bytes, arith, leb, ◌==◌, Bool-cases,
  length, take, drop, length-take, length-drop, take-append-drop, take_all, take-add, All-append,
  flatten-snoc, map-snoc, leb→le, ==_iff,
}
use polar_express.Hash.{HashEngine}
use polar_express.BundleHasher.{
  Progress, fill_leftover, close_piece, push_piece, whole_pieces, keep_leftover, add_data,
}
use polar_express.BundleHasher.Pieces.{Fed, Filled, fill_close-Filled}

module _ (h : HashEngine) (piece : ℕ) where
  open h use {Engine, fresh, update, final, digest, update_nil, update_append, final_lem}

  push_piece-Fed :
      (l : Engine) (seen xs : Bytes) (whole : List Bytes) (offset : ℕ) (p : Progress h)
      → 0 < piece
      → offset + piece ≤ length xs
      → Fed h piece l (seen ++ take offset xs) whole [] p
      → Fed h piece l
          (seen ++ take (offset + piece) xs)
          (whole ++ take piece (drop offset xs) ∷ [])
          []
          (push_piece h piece xs offset p)
  unfolding push_piece
  push_piece-Fed l seen xs whole offset p pos room f = record {
    full =
        All-append _ whole _ f.full
          (omega (arith, length-take piece (drop offset xs), length-drop offset xs), tt);
    short = pos;
    joined =
        append-nil _
        ∙ flatten-snoc whole x
        ∙ ap (λ ys. ys ++ x) (sym (append-nil (flatten whole)) ∙ f.joined)
        ∙ append_assoc seen (take offset xs) x
        ∙ ap (◌++◌ seen) (take-add offset piece (offset + piece) xs refl);
    linear_fed = f.linear_fed;
    tree_fed = rw step (sym (update_nil fresh));
    digested = rw (step, f.digested) (sym (map-snoc digest whole x));
    counted = f.counted;
  }
    where
      x : Bytes
      x = take piece (drop offset xs)

      step : final (update p.tree x) ≡ (digest x, fresh)
      step = rw (f.tree_fed, update_append fresh [] x) (final_lem x)

  -- The loop stops at the last offset that leaves less than a piece.
  whole_pieces-Fed :
      (fuel : ℕ) (l : Engine) (seen xs : Bytes) (whole : List Bytes) (offset : ℕ) (p : Progress h)
      → 0 < piece
      → piece ≤ length xs
      → offset ≤ length xs
      → length xs ≤ fuel + offset
      → Fed h piece l (seen ++ take offset xs) whole [] p
      → let (offset', q) = whole_pieces h piece fuel xs offset p in
        (whole' : List Bytes) × Fed h piece l (seen ++ take offset' xs) whole' [] q
        × (offset' ≤ length xs)
        × (length xs < offset' + piece)
  unfolding whole_pieces
  whole_pieces-Fed zero l seen xs whole offset p pos big le enough f = (whole, f, le, omega arith)
  whole_pieces-Fed (suc fuel) l seen xs whole offset p pos big le enough f =
      elim (Bool-cases (leb offset (length xs - piece))) [
        | inl more ↦
            let room : offset + piece ≤ length xs = omega (arith, leb→le _ _ more) in
            rw more (
              whole_pieces-Fed fuel l seen xs _ (offset + piece) (push_piece h piece xs offset p)
                pos big room (omega arith) (push_piece-Fed l seen xs whole offset p pos room f))
        | inr done ↦ rw done (whole, f, le, ground arith)
      ]

  -- What is left over is shorter than a piece, and goes to an empty engine.
  keep_leftover-Fed :
      (l : Engine) (seen xs : Bytes) (whole : List Bytes) (rest : Bytes) (offset : ℕ)
      (p : Progress h)
      → offset ≤ length xs
      → (offset ≡ length xs) ⊎ ((rest ≡ []) × (length xs < offset + piece))
      → Fed h piece l (seen ++ take offset xs) whole rest p
      → (rest' : Bytes) × Fed h piece l (seen ++ xs) whole rest' (keep_leftover h piece xs offset p)
  unfolding keep_leftover
  keep_leftover-Fed l seen xs whole rest offset p le (inl e) f = rw ((==_iff _ _).1 e) (
    rest,
    subst (λ ys. Fed h piece l (seen ++ ys) whole rest p) (take_all offset xs (omega arith)) f,
  )
  keep_leftover-Fed l seen xs whole rest offset p le (inr (none_left, fits)) f =
      elim (Bool-cases (offset == length xs)) [
        | inl e ↦ rw e (
          rest,
          subst (λ ys. Fed h piece l (seen ++ ys) whole rest p) (take_all offset xs (ground arith))
              f,
        )
        | inr e ↦ rw e (
          drop offset xs,
          record {
            full = f.full;
            short = omega (arith, length-drop offset xs);
            joined =
                ap (λ ys. ys ++ drop offset xs)
                  (sym (append-nil (flatten whole))
                    ∙ ap (◌++◌ (flatten whole)) (sym none_left)
                    ∙ f.joined)
                ∙ append_assoc seen (take offset xs) (drop offset xs)
                ∙ ap (◌++◌ seen) (take-append-drop offset xs);
            linear_fed = f.linear_fed;
            tree_fed =
                ap (λ e. update e (drop offset xs)) (f.tree_fed ∙ ap (update fresh) none_left)
                ∙ update_append fresh [] (drop offset xs);
            digested = f.digested;
            counted = omega (arith, length-drop offset xs);
          },
        )
      ]

  -- One vector.
  pub add_data-Fed :
      (seen xs : Bytes) (whole : List Bytes) (rest : Bytes) (p : Progress h)
      → 0 < piece
      → Fed h piece (update fresh seen) seen whole rest p
      → (whole' : List Bytes) × (rest' : Bytes) × Fed h piece
          (update fresh (seen ++ xs))
          (seen ++ xs)
          whole'
          rest'
          (add_data h piece xs p)
  unfolding add_data
  add_data-Fed seen xs whole rest p pos f =
      loop (fill_close-Filled h piece l seen whole rest xs p' pos fed)
        (Bool-cases (leb piece (length xs)))
    where
      l : Engine
      l = update fresh (seen ++ xs)

      p' : Progress h
      p' = record p { linear = update p.linear xs }

      fed : Fed h piece l seen whole rest p'
      fed = record {
        full = f.full;
        short = f.short;
        joined = f.joined;
        linear_fed = rw f.linear_fed (update_append fresh seen xs);
        tree_fed = f.tree_fed;
        digested = f.digested;
        counted = f.counted;
      }

      offset : ℕ
      offset = (fill_leftover h piece xs p').0

      q : Progress h
      q = close_piece h piece (fill_leftover h piece xs p').1

      loop :
          Filled h piece l seen xs offset q
          → (leb piece (length xs) ≡ true) ⊎ (leb piece (length xs) ≡ false)
          → (whole' : List Bytes) × (rest' : Bytes) × Fed h piece l
              (seen ++ xs)
              whole'
              rest'
              (add_data h piece xs p)
      loop (w, r, g, le, inl none_left) (inl big) = rw big (
          let (w', g', le', fits) =
            whole_pieces-Fed (length xs) l seen xs w offset q pos (leb→le _ _ big) le (omega arith)
              (subst (λ ys. Fed h piece l (seen ++ take offset xs) w ys q) none_left g) in
          let (r', g'') = keep_leftover-Fed l seen xs w' [] _ _ le' (inr (refl, fits)) g' in
          (w', r', g''))
      loop (w, r, g, le, inr (_, small)) (inl big) = absurd (omega (arith, leb→le _ _ big))
      loop (w, r, g, le, inl none_left) (inr small) = rw small (
          let (r', g') =
            keep_leftover-Fed l seen xs w r offset q le (inr (none_left, ground arith)) g in
          (w, r', g'))
      loop (w, r, g, le, inr (all, _)) (inr small) =
          rw small
            (let (r', g') = keep_leftover-Fed l seen xs w r offset q le (inl all) g in (w, r', g'))
