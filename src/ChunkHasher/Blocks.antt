-- ===== src/ChunkHasher/Blocks.antt =====
-- services/chunk-hasher-impl.cc: what the reader returns, and lists of blocks.
use polar_express.Base.{
  ℕ, zero, suc, ◌+◌, ◌≤◌, ◌<◌, ◌≡◌, sym, ap, false, ◌⊎◌, inl, inr, List, [], ◌∷◌, Bytes, length,
  take, drop, ltb, lt→ltb, ltb→lt, arith, Bool-cases, length-drop, take_all, drop_all,
}
use polar_express.BundleHasher.Digests.{ArePieces}
use polar_express.ChunkHasher.{Chunk, read_block_data}

-- The bytes of a file that a chunk names.
abbrev pub block_of : Bytes → Chunk → Bytes
block_of file c = take c.block_length (drop c.offset file)

pub ltb-false : (a b : ℕ) → ltb a b ≡ false → b ≤ a
ltb-false a b e = ground arith

pub lt_or_le : (a b : ℕ) → (a < b) ⊎ (b ≤ a)
lt_or_le a b = elim (Bool-cases (ltb a b)) [
  | inl e ↦ inl (ltb→lt a b e)
  | inr e ↦ inr (ltb-false a b e)
]

pub drop-drop : (m n k : ℕ) (xs : Bytes) → k ≡ m + n → drop n (drop m xs) ≡ drop k xs
drop-drop zero n k xs e = let e' : k ≡ n = omega arith in ap (λ j. drop j xs) (sym e')
drop-drop (suc m) n zero xs e = absurd (omega arith)
drop-drop (suc m) n (suc k) [] e = drop_all n [] (omega arith)
drop-drop (suc m) n (suc k) (x ∷ xs) e = drop-drop m n k xs (omega arith)

pub ArePieces-cons :
    (size : ℕ) (p : Bytes) (ps : List Bytes)
    → 0 < size
    → length p ≡ size
    → ArePieces size ps
    → ArePieces size (p ∷ ps)
ArePieces-cons size p [] pos n a = (omega arith, omega arith)
ArePieces-cons size p (q ∷ ps) pos n a = (n, a)

pub read_full :
    (file : Bytes) (offset size : ℕ)
    → 0 < size
    → offset + size ≤ length file
    → read_block_data file offset size ≡ take size (drop offset file)
unfolding read_block_data
read_full file offset size pos inside =
    rw (lt→ltb offset (length file) (omega arith), lt→ltb 0 size pos)
      (ap (λ n. take n (drop offset file)) (omega arith))

pub read_last :
    (file : Bytes) (offset size : ℕ)
    → offset ≤ length file
    → length file < offset + size
    → read_block_data file offset size ≡ drop offset file
unfolding read_block_data
read_last file offset size inside short = elim (Bool-cases (ltb offset (length file))) [
  | inl e ↦
      rw (e, lt→ltb 0 size (omega (arith, ltb→lt offset (length file) e)))
        (take_all _ (drop offset file) (omega (arith, length-drop offset file)))
  | inr e ↦ rw e (sym (drop_all offset file (ltb-false offset (length file) e)))
]
