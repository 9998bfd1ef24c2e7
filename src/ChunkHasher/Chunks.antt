-- ===== src/ChunkHasher/Chunks.antt =====
-- services/chunk-hasher-impl.cc: the chunks of a file are its consecutive blocks.
use polar_express.Base.{
  ℕ, zero, suc, ◌+◌, ◌≤◌, ◌<◌, ◌≡◌, refl, sym, ap, ap₂, ◌∙◌, true, false, inl, inr, Option, some,
  List, [], ◌∷◌, ◌++◌, Bytes, map, flatten, length, take, drop, ltb, lt→ltb, ltb→lt, ◌==◌, arith,
  All, Bool-cases, append-nil, append_assoc, length-take, length-drop, take_all, take-append-drop,
  take-add, bind-some,
}
use polar_express.Hash.{HashEngine}
use polar_express.BundleHasher.Digests.{ArePieces}
use polar_express.ChunkHasher.{
  text_of, Chunk, Snapshot, read_block_data, hash_block, update_hashes, continue_generating,
  finish_or_continue, generate_and_hash_chunks, Result,
}
use polar_express.ChunkHasher.Blocks.{
  block_of, lt_or_le, drop-drop, ArePieces-cons, read_full, read_last,
}

module _ (h : HashEngine) (size : ℕ) (file : Bytes) where
  open h use {Engine, fresh, update, final, digest, hex, update_append, update_nil, final_lem}

  -- A chunk has the digest of the bytes that it names.
  abbrev pub IsHashed : Chunk → Type 0
  IsHashed c = c.sha1_digest ≡ hex (digest (block_of file c))

  -- The chunks of the file from an offset on.
  pub record AreChunks (offset : ℕ) (cs : List Chunk) : Type 0 where
    pub blocks : ArePieces size (map (block_of file) cs)
    pub all_bytes : flatten (map (block_of file) cs) ≡ drop offset file
    pub hashed : All IsHashed cs

  hash_block_lem : (xs : Bytes) → hash_block h xs ≡ hex (digest xs)
  unfolding hash_block
  hash_block_lem xs = ap (λ r. hex r.0) (final_lem xs)

  abbrev chunk_at : ℕ → Bytes → Chunk
  chunk_at offset xs = record {
    offset = offset;
    block_length = length xs;
    sha1_digest = hash_block h xs;
  }

  update_hashes-some :
      (xs : Bytes) (offset : ℕ) (cs : List Chunk) (e : Engine)
      → 0 < length xs
      → update_hashes h xs offset cs e ≡ (cs ++ chunk_at offset xs ∷ [], update e xs)
  unfolding update_hashes
  update_hashes-some [] offset cs e nonempty = absurd (omega arith)
  update_hashes-some (x ∷ xs) offset cs e nonempty = refl

  -- What a block leads to.
  abbrev after : ℕ → ℕ → List Chunk → Engine → Bytes → Option (Result h)
  after f offset cs e xs =
      finish_or_continue h size xs (update_hashes h xs offset cs e).0
        (update_hashes h xs offset cs e).1
        (continue_generating h size f file (offset + length xs) (update_hashes h xs offset cs e).0
          (update_hashes h xs offset cs e).1)

  continue_generating-suc :
      (f offset : ℕ) (cs : List Chunk) (e : Engine)
      → continue_generating h size (suc f) file offset cs e
        ≡ after f offset cs e (read_block_data file offset size)
  unfolding continue_generating
  continue_generating-suc f offset cs e = refl

  abbrev Generates : ℕ → ℕ → List Chunk → Engine → Type 0
  Generates f offset cs e =
      (new : List Chunk) × (continue_generating h size f file offset cs e
        ≡ some (cs ++ new, hex (digest file), fresh))
      × AreChunks offset new

  finished :
      (xs : Bytes) (ds : List Chunk) (e : Engine) (rest : Option (Result h))
      → length xs < size
      → e ≡ update fresh file
      → finish_or_continue h size xs ds e rest ≡ some (ds, hex (digest file), fresh)
  finished xs ds e rest short fed =
      rw (lt→ltb (length xs) size short)
        (ap (λ r. some (ds, hex r.0, r.1)) (ap final fed ∙ final_lem file))

  last_block :
      (f offset : ℕ) (cs : List Chunk) (e : Engine) (xs : Bytes)
      → xs ≡ drop offset file
      → length xs < size
      → e ≡ update fresh (take offset file)
      → (new : List Chunk) × (after f offset cs e xs ≡ some (cs ++ new, hex (digest file), fresh))
        × AreChunks offset new
  unfolding update_hashes flatten
  last_block f offset cs e [] d short fed = (
    [],
    finished [] cs e _ short (
          fed
          ∙ ap (update fresh) (
              sym (append-nil (take offset file))
              ∙ ap (λ ys. take offset file ++ ys) d
              ∙ take-append-drop offset file))
        ∙ ap (λ ds. some (ds, hex (digest file), fresh)) (sym (append-nil cs)),
    record { blocks = tt; all_bytes = d; hashed = tt },
  )
  last_block f offset cs e (x ∷ xs) d short fed =
      let c = chunk_at offset (x ∷ xs) in
      let block : block_of file c ≡ x ∷ xs =
        ap (take (length (x ∷ xs))) (sym d) ∙ take_all (length (x ∷ xs)) (x ∷ xs) (omega arith) in
      (
        c ∷ [],
        finished (x ∷ xs) (cs ++ c ∷ []) (update e (x ∷ xs)) _ short (
            ap (λ e'. update e' (x ∷ xs)) fed
            ∙ update_append fresh (take offset file) (x ∷ xs)
            ∙ ap (update fresh)
                (ap (λ ys. take offset file ++ ys) d ∙ take-append-drop offset file)),
        record {
          blocks = (omega (arith, ap length block), omega (arith, ap length block));
          all_bytes = append-nil _ ∙ block ∙ d;
          hashed = (hash_block_lem (x ∷ xs) ∙ ap (λ ys. hex (digest ys)) (sym block), tt);
        },
      )

  unfinished :
      (xs : Bytes) (ds : List Chunk) (e : Engine) (rest : Option (Result h))
      → length xs ≡ size
      → finish_or_continue h size xs ds e rest ≡ rest
  unfinished xs ds e rest n = elim (Bool-cases (ltb (length xs) size)) [
    | inl t ↦ absurd (omega (arith, ltb→lt (length xs) size t))
    | inr t ↦ rw t refl
  ]

  -- A whole block, and then the rest of the file.
  full_block :
      (f offset : ℕ) (cs : List Chunk) (e : Engine)
      → 0 < size
      → offset + size ≤ length file
      → e ≡ update fresh (take offset file)
      → ((ds : List Chunk) (e' : Engine)
          → e' ≡ update fresh (take (offset + size) file)
          → Generates f (offset + size) ds e')
      → (new : List Chunk) × (after f offset cs e (take size (drop offset file))
          ≡ some (cs ++ new, hex (digest file), fresh))
        × AreChunks offset new
  unfolding flatten
  full_block f offset cs e pos inside fed go_on =
      let xs : Bytes = take size (drop offset file) in
      let n : length xs ≡ size =
        omega (arith, length-take size (drop offset file), length-drop offset file) in
      let c : Chunk = chunk_at offset xs in
      let e' : Engine = update e xs in
      let fed' : e' ≡ update fresh (take (offset + size) file) =
        ap (λ e0. update e0 xs) fed
        ∙ update_append fresh (take offset file) xs
        ∙ ap (update fresh) (take-add offset size (offset + size) file refl) in
      let (new, run, all) = go_on (cs ++ c ∷ []) e' fed' in
      let block : block_of file c ≡ xs = ap (λ k. take k (drop offset file)) n in
      (
        c ∷ new,
        ap
              (λ r.
                finish_or_continue h size xs r.0 r.1
                  (continue_generating h size f file (offset + length xs) r.0 r.1))
              (update_hashes-some xs offset cs e (omega arith))
            ∙ unfinished xs (cs ++ c ∷ []) e' _ n
            ∙ ap (λ k. continue_generating h size f file (offset + k) (cs ++ c ∷ []) e') n
            ∙ run
            ∙ ap (λ ds. some (ds, hex (digest file), fresh)) (append_assoc cs (c ∷ []) new),
        record {
          blocks =
              ArePieces-cons size (block_of file c) (map (block_of file) new) pos
                (ap length block ∙ n) all.blocks;
          all_bytes =
              ap₂ (λ a b. a ++ b) block
                (all.all_bytes ∙ sym (drop-drop offset size (offset + size) file refl))
              ∙ take-append-drop size (drop offset file);
          hashed = (hash_block_lem xs ∙ ap (λ ys. hex (digest ys)) (sym block), all.hashed);
        },
      )

  -- With enough fuel the loop ends, and the chunks that it adds are those of the rest of the file.
  pub continue_generating_lem :
      (f offset : ℕ) (cs : List Chunk) (e : Engine)
      → 0 < size
      → offset ≤ length file
      → length file < f + offset
      → e ≡ update fresh (take offset file)
      → Generates f offset cs e
  continue_generating_lem zero offset cs e pos inside fuel fed = absurd (omega arith)
  continue_generating_lem (suc f) offset cs e pos inside fuel fed =
      elim (lt_or_le (length file) (offset + size)) [
        | inl short ↦
            let (new, run, all) =
              last_block f offset cs e (drop offset file) refl
                (omega (arith, length-drop offset file)) fed in
            (
              new,
              continue_generating-suc f offset cs e
                  ∙ ap (after f offset cs e) (read_last file offset size inside short)
                  ∙ run,
              all,
            )
        | inr full ↦
            let (new, run, all) = full_block f offset cs e pos full fed (λ ds e' fed'.
              continue_generating_lem f (offset + size) ds e' pos full (omega arith) fed') in
            (
              new,
              continue_generating-suc f offset cs e
                  ∙ ap (after f offset cs e) (read_full file offset size pos full)
                  ∙ run,
              all,
            )
      ]

  -- For a regular file with a length, and more fuel than the file has bytes, GenerateAndHashChunks
  -- ends. The chunks that it adds to the snapshot are the consecutive blocks of the file: each is of
  -- the maximal size but the last, which has at least one byte; joined, they are the file. Each
  -- chunk has the digest of its block, the file's digest is appended to the text that the snapshot
  -- had for it, and the engine is ready for the next file.
  pub generate_and_hash_chunks_lem :
      (f : ℕ) (s : Snapshot)
      → 0 < size
      → length file < f
      → s.is_regular ≡ true
      → 0 < s.file_length
      → (new : List Chunk) × (generate_and_hash_chunks h size f file s fresh
          ≡ some (
            record s {
              chunks = s.chunks ++ new;
              whole_sha1_digest = some (text_of s.whole_sha1_digest ++ hex (digest file));
            },
            fresh,
          ))
        × ArePieces size (map (block_of file) new)
        × (flatten (map (block_of file) new) ≡ file)
        × All IsHashed new
  unfolding generate_and_hash_chunks
  generate_and_hash_chunks_lem f s pos fuel regular long =
      let (new, run, all) =
        continue_generating_lem f 0 s.chunks fresh pos (omega arith) (omega arith)
          (sym (update_nil fresh)) in
      (
        new,
        rw (regular, nonzero s.file_length long) (bind-some _ run refl),
        all.blocks,
        all.all_bytes,
        all.hashed,
      )
    where
      nonzero : (n : ℕ) → 0 < n → (n == 0) ≡ false
      nonzero n p = ground arith
