-- ===== src/Bundle/Files.antt =====
-- file/bundle.cc: one file of the archive, from StartNewFile to EndCurrentFile.
use polar_express.Base.{
  ℕ, ◌+◌, ◌*◌, ◌/◌, ◌^◌, ◌<◌, ◌≡◌, refl, sym, ap, subst, ◌∙◌, Option, none, some, [], ◌∷◌, ◌++◌,
  Bytes, arith, length, take, replicate, All, length-append, length-replicate, take_append,
  drop_append, append-nil, append_assoc, bind-some, assert,
}
use polar_express.Tar.{tar_header_block_length, write_at, overwrite}
use polar_express.Bundle.{
  append_file, append_data, System, IsUsual, Bundle, size, at_header, first_fields, last_fields,
  start_new_file, is_null, end_file, end_current_file, padding_size,
}
use polar_express.Bundle.Archive.{Begun, Complete, first_fields_lem, last_fields_lem}

-- The bytes of a file in the archive: its header, its contents, and zeros up to whole blocks.
pub record IsFile (sys : System) (name contents xs : Bytes) : Type 0 where
  pub header : Bytes
  pub now : ℕ
  pub padding : ℕ
  pub complete : Complete sys name (length contents) now header
  pub parts : xs ≡ header ++ contents ++ replicate padding 0
  pub whole_blocks :
      length xs ≡ (length contents / tar_header_block_length + 2) * tar_header_block_length

whole_blocks_lem :
    (header contents : Bytes)
    → length header ≡ tar_header_block_length
    → length (header ++ contents ++ replicate (padding_size (length contents)) 0)
      ≡ (length contents / tar_header_block_length + 2) * tar_header_block_length
unfolding padding_size
whole_blocks_lem header contents block =
    let n : ℕ = length contents in
    omega (
      arith,
      length-append (header ++ contents) (replicate (padding_size n) 0),
      length-append header contents,
      length-replicate {A = ℕ} (padding_size n) 0,
      block,
    )

overwrite-append : (ys zs c : Bytes) → length ys ≡ length zs → overwrite ys (zs ++ c) ≡ ys ++ c
unfolding overwrite
overwrite-append [] [] c e = refl
overwrite-append [] (z ∷ zs) c e = absurd (omega arith)
overwrite-append (y ∷ ys) [] c e = absurd (omega arith)
overwrite-append (y ∷ ys) (z ∷ zs) c e = ap (◌∷◌ y) (overwrite-append ys zs c (omega arith))

write_at-append :
    (xs ys zs c : Bytes)
    → length ys ≡ length zs
    → write_at (length xs) ys (xs ++ (zs ++ c)) ≡ xs ++ (ys ++ c)
unfolding write_at
write_at-append [] ys zs c e = overwrite-append ys zs c e
write_at-append (x ∷ xs) ys zs c e = ap (◌∷◌ x) (write_at-append xs ys zs c e)

take-whole : (n : ℕ) (h c : Bytes) → length h ≡ n → take n (h ++ c) ≡ h
take-whole n h c e = subst (λ k. take k (h ++ c) ≡ h) e (take_append h c)

-- A change of the header that stands behind some bytes and before others.
at_header_lem :
    (f : Bytes → Option Bytes) (xs h c h' : Bytes)
    → length h ≡ tar_header_block_length
    → length h' ≡ tar_header_block_length
    → f h ≡ some h'
    → at_header f (length xs) (xs ++ (h ++ c)) ≡ some (xs ++ (h' ++ c))
unfolding at_header
at_header_lem f xs h c h' e e' made =
    bind-some (λ ys. some (write_at (length xs) ys (xs ++ (h ++ c))))
      (ap (λ zs. f (take tar_header_block_length zs)) (drop_append xs (h ++ c))
        ∙ ap f (take-whole tar_header_block_length h c e)
        ∙ made)
      (ap some (write_at-append xs h' h c (e' ∙ sym e)))

at_header-last :
    (f : Bytes → Option Bytes) (xs h h' : Bytes)
    → length h ≡ tar_header_block_length
    → length h' ≡ tar_header_block_length
    → f h ≡ some h'
    → at_header f (length xs) (xs ++ h) ≡ some (xs ++ h')
at_header-last f xs h h' e e' made =
    ap (λ zs. at_header f (length xs) (xs ++ zs)) (sym (append-nil h))
    ∙ at_header_lem f xs h [] h' e e' made
    ∙ ap (λ zs. some (xs ++ zs)) (append-nil h')

-- StartNewFile puts a header behind the bytes.
pub start_new_file_lem :
    {Block : Type 0} (sys : System) (name : Bytes) (b : Bundle Block)
    → IsUsual sys
    → All (λ c. c < 256) name
    → b.current_tar_header_block ≡ none
    → (h : Bytes) × (start_new_file sys name b
        ≡ some (record b {
          bundle_data = b.bundle_data ++ h;
          current_tar_header_block = some (size b);
        }))
      × Begun sys name h
unfolding start_new_file
start_new_file_lem sys name b usual a e =
    let zs : Bytes = replicate tar_header_block_length 0 in
    let (h, made, begun) = first_fields_lem sys name zs usual a in
    let put : at_header (first_fields sys name) (size b) (b.bundle_data ++ zs)
        ≡ some (b.bundle_data ++ h) =
      at_header-last (first_fields sys name) b.bundle_data zs h
        (length-replicate {A = ℕ} tar_header_block_length 0) begun.block made in
    (h, bind-some _ (ap (λ o. assert (is_null o)) e) (bind-some _ put refl), begun)

-- EndCurrentFile completes the file whose header stands behind the first bytes.
pub end_current_file_lem :
    {Block : Type 0} (sys : System) (name : Bytes) (now : ℕ) (xs h c : Bytes) (b : Bundle Block)
    → b.current_tar_header_block ≡ some (length xs)
    → b.bundle_data ≡ xs ++ (h ++ c)
    → Begun sys name h
    → length c < 8 ^ 11
    → now < 8 ^ 11
    → (ys : Bytes) × (end_current_file (length c) now b
        ≡ some (record b { bundle_data = xs ++ ys; current_tar_header_block = none }))
      × IsFile sys name c ys
unfolding end_current_file
end_current_file_lem sys name now xs h c b e d begun small early =
    let (h', made, complete) = last_fields_lem sys name (length c) now h begun small early in
    let zs : Bytes = replicate (padding_size (length c)) 0 in
    let put : at_header (last_fields (length c) now) (length xs) b.bundle_data
        ≡ some (xs ++ (h' ++ c)) =
      ap (at_header (last_fields (length c) now) (length xs)) d
      ∙ at_header_lem (last_fields (length c) now) xs h c h' begun.block complete.block made in
    (
      h' ++ c ++ zs,
      ap (λ o. end_file o (length c) now b) e
          ∙ bind-some _ put (
              ap (λ ts. some (record b { bundle_data = ts; current_tar_header_block = none }))
                (assoc zs h')),
      record {
        header = h';
        now = now;
        padding = padding_size (length c);
        complete = complete;
        parts = refl;
        whole_blocks = whole_blocks_lem h' c complete.block;
      },
    )
  where
    assoc : (zs h' : Bytes) → xs ++ (h' ++ c) ++ zs ≡ xs ++ (h' ++ c ++ zs)
    assoc zs h' = append_assoc xs (h' ++ c) zs

-- A file whose contents are given at once.
pub append_file_lem :
    {Block : Type 0} (sys : System) (name contents : Bytes) (now : ℕ) (b : Bundle Block)
    → IsUsual sys
    → All (λ c. c < 256) name
    → b.current_tar_header_block ≡ none
    → length contents < 8 ^ 11
    → now < 8 ^ 11
    → (ys : Bytes) × (append_file sys name contents now b
        ≡ some (record b { bundle_data = b.bundle_data ++ ys; current_tar_header_block = none }))
      × IsFile sys name contents ys
unfolding append_file
append_file_lem sys name contents now b usual a e small early =
    let (h, started, begun) = start_new_file_lem sys name b usual a e in
    let c : Bundle _ = record b {
      bundle_data = b.bundle_data ++ h ++ contents;
      current_tar_header_block = some (size b);
    } in
    let (ys, ended, file) =
      end_current_file_lem sys name now b.bundle_data h contents c refl
        (append_assoc b.bundle_data h contents) begun small early in
    (
      ys,
      bind-some (λ x. end_current_file (length contents) now (append_data contents x)) started
          ended,
      file,
    )
