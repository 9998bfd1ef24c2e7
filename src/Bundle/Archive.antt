-- ===== src/Bundle/Archive.antt =====
-- file/bundle.cc: the header block of a file, as StartNewFile and EndCurrentFile leave it.
use polar_express.Base.{
  ℕ, ◌+◌, ◌^◌, ◌≤◌, ◌<◌, ◌≡◌, refl, ap, ◌∙◌, ◌⊎◌, inl, inr, some, [], ◌∷◌, Bytes, arith, length,
  replicate, All, length-replicate, ◌>>=◌, bind-some,
}
use polar_express.Tar.{
  tar_header_block_length, filename_field, mode_field, owner_uid_field, owner_gid_field, size_field,
  modification_time_field, checksum_field, link_indicator_field, Field, read_field, new_header,
  set_filename, set_number, number, read_octal, compute_and_set_checksum, strncpy, sum_bytes,
  blank_checksum,
}
use polar_express.Tar.Range.{length-write_at, length-strncpy, strncpy-All, write_at-All}
use polar_express.Tar.Header.{
  AreApart, Written, Checked, set_number_lem, compute_and_set_checksum_lem, read_own, read_apart,
  replicate-All,
}
use polar_express.Bundle.{System, IsUsual, first_fields, last_fields}

-- The header of a file that has begun.
pub record Begun (sys : System) (name h : Bytes) : Type 0 where
  pub block : length h ≡ tar_header_block_length
  pub bytes : All (λ c. c < 256) h
  pub filename : read_field filename_field h ≡ strncpy filename_field.width name
  pub mode : number mode_field h ≡ 256
  pub owner_uid : number owner_uid_field h ≡ sys.uid
  pub owner_gid : number owner_gid_field h ≡ sys.gid
  pub link_indicator : read_field link_indicator_field h ≡ b'0' ∷ []

-- The header of a file that has ended.
pub record Complete (sys : System) (name : Bytes) (final_size now : ℕ) (h : Bytes) : Type 0 where
  pub block : length h ≡ tar_header_block_length
  pub filename : read_field filename_field h ≡ strncpy filename_field.width name
  pub mode : number mode_field h ≡ 256
  pub owner_uid : number owner_uid_field h ≡ sys.uid
  pub owner_gid : number owner_gid_field h ≡ sys.gid
  pub link_indicator : read_field link_indicator_field h ≡ b'0' ∷ []
  pub file_size : number size_field h ≡ final_size
  pub modification_time : number modification_time_field h ≡ now
  pub checksum : number checksum_field h ≡ sum_bytes (blank_checksum h)

-- Equal fields hold equal numbers.
number-cong :
    (d : Field) (xs ys : Bytes) → read_field d xs ≡ read_field d ys → number d xs ≡ number d ys
unfolding number
number-cong d xs ys e = ap read_octal e

length-new_header : length new_header ≡ tar_header_block_length
unfolding new_header
length-new_header =
    length-write_at 156 (b'0' ∷ []) (replicate tar_header_block_length 0)
    ∙ length-replicate {A = ℕ} tar_header_block_length 0

length-set_filename : (name xs : Bytes) → length (set_filename name xs) ≡ length xs
unfolding set_filename
length-set_filename name xs = length-write_at 0 (strncpy 100 name) xs

named : Bytes → Bytes
named name = set_filename name new_header

length-named : (name : Bytes) → length (named name) ≡ tar_header_block_length
unfolding named
length-named name = length-set_filename name new_header ∙ length-new_header

named-All : (name : Bytes) → All (λ c. c < 256) name → All (λ c. c < 256) (named name)
unfolding named set_filename new_header
named-All name a =
    write_at-All 256 0 (strncpy 100 name) new_header (strncpy-All 256 100 name (omega arith) a) (
      write_at-All 256 156 (b'0' ∷ []) (replicate tar_header_block_length 0) (omega arith, tt)
        (replicate-All tar_header_block_length 0 (omega arith)))

filename-named :
    (name : Bytes) → read_field filename_field (named name) ≡ strncpy filename_field.width name
unfolding named set_filename
filename-named name =
    read_own filename_field (strncpy 100 name) new_header (length-strncpy 100 name)
      (omega (arith, length-new_header))

link_indicator-named : (name : Bytes) → read_field link_indicator_field (named name) ≡ b'0' ∷ []
unfolding named set_filename new_header
link_indicator-named name =
    read_apart filename_field link_indicator_field (strncpy 100 name) new_header
      (length-strncpy 100 name) (inl (omega arith))
    ∙ read_own link_indicator_field (b'0' ∷ []) (replicate tar_header_block_length 0) refl
        (omega (arith, length-replicate {A = ℕ} tar_header_block_length 0))

-- The fields of a header that has its name.
keep :
    (d e : Field) (v : ℕ) (xs ys : Bytes)
    → Written d v xs ys
    → AreApart d e
    → number e ys ≡ number e xs
keep d e v xs ys w apart = number-cong e ys xs (w.others e apart)

pub first_fields_lem :
    (sys : System) (name old : Bytes)
    → IsUsual sys
    → All (λ c. c < 256) name
    → (h : Bytes) × (first_fields sys name old ≡ some h) × Begun sys name h
unfolding first_fields named
first_fields_lem sys name old usual a =
    let h0 = named name in
    let (h1, e1, w1) =
      set_number_lem mode_field 256 h0 (omega arith) (omega (arith, length-named name))
        (omega arith) in
    let (h2, e2, w2) =
      set_number_lem owner_uid_field sys.uid h1 (omega arith)
        (omega (arith, w1.same_length, length-named name)) usual.uid_small in
    let (h3, e3, w3) =
      set_number_lem owner_gid_field sys.gid h2 (omega arith)
        (omega (arith, w2.same_length, w1.same_length, length-named name)) usual.gid_small in
    (
      h3,
      bind-some (λ x. set_number owner_uid_field sys.uid x >>= set_number owner_gid_field sys.gid)
          e1 (bind-some (set_number owner_gid_field sys.gid) e2 e3),
      record {
        block = w3.same_length ∙ w2.same_length ∙ w1.same_length ∙ length-named name;
        bytes = w3.stays_bytes (w2.stays_bytes (w1.stays_bytes (named-All name a)));
        filename =
            w3.others filename_field (inr (omega arith))
            ∙ w2.others filename_field (inr (omega arith))
            ∙ w1.others filename_field (inr (omega arith))
            ∙ filename-named name;
        mode =
            keep owner_gid_field mode_field sys.gid h2 h3 w3 (inr (omega arith))
            ∙ keep owner_uid_field mode_field sys.uid h1 h2 w2 (inr (omega arith))
            ∙ w1.reads_back;
        owner_uid =
            keep owner_gid_field owner_uid_field sys.gid h2 h3 w3 (inr (omega arith))
            ∙ w2.reads_back;
        owner_gid = w3.reads_back;
        link_indicator =
            w3.others link_indicator_field (inl (omega arith))
            ∙ w2.others link_indicator_field (inl (omega arith))
            ∙ w1.others link_indicator_field (inl (omega arith))
            ∙ link_indicator-named name;
      },
    )

-- Fields before the size and behind the checksum.
last_others :
    (e : Field) (n now : ℕ) (h0 h1 h2 h3 : Bytes)
    → Written size_field n h0 h1
    → Written modification_time_field now h1 h2
    → Checked h2 h3
    → (e.offset + e.width ≤ size_field.offset) ⊎ (156 ≤ e.offset)
    → read_field e h3 ≡ read_field e h0
last_others e n now h0 h1 h2 h3 w1 w2 c (inl before) =
    c.others e (inr (omega arith)) ∙ w2.others e (inr (omega arith)) ∙ w1.others e (inr before)
last_others e n now h0 h1 h2 h3 w1 w2 c (inr behind) =
    c.others e (inl behind) ∙ w2.others e (inl (omega arith)) ∙ w1.others e (inl (omega arith))

pub last_fields_lem :
    (sys : System) (name : Bytes) (final_size now : ℕ) (h : Bytes)
    → Begun sys name h
    → final_size < 8 ^ 11
    → now < 8 ^ 11
    → (h3 : Bytes) × (last_fields final_size now h ≡ some h3) × Complete sys name final_size now h3
unfolding last_fields
last_fields_lem sys name final_size now h b small early =
    let (h1, e1, w1) =
      set_number_lem size_field final_size h (omega arith) (omega (arith, b.block)) small in
    let (h2, e2, w2) =
      set_number_lem modification_time_field now h1 (omega arith)
        (omega (arith, w1.same_length, b.block)) early in
    let (h3, e3, c) =
      compute_and_set_checksum_lem h2 (w2.same_length ∙ w1.same_length ∙ b.block)
        (w2.stays_bytes (w1.stays_bytes b.bytes)) in
    let same : (e : Field)
        → (e.offset + e.width ≤ size_field.offset) ⊎ (156 ≤ e.offset)
        → read_field e h3 ≡ read_field e h =
      λ e apart. last_others e final_size now h h1 h2 h3 w1 w2 c apart in
    (
      h3,
      bind-some (λ x. set_number modification_time_field now x >>= compute_and_set_checksum) e1
          (bind-some compute_and_set_checksum e2 e3),
      record {
        block = c.same_length ∙ w2.same_length ∙ w1.same_length ∙ b.block;
        filename = same filename_field (inl (omega arith)) ∙ b.filename;
        mode = number-cong mode_field h3 h (same mode_field (inl (omega arith))) ∙ b.mode;
        owner_uid =
            number-cong owner_uid_field h3 h (same owner_uid_field (inl (omega arith)))
            ∙ b.owner_uid;
        owner_gid =
            number-cong owner_gid_field h3 h (same owner_gid_field (inl (omega arith)))
            ∙ b.owner_gid;
        link_indicator = same link_indicator_field (inr (omega arith)) ∙ b.link_indicator;
        file_size =
            number-cong size_field h3 h2 (c.others size_field (inr (omega arith)))
            ∙ keep modification_time_field size_field now h1 h2 w2 (inr (omega arith))
            ∙ w1.reads_back;
        modification_time =
            number-cong modification_time_field h3 h2
              (c.others modification_time_field (inr (omega arith)))
            ∙ w2.reads_back;
        checksum = c.is_sum;
      },
    )
