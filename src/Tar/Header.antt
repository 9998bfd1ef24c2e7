-- ===== src/Tar/Header.antt =====
-- file/tar-header-block.cc: the setters of the header block.
use polar_express.Base.{
  ℕ, zero, suc, ◌+◌, ◌-◌, ◌^◌, ◌≤◌, ◌<◌, ◌≡◌, refl, sym, ap, subst, ◌∙◌, ◌⊎◌, inl, inr, none, some,
  [], ◌∷◌, Bytes, arith, length, take, drop, replicate, All, take_all,
}
use polar_express.Tar.{
  tar_header_block_length, Field, checksum_field, read_field, write_field, write_at, write_octal,
  read_octal, put_field, set_number, number, set_checksum, sum_bytes, blank_checksum,
  compute_and_set_checksum,
}
use polar_express.Tar.Octal.{read_octal-write_octal, write_octal-none}
use polar_express.Tar.Range.{
  length-write_at, read_written, read_behind, read_before, write_twice, write_at-All,
  sum_bytes_bound,
}

-- Two fields that do not overlap.
abbrev pub AreApart : Field → Field → Type 0
AreApart d e = (d.offset + d.width ≤ e.offset) ⊎ (e.offset + e.width ≤ d.offset)

pub read_apart :
    (d e : Field) (ys xs : Bytes)
    → length ys ≡ d.width
    → AreApart d e
    → read_field e (write_field d ys xs) ≡ read_field e xs
read_apart d e ys xs n (inl h) =
    ap (take e.width) (read_behind d.offset e.offset ys xs (omega arith))
read_apart d e ys xs n (inr h) = read_before d.offset e.offset e.width ys xs h

pub read_own :
    (d : Field) (ys xs : Bytes)
    → length ys ≡ d.width
    → d.offset + d.width ≤ length xs
    → read_field d (write_field d ys xs) ≡ ys
read_own d ys xs n h =
    subst (λ w. take w (drop d.offset (write_at d.offset ys xs)) ≡ ys) n
      (read_written d.offset ys xs (omega arith))

-- What a successful write of a number leaves in the block.
pub record Written (d : Field) (v : ℕ) (xs ys : Bytes) : Type 0 where
  pub reads_back : number d ys ≡ v
  pub same_length : length ys ≡ length xs
  pub others : (e : Field) → AreApart d e → read_field e ys ≡ read_field e xs
  pub stays_bytes : All (λ c. c < 256) xs → All (λ c. c < 256) ys

-- A setter of a number succeeds for each number whose octal digits and a nul fit its field, if the
-- field is inside the block. The number then reads back, and the fields that do not overlap this one
-- are as before.
pub set_number_lem :
    (d : Field) (v : ℕ) (xs : Bytes)
    → 0 < d.width
    → d.offset + d.width ≤ length xs
    → v < 8 ^ (d.width - 1)
    → (ys : Bytes) × (set_number d v xs ≡ some ys) × Written d v xs ys
unfolding set_number number
set_number_lem d v xs wide inside small =
    let (zs, made, reads, n, small_bytes) =
      read_octal-write_octal d.width v [] wide
        (subst (λ k. v < 8 ^ k) (sub_zero (d.width - 1)) small) in
    (
      write_field d zs xs,
      ap (λ o. put_field d o xs) made,
      record {
        reads_back = ap read_octal (read_own d zs xs n inside) ∙ reads;
        same_length = length-write_at d.offset zs xs;
        others = λ e apart. read_apart d e zs xs n apart;
        stays_bytes = λ a. write_at-All 256 d.offset zs xs (small_bytes tt) a;
      },
    )
  where
    sub_zero : (k : ℕ) → k ≡ k - 0
    sub_zero k = omega arith

-- A larger number fails the assertion on its length, and no smaller number does.
pub set_number-none :
    (d : Field) (v : ℕ) (xs : Bytes) → 8 ^ (d.width - 1) ≤ v → set_number d v xs ≡ none
unfolding set_number
set_number-none d v xs large =
    ap (λ o. put_field d o xs)
      (write_octal-none d.width v [] (subst (λ k. 8 ^ k ≤ v) (sub_zero (d.width - 1)) large))
  where
    sub_zero : (k : ℕ) → k ≡ k - 0
    sub_zero k = omega arith

-- What the checksum is the sum of: the bytes of the block, with spaces in place of the checksum.
blank : Bytes
blank = replicate checksum_field.width b' '

pub replicate-All : (k x : ℕ) → x < 256 → All (λ c. c < 256) (replicate k x)
replicate-All zero x h = tt
replicate-All (suc k) x h = (h, replicate-All k x h)

length-blank_checksum : (xs : Bytes) → length (blank_checksum xs) ≡ length xs
unfolding blank_checksum blank
length-blank_checksum xs = length-write_at checksum_field.offset blank xs

blank-All : All (λ c. c < 256) blank
unfolding blank
blank-All = replicate-All 8 b' ' (omega arith)

blank_checksum-All : (xs : Bytes) → All (λ c. c < 256) xs → All (λ c. c < 256) (blank_checksum xs)
unfolding blank_checksum blank
blank_checksum-All xs bytes = write_at-All 256 checksum_field.offset blank xs blank-All bytes

blank_checksum-write :
    (zs xs : Bytes)
    → length zs ≡ checksum_field.width
    → blank_checksum (write_field checksum_field zs (blank_checksum xs)) ≡ blank_checksum xs
unfolding blank_checksum blank
blank_checksum-write zs xs n =
    write_twice checksum_field.offset blank zs (blank_checksum xs) (sym n)
    ∙ write_twice checksum_field.offset blank blank xs refl

blank_checksum-others :
    (xs : Bytes) (e : Field)
    → AreApart checksum_field e
    → read_field e (blank_checksum xs) ≡ read_field e xs
unfolding blank_checksum blank
blank_checksum-others xs e apart = read_apart checksum_field e blank xs refl apart

take-blank_checksum :
    (xs : Bytes)
    → length xs ≡ tar_header_block_length
    → take tar_header_block_length (blank_checksum xs) ≡ blank_checksum xs
take-blank_checksum xs n =
    take_all tar_header_block_length (blank_checksum xs)
      (omega (arith, length-blank_checksum xs, n))

checksum_small :
    (xs : Bytes)
    → length xs ≡ tar_header_block_length
    → All (λ c. c < 256) xs
    → sum_bytes (blank_checksum xs) < 8 ^ 6
checksum_small xs n bytes = omega (
  arith,
  sum_bytes_bound (blank_checksum xs) (blank_checksum-All xs bytes),
  length-blank_checksum xs,
)

-- What ComputeAndSetChecksum leaves in the block.
pub record Checked (xs ys : Bytes) : Type 0 where
  pub is_sum : number checksum_field ys ≡ sum_bytes (blank_checksum ys)
  pub same_sum : blank_checksum ys ≡ blank_checksum xs
  pub same_length : length ys ≡ length xs
  pub others : (e : Field) → AreApart checksum_field e → read_field e ys ≡ read_field e xs

written-Checked :
    (zs xs : Bytes)
    → length xs ≡ tar_header_block_length
    → length zs ≡ checksum_field.width
    → read_octal zs ≡ sum_bytes (blank_checksum xs)
    → Checked xs (write_field checksum_field zs (blank_checksum xs))
unfolding number
written-Checked zs xs n m reads = record {
  is_sum =
      ap read_octal (read_own checksum_field zs (blank_checksum xs) m inside)
      ∙ reads
      ∙ ap sum_bytes (sym (blank_checksum-write zs xs m));
  same_sum = blank_checksum-write zs xs m;
  same_length =
      length-write_at checksum_field.offset zs (blank_checksum xs) ∙ length-blank_checksum xs;
  others = λ e apart.
      read_apart checksum_field e zs (blank_checksum xs) m apart ∙ blank_checksum-others xs e apart;
}
  where
    inside : checksum_field.offset + checksum_field.width ≤ length (blank_checksum xs)
    inside = omega (arith, length-blank_checksum xs, n)

-- For any block of 512 bytes ComputeAndSetChecksum succeeds. The checksum that is then stored is
-- the sum of the block's bytes with spaces in place of the checksum, before and after; the other
-- fields are as before.
pub compute_and_set_checksum_lem :
    (xs : Bytes)
    → length xs ≡ tar_header_block_length
    → All (λ c. c < 256) xs
    → (ys : Bytes) × (compute_and_set_checksum xs ≡ some ys) × Checked xs ys
unfolding compute_and_set_checksum set_checksum
compute_and_set_checksum_lem xs n bytes =
    let (zs, made, reads, m, _) =
      read_octal-write_octal checksum_field.width (sum_bytes (blank_checksum xs)) (b' ' ∷ [])
        (omega arith) (checksum_small xs n bytes) in
    (
      write_field checksum_field zs (blank_checksum xs),
      (ap
            (λ ts.
              put_field checksum_field (write_octal checksum_field.width (sum_bytes ts) (b' ' ∷ []))
                (blank_checksum xs))
            (take-blank_checksum xs n)
          ∙ ap (λ o. put_field checksum_field o (blank_checksum xs)) made),
      written-Checked zs xs n m reads,
    )
