-- ===== src/Tar/Tests.antt =====
-- file/tar-header-block.cc: a size and a checksum in a block of zeros.
use polar_express.Base.{ℕ, ◌≡◌, some, Bytes, arith, replicate, length-replicate}
use polar_express.Tar.{tar_header_block_length, size_field, set_number, compute_and_set_checksum}
use polar_express.Tar.Header.{
  Written, Checked, set_number_lem, compute_and_set_checksum_lem, replicate-All,
}

abbrev zeros : Bytes
zeros = replicate tar_header_block_length 0

set_number_lem_example :
    (ys : Bytes) × (set_number size_field 1025 zeros ≡ some ys) × Written size_field 1025 zeros ys
set_number_lem_example =
    set_number_lem size_field 1025 zeros (omega arith)
      (omega (arith, length-replicate {A = ℕ} tar_header_block_length 0)) (omega arith)

compute_and_set_checksum_lem_example :
    (ys : Bytes) × (compute_and_set_checksum zeros ≡ some ys) × Checked zeros ys
compute_and_set_checksum_lem_example =
    compute_and_set_checksum_lem zeros (length-replicate {A = ℕ} tar_header_block_length 0)
      (replicate-All tar_header_block_length 0 (omega arith))
