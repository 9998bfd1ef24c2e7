-- ===== src/EncryptedFileHeaders/Tests.antt =====
-- file/encrypted-file-headers.cc: headers with a salted key, before three bytes of data.
use polar_express.Base.{◌≡◌, refl, some, [], ◌∷◌, ◌++◌, arith, replicate}
use polar_express.EncryptedFileHeaders.{EncryptedFileHeaders, get_header_block}
use polar_express.EncryptedFileHeaders.Parse.{
  KeyDerivation, hkdf_sha256, configure, parse, header_block_lem,
}

abbrev with_info : KeyDerivation
with_info = hkdf_sha256 (b'i' ∷ b'd' ∷ []) (replicate 32 7) (replicate 32 8)

header_block_lem_example :
    (h : EncryptedFileHeaders) × (configure with_info (replicate 32 9) ≡ some h)
    × (parse (get_header_block h [] ++ 1 ∷ 2 ∷ 3 ∷ [])
        ≡ some (with_info, replicate 32 9, 1 ∷ 2 ∷ 3 ∷ []))
header_block_lem_example =
    header_block_lem with_info (replicate 32 9) (1 ∷ 2 ∷ 3 ∷ []) (omega arith, refl, refl) refl
