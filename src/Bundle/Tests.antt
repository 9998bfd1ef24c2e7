-- ===== src/Bundle/Tests.antt =====
-- file/bundle.cc: a bundle of two payloads.
use polar_express.Base.{ℕ, ◌+◌, ◌≡◌, ◌%◌, some, List, [], ◌∷◌, arith, Bytes}
use polar_express.Bundle.{
  System, IsUsual, CompressionType, Payload, Bundle, manifest, new, finalize,
}
use polar_express.Bundle.Build.{metadata, contents, Draft, run_drafts}
use polar_express.Bundle.Finish.{IsArchive, archive_lem}

-- Blocks are numbers here, and the manifest's text says how many payloads there are.
abbrev toy : System
toy = record {
  uid = 1000;
  gid = 1000;
  to_string = λ n. (n % 10 + b'0') ∷ [];
  sha1_hex = λ xs. b'a' ∷ [];
}

toy-IsUsual : IsUsual toy
toy-IsUsual = record {
  uid_small = omega arith;
  gid_small = omega arith;
  digits = λ n. (omega arith, tt);
}

abbrev toy_serialize : List (Payload ℕ) → Bytes
toy_serialize ps = b'm' ∷ []

abbrev two_drafts : List (Draft ℕ)
two_drafts =
    record {
      compression_type = CompressionType.zlib;
      now = 1400000000;
      steps = metadata 7 ∷ contents (1 ∷ 2 ∷ []) ∷ metadata 8 ∷ contents (3 ∷ []) ∷ [];
    }
    ∷ record {
      compression_type = CompressionType.none_type;
      now = 1400000001;
      steps = metadata 9 ∷ contents (4 ∷ []) ∷ [];
    }
    ∷ []

archive_lem_example :
    (b : Bundle ℕ) × (c : Bundle ℕ) × (run_drafts toy two_drafts new ≡ some b)
    × (finalize toy toy_serialize 1400000002 1400000003 1400000004 b ≡ some c)
    × (manifest c ≡ manifest b)
    × IsArchive toy toy_serialize two_drafts c
archive_lem_example =
    archive_lem toy toy_serialize 1400000002 1400000003 1400000004 two_drafts toy-IsUsual
      ((omega arith, omega arith), ((omega arith, omega arith), tt))
      (omega arith, (omega arith, omega arith)) (λ b _. (omega arith, omega arith))
