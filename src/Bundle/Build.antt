-- ===== src/Bundle/Build.antt =====
-- file/bundle.cc: bundles as their clients build them, payload by payload.
use polar_express.Base.{
  ℕ, suc, ◌≡◌, refl, sym, ap, ◌∙◌, false, Option, none, some, List, [], ◌∷◌, ◌++◌, Bytes, length,
  append_assoc, ◌>>=◌,
}
use polar_express.Bundle.{
  System, CompressionType, Payload, Bundle, start_new_payload, add_block_metadata,
  append_block_contents, payload_name,
}
use polar_express.Bundle.Files.{IsFile}
use polar_express.Bundle.Archive.{Begun}

-- What a client does to a payload after it has started it.
pub data Step (Block : Type 0) : Type 0 where
  metadata : Block → Step Block
  contents : Bytes → Step Block

-- A payload as a client builds it. `now` is the time at which it starts.
pub record Draft (Block : Type 0) : Type 0 where
  pub compression_type : CompressionType
  pub now : ℕ
  pub steps : List (Step Block)

unfoldable pub run_step : {Block : Type 0} → Step Block → Bundle Block → Option (Bundle Block)
unfolding add_block_metadata append_block_contents
run_step (metadata block) b = add_block_metadata block b
run_step (contents xs) b = append_block_contents xs b

unfoldable pub run_steps :
    {Block : Type 0} → List (Step Block) → Bundle Block → Option (Bundle Block)
unfolding run_step
run_steps [] b = some b
run_steps (s ∷ ss) b = run_step s b >>= run_steps ss

unfoldable pub run_drafts :
    {Block : Type 0} → System → List (Draft Block) → Bundle Block → Option (Bundle Block)
unfolding start_new_payload run_steps
run_drafts sys [] b = some b
run_drafts sys (d ∷ ds) b =
    start_new_payload sys d.compression_type d.now b >>= run_steps d.steps >>= run_drafts sys ds

abbrev pub contents_of : {Block : Type 0} → List (Step Block) → Bytes
contents_of [] = []
contents_of (metadata block ∷ ss) = contents_of ss
contents_of (contents xs ∷ ss) = xs ++ contents_of ss

abbrev pub blocks_of : {Block : Type 0} → List (Step Block) → List Block
blocks_of [] = []
blocks_of (metadata block ∷ ss) = block ∷ blocks_of ss
blocks_of (contents xs ∷ ss) = blocks_of ss

pub contents_of-append :
    {Block : Type 0} (ss ts : List (Step Block))
    → contents_of (ss ++ ts) ≡ contents_of ss ++ contents_of ts
contents_of-append [] ts = refl
contents_of-append (metadata block ∷ ss) ts = contents_of-append ss ts
contents_of-append (contents xs ∷ ss) ts =
    ap (λ zs. xs ++ zs) (contents_of-append ss ts)
    ∙ sym (append_assoc xs (contents_of ss) (contents_of ts))

pub blocks_of-append :
    {Block : Type 0} (ss ts : List (Step Block))
    → blocks_of (ss ++ ts) ≡ blocks_of ss ++ blocks_of ts
blocks_of-append [] ts = refl
blocks_of-append (metadata block ∷ ss) ts = ap (◌∷◌ block) (blocks_of-append ss ts)
blocks_of-append (contents xs ∷ ss) ts = blocks_of-append ss ts

-- The bytes of the payloads that have ended, each a file whose payload says where it begins.
pub data Stored (sys : System) (Block : Type 0)
    : List (Draft Block) → List (Payload Block) → Bytes → Type 0 where
  nothing : Stored sys Block [] [] []
  then_file :
      (ds : List (Draft Block)) (ps : List (Payload Block)) (xs : Bytes) (d : Draft Block)
      (p : Payload Block) (r : Bytes)
      → Stored sys Block ds ps xs
      → p.id ≡ length ps
      → p.offset ≡ length xs
      → p.compression_type ≡ d.compression_type
      → p.blocks ≡ blocks_of d.steps
      → IsFile sys (payload_name sys p.id) (contents_of d.steps) r
      → Stored sys Block (ds ++ d ∷ []) (ps ++ p ∷ []) (xs ++ r)

-- A bundle between two payloads.
pub record IsIdle {Block : Type 0} (sys : System) (ds : List (Draft Block)) (b : Bundle Block)
    : Type 0 where
  pub unfinished : b.is_finalized ≡ false
  pub no_payload : b.current_payload ≡ none
  pub no_file : b.current_tar_header_block ≡ none
  pub next_id : b.next_payload_id ≡ length b.ended_payloads
  pub stored : Stored sys Block ds b.ended_payloads b.bundle_data

-- A bundle inside a payload.
pub record IsOpen {Block : Type 0} (sys : System) (ds : List (Draft Block)) (d : Draft Block)
    (b : Bundle Block) : Type 0 where
  pub payload : Payload Block
  pub before : Bytes
  pub header : Bytes
  pub unfinished : b.is_finalized ≡ false
  pub in_payload : b.current_payload ≡ some payload
  pub in_file : b.current_tar_header_block ≡ some (length before)
  pub next_id : b.next_payload_id ≡ suc (length b.ended_payloads)
  pub id : payload.id ≡ length b.ended_payloads
  pub offset : payload.offset ≡ length before
  pub type : payload.compression_type ≡ d.compression_type
  pub blocks : payload.blocks ≡ blocks_of d.steps
  pub stored : Stored sys Block ds b.ended_payloads before
  pub begun : Begun sys (payload_name sys payload.id) header
  pub bytes : b.bundle_data ≡ before ++ (header ++ contents_of d.steps)
