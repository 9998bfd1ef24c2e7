-- ===== src/Bundle.antt =====
-- file/bundle.cc: a TAR archive that is built in memory. base/container-offset-ptr.h: a header block
-- is a range of the archive's bytes, named by its offset, so that it stays valid while they grow.
pub mod Archive
pub mod Files
pub mod Build
pub mod Run
pub mod Steps
pub mod Finish
pub mod Tests
use polar_express.Base.{
  ℕ, zero, suc, ◌+◌, ◌-◌, ◌*◌, ◌/◌, ◌%◌, ◌^◌, ◌<◌, ◌≡◌, Bool, true, false, not, Option, none, some,
  List, [], ◌∷◌, ◌++◌, Bytes, length, take, drop, replicate, All, ◌>>=◌, ◌>>◌, assert,
  if◌then◌else◌,
}
use polar_express.Tar.{
  tar_header_block_length, mode_field, owner_uid_field, owner_gid_field, size_field,
  modification_time_field, new_header, set_filename, set_number, compute_and_set_checksum, write_at,
}

-- What the code takes from the system and from libraries: the user's and the group's number, the
-- decimal digits of a number, and SHA-1 in hexadecimal.
pub record System : Type 0 where
  pub uid : ℕ
  pub gid : ℕ
  pub to_string : ℕ → Bytes
  pub sha1_hex : Bytes → Bytes

-- What is known of them: the numbers have seven octal digits, and digits are bytes.
pub record IsUsual (sys : System) : Type 0 where
  pub uid_small : sys.uid < 8 ^ 7
  pub gid_small : sys.gid < 8 ^ 7
  pub digits : (n : ℕ) → All (λ c. c < 256) (sys.to_string n)

pub data CompressionType : Type 0 where
  none_type : CompressionType
  zlib : CompressionType

-- A BundlePayload of the manifest.
pub record Payload (Block : Type 0) : Type 0 where
  pub id : ℕ
  pub offset : ℕ
  pub compression_type : CompressionType
  pub blocks : List Block

-- The manifest's payloads are those that have ended and then the current one, which the code has
-- a pointer to.
pub record Bundle (Block : Type 0) : Type 0 where
  pub ended_payloads : List (Payload Block)
  pub current_payload : Option (Payload Block)
  pub is_finalized : Bool
  pub current_tar_header_block : Option ℕ
  pub next_payload_id : ℕ
  pub bundle_data : Bytes

abbrev pub new : {Block : Type 0} → Bundle Block
new = record {
  ended_payloads = [];
  current_payload = none;
  is_finalized = false;
  current_tar_header_block = none;
  next_payload_id = 0;
  bundle_data = [];
}

abbrev pub as_list {ℓ} : {A : Type ℓ} → Option A → List A
as_list none = []
as_list (some a) = a ∷ []

abbrev pub manifest : {Block : Type 0} → Bundle Block → List (Payload Block)
manifest b = b.ended_payloads ++ as_list b.current_payload

abbrev pub size : {Block : Type 0} → Bundle Block → ℕ
size b = length b.bundle_data

abbrev pub is_null {ℓ} : {A : Type ℓ} → Option A → Bool
is_null none = true
is_null (some a) = false

abbrev pub append_data : {Block : Type 0} → Bytes → Bundle Block → Bundle Block
append_data xs b = record b { bundle_data = b.bundle_data ++ xs }

-- The header block that the pointer names, after a change.
unfoldable pub at_header : (Bytes → Option Bytes) → ℕ → Bytes → Option Bytes
at_header f offset xs = do
  ys ← f (take tar_header_block_length (drop offset xs))
  some (write_at offset ys xs)

-- The header's fields that are known when a file begins.
unfoldable pub first_fields : System → Bytes → Bytes → Option Bytes
first_fields sys name _ = do
  h ← set_number mode_field 256 (set_filename name new_header)
  h ← set_number owner_uid_field sys.uid h
  set_number owner_gid_field sys.gid h

-- Those that are known when it ends.
unfoldable pub last_fields : ℕ → ℕ → Bytes → Option Bytes
last_fields final_size now h = do
  h ← set_number size_field final_size h
  h ← set_number modification_time_field now h
  compute_and_set_checksum h

unfoldable pub start_new_file :
    {Block : Type 0} → System → Bytes → Bundle Block → Option (Bundle Block)
unfolding at_header first_fields
start_new_file sys name b = do
  assert (is_null b.current_tar_header_block)
  let offset = size b
  xs ←
      at_header (first_fields sys name) offset
        (b.bundle_data ++ replicate tar_header_block_length 0)
  some (record b { bundle_data = xs; current_tar_header_block = some offset })

unfoldable pub padding_size : ℕ → ℕ
padding_size final_size = tar_header_block_length - final_size % tar_header_block_length

-- EndCurrentFile, by the pointer to the header block.
unfoldable pub end_file : {Block : Type 0} → Option ℕ → ℕ → ℕ → Bundle Block → Option (Bundle Block)
unfolding at_header last_fields padding_size
end_file none final_size now b = some b
end_file (some offset) final_size now b = do
  xs ← at_header (last_fields final_size now) offset b.bundle_data
  some (record b {
    bundle_data = xs ++ replicate (padding_size final_size) 0;
    current_tar_header_block = none;
  })

unfoldable pub end_current_file : {Block : Type 0} → ℕ → ℕ → Bundle Block → Option (Bundle Block)
unfolding end_file
end_current_file final_size now b = end_file b.current_tar_header_block final_size now b

-- EndCurrentPayload, by the pointer to the payload.
unfoldable pub end_payload :
    {Block : Type 0} → Option (Payload Block) → ℕ → Bundle Block → Option (Bundle Block)
unfolding end_current_file
end_payload none now b = some (record b { current_payload = none })
end_payload (some p) now b = do
  c ← end_current_file (size b - p.offset - tar_header_block_length) now b
  some (record c { ended_payloads = c.ended_payloads ++ p ∷ []; current_payload = none })

unfoldable pub end_current_payload : {Block : Type 0} → ℕ → Bundle Block → Option (Bundle Block)
unfolding end_payload
end_current_payload now b = end_payload b.current_payload now b

abbrev pub payload_filename_prefix : Bytes
payload_filename_prefix = b'p' ∷ b'a' ∷ b'y' ∷ b'l' ∷ b'o' ∷ b'a' ∷ b'd' ∷ b'_' ∷ []

abbrev pub payload_filename_suffix : Bytes
payload_filename_suffix = b'.' ∷ b'd' ∷ b'a' ∷ b't' ∷ []

abbrev pub manifest_filename : Bytes
manifest_filename =
    b'm' ∷ b'a' ∷ b'n' ∷ b'i' ∷ b'f' ∷ b'e' ∷ b's' ∷ b't' ∷ b'.' ∷ b'p' ∷ b'b' ∷ b'u' ∷ b'f' ∷ []

abbrev pub manifest_digest_filename : Bytes
manifest_digest_filename =
    b'm' ∷ b'a' ∷ b'n' ∷ b'i' ∷ b'f' ∷ b'e' ∷ b's' ∷ b't' ∷ b'_' ∷ b'd' ∷ b'i' ∷ b'g' ∷ b'e' ∷ b's'
    ∷ b't' ∷ b'.' ∷ b's' ∷ b'h' ∷ b'a' ∷ b'1' ∷ []

abbrev pub payload_name : System → ℕ → Bytes
payload_name sys id = payload_filename_prefix ++ sys.to_string id ++ payload_filename_suffix

abbrev pub new_payload : {Block : Type 0} → CompressionType → Bundle Block → Payload Block
new_payload compression_type b = record {
  id = b.next_payload_id;
  offset = size b;
  compression_type = compression_type;
  blocks = [];
}

-- StartNewPayload. `now` is the time it asks for.
unfoldable pub start_new_payload :
    {Block : Type 0} → System → CompressionType → ℕ → Bundle Block → Option (Bundle Block)
unfolding end_current_payload start_new_file
start_new_payload sys compression_type now b = do
  assert (not b.is_finalized)
  c ← end_current_payload now b
  let p = new_payload compression_type c
  start_new_file sys (payload_name sys p.id)
      (record c { current_payload = some p; next_payload_id = suc c.next_payload_id })

-- AddBlockMetadata, by the pointer to the payload.
unfoldable pub add_to_payload :
    {Block : Type 0} → Option (Payload Block) → Block → Bundle Block → Option (Bundle Block)
add_to_payload none block b = none
add_to_payload (some p) block b =
    some (record b { current_payload = some (record p { blocks = p.blocks ++ block ∷ [] }) })

unfoldable pub add_block_metadata : {Block : Type 0} → Block → Bundle Block → Option (Bundle Block)
unfolding add_to_payload
add_block_metadata block b = do
  assert (not b.is_finalized)
  add_to_payload b.current_payload block b

unfoldable pub append_block_contents :
    {Block : Type 0} → Bytes → Bundle Block → Option (Bundle Block)
append_block_contents contents b = do
  assert (not b.is_finalized)
  assert (not (is_null b.current_payload))
  some (append_data contents b)

-- A file of the archive whose contents are given at once; EndCurrentFile is told their length.
unfoldable pub append_file :
    {Block : Type 0} → System → Bytes → Bytes → ℕ → Bundle Block → Option (Bundle Block)
unfolding start_new_file end_current_file
append_file sys name contents now b = do
  c ← start_new_file sys name b
  end_current_file (length contents) now (append_data contents c)

unfoldable pub append_serialized_manifest :
    {Block : Type 0}
    → System
    → (List (Payload Block) → Bytes)
    → ℕ
    → ℕ
    → Bundle Block
    → Option (Bundle Block)
unfolding append_file
append_serialized_manifest sys serialize now1 now2 b = do
  let text = serialize (manifest b)
  c ← append_file sys manifest_filename text now1 b
  append_file sys manifest_digest_filename (sys.sha1_hex text ++ 10 ∷ []) now2 c

-- Finalize. The clock is asked up to three times.
unfoldable pub finalize :
    {Block : Type 0}
    → System
    → (List (Payload Block) → Bytes)
    → ℕ
    → ℕ
    → ℕ
    → Bundle Block
    → Option (Bundle Block)
unfolding end_current_payload append_serialized_manifest
finalize sys serialize now0 now1 now2 b = do
  assert (not b.is_finalized)
  c ← end_current_payload now0 b
  d ← append_serialized_manifest sys serialize now1 now2 c
  some (record d {
    bundle_data = d.bundle_data ++ replicate (tar_header_block_length * 2) 0;
    is_finalized = true;
  })

-- mutable_data: null before Finalize.
unfoldable pub mutable_data : {Block : Type 0} → Bundle Block → Option Bytes
mutable_data b = if b.is_finalized then some b.bundle_data else none
