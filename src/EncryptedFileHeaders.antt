-- ===== src/EncryptedFileHeaders.antt =====
-- file/encrypted-file-headers.cc: the headers before the data of an encrypted bundle. The packed
-- structs are records, and their bytes in the file are the fields in order.
pub mod Parse
pub mod Tests
use polar_express.Base.{
  ℕ, ◌+◌, ◌-◌, Bool, true, false, Option, none, some, List, [], ◌∷◌, ◌++◌, Bytes, length, replicate,
  bytes_eq, ltb, leb, ◌==◌, if◌then◌else◌, ◌>>=◌, ◌>>◌, assert,
}

-- kMagic.
abbrev pub magic : Bytes
magic = b'P' ∷ b'E' ∷ b'X' ∷ 0 ∷ []

abbrev pub type_id_length : ℕ
type_id_length = 15

abbrev pub salt_length : ℕ
salt_length = 32

abbrev pub info_length : ℕ
info_length = 32

abbrev pub key_derivation_type_id_pbkdf2 : Bytes
key_derivation_type_id_pbkdf2 = b'p' ∷ b'b' ∷ b'k' ∷ b'd' ∷ b'f' ∷ b'2' ∷ []

abbrev pub key_derivation_type_id_hkdf_sha256 : Bytes
key_derivation_type_id_hkdf_sha256 =
    b'h' ∷ b'k' ∷ b'd' ∷ b'f' ∷ b'-' ∷ b's' ∷ b'h' ∷ b'a' ∷ b'-' ∷ b'2' ∷ b'5' ∷ b'6' ∷ []

abbrev pub encryption_type_id_aes256_gcm : Bytes
encryption_type_id_aes256_gcm =
    b'a' ∷ b'e' ∷ b's' ∷ b'-' ∷ b'2' ∷ b'5' ∷ b'6' ∷ b'-' ∷ b'g' ∷ b'c' ∷ b'm' ∷ []

abbrev pub key_derivation_type_id_none : Bytes
key_derivation_type_id_none = []

abbrev pub mac_type_id_none : Bytes
mac_type_id_none = []

pub record GenericHeaderFields : Type 0 where
  pub generic_header_format_version : ℕ
  pub key_derivation_type_id : Bytes
  pub key_derivation_parameters_format_version : ℕ
  pub encryption_type_id : Bytes
  pub encryption_parameters_format_version : ℕ
  pub mac_type_id : Bytes
  pub mac_parameters_format_version : ℕ

pub record KeyDerivationParametersPbkdf2 : Type 0 where
  pub iteration_count_exponent : ℕ
  pub encryption_key_salt : Bytes
  pub mac_key_salt : Bytes

pub record KeyDerivationParametersHkdfSha256 : Type 0 where
  pub info_size : ℕ
  pub info : Bytes
  pub encryption_key_salt : Bytes
  pub mac_key_salt : Bytes

pub record EncryptedFileHeaders : Type 0 where
  pub generic_header_fields : GenericHeaderFields
  pub key_derivation_parameters_pbkdf2 : KeyDerivationParametersPbkdf2
  pub key_derivation_parameters_hkdf_sha256 : KeyDerivationParametersHkdfSha256
  pub initialization_vector : Bytes

-- The constructor: zeros everywhere.
abbrev pub new : EncryptedFileHeaders
new = record {
  generic_header_fields = record {
    generic_header_format_version = 0;
    key_derivation_type_id = replicate type_id_length 0;
    key_derivation_parameters_format_version = 0;
    encryption_type_id = replicate type_id_length 0;
    encryption_parameters_format_version = 0;
    mac_type_id = replicate type_id_length 0;
    mac_parameters_format_version = 0;
  };
  key_derivation_parameters_pbkdf2 = record {
    iteration_count_exponent = 0;
    encryption_key_salt = replicate salt_length 0;
    mac_key_salt = replicate salt_length 0;
  };
  key_derivation_parameters_hkdf_sha256 = record {
    info_size = 0;
    info = replicate info_length 0;
    encryption_key_salt = replicate salt_length 0;
    mac_key_salt = replicate salt_length 0;
  };
  initialization_vector = replicate salt_length 0;
}

-- SetTypeId: the text and zeros up to the field's end.
abbrev pub set_type_id : Bytes → Option Bytes
set_type_id type_id =
    if ltb (length type_id) type_id_length
    then some (type_id ++ replicate (type_id_length - length type_id) 0)
    else none

-- The generic header with another way of key derivation.
abbrev pub with_key_derivation : Bytes → EncryptedFileHeaders → EncryptedFileHeaders
with_key_derivation id h = record h {
  generic_header_fields = record h.generic_header_fields {
    key_derivation_type_id = id;
    key_derivation_parameters_format_version = 0;
  };
}

unfoldable pub set_key_derivation_none : EncryptedFileHeaders → Option EncryptedFileHeaders
set_key_derivation_none h = do
  id ← set_type_id key_derivation_type_id_none
  some (with_key_derivation id h)

unfoldable pub set_key_derivation_pbkdf2 :
    ℕ → Bytes → Bytes → EncryptedFileHeaders → Option EncryptedFileHeaders
set_key_derivation_pbkdf2 exponent encryption_key_salt mac_key_salt h = do
  assert (length encryption_key_salt == salt_length)
  assert (length mac_key_salt == salt_length)
  id ← set_type_id key_derivation_type_id_pbkdf2
  some (record (with_key_derivation id h) {
    key_derivation_parameters_pbkdf2 = record {
      iteration_count_exponent = exponent;
      encryption_key_salt = encryption_key_salt;
      mac_key_salt = mac_key_salt;
    };
  })

unfoldable pub set_key_derivation_hkdf_sha256 :
    Bytes → Bytes → Bytes → EncryptedFileHeaders → Option EncryptedFileHeaders
set_key_derivation_hkdf_sha256 info encryption_key_salt mac_key_salt h = do
  assert (leb (length info) info_length)
  assert (length encryption_key_salt == salt_length)
  assert (length mac_key_salt == salt_length)
  id ← set_type_id key_derivation_type_id_hkdf_sha256
  some (record (with_key_derivation id h) {
    key_derivation_parameters_hkdf_sha256 = record {
      info_size = length info;
      info = info ++ replicate (info_length - length info) 0;
      encryption_key_salt = encryption_key_salt;
      mac_key_salt = mac_key_salt;
    };
  })

unfoldable pub set_encryption_aes256_gcm :
    Bytes → EncryptedFileHeaders → Option EncryptedFileHeaders
set_encryption_aes256_gcm initialization_vector h = do
  assert (length initialization_vector == salt_length)
  id ← set_type_id encryption_type_id_aes256_gcm
  some (record h {
    generic_header_fields = record h.generic_header_fields {
      encryption_type_id = id;
      encryption_parameters_format_version = 0;
    };
    initialization_vector = initialization_vector;
  })

unfoldable pub set_mac_none : EncryptedFileHeaders → Option EncryptedFileHeaders
set_mac_none h = do
  id ← set_type_id mac_type_id_none
  some (record h {
    generic_header_fields = record h.generic_header_fields {
      mac_type_id = id;
      mac_parameters_format_version = 0;
    };
  })

-- A field as a text: up to its first zero. strcmp compares such texts.
unfoldable pub c_string : Bytes → Bytes
c_string [] = []
c_string (x ∷ xs) = let rest = c_string xs in if x == 0 then [] else x ∷ rest

abbrev pub generic_bytes : GenericHeaderFields → Bytes
generic_bytes g =
    g.generic_header_format_version
    ∷ (g.key_derivation_type_id
        ++ (g.key_derivation_parameters_format_version
            ∷ (g.encryption_type_id
                ++ (g.encryption_parameters_format_version
                    ∷ (g.mac_type_id ++ g.mac_parameters_format_version ∷ [])))))

abbrev pub pbkdf2_bytes : KeyDerivationParametersPbkdf2 → Bytes
pbkdf2_bytes p = p.iteration_count_exponent ∷ (p.encryption_key_salt ++ p.mac_key_salt)

abbrev pub hkdf_sha256_bytes : KeyDerivationParametersHkdfSha256 → Bytes
hkdf_sha256_bytes p = p.info_size ∷ (p.info ++ (p.encryption_key_salt ++ p.mac_key_salt))

unfoldable pub key_derivation_bytes : EncryptedFileHeaders → Bytes
unfolding c_string bytes_eq
key_derivation_bytes h =
    let id = c_string h.generic_header_fields.key_derivation_type_id in
    if bytes_eq id key_derivation_type_id_pbkdf2
    then pbkdf2_bytes h.key_derivation_parameters_pbkdf2
    else (if bytes_eq id key_derivation_type_id_hkdf_sha256
        then hkdf_sha256_bytes h.key_derivation_parameters_hkdf_sha256
        else [])

unfoldable pub encryption_bytes : EncryptedFileHeaders → Bytes
unfolding c_string bytes_eq
encryption_bytes h =
    if bytes_eq (c_string h.generic_header_fields.encryption_type_id) encryption_type_id_aes256_gcm
    then h.initialization_vector
    else []

-- GetHeaderBlock appends to what the caller's vector holds.
unfoldable pub get_header_block : EncryptedFileHeaders → Bytes → Bytes
unfolding key_derivation_bytes encryption_bytes
get_header_block h header_block =
    header_block
    ++ (magic
        ++ (generic_bytes h.generic_header_fields
            ++ (key_derivation_bytes h ++ encryption_bytes h)))
