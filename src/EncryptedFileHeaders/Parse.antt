-- ===== src/EncryptedFileHeaders/Parse.antt =====
-- file/encrypted-file-headers.cc: a reader of the header block, and that it reads what was written.
use polar_express.Base.{
  ℕ, ◌≤◌, ◌≡◌, refl, ap, subst, ◌∙◌, Option, none, some, [], ◌∷◌, ◌++◌, Bytes, length, take, drop,
  arith, le→leb, ap₂, bytes_eq, ◌==◌, if◌then◌else◌, ◌>>=◌, bind-some, assert, length-append,
  length-replicate, take_append, drop_append, append_assoc, replicate, ◌-◌,
}
use polar_express.EncryptedFileHeaders.{
  EncryptedFileHeaders, magic, type_id_length, salt_length, info_length,
  key_derivation_type_id_pbkdf2, key_derivation_type_id_hkdf_sha256, key_derivation_type_id_none,
  encryption_type_id_aes256_gcm, new, set_key_derivation_none, set_key_derivation_pbkdf2,
  set_key_derivation_hkdf_sha256, set_encryption_aes256_gcm, set_mac_none, with_key_derivation,
  mac_type_id_none, c_string, get_header_block, key_derivation_bytes, encryption_bytes,
}

-- The ways of key derivation, with their parameters.
pub data KeyDerivation : Type 0 where
  underived : KeyDerivation
  pbkdf2 : ℕ → Bytes → Bytes → KeyDerivation
  hkdf_sha256 : Bytes → Bytes → Bytes → KeyDerivation

-- The parameters have the sizes that the setters demand.
abbrev pub HasSizes : KeyDerivation → Type 0
HasSizes underived = Unit {0}
HasSizes (pbkdf2 exponent s1 s2) = (length s1 ≡ salt_length) × (length s2 ≡ salt_length)
HasSizes (hkdf_sha256 info s1 s2) =
    (length info ≤ info_length) × (length s1 ≡ salt_length) × (length s2 ≡ salt_length)

unfoldable pub set_key_derivation :
    KeyDerivation → EncryptedFileHeaders → Option EncryptedFileHeaders
unfolding set_key_derivation_none set_key_derivation_pbkdf2 set_key_derivation_hkdf_sha256
set_key_derivation underived h = set_key_derivation_none h
set_key_derivation (pbkdf2 exponent s1 s2) h = set_key_derivation_pbkdf2 exponent s1 s2 h
set_key_derivation (hkdf_sha256 info s1 s2) h = set_key_derivation_hkdf_sha256 info s1 s2 h

-- What a client does to new headers.
unfoldable pub configure : KeyDerivation → Bytes → Option EncryptedFileHeaders
unfolding set_key_derivation set_encryption_aes256_gcm set_mac_none
configure k iv = set_key_derivation k new >>= set_encryption_aes256_gcm iv >>= set_mac_none

-- The initialization vector, and the data behind the headers.
abbrev parse_encryption : KeyDerivation → Bytes → Option (KeyDerivation × Bytes × Bytes)
parse_encryption k xs = some (k, take salt_length xs, drop salt_length xs)

abbrev parse_pbkdf2 : Bytes → Option (KeyDerivation × Bytes × Bytes)
parse_pbkdf2 [] = none
parse_pbkdf2 (exponent ∷ xs) =
    parse_encryption
      (pbkdf2 exponent (take salt_length xs) (take salt_length (drop salt_length xs)))
      (drop salt_length (drop salt_length xs))

abbrev parse_hkdf_sha256 : Bytes → Option (KeyDerivation × Bytes × Bytes)
parse_hkdf_sha256 [] = none
parse_hkdf_sha256 (info_size ∷ xs) =
    let ys = drop info_length xs in
    parse_encryption
      (hkdf_sha256 (take info_size xs) (take salt_length ys)
        (take salt_length (drop salt_length ys)))
      (drop salt_length (drop salt_length ys))

-- By the type of the key derivation.
abbrev parse_key_derivation : Bytes → Bytes → Option (KeyDerivation × Bytes × Bytes)
parse_key_derivation id xs =
    if bytes_eq id key_derivation_type_id_pbkdf2
    then parse_pbkdf2 xs
    else (if bytes_eq id key_derivation_type_id_hkdf_sha256
        then parse_hkdf_sha256 xs
        else (if bytes_eq id key_derivation_type_id_none
            then parse_encryption underived xs
            else none))

-- A reader of the format that the source's comments describe: magic bytes, the generic header of 49
-- bytes, and the parameters.
unfoldable pub parse : Bytes → Option (KeyDerivation × Bytes × Bytes)
unfolding bytes_eq c_string
parse xs =
    if bytes_eq (take 4 xs) magic
    then (if bytes_eq (c_string (take type_id_length (drop 21 xs))) encryption_type_id_aes256_gcm
        then parse_key_derivation (c_string (take type_id_length (drop 5 xs))) (drop 53 xs)
        else none)
    else none

take-whole : (n : ℕ) (xs ys : Bytes) → length xs ≡ n → take n (xs ++ ys) ≡ xs
take-whole n xs ys e = subst (λ k. take k (xs ++ ys) ≡ xs) e (take_append xs ys)

drop-whole : (n : ℕ) (xs ys : Bytes) → length xs ≡ n → drop n (xs ++ ys) ≡ ys
drop-whole n xs ys e = subst (λ k. drop k (xs ++ ys) ≡ ys) e (drop_append xs ys)

-- The two salts, the vector and the data, one after the other.
read_salts :
    (k : Bytes → Bytes → KeyDerivation) (s1 s2 iv rest : Bytes)
    → length s1 ≡ salt_length
    → length s2 ≡ salt_length
    → length iv ≡ salt_length
    → (let xs = s1 ++ (s2 ++ (iv ++ rest)) in
        parse_encryption
          (k (take salt_length xs) (take salt_length (drop salt_length xs)))
          (drop salt_length (drop salt_length xs)))
      ≡ some (k s1 s2, iv, rest)
read_salts k s1 s2 iv rest n1 n2 n3 =
    let xs : Bytes = s1 ++ (s2 ++ (iv ++ rest)) in
    let d1 : drop salt_length xs ≡ s2 ++ (iv ++ rest) = drop-whole salt_length s1 _ n1 in
    let d2 : drop salt_length (drop salt_length xs) ≡ iv ++ rest =
      ap (drop salt_length) d1 ∙ drop-whole salt_length s2 _ n2 in
    let t1 : take salt_length xs ≡ s1 = take-whole salt_length s1 _ n1 in
    let t2 : take salt_length (drop salt_length xs) ≡ s2 =
      ap (take salt_length) d1 ∙ take-whole salt_length s2 _ n2 in
    ap₂ (λ a b. parse_encryption (k a b) (drop salt_length (drop salt_length xs))) t1 t2
    ∙ ap (parse_encryption (k s1 s2)) d2
    ∙ ap₂ (λ a b. some (k s1 s2, a, b)) (take-whole salt_length iv rest n3)
        (drop-whole salt_length iv rest n3)

-- What the setters leave.
abbrev padded : Bytes → Bytes
padded id = id ++ replicate (type_id_length - length id) 0

abbrev filled : Bytes → Bytes
filled info = info ++ replicate (info_length - length info) 0

abbrev keyed : KeyDerivation → EncryptedFileHeaders
keyed underived = with_key_derivation (padded key_derivation_type_id_none) new
keyed (pbkdf2 exponent s1 s2) =
    record (with_key_derivation (padded key_derivation_type_id_pbkdf2) new) {
      key_derivation_parameters_pbkdf2 = record {
        iteration_count_exponent = exponent;
        encryption_key_salt = s1;
        mac_key_salt = s2;
      };
    }
keyed (hkdf_sha256 info s1 s2) =
    record (with_key_derivation (padded key_derivation_type_id_hkdf_sha256) new) {
      key_derivation_parameters_hkdf_sha256 = record {
        info_size = length info;
        info = filled info;
        encryption_key_salt = s1;
        mac_key_salt = s2;
      };
    }

abbrev encrypted : Bytes → EncryptedFileHeaders → EncryptedFileHeaders
encrypted iv h = record h {
  generic_header_fields = record h.generic_header_fields {
    encryption_type_id = padded encryption_type_id_aes256_gcm;
    encryption_parameters_format_version = 0;
  };
  initialization_vector = iv;
}

abbrev sealed : EncryptedFileHeaders → EncryptedFileHeaders
sealed h = record h {
  generic_header_fields = record h.generic_header_fields {
    mac_type_id = padded mac_type_id_none;
    mac_parameters_format_version = 0;
  };
}

is_salt : (xs : Bytes) → length xs ≡ salt_length → assert (length xs == salt_length) ≡ some tt
is_salt xs e = ap (λ n. assert (n == salt_length)) e

set_key_derivation_lem :
    (k : KeyDerivation) → HasSizes k → set_key_derivation k new ≡ some (keyed k)
unfolding set_key_derivation set_key_derivation_none set_key_derivation_pbkdf2
    set_key_derivation_hkdf_sha256
set_key_derivation_lem underived p = refl
set_key_derivation_lem (pbkdf2 exponent s1 s2) (n1, n2) =
    bind-some _ (is_salt s1 n1) (bind-some _ (is_salt s2 n2) refl)
set_key_derivation_lem (hkdf_sha256 info s1 s2) (n, n1, n2) =
    bind-some _ (ap assert (le→leb (length info) info_length n))
      (bind-some _ (is_salt s1 n1) (bind-some _ (is_salt s2 n2) refl))

configure_lem :
    (k : KeyDerivation) (iv : Bytes)
    → HasSizes k
    → length iv ≡ salt_length
    → configure k iv ≡ some (sealed (encrypted iv (keyed k)))
unfolding configure set_encryption_aes256_gcm set_mac_none
configure_lem k iv p n =
    bind-some _ (bind-some _ (set_key_derivation_lem k p) (bind-some _ (is_salt iv n) refl)) refl

salts_assoc : (s1 s2 iv rest : Bytes) → s1 ++ s2 ++ iv ++ rest ≡ s1 ++ (s2 ++ (iv ++ rest))
salts_assoc s1 s2 iv rest = append_assoc (s1 ++ s2) iv rest ∙ append_assoc s1 s2 (iv ++ rest)

-- The bytes behind the size of the info field.
hkdf_assoc :
    (ys s1 s2 iv rest : Bytes) → ys ++ (s1 ++ s2) ++ iv ++ rest ≡ ys ++ (s1 ++ (s2 ++ (iv ++ rest)))
hkdf_assoc ys s1 s2 iv rest =
    ap (λ zs. zs ++ rest) (append_assoc ys (s1 ++ s2) iv)
    ∙ append_assoc ys (s1 ++ s2 ++ iv) rest
    ∙ ap (λ zs. ys ++ zs) (salts_assoc s1 s2 iv rest)

take-info : (info ys zs : Bytes) → take (length info) (info ++ ys ++ zs) ≡ info
take-info info ys zs =
    ap (take (length info)) (append_assoc info ys zs) ∙ take_append info (ys ++ zs)

length-filled : (info : Bytes) → length info ≤ info_length → length (filled info) ≡ info_length
length-filled info m = omega (
  arith,
  length-append info (replicate (info_length - length info) 0),
  length-replicate {A = ℕ} (info_length - length info) 0,
)

reads_back :
    (k : KeyDerivation) (iv rest : Bytes)
    → HasSizes k
    → length iv ≡ salt_length
    → parse (get_header_block (sealed (encrypted iv (keyed k))) [] ++ rest) ≡ some (k, iv, rest)
unfolding parse get_header_block key_derivation_bytes encryption_bytes
reads_back underived iv rest p n =
    ap₂ (λ a b. some (underived, a, b)) (take-whole salt_length iv rest n)
      (drop-whole salt_length iv rest n)
reads_back (pbkdf2 exponent s1 s2) iv rest (n1, n2) n =
    ap
      (λ xs.
        parse_encryption
          (pbkdf2 exponent (take salt_length xs) (take salt_length (drop salt_length xs)))
          (drop salt_length (drop salt_length xs)))
      (salts_assoc s1 s2 iv rest)
    ∙ read_salts (pbkdf2 exponent) s1 s2 iv rest n1 n2 n
reads_back (hkdf_sha256 info s1 s2) iv rest (m, n1, n2) n =
    let salts : Bytes = s1 ++ (s2 ++ (iv ++ rest)) in
    let whole = hkdf_assoc (filled info) s1 s2 iv rest in
    ap (λ xs. parse_hkdf_sha256 (length info ∷ xs)) whole
    ∙ ap₂
        (λ i ys.
          parse_encryption
            (hkdf_sha256 i (take salt_length ys) (take salt_length (drop salt_length ys)))
            (drop salt_length (drop salt_length ys)))
        (take-info info (replicate (info_length - length info) 0) salts)
        (drop-whole info_length (filled info) salts (length-filled info m))
    ∙ read_salts (hkdf_sha256 info) s1 s2 iv rest n1 n2 n

-- Headers that are configured with parameters of the right sizes say so without ambiguity: a reader
-- of the block that GetHeaderBlock writes, with any data behind it, finds the way of key
-- derivation, its parameters, the initialization vector, and that data. No assertion fails.
pub header_block_lem :
    (k : KeyDerivation) (iv rest : Bytes)
    → HasSizes k
    → length iv ≡ salt_length
    → (h : EncryptedFileHeaders) × (configure k iv ≡ some h)
      × (parse (get_header_block h [] ++ rest) ≡ some (k, iv, rest))
header_block_lem k iv rest p n =
    (sealed (encrypted iv (keyed k)), configure_lem k iv p n, reads_back k iv rest p n)
