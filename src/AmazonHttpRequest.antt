-- ===== src/AmazonHttpRequest.antt =====
-- util/amazon-http-request-util.cc: signatures of requests to Amazon, version 4.
pub mod Order
pub mod Signed
pub mod Joined
mod Tests
use polar_express.Base.{
  Bytes, List, [], ◌∷◌, ◌++◌, Option, none, some, map, Bool, true, false, ◌>>=◌, assert, ◌>>◌,
  if◌then◌else◌, bytes_eq, is_empty, each, codes, join, map_insert, set_insert, keys,
}
use polar_express.Http.{KeyValue, Method, get, put, post, delete, HttpRequest}

-- The clock, boost's and curl's text functions, and Crypto++. `iso_date` is from_iso_string, the
-- date of which to_iso_string prints; it is `none` for what is no date and time.
pub record Tools : Type 0 where
  pub universal_time : Bytes
  pub iso_date : Bytes → Option Bytes
  pub to_lower : Bytes → Bytes
  pub trim : Bytes → Bytes
  pub iequals : Bytes → Bytes → Bool
  pub split_path : Bytes → List Bytes
  pub uri_encode : Bytes → Bytes
  pub sha256 : Bytes → Bytes
  pub hmac_sha256 : Bytes → Bytes → Bytes
  pub hex : Bytes → Bytes

abbrev pub host_header : Bytes
host_header = codes "host"

abbrev pub authorization_header : Bytes
authorization_header = codes "Authorization"

abbrev pub timestamp_header : Bytes
timestamp_header = codes "x-amz-date"

abbrev pub payload_digest_header : Bytes
payload_digest_header = codes "x-amz-content-sha256"

abbrev pub algorithm_id : Bytes
algorithm_id = codes "AWS4-HMAC-SHA256"

abbrev pub termination_string : Bytes
termination_string = codes "aws4_request"

abbrev pub method_name : Method → Bytes
method_name get = codes "GET"
method_name put = codes "PUT"
method_name post = codes "POST"
method_name delete = codes "DELETE"

-- The loop of JoinKeyValuePairs; `joined` is the string so far.
abbrev pub join_pairs : Bytes → Bytes → List (Bytes × Bytes) → Bytes → Bytes
join_pairs inner outer [] joined = joined
join_pairs inner outer ((k, v) ∷ m) joined =
    join_pairs inner outer m
      ((if is_empty joined then joined else joined ++ outer) ++ (k ++ inner ++ v))

unfoldable pub join_key_value_pairs : List (Bytes × Bytes) → Bytes → Bytes → Bytes
join_key_value_pairs m inner outer = join_pairs inner outer m []

unfoldable pub add_header_to_request : Bytes → Bytes → HttpRequest → HttpRequest
add_header_to_request k v r = record r {
  request_headers = r.request_headers ++ record { key = k; value = v } ∷ [];
}

module _ (t : Tools) where
  -- Both branches of the source return the trimmed string.
  abbrev pub trim_whitespace : Bytes → Bytes
  trim_whitespace s = t.trim s

  abbrev pub normalize_path : Bytes → Bytes
  unfolding join
  normalize_path path =
      let segments = t.split_path path in
      if is_empty segments then codes "/" else join (codes "/") (map t.uri_encode segments)

  unfoldable pub canonical_query_parameters :
      List KeyValue → List (Bytes × Bytes) → Option (List (Bytes × Bytes))
  unfolding map_insert each
  canonical_query_parameters kvs m =
      each (λ kv. map_insert (t.uri_encode kv.key) (t.uri_encode kv.value)) kvs m

  -- One header: the map so far, and the digest among the headers so far.
  unfoldable pub add_canonical_header :
      Bytes → KeyValue → List (Bytes × Bytes) × Bytes → Option (List (Bytes × Bytes) × Bytes)
  unfolding map_insert bytes_eq
  add_canonical_header digest kv (m, found) =
      map_insert (t.to_lower kv.key) (trim_whitespace kv.value) m >>= λ m'.
      if bytes_eq kv.key payload_digest_header
      then assert (t.iequals digest kv.value) >> some (m', kv.value)
      else some (m', found)

  unfoldable pub canonical_headers :
      Bytes → List KeyValue → List (Bytes × Bytes) × Bytes → Option (List (Bytes × Bytes) × Bytes)
  unfolding add_canonical_header each
  canonical_headers digest kvs s = each (add_canonical_header digest) kvs s

  abbrev pub canonical_text :
      HttpRequest → Bytes → List (Bytes × Bytes) → List (Bytes × Bytes) → Bytes → Bytes
  unfolding join join_key_value_pairs
  canonical_text r digest query headers found = join (codes "\n") (
      method_name r.method
      ∷ normalize_path r.path
      ∷ join_key_value_pairs query (codes "=") (codes "&")
      ∷ (join_key_value_pairs headers (codes ":") (codes "\n") ++ codes "\n")
      ∷ join (codes ";") (keys headers)
      ∷ (if is_empty found then t.to_lower digest else found)
      ∷ [])

  unfoldable pub make_canonical_request : HttpRequest → Bytes → Option Bytes
  unfolding canonical_query_parameters canonical_headers map_insert
  make_canonical_request r digest = canonical_query_parameters r.query_parameters [] >>= λ query.
      canonical_headers digest r.request_headers ([], []) >>= λ s.
      map_insert (t.to_lower host_header) (trim_whitespace r.hostname) s.0 >>= λ headers.
      some (canonical_text r digest query headers s.1)

  abbrev pub credential_scope : Bytes → Bytes → Bytes → List Bytes
  credential_scope date region service = date ∷ region ∷ service ∷ termination_string ∷ []

  unfoldable pub make_signing_string : Bytes → Bytes → Bytes → Bytes → Option Bytes
  unfolding join
  make_signing_string region service timestamp canonical_request = t.iso_date timestamp >>= λ date.
      some (
        join (codes "\n") (
          algorithm_id
          ∷ timestamp
          ∷ join (codes "/") (credential_scope date region service)
          ∷ t.to_lower (t.hex (t.sha256 canonical_request))
          ∷ []))

  -- The loop over the inputs: each output is the next key.
  abbrev pub derive : Bytes → List Bytes → Bytes
  derive key [] = key
  derive key (input ∷ inputs) = derive (t.hmac_sha256 key input) inputs

  unfoldable pub make_derived_signing_key : Bytes → Bytes → Bytes → Bytes → Option Bytes
  make_derived_signing_key secret_key region service timestamp = t.iso_date timestamp >>= λ date.
      some (derive (codes "AWS4" ++ secret_key) (credential_scope date region service))

  unfoldable pub make_signature : Bytes → Bytes → Bytes
  make_signature key signing_string = t.to_lower (t.hex (t.hmac_sha256 key signing_string))

  abbrev pub header_set : List KeyValue → List Bytes → List Bytes
  unfolding set_insert
  header_set [] s = s
  header_set (kv ∷ kvs) s = header_set kvs (set_insert (t.to_lower kv.key) s)

  unfoldable pub generate_authorization_header_value :
      Bytes → Bytes → Bytes → HttpRequest → Bytes → Bytes → Bytes
  unfolding set_insert join
  generate_authorization_header_value access_key region service r date signature =
      algorithm_id
      ++ codes " "
      ++ codes "Credential"
      ++ codes "="
      ++ join (codes "/") (access_key ∷ credential_scope date region service)
      ++ codes ", "
      ++ codes "SignedHeaders"
      ++ codes "="
      ++ join (codes ";") (set_insert (t.to_lower host_header) (header_set r.request_headers []))
      ++ codes ", "
      ++ codes "Signature"
      ++ codes "="
      ++ signature

  -- The request with its two headers, or `none` where the source returns false.
  unfoldable pub authorize_request :
      Bytes → Bytes → Bytes → Bytes → Bytes → HttpRequest → Option HttpRequest
  unfolding make_canonical_request make_signing_string make_derived_signing_key make_signature
      generate_authorization_header_value add_header_to_request
  authorize_request secret_key access_key region service digest request =
      let timestamp = t.universal_time ++ codes "Z" in
      let dated = add_header_to_request timestamp_header timestamp request in
      t.iso_date timestamp >>= λ date. make_canonical_request dated digest >>= λ canonical_request.
      make_signing_string region service timestamp canonical_request >>= λ signing_string.
      make_derived_signing_key secret_key region service timestamp >>= λ key. some (
        add_header_to_request authorization_header
          (generate_authorization_header_value access_key region service dated date
            (make_signature key signing_string))
          dated)
