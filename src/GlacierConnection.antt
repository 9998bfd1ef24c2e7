-- ===== src/GlacierConnection.antt =====
-- network/glacier-connection.cc: the operations on vaults and archives, one at a time, over an HTTP
-- connection, of which it has what a request is accepted with and what it is answered.
pub mod Json
pub mod Handlers
pub mod Described
pub mod Responses
pub mod Pending
pub mod Unsent
pub mod Requests
pub mod Session
pub mod Tests
use polar_express.Base.{
  ℕ, ◌≡◌, Bytes, List, [], ◌∷◌, ◌++◌, Option, none, some, map, Bool, true, false, not, ◌||◌, ◌&&◌,
  if◌then◌else◌, is_empty, codes, length, ltb, ◌==◌,
}
use polar_express.Http.{
  cleared, KeyValue, Method, get, put, post, delete, HttpRequest, HttpResponse,
}
use polar_express.AmazonHttpRequest.{Tools, authorize_request}

-- What the object was made and opened with. `takes` says whether the HTTP connection accepts a
-- request, and `to_string` is boost's lexical_cast.
pub record Settings : Type 0 where
  pub tools : Tools
  pub send_secure_requests : Bool
  pub hostname : Bytes
  pub aws_region_name : Bytes
  pub aws_access_key : Bytes
  pub aws_secret_key : Bytes
  pub takes : HttpRequest → List (Option Bytes) → Bool
  pub to_string : ℕ → Bytes

-- `is_open` and `last_request_succeeded` are those of the HTTP connection, and `sent` are the
-- requests that it accepted. `response` is the answer, with its payload.
pub record Connection : Type 0 where
  pub has_strand : Bool
  pub is_open : Bool
  pub last_request_succeeded : Bool
  pub operation_pending : Bool
  pub last_operation_succeeded : Bool
  pub response : Option (HttpResponse × Bytes)
  pub sent : List HttpRequest

abbrev pub new_connection : Connection
new_connection = record {
  has_strand = false;
  is_open = false;
  last_request_succeeded = false;
  operation_pending = false;
  last_operation_succeeded = false;
  response = none;
  sent = [];
}

abbrev pub last_operation_succeeded_method : Connection → Bool
last_operation_succeeded_method c = c.last_request_succeeded

-- Reopen and Close, of which the HTTP connection does the work.
abbrev pub reopen : Connection → Bool
reopen c = if not c.has_strand then false else not c.is_open

abbrev pub close : Connection → Connection
close c = record c { is_open = false }

abbrev pub service_name : Bytes
service_name = codes "glacier"

abbrev pub version_header : Bytes
version_header = codes "x-amz-glacier-version"

abbrev pub version : Bytes
version = codes "2012-06-01"

abbrev pub vault_path_prefix : Bytes
vault_path_prefix = codes "/-/vaults/"

abbrev pub archives_directory : Bytes
archives_directory = codes "archives"

abbrev pub sha256_digest_of_empty_string : Bytes
sha256_digest_of_empty_string =
    codes "e3b0c44298fc1c149afbf4c8996fb92427ae41e4649b934ca495991b7852b855"

abbrev pub description_max_length : ℕ
description_max_length = 1024

abbrev pub linear_digest_header : Bytes
linear_digest_header = codes "x-amz-content-sha256"

abbrev pub tree_digest_header : Bytes
tree_digest_header = codes "x-amz-sha256-tree-hash"

abbrev pub description_header : Bytes
description_header = codes "x-amz-archive-description"

abbrev pub archive_id_header : Bytes
archive_id_header = codes "x-amz-archive-id"

abbrev pub max_vaults_key : Bytes
max_vaults_key = codes "limit"

abbrev pub start_marker_key : Bytes
start_marker_key = codes "marker"

-- The loop over the buffers of SendRequest; a buffer may be null.
abbrev pub is_empty_payload : List (Option Bytes) → Bool
is_empty_payload [] = true
is_empty_payload (none ∷ bufs) = is_empty_payload bufs
is_empty_payload (some b ∷ bufs) = is_empty b && is_empty_payload bufs

abbrev pub is_printable : Bytes → Bool
is_printable [] = true
is_printable (c ∷ cs) = not (ltb c 32 || ltb 126 c) && is_printable cs

-- CleanUpRequestState.
abbrev pub clean_up_request_state : Connection → Connection
clean_up_request_state c = record c { response = none; operation_pending = false }

abbrev pub handle_operation_error : Connection → Connection
handle_operation_error c = clean_up_request_state (record c { last_operation_succeeded = false })

module _ (s : Settings) where
  unfoldable pub send_authorized :
      Option HttpRequest → List (Option Bytes) → Connection → Bool × Connection
  send_authorized none payload c = (false, c)
  send_authorized (some r) payload c =
      if s.takes r payload
      then (true, record c { response = some (cleared, []); sent = c.sent ++ r ∷ [] })
      else (false, record c { response = some (cleared, []) })

  -- The request as it is authorized: with the version of the protocol.
  abbrev pub versioned : HttpRequest → HttpRequest
  versioned r = record r {
    request_headers = r.request_headers ++ record { key = version_header; value = version } ∷ [];
  }

  unfoldable pub send_request :
      HttpRequest → List (Option Bytes) → Bytes → Connection → Bool × Connection
  unfolding send_authorized authorize_request
  send_request r payload digest c =
      send_authorized
        (authorize_request s.tools s.aws_secret_key s.aws_access_key s.aws_region_name service_name
          (if is_empty_payload payload then sha256_digest_of_empty_string else digest)
          (versioned r))
        payload c

  -- The end of each operation: what SendRequest returns is not looked at.
  unfoldable pub begin :
      Bool → HttpRequest → List (Option Bytes) → Bytes → Connection → Bool × Connection
  unfolding send_request
  begin refused r payload digest c =
      if not c.is_open || (c.operation_pending || refused)
      then (false, c)
      else (true, (send_request r payload digest (record c { operation_pending = true })).1)

  abbrev pub vault_request : Method → Bytes → HttpRequest
  vault_request m path = record {
    method = m;
    is_secure = s.send_secure_requests;
    hostname = s.hostname;
    path = path;
    query_parameters = [];
    request_headers = [];
  }

  unfoldable pub create_vault : Bytes → Connection → Bool × Connection
  unfolding begin
  create_vault vault_name c =
      begin false (vault_request put (vault_path_prefix ++ vault_name)) [] [] c

  unfoldable pub describe_vault : Bytes → Connection → Bool × Connection
  unfolding begin
  describe_vault vault_name c =
      begin false (vault_request get (vault_path_prefix ++ vault_name)) [] [] c

  abbrev pub list_vaults_request : ℕ → Bytes → HttpRequest
  list_vaults_request max_vaults start_marker = record (vault_request get vault_path_prefix) {
    query_parameters =
        record { key = max_vaults_key; value = s.to_string max_vaults }
        ∷ (if is_empty start_marker
            then []
            else (record { key = start_marker_key; value = start_marker } ∷ []));
  }

  unfoldable pub list_vaults : ℕ → Bytes → Connection → Bool × Connection
  unfolding begin
  list_vaults max_vaults start_marker c =
      begin (ltb max_vaults 1 || ltb 1000 max_vaults) (list_vaults_request max_vaults start_marker)
        [] [] c

  unfoldable pub delete_vault : Bytes → Connection → Bool × Connection
  unfolding begin
  delete_vault vault_name c =
      begin (is_empty vault_name) (vault_request delete (vault_path_prefix ++ vault_name)) [] [] c

  abbrev pub upload_archive_request : Bytes → Bytes → Bytes → Bytes → HttpRequest
  upload_archive_request vault_name linear_digest tree_digest description =
      record (vault_request post
        (vault_path_prefix ++ vault_name ++ codes "/" ++ archives_directory)) {
          request_headers =
              record { key = linear_digest_header; value = linear_digest }
              ∷ record { key = tree_digest_header; value = tree_digest }
              ∷ (if is_empty description
                  then []
                  else (record { key = description_header; value = description } ∷ []));
        }

  unfoldable pub upload_archive :
      Bytes → List (Option Bytes) → Bytes → Bytes → Bytes → Connection → Bool × Connection
  unfolding begin
  upload_archive vault_name payload linear_digest tree_digest description c =
      begin
        (is_empty payload
          || (is_empty linear_digest
              || (is_empty tree_digest
                  || (ltb description_max_length (length description)
                      || not (is_printable description)))))
        (upload_archive_request vault_name linear_digest tree_digest description) payload
        linear_digest c

  unfoldable pub delete_archive : Bytes → Bytes → Connection → Bool × Connection
  unfolding begin
  delete_archive vault_name archive_id c =
      begin (is_empty vault_name || is_empty archive_id)
        (vault_request delete (
          vault_path_prefix
          ++ vault_name
          ++ codes "/"
          ++ archives_directory
          ++ codes "/"
          ++ archive_id))
        [] [] c
