-- ===== src/GlacierConnection/Tests.antt =====
-- network/glacier-connection.cc: runs and witnesses.
use polar_express.Base.{
  ◌≡◌, ◌↔◌, ◌⊎◌, ◌≢◌, refl, Bytes, ℕ, List, [], ◌∷◌, ◌++◌, Option, none, some, Bool, true, false,
  codes, take, bytes_eq, bytes_eq_refl, if◌then◌else◌, All,
}
use polar_express.Http.{cleared, HttpRequest, HttpResponse}
use polar_express.AmazonHttpRequest.{Tools, authorize_request}
use polar_express.GlacierConnection.{
  Settings, Connection, service_name, versioned, send_request, archive_id_header,
}
use polar_express.GlacierConnection.Json.{Json, VaultDescription, new_description}
use polar_express.GlacierConnection.Handlers.{
  handle_create_vault, handle_delete_vault, handle_delete_archive, handle_upload_archive,
  handle_describe_vault, read_object,
}
use polar_express.GlacierConnection.Responses.{
  IsEnded, Flagged, handle_flags_lem, handle_upload_archive_lem, handle_describe_vault_lem,
  IsDescribed, IsFirst,
}
use polar_express.GlacierConnection.Pending.{
  Operation, creates_vault, describes_vault, uploads_archive, perform_operation, Answers,
  perform_operation-Answers, request_of,
}
use polar_express.GlacierConnection.Unsent.{perform_operations, unsent-stuck}
use polar_express.GlacierConnection.Requests.{IsTextual, signed_digest, perform_operation-sends}
use polar_express.StreamConnection.{new_stream}
use polar_express.HttpClientConnection.{new_client}
use polar_express.GlacierConnection.Session.{
  Session, is_network_bound, open_session, reopen_session, settings_of, IsMatched, stream_of,
  open_session_lem, refused_open-IsMatched, reopen-open_session,
}

abbrev pub tools : Tools
tools = record {
  universal_time = codes "20140102T030405";
  iso_date = λ s. some (take 8 s);
  to_lower = λ s. s;
  trim = λ s. s;
  iequals = λ a b. bytes_eq a b;
  split_path = λ s. s ∷ [];
  uri_encode = λ s. s;
  sha256 = λ s. take 4 s;
  hmac_sha256 = λ k s. take 2 k ++ take 2 s;
  hex = λ s. s;
}

abbrev pub settings : Bool → Settings
settings b = record {
  tools = tools;
  send_secure_requests = true;
  hostname = codes "host";
  aws_region_name = codes "us";
  aws_access_key = codes "id";
  aws_secret_key = codes "key";
  takes = λ _ _. b;
  to_string = λ _. codes "9";
}

abbrev idle_connection : Connection
idle_connection = record {
  has_strand = true;
  is_open = true;
  last_request_succeeded = false;
  operation_pending = false;
  last_operation_succeeded = false;
  response = none;
  sent = [];
}

tools-IsTextual : IsTextual tools
tools-IsTextual = record {
  lower_linear = refl;
  lower_tree = refl;
  lower_description = refl;
  lower_version = refl;
  lower_timestamp = refl;
  lower_host = refl;
  encode_limit = refl;
  encode_marker = refl;
  iequals_refl = bytes_eq_refl;
  date = codes "20140102";
  iso_date = refl;
}

abbrev upload_operation : Operation
upload_operation =
    uploads_archive (codes "v") (none ∷ some (codes "data") ∷ []) (codes "d1") (codes "d2")
      (codes "a.tar")

abbrev created : HttpResponse
created = record cleared {
  status_code = 201;
  response_headers = record { key = archive_id_header; value = codes "A1" } ∷ [];
}

abbrev answered : Connection
answered = record idle_connection {
  operation_pending = true;
  last_request_succeeded = true;
  response = some (created, []);
}

-- Objects of one field.
abbrev pub json : Json
json = record {
  Value = Bytes;
  Object = Bytes;
  Int = ℕ;
  zero_int = 0;
  read = λ b. some b;
  is_null = λ b. bytes_eq b [];
  get_obj = λ b. some b;
  get_array = λ b. none;
  get_str = λ b. some b;
  get_int64 = λ b. none;
  find_value = λ o k. if bytes_eq k (codes "VaultName") then o else [];
}

abbrev described_connection : Connection
described_connection = record answered { response = some (cleared, codes "v") }

perform_operation-Answers_example :
    Answers
      (settings true)
      idle_connection
      (perform_operation (settings true) upload_operation idle_connection)
perform_operation-Answers_example =
    perform_operation-Answers (settings true) upload_operation idle_connection

perform_operation-sends_example :
    (r : HttpRequest) × (authorize_request tools
        (codes "key")
        (codes "id")
        (codes "us")
        service_name
        (signed_digest (settings true) tools-IsTextual upload_operation)
        (versioned (settings true) (request_of (settings true) upload_operation))
      ≡ some r)
    × ((perform_operation (settings true) upload_operation idle_connection).0 ≡ true)
    × (◌≡◌ {A = Bool} true true
        → (perform_operation (settings true) upload_operation idle_connection).1.sent
          ≡ [] ++ r ∷ [])
unfolding polar_express.GlacierConnection.Requests.HasPayload
perform_operation-sends_example =
    perform_operation-sends (settings true) tools-IsTextual upload_operation idle_connection refl
      refl refl refl

abbrev later : List Operation
later = describes_vault (codes "v") ∷ creates_vault (codes "w") ∷ []

unsent-stuck_example :
    let (answer, c') =
      perform_operation (settings false) (describes_vault (codes "v")) idle_connection in
    (answer ≡ true)
    × (c'.sent ≡ [])
    × All (λ b. b ≡ false) (perform_operations (settings false) later c').0
    × ((perform_operations (settings false) later c').1 ≡ c')
unfolding send_request polar_express.Base.order
unsent-stuck_example =
    unsent-stuck (settings false) (describes_vault (codes "v")) idle_connection later refl refl refl
      refl

handle_flags_lem_example :
    Flagged 201 answered created (handle_create_vault answered)
    × Flagged 204 answered created (handle_delete_vault answered)
    × Flagged 204 answered created (handle_delete_archive answered)
handle_flags_lem_example = handle_flags_lem answered created [] refl

handle_upload_archive_lem_example :
    (c' : Connection) × (id : Bytes) × (handle_upload_archive answered ≡ some (c', id))
    × IsEnded answered c'
    × ((c'.last_operation_succeeded ≡ true) ↔ (id ≢ []))
    × ((x : Bytes)
        → x ≢ []
        → (id ≡ x) ↔ (
            (answered.last_request_succeeded ≡ true)
            × (created.status_code ≡ 201)
            × IsFirst (codes "x-amz-archive-id") x created.response_headers))
handle_upload_archive_lem_example = handle_upload_archive_lem answered created [] refl

handle_describe_vault_lem_example :
    (out : Connection × VaultDescription json) × (handle_describe_vault json
        (new_description json)
        described_connection
      ≡ some out)
    × IsDescribed json
        (new_description json)
        described_connection
        cleared
        (read_object json (codes "v"))
        out
handle_describe_vault_lem_example =
    handle_describe_vault_lem json (new_description json) described_connection cleared (codes "v")
      refl

-- A secure connection, closed or open, to the region `us`.
abbrev session : Bool → Session
session is_open = record {
  has_strand = true;
  aws_region_name = codes "us";
  aws_access_key = codes "id";
  aws_secret_key = codes "key";
  http_client_connection = new_client is_network_bound (
      new_stream true is_open (record {
        network_usage_type = 1;
        hostname = codes "glacier.us.amazonaws.com";
        protocol = codes "https";
      }));
}

abbrev opened : Bool → Session × Bool
opened is_open = open_session 1 (codes "eu") (codes "id2") (codes "key2") (session is_open)

abbrev settings_after : Session → Settings
settings_after a = settings_of tools (λ _ _. true) (λ _. codes "9") a

open_session_lem_example :
    ((opened false).1 ≡ true)
    × ((opened false).1 ≡ true
        → IsMatched (settings_after (opened false).0)
          × ((stream_of (opened false).0).properties.protocol ≡ codes "https"))
open_session_lem_example =
    open_session_lem tools (λ _ _. true) (λ _. codes "9") 1 (codes "eu") (codes "id2")
      (codes "key2") (session false)

refused : (opened true).1 ≡ false
unfolding open_session
refused = refl

refused_open-IsMatched_example :
    ((opened true).0.aws_secret_key ≡ codes "key2")
    × (IsMatched (settings_after (opened true).0) ↔ (codes "eu" ≡ codes "us"))
refused_open-IsMatched_example =
    refused_open-IsMatched tools (λ _ _. true) (λ _. codes "9") 1 (codes "eu") (codes "id2")
      (codes "key2") (session true) refused refl

-- The same connection after the stream was closed.
abbrev closed_after : Session
closed_after = record (opened false).0 {
  http_client_connection = record (opened false).0.http_client_connection {
    stream = record (stream_of (opened false).0) { is_opening = false; has_networking = false };
  };
}

accepted : (opened false).1 ≡ true
unfolding open_session
accepted = refl

secure : (stream_of closed_after).is_secure ≡ true
unfolding open_session
secure = refl

reopen-open_session_example :
    reopen_session closed_after
    ≡ open_session 1 (codes "eu") (codes "id2") (codes "key2") closed_after
reopen-open_session_example =
    reopen-open_session 1 (codes "eu") (codes "id2") (codes "key2") (session false)
      (stream_of closed_after) accepted refl secure
