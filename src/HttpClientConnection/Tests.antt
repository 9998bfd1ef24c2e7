-- ===== src/HttpClientConnection/Tests.antt =====
-- network/http-client-connection.cc: runs and witnesses.
use polar_express.Base.{
  ◌≡◌, refl, min, ltb, ◌^◌, List, [], ◌∷◌, ◌++◌, Bytes, none, some, true, false, arith, codes,
}
use polar_express.Http.{get, HttpRequest, HttpResponse, cleared}
use polar_express.HttpConnection.Tests.{tools}
use polar_express.StreamConnection.Tests.{connected, connected-IsReady}
use polar_express.HttpClientConnection.{Client, nothing, on_write, written}
use polar_express.HttpClientConnection.Handlers.{prepared, send_request, request_bytes}
use polar_express.HttpClientConnection.Parse.{
  size_max, StatusTools, get_payload_chunk_size, parse_response_status,
}
use polar_express.HttpClientConnection.Sizes.{hex_value, IsEnd, get_payload_chunk_size_lem}
use polar_express.HttpClientConnection.Runs.{Ends}
use polar_express.HttpClientConnection.Ends.{IsOver, Throws}
use polar_express.HttpClientConnection.Requests.{IsGarbled, request-Ends}
use polar_express.HttpClientConnection.Bodies.{Chunk}

abbrev status_tools : StatusTools
status_tools = record {
  can_allocate = λ n. ltb n (2 ^ 63);
  text = tools;
  split_slashes = λ s. codes "HTTP" ∷ codes "1.1" ∷ [];
  trim_left = λ s. s;
}

sizes : get_payload_chunk_size (codes "1aF;name=x\r\n") ≡ 431
unfolding get_payload_chunk_size
sizes = refl

no_size : get_payload_chunk_size (codes "zz\r\n") ≡ 0
unfolding get_payload_chunk_size
no_size = refl

garbled : parse_response_status status_tools (codes "HTTP/1.1 OK") cleared ≡ none
unfolding parse_response_status
garbled = refl

get_payload_chunk_size_lem_example :
    get_payload_chunk_size (codes "1af;name=x") ≡ min size_max (hex_value 0 (1 ∷ 10 ∷ 15 ∷ []))
get_payload_chunk_size_lem_example =
    get_payload_chunk_size_lem 1 (10 ∷ 15 ∷ []) (codes ";name=x") (omega arith)
      (IsEnd.extension (codes "name=x"))

abbrev request : HttpRequest
request = record {
  method = get;
  is_secure = true;
  hostname = [];
  path = codes "/";
  query_parameters = [];
  request_headers = [];
}

abbrev idle : Client
idle = record {
  stream = connected;
  has_strand = true;
  request_pending = false;
  last_request_succeeded = false;
  serialized_request = none;
  serialized_response = none;
  response_payload_chunk_buffer = none;
  response = cleared;
  response_payload = [];
  waiting = nothing;
  calls = 4;
}

abbrev sending : Client
sending = record (prepared status_tools request [] [] idle) {
  stream = record connected {
    is_writing = true;
    write_buffers = request_bytes status_tools request [] idle ∷ [];
  };
  waiting = on_write;
}

accepted : send_request status_tools request [] [] idle ≡ some (sending, true)
unfolding send_request
accepted = refl

request-Ends_example :
    Ends status_tools
      (λ c left. IsOver 4 c)
      (Throws status_tools (IsGarbled status_tools (codes "5" ++ codes "\r\n")))
      (written status_tools true sending)
      (codes "\r\n")
request-Ends_example =
    request-Ends status_tools request [] [] idle sending connected-IsReady accepted true
      (codes "\r\n")

abbrev head : Bytes
head = codes "HTTP/1.1 200 OK\r\nTransfer-Encoding: chunked\r\n\r\n"

abbrev chunks : List Chunk
chunks =
    record { header = codes "a;x"; contents = codes "hello worl" }
    ∷ record { header = codes "1"; contents = codes "d" }
    ∷ []

abbrev received : HttpResponse
received = record {
  transport_succeeded = true;
  http_version = codes "1.1";
  is_secure = true;
  status_code = 200;
  status_phrase = codes " OK";
  response_headers = record { key = codes "Transfer-Encoding"; value = codes "chunked" } ∷ [];
}

abbrev fresh : Client
fresh = record idle { stream = record connected { read_streambuf = [] } }

abbrev sending_fresh : Client
sending_fresh = record (prepared status_tools request [] (codes "> ") fresh) {
  stream = record connected {
    read_streambuf = [];
    is_writing = true;
    write_buffers = request_bytes status_tools request [] fresh ∷ [];
  };
  waiting = on_write;
}
