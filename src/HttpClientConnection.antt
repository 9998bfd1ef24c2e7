-- ===== src/HttpClientConnection.antt =====
-- network/http-client-connection.cc: a request and its response over a stream.
pub mod Parse
pub mod Handlers
pub mod Sizes
pub mod Runs
pub mod Ends
pub mod Rounds
pub mod Requests
pub mod Bodies
pub mod Chunked
mod Tests
use polar_express.Base.{
  ℕ, ◌+◌, Bytes, List, [], ◌∷◌, ◌++◌, Option, none, some, Bool, true, false, not, ◌&&◌, ◌||◌,
  if◌then◌else◌, codes, length, ltb, leb, ◌==◌, ◌⊎◌, inl, inr,
}
use polar_express.Http.{KeyValue, HttpRequest, HttpResponse, cleared}
use polar_express.HttpConnection.{
  TextTools, get_text_line, deserialize_headers, is_payload_chunked, get_payload_size,
  serialize_request,
}
use polar_express.StreamConnection.{
  Stream, ConnectionProperties, close, open_stream, reopen_stream, write_all, handle_write,
}
use polar_express.StreamConnection.Reads.{Read, until, size, start, complete}
use polar_express.HttpClientConnection.Parse.{
  StatusTools, parse_response_status, get_payload_chunk_size, size_max,
}

-- The handler that a read is to call.
pub data Handler : Type 0 where
  response_received : Handler
  response_payload_received : Handler
  response_payload_chunk_header_received : Handler
  response_payload_chunk_received : Handler
  response_payload_chunk_separator_received : Handler
  response_payload_post_chunk_header_received : Handler

-- What the stream was last asked for.
pub data Waiting : Type 0 where
  nothing : Waiting
  on_write : Waiting
  on_read : Read → Handler → Waiting

-- `has_strand` says whether there is a strand that callbacks run on.
-- `response` and `response_payload` are the caller's objects, and `calls` counts the calls of the
-- caller's callback. A caller with no vector for the payload gets one of the connection's own.
pub record Client : Type 0 where
  pub stream : Stream
  pub has_strand : Bool
  pub request_pending : Bool
  pub last_request_succeeded : Bool
  pub serialized_request : Option Bytes
  pub serialized_response : Option Bytes
  pub response_payload_chunk_buffer : Option Bytes
  pub response : HttpResponse
  pub response_payload : Bytes
  pub waiting : Waiting
  pub calls : ℕ

-- What a handler throws: out of the parsing of a status line, or of the constructor of a vector of so
-- many bytes.
pub data Exception : Type 0 where
  bad_status : Exception
  no_room : ℕ → Exception

-- A handler may also use a buffer that is gone.
pub data Outcome : Type 0 where
  done : Client → Outcome
  thrown : Exception → Outcome
  gone : Outcome

abbrev pub new_client : (ℕ → Bool) → Stream → Client
new_client has_dispatcher s = record {
  stream = s;
  has_strand = has_dispatcher s.properties.network_usage_type;
  request_pending = false;
  last_request_succeeded = false;
  serialized_request = none;
  serialized_response = none;
  response_payload_chunk_buffer = none;
  response = cleared;
  response_payload = [];
  waiting = nothing;
  calls = 0;
}

abbrev pub crlf : Bytes
crlf = 13 ∷ 10 ∷ []

abbrev pub blank_line : Bytes
blank_line = 13 ∷ 10 ∷ 13 ∷ 10 ∷ []

abbrev pub clean_up_request_state : Client → Client
clean_up_request_state c = record c {
  serialized_request = none;
  serialized_response = none;
  response_payload_chunk_buffer = none;
  request_pending = false;
}

abbrev pub failed : Client → Client
failed c = record c {
  response = record (c.response) { transport_succeeded = false };
  stream = (close c.stream).0;
}

abbrev pub call_back : Client → Client
call_back c = record c { calls = c.calls + 1 }

unfoldable pub handle_request_error : Client → Client
handle_request_error c =
    call_back (failed (clean_up_request_state (record c { last_request_succeeded = false })))

-- A read that the stream refuses ends the request.
abbrev pub started : Read → Handler → Client → ℕ ⊎ (Stream × Bool) → Outcome
started q h c (inl n) = thrown (no_room n)
started q h c (inr (s, true)) = done (record c { stream = s; waiting = on_read q h })
started q h c (inr (s, false)) = done (handle_request_error c)

unfoldable pub read_next : StatusTools → Read → Handler → Client → Outcome
read_next t q h c = started q h c (start t.can_allocate q c.stream)

abbrev pub clean_up_received : Client → Client
clean_up_received c =
    clean_up_request_state (record c { last_request_succeeded = c.stream.last_read_succeeded })

unfoldable pub handle_payload_received : Client → Client
handle_payload_received c =
    call_back
      (if c.stream.last_read_succeeded then clean_up_received c else failed (clean_up_received c))

abbrev pub after_write : StatusTools → Bool → Client → Outcome
after_write t false c = done (handle_request_error c)
after_write t true c =
    read_next t (until blank_line) response_received (record c { serialized_response = some [] })

unfoldable pub request_sent : StatusTools → Client → Outcome
request_sent t c = after_write t c.stream.last_write_succeeded c

-- A size of 0 ends the payload, and the greatest size stands for an error.
abbrev pub read_chunk : StatusTools → ℕ → Client → Outcome
read_chunk t chunk_size c =
    if ltb 0 chunk_size && ltb chunk_size size_max
    then read_next t (size chunk_size) response_payload_chunk_received c
    else if chunk_size == 0
    then read_next t (until crlf) response_payload_post_chunk_header_received c
    else done (handle_request_error c)

abbrev pub after_chunk_header : StatusTools → Bool → Option Bytes → Client → Outcome
after_chunk_header t false header c = done (handle_request_error c)
after_chunk_header t true none c = gone
after_chunk_header t true (some header) c = read_chunk t (get_payload_chunk_size header) c

unfoldable pub handle_chunk_header : StatusTools → Client → Outcome
handle_chunk_header t c =
    after_chunk_header t c.stream.last_read_succeeded c.response_payload_chunk_buffer c

abbrev pub after_separator : StatusTools → Bool → Client → Outcome
after_separator t false c = done (handle_request_error c)
after_separator t true c = read_next t (until crlf) response_payload_chunk_header_received c

unfoldable pub handle_chunk_separator : StatusTools → Client → Outcome
handle_chunk_separator t c = after_separator t c.stream.last_read_succeeded c

abbrev pub with_chunk : Bytes → Client → Client
with_chunk chunk c = record c { response_payload = c.response_payload ++ chunk }

-- A part of a chunk is kept also if the read failed.
abbrev pub after_chunk : StatusTools → Bool → Option Bytes → Client → Outcome
after_chunk t ok none c = gone
after_chunk t false (some chunk) c = done (handle_request_error (with_chunk chunk c))
after_chunk t true (some chunk) c =
    read_next t (until crlf) response_payload_chunk_separator_received (with_chunk chunk c)

unfoldable pub handle_chunk : StatusTools → Client → Outcome
handle_chunk t c = after_chunk t c.stream.last_read_succeeded c.response_payload_chunk_buffer c

unfoldable pub written : StatusTools → Bool → Client → Outcome
unfolding handle_write request_sent
written t err c =
    request_sent t (record c { stream = handle_write err c.stream; waiting = nothing })

-- The parts of a payload that are not null.
abbrev pub buffers : List (Option Bytes) → List Bytes
buffers [] = []
buffers (none ∷ bufs) = buffers bufs
buffers (some b ∷ bufs) = b ∷ buffers bufs

abbrev pub total_size : List Bytes → ℕ
total_size [] = 0
total_size (b ∷ bufs) = length b + total_size bufs
