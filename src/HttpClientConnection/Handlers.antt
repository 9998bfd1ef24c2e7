-- ===== src/HttpClientConnection/Handlers.antt =====
-- network/http-client-connection.cc: the handlers that parse, and the operations of a client.
use polar_express.Base.{
  ℕ, Bytes, List, [], ◌∷◌, Option, none, some, Bool, true, false, not, ◌&&◌, ◌||◌, if◌then◌else◌,
  codes, length, leb,
}
use polar_express.Http.{KeyValue, HttpRequest, HttpResponse, cleared}
use polar_express.HttpConnection.{
  get_text_line, deserialize_headers, is_payload_chunked, get_payload_size, serialize_request,
}
use polar_express.StreamConnection.{Stream, open_stream, reopen_stream, write_all}
use polar_express.StreamConnection.Reads.{Read, until, size, complete}
use polar_express.HttpClientConnection.Parse.{StatusTools, parse_response_status}
use polar_express.HttpClientConnection.{
  Handler, response_received, response_payload_received, response_payload_chunk_header_received,
  response_payload_chunk_received, response_payload_chunk_separator_received,
  response_payload_post_chunk_header_received, nothing, on_write, Client, Outcome, done, thrown,
  bad_status, gone, crlf, clean_up_request_state, handle_request_error, read_next,
  handle_payload_received, handle_chunk_header, handle_chunk_separator, handle_chunk, buffers,
  total_size,
}

module _ (t : StatusTools) where
  -- The loop over the headers has fuel for each byte.
  abbrev pub with_headers : HttpResponse → Option (List KeyValue) → Option HttpResponse
  with_headers r none = none
  with_headers r (some kvs) = some (record r { response_headers = kvs })

  unfoldable pub parse_response_headers : Bytes → HttpResponse → Option HttpResponse
  unfolding deserialize_headers
  parse_response_headers bs r =
      with_headers r (deserialize_headers t.text (length bs) bs r.response_headers)

  unfoldable pub then_headers : Bytes → Option HttpResponse → Option HttpResponse
  unfolding parse_response_headers
  then_headers bs none = none
  then_headers bs (some r) = parse_response_headers bs r

  unfoldable pub deserialize_response : Bool → Bytes → HttpResponse → Option HttpResponse
  unfolding get_text_line parse_response_status then_headers
  deserialize_response is_secure bs r = then_headers (get_text_line [] bs).1 (
      parse_response_status t (get_text_line [] bs).0
        (record r { transport_succeeded = true; is_secure = is_secure }))

  abbrev pub read_body : Client → Outcome
  read_body c =
      if is_payload_chunked t.text c.response.response_headers
      then read_next t (until crlf) response_payload_chunk_header_received
          (record c { response_payload_chunk_buffer = some [] })
      else read_next t (size (get_payload_size t.text c.response.response_headers))
          response_payload_received c

  abbrev pub after_parse : Option HttpResponse → Client → Outcome
  after_parse none c = thrown bad_status
  after_parse (some r) c = read_body (record c { response = r })

  abbrev pub after_response : Bool → Option Bytes → Client → Outcome
  after_response false head c = done (handle_request_error c)
  after_response true none c = gone
  after_response true (some head) c =
      after_parse (deserialize_response c.stream.is_secure head c.response) c

  unfoldable pub handle_response : Client → Outcome
  handle_response c = after_response c.stream.last_read_succeeded c.serialized_response c

  abbrev pub after_trailer : Option HttpResponse → Client → Outcome
  after_trailer none c = thrown bad_status
  after_trailer (some r) c =
      read_next t (until crlf) response_payload_post_chunk_header_received
        (record c { response = r })

  -- A line of at most two bytes is blank, or the read failed.
  abbrev pub after_post_chunk_header : Option Bytes → Client → Outcome
  after_post_chunk_header none c = gone
  after_post_chunk_header (some line) c =
      if leb (length line) 2
      then done (handle_payload_received c)
      else after_trailer (parse_response_headers line c.response) c

  unfoldable pub handle_post_chunk_header : Client → Outcome
  handle_post_chunk_header c = after_post_chunk_header c.response_payload_chunk_buffer c

  unfoldable pub handle : Handler → Client → Outcome
  unfolding handle_response handle_chunk_header handle_chunk handle_chunk_separator
      handle_post_chunk_header
  handle response_received c = handle_response c
  handle response_payload_received c = done (handle_payload_received c)
  handle response_payload_chunk_header_received c = handle_chunk_header t c
  handle response_payload_chunk_received c = handle_chunk t c
  handle response_payload_chunk_separator_received c = handle_chunk_separator t c
  handle response_payload_post_chunk_header_received c = handle_post_chunk_header c

  -- The vector that a read was given.
  abbrev pub store : Handler → Bytes → Client → Client
  store response_received bs c = record c { serialized_response = some bs }
  store response_payload_received bs c = record c { response_payload = bs }
  store response_payload_chunk_header_received bs c = record c {
    response_payload_chunk_buffer = some bs;
  }
  store response_payload_chunk_received bs c = record c { response_payload_chunk_buffer = some bs }
  store response_payload_chunk_separator_received bs c = record c { serialized_response = some bs }
  store response_payload_post_chunk_header_received bs c = record c {
    response_payload_chunk_buffer = some bs;
  }

  unfoldable pub after_read : Handler → Client → Option Stream → Outcome
  unfolding handle
  after_read h c none = gone
  after_read h c (some s) =
      handle h (store h s.read_data (record c { stream = s; waiting = nothing }))

  -- The end of a read or a write, as asio reports it.
  unfoldable pub completed : Read → Handler → Bool → Bytes → Client → Outcome
  unfolding after_read
  completed q h err arrived c = after_read h c (complete q err arrived c.stream)

  abbrev pub sent : Client → Option (Stream × Bool) → Option (Client × Bool)
  sent c none = none
  sent c (some (s, true)) = some (record c { stream = s; waiting = on_write }, true)
  sent c (some (s, false)) = some (clean_up_request_state (record c { stream = s }), false)

  unfoldable pub request_bytes : HttpRequest → List (Option Bytes) → Client → Bytes
  unfolding serialize_request
  request_bytes request payload c =
      serialize_request t.text c.stream.properties.hostname request (total_size (buffers payload))

  abbrev pub prepared : HttpRequest → List (Option Bytes) → Bytes → Client → Client
  prepared request payload response_payload c = record c {
    request_pending = true;
    serialized_request = some (request_bytes request payload c);
    response = cleared;
    response_payload = response_payload;
  }

  -- `none` is a failed assertion, or the use of a strand that is gone.
  unfoldable pub send_request :
      HttpRequest → List (Option Bytes) → Bytes → Client → Option (Client × Bool)
  unfolding request_bytes write_all
  send_request request payload response_payload c =
      if not c.stream.is_open || c.request_pending
      then some (c, false)
      else if request.is_secure && not c.stream.is_secure
      then some (c, false)
      else if not c.has_strand
      then none
      else sent (prepared request payload response_payload c)
          (write_all (request_bytes request payload c ∷ buffers payload) c.stream)

  unfoldable pub send_single_request :
      HttpRequest → Option Bytes → Bytes → Client → Option (Client × Bool)
  unfolding send_request
  send_single_request request payload response_payload c =
      send_request request (payload ∷ []) response_payload c

abbrev pub with_stream : Client → Stream × Bool → Client × Bool
with_stream c (s, ok) = (record c { stream = s }, ok)

module _ (has_dispatcher : ℕ → Bool) where
  -- ResetStrandDispatcher comes first, also where the stream then refuses.
  unfoldable pub open_connection : ℕ → Bytes → Client → Client × Bool
  unfolding open_stream
  open_connection network_usage_type hostname c =
      with_stream (record c { has_strand = has_dispatcher network_usage_type })
        (open_stream has_dispatcher
          (record {
            network_usage_type = network_usage_type;
            hostname = hostname;
            protocol = if c.stream.is_secure then codes "https" else codes "http";
          })
          c.stream)

  unfoldable pub reopen : Client → Client × Bool
  unfolding reopen_stream
  reopen c =
      if c.stream.is_open then (c, false) else with_stream c (reopen_stream has_dispatcher c.stream)
