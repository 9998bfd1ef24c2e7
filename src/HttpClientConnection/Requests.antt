-- ===== src/HttpClientConnection/Requests.antt =====
-- network/http-client-connection.cc: a request from SendRequest to the call of its callback.
use polar_express.Base.{
  ◌≡◌, refl, sym, ap, ◌∙◌, subst, ℕ, suc, Bytes, List, [], ◌++◌, Option, none, some, Bool, true,
  false, not, arith, length, Bool-cases, inl, inr, if◌then◌else◌, ◌&&◌, ◌||◌,
}
use polar_express.Http.{HttpRequest, HttpResponse, cleared}
use polar_express.HttpConnection.{get_text_line, is_payload_chunked, get_payload_size}
use polar_express.StreamConnection.{Stream, cut, write_all, handle_write}
use polar_express.StreamConnection.Reads.{Read, until, size, IsReady, yield}
use polar_express.HttpClientConnection.{
  Client, Handler, nothing, bad_status, on_write, read_next, blank_line, crlf, response_received,
  response_payload_received, response_payload_chunk_header_received, written, request_sent,
  after_write,
}
use polar_express.HttpClientConnection.Handlers.{
  sent, prepared, handle, store, handle_response, after_response, after_parse, read_body,
  deserialize_response, then_headers, send_request,
}
use polar_express.HttpClientConnection.Parse.{StatusTools, parse_response_status}
use polar_express.HttpClientConnection.Runs.{Ends, Ends-read, read_next-Ends, yield_until-cut}
use polar_express.HttpClientConnection.Ends.{
  IsOver, IsResting, Throws, refused-Throws, E, Fits, error-Ends, parse_response_headers-ends,
}
use polar_express.HttpClientConnection.Rounds.{body-Ends}

-- The first line of the response that a peer sends is not a status line.
abbrev pub IsGarbled : StatusTools → Bytes → Type 0
IsGarbled t unread =
    (head : Bytes) × ((rest : Bytes) × (cut blank_line unread ≡ some (head, rest))
      × ((r : HttpResponse) × (parse_response_status t (get_text_line [] head).0 r ≡ none)))

then_headers-garbled :
    (t : StatusTools) (bs : Bytes) (o : Option HttpResponse) → then_headers t bs o ≡ none → o ≡ none
unfolding then_headers
then_headers-garbled t bs none h = refl
then_headers-garbled t bs (some r) h = absurd (parse_response_headers-ends t bs r h)

-- A request that is under way, before its bytes are written.
pub record IsSending (payload : Bytes) (c : Client) (c' : Client) : Type 0 where
  pub ready : IsReady c'.stream
  pub waits : c'.waiting ≡ on_write
  pub same_calls : c'.calls ≡ c.calls
  pub same_buffer : c'.stream.read_streambuf ≡ c.stream.read_streambuf
  pub pending : c'.request_pending ≡ true
  pub same_security : c'.stream.is_secure ≡ c.stream.is_secure
  pub fresh : c'.response ≡ cleared
  pub same_payload : c'.response_payload ≡ payload

accepted :
    (a b d : Bool) (c c' : Client) (o : Option (Client × Bool))
    → (if a then some (c, false) else if b then some (c, false) else if d then none else o)
      ≡ some (c', true)
    → o ≡ some (c', true)
accepted true b d c c' o h = cc
accepted false true d c c' o h = cc
accepted false false true c c' o h = cc
accepted false false false c c' o h = h

sent-IsSending :
    (t : StatusTools) (payload : Bytes) (c c0 c' : Client) (bufs : List Bytes)
    (o : Option (Stream × Bool))
    → write_all bufs c.stream ≡ o
    → sent t c0 o ≡ some (c', true)
    → c0.calls ≡ c.calls
    → c0.request_pending ≡ true
    → c0.response ≡ cleared
    → c0.response_payload ≡ payload
    → IsReady c.stream
    → IsSending payload c c'
unfolding write_all
sent-IsSending t payload c c0 c' bufs none e h f g x y r = cc
sent-IsSending t payload c c0 c' bufs (some (s, false)) e h f g x y r = cc
sent-IsSending t payload c c0 c' bufs (some (s, true)) e h f g x y r = ground arith

pub send_request-IsSending :
    (t : StatusTools) (request : HttpRequest) (payload : List (Option Bytes))
    (response_payload : Bytes) (c c' : Client)
    → IsReady c.stream
    → send_request t request payload response_payload c ≡ some (c', true)
    → IsSending response_payload c c'
unfolding send_request
send_request-IsSending t request payload response_payload c c' r h =
    sent-IsSending t response_payload c (prepared t request payload response_payload c) c' _ _ refl
      (accepted (not c.stream.is_open || c.request_pending)
        (request.is_secure && not c.stream.is_secure) (not c.has_strand) c c' _ h)
      refl refl refl refl r

module _ (t : StatusTools) (k : ℕ) (G : Type 0) where
  body_begins : (c : Client) (left : Bytes) → IsResting k c → E t k G (read_body t c) left
  body_begins c left r = elim (Bool-cases (is_payload_chunked t.text c.response.response_headers)) [
    | inl chunked ↦ rw chunked (
        begins (until crlf) response_payload_chunk_header_received
          (record c { response_payload_chunk_buffer = some [] })
          (record { ready = r.ready; idle = r.idle; counted = r.counted }) refl)
    | inr whole ↦ rw whole (
        begins (size (get_payload_size t.text c.response.response_headers))
          response_payload_received c r tt)
  ]
    where
      begins :
          (q : Read) (h : Handler) (c' : Client)
          → IsResting k c'
          → Fits h q
          → E t k G (read_next t q h c') left
      begins q h c' r' f =
          let u : Bytes = c'.stream.read_streambuf ++ left in
          read_next-Ends t (λ c left. IsOver k c) (Throws t G) q h c' left r'.ready
            (refused-Throws t G q c'.stream)
            λ waits. body-Ends t k G (suc (length u)) q h _ left u waits r'.counted f (omega arith)

  response-Ends :
      (ok : Bool) (head : Bytes) (c : Client) (left : Bytes)
      → IsResting k c
      → (ok ≡ true → deserialize_response t c.stream.is_secure head c.response ≡ none → G)
      → E t k G (after_response t ok (some head) c) left
  response-Ends false head c left r garbled = error-Ends t k G c left r
  response-Ends true head c left r garbled =
      parsed (deserialize_response t c.stream.is_secure head c.response) (garbled refl)
    where
      parsed : (o : Option HttpResponse) → (o ≡ none → G) → E t k G (after_parse t o c) left
      parsed none g = Ends.throws left bad_status (g refl)
      parsed (some q) g =
          body_begins (record c { response = q }) left
            (record { ready = r.ready; idle = r.idle; counted = r.counted })

  message-Ends :
      (c : Client) (incoming unread : Bytes)
      → IsResting k c
      → c.stream.read_streambuf ++ incoming ≡ unread
      → (IsGarbled t unread → G)
      → E t k G (read_next t (until blank_line) response_received c) incoming
  unfolding handle handle_response deserialize_response
  message-Ends c incoming unread r e garbled =
      let u : Bytes = c.stream.read_streambuf ++ incoming in
      let head : Bytes = (yield (until blank_line) u).1 in
      read_next-Ends t (λ c left. IsOver k c) (Throws t G) (until blank_line) response_received c
        incoming r.ready (refused-Throws t G (until blank_line) c.stream)
        λ waits.
          (Ends-read t (λ c left. IsOver k c) (Throws t G) (until blank_line) response_received _
            incoming u waits
            λ s left taken.
              let c' : Client = record c { stream = s; waiting = nothing } in
              response-Ends s.last_read_succeeded head (store t response_received head c') left
                (record { ready = taken.ready; idle = refl; counted = r.counted })
                λ ok none_parsed. garbled (
                  subst (IsGarbled t) e (
                    head,
                    (
                      (yield (until blank_line) u).2,
                      yield_until-cut blank_line u (sym taken.ok ∙ ok),
                      (_, then_headers-garbled t (get_text_line [] head).1 _ none_parsed),
                    ),
                  )))

module _ (t : StatusTools) (k : ℕ) (G : Type 0) where
  after_write-Ends :
      (ok : Bool) (c : Client) (incoming unread : Bytes)
      → IsResting k c
      → c.stream.read_streambuf ++ incoming ≡ unread
      → (IsGarbled t unread → G)
      → E t k G (after_write t ok c) incoming
  after_write-Ends false c incoming unread r e garbled = error-Ends t k G c incoming r
  after_write-Ends true c incoming unread r e garbled =
      message-Ends t k G (record c { serialized_response = some [] }) incoming unread
        (record { ready = r.ready; idle = r.idle; counted = r.counted }) e garbled

pub IsReady-write : (err : Bool) (s : Stream) → IsReady s → IsReady (handle_write err s)
unfolding handle_write
IsReady-write err s r = ground arith

-- A request that SendRequest accepts ends, whatever bytes the peer sends and whether it is written
-- or not, in every run in which no terminator that is read for arrives in parts: its callback is
-- called once, no request is pending, no buffer that is gone is used, and the connection is open
-- exactly if the request succeeded; or a handler throws, since the response's first line is not a
-- status line, or since a vector for the rest of a payload or a chunk cannot be made of its size.
pub request-Ends :
    (t : StatusTools) (request : HttpRequest) (payload : List (Option Bytes))
    (response_payload : Bytes) (c c' : Client)
    → IsReady c.stream
    → send_request t request payload response_payload c ≡ some (c', true)
    → (err : Bool) (incoming : Bytes)
    → Ends t
        (λ c'' left. IsOver c.calls c'')
        (Throws t (IsGarbled t (c.stream.read_streambuf ++ incoming)))
        (written t err c')
        incoming
unfolding written request_sent
request-Ends t request payload response_payload c c' r h err incoming =
    let s = send_request-IsSending t request payload response_payload c c' r h in
    let G : Type 0 = IsGarbled t (c.stream.read_streambuf ++ incoming) in
    let c1 : Client = record c' { stream = handle_write err c'.stream; waiting = nothing } in
    let resting : IsResting c.calls c1 = record {
      ready = IsReady-write err c'.stream s.ready;
      idle = refl;
      counted = s.same_calls;
    } in
    after_write-Ends t c.calls G (handle_write err c'.stream).last_write_succeeded c1 incoming
      (c.stream.read_streambuf ++ incoming) resting (ap (λ x. x ++ incoming) s.same_buffer) λ g. g
