-- ===== src/HttpClientConnection/Ends.antt =====
-- network/http-client-connection.cc: every request ends, with one call of its callback.
use polar_express.Base.{
  ◌≡◌, ◌≢◌, refl, ℕ, zero, suc, ◌+◌, ◌<◌, ◌≤◌, Bytes, List, [], ◌∷◌, ◌++◌, Option, none, some, Bool,
  true, false, arith, length, leb, Bool-cases, inl, inr, ltb, ltb→lt, ◌&&◌, ◌==◌,
}
use polar_express.Http.{KeyValue, HttpResponse}
use polar_express.HttpConnection.{TextTools, get_text_line, deserialize_headers}
use polar_express.StreamConnection.{Stream}
use polar_express.StreamConnection.Reads.{Read, until, size, IsReady, IsRefused}
use polar_express.HttpClientConnection.{
  Client, Handler, nothing, Exception, bad_status, no_room, Outcome, done, read_next,
  handle_request_error, handle_payload_received, crlf, response_received, response_payload_received,
  response_payload_chunk_header_received, response_payload_chunk_received,
  response_payload_chunk_separator_received, response_payload_post_chunk_header_received,
  read_chunk, after_chunk_header, after_separator, with_chunk, after_chunk,
}
use polar_express.HttpClientConnection.Handlers.{
  parse_response_headers, with_headers, after_trailer, after_post_chunk_header,
}
use polar_express.HttpClientConnection.Parse.{StatusTools, get_payload_chunk_size, size_max}
use polar_express.HttpClientConnection.Runs.{Ends}

-- The end of a request that began after `k` calls. A connection whose request failed is closed.
pub record IsOver (k : ℕ) (c : Client) : Type 0 where
  pub called : c.calls ≡ k + 1
  pub free : c.request_pending ≡ false
  pub kept_open : c.stream.is_open ≡ c.last_request_succeeded
  pub reported : c.last_request_succeeded ≡ false → c.response.transport_succeeded ≡ false

-- Between two reads.
pub record IsResting (k : ℕ) (c : Client) : Type 0 where
  pub ready : IsReady c.stream
  pub idle : c.waiting ≡ nothing
  pub counted : c.calls ≡ k

-- The reads that the handlers of a body ask for. All but the last take at least a byte.
abbrev pub Fits : Handler → Read → Type 0
Fits response_received q = ⊥
Fits response_payload_received q = Unit
Fits response_payload_chunk_header_received q = q ≡ until crlf
Fits response_payload_chunk_received q = (n : ℕ) × (q ≡ size n) × (0 < n)
Fits response_payload_chunk_separator_received q = q ≡ until crlf
Fits response_payload_post_chunk_header_received q = q ≡ until crlf

line_shorter : (acc bs : Bytes) → length (get_text_line acc bs).1 ≤ length bs
unfolding get_text_line
line_shorter acc [] = omega arith
line_shorter acc (b ∷ bs) = ground (arith, line_shorter (acc ++ b ∷ []) bs)

line_shorter_cons :
    (acc : Bytes) (b : ℕ) (bs : Bytes) → length (get_text_line acc (b ∷ bs)).1 ≤ length bs
unfolding get_text_line
line_shorter_cons acc b bs = ground (arith, line_shorter (acc ++ b ∷ []) bs)

-- The loop over the headers ends when it has fuel for each byte.
pub deserialize_headers-ends :
    (t : TextTools) (fuel : ℕ) (bs : Bytes) (kvs : List KeyValue)
    → length bs ≤ fuel
    → deserialize_headers t fuel bs kvs ≢ none
unfolding deserialize_headers
deserialize_headers-ends t zero [] kvs h = cc
deserialize_headers-ends t (suc fuel) [] kvs h = cc
deserialize_headers-ends t zero (b ∷ bs) kvs h = absurd (omega arith)
deserialize_headers-ends t (suc fuel) (b ∷ bs) kvs h =
    deserialize_headers-ends t fuel (get_text_line [] (b ∷ bs)).1 _
      (omega (arith, line_shorter_cons [] b bs))

pub parse_response_headers-ends :
    (t : StatusTools) (bs : Bytes) (r : HttpResponse) → parse_response_headers t bs r ≢ none
unfolding parse_response_headers
parse_response_headers-ends t bs r =
    look (deserialize_headers t.text (length bs) bs r.response_headers)
      (deserialize_headers-ends t.text (length bs) bs r.response_headers (omega arith))
  where
    look : (o : Option (List KeyValue)) → o ≢ none → with_headers t r o ≢ none
    look none h = absurd (h refl)
    look (some kvs) h = cc

and_left : (a b : Bool) → a && b ≡ true → a ≡ true
and_left true b h = refl
and_left false b h = h

-- A status line that is none is thrown for if `G` holds, and a vector that cannot be made always.
abbrev pub Throws : StatusTools → Type 0 → Exception → Type 0
Throws t G bad_status = G
Throws t G (no_room n) = t.can_allocate n ≡ false

pub refused-Throws :
    (t : StatusTools) (G : Type 0) (q : Read) (s : Stream) (n : ℕ)
    → IsRefused t.can_allocate q s n
    → Throws t G (no_room n)
refused-Throws t G (until term) s n h = absurd h
refused-Throws t G (size m) s n h = h.1

module _ (t : StatusTools) (k : ℕ) (G : Type 0) where
  abbrev pub E : Outcome → Bytes → Type 0
  E = Ends t (λ c left. IsOver k c) (Throws t G)

  pub error-Ends :
      (c : Client) (left : Bytes) → IsResting k c → E (done (handle_request_error c)) left
  unfolding handle_request_error
  error-Ends c left r = Ends.over (handle_request_error c) left r.idle (ground arith)

  received-IsOver :
      (c : Client)
      → IsResting k c
      → ((handle_payload_received c).waiting ≡ nothing) × IsOver k (handle_payload_received c)
  unfolding handle_payload_received
  received-IsOver c r = ground arith

  pub received-Ends :
      (c : Client) (left : Bytes) → IsResting k c → E (done (handle_payload_received c)) left
  received-Ends c left r =
      let (idle, over) = received-IsOver c r in Ends.over (handle_payload_received c) left idle over

  -- The read that a handler asks for next ends.
  abbrev pub Next : Client → Bytes → Type 0
  Next c left =
      (q : Read) (h : Handler) (c' : Client)
      → IsResting k c'
      → c'.stream ≡ c.stream
      → Fits h q
      → E (read_next t q h c') left

  -- Each handler of the body ends if the read that it asks for next does.
  module _ (c : Client) (left : Bytes) (r : IsResting k c) where
    read_chunk-Ends : (n : ℕ) → Next c left → E (read_chunk t n c) left
    read_chunk-Ends n next = elim (Bool-cases (ltb 0 n && ltb n size_max)) [
      | inl more ↦ rw more (
          next (size n) response_payload_chunk_received c r refl
            (n, refl, ltb→lt 0 n (and_left _ _ more)))
      | inr rest ↦ rw rest (elim (Bool-cases (n == 0)) [
        | inl last ↦
            rw last (next (until crlf) response_payload_post_chunk_header_received c r refl refl)
        | inr bad ↦ rw bad (error-Ends c left r)
      ])
    ]

    pub chunk_header-Ends :
        (ok : Bool) (header : Bytes)
        → (ok ≡ true → Next c left)
        → E (after_chunk_header t ok (some header) c) left
    chunk_header-Ends false header next = error-Ends c left r
    chunk_header-Ends true header next = read_chunk-Ends (get_payload_chunk_size header) (next refl)

    pub separator-Ends : (ok : Bool) → (ok ≡ true → Next c left) → E (after_separator t ok c) left
    separator-Ends false next = error-Ends c left r
    separator-Ends true next =
        next refl (until crlf) response_payload_chunk_header_received c r refl refl

    pub chunk-Ends :
        (ok : Bool) (chunk : Bytes)
        → (ok ≡ true → Next c left)
        → E (after_chunk t ok (some chunk) c) left
    chunk-Ends false chunk next =
        error-Ends (with_chunk chunk c) left
          (record { ready = r.ready; idle = r.idle; counted = r.counted })
    chunk-Ends true chunk next =
        next refl (until crlf) response_payload_chunk_separator_received (with_chunk chunk c)
          (record { ready = r.ready; idle = r.idle; counted = r.counted }) refl refl

    trailer-Ends : (o : Option HttpResponse) → o ≢ none → Next c left → E (after_trailer t o c) left
    trailer-Ends none total next = absurd (total refl)
    trailer-Ends (some q) total next =
        next (until crlf) response_payload_post_chunk_header_received (record c { response = q })
          (record { ready = r.ready; idle = r.idle; counted = r.counted }) refl refl

    pub post_chunk_header-Ends :
        (line : Bytes)
        → (leb (length line) 2 ≡ false → Next c left)
        → E (after_post_chunk_header t (some line) c) left
    post_chunk_header-Ends line next = elim (Bool-cases (leb (length line) 2)) [
      | inl blank ↦ rw blank (received-Ends c left r)
      | inr more ↦ rw more (
          trailer-Ends (parse_response_headers t line c.response)
            (parse_response_headers-ends t line c.response) (next more))
    ]
