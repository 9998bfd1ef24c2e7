-- ===== src/HttpClientConnection/Bodies.antt =====
-- network/http-client-connection.cc: the payload of a response in chunks.
use polar_express.Base.{
  ◌≡◌, Bool, refl, sym, ap, ◌∙◌, subst, ℕ, ◌+◌, ◌<◌, ◌≤◌, Bytes, List, [], ◌∷◌, ◌++◌, some, true,
  false, arith, length, length-append, take, drop, take_append, drop_append, le→leb, lt→ltb,
}
use polar_express.Http.{HttpResponse}
use polar_express.HttpConnection.Lines.{IsLine}
use polar_express.StreamConnection.{Stream, prepend, cut}
use polar_express.StreamConnection.Search.{cut-later}
use polar_express.StreamConnection.Reads.{
  Read, until, size, IsReady, IsRefused, found, reading, yield,
}
use polar_express.HttpClientConnection.{
  Client, Handler, Exception, nothing, on_read, done, read_next, crlf, blank_line, read_chunk,
  after_chunk_header, with_chunk, after_chunk, after_separator,
  response_payload_chunk_header_received, response_payload_chunk_received,
  response_payload_chunk_separator_received,
}
use polar_express.HttpClientConnection.Handlers.{handle, store}
use polar_express.HttpClientConnection.Parse.{StatusTools, get_payload_chunk_size, size_max}
use polar_express.HttpClientConnection.Runs.{IsAsking, Ends, Ends-read, read_next-Ends}

-- A chunk with the line before it, which has its size and may have extensions.
pub record Chunk : Type 0 where
  pub header : Bytes
  pub contents : Bytes

pub record IsChunk (t : StatusTools) (c : Chunk) : Type 0 where
  pub one_line : IsLine c.header
  pub sized : get_payload_chunk_size (c.header ++ crlf) ≡ length c.contents
  pub filled : 0 < length c.contents
  pub bounded : length c.contents < size_max
  pub fits : (n : ℕ) → n ≤ length c.contents → t.can_allocate n ≡ true

-- What a peer sends for the chunks: each between its line and an end of line, then a line with
-- the size 0 and a blank line.
abbrev pub chunked : Bytes → List Chunk → Bytes → Bytes
chunked last [] rest = last ++ 13 ∷ 10 ∷ 13 ∷ 10 ∷ rest
chunked last (c ∷ cs) rest = c.header ++ 13 ∷ 10 ∷ (c.contents ++ 13 ∷ 10 ∷ chunked last cs rest)

abbrev pub payload_of : List Chunk → Bytes
payload_of [] = []
payload_of (c ∷ cs) = c.contents ++ payload_of cs

-- The end of a request that has read a whole payload and nothing of what follows it.
pub record IsWhole (k : ℕ) (r : HttpResponse) (payload rest : Bytes) (c : Client) (left : Bytes)
    : Type 0 where
  pub called : c.calls ≡ k + 1
  pub response_lem : c.response ≡ r
  pub succeeded : c.last_request_succeeded ≡ true
  pub payload_lem : c.response_payload ≡ payload
  pub untouched : c.stream.read_streambuf ++ left ≡ rest
  pub ready : IsReady c.stream

cut-line :
    (line rest : Bytes)
    → IsLine line
    → cut crlf (line ++ 13 ∷ 10 ∷ rest) ≡ some (line ++ crlf, rest)
unfolding cut
cut-line [] rest h = refl
cut-line (a ∷ line) rest h =
    cut-later crlf a (line ++ 13 ∷ 10 ∷ rest) (ground (arith, h.0))
    ∙ ap (prepend a) (cut-line line rest h.1)

pub yield-line :
    (line rest : Bytes)
    → IsLine line
    → yield (until crlf) (line ++ 13 ∷ 10 ∷ rest) ≡ (true, line ++ crlf, rest)
unfolding yield
yield-line line rest h = ap (found (line ++ 13 ∷ 10 ∷ rest)) (cut-line line rest h)

pub yield-found :
    (u line rest : Bytes)
    → cut blank_line u ≡ some (line, rest)
    → yield (until blank_line) u ≡ (true, line, rest)
unfolding yield
yield-found u line rest h = ap (found u) h

yield-size : (bs rest : Bytes) → yield (size (length bs)) (bs ++ rest) ≡ (true, bs, rest)
unfolding yield
yield-size bs rest =
    ap (λ b. (b, take (length bs) (bs ++ rest), drop (length bs) (bs ++ rest)))
      (le→leb (length bs) (length (bs ++ rest)) (omega (arith, length-append bs rest)))
    ∙ ap (λ x. (true, x, drop (length bs) (bs ++ rest))) (take_append bs rest)
    ∙ ap (λ x. (true, bs, x)) (drop_append bs rest)

conflict : {b : Bool} → b ≡ true → b ≡ false → ⊥
conflict h k = cc

-- The connection waits for the line of a chunk.
pub record AtHeader (k : ℕ) (r : HttpResponse) (payload : Bytes) (c : Client)
    (incoming unread : Bytes) : Type 0 where
  pub asks : IsAsking (until crlf) response_payload_chunk_header_received c incoming unread
  pub so_far : c.response_payload ≡ payload
  pub counted : c.calls ≡ k
  pub same_response : c.response ≡ r

module _ (t : StatusTools) (P : Client → Bytes → Type 0) (T : Exception → Type 0) where
  -- A read that succeeds.
  pub read-succeeds :
      (q : Read) (h : Handler) (c : Client) (incoming u bs rest : Bytes)
      → IsAsking q h c incoming u
      → yield q u ≡ (true, bs, rest)
      → ((s : Stream) (left : Bytes)
          → IsReady s
          → s.last_read_succeeded ≡ true
          → s.read_streambuf ++ left ≡ rest
          → s.is_secure ≡ c.stream.is_secure
          → Ends t P T
              (handle t h (store t h bs (record c { stream = s; waiting = nothing })))
              left)
      → Ends t P T (done c) incoming
  read-succeeds q h c incoming u bs rest a e k = Ends-read t P T q h c incoming u a λ s left taken.
      subst
        (λ x.
          Ends t P T (handle t h (store t h x (record c { stream = s; waiting = nothing }))) left)
        (sym (ap (λ y. y.1) e))
        (k s left taken.ready (taken.ok ∙ ap (λ y. y.0) e) (taken.rest ∙ ap (λ y. y.2) e)
          taken.same)

  -- The next read.
  pub read_next-goes :
      (q : Read) (h : Handler) (c : Client) (left u : Bytes)
      → IsReady c.stream
      → c.stream.read_streambuf ++ left ≡ u
      → ((n : ℕ) → ¬ IsRefused t.can_allocate q c.stream n)
      → (IsAsking q h (record c { stream = reading q c.stream; waiting = on_read q h }) left u
          → Ends t P T
              (done (record c { stream = reading q c.stream; waiting = on_read q h }))
              left)
      → Ends t P T (read_next t q h c) left
  read_next-goes q h c left u r e made k =
      read_next-Ends t P T q h c left r (λ n refused. absurd (made n refused))
        λ waits. k (subst (IsAsking q h _ left) e waits)

  pub no_refusal : (term : Bytes) (s : Stream) (n : ℕ) → ¬ IsRefused t.can_allocate (until term) s n
  no_refusal term s n h = h

  read_chunk-reads :
      (n : ℕ) (c : Client)
      → 0 < n
      → n < size_max
      → read_chunk t n c ≡ read_next t (size n) response_payload_chunk_received c
  read_chunk-reads n c p q = rw (lt→ltb 0 n p, lt→ltb n size_max q) refl

  -- After a line with the size of a chunk.
  header-goes :
      (ch : Chunk) (c : Client) (incoming unread v : Bytes)
      → IsChunk t ch
      → IsAsking (until crlf) response_payload_chunk_header_received c incoming unread
      → unread ≡ ch.header ++ 13 ∷ 10 ∷ v
      → ((c' : Client) (left : Bytes)
          → IsAsking (size (length ch.contents)) response_payload_chunk_received c' left v
          → c'.response_payload ≡ c.response_payload
          → c'.calls ≡ c.calls
          → c'.response ≡ c.response
          → Ends t P T (done c') left)
      → Ends t P T (done c) incoming
  unfolding handle
  header-goes ch c incoming unread v i a e k =
      read-succeeds (until crlf) response_payload_chunk_header_received c incoming unread
        (ch.header ++ crlf) v a (ap (yield (until crlf)) e ∙ yield-line ch.header v i.one_line)
        λ s left ready ok e' same.
          let c' : Client = record c {
            stream = s;
            waiting = nothing;
            response_payload_chunk_buffer = some (ch.header ++ crlf);
          } in
          subst (λ b. Ends t P T (after_chunk_header t b (some (ch.header ++ crlf)) c') left)
            (sym ok)
            (subst (λ n. Ends t P T (read_chunk t n c') left) (sym i.sized)
              (subst (λ x. Ends t P T x left)
                (sym (read_chunk-reads (length ch.contents) c' i.filled i.bounded))
                (read_next-goes (size (length ch.contents)) response_payload_chunk_received c' left
                  v ready e' (λ n refused. conflict (i.fits n (omega (arith, refused.0))) refused.1)
                  λ asks. k _ left asks refl refl refl)))

  -- After the contents of a chunk.
  contents-goes :
      (bs : Bytes) (c : Client) (incoming v : Bytes)
      → IsAsking (size (length bs)) response_payload_chunk_received c incoming (bs ++ v)
      → ((c' : Client) (left : Bytes)
          → IsAsking (until crlf) response_payload_chunk_separator_received c' left v
          → c'.response_payload ≡ c.response_payload ++ bs
          → c'.calls ≡ c.calls
          → c'.response ≡ c.response
          → Ends t P T (done c') left)
      → Ends t P T (done c) incoming
  unfolding handle
  contents-goes bs c incoming v a k =
      read-succeeds (size (length bs)) response_payload_chunk_received c incoming (bs ++ v) bs v a
        (yield-size bs v)
        λ s left ready ok e same.
          let c' : Client = record c {
            stream = s;
            waiting = nothing;
            response_payload_chunk_buffer = some bs;
          } in
          subst (λ b. Ends t P T (after_chunk t b (some bs) c') left) (sym ok)
            (read_next-goes (until crlf) response_payload_chunk_separator_received
              (with_chunk bs c') left v ready e (no_refusal crlf s)
              λ asks. k _ left asks refl refl refl)

  -- After the end of line behind a chunk.
  separator-goes :
      (c : Client) (incoming v : Bytes)
      → IsAsking (until crlf) response_payload_chunk_separator_received c incoming (13 ∷ 10 ∷ v)
      → ((c' : Client) (left : Bytes)
          → IsAsking (until crlf) response_payload_chunk_header_received c' left v
          → c'.response_payload ≡ c.response_payload
          → c'.calls ≡ c.calls
          → c'.response ≡ c.response
          → Ends t P T (done c') left)
      → Ends t P T (done c) incoming
  unfolding handle
  separator-goes c incoming v a k =
      read-succeeds (until crlf) response_payload_chunk_separator_received c incoming (13 ∷ 10 ∷ v)
        crlf v a (yield-line [] v tt)
        λ s left ready ok e same.
          let c' : Client = record c {
            stream = s;
            waiting = nothing;
            serialized_response = some crlf;
          } in
          subst (λ b. Ends t P T (after_separator t b c') left) (sym ok)
            (read_next-goes (until crlf) response_payload_chunk_header_received c' left v ready e
              (no_refusal crlf s) λ asks. k _ left asks refl refl refl)

  pub chunk-goes :
      (k : ℕ) (r : HttpResponse) (payload : Bytes) (ch : Chunk) (c : Client) (incoming v : Bytes)
      → IsChunk t ch
      → AtHeader k r payload c incoming (ch.header ++ 13 ∷ 10 ∷ (ch.contents ++ 13 ∷ 10 ∷ v))
      → ((c' : Client) (left : Bytes)
          → AtHeader k r (payload ++ ch.contents) c' left v
          → Ends t P T (done c') left)
      → Ends t P T (done c) incoming
  chunk-goes k r payload ch c incoming v i a go =
      header-goes ch c incoming _ (ch.contents ++ 13 ∷ 10 ∷ v) i a.asks refl λ c1 left1 a1 p1 n1 r1.
        contents-goes ch.contents c1 left1 (13 ∷ 10 ∷ v) a1 λ c2 left2 a2 p2 n2 r2.
          separator-goes c2 left2 v a2 λ c3 left3 a3 p3 n3 r3. go c3 left3 (record {
            asks = a3;
            so_far = p3 ∙ p2 ∙ ap (λ x. x ++ ch.contents) (p1 ∙ a.so_far);
            counted = n3 ∙ n2 ∙ n1 ∙ a.counted;
            same_response = r3 ∙ r2 ∙ r1 ∙ a.same_response;
          })
