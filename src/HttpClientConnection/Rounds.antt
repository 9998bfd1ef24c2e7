-- ===== src/HttpClientConnection/Rounds.antt =====
-- network/http-client-connection.cc: the reads of a body end, since each takes bytes.
use polar_express.Base.{
  ◌≡◌, refl, sym, ap, ◌∙◌, subst, ℕ, zero, suc, ◌<◌, Bytes, ◌++◌, true, false, arith, length, leb,
}
use polar_express.StreamConnection.Reads.{Read, until, size, IsReady, yield}
use polar_express.HttpClientConnection.{
  Client, Handler, nothing, done, crlf, response_received, response_payload_received,
  response_payload_chunk_header_received, response_payload_chunk_received,
  response_payload_chunk_separator_received, response_payload_post_chunk_header_received,
}
use polar_express.HttpClientConnection.Handlers.{handle, store}
use polar_express.HttpClientConnection.Parse.{StatusTools}
use polar_express.HttpClientConnection.Runs.{
  IsAsking, Ends-read, read_next-Ends, yield_until-shorter, yield_until-nonempty,
  yield_size-shorter,
}
use polar_express.HttpClientConnection.Ends.{
  IsOver, IsResting, Fits, Throws, refused-Throws, E, received-Ends, Next, chunk_header-Ends,
  separator-Ends, chunk-Ends, post_chunk_header-Ends,
}

module _ (t : StatusTools) (k : ℕ) (G : Type 0) where
  -- What the next reads need: they end if fewer than `m` bytes are left.
  abbrev pub Shorter : ℕ → Type 0
  Shorter m =
      (q : Read) (h : Handler) (c : Client) (incoming unread : Bytes)
      → IsAsking q h c incoming unread
      → c.calls ≡ k
      → Fits h q
      → length unread < m
      → E t k G (done c) incoming

  next-Ends :
      (m : ℕ) (c : Client) (left : Bytes)
      → Shorter m
      → IsResting k c
      → length (c.stream.read_streambuf ++ left) < m
      → Next t k G c left
  next-Ends m c left ih r l q h c' r' e f =
      read_next-Ends t (λ c left. IsOver k c) (Throws t G) q h c' left r'.ready
        (refused-Throws t G q c'.stream)
        λ waits.
          ih q h _ left (c'.stream.read_streambuf ++ left) waits r'.counted f
            (subst (λ s. length (s.read_streambuf ++ left) < m) (sym e) l)

  abbrev Shrinks : Read → Bytes → Type 0
  Shrinks q u = (yield q u).0 ≡ true → length (yield q u).2 < length u

  line-Shrinks : (q : Read) (u : Bytes) → q ≡ until crlf → Shrinks q u
  line-Shrinks q u e = subst (λ q. Shrinks q u) (sym e) (yield_until-shorter crlf u (omega arith))

  chunk-Shrinks : (q : Read) (u : Bytes) (n : ℕ) → q ≡ size n → 0 < n → Shrinks q u
  chunk-Shrinks q u n e p = subst (λ q. Shrinks q u) (sym e) (yield_size-shorter n u p)

  module _ (m : ℕ) (ih : Shorter m) (q : Read) (u : Bytes) (l : length u < suc m) (c : Client)
      (left : Bytes) (r : IsResting k c) (ok : c.stream.last_read_succeeded ≡ (yield q u).0)
      (rest : c.stream.read_streambuf ++ left ≡ (yield q u).2) where
    goes_on :
        Shrinks q u
        → (c' : Client) → IsResting k c'
        → c'.stream ≡ c.stream
        → c.stream.last_read_succeeded ≡ true
        → Next t k G c' left
    goes_on shrinks c' r' e good = next-Ends m c' left ih r' (
        subst (λ s. length (s.read_streambuf ++ left) < m) (sym e)
          (omega (arith, ap length rest, shrinks (sym ok ∙ good))))

    resting :
        (c' : Client)
        → c'.stream ≡ c.stream
        → c'.waiting ≡ c.waiting
        → c'.calls ≡ c.calls
        → IsResting k c'
    resting c' e f g = record {
      ready = subst IsReady (sym e) r.ready;
      idle = f ∙ r.idle;
      counted = g ∙ r.counted;
    }

    nonempty : q ≡ until crlf → leb (length (yield q u).1) 2 ≡ false → (yield q u).0 ≡ true
    nonempty e =
        subst (λ q. leb (length (yield q u).1) 2 ≡ false → (yield q u).0 ≡ true) (sym e)
          (yield_until-nonempty crlf u)

    handle-Ends : (h : Handler) → Fits h q → E t k G (handle t h (store t h (yield q u).1 c)) left
    unfolding handle
    handle-Ends response_received f = absurd f
    handle-Ends response_payload_received f =
        received-Ends t k G _ left
          (resting (store t response_payload_received (yield q u).1 c) refl refl refl)
    handle-Ends response_payload_chunk_header_received f =
        let c' : Client = store t response_payload_chunk_header_received (yield q u).1 c in
        let r' = resting c' refl refl refl in
        chunk_header-Ends t k G c' left r' c.stream.last_read_succeeded (yield q u).1
          (goes_on (line-Shrinks q u f) c' r' refl)
    handle-Ends response_payload_chunk_received f =
        let c' : Client = store t response_payload_chunk_received (yield q u).1 c in
        let r' = resting c' refl refl refl in
        let (n, e, p) = f in
        chunk-Ends t k G c' left r' c.stream.last_read_succeeded (yield q u).1
          (goes_on (chunk-Shrinks q u n e p) c' r' refl)
    handle-Ends response_payload_chunk_separator_received f =
        let c' : Client = store t response_payload_chunk_separator_received (yield q u).1 c in
        let r' = resting c' refl refl refl in
        separator-Ends t k G c' left r' c.stream.last_read_succeeded
          (goes_on (line-Shrinks q u f) c' r' refl)
    handle-Ends response_payload_post_chunk_header_received f =
        let c' : Client = store t response_payload_post_chunk_header_received (yield q u).1 c in
        let r' = resting c' refl refl refl in
        post_chunk_header-Ends t k G c' left r' (yield q u).1
          λ more. goes_on (line-Shrinks q u f) c' r' refl (ok ∙ nonempty f more)

  -- Every read of a body ends the request or asks for another of fewer bytes.
  pub body-Ends : (m : ℕ) → Shorter m
  body-Ends zero q h c incoming unread a e f l = absurd (omega arith)
  body-Ends (suc m) q h c incoming unread a e f l =
      Ends-read t (λ c left. IsOver k c) (Throws t G) q h c incoming unread a
        λ s left taken.
          handle-Ends m (body-Ends m) q unread l (record c { stream = s; waiting = nothing }) left
            (record { ready = taken.ready; idle = refl; counted = e }) taken.ok taken.rest h f
