-- ===== src/GlacierConnection/Unsent.antt =====
-- network/glacier-connection.cc: operations whose request is not sent, and the calls after them.
use polar_express.Base.{
  ◌≡◌, refl, All, ◌∙◌, inl, inr, Bytes, List, [], ◌∷◌, Option, none, some, Bool, true, false, arith,
  Bool-cases,
}
use polar_express.Http.{HttpRequest}
use polar_express.GlacierConnection.{Settings, Connection, begin, send_request, send_authorized}
use polar_express.GlacierConnection.Pending.{
  Operation, perform_operation, refuses, request_of, payload_of, digest_of, perform_operation-begin,
  send_request-keeps,
}

module _ (s : Settings) where
  unfoldable pub perform_operations : List Operation → Connection → List Bool × Connection
  unfolding perform_operation
  perform_operations [] c = ([], c)
  perform_operations (op ∷ ops) c =
      let rest = perform_operations ops (perform_operation s op c).1 in
      ((perform_operation s op c).0 ∷ rest.0, rest.1)

  begin-busy :
      (refused : Bool) (r : HttpRequest) (payload : List (Option Bytes)) (digest : Bytes)
      (c : Connection)
      → c.operation_pending ≡ true
      → begin s refused r payload digest c ≡ (false, c)
  unfolding begin
  begin-busy refused r payload digest c e = ground (arith, e)

  pub begin-starts :
      (refused : Bool) (r : HttpRequest) (payload : List (Option Bytes)) (digest : Bytes)
      (c : Connection)
      → c.is_open ≡ true
      → c.operation_pending ≡ false
      → refused ≡ false
      → begin s refused r payload digest c
        ≡ (true, (send_request s r payload digest (record c { operation_pending = true })).1)
  unfolding begin
  begin-starts refused r payload digest c o p q = rw (o, p, q) refl

  send_request-unsent :
      (r : HttpRequest) (payload : List (Option Bytes)) (digest : Bytes) (c : Connection)
      → (send_request s r payload digest c).0 ≡ false
      → (send_request s r payload digest c).1.sent ≡ c.sent
  unfolding send_request
  send_request-unsent r payload digest c = unsent _
    where
      unsent :
          (q : Option HttpRequest)
          → (send_authorized s q payload c).0 ≡ false
          → (send_authorized s q payload c).1.sent ≡ c.sent
      unsent none h = refl
      unsent (some q) h = elim (Bool-cases (s.takes q payload)) [
        | inl e ↦ absurd (ground (arith, e))
        | inr e ↦ rw (e, send_authorized) refl
      ]

  pending-refuses_all :
      (ops : List Operation) (c : Connection)
      → c.operation_pending ≡ true
      → All (λ b. b ≡ false) (perform_operations ops c).0 × ((perform_operations ops c).1 ≡ c)
  unfolding perform_operations
  pending-refuses_all [] c e = (tt, refl)
  pending-refuses_all (op ∷ ops) c e =
      let busy : perform_operation s op c ≡ (false, c) =
        perform_operation-begin s op c
        ∙ begin-busy (refuses s op) (request_of s op) (payload_of s op) (digest_of s op) c e in
      let (answers, same) = pending-refuses_all ops c e in rw busy ((refl, answers), same)

  -- An operation answers true also when its request cannot be authorized or is refused by the HTTP
  -- connection. Then no request was sent, so no response ends the operation, and whatever
  -- operations are called next, each answers false and changes nothing.
  pub unsent-stuck :
      (op : Operation) (c : Connection) (ops : List Operation)
      → c.is_open ≡ true
      → c.operation_pending ≡ false
      → refuses s op ≡ false
      → (send_request s
          (request_of s op)
          (payload_of s op)
          (digest_of s op)
          (record c { operation_pending = true })).0
        ≡ false
      → let (answer, c') = perform_operation s op c in
        (answer ≡ true)
        × (c'.sent ≡ c.sent)
        × All (λ b. b ≡ false) (perform_operations ops c').0
        × ((perform_operations ops c').1 ≡ c')
  unsent-stuck op c ops o p q u =
      let started : perform_operation s op c ≡ (true, sent.1) =
        perform_operation-begin s op c
        ∙ begin-starts (refuses s op) (request_of s op) (payload_of s op) (digest_of s op) c o p
            q in
      let (open', pending', requests) =
        send_request-keeps s (request_of s op) (payload_of s op) (digest_of s op)
          (record c { operation_pending = true }) in
      let (answers, same) = pending-refuses_all ops sent.1 pending' in
      rw started (
        refl,
        send_request-unsent (request_of s op) (payload_of s op) (digest_of s op)
            (record c { operation_pending = true }) u,
        answers,
        same,
      )
    where
      sent : Bool × Connection
      sent =
          send_request s (request_of s op) (payload_of s op) (digest_of s op)
            (record c { operation_pending = true })
