-- ===== src/GlacierConnection/Pending.antt =====
-- network/glacier-connection.cc: at most one operation is pending, and what becomes of an operation
-- whose request is not sent.
use polar_express.Base.{
  ◌≡◌, ap, refl, sym, subst, codes, ◌∙◌, ◌⊎◌, inl, inr, ℕ, Bytes, List, [], ◌∷◌, ◌++◌, Option, none,
  some, Bool, true, false, not, ◌||◌, if◌then◌else◌, arith, Bool-cases, is_empty, ltb, length,
}
use polar_express.Http.{HttpRequest, get, put, delete}
use polar_express.GlacierConnection.{
  Settings, Connection, begin, send_request, send_authorized, create_vault, describe_vault,
  list_vaults, delete_vault, upload_archive, delete_archive, description_max_length, is_printable,
  vault_request, vault_path_prefix, archives_directory, list_vaults_request, upload_archive_request,
}

-- A call of one of the six operations, with its arguments.
pub data Operation : Type 0 where
  creates_vault : Bytes → Operation
  describes_vault : Bytes → Operation
  lists_vaults : ℕ → Bytes → Operation
  deletes_vault : Bytes → Operation
  uploads_archive : Bytes → List (Option Bytes) → Bytes → Bytes → Bytes → Operation
  deletes_archive : Bytes → Bytes → Operation

module _ (s : Settings) where
  unfoldable pub perform_operation : Operation → Connection → Bool × Connection
  unfolding create_vault describe_vault list_vaults delete_vault upload_archive delete_archive
  perform_operation (creates_vault v) c = create_vault s v c
  perform_operation (describes_vault v) c = describe_vault s v c
  perform_operation (lists_vaults n m) c = list_vaults s n m c
  perform_operation (deletes_vault v) c = delete_vault s v c
  perform_operation (uploads_archive v p l t d) c = upload_archive s v p l t d c
  perform_operation (deletes_archive v a) c = delete_archive s v a c

  -- The arguments that an operation refuses, and what it sends.
  abbrev pub refuses : Operation → Bool
  refuses (creates_vault v) = false
  refuses (describes_vault v) = false
  refuses (lists_vaults n m) = ltb n 1 || ltb 1000 n
  refuses (deletes_vault v) = is_empty v
  refuses (uploads_archive v p l t d) =
      is_empty p
      || (is_empty l
          || (is_empty t || (ltb description_max_length (length d) || not (is_printable d))))
  refuses (deletes_archive v a) = is_empty v || is_empty a

  abbrev pub request_of : Operation → HttpRequest
  request_of (creates_vault v) = vault_request s put (vault_path_prefix ++ v)
  request_of (describes_vault v) = vault_request s get (vault_path_prefix ++ v)
  request_of (lists_vaults n m) = list_vaults_request s n m
  request_of (deletes_vault v) = vault_request s delete (vault_path_prefix ++ v)
  request_of (uploads_archive v p l t d) = upload_archive_request s v l t d
  request_of (deletes_archive v a) =
      vault_request s delete
        (vault_path_prefix ++ v ++ codes "/" ++ archives_directory ++ codes "/" ++ a)

  abbrev pub payload_of : Operation → List (Option Bytes)
  payload_of (uploads_archive v p l t d) = p
  payload_of op = []

  abbrev pub digest_of : Operation → Bytes
  digest_of (uploads_archive v p l t d) = l
  digest_of op = []

  pub perform_operation-begin :
      (op : Operation) (c : Connection)
      → perform_operation op c
        ≡ begin s (refuses op) (request_of op) (payload_of op) (digest_of op) c
  unfolding perform_operation
  perform_operation-begin (creates_vault v) c = refl
  perform_operation-begin (describes_vault v) c = refl
  perform_operation-begin (lists_vaults n m) c = refl
  perform_operation-begin (deletes_vault v) c = refl
  perform_operation-begin (uploads_archive v p l t d) c = refl
  perform_operation-begin (deletes_archive v a) c = refl

  -- What an operation does: nothing, with the answer false, or it becomes the pending operation of
  -- an open connection that had none, and sends one request or none.
  abbrev pub Answers : Connection → Bool × Connection → Type 0
  Answers c (false, c') = c' ≡ c
  Answers c (true, c') =
      (c.is_open ≡ true)
      × (c.operation_pending ≡ false)
      × (c'.operation_pending ≡ true)
      × (c'.is_open ≡ true)
      × ((c'.sent ≡ c.sent) ⊎ ((r : HttpRequest) × (c'.sent ≡ c.sent ++ r ∷ [])))

  pub send_request-keeps :
      (r : HttpRequest) (payload : List (Option Bytes)) (digest : Bytes) (c : Connection)
      → let c' = (send_request s r payload digest c).1 in
        (c'.is_open ≡ c.is_open)
        × (c'.operation_pending ≡ c.operation_pending)
        × ((c'.sent ≡ c.sent) ⊎ ((q : HttpRequest) × (c'.sent ≡ c.sent ++ q ∷ [])))
  unfolding send_request
  send_request-keeps r payload digest c = kept _
    where
      kept :
          (q : Option HttpRequest)
          → let c' = (send_authorized s q payload c).1 in
            (c'.is_open ≡ c.is_open)
            × (c'.operation_pending ≡ c.operation_pending)
            × ((c'.sent ≡ c.sent) ⊎ ((q : HttpRequest) × (c'.sent ≡ c.sent ++ q ∷ [])))
      kept none = (refl, refl, inl refl)
      kept (some q) = elim (Bool-cases (s.takes q payload)) [
        | inl e ↦ rw (e, send_authorized) (refl, refl, inr (q, refl))
        | inr e ↦ rw (e, send_authorized) (refl, refl, inl refl)
      ]

  begin-Answers :
      (refused : Bool) (r : HttpRequest) (payload : List (Option Bytes)) (digest : Bytes)
      (c : Connection)
      → Answers c (begin s refused r payload digest c)
  unfolding begin
  begin-Answers refused r payload digest c =
      answers (not c.is_open || (c.operation_pending || refused)) refl
    where
      answers :
          (b : Bool)
          → (not c.is_open || (c.operation_pending || refused)) ≡ b
          → Answers c (
              if b then (false, c) else (
                true,
                (send_request s r payload digest (record c { operation_pending = true })).1,
              ))
      answers true e = refl
      answers false e =
          let (o, p, q) =
            send_request-keeps r payload digest (record c { operation_pending = true }) in
          (ground (arith, e), ground (arith, e), p, o ∙ ground (arith, e), q)

  -- Every operation answers false and changes nothing, or answers true: then the connection was open
  -- with no operation pending, this one is now, and at most one request was sent.
  pub perform_operation-Answers :
      (op : Operation) (c : Connection) → Answers c (perform_operation op c)
  perform_operation-Answers op c =
      subst (Answers c) (sym (perform_operation-begin op c))
        (begin-Answers (refuses op) (request_of op) (payload_of op) (digest_of op) c)

  -- No operation forgets that the connection was opened.
  pub has_strand-begin :
      (refused : Bool) (r : HttpRequest) (payload : List (Option Bytes)) (digest : Bytes)
      (c : Connection)
      → (begin s refused r payload digest c).1.has_strand ≡ c.has_strand
  unfolding begin send_request
  has_strand-begin refused r payload digest c =
      elim (Bool-cases (not c.is_open || (c.operation_pending || refused))) [
        | inl e ↦ rw e refl
        | inr e ↦ rw e (sent _)
      ]
    where
      sent :
          (q : Option HttpRequest)
          → (send_authorized s q payload (record c { operation_pending = true })).1.has_strand
            ≡ c.has_strand
      sent none = refl
      sent (some q) = elim (Bool-cases (s.takes q payload)) [
        | inl e ↦ rw (e, send_authorized) refl
        | inr e ↦ rw (e, send_authorized) refl
      ]

  pub has_strand-perform_operation :
      (op : Operation) (c : Connection) → (perform_operation op c).1.has_strand ≡ c.has_strand
  has_strand-perform_operation op c =
      ap (λ x. x.1.has_strand) (perform_operation-begin op c)
      ∙ has_strand-begin (refuses op) (request_of op) (payload_of op) (digest_of op) c
