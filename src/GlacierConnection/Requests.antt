-- ===== src/GlacierConnection/Requests.antt =====
-- network/glacier-connection.cc with util/amazon-http-request-util.cc: the requests of the
-- operations can be signed.
use polar_express.Base.{
  ◌≡◌, refl, ap, ◌∙◌, ℕ, Bytes, List, [], ◌∷◌, ◌++◌, Option, none, some, true, false, if◌then◌else◌,
  Option-cases, subst, inl, inr, codes, order,
}
use polar_express.Http.{HttpRequest}
use polar_express.AmazonHttpRequest.{
  Tools, authorize_request, make_canonical_request, add_header_to_request, timestamp_header,
  make_signing_string, make_derived_signing_key, host_header,
}
use polar_express.GlacierConnection.{
  Settings, Connection, send_request, send_authorized, service_name, sha256_digest_of_empty_string,
  is_empty_payload, versioned, linear_digest_header, tree_digest_header, description_header,
  version_header, max_vaults_key, start_marker_key,
}
use polar_express.GlacierConnection.Pending.{
  Operation, creates_vault, describes_vault, lists_vaults, deletes_vault, uploads_archive,
  deletes_archive, perform_operation, perform_operation-begin, request_of, payload_of, digest_of,
  refuses,
}
use polar_express.GlacierConnection.Unsent.{begin-starts}

-- What the text functions do with the names that the operations use: lower case and URI encoding
-- keep them, a string is like itself, and the clock prints a time that can be read.
pub record IsTextual (t : Tools) : Type 0 where
  pub lower_linear : t.to_lower linear_digest_header ≡ linear_digest_header
  pub lower_tree : t.to_lower tree_digest_header ≡ tree_digest_header
  pub lower_description : t.to_lower description_header ≡ description_header
  pub lower_version : t.to_lower version_header ≡ version_header
  pub lower_timestamp : t.to_lower timestamp_header ≡ timestamp_header
  pub lower_host : t.to_lower host_header ≡ host_header
  pub encode_limit : t.uri_encode max_vaults_key ≡ max_vaults_key
  pub encode_marker : t.uri_encode start_marker_key ≡ start_marker_key
  pub iequals_refl : (x : Bytes) → t.iequals x x ≡ true
  pub date : Bytes
  pub iso_date : t.iso_date (t.universal_time ++ codes "Z") ≡ some date

abbrev pub IsSome : {A : Type 0} → Option A → Type 0
IsSome none = ⊥
IsSome (some a) = Unit

module _ (s : Settings) (h : IsTextual s.tools) where
  abbrev dated : HttpRequest → HttpRequest
  dated r =
      add_header_to_request timestamp_header (s.tools.universal_time ++ codes "Z") (versioned s r)

  plain-signed :
      (r : HttpRequest) (digest : Bytes)
      → r.query_parameters ≡ []
      → r.request_headers ≡ []
      → IsSome (make_canonical_request s.tools (dated r) digest)
  unfolding make_canonical_request order add_header_to_request
  plain-signed r digest q e = rw (q, e, h.lower_version, h.lower_timestamp, h.lower_host) tt

  list-signed :
      (n : ℕ) (m digest : Bytes)
      → IsSome (make_canonical_request s.tools (dated (request_of s (lists_vaults n m))) digest)
  unfolding make_canonical_request order add_header_to_request
  list-signed n [] digest = rw (h.encode_limit, h.lower_version, h.lower_timestamp, h.lower_host) tt
  list-signed n (c ∷ m) digest =
      rw (h.encode_limit, h.encode_marker, h.lower_version, h.lower_timestamp, h.lower_host) tt

  upload-signed :
      (v : Bytes) (p : List (Option Bytes)) (l t d : Bytes)
      → IsSome (make_canonical_request s.tools (dated (request_of s (uploads_archive v p l t d))) l)
  unfolding make_canonical_request order add_header_to_request
  upload-signed v p l t [] =
      rw
        (
          h.lower_linear, h.lower_tree, h.lower_version, h.lower_timestamp, h.lower_host,
          h.iequals_refl,
        )
        tt
  upload-signed v p l t (c ∷ d) =
      rw
        (
          h.lower_linear, h.lower_tree, h.lower_description, h.lower_version, h.lower_timestamp,
          h.lower_host, h.iequals_refl,
        )
        tt

  IsSome-authorized :
      (r : HttpRequest) (digest : Bytes)
      → IsSome (make_canonical_request s.tools (dated r) digest)
      → IsSome (
          authorize_request s.tools s.aws_secret_key s.aws_access_key s.aws_region_name service_name
            digest
            (versioned s r))
  unfolding authorize_request make_signing_string make_derived_signing_key
  IsSome-authorized r digest k =
      elim (Option-cases (make_canonical_request s.tools (dated r) digest)) [
        | inl e ↦ absurd (subst IsSome e k)
        | inr (c, e) ↦ rw (h.iso_date, e) tt
      ]

  -- The digest that SendRequest signs.
  abbrev pub signed_digest : Operation → Bytes
  signed_digest op =
      if is_empty_payload (payload_of s op) then sha256_digest_of_empty_string else digest_of s op

  unfoldable pub HasPayload : Operation → Type 0
  HasPayload (uploads_archive v p l t d) = is_empty_payload p ≡ false
  HasPayload op = Unit

  operation-signed :
      (op : Operation)
      → HasPayload op
      → IsSome (make_canonical_request s.tools (dated (request_of s op)) (signed_digest op))
  unfolding HasPayload
  operation-signed (creates_vault v) p =
      plain-signed (request_of s (creates_vault v)) sha256_digest_of_empty_string refl refl
  operation-signed (describes_vault v) p =
      plain-signed (request_of s (describes_vault v)) sha256_digest_of_empty_string refl refl
  operation-signed (lists_vaults n m) p = list-signed n m sha256_digest_of_empty_string
  operation-signed (deletes_vault v) p =
      plain-signed (request_of s (deletes_vault v)) sha256_digest_of_empty_string refl refl
  operation-signed (uploads_archive v p l t d) e = rw e (upload-signed v p l t d)
  operation-signed (deletes_archive v a) p =
      plain-signed (request_of s (deletes_archive v a)) sha256_digest_of_empty_string refl refl

  -- On an open connection with no operation pending, an operation whose arguments are accepted
  -- (and whose payload, for an upload, is not empty) answers true, its request can be signed, and
  -- if the HTTP connection takes the signed request then exactly that one is sent.
  pub perform_operation-sends :
      (op : Operation) (c : Connection)
      → c.is_open ≡ true
      → c.operation_pending ≡ false
      → refuses s op ≡ false
      → HasPayload op
      → (r : HttpRequest) × (authorize_request s.tools s.aws_secret_key s.aws_access_key
            s.aws_region_name service_name
            (signed_digest op)
            (versioned s (request_of s op))
          ≡ some r)
        × ((perform_operation s op c).0 ≡ true)
        × (s.takes r (payload_of s op) ≡ true
            → (perform_operation s op c).1.sent ≡ c.sent ++ r ∷ [])
  unfolding send_request send_authorized
  perform_operation-sends op c o p q y = elim (Option-cases signed) [
    | inl e ↦ absurd (
        subst IsSome e
          (IsSome-authorized (request_of s op) (signed_digest op) (operation-signed op y)))
    | inr (r, e) ↦ (r, e, ap (λ x. x.0) started, λ t. ap (λ x. x.1.sent) started ∙ rw (e, t) refl)
  ]
    where
      signed : Option HttpRequest
      signed =
          authorize_request s.tools s.aws_secret_key s.aws_access_key s.aws_region_name service_name
            (signed_digest op) (versioned s (request_of s op))

      started : perform_operation s op c ≡ (
        true,
        (send_request s
            (request_of s op)
            (payload_of s op)
            (digest_of s op)
            (record c { operation_pending = true })).1,
      )
      started =
          perform_operation-begin s op c
          ∙ begin-starts s (refuses s op) (request_of s op) (payload_of s op) (digest_of s op) c o p
              q
