-- ===== src/AmazonHttpRequest/Order.antt =====
-- util/amazon-http-request-util.cc: the canonical request forgets the order of what it signs.
use polar_express.Base.{
  ◌≡◌, refl, sym, ap, ap₂, ◌∙◌, Bytes, List, [], ◌∷◌, Option, none, some, true, Bool-cases, inl,
  inr, ◌>>=◌, bytes_eq, map_insert, insert_twice, map_insert_comm, each, each-perm, bind_assoc,
  bytes_eq→≡, arith,
}
use mathlib.Core.List.{Perm, Permᴰ}
use mathlib.Core.List.Perm
use mathlib.Core.Logic.{∥∥₁_elim}
use polar_express.Http.{KeyValue, HttpRequest}
use polar_express.AmazonHttpRequest.{
  Tools, payload_digest_header, add_canonical_header, canonical_headers, canonical_query_parameters,
  canonical_text, make_canonical_request, trim_whitespace, host_header,
}

module _ (t : Tools) (digest : Bytes) where
  same_digest_keys :
      (a b : KeyValue)
      → bytes_eq a.key payload_digest_header ≡ true
      → bytes_eq b.key payload_digest_header ≡ true
      → a.key ≡ b.key
  same_digest_keys a b h k =
      bytes_eq→≡ a.key payload_digest_header h ∙ sym (bytes_eq→≡ b.key payload_digest_header k)

  -- Two headers that carry the digest have the same key, and the map does not take both.
  add_canonical_header_comm :
      (a b : KeyValue) (s : List (Bytes × Bytes) × Bytes)
      → (add_canonical_header t digest a s >>= add_canonical_header t digest b)
        ≡ (add_canonical_header t digest b s >>= add_canonical_header t digest a)
  unfolding add_canonical_header
  add_canonical_header_comm a b (m, found) =
      elim (Bool-cases (bytes_eq a.key payload_digest_header)) [
        | inl e ↦ elim (Bool-cases (bytes_eq b.key payload_digest_header)) [
          | inl f ↦ ground (
            arith,
            e,
            f,
            same_digest_keys a b e f,
            insert_twice (t.to_lower a.key) (t.trim a.value) (t.trim b.value) m,
            insert_twice (t.to_lower a.key) (t.trim b.value) (t.trim a.value) m,
          )
          | inr f ↦ ground (
            arith,
            e,
            f,
            map_insert_comm (t.to_lower a.key) (t.to_lower b.key) (t.trim a.value) (t.trim b.value)
                m,
          )
        ]
        | inr e ↦ ground (
          arith,
          e,
          map_insert_comm (t.to_lower a.key) (t.to_lower b.key) (t.trim a.value) (t.trim b.value) m,
        )
      ]

  same_keys-none :
      (a b : KeyValue) (s : List (Bytes × Bytes) × Bytes)
      → t.to_lower a.key ≡ t.to_lower b.key
      → (add_canonical_header t digest a s >>= add_canonical_header t digest b) ≡ none
  unfolding add_canonical_header
  same_keys-none a b (m, found) e =
      ground (arith, insert_twice (t.to_lower a.key) (t.trim a.value) (t.trim b.value) m)

  duplicate-none :
      (a b : KeyValue) (rest : List KeyValue) (s : List (Bytes × Bytes) × Bytes)
      → t.to_lower a.key ≡ t.to_lower b.key
      → canonical_headers t digest (a ∷ b ∷ rest) s ≡ none
  unfolding canonical_headers each
  duplicate-none a b rest s e =
      sym (
        bind_assoc (add_canonical_header t digest a s) (add_canonical_header t digest b)
          (canonical_headers t digest rest))
      ∙ ap (λ o. o >>= canonical_headers t digest rest) (same_keys-none a b s e)

-- The canonical request, or the refusal to make one, is the same for every order of the query
-- parameters and of the headers.
pub make_canonical_request-perm :
    (t : Tools) (r : HttpRequest) (digest : Bytes) {query headers : List KeyValue}
    → Perm r.query_parameters query
    → Perm r.request_headers headers
    → make_canonical_request t r digest
      ≡ make_canonical_request t
          (record r { query_parameters = query; request_headers = headers })
          digest
unfolding make_canonical_request canonical_query_parameters canonical_headers canonical_text
make_canonical_request-perm t r digest {query} {headers} p q =
    ∥∥₁_elim p (hlevel) λ p'. ∥∥₁_elim q (hlevel) λ q'. ap₂ build (same_query p') (same_headers q')
  where
    build : Option (List (Bytes × Bytes)) → Option (List (Bytes × Bytes) × Bytes) → Option Bytes
    build query' s = query' >>= λ qs. s >>= λ hs.
        map_insert (t.to_lower host_header) (trim_whitespace t r.hostname) hs.0 >>= λ m.
        some (canonical_text t r digest qs m hs.1)

    same_query :
        Permᴰ r.query_parameters query
        → canonical_query_parameters t r.query_parameters [] ≡ canonical_query_parameters t query []
    same_query d =
        each-perm (λ kv. map_insert (t.uri_encode kv.key) (t.uri_encode kv.value))
          (λ a b m.
            map_insert_comm (t.uri_encode a.key) (t.uri_encode b.key) (t.uri_encode a.value)
              (t.uri_encode b.value) m)
          d []

    same_headers :
        Permᴰ r.request_headers headers
        → canonical_headers t digest r.request_headers ([], [])
          ≡ canonical_headers t digest headers ([], [])
    same_headers d =
        each-perm (add_canonical_header t digest) (add_canonical_header_comm t digest) d ([], [])

-- Of two headers whose keys are the same in lower case, wherever they stand among the headers, no
-- canonical request is made.
pub make_canonical_request-duplicate :
    (t : Tools) (r : HttpRequest) (digest : Bytes) (a b : KeyValue) (rest : List KeyValue)
    → Perm r.request_headers (a ∷ b ∷ rest)
    → t.to_lower a.key ≡ t.to_lower b.key
    → make_canonical_request t r digest ≡ none
unfolding make_canonical_request canonical_text
make_canonical_request-duplicate t r digest a b rest p e =
    make_canonical_request-perm t r digest (Perm.refl r.query_parameters) p
    ∙ refused (canonical_query_parameters t r.query_parameters [])
        (canonical_headers t digest (a ∷ b ∷ rest) ([], []))
        (duplicate-none t digest a b rest ([], []) e)
  where
    refused :
        (query : Option (List (Bytes × Bytes))) (s : Option (List (Bytes × Bytes) × Bytes))
        → s ≡ none
        → (query >>= λ qs. s >>= λ hs.
            map_insert (t.to_lower host_header) (trim_whitespace t r.hostname) hs.0 >>= λ m.
            some (canonical_text t r digest qs m hs.1))
          ≡ none
    refused none s h = refl
    refused (some q) none h = refl
    refused (some q) (some x) h = cc
