-- ===== src/AmazonHttpRequest/Signed.antt =====
-- util/amazon-http-request-util.cc: what AuthorizeRequest signs, and what it says that it signed.
use polar_express.Base.{
  ◌≡◌, refl, sym, ap, ◌∙◌, Bytes, List, [], ◌∷◌, ◌++◌, some, inl, inr, ◌>>=◌, map_insert,
  set_insert, keys, keys-map_insert, length-map_insert, Ascending, set_insert-Ascending, is_empty,
  each, bind_back, some_inj, if◌then◌else◌, Option-cases, arith, codes, join, append_assoc, length,
  ◌+◌,
}
use polar_express.Http.{KeyValue, HttpRequest}
use polar_express.AmazonHttpRequest.{
  Tools, add_canonical_header, canonical_headers, make_canonical_request, make_signing_string,
  make_derived_signing_key, make_signature, header_set, host_header,
  generate_authorization_header_value, authorize_request, add_header_to_request, timestamp_header,
  termination_string, authorization_header, canonical_text, method_name, normalize_path,
  join_key_value_pairs, canonical_query_parameters,
}

join_lines :
    (sep a b c d e f : Bytes)
    → join sep (a ∷ b ∷ c ∷ d ∷ e ∷ f ∷ [])
      ≡ (a ++ sep ++ b ++ sep ++ c ++ sep ++ d) ++ sep ++ e ++ sep ++ f
unfolding join
join_lines sep a b c d e f = simp append_assoc

module _ (t : Tools) (digest : Bytes) where
  add_canonical_header-insert :
      (kv : KeyValue) (m m' : List (Bytes × Bytes)) (found found' : Bytes)
      → add_canonical_header t digest kv (m, found) ≡ some (m', found')
      → map_insert (t.to_lower kv.key) (t.trim kv.value) m ≡ some m'
  unfolding add_canonical_header
  add_canonical_header-insert kv m m' found found' h = ground arith

  -- The keys of the map are the names of the headers.
  keys-canonical_headers :
      (kvs : List KeyValue) (m m' : List (Bytes × Bytes)) (found found' : Bytes)
      → canonical_headers t digest kvs (m, found) ≡ some (m', found')
      → keys m' ≡ header_set t kvs (keys m)
  unfolding canonical_headers each header_set
  keys-canonical_headers [] m m' found found' h = ap (λ s. keys s.0) (sym (some_inj h))
  keys-canonical_headers (kv ∷ kvs) m m' found found' h =
      elim (Option-cases (add_canonical_header t digest kv (m, found))) [
        | inl e ↦ cc
        | inr ((n, f), e) ↦
            keys-canonical_headers kvs n m' f found'
              (sym (ap (λ o. o >>= canonical_headers t digest kvs) e) ∙ h)
            ∙ ap (header_set t kvs) (
                keys-map_insert (t.to_lower kv.key) (t.trim kv.value) m n
                  (add_canonical_header-insert kv m n found f e))
      ]

  length-canonical_headers :
      (kvs : List KeyValue) (m m' : List (Bytes × Bytes)) (found found' : Bytes)
      → canonical_headers t digest kvs (m, found) ≡ some (m', found')
      → length (keys m') ≡ length (keys m) + length kvs
  unfolding canonical_headers each
  length-canonical_headers [] m m' found found' h =
      omega (arith, ap (λ s. length (keys s.0)) (some_inj h))
  length-canonical_headers (kv ∷ kvs) m m' found found' h =
      elim (Option-cases (add_canonical_header t digest kv (m, found))) [
        | inl e ↦ cc
        | inr ((n, f), e) ↦ omega (
          arith,
          length-canonical_headers kvs n m' f found'
              (sym (ap (λ o. o >>= canonical_headers t digest kvs) e) ∙ h),
          length-map_insert (t.to_lower kv.key) (t.trim kv.value) m n
              (add_canonical_header-insert kv m n found f e),
        )
      ]

  header_set-Ascending :
      (kvs : List KeyValue) (s : List Bytes) → Ascending s → Ascending (header_set t kvs s)
  unfolding header_set
  header_set-Ascending [] s h = h
  header_set-Ascending (kv ∷ kvs) s h =
      header_set-Ascending kvs (set_insert (t.to_lower kv.key) s)
        (set_insert-Ascending (t.to_lower kv.key) s h)

  -- The names of the headers that a request signs.
  abbrev pub signed_names : HttpRequest → List Bytes
  unfolding set_insert header_set
  signed_names r = set_insert (t.to_lower host_header) (header_set t r.request_headers [])

  -- A canonical request: its next to last line is the list of the names, each once.
  pub record IsCanonical (r : HttpRequest) (canonical : Bytes) : Type 0 where
    pub before : Bytes
    pub payload : Bytes
    pub lines :
        canonical
        ≡ before ++ codes "\n" ++ join (codes ";") (signed_names r) ++ codes "\n" ++ payload
    pub one_each : length (signed_names r) ≡ length r.request_headers + 1

  pub make_canonical_request-IsCanonical :
      (r : HttpRequest) (canonical : Bytes)
      → make_canonical_request t r digest ≡ some canonical
      → IsCanonical r canonical
  unfolding make_canonical_request canonical_text signed_names
  make_canonical_request-IsCanonical r canonical h =
      let (query, q, h') = bind_back (canonical_query_parameters t r.query_parameters []) _ h in
      let ((m, found), c, h'') =
        bind_back (canonical_headers t digest r.request_headers ([], [])) _ h' in
      let (headers, i, k) =
        bind_back (map_insert (t.to_lower host_header) (t.trim r.hostname) m) _ h'' in
      let names : keys headers ≡ signed_names r =
        keys-map_insert (t.to_lower host_header) (t.trim r.hostname) m headers i
        ∙ ap (set_insert (t.to_lower host_header))
            (keys-canonical_headers r.request_headers [] m [] found c) in
      record {
        before =
            method_name r.method
            ++ codes "\n"
            ++ normalize_path t r.path
            ++ codes "\n"
            ++ join_key_value_pairs query (codes "=") (codes "&")
            ++ codes "\n"
            ++ (join_key_value_pairs headers (codes ":") (codes "\n") ++ codes "\n");
        payload = if is_empty found then t.to_lower digest else found;
        lines =
            sym (some_inj k)
            ∙ join_lines (codes "\n") (method_name r.method) (normalize_path t r.path)
                (join_key_value_pairs query (codes "=") (codes "&"))
                (join_key_value_pairs headers (codes ":") (codes "\n") ++ codes "\n")
                (join (codes ";") (keys headers))
                (if is_empty found then t.to_lower digest else found)
            ∙ rw names refl;
        one_each = omega (
          arith,
          sym (ap length names),
          length-map_insert (t.to_lower host_header) (t.trim r.hostname) m headers i,
          length-canonical_headers r.request_headers [] m [] found c,
        );
      }

-- The parts of an authorized request.
pub record IsAuthorized (t : Tools) (secret_key access_key region service digest : Bytes)
    (request authorized : HttpRequest) : Type 0 where
  pub dated : HttpRequest
  pub date : Bytes
  pub canonical : Bytes
  pub signing_string : Bytes
  pub key : Bytes
  pub dated_is :
      dated ≡ add_header_to_request timestamp_header (t.universal_time ++ codes "Z") request
  pub date_is : t.iso_date (t.universal_time ++ codes "Z") ≡ some date
  pub canonical_is : make_canonical_request t dated digest ≡ some canonical
  pub signing_string_is :
      make_signing_string t region service (t.universal_time ++ codes "Z") canonical
      ≡ some signing_string
  pub key_is :
      make_derived_signing_key t secret_key region service (t.universal_time ++ codes "Z")
      ≡ some key
  pub authorized_is :
      authorized
      ≡ add_header_to_request authorization_header
          (codes "AWS4-HMAC-SHA256 Credential="
            ++ join (codes "/") (access_key ∷ date ∷ region ∷ service ∷ termination_string ∷ [])
            ++ codes ", SignedHeaders="
            ++ join (codes ";") (signed_names t digest dated)
            ++ codes ", Signature="
            ++ make_signature t key signing_string)
          dated
  pub signed : IsCanonical t digest dated canonical
  pub in_order : Ascending (signed_names t digest dated)

authorization_value :
    (t : Tools) (access_key region service digest date signature : Bytes) (r : HttpRequest)
    → generate_authorization_header_value t access_key region service r date signature
      ≡ codes "AWS4-HMAC-SHA256 Credential="
        ++ join (codes "/") (access_key ∷ date ∷ region ∷ service ∷ termination_string ∷ [])
        ++ codes ", SignedHeaders="
        ++ join (codes ";") (signed_names t digest r)
        ++ codes ", Signature="
        ++ signature
unfolding generate_authorization_header_value signed_names
authorization_value t access_key region service digest date signature r = simp append_assoc

-- Where AuthorizeRequest succeeds, it answers the request with the time and then the authorization
-- as two more headers. The signature is that of the canonical request with the time, under the
-- derived key; the list of signed headers is the one in the canonical request, in ascending order
-- with one name for each header and one for the host.
pub authorize_request-IsAuthorized :
    (t : Tools) (secret_key access_key region service digest : Bytes)
    (request authorized : HttpRequest)
    → authorize_request t secret_key access_key region service digest request ≡ some authorized
    → IsAuthorized t secret_key access_key region service digest request authorized
unfolding authorize_request signed_names
authorize_request-IsAuthorized t secret_key access_key region service digest request authorized h =
    let (date, d, h1) = bind_back (t.iso_date timestamp) _ h in
    let (canonical, c, h2) = bind_back (make_canonical_request t dated digest) _ h1 in
    let (text, x, h3) = bind_back (make_signing_string t region service timestamp canonical) _ h2 in
    let (key, y, h4) =
      bind_back (make_derived_signing_key t secret_key region service timestamp) _ h3 in
    record {
      dated = dated;
      date = date;
      canonical = canonical;
      signing_string = text;
      key = key;
      dated_is = refl;
      date_is = d;
      canonical_is = c;
      signing_string_is = x;
      key_is = y;
      authorized_is =
          sym (some_inj h4)
          ∙ ap (λ v. add_header_to_request authorization_header v dated)
              (authorization_value t access_key region service digest date
                (make_signature t key text) dated);
      signed = make_canonical_request-IsCanonical t digest dated canonical c;
      in_order =
          set_insert-Ascending (t.to_lower host_header) _
            (header_set-Ascending t digest dated.request_headers [] tt);
    }
  where
    timestamp : Bytes
    timestamp = t.universal_time ++ codes "Z"

    dated : HttpRequest
    dated = add_header_to_request timestamp_header timestamp request
