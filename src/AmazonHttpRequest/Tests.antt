-- ===== src/AmazonHttpRequest/Tests.antt =====
-- util/amazon-http-request-util.cc: runs and witnesses, with simple functions for the clock, the
-- text and the cryptography.
use polar_express.Base.{
  ◌≡◌, refl, Bytes, ℕ, ◌+◌, List, [], ◌∷◌, ◌++◌, Option, none, some, Bool, true, false, map, take,
  codes, bytes_eq, ltb, leb, ◌&&◌, if◌then◌else◌, join,
}
use mathlib.Core.List.Perm
use polar_express.Http.{KeyValue, HttpRequest, post}
use polar_express.AmazonHttpRequest.{
  Tools, authorize_request, make_canonical_request, join_key_value_pairs, timestamp_header,
}
use polar_express.AmazonHttpRequest.Order.{
  make_canonical_request-perm, make_canonical_request-duplicate,
}
use polar_express.AmazonHttpRequest.Signed.{authorize_request-IsAuthorized, IsAuthorized}
use polar_express.AmazonHttpRequest.Joined.{join_key_value_pairs-join, pair}

abbrev lower : Bytes → Bytes
lower s = map (λ c. if leb 65 c && leb c 90 then c + 32 else c) s

abbrev tools : Tools
tools = record {
  universal_time = codes "20140102T030405";
  iso_date = λ s. some (take 8 s);
  to_lower = lower;
  trim = λ s. s;
  iequals = λ a b. bytes_eq (lower a) (lower b);
  split_path = λ s. s ∷ [];
  uri_encode = λ s. s;
  sha256 = λ s. take 4 s;
  hmac_sha256 = λ k s. take 2 k ++ take 2 s;
  hex = λ s. s;
}

abbrev digest_kv : KeyValue
digest_kv = record { key = codes "x-amz-content-sha256"; value = codes "AB" }

abbrev version_kv : KeyValue
version_kv = record { key = codes "X-Amz-Glacier-Version"; value = codes "2" }

abbrev version_again : KeyValue
version_again = record { key = codes "x-amz-glacier-version"; value = codes "3" }

abbrev request : HttpRequest
request = record {
  method = post;
  is_secure = true;
  hostname = codes "h";
  path = codes "p";
  query_parameters =
      record { key = codes "b"; value = codes "1" }
      ∷ record { key = codes "a"; value = codes "2" }
      ∷ [];
  request_headers = version_kv ∷ digest_kv ∷ [];
}

canonical_run :
    make_canonical_request tools request (codes "ab")
    ≡ some (
        codes
          "POST\np\na=2&b=1\nhost:h\nx-amz-content-sha256:AB\nx-amz-glacier-version:2\n\nhost;x-amz-content-sha256;x-amz-glacier-version\nAB")
unfolding make_canonical_request polar_express.Base.order
    polar_express.AmazonHttpRequest.canonical_text
canonical_run = refl

other_digest_run : make_canonical_request tools request (codes "ac") ≡ none
unfolding make_canonical_request polar_express.Base.order
other_digest_run = refl

abbrev authorized : HttpRequest
authorized = record request {
  request_headers =
      version_kv
      ∷ digest_kv
      ∷ record { key = codes "x-amz-date"; value = codes "20140102T030405Z" }
      ∷ record {
        key = codes "Authorization";
        value =
            codes
              "AWS4-HMAC-SHA256 Credential=id/20140102/us/glacier/aws4_request, SignedHeaders=host;x-amz-content-sha256;x-amz-date;x-amz-glacier-version, Signature=awaw";
      }
      ∷ [];
}

authorize_run :
    authorize_request tools
      (codes "k")
      (codes "id")
      (codes "us")
      (codes "glacier")
      (codes "ab")
      request
    ≡ some authorized
unfolding authorize_request polar_express.Base.order
authorize_run = refl

authorize_request-IsAuthorized_example :
    IsAuthorized tools
      (codes "k")
      (codes "id")
      (codes "us")
      (codes "glacier")
      (codes "ab")
      request
      authorized
authorize_request-IsAuthorized_example =
    authorize_request-IsAuthorized tools (codes "k") (codes "id") (codes "us") (codes "glacier")
      (codes "ab") request authorized authorize_run

abbrev reordered : List KeyValue
reordered = digest_kv ∷ version_kv ∷ []

make_canonical_request-perm_example :
    make_canonical_request tools request (codes "ab")
    ≡ make_canonical_request tools (record request { request_headers = reordered }) (codes "ab")
make_canonical_request-perm_example =
    make_canonical_request-perm tools request (codes "ab") {query = request.query_parameters}
      {headers = reordered} (Perm.refl request.query_parameters) (Perm.swap digest_kv version_kv [])

abbrev repeated : HttpRequest
repeated = record request { request_headers = version_again ∷ version_kv ∷ [] }

make_canonical_request-duplicate_example : make_canonical_request tools repeated (codes "ab") ≡ none
make_canonical_request-duplicate_example =
    make_canonical_request-duplicate tools repeated (codes "ab") version_kv version_again []
      (Perm.swap version_kv version_again []) refl

abbrev pairs : List (Bytes × Bytes)
pairs = (codes "a", codes "1") ∷ (codes "b", []) ∷ []

join_key_value_pairs-join_example :
    join_key_value_pairs pairs (codes "=") (codes "&")
    ≡ join (codes "&") (map (pair (codes "=") (codes "&") 61 [] refl) pairs)
join_key_value_pairs-join_example =
    join_key_value_pairs-join (codes "=") (codes "&") 61 [] refl pairs
