-- ===== src/HttpConnection.antt =====
-- network/http-connection.cc and the requests of network/http-client-connection.cc: headers as text.
pub mod Lines
pub mod Headers
pub mod Request
pub mod Tests
use polar_express.Base.{
  ℕ, zero, suc, ◌-◌, Bytes, List, [], ◌∷◌, ◌++◌, Option, none, some, Bool, true, false, not, ◌&&◌,
  ◌||◌, if◌then◌else◌, is_empty, codes, join, map, length, take, ltb, ◌==◌, bytes_eq,
}
use polar_express.Http.{KeyValue, Method, get, put, post, delete, HttpRequest}

-- What the code uses of boost and curl. `split_regex` splits at every `: `, `in_set` is the
-- search in a set of strings without regard to case, and `to_string` prints a number.
pub record TextTools : Type 0 where
  pub split_regex : Bytes → List Bytes
  pub iequals : Bytes → Bytes → Bool
  pub in_set : List Bytes → Bytes → Bool
  pub to_number : Bytes → Option ℕ
  pub to_string : ℕ → Bytes
  pub uri_encode : Bytes → Bytes

-- Whether a line so far ends with CR LF.
abbrev pub ends_line : Bytes → Bool
ends_line [] = false
ends_line (a ∷ []) = false
ends_line (a ∷ b ∷ []) = (a == 13) && (b == 10)
ends_line (a ∷ b ∷ c ∷ l) = ends_line (b ∷ c ∷ l)

-- The loop of GetTextLineFromData: the line so far and the unread bytes.
unfoldable pub get_text_line : Bytes → Bytes → Bytes × Bytes
get_text_line line [] = (line, [])
get_text_line line (b ∷ bs) =
    let rest = get_text_line (line ++ b ∷ []) bs in
    if ends_line (line ++ b ∷ [])
    then (take (length (line ++ b ∷ []) - 2) (line ++ b ∷ []), bs)
    else rest

abbrev pub get_method_string : Method → Bytes
get_method_string get = codes "GET"
get_method_string put = codes "PUT"
get_method_string post = codes "POST"
get_method_string delete = codes "DELETE"

abbrev pub method_requires_content_length : Method → Bool
method_requires_content_length put = true
method_requires_content_length post = true
method_requires_content_length get = false
method_requires_content_length delete = false

module _ (t : TextTools) where
  abbrev pub header_lines : List Bytes → List KeyValue → List Bytes
  header_lines blacklisted [] = []
  header_lines blacklisted (kv ∷ kvs) =
      if t.in_set blacklisted kv.key
      then header_lines blacklisted kvs
      else (kv.key ++ codes ": " ++ kv.value) ∷ header_lines blacklisted kvs

  unfoldable pub serialize_headers : List Bytes → List KeyValue → Bytes
  unfolding join
  serialize_headers blacklisted kvs = join (codes "\r\n") (header_lines blacklisted kvs)

  abbrev pub header_of : List Bytes → KeyValue
  header_of [] = record { key = []; value = [] }
  header_of (k ∷ []) = record { key = k; value = [] }
  header_of (k ∷ v ∷ parts) = record { key = k; value = v }

  abbrev pub deserialize_header : Bytes → List KeyValue → List KeyValue
  deserialize_header line kvs = kvs ++ header_of (t.split_regex line) ∷ []

  -- The loop of DeserializeHeadersFromData; `none` is the end of the fuel.
  unfoldable pub deserialize_headers : ℕ → Bytes → List KeyValue → Option (List KeyValue)
  unfolding get_text_line
  deserialize_headers fuel [] kvs = some kvs
  deserialize_headers zero (b ∷ bs) kvs = none
  deserialize_headers (suc fuel) (b ∷ bs) kvs =
      let (line, rest) = get_text_line [] (b ∷ bs) in
      deserialize_headers fuel rest (if is_empty line then kvs else deserialize_header line kvs)

  abbrev pub get_header_value : List KeyValue → Bytes → Bytes
  get_header_value [] key = []
  get_header_value (kv ∷ kvs) key =
      if t.iequals kv.key key then kv.value else get_header_value kvs key

  abbrev pub is_payload_chunked : List KeyValue → Bool
  is_payload_chunked kvs =
      t.iequals (get_header_value kvs (codes "Transfer-Encoding")) (codes "chunked")

  abbrev pub get_payload_size : List KeyValue → ℕ
  get_payload_size kvs = elim (t.to_number (get_header_value kvs (codes "Content-Length"))) [
    | none ↦ 0
    | some n ↦ n
  ]

  abbrev pub build_query_parameters : List KeyValue → Bytes
  unfolding join
  build_query_parameters kvs =
      join (codes "&") (map (λ kv. t.uri_encode kv.key ++ codes "=" ++ t.uri_encode kv.value) kvs)

  abbrev pub build_request_headers : List KeyValue → Bytes
  unfolding serialize_headers
  build_request_headers kvs = serialize_headers (codes "Host" ∷ codes "Content-Length" ∷ []) kvs

  unfoldable pub serialize_request : Bytes → HttpRequest → ℕ → Bytes
  unfolding build_query_parameters build_request_headers
  serialize_request connection_hostname r payload_size =
      let query = build_query_parameters r.query_parameters in
      let headers = build_request_headers r.request_headers in
      get_method_string r.method
      ++ codes " "
      ++ r.path
      ++ (if is_empty query then [] else codes "?" ++ query)
      ++ codes " HTTP/1.1\r\n"
      ++ codes "Host: "
      ++ (if is_empty r.hostname then connection_hostname else r.hostname)
      ++ codes "\r\n"
      ++ (if is_empty headers then [] else headers ++ codes "\r\n")
      ++ (if ltb 0 payload_size || method_requires_content_length r.method
          then codes "Content-Length: " ++ t.to_string payload_size ++ codes "\r\n"
          else [])
      ++ codes "\r\n"
