-- ===== src/HttpConnection/Tests.antt =====
-- network/http-connection.cc: a run and witnesses.
use polar_express.Base.{
  ◌≡◌, refl, sym, ap, append-nil, ◌∙◌, Bytes, List, [], ◌∷◌, ◌++◌, none, some, Bool, true, false,
  ◌&&◌, ◌||◌, arith, All, append_assoc, ◌==◌, if◌then◌else◌, codes, join, bytes_eq,
}
use polar_express.HttpConnection.Request.{request_line, sent_headers, deserialize-serialize_request}
use polar_express.Http.{put, HttpRequest, KeyValue}
use polar_express.HttpConnection.{
  TextTools, serialize_request, build_query_parameters, build_request_headers, get_text_line,
  serialize_headers, deserialize_headers,
}
use polar_express.HttpConnection.Lines.{IsLine}
use polar_express.HttpConnection.Headers.{
  has_separator, IsSplitting, IsHeader, kept, deserialize-serialize,
}

-- The parts of a string between one `: ` and the next.
abbrev parts : Bytes → Bytes → List Bytes
parts acc [] = acc ∷ []
parts acc (a ∷ []) = (acc ++ a ∷ []) ∷ []
parts acc (a ∷ b ∷ l) =
    if (a == 58) && (b == 32) then acc ∷ parts [] l else parts (acc ++ a ∷ []) (b ∷ l)

abbrev contains : List Bytes → Bytes → Bool
contains [] s = false
contains (x ∷ xs) s = bytes_eq x s || contains xs s

abbrev pub tools : TextTools
tools = record {
  split_regex = parts [];
  iequals = λ a b. bytes_eq a b;
  in_set = λ names s. contains names s;
  to_number = λ s. none;
  to_string = λ n. codes "7";
  uri_encode = λ s. s;
}

or_false : {x y : Bool} → x || y ≡ false → (x ≡ false) × (y ≡ false)
or_false {x} {y} h = both x h
  where
    both : (x : Bool) → x || y ≡ false → (x ≡ false) × (y ≡ false)
    both true h = cc
    both false h = (refl, h)

and_false : (x : Bool) → x && false ≡ false
and_false true = refl
and_false false = refl

parts-whole : (acc l : Bytes) → has_separator l ≡ false → parts acc l ≡ (acc ++ l) ∷ []
parts-whole acc [] h = ap (λ x. x ∷ []) (sym (append-nil acc))
parts-whole acc (a ∷ []) h = refl
parts-whole acc (a ∷ b ∷ l) h =
    let (x, y) = or_false {x = (a == 58) && (b == 32)} {y = has_separator (b ∷ l)} h in
    rw x
      (parts-whole (acc ++ a ∷ []) (b ∷ l) y ∙ ap (λ q. q ∷ []) (append_assoc acc (a ∷ []) (b ∷ l)))

parts-split :
    (acc k v : Bytes)
    → has_separator k ≡ false
    → has_separator v ≡ false
    → parts acc (k ++ 58 ∷ 32 ∷ v) ≡ (acc ++ k) ∷ v ∷ []
parts-split acc [] v h k =
    ap (λ x. x ∷ parts [] v) (sym (append-nil acc)) ∙ ap (◌∷◌ (acc ++ [])) (parts-whole [] v k)
parts-split acc (a ∷ []) v h k =
    rw (and_false (a == 58)) (ap (◌∷◌ (acc ++ a ∷ [])) (parts-whole [] v k))
parts-split acc (a ∷ b ∷ l) v h k =
    let (x, y) = or_false {x = (a == 58) && (b == 32)} {y = has_separator (b ∷ l)} h in
    rw x (
      parts-split (acc ++ a ∷ []) (b ∷ l) v y k
      ∙ ap (λ q. q ∷ v ∷ []) (append_assoc acc (a ∷ []) (b ∷ l)))

tools-IsSplitting : IsSplitting tools
tools-IsSplitting k v h l = rw (append_assoc k (codes ": ") v) (parts-split [] k v h l)

abbrev no_return : Bytes → Bool
no_return [] = true
no_return (a ∷ l) = if a == 13 then false else no_return l

no_return-IsLine : (l : Bytes) → no_return l ≡ true → IsLine l
no_return-IsLine [] h = tt
no_return-IsLine (a ∷ l) h = ground (arith, no_return-IsLine l)

abbrev header : Bytes → Bytes → KeyValue
header k v = record { key = k; value = v }

header-IsHeader :
    (k v : Bytes)
    → no_return k ≡ true
    → no_return v ≡ true
    → has_separator k ≡ false
    → has_separator v ≡ false
    → IsHeader (header k v)
header-IsHeader k v h l m n = record {
  key_line = no_return-IsLine k h;
  value_line = no_return-IsLine v l;
  key_whole = m;
  value_whole = n;
}

abbrev headers : List KeyValue
headers =
    header (codes "Host") (codes "example.org")
    ∷ header (codes "x-a") (codes "b:c")
    ∷ header (codes "Accept") []
    ∷ []

headers-IsHeader : All IsHeader headers
headers-IsHeader = (
  header-IsHeader (codes "Host") (codes "example.org") refl refl refl refl,
  (
    header-IsHeader (codes "x-a") (codes "b:c") refl refl refl refl,
    (header-IsHeader (codes "Accept") [] refl refl refl refl, tt),
  ),
)

deserialize-serialize_example :
    deserialize_headers tools 99
      (serialize_headers tools (codes "Host" ∷ []) headers ++ codes "\r\n\r\n")
      []
    ≡ some (kept tools (codes "Host" ∷ []) headers)
unfolding serialize_headers bytes_eq
deserialize-serialize_example =
    deserialize-serialize tools tools-IsSplitting (codes "Host" ∷ []) headers 99 headers-IsHeader
      (omega arith)

abbrev request : HttpRequest
request = record {
  method = put;
  is_secure = true;
  hostname = codes "example.org";
  path = codes "/vaults/v";
  query_parameters = header (codes "a") (codes "b") ∷ [];
  request_headers = headers;
}

sent-IsHeader : All IsHeader (sent_headers tools (codes "glacier") request 7)
unfolding bytes_eq
sent-IsHeader = (
  headers-IsHeader.0,
  (
    headers-IsHeader.1.0,
    (
      headers-IsHeader.1.1.0,
      (header-IsHeader (codes "Content-Length") (codes "7") refl refl refl refl, tt),
    ),
  ),
)

deserialize-serialize_request_example :
    ((get_text_line [] (serialize_request tools (codes "glacier") request 7)).0
      ≡ request_line tools request)
    × (deserialize_headers tools 200
          (get_text_line [] (serialize_request tools (codes "glacier") request 7)).1
          []
        ≡ some (sent_headers tools (codes "glacier") request 7))
unfolding serialize_request serialize_headers build_query_parameters build_request_headers join
    bytes_eq
deserialize-serialize_request_example =
    deserialize-serialize_request tools tools-IsSplitting (codes "glacier") request 7 200
      (no_return-IsLine (request_line tools request) refl) sent-IsHeader (omega arith)
