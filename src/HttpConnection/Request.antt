-- ===== src/HttpConnection/Request.antt =====
-- network/http-client-connection.cc: what stands in a request that SerializeRequest prints.
use polar_express.Base.{
  ◌≡◌, refl, sym, ap, ◌∙◌, ℕ, zero, ◌+◌, ◌≤◌, suc, Bytes, List, [], ◌∷◌, ◌++◌, false, ◌||◌, arith,
  All, append_assoc, append-nil, length, length-append, some, if◌then◌else◌, is_empty, join, codes,
  map, Bool-cases, inl, inr, ltb,
}
use polar_express.Http.{KeyValue, HttpRequest}
use polar_express.HttpConnection.{
  TextTools, get_text_line, serialize_headers, deserialize_headers, get_method_string,
  method_requires_content_length, build_query_parameters, build_request_headers, serialize_request,
}
use polar_express.HttpConnection.Lines.{IsLine, get_text_line-ended}
use polar_express.HttpConnection.Headers.{
  IsSplitting, IsHeader, kept, line_of, header_lines-kept, filled, deserialize-header,
}

-- Headers with an end of line after each, before other bytes.
abbrev terminated : List KeyValue → Bytes → Bytes
terminated [] rest = rest
terminated (kv ∷ kvs) rest = line_of kv ++ 13 ∷ 10 ∷ terminated kvs rest

terminated-append :
    (a b : List KeyValue) (rest : Bytes)
    → terminated (a ++ b) rest ≡ terminated a (terminated b rest)
terminated-append [] b rest = refl
terminated-append (kv ∷ a) b rest = ap (λ x. line_of kv ++ 13 ∷ 10 ∷ x) (terminated-append a b rest)

is_empty-append : (a b : Bytes) → is_empty a ≡ false → is_empty (a ++ b) ≡ false
is_empty-append [] b h = cc
is_empty-append (x ∷ a) b h = refl

abbrev lines : List KeyValue → Bytes
unfolding join
lines kvs = join (codes "\r\n") (map line_of kvs)

lines-terminated :
    (kv : KeyValue) (kvs : List KeyValue) (rest : Bytes)
    → (lines (kv ∷ kvs) ++ codes "\r\n") ++ rest ≡ terminated (kv ∷ kvs) rest
unfolding join lines
lines-terminated kv [] rest = append_assoc (line_of kv) (codes "\r\n") rest
lines-terminated kv (k ∷ kvs) rest =
    let l : Bytes = line_of kv in
    let j : Bytes = lines (k ∷ kvs) in
    ap (λ x. x ++ rest) (append_assoc (l ++ codes "\r\n") j (codes "\r\n"))
    ∙ append_assoc (l ++ codes "\r\n") (j ++ codes "\r\n") rest
    ∙ append_assoc l (codes "\r\n") ((j ++ codes "\r\n") ++ rest)
    ∙ ap (λ x. l ++ 13 ∷ 10 ∷ x) (lines-terminated k kvs rest)

-- The request's line, without its end.
abbrev pub request_line : TextTools → HttpRequest → Bytes
request_line t r =
    let query = build_query_parameters t r.query_parameters in
    get_method_string r.method
    ++ codes " "
    ++ r.path
    ++ (if is_empty query then [] else codes "?" ++ query)
    ++ codes " HTTP/1.1"

abbrev content_length : TextTools → HttpRequest → ℕ → List KeyValue
content_length t r payload_size =
    if ltb 0 payload_size || method_requires_content_length r.method
    then record { key = codes "Content-Length"; value = t.to_string payload_size } ∷ []
    else []

abbrev size_line : TextTools → HttpRequest → ℕ → Bytes
size_line t r n =
    if ltb 0 n || method_requires_content_length r.method
    then codes "Content-Length: " ++ t.to_string n ++ codes "\r\n"
    else []

-- The headers of a request in their order.
abbrev pub sent_headers : TextTools → Bytes → HttpRequest → ℕ → List KeyValue
sent_headers t hostname r payload_size =
    record { key = codes "Host"; value = if is_empty r.hostname then hostname else r.hostname }
    ∷ (kept t (codes "Host" ∷ codes "Content-Length" ∷ []) r.request_headers
        ++ content_length t r payload_size)

shape :
    (line host headers size : Bytes)
    → line
        ++ codes " HTTP/1.1\r\n"
        ++ codes "Host: "
        ++ host
        ++ codes "\r\n"
        ++ headers
        ++ size
        ++ codes "\r\n"
      ≡ (line ++ codes " HTTP/1.1")
        ++ 13 ∷ 10 ∷ ((codes "Host: " ++ host) ++ 13 ∷ 10 ∷ (headers ++ (size ++ codes "\r\n")))
shape line host headers size = simp append_assoc

module _ (t : TextTools) (splitting : IsSplitting t) where
  lines-filled : (kv : KeyValue) (kvs : List KeyValue) → is_empty (lines (kv ∷ kvs)) ≡ false
  unfolding join lines
  lines-filled kv [] = filled t splitting kv
  lines-filled kv (k ∷ kvs) =
      is_empty-append (line_of kv ++ codes "\r\n") (lines (k ∷ kvs))
        (is_empty-append (line_of kv) (codes "\r\n") (filled t splitting kv))

  terminated-lines :
      (kvs : List KeyValue) (rest : Bytes)
      → (if is_empty (lines kvs) then [] else lines kvs ++ codes "\r\n") ++ rest
        ≡ terminated kvs rest
  unfolding join lines
  terminated-lines [] rest = refl
  terminated-lines (kv ∷ kvs) rest = rw (lines-filled kv kvs) (lines-terminated kv kvs rest)

  size-terminated :
      (r : HttpRequest) (n : ℕ)
      → size_line t r n ++ codes "\r\n" ≡ terminated (content_length t r n) (codes "\r\n")
  size-terminated r n = elim (Bool-cases (ltb 0 n || method_requires_content_length r.method)) [
    | inl e ↦
        rw e
          (append_assoc (codes "Content-Length: " ++ t.to_string n) (codes "\r\n") (codes "\r\n"))
    | inr e ↦ rw e refl
  ]

  deserialize-terminated :
      (kvs : List KeyValue) (n : ℕ) (acc : List KeyValue)
      → All IsHeader kvs
      → length (terminated kvs (codes "\r\n")) ≤ n
      → deserialize_headers t n (terminated kvs (codes "\r\n")) acc ≡ some (acc ++ kvs)
  unfolding deserialize_headers
  deserialize-terminated [] zero acc h le = absurd (omega (arith, le))
  deserialize-terminated [] (suc zero) acc h le = absurd (omega (arith, le))
  deserialize-terminated [] (suc (suc n)) acc h le = ap some (sym (append-nil acc))
  deserialize-terminated (kv ∷ kvs) zero acc h le =
      absurd (omega (arith, length-append (line_of kv) (13 ∷ 10 ∷ terminated kvs (codes "\r\n"))))
  deserialize-terminated (kv ∷ kvs) (suc n) acc h le =
      deserialize-header t splitting n kv (terminated kvs (codes "\r\n")) acc h.0
      ∙ deserialize-terminated kvs n (acc ++ kv ∷ []) h.1
          (omega (arith, length-append (line_of kv) (13 ∷ 10 ∷ terminated kvs (codes "\r\n"))))
      ∙ ap some (append_assoc acc (kv ∷ []) kvs)

  headers-terminated :
      (r : HttpRequest) (n : ℕ)
      → (if is_empty (build_request_headers t r.request_headers)
            then []
            else build_request_headers t r.request_headers ++ codes "\r\n")
          ++ (size_line t r n ++ codes "\r\n")
        ≡ terminated
            (kept t (codes "Host" ∷ codes "Content-Length" ∷ []) r.request_headers
              ++ content_length t r n)
            (codes "\r\n")
  unfolding build_request_headers serialize_headers join lines
  headers-terminated r n =
      let bl : List Bytes = codes "Host" ∷ codes "Content-Length" ∷ [] in
      let kvs : List KeyValue = kept t bl r.request_headers in
      ap
        (λ ls.
          (if is_empty (join (codes "\r\n") ls) then [] else join (codes "\r\n") ls ++ codes "\r\n")
          ++ (size_line t r n ++ codes "\r\n"))
        (header_lines-kept t splitting bl r.request_headers)
      ∙ terminated-lines kvs (size_line t r n ++ codes "\r\n")
      ∙ ap (terminated kvs) (size-terminated r n)
      ∙ sym (terminated-append kvs (content_length t r n) (codes "\r\n"))

  serialize_request-terminated :
      (hostname : Bytes) (r : HttpRequest) (n : ℕ)
      → serialize_request t hostname r n
        ≡ request_line t r ++ 13 ∷ 10 ∷ terminated (sent_headers t hostname r n) (codes "\r\n")
  unfolding serialize_request build_query_parameters build_request_headers serialize_headers join
      lines
  serialize_request-terminated hostname r n =
      let line : Bytes =
        let query = build_query_parameters t r.query_parameters in
        get_method_string r.method
        ++ codes " "
        ++ r.path
        ++ (if is_empty query then [] else codes "?" ++ query) in
      let host : Bytes = if is_empty r.hostname then hostname else r.hostname in
      let headers : Bytes = build_request_headers t r.request_headers in
      let size : Bytes = size_line t r n in
      shape line host (if is_empty headers then [] else headers ++ codes "\r\n") size
      ∙ ap (λ x. (line ++ codes " HTTP/1.1") ++ 13 ∷ 10 ∷ ((codes "Host: " ++ host) ++ 13 ∷ 10 ∷ x))
          (headers-terminated r n)

  -- A server that reads a request which was printed with `n` bytes of payload finds the request's
  -- line and then exactly one header for the host, the request's own headers in their order less
  -- those for the host and the length, and the length where there is a payload or the method
  -- asks for it. The line holds no carriage return, no header has one or `: ` in its key or value,
  -- and the fuel is at least the length of the request.
  pub deserialize-serialize_request :
      (hostname : Bytes) (r : HttpRequest) (n fuel : ℕ)
      → IsLine (request_line t r)
      → All IsHeader (sent_headers t hostname r n)
      → length (serialize_request t hostname r n) ≤ fuel
      → (get_text_line [] (serialize_request t hostname r n)).0 ≡ request_line t r
        × deserialize_headers t fuel (get_text_line [] (serialize_request t hostname r n)).1 []
          ≡ some (sent_headers t hostname r n)
  deserialize-serialize_request hostname r n fuel h k le =
      let rest : Bytes = terminated (sent_headers t hostname r n) (codes "\r\n") in
      let e : get_text_line [] (serialize_request t hostname r n) ≡ (request_line t r, rest) =
        ap (get_text_line []) (serialize_request-terminated hostname r n)
        ∙ get_text_line-ended [] (request_line t r) rest tt h in
      let length_rest : length (serialize_request t hostname r n)
          ≡ length (request_line t r) + length (13 ∷ 10 ∷ rest) =
        ap length (serialize_request-terminated hostname r n)
        ∙ length-append (request_line t r) (13 ∷ 10 ∷ rest) in
      let short : length rest ≤ fuel = omega (arith, le, length_rest) in
      (
        ap (λ x. x.0) e,
        ap (λ x. deserialize_headers t fuel x.1 []) e
            ∙ deserialize-terminated (sent_headers t hostname r n) fuel [] k short,
      )
