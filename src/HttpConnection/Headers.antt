-- ===== src/HttpConnection/Headers.antt =====
-- network/http-connection.cc: headers that are printed are read back.
use polar_express.Base.{
  ◌≡◌, ◌≢◌, refl, sym, ap, ◌∙◌, subst, ℕ, zero, ◌<◌, ◌≤◌, suc, Bytes, List, [], ◌∷◌, ◌++◌, Bool,
  false, ◌&&◌, ◌||◌, arith, All, All-append, append_assoc, append-nil, length, length-append, some,
  ◌==◌, if◌then◌else◌, is_empty, join, codes, map, Bool-cases, inl, inr,
}
use polar_express.Http.{KeyValue}
use polar_express.HttpConnection.{
  TextTools, header_lines, serialize_headers, header_of, deserialize_header, deserialize_headers,
}
use polar_express.HttpConnection.Lines.{IsLine, get_text_line-ended}

-- Whether `: ` stands in a string.
abbrev pub has_separator : Bytes → Bool
has_separator [] = false
has_separator (a ∷ []) = false
has_separator (a ∷ b ∷ l) = ((a == 58) && (b == 32)) || has_separator (b ∷ l)

-- Splitting at each `: ` takes apart two strings that it joins and does not stand in.
abbrev pub IsSplitting : TextTools → Type 0
IsSplitting t =
    (k v : Bytes)
    → has_separator k ≡ false
    → has_separator v ≡ false
    → t.split_regex (k ++ codes ": " ++ v) ≡ k ∷ v ∷ []

pub record IsHeader (kv : KeyValue) : Type 0 where
  pub key_line : IsLine kv.key
  pub value_line : IsLine kv.value
  pub key_whole : has_separator kv.key ≡ false
  pub value_whole : has_separator kv.value ≡ false

-- The headers that are printed.
abbrev pub kept : TextTools → List Bytes → List KeyValue → List KeyValue
kept t blacklisted [] = []
kept t blacklisted (kv ∷ kvs) =
    if t.in_set blacklisted kv.key then kept t blacklisted kvs else kv ∷ kept t blacklisted kvs

abbrev pub line_of : KeyValue → Bytes
line_of kv = kv.key ++ codes ": " ++ kv.value

-- The bytes of the lines and the end of the headers.
abbrev text : List KeyValue → Bytes
unfolding join
text kvs = join (codes "\r\n") (map line_of kvs) ++ codes "\r\n\r\n"

first_line :
    (kv k : KeyValue) (kvs : List KeyValue)
    → text (kv ∷ k ∷ kvs) ≡ line_of kv ++ 13 ∷ 10 ∷ text (k ∷ kvs)
unfolding join text
first_line kv k kvs =
    let ls : Bytes = join (codes "\r\n") (map line_of (k ∷ kvs)) in
    append_assoc (line_of kv ++ codes "\r\n") ls (codes "\r\n\r\n")
    ∙ append_assoc (line_of kv) (codes "\r\n") (ls ++ codes "\r\n\r\n")

short : (kvs : List KeyValue) → 4 ≤ length (text kvs)
unfolding text
short kvs = omega (arith, length-append (join (codes "\r\n") (map line_of kvs)) (codes "\r\n\r\n"))

longer :
    (kv k : KeyValue) (kvs : List KeyValue) → length (text (k ∷ kvs)) < length (text (kv ∷ k ∷ kvs))
longer kv k kvs =
    rw (first_line kv k kvs) (omega (arith, length-append (line_of kv) (13 ∷ 10 ∷ text (k ∷ kvs))))

module _ (t : TextTools) (splitting : IsSplitting t) where
  pub header_lines-kept :
      (bl : List Bytes) (kvs : List KeyValue) → header_lines t bl kvs ≡ map line_of (kept t bl kvs)
  header_lines-kept bl [] = refl
  header_lines-kept bl (kv ∷ kvs) = elim (Bool-cases (t.in_set bl kv.key)) [
    | inl e ↦ rw e (header_lines-kept bl kvs)
    | inr e ↦ rw e (ap (◌∷◌ (line_of kv)) (header_lines-kept bl kvs))
  ]

  pub kept-All :
      (bl : List Bytes) (kvs : List KeyValue) → All IsHeader kvs → All IsHeader (kept t bl kvs)
  kept-All bl [] h = tt
  kept-All bl (kv ∷ kvs) h = elim (Bool-cases (t.in_set bl kv.key)) [
    | inl e ↦ rw e (kept-All bl kvs h.1)
    | inr e ↦ rw e (h.0, kept-All bl kvs h.1)
  ]

  line_of-IsLine : (kv : KeyValue) → IsHeader kv → IsLine (line_of kv)
  line_of-IsLine kv h =
      All-append (λ c. c ≢ 13) (kv.key ++ codes ": ") kv.value
        (All-append (λ c. c ≢ 13) kv.key (codes ": ") h.key_line
          ((λ e. absurd (omega arith)), ((λ e. absurd (omega arith)), tt)))
        h.value_line

  -- One round of the loop on a line that ends.
  deserialize-line :
      (n : ℕ) (l rest : Bytes) (acc : List KeyValue)
      → IsLine l
      → deserialize_headers t (suc n) (l ++ 13 ∷ 10 ∷ rest) acc
        ≡ deserialize_headers t n rest (if is_empty l then acc else deserialize_header t l acc)
  unfolding deserialize_headers
  deserialize-line n [] rest acc h = refl
  deserialize-line n (a ∷ l) rest acc h = rw (get_text_line-ended [] (a ∷ l) rest tt h) refl

  pub filled : (kv : KeyValue) → is_empty (line_of kv) ≡ false
  filled kv = look kv.key
    where
      look : (k : Bytes) → is_empty (k ++ codes ": " ++ kv.value) ≡ false
      look [] = refl
      look (a ∷ k) = refl

  pub deserialize-header :
      (n : ℕ) (kv : KeyValue) (rest : Bytes) (acc : List KeyValue)
      → IsHeader kv
      → deserialize_headers t (suc n) (line_of kv ++ 13 ∷ 10 ∷ rest) acc
        ≡ deserialize_headers t n rest (acc ++ kv ∷ [])
  deserialize-header n kv rest acc h =
      deserialize-line n (line_of kv) rest acc (line_of-IsLine kv h)
      ∙ ap
          (λ b.
            deserialize_headers t n rest (if b then acc else deserialize_header t (line_of kv) acc))
          (filled kv)
      ∙ ap (λ x. deserialize_headers t n rest (acc ++ header_of t x ∷ []))
          (splitting kv.key kv.value h.key_whole h.value_whole)

  deserialize-all :
      (kvs : List KeyValue) (n : ℕ) (acc : List KeyValue)
      → All IsHeader kvs
      → length (text kvs) ≤ n
      → deserialize_headers t n (text kvs) acc ≡ some (acc ++ kvs)
  unfolding deserialize_headers text
  deserialize-all [] zero acc h le = absurd (omega (arith, short []))
  deserialize-all [] (suc zero) acc h le = absurd (omega (arith, short []))
  deserialize-all [] (suc (suc n)) acc h le = ap some (sym (append-nil acc))
  deserialize-all (kv ∷ []) zero acc h le = absurd (omega (arith, short (kv ∷ [])))
  deserialize-all (kv ∷ []) (suc zero) acc h le = absurd (omega (arith, short (kv ∷ [])))
  deserialize-all (kv ∷ []) (suc (suc n)) acc h le =
      deserialize-header (suc n) kv (13 ∷ 10 ∷ []) acc h.0
  deserialize-all (kv ∷ k ∷ kvs) zero acc h le = absurd (omega (arith, short (kv ∷ k ∷ kvs)))
  deserialize-all (kv ∷ k ∷ kvs) (suc n) acc h le =
      ap (λ x. deserialize_headers t (suc n) x acc) (first_line kv k kvs)
      ∙ deserialize-header n kv (text (k ∷ kvs)) acc h.0
      ∙ deserialize-all (k ∷ kvs) n (acc ++ kv ∷ []) h.1 (omega (arith, longer kv k kvs))
      ∙ ap some (append_assoc acc (kv ∷ []) (k ∷ kvs))

  -- Headers that are printed are read back, in their order and without the blacklisted ones, when
  -- neither their keys nor their values hold a carriage return or `: `; fuel for each byte is enough.
  pub deserialize-serialize :
      (bl : List Bytes) (kvs : List KeyValue) (fuel : ℕ)
      → All IsHeader kvs
      → length (serialize_headers t bl kvs ++ codes "\r\n\r\n") ≤ fuel
      → deserialize_headers t fuel (serialize_headers t bl kvs ++ codes "\r\n\r\n") []
        ≡ some (kept t bl kvs)
  unfolding serialize_headers text
  deserialize-serialize bl kvs fuel h le =
      let e : header_lines t bl kvs ≡ map line_of (kept t bl kvs) = header_lines-kept bl kvs in
      ap (λ ls. deserialize_headers t fuel (join (codes "\r\n") ls ++ codes "\r\n\r\n") []) e
      ∙ deserialize-all (kept t bl kvs) fuel [] (kept-All bl kvs h)
          (subst (λ ls. length (join (codes "\r\n") ls ++ codes "\r\n\r\n") ≤ fuel) e le)
