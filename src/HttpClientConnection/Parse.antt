-- ===== src/HttpClientConnection/Parse.antt =====
-- network/http-client-connection.cc and http-connection.cc: status lines and the sizes of chunks.
use polar_express.Base.{
  ℕ, ◌+◌, ◌-◌, ◌*◌, ◌%◌, Bytes, List, [], ◌∷◌, Option, none, some, Bool, true, false, ◌&&◌, ◌||◌,
  if◌then◌else◌, is_empty, ltb, leb, ◌==◌,
}
use polar_express.Http.{HttpResponse}
use polar_express.HttpConnection.{TextTools}

-- What the code uses of boost: `split` at each `/`, and `trim_left_copy`.
pub record StatusTools : Type 0 where
  pub can_allocate : ℕ → Bool
  pub text : TextTools
  pub split_slashes : Bytes → List Bytes
  pub trim_left : Bytes → Bytes

abbrev pub is_space : ℕ → Bool
is_space c = (c == 32) || (leb 9 c && leb c 13)

abbrev pub skip_space : Bytes → Bytes
skip_space [] = []
skip_space (c ∷ cs) = if is_space c then skip_space cs else c ∷ cs

abbrev cons_word : ℕ → Bytes × Bytes → Bytes × Bytes
cons_word c (w, rest) = (c ∷ w, rest)

abbrev pub take_word : Bytes → Bytes × Bytes
take_word [] = ([], [])
take_word (c ∷ cs) = if is_space c then ([], c ∷ cs) else cons_word c (take_word cs)

-- A run of digits in a base: whether there is one, its number and what follows.
pub record Digits : Type 0 where
  pub found : Bool
  pub number : ℕ
  pub rest : Bytes

abbrev pub take_digits : (ℕ → Option ℕ) → ℕ → Bool → ℕ → Bytes → Digits
take_digits digit base found n [] = record { found = found; number = n; rest = [] }
take_digits digit base found n (c ∷ cs) = elim (digit c) [
  | none ↦ record { found = found; number = n; rest = c ∷ cs }
  | some d ↦ take_digits digit base true (n * base + d) cs
]

abbrev pub decimal_digit : ℕ → Option ℕ
decimal_digit c = if leb 48 c && leb c 57 then some (c - 48) else none

abbrev pub hex_digit : ℕ → Option ℕ
hex_digit c =
    if leb 48 c && leb c 57
    then some (c - 48)
    else if leb 97 c && leb c 102
    then some (c - 87)
    else if leb 65 c && leb c 70
    then some (c - 55)
    else none

-- A sign, and what follows it.
abbrev pub take_sign : Bytes → Bool × Bytes
take_sign [] = (false, [])
take_sign (c ∷ cs) =
    if c == 45 then (true, cs) else if c == 43 then (false, cs) else (false, c ∷ cs)

-- Reading an int out of a stream: its 32 bits, and whether the stream is good.
abbrev pub int_bits : Bool → ℕ → ℕ × Bool
int_bits negative n =
    if negative
    then if leb n 2147483648 then ((4294967296 - n) % 4294967296, true) else (2147483648, false)
    else if leb n 2147483647
    then (n, true)
    else (2147483647, false)

-- The extraction of `status_code`: its value, whether it failed, and the unread characters.
pub record Extracted : Type 0 where
  pub value : ℕ
  pub good : Bool
  pub unread : Bytes

abbrev pub extract_int : Bytes → Extracted
extract_int bs =
    let (negative, unsigned) = take_sign (skip_space bs) in
    let d = take_digits decimal_digit 10 false 0 unsigned in
    if d.found
    then record {
      value = (int_bits negative d.number).0;
      good = (int_bits negative d.number).1;
      unread = d.rest;
    }
    else record { value = 0; good = false; unread = d.rest }

abbrev pub with_version : List Bytes → HttpResponse → HttpResponse
with_version (p ∷ v ∷ parts) r = record r { http_version = v }
with_version (p ∷ []) r = r
with_version [] r = r

-- At the end of the line the phrase is empty; `tellg` of a stream that has failed before is -1,
-- and `substr` throws.
unfoldable pub parse_response_status : StatusTools → Bytes → HttpResponse → Option HttpResponse
parse_response_status t line r =
    let (http_version, rest) = take_word (skip_space line) in
    let code = extract_int rest in
    let r' = record (with_version (t.split_slashes http_version) r) { status_code = code.value } in
    if is_empty code.unread
    then some (record r' { status_phrase = [] })
    else if code.good
    then some (record r' { status_phrase = t.trim_left code.unread })
    else none

abbrev pub size_max : ℕ
size_max = 18446744073709551615

abbrev pub before_semicolon : Bytes → Bytes
before_semicolon [] = []
before_semicolon (c ∷ cs) = if c == 59 then [] else c ∷ before_semicolon cs

-- The prefix 0x, which `hex` allows.
abbrev pub skip_prefix : Bytes → Bytes
skip_prefix [] = []
skip_prefix (a ∷ []) = a ∷ []
skip_prefix (a ∷ b ∷ cs) = if (a == 48) && ((b == 120) || (b == 88)) then cs else a ∷ b ∷ cs

-- A number that does not fit is the greatest, and one with a minus wraps around. No number is 0.
unfoldable pub get_payload_chunk_size : Bytes → ℕ
get_payload_chunk_size chunk_header =
    let (negative, unsigned) = take_sign (skip_space (before_semicolon chunk_header)) in
    let n = (take_digits hex_digit 16 false 0 (skip_prefix unsigned)).number in
    if ltb size_max n then size_max else if negative then (size_max + 1 - n) % (size_max + 1) else n
