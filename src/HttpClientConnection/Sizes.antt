-- ===== src/HttpClientConnection/Sizes.antt =====
-- network/http-connection.cc: the size of a chunk, as a peer writes it.
use polar_express.Base.{
  ◌≡◌, refl, ap, ◌∙◌, ℕ, ◌+◌, ◌-◌, ◌*◌, ◌%◌, ◌<◌, min, Bytes, List, [], ◌∷◌, ◌++◌, Option, none,
  some, Bool, true, false, arith, if◌then◌else◌, ltb, map, All,
}
use polar_express.HttpClientConnection.Parse.{
  Digits, skip_space, take_digits, hex_digit, take_sign, skip_prefix, before_semicolon, size_max,
  get_payload_chunk_size,
}

abbrev pub hex_char : ℕ → ℕ
hex_char d = if ltb d 10 then 48 + d else 87 + d

-- The number that hexadecimal digits stand for.
abbrev pub hex_value : ℕ → List ℕ → ℕ
hex_value n [] = n
hex_value n (d ∷ ds) = hex_value (n * 16 + d) ds

abbrev pub IsHexDigit : ℕ → Type 0
IsHexDigit d = d < 16

-- What may follow the digits: the end of the line or an extension.
pub data IsEnd : Bytes → Type 0 where
  line_end : IsEnd (13 ∷ 10 ∷ [])
  extension : (more : Bytes) → IsEnd (59 ∷ more)

hex_digit-char : (d : ℕ) → IsHexDigit d → hex_digit (hex_char d) ≡ some d
hex_digit-char d h = ground arith

before-hex :
    (ds : List ℕ) (t : Bytes)
    → All IsHexDigit ds
    → before_semicolon (map hex_char ds ++ t) ≡ map hex_char ds ++ before_semicolon t
before-hex [] t h = refl
before-hex (d ∷ ds) t h = ground (arith, before-hex ds t (h.1))

digits-hex :
    (found : Bool) (n : ℕ) (ds : List ℕ) (t : Bytes)
    → All IsHexDigit ds
    → IsEnd t
    → (take_digits hex_digit 16 found n (map hex_char ds ++ before_semicolon t)).number
      ≡ hex_value n ds
digits-hex found n [] t h line_end = refl
digits-hex found n [] t h (extension more) = refl
digits-hex found n (d ∷ ds) t h e =
    ap (λ o. (next o).number) (hex_digit-char d (h.0)) ∙ digits-hex true (n * 16 + d) ds t (h.1) e
  where
    next : Option ℕ → Digits
    next o = elim o [
      | none ↦ record {
        found = found;
        number = n;
        rest = hex_char d ∷ (map hex_char ds ++ before_semicolon t);
      }
      | some d' ↦
          take_digits hex_digit 16 true (n * 16 + d') (map hex_char ds ++ before_semicolon t)
    ]

prefix-hex :
    (d : ℕ) (ds : List ℕ) (t : Bytes)
    → IsHexDigit d
    → All IsHexDigit ds
    → IsEnd t
    → skip_prefix (hex_char d ∷ (map hex_char ds ++ before_semicolon t))
      ≡ hex_char d ∷ (map hex_char ds ++ before_semicolon t)
prefix-hex d [] t h hs line_end = ground arith
prefix-hex d [] t h hs (extension more) = refl
prefix-hex d (d' ∷ ds) t h hs e = ground arith

start-hex :
    (d : ℕ) (bs : Bytes)
    → IsHexDigit d
    → take_sign (skip_space (hex_char d ∷ bs)) ≡ (false, hex_char d ∷ bs)
start-hex d bs h = ground arith

-- The number that is read, behind the sign.
abbrev clamped : Bool → ℕ → ℕ
clamped negative n =
    if ltb size_max n then size_max else if negative then (size_max + 1 - n) % (size_max + 1) else n

abbrev unsigned_size : Bool × Bytes → ℕ
unsigned_size (negative, unsigned) =
    clamped negative (take_digits hex_digit 16 false 0 (skip_prefix unsigned)).number

clamped-min : (n : ℕ) → clamped false n ≡ min size_max n
clamped-min n = ground arith

-- A line of hexadecimal digits, alone or before an extension, is read as the number that they
-- stand for, whatever their count, and as the greatest size_t if that number does not fit.
pub get_payload_chunk_size_lem :
    (d : ℕ) (ds : List ℕ) (t : Bytes)
    → All IsHexDigit (d ∷ ds)
    → IsEnd t
    → get_payload_chunk_size (map hex_char (d ∷ ds) ++ t) ≡ min size_max (hex_value 0 (d ∷ ds))
unfolding get_payload_chunk_size
get_payload_chunk_size_lem d ds t h e =
    ap (λ bs. unsigned_size (take_sign (skip_space bs))) (before-hex (d ∷ ds) t h)
    ∙ ap unsigned_size (start-hex d (map hex_char ds ++ before_semicolon t) (h.0))
    ∙ ap (λ bs. clamped false (take_digits hex_digit 16 false 0 bs).number)
        (prefix-hex d ds t (h.0) (h.1) e)
    ∙ ap (clamped false) (digits-hex false 0 (d ∷ ds) t h e)
    ∙ clamped-min (hex_value 0 (d ∷ ds))
