-- ===== src/HttpConnection/Lines.antt =====
-- network/http-connection.cc: GetTextLineFromData finds the end of a line.
use polar_express.Base.{
  ◌≡◌, ◌≢◌, refl, sym, ap, ◌∙◌, ◌-◌, Bytes, [], ◌∷◌, ◌++◌, true, false, arith, All, All-append,
  append_assoc, append-nil, length, length-append, take, take_append,
}
use polar_express.HttpConnection.{ends_line, get_text_line}

-- A line without a carriage return.
abbrev pub IsLine : Bytes → Type 0
IsLine = All (λ c. c ≢ 13)

not_ended : (l : Bytes) → IsLine l → ends_line l ≡ false
not_ended [] h = refl
not_ended (a ∷ []) h = refl
not_ended (a ∷ b ∷ []) h = ground (arith, h.0)
not_ended (a ∷ b ∷ c ∷ l) h = not_ended (b ∷ c ∷ l) h.1

open_line : (l : Bytes) → IsLine l → ends_line (l ++ 13 ∷ []) ≡ false
open_line [] h = refl
open_line (a ∷ []) h = ground (arith, h.0)
open_line (a ∷ b ∷ []) h = ground (arith, h.1.0)
open_line (a ∷ b ∷ c ∷ l) h = open_line (b ∷ c ∷ l) h.1

ended_line : (l : Bytes) → ends_line (l ++ 13 ∷ 10 ∷ []) ≡ true
ended_line [] = refl
ended_line (a ∷ []) = refl
ended_line (a ∷ b ∷ []) = refl
ended_line (a ∷ b ∷ c ∷ l) = ended_line (b ∷ c ∷ l)

pub get_text_line-all :
    (acc line : Bytes) → IsLine acc → IsLine line → get_text_line acc line ≡ (acc ++ line, [])
unfolding get_text_line
get_text_line-all acc [] h k = ap (λ x. (x, [])) (sym (append-nil acc))
get_text_line-all acc (b ∷ line) h k =
    let h' : IsLine (acc ++ b ∷ []) = All-append (λ c. c ≢ 13) acc (b ∷ []) h (k.0, tt) in
    rw (not_ended (acc ++ b ∷ []) h') (get_text_line-all (acc ++ b ∷ []) line h' k.1)
    ∙ ap (λ x. (x, [])) (append_assoc acc (b ∷ []) line)

pub get_text_line-ended :
    (acc line rest : Bytes)
    → IsLine acc
    → IsLine line
    → get_text_line acc (line ++ 13 ∷ 10 ∷ rest) ≡ (acc ++ line, rest)
unfolding get_text_line
get_text_line-ended acc [] rest h k =
    rw (open_line acc h, append_assoc acc (13 ∷ []) (10 ∷ []), ended_line acc)
      (ap (λ x. (x, rest)) (cut ∙ sym (append-nil acc)))
  where
    cut : take (length (acc ++ 13 ∷ 10 ∷ []) - 2) (acc ++ 13 ∷ 10 ∷ []) ≡ acc
    cut =
        ap (λ n. take n (acc ++ 13 ∷ 10 ∷ [])) (omega (arith, length-append acc (13 ∷ 10 ∷ [])))
        ∙ take_append acc (13 ∷ 10 ∷ [])
get_text_line-ended acc (b ∷ line) rest h k =
    let h' : IsLine (acc ++ b ∷ []) = All-append (λ c. c ≢ 13) acc (b ∷ []) h (k.0, tt) in
    rw (not_ended (acc ++ b ∷ []) h') (get_text_line-ended (acc ++ b ∷ []) line rest h' k.1)
    ∙ ap (λ x. (x, rest)) (append_assoc acc (b ∷ []) line)
