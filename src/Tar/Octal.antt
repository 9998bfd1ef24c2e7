-- ===== src/Tar/Octal.antt =====
-- file/tar-header-block.cc: numbers as octal digits.
use native.Mathlib.Nat.{pow-suc}
use polar_express.Base.{
  ℕ, zero, suc, ◌+◌, ◌-◌, ◌*◌, ◌/◌, ◌%◌, ◌^◌, ◌≤◌, ◌<◌, ◌≡◌, refl, ap, ◌∙◌, inl, inr, true, none,
  some, [], ◌∷◌, ◌++◌, append_assoc, Bytes, arith, length, length-append, Bool-cases, All,
  All-append,
}
use polar_express.Tar.{octal_digits, fits, write_octal, is_octal, read_octal_from, read_octal}

length-octal_digits : (w v : ℕ) → length (octal_digits w v) ≡ w
unfolding octal_digits
length-octal_digits zero v = refl
length-octal_digits (suc w) v = omega (
  arith,
  length-append (octal_digits w (v / 8)) ((v % 8 + b'0') ∷ []),
  length-octal_digits w (v / 8),
)

pub octal_digits-All : (w v : ℕ) → All (λ c. c < 256) (octal_digits w v)
unfolding octal_digits
octal_digits-All zero v = tt
octal_digits-All (suc w) v =
    All-append _ (octal_digits w (v / 8)) _ (octal_digits-All w (v / 8)) (omega arith, tt)

fits→lt : (w v : ℕ) → fits w v ≡ true → v < 8 ^ w
unfolding fits
fits→lt zero v h = ground arith
fits→lt (suc w) v h = omega (arith, fits→lt w (v / 8) h, pow-suc 8 w)

lt→fits : (w v : ℕ) → v < 8 ^ w → fits w v ≡ true
unfolding fits
lt→fits zero v h = ground arith
lt→fits (suc w) v h = lt→fits w (v / 8) (omega (arith, h, pow-suc 8 w))

-- acc * 8 ^ w
shift : ℕ → ℕ → ℕ
shift zero acc = acc
shift (suc w) acc = shift w acc * 8

shift-zero : (w : ℕ) → shift w 0 ≡ 0
unfolding shift
shift-zero zero = refl
shift-zero (suc w) = omega (arith, shift-zero w)

read_octal_from_digit :
    (acc d : ℕ) (ys : Bytes)
    → d < 8
    → read_octal_from acc ((d + b'0') ∷ ys) ≡ read_octal_from (acc * 8 + d) ys
unfolding read_octal_from is_octal
read_octal_from_digit acc d ys h =
    let e : d + b'0' - b'0' ≡ d = omega arith in
    ground (arith, ap (λ x. read_octal_from (acc * 8 + x) ys) e)

read_octal_from-octal_digits :
    (w v acc : ℕ) (ys : Bytes)
    → fits w v ≡ true
    → read_octal_from acc (octal_digits w v ++ ys) ≡ read_octal_from (shift w acc + v) ys
unfolding octal_digits fits shift
read_octal_from-octal_digits zero v acc ys h =
    let e : v ≡ 0 = ground arith in ap (λ x. read_octal_from x ys) (omega arith)
read_octal_from-octal_digits (suc w) v acc ys h =
    ap (read_octal_from acc) (append_assoc (octal_digits w (v / 8)) ((v % 8 + b'0') ∷ []) ys)
    ∙ read_octal_from-octal_digits w (v / 8) acc ((v % 8 + b'0') ∷ ys) h
    ∙ read_octal_from_digit (shift w acc + v / 8) (v % 8) ys (omega arith)
    ∙ ap (λ x. read_octal_from x ys) (omega arith)

-- What is written reads back, and fills its width.
pub read_octal-write_octal :
    (width v : ℕ) (post : Bytes)
    → length post < width
    → v < 8 ^ (width - 1 - length post)
    → (ys : Bytes) × (write_octal width v post ≡ some ys)
      × (read_octal ys ≡ v)
      × (length ys ≡ width)
      × (All (λ c. c < 256) post → All (λ c. c < 256) ys)
unfolding write_octal read_octal
read_octal-write_octal width v post short small =
    let w : ℕ = width - 1 - length post in
    let fit : fits w v ≡ true = lt→fits w v small in
    (
      octal_digits w v ++ 0 ∷ post,
      rw fit,
      (read_octal_from-octal_digits w v 0 (0 ∷ post) fit
          ∙ ap (λ x. read_octal_from x (0 ∷ post)) (omega (arith, shift-zero w))
          ∙ stops v post),
      omega (arith, length-append (octal_digits w v) (0 ∷ post), length-octal_digits w v),
      λ a. All-append _ (octal_digits w v) (0 ∷ post) (octal_digits-All w v) (omega arith, a),
    )
  where
    stops : (x : ℕ) (zs : Bytes) → read_octal_from x (0 ∷ zs) ≡ x
    stops x zs = refl

-- A number that is too large fails.
pub write_octal-none :
    (width v : ℕ) (post : Bytes)
    → 8 ^ (width - 1 - length post) ≤ v
    → write_octal width v post ≡ none
unfolding write_octal
write_octal-none width v post large = elim (Bool-cases (fits (width - 1 - length post) v)) [
  | inl e ↦ absurd (omega (arith, fits→lt (width - 1 - length post) v e))
  | inr e ↦ rw e
]
