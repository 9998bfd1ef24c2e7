-- ===== src/StreamConnection/Search.antt =====
-- network/stream-connection.cc: the search for a terminator, as more bytes arrive.
use polar_express.Base.{
  ◌≡◌, ◌⊎◌, refl, sym, ap, ◌∙◌, ℕ, ◌+◌, ◌<◌, ◌≤◌, Bytes, [], ◌∷◌, ◌++◌, Option, none, some, arith,
  length, length-append, Option-cases, inl, inr,
}
use polar_express.StreamConnection.{strip, prepend, cut}

strip-append : (t bs r more : Bytes) → strip t bs ≡ some r → strip t (bs ++ more) ≡ some (r ++ more)
strip-append [] bs r more h = ground arith
strip-append (t ∷ ts) [] r more h = cc
strip-append (t ∷ ts) (b ∷ bs) r more h = ground (arith, strip-append ts bs r more)

strip_eq : (t bs r : Bytes) → strip t bs ≡ some r → bs ≡ t ++ r
strip_eq [] bs r h = ground arith
strip_eq (t ∷ ts) [] r h = cc
strip_eq (t ∷ ts) (b ∷ bs) r h = ground (arith, strip_eq ts bs r)

pub strip_self : (t more : Bytes) → strip t (t ++ more) ≡ some more
strip_self [] more = refl
strip_self (t ∷ ts) more = ground (arith, strip_self ts more)

strip_short :
    (t bs r more : Bytes) → strip t bs ≡ none → strip t (bs ++ more) ≡ some r → length bs < length t
strip_short [] bs r more h k = cc
strip_short (t ∷ ts) [] r more h k = omega arith
strip_short (t ∷ ts) (b ∷ bs) r more h k = ground (arith, strip_short ts bs r more)

pub cut-here :
    (term : Bytes) (b : ℕ) (bs r : Bytes)
    → strip term (b ∷ bs) ≡ some r
    → cut term (b ∷ bs) ≡ some (term, r)
unfolding cut
cut-here term b bs r s = rw (s, cut)

pub cut-later :
    (term : Bytes) (b : ℕ) (bs : Bytes)
    → strip term (b ∷ bs) ≡ none
    → cut term (b ∷ bs) ≡ prepend b (cut term bs)
unfolding cut
cut-later term b bs s = rw (s, cut)

-- Taking a result of the search apart.
cut-cases :
    (term : Bytes) (b : ℕ) (bs line rest : Bytes)
    → cut term (b ∷ bs) ≡ some (line, rest)
    → ((strip term (b ∷ bs) ≡ some rest) × (line ≡ term))
      ⊎ ((strip term (b ∷ bs) ≡ none)
          × ((l : Bytes) × (line ≡ b ∷ l) × (cut term bs ≡ some (l, rest))))
unfolding cut
cut-cases term b bs line rest h = look (strip term (b ∷ bs)) (cut term bs) refl refl
  where
    look :
        (m : Option Bytes) (c : Option (Bytes × Bytes))
        → strip term (b ∷ bs) ≡ m
        → cut term bs ≡ c
        → ((strip term (b ∷ bs) ≡ some rest) × (line ≡ term))
          ⊎ ((strip term (b ∷ bs) ≡ none)
              × ((l : Bytes) × (line ≡ b ∷ l) × (cut term bs ≡ some (l, rest))))
    look (some r) c e f = inl (ground (arith, h, e), ground (arith, h, e))
    look none none e f = cc
    look none (some (l, r)) e f = inr (e, (l, ground (arith, h, e, f), ground (arith, h, e, f)))

cut_eq : (term bs line rest : Bytes) → cut term bs ≡ some (line, rest) → bs ≡ line ++ rest
unfolding cut
cut_eq term [] line rest h = cc
cut_eq term (b ∷ bs) line rest h = elim (cut-cases term b bs line rest h) [
  | inl (s, e) ↦ strip_eq term (b ∷ bs) rest s ∙ ap (λ x. x ++ rest) (sym e)
  | inr (s, (l, e, f)) ↦ ap (◌∷◌ b) (cut_eq term bs l rest f) ∙ ap (λ x. x ++ rest) (sym e)
]

cut-length :
    (term bs line rest : Bytes) → cut term bs ≡ some (line, rest) → length term ≤ length line
unfolding cut
cut-length term [] line rest h = cc
cut-length term (b ∷ bs) line rest h = elim (cut-cases term b bs line rest h) [
  | inl (s, e) ↦ omega (arith, ap length e)
  | inr (s, (l, e, f)) ↦ omega (arith, ap length e, cut-length term bs l rest f)
]

-- Each read takes at least the terminator.
pub cut_shorter :
    (term bs line rest : Bytes)
    → cut term bs ≡ some (line, rest)
    → length rest + length term ≤ length bs
cut_shorter term bs line rest h = omega (
  arith,
  ap length (cut_eq term bs line rest h),
  length-append line rest,
  cut-length term bs line rest h,
)

-- More bytes behind a terminator do not change where it is found.
pub cut-append :
    (term bs line rest more : Bytes)
    → cut term bs ≡ some (line, rest)
    → cut term (bs ++ more) ≡ some (line, rest ++ more)
unfolding cut
cut-append term [] line rest more h = cc
cut-append term (b ∷ bs) line rest more h = elim (cut-cases term b bs line rest h) [
  | inl (s, e) ↦
      cut-here term b (bs ++ more) (rest ++ more) (strip-append term (b ∷ bs) rest more s)
      ∙ ap (λ x. some (x, rest ++ more)) (sym e)
  | inr (s, (l, e, f)) ↦ elim (Option-cases (strip term (b ∷ (bs ++ more)))) [
    | inl n ↦
        cut-later term b (bs ++ more) n
        ∙ ap (prepend b) (cut-append term bs l rest more f)
        ∙ ap (λ x. some (x, rest ++ more)) (sym e)
    | inr (r, y) ↦
        absurd (omega (arith, strip_short term (b ∷ bs) r more s y, cut_shorter term bs l rest f))
  ]
]

-- A terminator that is in the last bytes is in all.
pub cut-behind :
    (term before bs line rest : Bytes)
    → cut term bs ≡ some (line, rest)
    → (l : Bytes) × ((r : Bytes) × (cut term (before ++ bs) ≡ some (l, r)))
unfolding cut
cut-behind term [] bs line rest h = (line, (rest, h))
cut-behind term (b ∷ before) bs line rest h =
    elim (Option-cases (strip term (b ∷ (before ++ bs)))) [
      | inl n ↦
          let (l, (r, e)) = cut-behind term before bs line rest h in
          (b ∷ l, (r, cut-later term b (before ++ bs) n ∙ ap (prepend b) e))
      | inr (r, y) ↦ (term, (r, cut-here term b (before ++ bs) r y))
    ]
