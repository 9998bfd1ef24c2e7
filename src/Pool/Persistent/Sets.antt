-- ===== src/Pool/Persistent/Sets.antt =====
-- state_machines/persistent-state-machine-pool.h: the sets of machines, and sums of their weights.
use polar_express.Base.{
  ℕ, ◌+◌, ◌≤◌, ◌≡◌, refl, sym, ap, ◌∙◌, Bool, true, false, List, [], ◌∷◌, ◌++◌, length, ◌==◌,
  ==_iff, append-nil, arith, Bool-cases, inl, inr, if◌then◌else◌,
}
use polar_express.Pool.Persistent.{is_in, set_erase, assign}

-- No element stands twice in the list.
abbrev pub IsDistinct : List ℕ → Type 0
IsDistinct [] = Unit
IsDistinct (x ∷ xs) = (is_in x xs ≡ false) × IsDistinct xs

abbrev pub sum_of : (ℕ → ℕ) → List ℕ → ℕ
sum_of f [] = 0
sum_of f (x ∷ xs) = f x + sum_of f xs

pub conflict : {b : Bool} → b ≡ true → b ≡ false → ⊥
conflict e e' = cc

pub ==_swap : (x m : ℕ) → (x == m) ≡ false → (m == x) ≡ false
==_swap x m e = ground arith

pub is_in-cons : (m x : ℕ) (xs : List ℕ) → is_in m (x ∷ xs) ≡ (if x == m then true else is_in m xs)
unfolding is_in
is_in-cons m x xs = refl

pub is_in-erase_self : (m : ℕ) (xs : List ℕ) → is_in m (set_erase m xs) ≡ false
unfolding set_erase is_in
is_in-erase_self m [] = refl
is_in-erase_self m (x ∷ xs) = elim (Bool-cases (x == m)) [
  | inl e ↦ rw e (is_in-erase_self m xs)
  | inr e ↦ rw (e, e) (is_in-erase_self m xs)
]

-- What is not in a list is not in it when another element is gone.
pub is_in-erase : (m n : ℕ) (xs : List ℕ) → is_in n xs ≡ false → is_in n (set_erase m xs) ≡ false
unfolding set_erase is_in
is_in-erase m n [] h = refl
is_in-erase m n (x ∷ xs) h = elim (Bool-cases (x == n)) [
  | inl e ↦ absurd (ground (arith, h, e))
  | inr e ↦ elim (Bool-cases (x == m)) [
    | inl e' ↦ rw e' (is_in-erase m n xs (ground (arith, h, e)))
    | inr e' ↦ rw (e', e) (is_in-erase m n xs (ground (arith, h, e)))
  ]
]

pub IsDistinct-erase : (m : ℕ) (xs : List ℕ) → IsDistinct xs → IsDistinct (set_erase m xs)
unfolding set_erase
IsDistinct-erase m [] h = tt
IsDistinct-erase m (x ∷ xs) (h, hs) = elim (Bool-cases (x == m)) [
  | inl e ↦ rw e (IsDistinct-erase m xs hs)
  | inr e ↦ rw e (is_in-erase m x xs h, IsDistinct-erase m xs hs)
]

pub erase-absent : (m : ℕ) (xs : List ℕ) → is_in m xs ≡ false → set_erase m xs ≡ xs
unfolding set_erase is_in
erase-absent m [] h = refl
erase-absent m (x ∷ xs) h = elim (Bool-cases (x == m)) [
  | inl e ↦ absurd (ground (arith, h, e))
  | inr e ↦ rw e (ap (λ ys. x ∷ ys) (erase-absent m xs (ground (arith, h, e))))
]

-- The element that is erased, the weight that goes with it, and the length.
pub sum_of-erase :
    (f : ℕ → ℕ) (m : ℕ) (xs : List ℕ)
    → IsDistinct xs
    → is_in m xs ≡ true
    → (sum_of f (set_erase m xs) + f m ≡ sum_of f xs) × (length (set_erase m xs) + 1 ≡ length xs)
unfolding set_erase is_in
sum_of-erase f m [] h i = cc
sum_of-erase f m (x ∷ xs) (h, hs) i = elim (Bool-cases (x == m)) [
  | inl e ↦
      let same : x ≡ m = (==_iff x m).0 e in
      let gone : set_erase m xs ≡ xs = erase-absent m xs (ap (λ y. is_in y xs) (sym same) ∙ h) in
      rw (e, gone) (omega (arith, ap f same), omega arith)
  | inr e ↦
      let (s, l) = sum_of-erase f m xs hs (ground (arith, i, e)) in
      rw e (omega (arith, s), omega (arith, l))
]

pub sum_of-assign_absent :
    (f : ℕ → ℕ) (m w : ℕ) (xs : List ℕ)
    → is_in m xs ≡ false
    → sum_of (assign m w f) xs ≡ sum_of f xs
unfolding assign is_in
sum_of-assign_absent f m w [] h = refl
sum_of-assign_absent f m w (x ∷ xs) h = elim (Bool-cases (x == m)) [
  | inl e ↦ absurd (ground (arith, h, e))
  | inr e ↦ rw e (ap (λ s. f x + s) (sum_of-assign_absent f m w xs (ground (arith, h, e))))
]

pub sum_of-assign :
    (f : ℕ → ℕ) (m w : ℕ) (xs : List ℕ)
    → IsDistinct xs
    → is_in m xs ≡ true
    → sum_of (assign m w f) xs + f m ≡ sum_of f xs + w
unfolding assign is_in
sum_of-assign f m w [] h i = cc
sum_of-assign f m w (x ∷ xs) (h, hs) i = elim (Bool-cases (x == m)) [
  | inl e ↦
      let same : x ≡ m = (==_iff x m).0 e in
      let others = sum_of-assign_absent f m w xs (ap (λ y. is_in y xs) (sym same) ∙ h) in
      rw e (omega (arith, ap f same, others))
  | inr e ↦ rw e (omega (arith, sum_of-assign f m w xs hs (ground (arith, i, e))))
]

pub le-sum_of : (f : ℕ → ℕ) (m : ℕ) (xs : List ℕ) → is_in m xs ≡ true → f m ≤ sum_of f xs
unfolding is_in
le-sum_of f m [] i = cc
le-sum_of f m (x ∷ xs) i = elim (Bool-cases (x == m)) [
  | inl e ↦ omega (arith, ap f ((==_iff x m).0 e))
  | inr e ↦ omega (arith, le-sum_of f m xs (ground (arith, i, e)))
]

pub sum_of-append : (f : ℕ → ℕ) (xs ys : List ℕ) → sum_of f (xs ++ ys) ≡ sum_of f xs + sum_of f ys
sum_of-append f [] ys = omega arith
sum_of-append f (x ∷ xs) ys = omega (arith, sum_of-append f xs ys)

pub is_in-append :
    (n : ℕ) (xs ys : List ℕ) → is_in n (xs ++ ys) ≡ (if is_in n xs then true else is_in n ys)
unfolding is_in
is_in-append n [] ys = refl
is_in-append n (x ∷ xs) ys = elim (Bool-cases (x == n)) [
  | inl e ↦ rw e refl
  | inr e ↦ rw e (is_in-append n xs ys)
]

-- An element in the middle is taken out, or put at the end.
pub is_in-middle :
    (n m : ℕ) (xs ys : List ℕ)
    → is_in n (xs ++ m ∷ ys) ≡ (if m == n then true else is_in n (xs ++ ys))
unfolding is_in
is_in-middle n m [] ys = refl
is_in-middle n m (x ∷ xs) ys = ground (arith, is_in-middle n m xs ys)

pub IsDistinct-middle :
    (m : ℕ) (xs ys : List ℕ)
    → IsDistinct (xs ++ m ∷ ys)
    → (is_in m (xs ++ ys) ≡ false) × IsDistinct (xs ++ ys)
unfolding is_in
IsDistinct-middle m [] ys h = h
IsDistinct-middle m (x ∷ xs) ys (h, hs) =
    let (absent, rest) = IsDistinct-middle m xs ys hs in
    let others : (if m == x then true else is_in x (xs ++ ys)) ≡ false =
      sym (is_in-middle x m xs ys) ∙ h in
    elim (Bool-cases (x == m)) [
      | inl e ↦ absurd (conflict ((==_iff m x).1 (sym ((==_iff x m).0 e))) (ground (arith, others)))
      | inr e ↦ rw (e, absent) (refl, (ground (arith, others), rest))
    ]

pub IsDistinct-snoc :
    (m : ℕ) (xs : List ℕ) → IsDistinct xs → is_in m xs ≡ false → IsDistinct (xs ++ m ∷ [])
unfolding is_in
IsDistinct-snoc m [] h a = (refl, tt)
IsDistinct-snoc m (x ∷ xs) (h, hs) a = elim (Bool-cases (x == m)) [
  | inl e ↦ absurd (ground (arith, a, e))
  | inr e ↦ (
    is_in-middle x m xs []
        ∙ ap (λ b. if b then true else is_in x (xs ++ [])) (==_swap x m e)
        ∙ ap (is_in x) (append-nil xs)
        ∙ h,
    IsDistinct-snoc m xs hs (ground (arith, a, e)),
  )
]

pub is_in-snoc :
    (n m : ℕ) (xs : List ℕ) → is_in n (xs ++ m ∷ []) ≡ (if m == n then true else is_in n xs)
is_in-snoc n m xs =
    is_in-middle n m xs [] ∙ ap (λ ys. if m == n then true else is_in n ys) (append-nil xs)
