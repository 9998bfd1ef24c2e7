-- ===== src/Tar/Range.antt =====
-- Ranges of a list of bytes: what a write leaves in them.
use polar_express.Base.{
  ℕ, zero, suc, ◌+◌, ◌*◌, ◌≤◌, ◌<◌, ◌≡◌, refl, ap, [], ◌∷◌, Bytes, arith, length, take, drop, All,
  Bool, true, false, if◌then◌else◌, ◌==◌,
}
use polar_express.Tar.{overwrite, write_at, sum_bytes, strncpy}

length-overwrite : (ys xs : Bytes) → length (overwrite ys xs) ≡ length xs
unfolding overwrite
length-overwrite [] xs = refl
length-overwrite (y ∷ ys) [] = refl
length-overwrite (y ∷ ys) (x ∷ xs) = ap suc (length-overwrite ys xs)

pub length-write_at : (n : ℕ) (ys xs : Bytes) → length (write_at n ys xs) ≡ length xs
unfolding write_at
length-write_at zero ys xs = length-overwrite ys xs
length-write_at (suc n) ys [] = refl
length-write_at (suc n) ys (x ∷ xs) = ap suc (length-write_at n ys xs)

take-overwrite : (ys xs : Bytes) → length ys ≤ length xs → take (length ys) (overwrite ys xs) ≡ ys
unfolding overwrite
take-overwrite [] xs h = refl
take-overwrite (y ∷ ys) [] h = absurd (omega arith)
take-overwrite (y ∷ ys) (x ∷ xs) h = ap (◌∷◌ y) (take-overwrite ys xs (omega arith))

-- The range that was written holds what was written.
pub read_written :
    (n : ℕ) (ys xs : Bytes)
    → n + length ys ≤ length xs
    → take (length ys) (drop n (write_at n ys xs)) ≡ ys
unfolding write_at
read_written zero ys xs h = take-overwrite ys xs (omega arith)
read_written (suc n) ys [] h = absurd (omega arith)
read_written (suc n) ys (x ∷ xs) h = read_written n ys xs (omega arith)

drop-overwrite : (m : ℕ) (ys xs : Bytes) → length ys ≤ m → drop m (overwrite ys xs) ≡ drop m xs
unfolding overwrite
drop-overwrite m [] xs h = refl
drop-overwrite m (y ∷ ys) [] h = refl
drop-overwrite zero (y ∷ ys) (x ∷ xs) h = absurd (omega arith)
drop-overwrite (suc m) (y ∷ ys) (x ∷ xs) h = drop-overwrite m ys xs (omega arith)

-- A range behind the one that was written.
pub read_behind :
    (n m : ℕ) (ys xs : Bytes) → n + length ys ≤ m → drop m (write_at n ys xs) ≡ drop m xs
unfolding write_at
read_behind zero m ys xs h = drop-overwrite m ys xs (omega arith)
read_behind (suc n) m ys [] h = refl
read_behind (suc n) zero ys (x ∷ xs) h = absurd (omega arith)
read_behind (suc n) (suc m) ys (x ∷ xs) h = read_behind n m ys xs (omega arith)

take-write_at : (n k : ℕ) (ys xs : Bytes) → k ≤ n → take k (write_at n ys xs) ≡ take k xs
unfolding write_at
take-write_at n zero ys xs h = refl
take-write_at zero (suc k) ys xs h = absurd (omega arith)
take-write_at (suc n) (suc k) ys [] h = refl
take-write_at (suc n) (suc k) ys (x ∷ xs) h = ap (◌∷◌ x) (take-write_at n k ys xs (omega arith))

-- A range before it.
pub read_before :
    (n m k : ℕ) (ys xs : Bytes)
    → m + k ≤ n
    → take k (drop m (write_at n ys xs)) ≡ take k (drop m xs)
unfolding write_at
read_before n zero k ys xs h = take-write_at n k ys xs (omega arith)
read_before zero (suc m) k ys xs h = absurd (omega arith)
read_before (suc n) (suc m) k ys [] h = refl
read_before (suc n) (suc m) k ys (x ∷ xs) h = read_before n m k ys xs (omega arith)

overwrite_twice :
    (ys zs xs : Bytes) → length ys ≡ length zs → overwrite ys (overwrite zs xs) ≡ overwrite ys xs
unfolding overwrite
overwrite_twice [] [] xs e = refl
overwrite_twice [] (z ∷ zs) xs e = absurd (omega arith)
overwrite_twice (y ∷ ys) [] xs e = refl
overwrite_twice (y ∷ ys) (z ∷ zs) [] e = refl
overwrite_twice (y ∷ ys) (z ∷ zs) (x ∷ xs) e = ap (◌∷◌ y) (overwrite_twice ys zs xs (omega arith))

-- The last write to a range counts.
pub write_twice :
    (n : ℕ) (ys zs xs : Bytes)
    → length ys ≡ length zs
    → write_at n ys (write_at n zs xs) ≡ write_at n ys xs
unfolding write_at
write_twice zero ys zs xs e = overwrite_twice ys zs xs e
write_twice (suc n) ys zs [] e = refl
write_twice (suc n) ys zs (x ∷ xs) e = ap (◌∷◌ x) (write_twice n ys zs xs e)

overwrite-All :
    (b : ℕ) (ys xs : Bytes)
    → All (λ c. c < b) ys
    → All (λ c. c < b) xs
    → All (λ c. c < b) (overwrite ys xs)
unfolding overwrite
overwrite-All b [] xs p q = q
overwrite-All b (y ∷ ys) [] p q = tt
overwrite-All b (y ∷ ys) (x ∷ xs) p q = (p.0, overwrite-All b ys xs p.1 q.1)

pub write_at-All :
    (b n : ℕ) (ys xs : Bytes)
    → All (λ c. c < b) ys
    → All (λ c. c < b) xs
    → All (λ c. c < b) (write_at n ys xs)
unfolding write_at
write_at-All b zero ys xs p q = overwrite-All b ys xs p q
write_at-All b (suc n) ys [] p q = tt
write_at-All b (suc n) ys (x ∷ xs) p q = (q.0, write_at-All b n ys xs p q.1)

pub sum_bytes_bound : (xs : Bytes) → All (λ c. c < 256) xs → sum_bytes xs ≤ 255 * length xs
unfolding sum_bytes
sum_bytes_bound [] p = omega arith
sum_bytes_bound (x ∷ xs) p = omega (arith, p.0, sum_bytes_bound xs p.1)

pub length-strncpy : (n : ℕ) (xs : Bytes) → length (strncpy n xs) ≡ n
unfolding strncpy
length-strncpy zero xs = refl
length-strncpy (suc n) [] = ap suc (length-strncpy n [])
length-strncpy (suc n) (x ∷ xs) = ap suc (length-strncpy n _)

-- The rest of a text, or nothing.
cut-All : (P : ℕ → Type 0) (c : Bool) (xs : Bytes) → All P xs → All P (if c then [] else xs)
cut-All P true xs p = tt
cut-All P false xs p = p

pub strncpy-All :
    (b n : ℕ) (xs : Bytes) → 0 < b → All (λ c. c < b) xs → All (λ c. c < b) (strncpy n xs)
unfolding strncpy
strncpy-All b zero xs h p = tt
strncpy-All b (suc n) [] h p = (h, strncpy-All b n [] h tt)
strncpy-All b (suc n) (x ∷ xs) h p = (p.0, strncpy-All b n _ h (cut-All _ (x == 0) xs p.1))
