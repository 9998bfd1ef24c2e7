-- ===== src/Pool/Persistent/Kept.antt =====
-- state_machines/persistent-state-machine-pool.h: what each step does to the sets of machines and to
-- the outstanding output weight.
use polar_express.Base.{
  ℕ, ◌+◌, ◌%◌, ◌≤◌, ◌<◌, ◌≡◌, refl, sym, ap, ◌∙◌, true, false, List, [], ◌∷◌, ◌++◌, length,
  length-append, ◌==◌, ==_iff, if◌then◌else◌, arith, Bool-cases, inl, inr,
}
use polar_express.Pool.{word}
use polar_express.Pool.Persistent.{PersistentPool, is_in, set_insert}
use polar_express.Pool.Persistent.Sets.{
  IsDistinct, sum_of, conflict, is_in-cons, sum_of-append, IsDistinct-snoc, is_in-snoc,
}

-- A machine is idle or active or neither, an idle one is not terminated, a terminated one has no
-- output outstanding, and the pool's weight is that of the active machines.
pub record IsKept (max : ℕ) (idle active ended : List ℕ) (f : ℕ → ℕ) (total num : ℕ) : Type 0 where
  pub idle_set : IsDistinct idle
  pub active_set : IsDistinct active
  pub apart : (m : ℕ) → is_in m idle ≡ true → (is_in m active ≡ false) × (is_in m ended ≡ false)
  pub fresh :
      (m : ℕ)
      → num ≤ m
      → (is_in m idle ≡ false) × (is_in m active ≡ false) × (is_in m ended ≡ false)
  pub weighs : total ≡ sum_of f active
  pub done : (m : ℕ) → is_in m ended ≡ true → f m ≡ 0
  pub running : length idle + length active ≤ max
  pub fits : sum_of f idle + sum_of f active < word

abbrev pub Kept : {Input : Type 0} → PersistentPool Input → Type 0
Kept p =
    IsKept p.max_simultaneous_state_machines p.idle_state_machines p.active_state_machines
      p.terminated_state_machines p.output_weight_outstanding p.active_output_weight_outstanding
      p.num_constructed

-- A machine that is neither idle nor active, for which there is a place.
pub record IsLimbo (m : ℕ) (max : ℕ) (idle active ended : List ℕ) (f : ℕ → ℕ) (total num : ℕ)
    : Type 0 where
  pub kept : IsKept max idle active ended f total num
  pub not_idle : is_in m idle ≡ false
  pub not_active : is_in m active ≡ false
  pub known : m < num
  pub place : length idle + length active < max
  pub fits : sum_of f idle + sum_of f active + f m < word

pub insert-absent : (m : ℕ) (xs : List ℕ) → is_in m xs ≡ false → set_insert m xs ≡ m ∷ xs
unfolding set_insert
insert-absent m xs h = rw h refl

other : (m n : ℕ) → m < n → (m == n) ≡ false
other m n h = ground arith

not_in-cons :
    (n m : ℕ) (xs : List ℕ) → (m == n) ≡ false → is_in n xs ≡ false → is_in n (m ∷ xs) ≡ false
not_in-cons n m xs e h = is_in-cons n m xs ∙ rw (e, h) refl

in-cons : (n m : ℕ) (xs : List ℕ) → (m == n) ≡ false → is_in n (m ∷ xs) ≡ true → is_in n xs ≡ true
in-cons n m xs e i = ap (λ b. if b then true else is_in n xs) (sym e) ∙ sym (is_in-cons n m xs) ∙ i

module _ {max : ℕ} {idle active ended : List ℕ} {f : ℕ → ℕ} {total num m : ℕ}
    (l : IsLimbo m max idle active ended f total num) where
  differs : (n : ℕ) → is_in n idle ≡ true → (m == n) ≡ false
  differs n i = elim (Bool-cases (m == n)) [
    | inl e ↦ absurd (conflict i (ap (λ x. is_in x idle) (sym ((==_iff m n).0 e)) ∙ l.not_idle))
    | inr e ↦ e
  ]

  Limbo-active : IsKept max idle (m ∷ active) ended f (total + f m) num
  Limbo-active = record {
    idle_set = l.kept.idle_set;
    active_set = (l.not_active, l.kept.active_set);
    apart = λ n i. let (a, t) = l.kept.apart n i in (not_in-cons n m active (differs n i) a, t);
    fresh = λ n h.
        let (i, a, t) = l.kept.fresh n h in
        (i, not_in-cons n m active (other m n (omega (arith, l.known, h))) a, t);
    weighs = omega (arith, l.kept.weighs);
    done = l.kept.done;
    running = omega (arith, l.place);
    fits = omega (arith, l.fits);
  }

  pub Limbo-idle : is_in m ended ≡ false → IsKept max (idle ++ m ∷ []) active ended f total num
  Limbo-idle alive = record {
    idle_set = IsDistinct-snoc m idle l.kept.idle_set l.not_idle;
    active_set = l.kept.active_set;
    apart = λ n i. elim (Bool-cases (m == n)) [
      | inl e ↦
          let same : m ≡ n = (==_iff m n).0 e in
          (
            ap (λ x. is_in x active) (sym same) ∙ l.not_active,
            ap (λ x. is_in x ended) (sym same) ∙ alive,
          )
      | inr e ↦
          l.kept.apart n
            (ap (λ b. if b then true else is_in n idle) (sym e) ∙ sym (is_in-snoc n m idle) ∙ i)
    ];
    fresh = λ n h.
        let (i, a, t) = l.kept.fresh n h in
        (is_in-snoc n m idle ∙ rw (other m n (omega (arith, l.known, h)), i) refl, a, t);
    weighs = l.kept.weighs;
    done = l.kept.done;
    running = omega (arith, l.place, length-append idle (m ∷ []));
    fits = omega (arith, l.fits, sum_of-append f idle (m ∷ []));
  }

  Limbo-ended : f m ≡ 0 → IsKept max idle (m ∷ active) (m ∷ ended) f total num
  Limbo-ended zero_left = record {
    idle_set = l.kept.idle_set;
    active_set = (l.not_active, l.kept.active_set);
    apart = λ n i.
        let (a, t) = l.kept.apart n i in
        (not_in-cons n m active (differs n i) a, not_in-cons n m ended (differs n i) t);
    fresh = λ n h.
        let (i, a, t) = l.kept.fresh n h in
        let e = other m n (omega (arith, l.known, h)) in
        (i, not_in-cons n m active e a, not_in-cons n m ended e t);
    weighs = omega (arith, l.kept.weighs, zero_left);
    done = λ n i. elim (Bool-cases (m == n)) [
      | inl e ↦ ap f (sym ((==_iff m n).0 e)) ∙ zero_left
      | inr e ↦ l.kept.done n (in-cons n m ended e i)
    ];
    running = omega (arith, l.place);
    fits = omega (arith, l.fits, zero_left);
  }

-- A machine is made active, or is terminated.
pub Limbo-activate :
    {max : ℕ} {idle active ended : List ℕ} {f : ℕ → ℕ} {total num m : ℕ}
    → IsLimbo m max idle active ended f total num
    → IsKept max idle (set_insert m active) ended f ((total + f m) % word) num
Limbo-activate {active} {f} {total} {m} l =
    let small : (total + f m) % word ≡ total + f m = omega (arith, l.fits, l.kept.weighs) in
    rw (insert-absent m active l.not_active, small) (Limbo-active l)

pub Limbo-terminate :
    {max : ℕ} {idle active ended : List ℕ} {f : ℕ → ℕ} {total num m : ℕ}
    → IsLimbo m max idle active ended f total num
    → is_in m ended ≡ false
    → f m ≡ 0
    → IsKept max idle (set_insert m active) (set_insert m ended) f total num
Limbo-terminate {active} {ended} {m} l alive zero_left =
    rw (insert-absent m active l.not_active, insert-absent m ended alive) (Limbo-ended l zero_left)
