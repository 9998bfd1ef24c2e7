-- ===== src/Pool/Persistent/Limbo.antt =====
-- state_machines/persistent-state-machine-pool.h: a machine that leaves one of the sets.
use polar_express.Base.{
  ℕ, ◌+◌, ◌-◌, ◌<◌, ◌≡◌, refl, sym, ◌∙◌, true, false, List, ◌∷◌, ◌++◌, length, length-append, leb,
  leb→le, ==_refl, arith, Bool-cases, inl, inr,
}
use polar_express.Pool.Persistent.{is_in, set_erase, assign}
use polar_express.Pool.Persistent.Sets.{
  sum_of, conflict, is_in-erase_self, is_in-erase, IsDistinct-erase, sum_of-erase,
  sum_of-assign_absent, sum_of-append, is_in-middle, IsDistinct-middle,
}
use polar_express.Pool.Persistent.Kept.{IsKept, IsLimbo}

-- A machine is taken out of the idle ones.
pub pull-Limbo :
    {max : ℕ} (xs : List ℕ) (m : ℕ) (ys : List ℕ) {active ended : List ℕ} {f : ℕ → ℕ}
    {total num : ℕ}
    → IsKept max (xs ++ m ∷ ys) active ended f total num
    → IsLimbo m max (xs ++ ys) active ended f total num × (is_in m ended ≡ false)
pull-Limbo {max} xs m ys {active} {ended} {f} {total} {num} k =
    let (absent, rest) = IsDistinct-middle m xs ys k.idle_set in
    let here : is_in m (xs ++ m ∷ ys) ≡ true = is_in-middle m m xs ys ∙ rw (==_refl m) refl in
    let (idle_only, alive) = k.apart m here in
    let s = sum_of-append f xs (m ∷ ys) in
    let s' = sum_of-append f xs ys in
    let c = length-append xs (m ∷ ys) in
    let c' = length-append xs ys in
    (
      record {
        kept = record {
          idle_set = rest;
          active_set = k.active_set;
          apart = λ n i. k.apart n (is_in-middle n m xs ys ∙ ground (arith, i));
          fresh = λ n h.
              let (i, a, t) = k.fresh n h in (ground (arith, is_in-middle n m xs ys, i), a, t);
          weighs = k.weighs;
          done = k.done;
          running = omega (arith, k.running, c, c');
          fits = omega (arith, k.fits, s, s');
        };
        not_idle = absent;
        not_active = idle_only;
        known = elim (Bool-cases (leb num m)) [
          | inl old ↦ absurd (conflict here (k.fresh m (leb→le num m old)).0)
          | inr new ↦ ground (arith, new)
        ];
        place = omega (arith, k.running, c, c');
        fits = omega (arith, k.fits, s, s');
      },
      alive,
    )

-- A machine is no longer active.
pub erase-Limbo :
    {max : ℕ} (m : ℕ) {idle active ended : List ℕ} {f : ℕ → ℕ} {total num : ℕ}
    → is_in m active ≡ true
    → IsKept max idle active ended f total num
    → IsLimbo m max idle (set_erase m active) ended f (total - f m) num
erase-Limbo {max} m {idle} {active} {ended} {f} {total} {num} on k =
    let (sum, count) = sum_of-erase f m active k.active_set on in
    record {
      kept = record {
        idle_set = k.idle_set;
        active_set = IsDistinct-erase m active k.active_set;
        apart = λ n i. let (a, t) = k.apart n i in (is_in-erase m n active a, t);
        fresh = λ n h. let (i, a, t) = k.fresh n h in (i, is_in-erase m n active a, t);
        weighs = omega (arith, k.weighs, sum);
        done = k.done;
        running = omega (arith, k.running, count);
        fits = omega (arith, k.fits, sum);
      };
      not_idle = elim (Bool-cases (is_in m idle)) [
        | inl i ↦ absurd (conflict on (k.apart m i).0)
        | inr i ↦ i
      ];
      not_active = is_in-erase_self m active;
      known = elim (Bool-cases (leb num m)) [
        | inl old ↦ absurd (conflict on (k.fresh m (leb→le num m old)).1)
        | inr new ↦ ground (arith, new)
      ];
      place = omega (arith, k.running, count);
      fits = omega (arith, k.fits, sum);
    }

-- A new machine.
pub new-Limbo :
    {max : ℕ} {idle active ended : List ℕ} {f : ℕ → ℕ} {total num : ℕ}
    → length idle + length active < max
    → IsKept max idle active ended f total num
    → IsLimbo num max idle active ended (assign num 0 f) total (num + 1)
      × (sum_of (assign num 0 f) idle ≡ sum_of f idle)
      × (sum_of (assign num 0 f) active ≡ sum_of f active)
      × (assign num 0 f num ≡ 0)
unfolding assign
new-Limbo {max} {idle} {active} {ended} {f} {total} {num} room k =
    let (i, a, t) = k.fresh num (omega arith) in
    let waiting = sum_of-assign_absent f num 0 idle i in
    let same = sum_of-assign_absent f num 0 active a in
    let zero_new : assign num 0 f num ≡ 0 = rw (==_refl num) refl in
    (
      record {
        kept = record {
          idle_set = k.idle_set;
          active_set = k.active_set;
          apart = k.apart;
          fresh = λ n h. k.fresh n (omega (arith, h));
          weighs = k.weighs ∙ sym same;
          done = λ n e. ground (arith, k.done n e);
          running = k.running;
          fits = omega (arith, k.fits, same, waiting);
        };
        not_idle = i;
        not_active = a;
        known = omega arith;
        place = room;
        fits = omega (arith, k.fits, same, waiting, zero_new);
      },
      waiting,
      same,
      zero_new,
    )
