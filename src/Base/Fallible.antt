-- ===== src/Base/Fallible.antt =====
-- Steps that an assertion may stop, as `Option` values.
use mathlib.Core.Path.{◌≡◌, refl, ap, ap₂, ◌∙◌, sym, fun_ext}
use mathlib.Core.Bool.{Bool, true, false}
use mathlib.Core.List.{List, [], ◌∷◌, Permᴰ}
use mathlib.Core.Option.{Option, none, some}

infixl 5 ◌>>=◌ ◌>>◌
abbrev pub ◌>>=◌ {ℓ κ} : {A : Type ℓ} {B : Type κ} → Option A → (A → Option B) → Option B
some a >>= f = f a
none >>= f = none

abbrev pub ◌>>◌ {ℓ} : {B : Type ℓ} → Option (Unit {0}) → Option B → Option B
m >> k = m >>= λ _. k

abbrev pub assert : Bool → Option (Unit {0})
assert true = some tt
assert false = none

-- A step that succeeds, and what comes after it.
pub bind-some {ℓ κ} :
    {A : Type ℓ} {B : Type κ} {m : Option A} {a : A} {r : Option B} (f : A → Option B)
    → m ≡ some a
    → f a ≡ r
    → (m >>= f) ≡ r
bind-some f e e' = ap (λ o. o >>= f) e ∙ e'

-- A `for` loop over a list, which a step may leave with a failure.
unfoldable pub each {ℓ κ} : {A : Type ℓ} {S : Type κ} → (A → S → Option S) → List A → S → Option S
each step [] s = some s
each step (x ∷ xs) s = step x s >>= each step xs

pub bind_assoc {ℓ κ ι} :
    {A : Type ℓ} {B : Type κ} {C : Type ι} (m : Option A) (f : A → Option B) (g : B → Option C)
    → ((m >>= f) >>= g) ≡ (m >>= λ a. f a >>= g)
bind_assoc none f g = refl
bind_assoc (some a) f g = refl

-- A loop whose steps commute does not depend on the order of the list.
pub each-perm {ℓ κ} :
    {A : Type ℓ} {S : Type κ} (step : A → S → Option S)
    → ((a b : A) (s : S) → (step a s >>= step b) ≡ (step b s >>= step a))
    → {xs ys : List A} → Permᴰ xs ys
    → (s : S) → each step xs s ≡ each step ys s
unfolding each
each-perm step comm Permᴰ.nil s = refl
each-perm step comm (Permᴰ.cons {a} {b} {l₁} {l₂} e p) s =
    ap (λ f. step a s >>= f) (fun_ext (each-perm step comm p))
    ∙ ap (λ c. step c s >>= each step l₂) e
each-perm step comm (Permᴰ.swap {a} {b} {a'} {b'} {l} e e') s =
    sym (bind_assoc (step a s) (step b) (each step l))
    ∙ ap (λ o. o >>= each step l) (comm a b s)
    ∙ bind_assoc (step b s) (step a) (each step l)
    ∙ ap₂ (λ x y. step x s >>= λ s'. step y s' >>= each step l) e' e
each-perm step comm (Permᴰ.trans p q) s = each-perm step comm p s ∙ each-perm step comm q s

-- A chain that succeeds, taken apart.
pub bind_back {ℓ κ} :
    {A : Type ℓ} {B : Type κ} (m : Option A) (f : A → Option B) {b : B}
    → (m >>= f) ≡ some b
    → (a : A) × (m ≡ some a) × (f a ≡ some b)
bind_back none f h = cc
bind_back (some a) f h = (a, refl, h)
