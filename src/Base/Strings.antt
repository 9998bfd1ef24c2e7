-- ===== src/Base/Strings.antt =====
-- Byte strings from literals, their order, and `boost::algorithm::join`.
use Prim.Native.Nat.{compare, Ordering}
use Prim.Native.Char.{code}
use Prim.Native.String.{String}
use mathlib.Core.Path.{◌≡◌, refl}
use mathlib.Core.List.{List, [], ◌∷◌, ◌++◌}
use native.Mathlib.Omega.{arith}
use polar_express.Base.Tests.{Bytes}

-- The bytes of an ASCII literal.
abbrev pub codes : String → Bytes
codes String.[] = []
codes (String.◌∷◌ c s) = code c ∷ codes s

-- How two strings compare under std::string's `<`.
unfoldable pub order : Bytes → Bytes → Ordering
order [] [] = Ordering.eq
order [] (y ∷ ys) = Ordering.lt
order (x ∷ xs) [] = Ordering.gt
order (x ∷ xs) (y ∷ ys) = elim (compare x y) [
  | Ordering.lt ↦ Ordering.lt
  | Ordering.eq ↦ order xs ys
  | Ordering.gt ↦ Ordering.gt
]

pub order_refl : (x : Bytes) → order x x ≡ Ordering.eq
unfolding order
order_refl [] = refl
order_refl (a ∷ x) = ground (arith, order_refl x)

pub order_eq : (x y : Bytes) → order x y ≡ Ordering.eq → x ≡ y
unfolding order
order_eq [] [] h = refl
order_eq [] (b ∷ y) h = cc
order_eq (a ∷ x) [] h = cc
order_eq (a ∷ x) (b ∷ y) h = ground (arith, order_eq x y)

pub order_flip : (x y : Bytes) → order x y ≡ Ordering.lt → order y x ≡ Ordering.gt
unfolding order
order_flip [] [] h = cc
order_flip [] (b ∷ y) h = refl
order_flip (a ∷ x) [] h = cc
order_flip (a ∷ x) (b ∷ y) h = ground (arith, order_flip x y)

pub order_flip_back : (x y : Bytes) → order x y ≡ Ordering.gt → order y x ≡ Ordering.lt
unfolding order
order_flip_back [] [] h = cc
order_flip_back [] (b ∷ y) h = cc
order_flip_back (a ∷ x) [] h = refl
order_flip_back (a ∷ x) (b ∷ y) h = ground (arith, order_flip_back x y)

pub order_trans :
    (x y z : Bytes) → order x y ≡ Ordering.lt → order y z ≡ Ordering.lt → order x z ≡ Ordering.lt
unfolding order
order_trans [] [] z h k = cc
order_trans (a ∷ x) [] z h k = cc
order_trans [] (b ∷ y) [] h k = cc
order_trans [] (b ∷ y) (c ∷ z) h k = refl
order_trans (a ∷ x) (b ∷ y) [] h k = cc
order_trans (a ∷ x) (b ∷ y) (c ∷ z) h k = ground (arith, order_trans x y z)

unfoldable pub join : Bytes → List Bytes → Bytes
join sep [] = []
join sep (x ∷ []) = x
join sep (x ∷ y ∷ xs) = x ++ sep ++ join sep (y ∷ xs)
