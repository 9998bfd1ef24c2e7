-- ===== src/Base/Maps.antt =====
-- std::map and std::set with string keys: the entries in the order of their keys.
use Prim.Native.Nat.{Ordering, ◌+◌}
use mathlib.Core.Path.{subst, ◌≡◌, refl, ap, ◌∙◌, sym}
use mathlib.Core.Logic.{inl, inr}
use mathlib.Core.List.{List, [], ◌∷◌}
use mathlib.Core.Option.{Option, none, some}
use native.Mathlib.Omega.{arith}
use polar_express.Base.Tests.{Bytes, some_inj, Option-cases}
use polar_express.Base.Lists.{length}
use polar_express.Base.Fallible.{◌>>=◌}
use polar_express.Base.Strings.{
  order, order_refl, order_eq, order_flip, order_flip_back, order_trans,
}

-- The three ways in which two strings compare, with what each says of both orders.
data Compared (x y : Bytes) : Type 0 where
  before : order x y ≡ Ordering.lt → order y x ≡ Ordering.gt → Compared x y
  same : order x y ≡ Ordering.eq → x ≡ y → Compared x y
  after : order x y ≡ Ordering.gt → order y x ≡ Ordering.lt → Compared x y

compared : (x y : Bytes) → Compared x y
compared x y = look (order x y) refl
  where
    look : (o : Ordering) → order x y ≡ o → Compared x y
    look Ordering.lt e = before e (order_flip x y e)
    look Ordering.eq e = same e (order_eq x y e)
    look Ordering.gt e = after e (order_flip_back x y e)

module _ {V : Type 0} where
  -- `m.insert({k, v})`, or `none` where it does not insert since the key is there.
  unfoldable pub map_insert : Bytes → V → List (Bytes × V) → Option (List (Bytes × V))
  map_insert k v [] = some ((k, v) ∷ [])
  map_insert k v ((l, w) ∷ m) =
      let rest = map_insert k v m in
      elim (order k l) [
        | Ordering.lt ↦ some ((k, v) ∷ (l, w) ∷ m)
        | Ordering.eq ↦ none
        | Ordering.gt ↦ rest >>= λ m'. some ((l, w) ∷ m')
      ]

-- `s.insert(k)` for a set.
unfoldable pub set_insert : Bytes → List Bytes → List Bytes
set_insert k [] = k ∷ []
set_insert k (l ∷ s) =
    let rest = set_insert k s in
    elim (order k l) [ Ordering.lt ↦ k ∷ l ∷ s | Ordering.eq ↦ l ∷ s | Ordering.gt ↦ l ∷ rest ]

abbrev pub keys : {V : Type 0} → List (Bytes × V) → List Bytes
keys [] = []
keys ((k, v) ∷ m) = k ∷ keys m

module _ {V : Type 0} (k l : Bytes) (v w : V) (m : List (Bytes × V)) where
  insert_before : order k l ≡ Ordering.lt → map_insert k v ((l, w) ∷ m) ≡ some ((k, v) ∷ (l, w) ∷ m)
  unfolding map_insert
  insert_before e = rw (e, map_insert) refl

  insert_same : order k l ≡ Ordering.eq → map_insert k v ((l, w) ∷ m) ≡ none
  unfolding map_insert
  insert_same e = rw (e, map_insert) refl

  insert_after :
      order k l ≡ Ordering.gt
      → map_insert k v ((l, w) ∷ m) ≡ (map_insert k v m >>= λ m'. some ((l, w) ∷ m'))
  unfolding map_insert
  insert_after e = rw (e, map_insert) refl

-- The keys of an insertion are those of the set's insertion.
pub keys-map_insert :
    {V : Type 0} (k : Bytes) (v : V) (m m' : List (Bytes × V))
    → map_insert k v m ≡ some m'
    → keys m' ≡ set_insert k (keys m)
unfolding map_insert set_insert
keys-map_insert k v [] m' h = ap keys (sym (some_inj h))
keys-map_insert k v ((l, w) ∷ m) m' h = elim (Option-cases (map_insert k v m)) [
  | inl e ↦ ground (arith)
  | inr (n, e) ↦ ground (arith, keys-map_insert k v m n e)
]

module _ {V : Type 0} where
  pub insert_twice :
      (k : Bytes) (v w : V) (m : List (Bytes × V)) → (map_insert k v m >>= map_insert k w) ≡ none
  unfolding map_insert
  insert_twice k v w [] = ground (arith, order_refl k)
  insert_twice k v w ((x, u) ∷ m) = ground (arith, order_refl k, insert_twice k v w m)

-- Insertions with different keys may be swapped; with the same key they both fail.
pub map_insert_comm :
    {V : Type 0} (k l : Bytes) (v w : V) (m : List (Bytes × V))
    → (map_insert k v m >>= map_insert l w) ≡ (map_insert l w m >>= map_insert k v)
unfolding map_insert
map_insert_comm k l v w [] = ground (arith, order_flip k l, order_flip_back k l, order_eq k l)
map_insert_comm k l v w ((x, u) ∷ m) = elim (compared k l) [
  | before a b ↦ ground (
    arith,
    a,
    b,
    order_trans k l x,
    order_trans x k l,
    order_flip x l,
    order_flip k x,
    order_flip_back x l,
    order_flip_back k x,
    map_insert_comm k l v w m,
    order_eq k x,
    order_eq l x,
  )
  | same e e' ↦
      subst
        (λ y.
          (map_insert k v ((x, u) ∷ m) >>= map_insert y w)
          ≡ (map_insert y w ((x, u) ∷ m) >>= map_insert k v))
        e' (insert_twice k v w ((x, u) ∷ m) ∙ sym (insert_twice k w v ((x, u) ∷ m)))
  | after a b ↦ ground (
    arith,
    a,
    b,
    order_trans l k x,
    order_trans x l k,
    order_flip x k,
    order_flip l x,
    order_flip_back x k,
    order_flip_back l x,
    order_flip x l,
    order_flip k x,
    order_flip_back x l,
    order_flip_back k x,
    map_insert_comm k l v w m,
    order_eq k x,
    order_eq l x,
  )
]

pub length-map_insert :
    {V : Type 0} (k : Bytes) (v : V) (m m' : List (Bytes × V))
    → map_insert k v m ≡ some m'
    → length (keys m') ≡ length (keys m) + 1
unfolding map_insert
length-map_insert k v [] m' h = ap (λ n. length (keys n)) (sym (some_inj h))
length-map_insert k v ((l, w) ∷ m) m' h = elim (Option-cases (map_insert k v m)) [
  | inl e ↦ ground arith
  | inr (n, e) ↦ ground (arith, length-map_insert k v m n e)
]

-- The keys ascend strictly: they are in order and no two are the same.
abbrev pub Ascending : List Bytes → Type 0
Ascending [] = Unit
Ascending (x ∷ []) = Unit
Ascending (x ∷ y ∷ xs) = (order x y ≡ Ordering.lt) × Ascending (y ∷ xs)

insert_above :
    (x k : Bytes) (s : List Bytes)
    → order x k ≡ Ordering.lt
    → Ascending (x ∷ s)
    → Ascending (x ∷ set_insert k s)
unfolding set_insert
insert_above x k [] e h = (e, tt)
insert_above x k (y ∷ s) e h = elim (compared k y) [
  | before f f' ↦ rw (f, set_insert) (e, (f, h.1))
  | same f f' ↦ rw (f, set_insert) h
  | after f f' ↦ rw (f, set_insert) (h.0, insert_above y k s f' h.1)
]

pub set_insert-Ascending : (k : Bytes) (s : List Bytes) → Ascending s → Ascending (set_insert k s)
unfolding set_insert
set_insert-Ascending k [] h = tt
set_insert-Ascending k (x ∷ s) h = elim (compared k x) [
  | before e e' ↦ rw (e, set_insert) (e, h)
  | same e e' ↦ rw (e, set_insert) h
  | after e e' ↦ rw (e, set_insert) (insert_above x k s e' h)
]
