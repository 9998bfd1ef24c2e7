-- ===== src/AmazonHttpRequest/Joined.antt =====
-- util/amazon-http-request-util.cc: pairs of keys and values as one text.
use polar_express.Base.{
  ◌≡◌, refl, ◌∙◌, Bytes, List, [], ◌∷◌, ◌++◌, false, is_empty, if◌then◌else◌, join, map,
  append_assoc, ℕ,
}
use polar_express.AmazonHttpRequest.{join_pairs, join_key_value_pairs}

module _ (inner outer : Bytes) (x : ℕ) (xs : Bytes) (starts : inner ≡ x ∷ xs) where
  abbrev pub pair : Bytes × Bytes → Bytes
  pair p = p.0 ++ inner ++ p.1

  pair-starts : (joined k v : Bytes) → is_empty (joined ++ (k ++ inner ++ v)) ≡ false
  pair-starts (y ∷ joined) k v = refl
  pair-starts [] (y ∷ k) v = refl
  pair-starts [] [] v = rw starts refl

  join_pairs-join :
      (p : Bytes × Bytes) (m : List (Bytes × Bytes)) (joined : Bytes)
      → is_empty joined ≡ false
      → join_pairs inner outer (p ∷ m) joined ≡ joined ++ outer ++ join outer (map pair (p ∷ m))
  unfolding join
  join_pairs-join (k, v) [] joined h = rw h refl
  join_pairs-join (k, v) (q ∷ m) joined h =
      join_pairs-join q m
        ((if is_empty joined then joined else joined ++ outer) ++ (k ++ inner ++ v))
        (pair-starts (if is_empty joined then joined else joined ++ outer) k v)
      ∙ rw h (simp append_assoc)

  -- JoinKeyValuePairs, which puts no separator before the pair that finds the string still empty,
  -- is the separated list of the pairs, where the inner separator is not empty.
  pub join_key_value_pairs-join :
      (m : List (Bytes × Bytes)) → join_key_value_pairs m inner outer ≡ join outer (map pair m)
  unfolding join_key_value_pairs join
  join_key_value_pairs-join [] = refl
  join_key_value_pairs-join ((k, v) ∷ []) = refl
  join_key_value_pairs-join ((k, v) ∷ q ∷ m) =
      join_pairs-join q m (k ++ inner ++ v) (pair-starts [] k v)
