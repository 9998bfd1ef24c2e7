-- ===== src/GlacierConnection/Described.antt =====
-- network/glacier-connection.cc: what ParseJsonVaultDescription reads of an object.
use polar_express.Base.{
  ◌≡◌, ◌↔◌, ◌⊎◌, refl, sym, ap, ◌∙◌, subst, List, [], ◌∷◌, Option, none, some, Bool, true, false, ℕ,
  zero, suc, codes, Bool-cases, Option-cases, inl, inr,
}
use polar_express.GlacierConnection.Json.{
  Json, VaultDescription, copy_value_if_not_null, and_then, copy_fields, description_fields,
  parse_json_vault_description,
}

abbrev skip : {A : Type 0} → ℕ → List A → List A
skip zero xs = xs
skip (suc n) [] = []
skip (suc n) (x ∷ xs) = skip n xs

module _ (j : Json) where
  -- A value that is null leaves a field as it is; any other must have the field's type.
  abbrev pub IsCopied : {A : Type 0} → j.Value → (j.Value → Option A) → A → A → Type 0
  IsCopied v get old new =
      ((j.is_null v ≡ true) × (new ≡ old)) ⊎ ((j.is_null v ≡ false) × (get v ≡ some new))

  pub record IsReadFrom (o : j.Object) (d d' : VaultDescription j) : Type 0 where
    pub creation_date :
        IsCopied (j.find_value o (codes "CreationDate")) j.get_str d.creation_date d'.creation_date
    pub last_inventory_date :
        IsCopied
          (j.find_value o (codes "LastInventoryDate"))
          j.get_str
          d.last_inventory_date
          d'.last_inventory_date
    pub number_of_archives :
        IsCopied
          (j.find_value o (codes "NumberOfArchives"))
          j.get_int64
          d.number_of_archives
          d'.number_of_archives
    pub size_in_bytes :
        IsCopied (j.find_value o (codes "SizeInBytes")) j.get_int64 d.size_in_bytes d'.size_in_bytes
    pub vault_arn : IsCopied (j.find_value o (codes "VaultARN")) j.get_str d.vault_arn d'.vault_arn
    pub vault_name :
        IsCopied (j.find_value o (codes "VaultName")) j.get_str d.vault_name d'.vault_name

  conflict : {b : Bool} → b ≡ true → b ≡ false → ⊥
  conflict h k = cc

  -- One field, and what follows it.
  module _ {A : Type 0} (v : j.Value) (get : j.Value → Option A) (set : A → VaultDescription j)
      (old : A) (next : VaultDescription j → Bool × VaultDescription j)
      (r : VaultDescription j) where
    copies :
        (a : A)
        → IsCopied v get old a
        → and_then j (copy_value_if_not_null j v get set (set old)) next ≡ next (set a)
    copies a (inl (e, same)) =
        ap (λ p. and_then j p next) (as_is e ∙ ap (λ x. (true, set x)) (sym same))
      where
        as_is : j.is_null v ≡ true → copy_value_if_not_null j v get set (set old) ≡ (true, set old)
        as_is e = rw (e, copy_value_if_not_null) refl
    copies a (inr (e, s)) = ap (λ p. and_then j p next) (taken e s)
      where
        taken :
            j.is_null v ≡ false
            → get v ≡ some a
            → copy_value_if_not_null j v get set (set old) ≡ (true, set a)
        taken e s = rw (e, s, copy_value_if_not_null) refl

    fails :
        j.is_null v ≡ false
        → get v ≡ none
        → copy_value_if_not_null j v get set (set old) ≡ (false, set old)
    fails e n = rw (e, n, copy_value_if_not_null) refl

    copied :
        and_then j (copy_value_if_not_null j v get set (set old)) next ≡ (true, r)
        → (a : A) × IsCopied v get old a × (next (set a) ≡ (true, r))
    copied h = elim (Bool-cases (j.is_null v)) [
      | inl e ↦ (old, inl (e, refl), sym (copies old (inl (e, refl))) ∙ h)
      | inr e ↦ elim (Option-cases (get v)) [
        | inl n ↦
            absurd
              (conflict refl (sym (ap (λ p. p.0) h) ∙ ap (λ p. (and_then j p next).0) (fails e n)))
        | inr (a, s) ↦ (a, inr (e, s), sym (copies a (inr (e, s))) ∙ h)
      ]
    ]

  -- An object is read exactly if the fields are.
  pub parse_json_vault_description_lem :
      (o : j.Object) (d d' : VaultDescription j)
      → (parse_json_vault_description j o d ≡ (true, d')) ↔ IsReadFrom o d d'
  unfolding parse_json_vault_description
  parse_json_vault_description_lem o d d' = (
    λ h.
        let (a1, c1, h1) =
          copied (j.find_value o (codes "CreationDate")) j.get_str
            (λ a. record d { creation_date = a }) d.creation_date
            (copy_fields j o (skip 1 (description_fields j))) d' h in
        let (a2, c2, h2) =
          copied (j.find_value o (codes "LastInventoryDate")) j.get_str
            (λ a. record d { creation_date = a1; last_inventory_date = a }) d.last_inventory_date
            (copy_fields j o (skip 2 (description_fields j))) d' h1 in
        let (a3, c3, h3) =
          copied (j.find_value o (codes "NumberOfArchives")) j.get_int64
            (λ a. record d { creation_date = a1; last_inventory_date = a2; number_of_archives = a })
            d.number_of_archives (copy_fields j o (skip 3 (description_fields j))) d' h2 in
        let (a4, c4, h4) =
          copied (j.find_value o (codes "SizeInBytes")) j.get_int64
            (λ a. record d {
              creation_date = a1;
              last_inventory_date = a2;
              number_of_archives = a3;
              size_in_bytes = a;
            })
            d.size_in_bytes (copy_fields j o (skip 4 (description_fields j))) d' h3 in
        let (a5, c5, h5) =
          copied (j.find_value o (codes "VaultARN")) j.get_str
            (λ a. record d {
              creation_date = a1;
              last_inventory_date = a2;
              number_of_archives = a3;
              size_in_bytes = a4;
              vault_arn = a;
            })
            d.vault_arn (copy_fields j o (skip 5 (description_fields j))) d' h4 in
        let (a6, c6, h6) =
          copied (j.find_value o (codes "VaultName")) j.get_str
            (λ a. record d {
              creation_date = a1;
              last_inventory_date = a2;
              number_of_archives = a3;
              size_in_bytes = a4;
              vault_arn = a5;
              vault_name = a;
            })
            d.vault_name (copy_fields j o (skip 6 (description_fields j))) d' h5 in
        subst (IsReadFrom o d) (ap (λ p. p.1) h6) (record {
          creation_date = c1;
          last_inventory_date = c2;
          number_of_archives = c3;
          size_in_bytes = c4;
          vault_arn = c5;
          vault_name = c6;
        }),
    λ c.
        copies (j.find_value o (codes "CreationDate")) j.get_str
          (λ a. record d { creation_date = a }) d.creation_date
          (copy_fields j o (skip 1 (description_fields j))) d' d'.creation_date c.creation_date
        ∙ copies (j.find_value o (codes "LastInventoryDate")) j.get_str
            (λ a. record d { creation_date = d'.creation_date; last_inventory_date = a })
            d.last_inventory_date (copy_fields j o (skip 2 (description_fields j))) d'
            d'.last_inventory_date c.last_inventory_date
        ∙ copies (j.find_value o (codes "NumberOfArchives")) j.get_int64
            (λ a. record d {
              creation_date = d'.creation_date;
              last_inventory_date = d'.last_inventory_date;
              number_of_archives = a;
            })
            d.number_of_archives (copy_fields j o (skip 3 (description_fields j))) d'
            d'.number_of_archives c.number_of_archives
        ∙ copies (j.find_value o (codes "SizeInBytes")) j.get_int64
            (λ a. record d {
              creation_date = d'.creation_date;
              last_inventory_date = d'.last_inventory_date;
              number_of_archives = d'.number_of_archives;
              size_in_bytes = a;
            })
            d.size_in_bytes (copy_fields j o (skip 4 (description_fields j))) d' d'.size_in_bytes
            c.size_in_bytes
        ∙ copies (j.find_value o (codes "VaultARN")) j.get_str
            (λ a. record d {
              creation_date = d'.creation_date;
              last_inventory_date = d'.last_inventory_date;
              number_of_archives = d'.number_of_archives;
              size_in_bytes = d'.size_in_bytes;
              vault_arn = a;
            })
            d.vault_arn (copy_fields j o (skip 5 (description_fields j))) d' d'.vault_arn
            c.vault_arn
        ∙ copies (j.find_value o (codes "VaultName")) j.get_str
            (λ a. record d {
              creation_date = d'.creation_date;
              last_inventory_date = d'.last_inventory_date;
              number_of_archives = d'.number_of_archives;
              size_in_bytes = d'.size_in_bytes;
              vault_arn = d'.vault_arn;
              vault_name = a;
            })
            d.vault_name (copy_fields j o (skip 6 (description_fields j))) d' d'.vault_name
            c.vault_name,
  )
