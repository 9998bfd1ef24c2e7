-- ===== src/GlacierConnection/Json.antt =====
-- network/glacier-connection.cc: descriptions of vaults in JSON.
use polar_express.Base.{Bytes, List, [], ◌∷◌, ◌++◌, Option, none, some, Bool, true, false, codes}

-- json_spirit. `read` is `none` for what is no JSON; the conversions are `none` where they throw.
pub record Json : Type 1 where
  pub Value : Type 0
  pub Object : Type 0
  pub Int : Type 0
  pub zero_int : Int
  pub read : Bytes → Option Value
  pub is_null : Value → Bool
  pub get_obj : Value → Option Object
  pub get_array : Value → Option (List Value)
  pub get_str : Value → Option Bytes
  pub get_int64 : Value → Option Int
  pub find_value : Object → Bytes → Value

module _ (j : Json) where
  -- proto/glacier.proto: GlacierVaultDescription.
  pub record VaultDescription : Type 0 where
    pub creation_date : Bytes
    pub last_inventory_date : Bytes
    pub number_of_archives : j.Int
    pub size_in_bytes : j.Int
    pub vault_arn : Bytes
    pub vault_name : Bytes

  abbrev pub new_description : VaultDescription
  new_description = record {
    creation_date = [];
    last_inventory_date = [];
    number_of_archives = j.zero_int;
    size_in_bytes = j.zero_int;
    vault_arn = [];
    vault_name = [];
  }

  -- COPY_VALUE_IF_NOT_NULL: a conversion that throws stops the whole, with `false`.
  abbrev pub copy_value_if_not_null :
      {A : Type 0}
      → j.Value
      → (j.Value → Option A)
      → (A → VaultDescription)
      → VaultDescription
      → Bool × VaultDescription
  copy_value_if_not_null v get set d = elim (j.is_null v) [
    | true ↦ (true, d)
    | false ↦ elim (get v) [ none ↦ (false, d) | some a ↦ (true, set a) ]
  ]

  abbrev pub and_then :
      Bool × VaultDescription
      → (VaultDescription → Bool × VaultDescription)
      → Bool × VaultDescription
  and_then (false, d) next = (false, d)
  and_then (true, d) next = next d

  abbrev pub copy_fields :
      j.Object
      → List (j.Object → VaultDescription → Bool × VaultDescription)
      → VaultDescription
      → Bool × VaultDescription
  copy_fields o [] d = (true, d)
  copy_fields o (f ∷ fs) d = and_then (f o d) (copy_fields o fs)

  abbrev pub description_fields : List (j.Object → VaultDescription → Bool × VaultDescription)
  description_fields =
      (λ o d.
        copy_value_if_not_null (j.find_value o (codes "CreationDate")) j.get_str
          (λ a. record d { creation_date = a }) d)
      ∷ (λ o d.
          copy_value_if_not_null (j.find_value o (codes "LastInventoryDate")) j.get_str
            (λ a. record d { last_inventory_date = a }) d)
      ∷ (λ o d.
          copy_value_if_not_null (j.find_value o (codes "NumberOfArchives")) j.get_int64
            (λ a. record d { number_of_archives = a }) d)
      ∷ (λ o d.
          copy_value_if_not_null (j.find_value o (codes "SizeInBytes")) j.get_int64
            (λ a. record d { size_in_bytes = a }) d)
      ∷ (λ o d.
          copy_value_if_not_null (j.find_value o (codes "VaultARN")) j.get_str
            (λ a. record d { vault_arn = a }) d)
      ∷ (λ o d.
          copy_value_if_not_null (j.find_value o (codes "VaultName")) j.get_str
            (λ a. record d { vault_name = a }) d)
      ∷ []

  unfoldable pub parse_json_vault_description :
      j.Object → VaultDescription → Bool × VaultDescription
  parse_json_vault_description o d = copy_fields o description_fields d

  -- GlacierVaultList.
  pub record VaultList : Type 0 where
    pub next_start_marker : Bytes
    pub vault_descriptions : List VaultDescription

  -- The loop of HandleListVaults: each round adds a description, which stays also when it is not
  -- an object or does not parse.
  unfoldable pub parse_vaults : List j.Value → VaultList → Bool × VaultList
  unfolding parse_json_vault_description
  parse_vaults [] l = (true, l)
  parse_vaults (v ∷ vs) l = elim (j.get_obj v) [
    | none ↦ (false, l)
    | some o ↦
        let parsed = parse_json_vault_description o new_description in
        let l' = record l { vault_descriptions = l.vault_descriptions ++ parsed.1 ∷ [] } in
        let rest = parse_vaults vs l' in elim parsed.0 [ true ↦ rest | false ↦ (false, l') ]
  ]
