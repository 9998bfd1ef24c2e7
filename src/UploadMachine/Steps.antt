-- ===== src/UploadMachine/Steps.antt =====
-- state_machines/upload-state-machine.cc: each step that the events allow, and that its handler's
-- assertions hold.
use polar_express.Base.{
  ◌≡◌, refl, sym, ap, ◌∙◌, inl, inr, Bool, true, false, not, ◌||◌, Option, none, some, [], ◌∷◌,
  ◌++◌, Bytes, bytes_eq, bytes_eq_refl, if◌then◌else◌, ◌>>◌, assert, arith, Bool-cases,
}
use polar_express.StateMachine.{post, external}
use polar_express.GlacierConnection.{
  Settings, close, describe_vault, vault_request, vault_path_prefix,
}
use polar_express.GlacierConnection.Pending.{has_strand-begin}
use polar_express.GlacierConnection.Unsent.{begin-starts}
use polar_express.GlacierConnection.Json.{Json}
use polar_express.Http.{get}
use polar_express.UploadMachine.{
  State, wait_for_connection, wait_for_vault_description, have_vault_description, Event,
  connection_ready, connection_closed, vault_description_ready, vault_missing, vault_ok,
  reopen_connection, get_vault_description, inspect_vault_description, row, BundleData, Fields,
  has_failed,
}
use polar_express.UploadMachine.Handlers.{
  Result, handle, handle_reopen_connection, handle_get_vault_description,
  handle_inspect_vault_description,
}
use polar_express.UploadMachine.Ready.{
  IsQuiet, IsClosed, HasNone, IsSettled, IsFound, IsHolding, IsStep, posting, awaiting,
}

module _ (s : Settings) (j : Json) where
  reopen-none :
      (f : Fields j)
      → IsQuiet f
      → HasNone f
      → IsClosed f
      → handle_reopen_connection s j f ≡ some (f, external connection_ready ∷ [])
  unfolding handle_reopen_connection
  reopen-none f q n c = rw (n, q.opened.has_strand, c) refl

  abbrev taken_back : BundleData → Fields j → Fields j
  taken_back b f = record f {
    next_bundle = some b;
    current_bundle = none;
    attempted_vault_creation = false;
  }

  reopen-holding :
      (f : Fields j)
      → IsQuiet f
      → (h : IsHolding f) → IsClosed f
      → handle_reopen_connection s j f
        ≡ some (taken_back h.bundle f, external connection_ready ∷ [])
  unfolding handle_reopen_connection
  reopen-holding f q h c = rw (h.current, h.no_next, q.opened.has_strand, c) refl

  -- Reopening with no bundle under way, from a state whose row is known.
  pub step-reopen-none :
      (from : State) (f : Fields j)
      → row from connection_closed ≡ some (reopen_connection, wait_for_connection)
      → IsQuiet f × HasNone f × IsSettled f × IsClosed f
      → IsStep s j from connection_closed f
  unfolding handle
  step-reopen-none from f r (q, n, v, c) =
      awaiting s j {to = wait_for_connection} {x = connection_ready} {after = f}
        {action = reopen_connection} r (reopen-none f q n c) ((q, n, v)) tt

  pub step-reopen-holding :
      (from : State) (f : Fields j)
      → row from connection_closed ≡ some (reopen_connection, wait_for_connection)
      → IsQuiet f × IsHolding f × IsClosed f
      → IsStep s j from connection_closed f
  unfolding handle
  step-reopen-holding from f r (q, h, c) =
      awaiting s j {to = wait_for_connection} {x = connection_ready} {after = taken_back h.bundle f}
        {action = reopen_connection} r (reopen-holding f q h c)
        ((
          record {
            opened = record { has_strand = q.opened.has_strand; fresh = h.not_uploaded };
            not_pending = q.not_pending;
          },
          refl,
          λ e. cc,
        ))
        tt

  pub asserted :
      {A : Type 0} (x y : Bool) {r : Option A}
      → x ≡ true
      → y ≡ true
      → (assert x >> (assert y >> r)) ≡ r
  asserted true true e e' = refl
  asserted true false e e' = cc
  asserted false y e e' = cc

  settled : (a b : Bool) → (a ≡ true → b ≡ true) → (not a || b) ≡ true
  settled true b h = h refl
  settled false b h = refl

  describe_vault-starts :
      (f : Fields j)
      → IsQuiet f
      → f.connection.is_open ≡ true
      → (describe_vault s f.vault_name f.connection).0 ≡ true
  unfolding describe_vault
  describe_vault-starts f q o =
      ap (λ x. x.0)
        (begin-starts s false (vault_request s get (vault_path_prefix ++ f.vault_name)) [] []
          f.connection o q.not_pending refl)

  describe_vault-keeps :
      (f : Fields j) → IsQuiet f → (describe_vault s f.vault_name f.connection).1.has_strand ≡ true
  unfolding describe_vault
  describe_vault-keeps f q =
      has_strand-begin s false (vault_request s get (vault_path_prefix ++ f.vault_name)) [] []
        f.connection
      ∙ q.opened.has_strand

  get_vault_description-open :
      (f : Fields j)
      → f.connection.is_open ≡ true
      → IsSettled f
      → (describe_vault s f.vault_name f.connection).0 ≡ true
      → handle_get_vault_description s j f
        ≡ some (
          record f { connection = (describe_vault s f.vault_name f.connection).1 },
          external vault_description_ready ∷ [],
        )
  unfolding handle_get_vault_description
  get_vault_description-open f o v d =
      ap (λ x. if not x then some (f, post connection_closed ∷ []) else asked) o
      ∙ asserted _ _ (settled f.attempted_vault_creation f.vault_was_created v) d
    where
      asked : Result s j
      asked =
          assert (not f.attempted_vault_creation || f.vault_was_created)
          >> (assert (describe_vault s f.vault_name f.connection).0
              >> some (
                record f { connection = (describe_vault s f.vault_name f.connection).1 },
                external vault_description_ready ∷ [],
              ))

  pub step-get_vault_description :
      (from : State) (e : Event) (f : Fields j)
      → row from e ≡ some (get_vault_description, wait_for_vault_description)
      → IsQuiet f × HasNone f × IsSettled f
      → IsStep s j from e f
  unfolding handle handle_get_vault_description
  step-get_vault_description from e f r (q, n, v) = elim (Bool-cases f.connection.is_open) [
    | inr c ↦
        posting s j {to = wait_for_vault_description} {x = connection_closed} {after = f}
          {action = get_vault_description} r (rw c refl) ((q, n, v, c)) tt
    | inl o ↦
        awaiting s j {to = wait_for_vault_description} {x = vault_description_ready}
          {after = record f { connection = (describe_vault s f.vault_name f.connection).1 }}
          {action = get_vault_description} r
          (get_vault_description-open f o v (describe_vault-starts f q o))
          ((record { has_strand = describe_vault-keeps f q; fresh = q.opened.fresh }, n, v)) tt
  ]

  pub closed-lem :
      (f : Fields j) → IsQuiet f → IsQuiet (record f { connection = close f.connection })
  closed-lem f q = record {
    opened = record { has_strand = q.opened.has_strand; fresh = q.opened.fresh };
    not_pending = q.not_pending;
  }

  pub step-inspect_vault_description :
      (f : Fields j)
      → IsQuiet f × HasNone f × IsSettled f × IsFound f
      → IsStep s j wait_for_vault_description vault_description_ready f
  unfolding handle row handle_inspect_vault_description
  step-inspect_vault_description f (q, n, v, x) = elim (Bool-cases (has_failed f.connection)) [
    | inl e ↦
        posting s j {to = have_vault_description} {x = connection_closed}
          {after = record f { connection = close f.connection }}
          {action = inspect_vault_description} refl (rw e refl) ((closed-lem f q, n, v, refl)) tt
    | inr e ↦ elim (Bool-cases (bytes_eq f.vault_description.vault_name f.vault_name)) [
      | inl k ↦
          posting s j {to = have_vault_description} {x = vault_ok} {after = f}
            {action = inspect_vault_description} refl (rw (e, k) refl) q tt
      | inr k ↦
          posting s j {to = have_vault_description} {x = vault_missing} {after = f}
            {action = inspect_vault_description} refl (rw (e, k) refl) ((q, n, missing e k)) tt
    ]
  ]
    where
      missing :
          has_failed f.connection ≡ false
          → bytes_eq f.vault_description.vault_name f.vault_name ≡ false
          → f.attempted_vault_creation ≡ false
      missing e k = elim (Bool-cases f.attempted_vault_creation) [
        | inr a ↦ a
        | inl a ↦ absurd (no (x (v a) (ground (arith, e)) (ground (arith, e))) k)
      ]
        where
          no : {a b : Bytes} → a ≡ b → bytes_eq a b ≡ false → ⊥
          no {a} {b} e k = absurd (contra (sym (bytes_eq_refl a) ∙ ap (bytes_eq a) e ∙ k))
            where
              contra : ◌≡◌ {A = Bool} true false → ⊥
              contra h = cc
