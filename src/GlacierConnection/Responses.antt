-- ===== src/GlacierConnection/Responses.antt =====
-- network/glacier-connection.cc: what the handlers of responses report.
use polar_express.Base.{
  ◌≡◌, refl, sym, List, codes, bytes_eq, bytes_eq_refl, bytes_eq→≡, Bool-cases, inl, inr, ap, ◌∙◌,
  ◌↔◌, ◌≢◌, ◌⊎◌, Bytes, [], ◌∷◌, Option, none, some, Bool, true, false, not, ◌&&◌, if◌then◌else◌,
  is_empty, ◌==◌, arith, some_inj, ℕ,
}
use polar_express.Http.{HttpResponse, KeyValue}
use polar_express.GlacierConnection.{Connection, clean_up_request_state, handle_operation_error}
use polar_express.GlacierConnection.Json.{Json, VaultDescription, parse_json_vault_description}
use polar_express.GlacierConnection.Described.{IsReadFrom, parse_json_vault_description_lem}
use polar_express.GlacierConnection.Handlers.{
  handle_create_vault, handle_flag, handle_delete_vault, handle_delete_archive,
  handle_upload_archive, find_archive_id, describe_with, handle_describe_vault, described,
  read_object,
}

-- The end of an operation: nothing is pending and the response is gone; the connection itself and
-- the requests that were sent are as before.
pub record IsEnded (before after : Connection) : Type 0 where
  pub not_pending : after.operation_pending ≡ false
  pub no_response : after.response ≡ none
  pub still_open : after.is_open ≡ before.is_open
  pub same_request : after.last_request_succeeded ≡ before.last_request_succeeded
  pub same_sent : after.sent ≡ before.sent
  pub same_strand : after.has_strand ≡ before.has_strand

-- A handler that sets a flag: it sets it when the request succeeded with that status.
abbrev pub Flagged : ℕ → Connection → HttpResponse → Option (Connection × Bool) → Type 0
Flagged status c r o =
    (c' : Connection) × (done : Bool) × (o ≡ some (c', done))
    × IsEnded c c'
    × (c'.last_operation_succeeded ≡ done)
    × ((done ≡ true) ↔ ((c.last_request_succeeded ≡ true) × (r.status_code ≡ status)))

handle_flag_lem :
    (status : ℕ) (c : Connection) (r : HttpResponse) (payload : Bytes)
    → c.response ≡ some (r, payload)
    → Flagged status c r (handle_flag status c)
unfolding handle_flag
handle_flag_lem status c r payload e = (
  clean_up_request_state (record c { last_operation_succeeded = done }),
  done,
  ground (arith, e),
  record {
    not_pending = refl;
    no_response = refl;
    still_open = refl;
    same_request = refl;
    same_sent = refl;
    same_strand = refl;
  },
  refl,
  ground arith,
)
  where
    done : Bool
    done = c.last_request_succeeded && (r.status_code == status)

-- When the response to the creation of a vault, or to the deletion of a vault or an archive, has
-- come, the handler ends the operation and reports success exactly if the request succeeded with
-- the status that Amazon gives for it: 201 for a creation and 204 for a deletion.
pub handle_flags_lem :
    (c : Connection) (r : HttpResponse) (payload : Bytes)
    → c.response ≡ some (r, payload)
    → Flagged 201 c r (handle_create_vault c)
      × Flagged 204 c r (handle_delete_vault c)
      × Flagged 204 c r (handle_delete_archive c)
unfolding handle_create_vault handle_delete_vault handle_delete_archive
handle_flags_lem c r payload e = (
  handle_flag_lem 201 c r payload e,
  handle_flag_lem 204 c r payload e,
  handle_flag_lem 204 c r payload e,
)

-- The value of the first header with a key.
abbrev pub IsFirst : Bytes → Bytes → List KeyValue → Type 0
IsFirst key value [] = ⊥
IsFirst key value (kv ∷ kvs) =
    ((kv.key ≡ key) × (kv.value ≡ value)) ⊎ ((kv.key ≢ key) × IsFirst key value kvs)

differ : (xs ys : Bytes) → bytes_eq xs ys ≡ false → xs ≢ ys
differ xs ys h e = conflict (sym (ap (bytes_eq xs) (sym e) ∙ bytes_eq_refl xs) ∙ h)
  where
    conflict : true ≡ false → ⊥
    conflict k = cc

-- The search finds the value of the first header for an archive's id, and nothing if there is none.
find_archive_id-IsFirst :
    (kvs : List KeyValue) (x : Bytes)
    → x ≢ []
    → (find_archive_id kvs ≡ x) ↔ IsFirst (codes "x-amz-archive-id") x kvs
unfolding find_archive_id
find_archive_id-IsFirst [] x h = (λ e. h (sym e), λ f. absurd f)
find_archive_id-IsFirst (kv ∷ kvs) x h =
    elim (Bool-cases (bytes_eq kv.key (codes "x-amz-archive-id"))) [
      | inl e ↦
          let same = bytes_eq→≡ kv.key (codes "x-amz-archive-id") e in
          rw e (
            λ f. inl (same, f),
            λ q. elim q [ inl (_, f) ↦ f | inr (other, _) ↦ absurd (other same) ],
          )
      | inr e ↦
          let other = differ kv.key (codes "x-amz-archive-id") e in
          let (to, from) = find_archive_id-IsFirst kvs x h in
          rw e (
            λ f. inr (other, to f),
            λ q. elim q [ inl (same, _) ↦ absurd (other same) | inr (_, f) ↦ from f ],
          )
    ]

-- When the response to an upload has come, the handler ends the operation. It reports an archive's
-- id, and success, exactly if the request succeeded with status 201 and the first header with the
-- key `x-amz-archive-id` is that id and not empty; otherwise the id is empty.
pub handle_upload_archive_lem :
    (c : Connection) (r : HttpResponse) (payload : Bytes)
    → c.response ≡ some (r, payload)
    → (c' : Connection) × (id : Bytes) × (handle_upload_archive c ≡ some (c', id))
      × IsEnded c c'
      × ((c'.last_operation_succeeded ≡ true) ↔ (id ≢ []))
      × ((x : Bytes)
          → x ≢ []
          → (id ≡ x) ↔ (
              (c.last_request_succeeded ≡ true)
              × (r.status_code ≡ 201)
              × IsFirst (codes "x-amz-archive-id") x r.response_headers))
unfolding handle_upload_archive
handle_upload_archive_lem c r payload e = (
  clean_up_request_state (record c { last_operation_succeeded = not (is_empty id) }),
  id,
  ground (arith, e),
  record {
    not_pending = refl;
    no_response = refl;
    still_open = refl;
    same_request = refl;
    same_sent = refl;
    same_strand = refl;
  },
  given id,
  λ x h.
      kept x h (find_archive_id r.response_headers)
        (find_archive_id-IsFirst r.response_headers x h),
)
  where
    accepted : Bool
    accepted = c.last_request_succeeded && (r.status_code == 201)

    id : Bytes
    id = if accepted then find_archive_id r.response_headers else []

    given : (x : Bytes) → (not (is_empty x) ≡ true) ↔ (x ≢ [])
    given [] = (λ h. cc, λ h. absurd (h refl))
    given (y ∷ x) = (λ _ h. cc, λ _. refl)

    kept :
        (x : Bytes)
        → x ≢ []
        → (y : Bytes) → (y ≡ x) ↔ IsFirst (codes "x-amz-archive-id") x r.response_headers
        → ((if accepted then y else []) ≡ x) ↔ (
            (c.last_request_succeeded ≡ true)
            × (r.status_code ≡ 201)
            × IsFirst (codes "x-amz-archive-id") x r.response_headers)
    kept x h y (to, from) = elim (Bool-cases accepted) [
      | inl a ↦ rw a (λ f. (ground arith, ground arith, to f), λ (_, _, f). from f)
      | inr a ↦ rw a (λ f. absurd (h (sym f)), λ (b, d, _). ground arith)
    ]

clean_up-IsEnded :
    (c : Connection) (b : Bool)
    → IsEnded c (clean_up_request_state (record c { last_operation_succeeded = b }))
clean_up-IsEnded c b = record {
  not_pending = refl;
  no_response = refl;
  still_open = refl;
  same_request = refl;
  same_sent = refl;
  same_strand = refl;
}

module _ (j : Json) where
  -- The object of a description, or none, and what becomes of the caller's description.
  abbrev pub IsDescribed :
      VaultDescription j
      → Connection
      → HttpResponse
      → Option j.Object
      → Connection × VaultDescription j
      → Type 0
  IsDescribed d c r o (c', d') =
      IsEnded c c'
      × ((c'.last_operation_succeeded ≡ true) ↔ (
          ((c.last_request_succeeded ≡ true) ⊎ (r.status_code ≡ 200))
          × ((x : j.Object) × (o ≡ some x) × IsReadFrom j x d d')))

  describe_with-IsDescribed :
      (d : VaultDescription j) (c : Connection) (r : HttpResponse) (o : Option j.Object)
      → IsDescribed d c r o (describe_with j d c r o)
  unfolding describe_with
  describe_with-IsDescribed d c r o =
      look (not c.last_request_succeeded && not (r.status_code == 200)) refl o
    where
      look :
          (b : Bool)
          → (not c.last_request_succeeded && not (r.status_code == 200)) ≡ b
          → (o : Option j.Object)
          → IsDescribed d c r o (if b then (handle_operation_error c, d) else described j d c o)
      look true e o = (clean_up-IsEnded c false, (λ h. cc, λ (h, _). ground arith))
      look false e none = (clean_up-IsEnded c false, (λ h. cc, λ (_, (x, h, _)). cc))
      look false e (some x) = (
        clean_up-IsEnded c (parse_json_vault_description j x d).0,
        (
          λ h. (
            ground arith,
            (
              x,
              refl,
              (parse_json_vault_description_lem j x d _).0
                  (ap (λ b. (b, (parse_json_vault_description j x d).1)) h),
            ),
          ),
          λ (_, (y, h, k)).
              ap (λ z. (parse_json_vault_description j z d).0) (some_inj h)
              ∙ ap (λ q. q.0) ((parse_json_vault_description_lem j y d _).1 k),
        ),
      )

  -- When the response to a description has come, the handler ends the operation. It counts as a
  -- success exactly if the request succeeded or the status is 200, the payload is an object, and
  -- each of the object's CreationDate, LastInventoryDate, VaultARN and VaultName is null or a string
  -- and each of NumberOfArchives and SizeInBytes null or an integer; the fields of the caller's
  -- description are then those that are not null.
  pub handle_describe_vault_lem :
      (d : VaultDescription j) (c : Connection) (r : HttpResponse) (payload : Bytes)
      → c.response ≡ some (r, payload)
      → (out : Connection × VaultDescription j) × (handle_describe_vault j d c ≡ some out)
        × IsDescribed d c r (read_object j payload) out
  unfolding handle_describe_vault
  handle_describe_vault_lem d c r payload e = (
    describe_with j d c r (read_object j payload),
    rw e refl,
    describe_with-IsDescribed d c r (read_object j payload),
  )
