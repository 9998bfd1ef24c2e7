-- ===== src/GlacierConnection/Handlers.antt =====
-- network/glacier-connection.cc: what happens when the response to an operation has come. Each
-- handler answers the connection and the caller's variable; it then calls the caller's callback.
use polar_express.Base.{
  ℕ, Bytes, List, [], ◌∷◌, Option, none, some, Bool, true, false, not, ◌||◌, ◌&&◌, if◌then◌else◌,
  is_empty, codes, bytes_eq, ◌==◌,
}
use polar_express.Http.{KeyValue, HttpResponse}
use polar_express.GlacierConnection.{
  Connection, clean_up_request_state, handle_operation_error, archive_id_header,
}
use polar_express.GlacierConnection.Json.{
  Json, VaultDescription, VaultList, parse_json_vault_description, parse_vaults,
}

-- A flag that is set when the response has one status: `none` is a response that is not there.
unfoldable pub handle_flag : ℕ → Connection → Option (Connection × Bool)
handle_flag status c = elim c.last_request_succeeded [
  | false ↦ some (clean_up_request_state (record c { last_operation_succeeded = false }), false)
  | true ↦ elim c.response [
    | none ↦ none
    | some (r, payload) ↦
        let done = r.status_code == status in
        some (clean_up_request_state (record c { last_operation_succeeded = done }), done)
  ]
]

unfoldable pub handle_create_vault : Connection → Option (Connection × Bool)
unfolding handle_flag
handle_create_vault c = handle_flag 201 c

unfoldable pub handle_delete_vault : Connection → Option (Connection × Bool)
unfolding handle_flag
handle_delete_vault c = handle_flag 204 c

unfoldable pub handle_delete_archive : Connection → Option (Connection × Bool)
unfolding handle_flag
handle_delete_archive c = handle_flag 204 c

-- The first header with the key of an archive's id.
unfoldable pub find_archive_id : List KeyValue → Bytes
unfolding bytes_eq
find_archive_id [] = []
find_archive_id (kv ∷ kvs) =
    if bytes_eq kv.key archive_id_header then kv.value else find_archive_id kvs

abbrev pub uploaded : HttpResponse → Connection → Connection × Bytes
uploaded r c =
    if not c.last_request_succeeded || not (r.status_code == 201)
    then (handle_operation_error c, [])
    else (
      clean_up_request_state (record c {
        last_operation_succeeded = not (is_empty (find_archive_id r.response_headers));
      }),
      find_archive_id r.response_headers,
    )

unfoldable pub handle_upload_archive : Connection → Option (Connection × Bytes)
handle_upload_archive c = elim c.response [
  | some (r, payload) ↦ some (uploaded r c)
  | none ↦ if not c.last_request_succeeded then some (handle_operation_error c, []) else none
]

module _ (j : Json) where
  abbrev pub ended : {A : Type 0} → Connection → Bool × A → Connection × A
  ended c (ok, a) = (clean_up_request_state (record c { last_operation_succeeded = ok }), a)

  -- What follows the reading of the payload.
  unfoldable pub described :
      VaultDescription j → Connection → Option j.Object → Connection × VaultDescription j
  unfolding parse_json_vault_description
  described d c none = (handle_operation_error c, d)
  described d c (some o) = ended c (parse_json_vault_description j o d)

  abbrev pub read_object : Bytes → Option j.Object
  read_object payload = elim (j.read payload) [ none ↦ none | some v ↦ j.get_obj v ]

  -- The status of the response, then what its payload is.
  unfoldable pub describe_with :
      VaultDescription j
      → Connection
      → HttpResponse
      → Option j.Object
      → Connection × VaultDescription j
  unfolding described
  describe_with d c r o =
      if not c.last_request_succeeded && not (r.status_code == 200)
      then (handle_operation_error c, d)
      else described d c o

  unfoldable pub handle_describe_vault :
      VaultDescription j → Connection → Option (Connection × VaultDescription j)
  unfolding describe_with
  handle_describe_vault d c = elim c.response [
    | none ↦ none
    | some (r, payload) ↦ some (describe_with d c r (read_object payload))
  ]

  -- The part of HandleListVaults that may throw: the marker, then the array of vaults.
  unfoldable pub list_array : j.Object → VaultList j → Bool × VaultList j
  unfolding parse_vaults
  list_array o l = elim (j.get_array (j.find_value o (codes "VaultList"))) [
    | none ↦ (false, l)
    | some vs ↦ parse_vaults j vs l
  ]

  unfoldable pub listed : VaultList j → Connection → Option j.Object → Connection × VaultList j
  unfolding list_array
  listed l c none = (handle_operation_error c, l)
  listed l c (some o) =
      let marker = j.find_value o (codes "Marker") in
      elim (j.is_null marker) [
        | true ↦ ended c (list_array o l)
        | false ↦ elim (j.get_str marker) [
          | none ↦ ended c (false, l)
          | some s ↦ ended c (list_array o (record l { next_start_marker = s }))
        ]
      ]

  unfoldable pub handle_list_vaults : VaultList j → Connection → Option (Connection × VaultList j)
  unfolding listed
  handle_list_vaults l c = elim c.response [
    | none ↦ none
    | some (r, payload) ↦ some (
        if not c.last_request_succeeded && not (r.status_code == 200)
        then (handle_operation_error c, l)
        else listed l c (read_object payload))
  ]
