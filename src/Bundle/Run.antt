-- ===== src/Bundle/Run.antt =====
-- file/bundle.cc: what each public method does to a bundle that is idle or open.
use polar_express.Base.{
  ℕ, suc, ◌-◌, ◌^◌, ◌<◌, ◌≡◌, refl, sym, ap, ◌∙◌, Bool, true, false, not, none, some, List, [], ◌∷◌,
  ◌++◌, Bytes, arith, length, All, All-append, length-append, append-nil, bind-some, assert, ltb,
  ltb→lt, ◌&&◌,
}
use polar_express.Tar.{tar_header_block_length}
use polar_express.Bundle.{
  System, IsUsual, CompressionType, Bundle, manifest, as_list, size, start_new_payload,
  end_current_file, end_payload, end_current_payload, start_new_file, payload_name,
  payload_filename_prefix, payload_filename_suffix, new_payload,
}
use polar_express.Bundle.Files.{start_new_file_lem, end_current_file_lem}
use polar_express.Bundle.Build.{Draft, contents_of, then_file, IsIdle, IsOpen}

length-snoc {ℓ} : {A : Type ℓ} (xs : List A) (x : A) → length (xs ++ x ∷ []) ≡ suc (length xs)
length-snoc xs x = omega (arith, length-append xs (x ∷ []))

-- A test that all numbers of a list are bytes.
abbrev pub are_bytes : Bytes → Bool
are_bytes [] = true
are_bytes (x ∷ xs) = ltb x 256 && are_bytes xs

pub are_bytes→All : (xs : Bytes) → are_bytes xs ≡ true → All (λ c. c < 256) xs
are_bytes→All [] h = tt
are_bytes→All (x ∷ xs) h =
    let (p, q) = and_true (ltb x 256) (are_bytes xs) h in (ltb→lt x 256 p, are_bytes→All xs q)
  where
    and_true : (a b : Bool) → (a && b) ≡ true → (a ≡ true) × (b ≡ true)
    and_true true b h = (refl, h)
    and_true false b h = absurd (ground arith)

pub payload_name-All :
    (sys : System) (id : ℕ) → IsUsual sys → All (λ c. c < 256) (payload_name sys id)
payload_name-All sys id usual =
    All-append (λ c. c < 256) (payload_filename_prefix ++ sys.to_string id) payload_filename_suffix
      (All-append (λ c. c < 256) payload_filename_prefix (sys.to_string id)
        (are_bytes→All payload_filename_prefix refl) (usual.digits id))
      (are_bytes→All payload_filename_suffix refl)

-- EndCurrentPayload, in a payload. Its size is what was appended to it.
pub end-IsOpen :
    {Block : Type 0} (sys : System) (now : ℕ) (ds : List (Draft Block)) (d : Draft Block)
    (b : Bundle Block)
    → IsOpen sys ds d b
    → length (contents_of d.steps) < 8 ^ 11
    → now < 8 ^ 11
    → (c : Bundle Block) × (end_current_payload now b ≡ some c)
      × IsIdle sys (ds ++ d ∷ []) c
      × (c.ended_payloads ≡ manifest b)
unfolding end_current_payload end_payload
end-IsOpen sys now ds d b o small early =
    let (ys, ended, file) =
      end_current_file_lem sys (payload_name sys o.payload.id) now o.before o.header
        (contents_of d.steps) b o.in_file o.bytes o.begun small early in
    let measured : size b - o.payload.offset - tar_header_block_length
        ≡ length (contents_of d.steps) =
      omega (
        arith,
        ap length o.bytes,
        length-append o.before (o.header ++ contents_of d.steps),
        length-append o.header (contents_of d.steps),
        o.offset,
        o.begun.block,
      ) in
    (
      record b {
        ended_payloads = b.ended_payloads ++ o.payload ∷ [];
        current_payload = none;
        bundle_data = o.before ++ ys;
        current_tar_header_block = none;
      },
      ap (λ p. end_payload p now b) o.in_payload
          ∙ bind-some _ (ap (λ n. end_current_file n now b) measured ∙ ended) refl,
      record {
        unfinished = o.unfinished;
        no_payload = refl;
        no_file = refl;
        next_id = o.next_id ∙ sym (length-snoc b.ended_payloads o.payload);
        stored =
            then_file ds b.ended_payloads o.before d o.payload ys o.stored o.id o.offset o.type
              o.blocks file;
      },
      ap (λ p. b.ended_payloads ++ as_list p) (sym o.in_payload),
    )

-- StartNewPayload, once the payload before it has ended.
begin-IsIdle :
    {Block : Type 0} (sys : System) (ds : List (Draft Block)) (type : CompressionType) (now : ℕ)
    (b : Bundle Block)
    → IsUsual sys
    → IsIdle sys ds b
    → (c : Bundle Block) × (start_new_file sys (payload_name sys b.next_payload_id) (record b {
      current_payload = some (new_payload type b);
      next_payload_id = suc b.next_payload_id;
    })
        ≡ some c)
      × IsOpen sys ds (record { compression_type = type; now = now; steps = [] }) c
begin-IsIdle sys ds type now b usual i =
    let p = new_payload type b in
    let b1 : Bundle _ = record b {
      current_payload = some p;
      next_payload_id = suc b.next_payload_id;
    } in
    let (h, started, begun) =
      start_new_file_lem sys (payload_name sys p.id) b1 usual (payload_name-All sys p.id usual)
        i.no_file in
    (
      record b1 { bundle_data = b.bundle_data ++ h; current_tar_header_block = some (size b) },
      started,
      record {
        payload = p;
        before = b.bundle_data;
        header = h;
        unfinished = i.unfinished;
        in_payload = refl;
        in_file = refl;
        next_id = ap suc i.next_id;
        id = i.next_id;
        offset = refl;
        type = refl;
        blocks = refl;
        stored = i.stored;
        begun = begun;
        bytes = ap (λ zs. b.bundle_data ++ zs) (sym (append-nil h));
      },
    )

-- StartNewPayload between two payloads.
pub start-IsIdle :
    {Block : Type 0} (sys : System) (ds : List (Draft Block)) (type : CompressionType) (now : ℕ)
    (b : Bundle Block)
    → IsUsual sys
    → IsIdle sys ds b
    → (c : Bundle Block) × (start_new_payload sys type now b ≡ some c)
      × IsOpen sys ds (record { compression_type = type; now = now; steps = [] }) c
unfolding start_new_payload end_current_payload end_payload
start-IsIdle sys ds type now b usual i =
    let (c, begun, o) =
      begin-IsIdle sys ds type now (record b { current_payload = none }) usual
        (record {
          unfinished = i.unfinished;
          no_payload = refl;
          no_file = i.no_file;
          next_id = i.next_id;
          stored = i.stored;
        }) in
    (
      c,
      bind-some _ (ap (λ f. assert (not f)) i.unfinished)
          (bind-some _ (ap (λ q. end_payload q now b) i.no_payload) begun),
      o,
    )

-- StartNewPayload in a payload.
pub start-IsOpen :
    {Block : Type 0} (sys : System) (ds : List (Draft Block)) (d : Draft Block)
    (type : CompressionType) (now : ℕ) (b : Bundle Block)
    → IsUsual sys
    → IsOpen sys ds d b
    → length (contents_of d.steps) < 8 ^ 11
    → now < 8 ^ 11
    → (c : Bundle Block) × (start_new_payload sys type now b ≡ some c)
      × IsOpen sys (ds ++ d ∷ []) (record { compression_type = type; now = now; steps = [] }) c
unfolding start_new_payload
start-IsOpen sys ds d type now b usual o small early =
    let (b1, ended, i, _) = end-IsOpen sys now ds d b o small early in
    let (c, begun, o1) = begin-IsIdle sys (ds ++ d ∷ []) type now b1 usual i in
    (c, bind-some _ (ap (λ f. assert (not f)) o.unfinished) (bind-some _ ended begun), o1)
