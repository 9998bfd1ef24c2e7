-- ===== src/Bundle/Finish.antt =====
-- file/bundle.cc: whole bundles, from the constructor to Finalize.
use polar_express.Base.{
  ℕ, ◌*◌, ◌^◌, ◌<◌, ◌≡◌, refl, sym, ap, subst, ◌∙◌, true, false, not, none, some, List, [], ◌∷◌,
  ◌++◌, Bytes, length, replicate, All, All-append, append-nil, append_assoc, ◌>>=◌, bind-some,
  assert,
}
use polar_express.Tar.{tar_header_block_length}
use polar_express.Bundle.{
  System, IsUsual, Payload, Bundle, manifest, as_list, new, start_new_payload, end_payload,
  end_current_payload, append_file, append_serialized_manifest, finalize, manifest_filename,
  manifest_digest_filename,
}
use polar_express.Bundle.Files.{IsFile, append_file_lem}
use polar_express.Bundle.Build.{Draft, run_drafts, contents_of, Stored, nothing, IsIdle, IsOpen}
use polar_express.Bundle.Run.{are_bytes→All, end-IsOpen, start-IsIdle, start-IsOpen}
use polar_express.Bundle.Steps.{steps-IsOpen}

-- A bundle into which a client has put some payloads: it is idle, or in the last of them.
pub data Holds (sys : System) (Block : Type 0) : List (Draft Block) → Bundle Block → Type 0 where
  idle : (ds : List (Draft Block)) (b : Bundle Block) → IsIdle sys ds b → Holds sys Block ds b
  inside :
      (ds : List (Draft Block)) (d : Draft Block) (b : Bundle Block)
      → IsOpen sys ds d b
      → Holds sys Block (ds ++ d ∷ []) b

-- A draft whose bytes fit a file of the archive, and whose clock fits a header.
abbrev pub IsSmall : {Block : Type 0} → Draft Block → Type 0
IsSmall d = (length (contents_of d.steps) < 8 ^ 11) × (d.now < 8 ^ 11)

abbrev pub digest_text : System → Bytes → Bytes
digest_text sys text = sys.sha1_hex text ++ 10 ∷ []

-- A finished archive: a file for each payload, the manifest and its digest, and two empty blocks.
pub record IsArchive {Block : Type 0} (sys : System) (serialize : List (Payload Block) → Bytes)
    (ds : List (Draft Block)) (b : Bundle Block) : Type 0 where
  pub finished : b.is_finalized ≡ true
  pub payload_files : Bytes
  pub manifest_file : Bytes
  pub digest_file : Bytes
  pub stored : Stored sys Block ds (manifest b) payload_files
  pub manifest_is : IsFile sys manifest_filename (serialize (manifest b)) manifest_file
  pub digest_is :
      IsFile sys manifest_digest_filename (digest_text sys (serialize (manifest b))) digest_file
  pub parts :
      b.bundle_data
      ≡ payload_files ++ manifest_file ++ digest_file ++ replicate (tar_header_block_length * 2) 0

new-IsIdle : {Block : Type 0} (sys : System) → IsIdle {Block = Block} sys [] new
new-IsIdle sys = record {
  unfinished = refl;
  no_payload = refl;
  no_file = refl;
  next_id = refl;
  stored = nothing;
}

last-IsSmall :
    {Block : Type 0} (ds : List (Draft Block)) (d : Draft Block)
    → All IsSmall (ds ++ d ∷ [])
    → IsSmall d
last-IsSmall [] d p = p.0
last-IsSmall (e ∷ ds) d p = last-IsSmall ds d p.1

start-Holds :
    {Block : Type 0} (sys : System) (ds : List (Draft Block)) (d : Draft Block) (b : Bundle Block)
    → IsUsual sys
    → All IsSmall ds
    → IsSmall d
    → Holds sys Block ds b
    → (c : Bundle Block) × (start_new_payload sys d.compression_type d.now b ≡ some c)
      × IsOpen sys ds (record d { steps = [] }) c
start-Holds sys _ d _ usual smalls small (idle ds b i) =
    start-IsIdle sys ds d.compression_type d.now b usual i
start-Holds sys _ d _ usual smalls small (inside ds e b o) =
    start-IsOpen sys ds e d.compression_type d.now b usual o (last-IsSmall ds e smalls).0 small.1

run-Holds :
    {Block : Type 0} (sys : System) (ds es : List (Draft Block)) (b : Bundle Block)
    → IsUsual sys
    → All IsSmall ds
    → All IsSmall es
    → Holds sys Block ds b
    → (c : Bundle Block) × (run_drafts sys es b ≡ some c) × Holds sys Block (ds ++ es) c
unfolding run_drafts
run-Holds sys ds [] b usual p q h =
    (b, refl, subst (λ fs. Holds sys _ fs b) (sym (append-nil ds)) h)
run-Holds sys ds (e ∷ es) b usual p q h =
    let (b1, started, o1) = start-Holds sys ds e b usual p q.0 h in
    let (b2, stepped, o2) = steps-IsOpen sys ds e [] e.steps b1 o1 in
    let (c, run, h3) =
      run-Holds sys (ds ++ e ∷ []) es b2 usual (All-append IsSmall ds (e ∷ []) p (q.0, tt)) q.1
        (inside ds e b2 o2) in
    (
      c,
      bind-some _ (bind-some _ started stepped) run,
      subst (λ fs. Holds sys _ fs c) (append_assoc ds (e ∷ []) es) h3,
    )

-- EndCurrentPayload leaves the manifest's payloads as they are.
end-Holds :
    {Block : Type 0} (sys : System) (now : ℕ) (ds : List (Draft Block)) (b : Bundle Block)
    → All IsSmall ds
    → now < 8 ^ 11
    → Holds sys Block ds b
    → (c : Bundle Block) × (end_current_payload now b ≡ some c)
      × IsIdle sys ds c
      × (c.ended_payloads ≡ manifest b)
unfolding end_current_payload end_payload
end-Holds sys now _ _ p early (idle ds b i) = (
  record b { current_payload = none },
  ap (λ q. end_payload q now b) i.no_payload,
  record {
    unfinished = i.unfinished;
    no_payload = refl;
    no_file = i.no_file;
    next_id = i.next_id;
    stored = i.stored;
  },
  sym (append-nil b.ended_payloads) ∙ ap (λ q. b.ended_payloads ++ as_list q) (sym i.no_payload),
)
end-Holds sys now _ _ p early (inside ds d b o) =
    end-IsOpen sys now ds d b o (last-IsSmall ds d p).0 early

finish-IsIdle :
    {Block : Type 0} (sys : System) (serialize : List (Payload Block) → Bytes) (now1 now2 : ℕ)
    (ds : List (Draft Block)) (c : Bundle Block) (ps : List (Payload Block))
    → IsUsual sys
    → length (serialize ps) < 8 ^ 11
    → length (digest_text sys (serialize ps)) < 8 ^ 11
    → now1 < 8 ^ 11
    → now2 < 8 ^ 11
    → IsIdle sys ds c
    → c.ended_payloads ≡ ps
    → (m : Bytes) × (g : Bytes) × (append_serialized_manifest sys serialize now1 now2 c
        ≡ some
            (record c { bundle_data = c.bundle_data ++ m ++ g; current_tar_header_block = none }))
      × IsFile sys manifest_filename (serialize ps) m
      × IsFile sys manifest_digest_filename (digest_text sys (serialize ps)) g
unfolding append_serialized_manifest
finish-IsIdle sys serialize now1 now2 ds c ps usual fits fits_digest early1 early2 i e =
    let text = serialize ps in
    let same : manifest c ≡ ps =
      ap (λ q. c.ended_payloads ++ as_list q) i.no_payload ∙ append-nil c.ended_payloads ∙ e in
    let (m, made, file) =
      append_file_lem sys manifest_filename text now1 c usual (are_bytes→All manifest_filename refl)
        i.no_file fits early1 in
    let d : Bundle _ = record c {
      bundle_data = c.bundle_data ++ m;
      current_tar_header_block = none;
    } in
    let (g, made', file') =
      append_file_lem sys manifest_digest_filename (digest_text sys text) now2 d usual
        (are_bytes→All manifest_digest_filename refl) refl fits_digest early2 in
    (
      m,
      g,
      ap
            (λ qs.
              append_file sys manifest_filename (serialize qs) now1 c
              >>= append_file sys manifest_digest_filename (digest_text sys (serialize qs)) now2)
            same
          ∙ bind-some _ made made',
      file,
      file',
    )

Holds-unfinished :
    {Block : Type 0} (sys : System) (ds : List (Draft Block)) (b : Bundle Block)
    → Holds sys Block ds b
    → b.is_finalized ≡ false
Holds-unfinished sys _ _ (idle ds b i) = i.unfinished
Holds-unfinished sys _ _ (inside ds d b o) = o.unfinished

-- Finalize, for a bundle into which a client has put some payloads.
finalize-Holds :
    {Block : Type 0} (sys : System) (serialize : List (Payload Block) → Bytes) (now0 now1 now2 : ℕ)
    (ds : List (Draft Block)) (b : Bundle Block)
    → IsUsual sys
    → All IsSmall ds
    → length (serialize (manifest b)) < 8 ^ 11
    → length (digest_text sys (serialize (manifest b))) < 8 ^ 11
    → (now0 < 8 ^ 11) × ((now1 < 8 ^ 11) × (now2 < 8 ^ 11))
    → Holds sys Block ds b
    → (c : Bundle Block) × (finalize sys serialize now0 now1 now2 b ≡ some c)
      × (manifest c ≡ manifest b)
      × IsArchive sys serialize ds c
unfolding finalize
finalize-Holds sys serialize now0 now1 now2 ds b usual p fits fits_digest early h =
    let (c, ended, i, same) = end-Holds sys now0 ds b p early.0 h in
    let (m, g, made, file, file') =
      finish-IsIdle sys serialize now1 now2 ds c (manifest b) usual fits fits_digest early.1.0
        early.1.1 i same in
    let whole : manifest c ≡ manifest b =
      ap (λ q. c.ended_payloads ++ as_list q) i.no_payload ∙ append-nil c.ended_payloads ∙ same in
    (
      record c {
        bundle_data = c.bundle_data ++ m ++ g ++ replicate (tar_header_block_length * 2) 0;
        current_tar_header_block = none;
        is_finalized = true;
      },
      bind-some _ (ap (λ f. assert (not f)) (Holds-unfinished sys ds b h))
          (bind-some _ ended (bind-some _ made refl)),
      whole,
      record {
        finished = refl;
        payload_files = c.bundle_data;
        manifest_file = m;
        digest_file = g;
        stored = subst (λ ps. Stored sys _ ds ps c.bundle_data) (same ∙ sym whole) i.stored;
        manifest_is = subst (λ ps. IsFile sys manifest_filename (serialize ps) m) (sym whole) file;
        digest_is =
            subst (λ ps. IsFile sys manifest_digest_filename (digest_text sys (serialize ps)) g)
              (sym whole) file';
        parts = refl;
      },
    )

-- A client may put any payloads into a new bundle: if the user's and the group's number, the clock
-- and the sizes of the payloads fit their fields, no assertion fails. If the manifest's text fits
-- too, Finalize then succeeds and leaves the archive of those payloads. It has one file for each
-- payload, whose contents are what was appended to it and whose offset is that of its header; the
-- manifest lists them in order, with their blocks; the manifest, its digest and two empty blocks
-- follow. Each header is complete, with a right checksum.
pub archive_lem :
    {Block : Type 0} (sys : System) (serialize : List (Payload Block) → Bytes) (now0 now1 now2 : ℕ)
    (ds : List (Draft Block))
    → IsUsual sys
    → All IsSmall ds
    → (now0 < 8 ^ 11) × ((now1 < 8 ^ 11) × (now2 < 8 ^ 11))
    → ((b : Bundle Block)
        → run_drafts sys ds new ≡ some b
        → (length (serialize (manifest b)) < 8 ^ 11)
          × (length (digest_text sys (serialize (manifest b))) < 8 ^ 11))
    → (b : Bundle Block) × (c : Bundle Block) × (run_drafts sys ds new ≡ some b)
      × (finalize sys serialize now0 now1 now2 b ≡ some c)
      × (manifest c ≡ manifest b)
      × IsArchive sys serialize ds c
archive_lem sys serialize now0 now1 now2 ds usual p early fits =
    let (b, built, h) = run-Holds sys [] ds new usual tt p (idle [] new (new-IsIdle sys)) in
    let (c, finished, same, archive) =
      finalize-Holds sys serialize now0 now1 now2 ds b usual p (fits b built).0 (fits b built).1
        early h in
    (b, c, built, finished, same, archive)
