-- ===== src/Bundle/Steps.antt =====
-- file/bundle.cc: the blocks and the bytes that a client adds to a payload.
use polar_express.Base.{
  ◌≡◌, refl, sym, ap, subst, ◌∙◌, not, some, List, [], ◌∷◌, ◌++◌, append-nil, append_assoc,
  bind-some, assert,
}
use polar_express.Bundle.{
  System, Bundle, is_null, add_block_metadata, add_to_payload, append_block_contents, append_data,
}
use polar_express.Bundle.Build.{
  Step, metadata, contents, Draft, run_step, run_steps, contents_of, blocks_of, contents_of-append,
  blocks_of-append, IsOpen,
}

abbrev with_steps : {Block : Type 0} → Draft Block → List (Step Block) → Draft Block
with_steps d ss = record d { steps = ss }

-- AddBlockMetadata and AppendBlockContents, in a payload.
step-IsOpen :
    {Block : Type 0} (sys : System) (ds : List (Draft Block)) (d : Draft Block)
    (ss : List (Step Block)) (s : Step Block) (b : Bundle Block)
    → IsOpen sys ds (with_steps d ss) b
    → (c : Bundle Block) × (run_step s b ≡ some c) × IsOpen sys ds (with_steps d (ss ++ s ∷ [])) c
unfolding run_step add_block_metadata add_to_payload append_block_contents
step-IsOpen sys ds d ss (metadata block) b o =
    let p = record o.payload { blocks = o.payload.blocks ++ block ∷ [] } in
    (
      record b { current_payload = some p },
      bind-some _ (ap (λ f. assert (not f)) o.unfinished)
          (ap (λ q. add_to_payload q block b) o.in_payload),
      record {
        payload = p;
        before = o.before;
        header = o.header;
        unfinished = o.unfinished;
        in_payload = refl;
        in_file = o.in_file;
        next_id = o.next_id;
        id = o.id;
        offset = o.offset;
        type = o.type;
        blocks =
            ap (λ bs. bs ++ block ∷ []) o.blocks ∙ sym (blocks_of-append ss (metadata block ∷ []));
        stored = o.stored;
        begun = o.begun;
        bytes =
            o.bytes
            ∙ ap (λ zs. o.before ++ (o.header ++ zs))
                (sym (contents_of-append ss (metadata block ∷ []) ∙ append-nil (contents_of ss)));
      },
    )
step-IsOpen sys ds d ss (contents xs) b o = (
  append_data xs b,
  bind-some _ (ap (λ f. assert (not f)) o.unfinished)
      (bind-some _ (ap (λ q. assert (not (is_null q))) o.in_payload) refl),
  record {
    payload = o.payload;
    before = o.before;
    header = o.header;
    unfinished = o.unfinished;
    in_payload = o.in_payload;
    in_file = o.in_file;
    next_id = o.next_id;
    id = o.id;
    offset = o.offset;
    type = o.type;
    blocks = o.blocks ∙ sym (blocks_of-append ss (contents xs ∷ []) ∙ append-nil (blocks_of ss));
    stored = o.stored;
    begun = o.begun;
    bytes =
        ap (λ zs. zs ++ xs) o.bytes
        ∙ append_assoc o.before (o.header ++ contents_of ss) xs
        ∙ ap (λ zs. o.before ++ zs) (append_assoc o.header (contents_of ss) xs)
        ∙ ap (λ zs. o.before ++ (o.header ++ zs))
            (ap (λ zs. contents_of ss ++ zs) (sym (append-nil xs))
              ∙ sym (contents_of-append ss (contents xs ∷ [])));
  },
)

pub steps-IsOpen :
    {Block : Type 0} (sys : System) (ds : List (Draft Block)) (d : Draft Block)
    (ss ts : List (Step Block)) (b : Bundle Block)
    → IsOpen sys ds (with_steps d ss) b
    → (c : Bundle Block) × (run_steps ts b ≡ some c) × IsOpen sys ds (with_steps d (ss ++ ts)) c
unfolding run_steps
steps-IsOpen sys ds d ss [] b o =
    (b, refl, subst (λ us. IsOpen sys ds (with_steps d us) b) (sym (append-nil ss)) o)
steps-IsOpen sys ds d ss (t ∷ ts) b o =
    let (b1, stepped, o1) = step-IsOpen sys ds d ss t b o in
    let (c, run, o2) = steps-IsOpen sys ds d (ss ++ t ∷ []) ts b1 o1 in
    (
      c,
      bind-some _ stepped run,
      subst (λ us. IsOpen sys ds (with_steps d us) c) (append_assoc ss (t ∷ []) ts) o2,
    )
