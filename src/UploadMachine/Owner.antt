-- ===== src/UploadMachine/Owner.antt =====
-- state_machines/upload-state-machine.cc: the public methods, and what holds after a call of them.
use polar_express.Base.{
  ◌≡◌, refl, sym, ap, subst, ◌∙◌, inl, inr, Bool, true, false, Option, none, some, List, [], ◌∷◌,
  ◌++◌, Bytes, ◌>>◌, assert, some_inj, append-nil,
}
use polar_express.StateMachine.{Command, post, external}
use polar_express.StateMachine.Guide.{posted, awaited}
use polar_express.GlacierConnection.{Settings}
use polar_express.GlacierConnection.Json.{Json}
use polar_express.UploadMachine.{
  State, wait_for_connection, wait_for_updated_bundle_retrieval, Event, connection_ready,
  new_bundle_pending, updated_bundle_retrieved, BundleData, Fields, is_none,
}
use polar_express.UploadMachine.Handlers.{
  upload_bundle, finish_and_exit, retrieve_last_uploaded_bundle, internal_start, Result,
}
use polar_express.UploadMachine.Phase.{
  Phase, rests, waits, due, mains, queued, outstanding_of, mains-append, unannounced,
  unannounced-note,
}
use polar_express.UploadMachine.Ready.{Ready}
use polar_express.UploadMachine.Calls.{IsMild, Ready-mild}
use polar_express.UploadMachine.Held.{Holds, Call, starts, uploads, finishes, retrieves, drops}

module _ (s : Settings) (j : Json) where
  -- A call that posts a note and changes the fields mildly.
  noted :
      (st : State) (es os : List Event) (f f' : Fields j) (cs : List (Command Event))
      → cs ≡ post new_bundle_pending ∷ []
      → IsMild st f f'
      → Holds s j st es os f
      → Holds s j st (es ++ posted cs) (os ++ awaited cs) f'
  noted st es os f f' cs c m h = rw c (record {
    phase = h.phase;
    in_queue = mains-append es (new_bundle_pending ∷ []) ∙ append-nil (mains es) ∙ h.in_queue;
    outside = append-nil os ∙ h.outside;
    is_ready = Ready-mild st h.phase f f' m h.is_ready;
    awake = λ u. absurd (no u (unannounced-note st es));
  })
    where
      no : {b : Bool} → b ≡ true → b ≡ false → ⊥
      no e e' = cc

  upload_bundle-back :
      (b : BundleData) (f f' : Fields j) (cs : List (Command Event))
      → upload_bundle s j b f ≡ some (f', cs)
      → (f.next_bundle ≡ none)
        × (f' ≡ record f { next_bundle = some b })
        × (cs ≡ post new_bundle_pending ∷ [])
  unfolding upload_bundle
  upload_bundle-back b f f' cs h = look f.next_bundle refl h
    where
      given : Option BundleData → Result s j
      given o =
          assert (is_none o)
          >> some (record f { next_bundle = some b }, post new_bundle_pending ∷ [])

      look :
          (o : Option BundleData)
          → f.next_bundle ≡ o
          → given o ≡ some (f', cs)
          → (f.next_bundle ≡ none)
            × (f' ≡ record f { next_bundle = some b })
            × (cs ≡ post new_bundle_pending ∷ [])
      look none e k = (e, sym (ap (λ x. x.0) (some_inj k)), sym (ap (λ x. x.1) (some_inj k)))
      look (some c) e k = cc

  internal_start-back :
      (name : Bytes) (f f' : Fields j) (cs : List (Command Event))
      → internal_start s j name f ≡ some (f', cs)
      → (f'
          ≡ record f { vault_name = name; connection = record f.connection { has_strand = true } })
        × (cs ≡ external connection_ready ∷ [])
  unfolding internal_start
  internal_start-back [] f f' cs h = cc
  internal_start-back (c ∷ name) f f' cs h =
      (sym (ap (λ x. x.0) (some_inj h)), sym (ap (λ x. x.1) (some_inj h)))

  started :
      (es os : List Event) (f : Fields j) (name : Bytes)
      → f.connection.has_strand ≡ false
      → Holds s j wait_for_connection es os f
      → Holds s j wait_for_connection
          (es ++ [])
          (os ++ connection_ready ∷ [])
          (record f { vault_name = name; connection = record f.connection { has_strand = true } })
  started es os f name n h = look h.phase h.in_queue h.outside h.is_ready
    where
      no : {b : Bool} → b ≡ true → b ≡ false → ⊥
      no e e' = cc

      look :
          (p : Phase)
          → mains es ≡ queued p
          → os ≡ outstanding_of p
          → Ready wait_for_connection p f
          → Holds s j wait_for_connection (es ++ []) (os ++ connection_ready ∷ []) (record f {
            vault_name = name;
            connection = record f.connection { has_strand = true };
          })
      look rests m o (x, c, q, v) = record {
        phase = waits connection_ready;
        in_queue = ap mains (append-nil es) ∙ m;
        outside = ap (λ y. y ++ connection_ready ∷ []) o;
        is_ready =
            (record { opened = record { has_strand = refl; fresh = x }; not_pending = q }, c, v);
        awake = λ u. cc;
      }
      look (waits connection_ready) m o (q, c, v) = absurd (no q.opened.has_strand n)
      look (due connection_ready) m o (q, c, v) = absurd (no q.opened.has_strand n)
      look _ m o r = absurd r

  retrieved :
      (es os : List Event) (f : Fields j)
      → mains es ≡ []
      → Holds s j wait_for_updated_bundle_retrieval es os f
      → Holds s j wait_for_updated_bundle_retrieval
          (es ++ updated_bundle_retrieved ∷ [])
          (os ++ [])
          f
  retrieved es os f m h = look h.phase h.in_queue h.outside h.is_ready
    where
      look :
          (p : Phase)
          → mains es ≡ queued p
          → os ≡ outstanding_of p
          → Ready wait_for_updated_bundle_retrieval p f
          → Holds s j wait_for_updated_bundle_retrieval
              (es ++ updated_bundle_retrieved ∷ [])
              (os ++ [])
              f
      look rests k o q = record {
        phase = due updated_bundle_retrieved;
        in_queue =
            mains-append es (updated_bundle_retrieved ∷ [])
            ∙ ap (λ x. x ++ updated_bundle_retrieved ∷ []) m;
        outside = append-nil os ∙ o;
        is_ready = q;
        awake = λ u. cc;
      }
      look (due e) k o q = absurd (two (sym m ∙ k))
        where
          two : [] ≡ e ∷ [] → ⊥
          two h = cc
      look (waits e) k o q = absurd q

  pub called :
      (st : State) (es os : List Event) (f f' : Fields j) (cs : List (Command Event))
      → Holds s j st es os f
      → Call s j st es f f' cs
      → Holds s j st (es ++ posted cs) (os ++ awaited cs) f'
  unfolding finish_and_exit retrieve_last_uploaded_bundle
  called st es os f f' cs h (starts name n e) =
      let (is, c) = internal_start-back name f f' cs e in rw (is, c) (started es os f name n h)
  called st es os f f' cs h (uploads b fresh ok e) =
      let (n, is, c) = upload_bundle-back b f f' cs e in
      subst (λ x. Holds s j st (es ++ posted cs) (os ++ awaited cs) x) (sym is)
        (noted st es os f (record f { next_bundle = some b }) cs c
          (record {
            strand = refl;
            pending = refl;
            closed = λ c. c;
            found = λ c. c;
            fresh = λ _. fresh;
            current = refl;
            attempted = refl;
            was_created = refl;
            next = λ k b' at. elim ok [
              | inl x ↦ absurd (some_none (sym at ∙ x))
              | inr x ↦ absurd (k x)
            ];
            well = λ _ w. w;
          })
          h)
    where
      some_none : {b' : BundleData} → some b' ≡ none → ⊥
      some_none x = cc
  called st es os f f' cs h (finishes e) =
      let is : record f { exit_requested = true } ≡ f' = ap (λ x. x.0) (some_inj e) in
      let c : post new_bundle_pending ∷ [] ≡ cs = ap (λ x. x.1) (some_inj e) in
      subst (λ x. Holds s j st (es ++ posted cs) (os ++ awaited cs) x) is
        (noted st es os f (record f { exit_requested = true }) cs (sym c)
          (record {
            strand = refl;
            pending = refl;
            closed = λ c. c;
            found = λ c. c;
            fresh = λ x. x;
            current = refl;
            attempted = refl;
            was_created = refl;
            next = λ _ _ _. refl;
            well = λ _ w. w;
          })
          h)
  called st es os f f' cs h (retrieves m e) =
      let is : f ≡ f' = ap (λ x. x.0) (some_inj e) in
      let c : updated_bundle_retrieved ∷ [] ≡ posted cs = ap (λ x. posted x.1) (some_inj e) in
      let d : [] ≡ awaited cs = ap (λ x. awaited x.1) (some_inj e) in
      rw (← is, ← c, ← d) (retrieved es os f m h)
  called st es os f f' cs h (drops n is c) =
      rw (is, c)
        (record {
          phase = h.phase;
          in_queue = ap mains (append-nil es) ∙ h.in_queue;
          outside = append-nil os ∙ h.outside;
          is_ready =
              Ready-mild st h.phase f
                (record f { connection = record f.connection { is_open = false } })
                (record {
                  strand = refl;
                  pending = refl;
                  closed = λ _. refl;
                  found = λ x _ i. absurd (false_true i);
                  fresh = λ x. x;
                  current = refl;
                  attempted = refl;
                  was_created = refl;
                  next = λ _ _ _. refl;
                  well = λ at. absurd (n at);
                })
                h.is_ready;
          awake = λ u. h.awake (ap (unannounced st) (sym (append-nil es)) ∙ u);
        })
    where
      false_true : ◌≡◌ {A = Bool} false true → ⊥
      false_true i = cc
