-- ===== src/UploadMachine/Turns.antt =====
-- state_machines/upload-state-machine.cc: what holds after a step of the engine, and after an answer.
use polar_express.Base.{
  ◌≡◌, refl, sym, ap, subst, ◌∙◌, ◌⊎◌, inl, inr, Bool, true, false, none, some, List, [], ◌∷◌, ◌++◌,
  arith, some_inj, length, length-append,
}
use polar_express.StateMachine.{Command}
use polar_express.StateMachine.Guide.{posted, awaited}
use polar_express.GlacierConnection.{Settings}
use polar_express.GlacierConnection.Json.{Json}
use polar_express.UploadMachine.{
  State, wait_for_connection, wait_for_new_bundle, ready_to_upload, wait_for_upload_to_complete,
  wait_for_updated_bundle_retrieval, Event, wait_for_vault_description, have_vault_description,
  wait_for_vault_creation, wait_for_upload_to_record, wait_for_bundle_to_delete, done,
  new_bundle_pending, row, Action, Fields,
}
use polar_express.UploadMachine.Handlers.{handle}
use polar_express.UploadMachine.Phase.{
  Phase, rests, waits, due, mains, queued, outstanding_of, is_note, is_no_bundle, unannounced,
  mains-append,
}
use polar_express.UploadMachine.Ready.{Ready, IsCalm, IsStep}
use polar_express.UploadMachine.Inputs.{step-inspect_next_bundle}
use polar_express.UploadMachine.Uploading.{step}
use polar_express.UploadMachine.Outside.{Served, Served-Ready, waits-Ready}
use polar_express.StateMachine.Protocol.{invoked_only}
use polar_express.UploadMachine.Held.{Holds, due-Ready, after_step}

module _ (s : Settings) (j : Json) where
  abbrev pub Turn : State → Event → List Event → List Event → Fields j → Type 0
  Turn st e es os f =
      ((row st e ≡ none) × Holds s j st es os f)
      ⊎ ((a : Action) × (st' : State) × (f' : Fields j) × (cs : List (Command Event)) × (row st e
            ≡ some (a, st'))
          × (handle s j a f ≡ some (f', cs))
          × Holds s j st' (es ++ posted cs) (os ++ awaited cs) f')

  turned :
      (from : State) (e : Event) (es os : List Event) (f : Fields j)
      → os ≡ []
      → mains es ≡ []
      → (unannounced from (e ∷ es) ≡ true → IsCalm f)
      → (is_no_bundle e ≡ true → from ≡ ready_to_upload)
      → IsStep s j from e f
      → Turn from e es os f
  turned from e es os f o m w at t = inr (
    t.action,
    t.to,
    t.after,
    t.commands,
    t.row_is,
    t.handle_is,
    subst (λ x. Holds s j t.to (es ++ posted t.commands) (x ++ awaited t.commands) t.after) (sym o)
        (after_step s j from e es f m w at t),
  )

  unheard :
      (st : State) (es os : List Event) (f : Fields j)
      → row st new_bundle_pending ≡ none
      → (unannounced st es ≡ true → unannounced st (new_bundle_pending ∷ es) ≡ true)
      → Holds s j st (new_bundle_pending ∷ es) os f
      → Turn st new_bundle_pending es os f
  unheard st es os f r k h = inl (
    r,
    record {
      phase = h.phase;
      in_queue = h.in_queue;
      outside = h.outside;
      is_ready = h.is_ready;
      awake = λ u. h.awake (k u);
    },
  )

  wakes_up :
      (es os : List Event) (f : Fields j) (p : Phase)
      → mains es ≡ queued p
      → os ≡ outstanding_of p
      → Ready wait_for_new_bundle p f
      → Turn wait_for_new_bundle new_bundle_pending es os f
  unfolding row
  wakes_up es os f rests m o q =
      turned wait_for_new_bundle new_bundle_pending es os f o m (λ u. cc) (λ n. cc)
        (step-inspect_next_bundle s j wait_for_new_bundle new_bundle_pending f refl q)
  wakes_up es os f (waits e) m o q = absurd q
  wakes_up es os f (due e) m o q = absurd q

  note :
      (st : State) (es os : List Event) (f : Fields j)
      → Holds s j st (new_bundle_pending ∷ es) os f
      → Turn st new_bundle_pending es os f
  unfolding row
  note wait_for_new_bundle es os f h = wakes_up es os f h.phase h.in_queue h.outside h.is_ready
  note ready_to_upload es os f h = unheard ready_to_upload es os f refl (λ u. u) h
  note wait_for_connection es os f h = unheard wait_for_connection es os f refl (λ u. u) h
  note wait_for_vault_description es os f h =
      unheard wait_for_vault_description es os f refl (λ u. u) h
  note have_vault_description es os f h = unheard have_vault_description es os f refl (λ u. u) h
  note wait_for_vault_creation es os f h = unheard wait_for_vault_creation es os f refl (λ u. u) h
  note wait_for_upload_to_complete es os f h =
      unheard wait_for_upload_to_complete es os f refl (λ u. u) h
  note wait_for_upload_to_record es os f h =
      unheard wait_for_upload_to_record es os f refl (λ u. u) h
  note wait_for_bundle_to_delete es os f h =
      unheard wait_for_bundle_to_delete es os f refl (λ u. u) h
  note wait_for_updated_bundle_retrieval es os f h =
      unheard wait_for_updated_bundle_retrieval es os f refl (λ u. u) h
  note done es os f h = unheard done es os f refl (λ u. u) h

  main :
      (st : State) (e : Event) (es os : List Event) (f : Fields j) (p : Phase)
      → is_note e ≡ false
      → mains (e ∷ es) ≡ queued p
      → os ≡ outstanding_of p
      → Ready st p f
      → (unannounced st (e ∷ es) ≡ true → IsCalm f)
      → Turn st e es os f
  main st e es os f rests n m o r w = absurd (ground (arith, n))
  main st e es os f (waits x) n m o r w = absurd (ground (arith, n))
  main st e es os f (due x) n m o r w =
      let same : e ≡ x = ground (arith, n) in
      let r' : Ready st (due e) f = subst (λ y. Ready st (due y) f) (sym same) r in
      turned st e es os f o (ground (arith, n)) w (due-Ready s j st e f r').1 (step s j st e f r')

  pub ran :
      (st : State) (e : Event) (es os : List Event) (f : Fields j)
      → Holds s j st (e ∷ es) os f
      → Turn st e es os f
  ran st new_bundle_pending es os f h = note st es os f h
  ran st e es os f h = main st e es os f h.phase refl h.in_queue h.outside h.is_ready h.awake

  pub served :
      (st : State) (e : Event) (es xs ys : List Event) (f f' : Fields j)
      → Holds s j st es (xs ++ e ∷ ys) f
      → Served e f f'
      → Holds s j st (es ++ e ∷ []) (xs ++ ys) f'
  served st e es xs ys f f' h v = look h.phase h.in_queue h.outside h.is_ready
    where
      look :
          (p : Phase)
          → mains es ≡ queued p
          → xs ++ e ∷ ys ≡ outstanding_of p
          → Ready st p f
          → Holds s j st (es ++ e ∷ []) (xs ++ ys) f'
      look rests m o r = absurd (omega (arith, ap length o, length-append xs (e ∷ ys)))
      look (due x) m o r = absurd (omega (arith, ap length o, length-append xs (e ∷ ys)))
      look (waits x) m o r =
          let (k, nothing, none_left) = invoked_only [] xs ys e (some x) o in
          let at : e ≡ x = sym (some_inj k) in
          let r' : Ready st (waits e) f = subst (λ y. Ready st (waits y) f) (sym at) r in
          let (n, u) = waits-Ready st e f r' in
          record {
            phase = due e;
            in_queue = mains-append es (e ∷ []) ∙ ap (λ z. z ++ mains (e ∷ [])) m ∙ rw n refl;
            outside = none_left;
            is_ready = Served-Ready st e f f' r' v;
            awake = λ t. absurd (not_false (sym t ∙ u (es ++ e ∷ [])));
          }
        where
          not_false : ◌≡◌ {A = Bool} true false → ⊥
          not_false h = cc
