-- ===== src/UploadMachine/Inputs.antt =====
-- state_machines/upload-state-machine.cc: the steps that look for the next bundle.
use polar_express.Base.{
  ◌≡◌, refl, subst, inl, inr, true, Option, none, some, [], ◌∷◌, if◌then◌else◌, arith, Bool-cases,
}
use polar_express.StateMachine.{set_idle}
use polar_express.GlacierConnection.{Settings}
use polar_express.GlacierConnection.Json.{Json}
use polar_express.UploadMachine.{
  State, wait_for_new_bundle, ready_to_upload, Event, new_bundle_ready, no_bundle_pending,
  flush_forced, wait_for_input, inspect_next_bundle, row, BundleData, Fields,
}
use polar_express.UploadMachine.Handlers.{handle, handle_inspect_next_bundle, handle_wait_for_input}
use polar_express.UploadMachine.Phase.{rests}
use polar_express.UploadMachine.Ready.{IsFresh, IsQuiet, IsStep, posting}

module _ (s : Settings) (j : Json) where
  pub step-wait_for_input :
      (f : Fields j) → IsQuiet f → IsStep s j ready_to_upload no_bundle_pending f
  unfolding handle row handle_wait_for_input
  step-wait_for_input f q = record {
    action = wait_for_input;
    to = wait_for_new_bundle;
    after = f;
    commands = if f.exit_requested then [] else (set_idle true ∷ []);
    phase = rests;
    row_is = refl;
    handle_is = refl;
    posts = ground arith;
    awaits = ground arith;
    is_ready = q;
    wakes = (refl, refl, refl);
  }

  -- InspectNextBundle, from a state whose row is known.
  pub step-inspect_next_bundle :
      (from : State) (e : Event) (f : Fields j)
      → row from e ≡ some (inspect_next_bundle, ready_to_upload)
      → IsQuiet f
      → IsStep s j from e f
  unfolding handle handle_inspect_next_bundle
  step-inspect_next_bundle from e f r q = look f.next_bundle refl
    where
      look : (o : Option BundleData) → f.next_bundle ≡ o → IsStep s j from e f
      look (some b) n =
          posting s j {to = ready_to_upload} {x = new_bundle_ready}
            {after = record f { current_bundle = some b; next_bundle = none }}
            {action = inspect_next_bundle} r (rw n refl)
            ((
              record {
                opened = record { has_strand = q.opened.has_strand; fresh = tt };
                not_pending = q.not_pending;
              },
              record {
                bundle = b;
                current = refl;
                not_uploaded = subst IsFresh n q.opened.fresh;
                no_next = refl;
              },
            ))
            (λ h. cc)
      look none n = elim (Bool-cases f.exit_requested) [
        | inl x ↦
            posting s j {to = ready_to_upload} {x = flush_forced}
              {after = record f { current_bundle = none }} {action = inspect_next_bundle} r
              (rw (n, x) refl) tt (λ h. cc)
        | inr x ↦
            posting s j {to = ready_to_upload} {x = no_bundle_pending}
              {after = record f { current_bundle = none }} {action = inspect_next_bundle} r
              (rw (n, x) refl)
              (record {
                opened = record { has_strand = q.opened.has_strand; fresh = q.opened.fresh };
                not_pending = q.not_pending;
              })
              (λ h. (n, x))
      ]
