-- ===== src/SnapshotMachine/Run.antt =====
-- state_machines/snapshot-state-machine.cc: a whole run of the machine, with its services.
use polar_express.Base.{
  ℕ, zero, suc, ◌≡◌, refl, Bool, true, false, Option, none, some, List, [], ◌∷◌, Bytes, ◌>>=◌, ◌⊎◌,
  ◌↔◌, inl, inr,
}
use polar_express.StateMachine.{
  Machine, new, run_next_event, obey_all, post_event_callback, process_event, finish_run, enter,
}
use polar_express.SnapshotMachine.Compare.{
  SameContents, SameMetadata, file_contents_equal_lem, all_metadata_equal_lem,
}
use polar_express.SnapshotMachine.{
  Snapshot, file_contents_equal, all_metadata_equal, State, Event, row, Fields, initial, inspected,
  handle, internal_start, definition,
}

conflict : false ≡ true → ⊥
conflict h = cc

-- What the services find: the file's snapshot, the one before, and the digest of the contents.
pub record Findings : Type 0 where
  pub candidate : Snapshot
  pub previous : Snapshot
  pub digest : Option Bytes

abbrev pub hashed : Findings → Snapshot
hashed w = record w.candidate { sha1_digest = w.digest }

-- What a service leaves in the machine's fields before it invokes the callback for an event.
abbrev serve : Findings → Event → Fields → Fields
serve w Event.candidate_snapshot_ready f = record f { candidate_snapshot = some w.candidate }
serve w Event.previous_snapshot_ready f = record f { previous_snapshot = some w.previous }
serve w Event.chunk_hashes_ready f = record f { candidate_snapshot = some (hashed w) }
serve w _ f = f

abbrev pub Run : Type 0
Run = Machine State Event Fields

-- The next thing that happens: a task runs, or else a service answers, or else nothing is left.
unfoldable advance : Findings → List Bool → List Event → Run → Option Run
unfolding run_next_event
advance w (t ∷ ts) os m = run_next_event definition t (record m { tasks = ts })
advance w [] (e ∷ es) m =
    some (post_event_callback e true (record m { outstanding = es; fields = serve w e m.fields }))
advance w [] [] m = some m

unfoldable pub drive : ℕ → Findings → Run → Option Run
unfolding advance
drive zero w m = some m
drive (suc n) w m = advance w m.tasks m.outstanding m >>= drive n w

-- Start, on a new machine.
unfoldable pub started : Bytes → Bytes → Run
unfolding internal_start obey_all
started root filepath =
    let (f, cs) = internal_start root filepath initial in
    obey_all cs (record (new State.wait_for_new_file_path initial) { fields = f })

-- The snapshot that is to be generated, by the two comparisons.
abbrev pub expected_by : Bool → Bool → Findings → Option Snapshot
expected_by true b w = none
expected_by false true w = some w.candidate
expected_by false false w = some (hashed w)

abbrev pub expected : Findings → Option Snapshot
expected w =
    expected_by (all_metadata_equal w.candidate w.previous)
      (file_contents_equal w.candidate w.previous) w

-- The snapshot that is to be generated, by the fields that changed.
abbrev pub IsExpected : Findings → Option Snapshot → Type 0
IsExpected w x =
    (SameMetadata w.candidate w.previous × (x ≡ none))
    ⊎ (((¬ SameMetadata w.candidate w.previous)
          × SameContents w.candidate w.previous
          × (x ≡ some w.candidate))
        ⊎ ((¬ SameMetadata w.candidate w.previous)
            × (¬ SameContents w.candidate w.previous)
            × (x ≡ some (record w.candidate { sha1_digest = w.digest }))))

expected-IsExpected : (w : Findings) → IsExpected w (expected w)
expected-IsExpected w =
    look (all_metadata_equal w.candidate w.previous) (file_contents_equal w.candidate w.previous)
      (all_metadata_equal_lem w.candidate w.previous)
      (file_contents_equal_lem w.candidate w.previous)
  where
    look :
        (a b : Bool)
        → (a ≡ true) ↔ SameMetadata w.candidate w.previous
        → (b ≡ true) ↔ SameContents w.candidate w.previous
        → IsExpected w (expected_by a b w)
    look true b m s = inl (m.0 refl, refl)
    look false true m s = inr (inl (λ same. conflict (m.1 same), s.0 refl, refl))
    look false false m s =
        inr (inr (λ same. conflict (m.1 same), λ same. conflict (s.1 same), refl))

-- A finished run: the machine is done, it has said so once, and nothing is left or was dropped.
pub record IsOver (x : Option Snapshot) (m : Run) : Type 0 where
  pub state : m.state ≡ State.done
  pub said_once : m.done ≡ 1
  pub generated : m.fields.candidate_snapshot ≡ x
  pub none_dropped : m.dropped ≡ []
  pub no_events : m.events ≡ []
  pub no_tasks : m.tasks ≡ []
  pub no_callbacks : (m.active_callbacks ≡ 0) × (m.outstanding ≡ [])

-- The machine when it has both snapshots.
abbrev informed : Findings → Bytes → Bytes → Run
informed w root filepath = record (new State.wait_for_previous_snapshot initial) {
  fields = record {
    candidate_snapshot = some w.candidate;
    previous_snapshot = some w.previous;
    root = root;
    filepath = filepath;
  };
}

-- What is left to do once the snapshots were compared.
abbrev rest : Bool → Bool → Findings → Run → Option Run
rest a b w m =
    finish_run (enter definition State.have_snapshots (inspected a b m.fields) m) >>= drive 6 w

abbrev ended : Findings → Option Snapshot → Bytes → Bytes → Run
ended w x root filepath = record (informed w root filepath) {
  state = State.done;
  fields = record (informed w root filepath).fields { candidate_snapshot = x };
  done = 1;
}

rest-IsOver :
    (a b : Bool) (w : Findings) (root filepath : Bytes)
    → (m : Run) × (rest a b w (informed w root filepath) ≡ some m) × IsOver (expected_by a b w) m
unfolding drive post_event_callback obey_all process_event row handle
rest-IsOver true b w root filepath = (
  ended w none root filepath,
  refl,
  record {
    state = refl;
    said_once = refl;
    generated = refl;
    none_dropped = refl;
    no_events = refl;
    no_tasks = refl;
    no_callbacks = (refl, refl);
  },
)
rest-IsOver false true w root filepath = (
  ended w (some w.candidate) root filepath,
  refl,
  record {
    state = refl;
    said_once = refl;
    generated = refl;
    none_dropped = refl;
    no_events = refl;
    no_tasks = refl;
    no_callbacks = (refl, refl);
  },
)
rest-IsOver false false w root filepath = (
  ended w (some (hashed w)) root filepath,
  refl,
  record {
    state = refl;
    said_once = refl;
    generated = refl;
    none_dropped = refl;
    no_events = refl;
    no_tasks = refl;
    no_callbacks = (refl, refl);
  },
)

-- Whatever the services find, a started machine comes to its end within eleven steps, each a task
-- or the answer of a service: it has called its done callback once, and no event was dropped. It
-- has generated no snapshot if the owner's and the group's names and numbers, the mode, the access
-- time and the contents are those of the snapshot before. Otherwise it has generated the candidate,
-- with the digest of the contents if these differ: the times of creation and modification, the
-- kind, the deletion or the length, or the digests where both snapshots have one.
pub snapshot_machine_lem :
    (w : Findings) (root filepath : Bytes)
    → (m : Run) × (x : Option Snapshot) × (drive 11 w (started root filepath) ≡ some m)
      × IsOver x m
      × IsExpected w x
unfolding drive started obey_all post_event_callback process_event row handle
snapshot_machine_lem w root filepath =
    let (m, run, over) =
      rest-IsOver (all_metadata_equal w.candidate w.previous)
        (file_contents_equal w.candidate w.previous) w root filepath in
    (m, expected w, run, over, expected-IsExpected w)
