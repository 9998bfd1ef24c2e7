-- ===== src/SnapshotMachine/Tests.antt =====
-- state_machines/snapshot-state-machine.cc: a file whose length has changed.
use polar_express.Base.{◌≡◌, Option, some, none, [], ◌∷◌}
use polar_express.SnapshotMachine.{Snapshot}
use polar_express.SnapshotMachine.Run.{
  Findings, Run, drive, started, IsOver, IsExpected, snapshot_machine_lem,
}

abbrev old_snapshot : Snapshot
old_snapshot = record {
  owner_user = b'u' ∷ [];
  owner_group = b'g' ∷ [];
  uid = 1000;
  gid = 1000;
  mode = 420;
  creation_time = 0;
  modification_time = 1300000000;
  access_time = 0;
  is_regular = 1;
  is_deleted = 0;
  snapshot_length = 10;
  sha1_digest = some (b'a' ∷ []);
}

abbrev longer_file : Findings
longer_file = record {
  candidate = record old_snapshot { snapshot_length = 11; sha1_digest = none };
  previous = old_snapshot;
  digest = some (b'b' ∷ []);
}

snapshot_machine_lem_example :
    (m : Run) × (x : Option Snapshot) × (drive 11 longer_file (started (b'/' ∷ []) (b'f' ∷ []))
      ≡ some m)
    × IsOver x m
    × IsExpected longer_file x
snapshot_machine_lem_example = snapshot_machine_lem longer_file (b'/' ∷ []) (b'f' ∷ [])
