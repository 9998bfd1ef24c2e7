-- ===== src/SnapshotMachine/Compare.antt =====
-- util/snapshot-util.cc: what the two comparisons of snapshots mean.
use polar_express.Base.{
  ◌≡◌, ◌↔◌, refl, sym, ◌∙◌, subst, Bytes, Bool, true, false, ◌&&◌, Option, none, some, bytes_eq,
  bytes_eq_refl, bytes_eq→≡, ==_iff, some_inj,
}
use polar_express.SnapshotMachine.{Snapshot, digests_agree, file_contents_equal, all_metadata_equal}

-- Digests are the same if both are there.
abbrev pub SameDigest : Option Bytes → Option Bytes → Type 0
SameDigest o q = (x y : Bytes) → o ≡ some x → q ≡ some y → x ≡ y

pub record SameContents (c p : Snapshot) : Type 0 where
  pub creation_time : c.creation_time ≡ p.creation_time
  pub modification_time : c.modification_time ≡ p.modification_time
  pub is_regular : c.is_regular ≡ p.is_regular
  pub is_deleted : c.is_deleted ≡ p.is_deleted
  pub snapshot_length : c.snapshot_length ≡ p.snapshot_length
  pub sha1_digest : SameDigest c.sha1_digest p.sha1_digest

pub record SameMetadata (c p : Snapshot) : Type 0 where
  pub owner_user : c.owner_user ≡ p.owner_user
  pub owner_group : c.owner_group ≡ p.owner_group
  pub uid : c.uid ≡ p.uid
  pub gid : c.gid ≡ p.gid
  pub mode : c.mode ≡ p.mode
  pub access_time : c.access_time ≡ p.access_time
  pub contents : SameContents c p

both : (a b : Bool) → (a && b ≡ true) ↔ ((a ≡ true) × (b ≡ true))
both true b = (λ h. (refl, h), λ (_, h). h)
both false b = (λ h. cc, λ (h, _). cc)

bytes_iff : (x y : Bytes) → (bytes_eq x y ≡ true) ↔ (x ≡ y)
bytes_iff x y = (bytes_eq→≡ x y, λ e. subst (λ z. bytes_eq x z ≡ true) e (bytes_eq_refl x))

digests_agree_lem : (o q : Option Bytes) → (digests_agree o q ≡ true) ↔ SameDigest o q
unfolding digests_agree
digests_agree_lem (some x) (some y) = (
  λ h a b e f. sym (some_inj e) ∙ (bytes_iff x y).0 h ∙ some_inj f,
  λ same. (bytes_iff x y).1 (same x y refl refl),
)
digests_agree_lem none q = (λ h a b e f. cc, λ same. refl)
digests_agree_lem (some x) none = (λ h a b e f. cc, λ same. refl)

pub file_contents_equal_lem : (c p : Snapshot) → (file_contents_equal c p ≡ true) ↔ SameContents c p
unfolding file_contents_equal
file_contents_equal_lem c p = (
  λ h.
      let (a, h1) = (both _ _).0 h in
      let (b, h2) = (both _ _).0 h1 in
      let (d, h3) = (both _ _).0 h2 in
      let (e, h4) = (both _ _).0 h3 in
      let (f, g) = (both _ _).0 h4 in
      record {
        creation_time = (==_iff _ _).0 a;
        modification_time = (==_iff _ _).0 b;
        is_regular = (==_iff _ _).0 d;
        is_deleted = (==_iff _ _).0 e;
        snapshot_length = (==_iff _ _).0 f;
        sha1_digest = (digests_agree_lem _ _).0 g;
      },
  λ s. (both _ _).1 (
    (==_iff _ _).1 s.creation_time,
    (both _ _).1 (
      (==_iff _ _).1 s.modification_time,
      (both _ _).1 (
        (==_iff _ _).1 s.is_regular,
        (both _ _).1 (
          (==_iff _ _).1 s.is_deleted,
          (both _ _).1 ((==_iff _ _).1 s.snapshot_length, (digests_agree_lem _ _).1 s.sha1_digest),
        ),
      ),
    ),
  ),
)

pub all_metadata_equal_lem : (c p : Snapshot) → (all_metadata_equal c p ≡ true) ↔ SameMetadata c p
unfolding all_metadata_equal
all_metadata_equal_lem c p = (
  λ h.
      let (a, h1) = (both _ _).0 h in
      let (b, h2) = (both _ _).0 h1 in
      let (d, h3) = (both _ _).0 h2 in
      let (e, h4) = (both _ _).0 h3 in
      let (f, h5) = (both _ _).0 h4 in
      let (g, i) = (both _ _).0 h5 in
      record {
        owner_user = (bytes_iff _ _).0 a;
        owner_group = (bytes_iff _ _).0 b;
        uid = (==_iff _ _).0 d;
        gid = (==_iff _ _).0 e;
        mode = (==_iff _ _).0 f;
        access_time = (==_iff _ _).0 g;
        contents = (file_contents_equal_lem c p).0 i;
      },
  λ s. (both _ _).1 (
    (bytes_iff _ _).1 s.owner_user,
    (both _ _).1 (
      (bytes_iff _ _).1 s.owner_group,
      (both _ _).1 (
        (==_iff _ _).1 s.uid,
        (both _ _).1 (
          (==_iff _ _).1 s.gid,
          (both _ _).1 (
            (==_iff _ _).1 s.mode,
            (both _ _).1 ((==_iff _ _).1 s.access_time, (file_contents_equal_lem c p).1 s.contents),
          ),
        ),
      ),
    ),
  ),
)
