-- ===== src/Gce/Disks/Phases.antt =====
-- gce/disk.go: DeleteDisk in its phases, between which requests of the driver may run: a goroutine
-- of deleteInBackground does not hold the driver's mutex. A phase is one call, retried.
use docker_plugin_gce_pd.Prelude.{
  ℕ, zero, suc, ◌≡◌, refl, Bool, true, false, ok, err, if◌then◌else◌,
}
use docker_plugin_gce_pd.Prelude.Bytes.{Bytes}
use docker_plugin_gce_pd.Prelude.Eff.{Eff, ◌>>=◌, return}
use docker_plugin_gce_pd.Errors.{
  Res, is_disk_not_found, still_attached, wrapped, marking_deleting, snapshotting,
}
use docker_plugin_gce_pd.Gce.Info.{DiskInfo, attached, deleting}
use docker_plugin_gce_pd.Gce.Retry.{Runtime}
use docker_plugin_gce_pd.Gce.Client.{ComputeApi, Client}
use docker_plugin_gce_pd.Gce.Disks.{
  get_disk, mark_deleting, snapshot_disk, delete_marked, delete_disk, delete_found, mark_and_delete,
  after_mark, snapshot_and_delete, after_snapshot,
}
use docker_plugin_gce_pd.Prelude.{Bool-cases, inl, inr}

-- The call that comes next, or the result.
pub data Phase : Type 0 where
  reads : Phase
  marks : DiskInfo → Phase
  snaps : Phase
  deletes : Phase
  ends : Res (Unit {0}) → Phase

abbrev pub once_marked : Bool → Phase
once_marked false = deletes
once_marked true = snaps

unfoldable pub once_found : Bytes → Bool → Res DiskInfo → Phase
once_found name snapshot_first (err e) = ends (if is_disk_not_found e then ok tt else err e)
once_found name snapshot_first (ok info) =
    if attached info
    then ends (err (still_attached name info.users))
    else if deleting info
    then once_marked snapshot_first
    else marks info

abbrev pub once_labelled : Bytes → Bool → Res (Unit {0}) → Phase
once_labelled name snapshot_first (err e) = ends (err (wrapped (marking_deleting name) e))
once_labelled name snapshot_first (ok _) = once_marked snapshot_first

abbrev pub once_taken : Bytes → Res (Unit {0}) → Phase
once_taken name (err e) = ends (err (wrapped (snapshotting name) e))
once_taken name (ok _) = deletes

module _ {W O : Type 0} (rt : Runtime W) (api : ComputeApi W O) (c : Client) where
  unfoldable pub advance : Bytes → Bool → Phase → Eff W Phase
  unfolding once_found
  advance name snapshot_first reads = do
    r ← get_disk rt api c name
    return (once_found name snapshot_first r)
  advance name snapshot_first (marks info) = do
    r ← mark_deleting rt api c info
    return (once_labelled name snapshot_first r)
  advance name snapshot_first snaps = do r ← snapshot_disk rt api c name; return (once_taken name r)
  advance name snapshot_first deletes = do r ← delete_marked rt api c name; return (ends r)
  advance name snapshot_first (ends r) = return (ends r)

  -- So many phases, with nothing between them.
  unfoldable pub phases : ℕ → Bytes → Bool → Phase → Eff W Phase
  phases zero name snapshot_first p = return p
  phases (suc n) name snapshot_first p = do
    p' ← advance name snapshot_first p
    phases n name snapshot_first p'

  abbrev ended : Res (Unit {0}) × W → Phase × W
  ended r = (ends r.0, r.1)

  phases-ends :
      (n : ℕ) (name : Bytes) (first : Bool) (r : Res (Unit {0})) (w : W)
      → phases n name first (ends r) w ≡ (ends r, w)
  unfolding phases advance
  phases-ends zero name first r w = refl
  phases-ends (suc n) name first r w = phases-ends n name first r w

  phases-deletes :
      (n : ℕ) (name : Bytes) (first : Bool) (w : W)
      → phases (suc n) name first deletes w ≡ ended (delete_marked rt api c name w)
  unfolding phases advance
  phases-deletes n name first w =
      let r = delete_marked rt api c name w in phases-ends n name first r.0 r.1

  phases-taken :
      (n : ℕ) (name : Bytes) (first : Bool) (r : Res (Unit {0})) (w : W)
      → phases (suc n) name first (once_taken name r) w ≡ ended (after_snapshot rt api c name r w)
  unfolding after_snapshot
  phases-taken n name first (err e) w = phases-ends (suc n) name first _ w
  phases-taken n name first (ok _) w = phases-deletes n name first w

  phases-marked :
      (n : ℕ) (name : Bytes) (first : Bool) (w : W)
      → phases (suc (suc n)) name first (once_marked first) w
        ≡ ended (snapshot_and_delete rt api c name first w)
  unfolding snapshot_and_delete phases advance
  phases-marked n name false w = phases-deletes (suc n) name false w
  phases-marked n name true w =
      let r = snapshot_disk rt api c name w in phases-taken n name true r.0 r.1

  phases-labelled :
      (n : ℕ) (name : Bytes) (first : Bool) (r : Res (Unit {0})) (w : W)
      → phases (suc (suc n)) name first (once_labelled name first r) w
        ≡ ended (after_mark rt api c name first r w)
  unfolding after_mark
  phases-labelled n name first (err e) w = phases-ends (suc (suc n)) name first _ w
  phases-labelled n name first (ok _) w = phases-marked n name first w

  phases-free :
      (n : ℕ) (name : Bytes) (first : Bool) (info : DiskInfo) (w : W)
      → phases
          (suc (suc (suc n)))
          name
          first
          (if deleting info then once_marked first else marks info)
          w
        ≡ ended (mark_and_delete rt api c info name first w)
  unfolding mark_and_delete phases advance
  phases-free n name first info w = elim (Bool-cases (deleting info)) [
    | inl dying ↦ rw dying (phases-marked (suc n) name first w)
    | inr new ↦
        rw new (let r = mark_deleting rt api c info w in phases-labelled n name first r.0 r.1)
  ]

  phases-found :
      (n : ℕ) (name : Bytes) (first : Bool) (r : Res DiskInfo) (w : W)
      → phases (suc (suc (suc n))) name first (once_found name first r) w
        ≡ ended (delete_found rt api c name first r w)
  unfolding delete_found once_found
  phases-found n name first (err e) w = phases-ends (suc (suc (suc n))) name first _ w
  phases-found n name first (ok info) w = elim (Bool-cases (attached info)) [
    | inl at ↦ rw at (phases-ends (suc (suc (suc n))) name first _ w)
    | inr free ↦ rw free (phases-free n name first info w)
  ]

  -- Four phases or more, with nothing between them, are DeleteDisk: they end with its result and
  -- leave the world as it does.
  pub phases-delete_disk :
      (n : ℕ) (name : Bytes) (first : Bool) (w : W)
      → phases (suc (suc (suc (suc n)))) name first reads w
        ≡ (ends (delete_disk rt api c name first w).0, (delete_disk rt api c name first w).1)
  unfolding delete_disk phases advance
  phases-delete_disk n name first w =
      let r = get_disk rt api c name w in phases-found n name first r.0 r.1
