-- ===== src/Driver/Startup.antt =====
-- driver/reconcile.go
use docker_plugin_gce_pd.Prelude.{false, none, some, List, [], ◌∷◌, ok, err}
use docker_plugin_gce_pd.Prelude.{if◌then◌else◌}
use docker_plugin_gce_pd.Prelude.Bytes.{Bytes, codes}
use docker_plugin_gce_pd.Prelude.Map.{Map, lookup, insert}
use docker_plugin_gce_pd.Prelude.Eff.{Eff, ◌>>=◌}
use docker_plugin_gce_pd.Errors.{Res}
use docker_plugin_gce_pd.State.Volume.{VolumeOptions, Volume}
use docker_plugin_gce_pd.State.Store
use docker_plugin_gce_pd.Gce.Options.{reclaim_retain}
use docker_plugin_gce_pd.Gce.Info.{DiskInfo, deleting}
use docker_plugin_gce_pd.Mount.Paths.{mountpoint_for}
use docker_plugin_gce_pd.Driver.Interface.{GceClient, Mounter, Driver, outside, in_store}
use docker_plugin_gce_pd.Driver.Lifecycle.{delete_in_background}

-- The options that an imported disk gets.
unfoldable pub import_options : DiskInfo → VolumeOptions
import_options dk = record {
  size_gb = dk.size_gb;
  disk_type = dk.disk_type;
  fs_type = codes "ext4";
  labels = dk.labels;
  source_snapshot = [];
  source_image = [];
  snapshot_on_remove = false;
  reclaim_policy = reclaim_retain;
}

-- The loop over the disks: `names`, in order, and `byName`.
unfoldable pub live_names : List DiskInfo → List Bytes
live_names [] = []
live_names (dk ∷ dks) = let rest = live_names dks in if deleting dk then rest else dk.name ∷ rest

unfoldable pub options_by_name : List DiskInfo → Map VolumeOptions → Map VolumeOptions
unfolding import_options
options_by_name [] m = m
options_by_name (dk ∷ dks) m =
    options_by_name dks (if deleting dk then m else insert dk.name (import_options dk) m)

-- `byName[name]`
abbrev pub by_name : List DiskInfo → Bytes → VolumeOptions
by_name disks name = elim (lookup name (options_by_name disks [])) [
  | none ↦ Store.zero_options
  | some o ↦ o
]

module _ {W : Type 0} (g : GceClient W) (m : Mounter W) where
  -- The same loop: the interrupted deletes that it resumes.
  unfoldable pub resume_deletes : List DiskInfo → Driver W → Driver W
  resume_deletes [] d = d
  resume_deletes (dk ∷ dks) d =
      resume_deletes dks (if deleting dk then delete_in_background dk.name false d else d)

  -- One round of the loop of stage 2: an error of IsMounted or of SetMounted is only logged.
  unfoldable pub restore_mount : Volume → Driver W → Driver W
  restore_mount v d =
      let target = mountpoint_for v.name in
      let r = outside (m.is_mounted target) d in
      elim r.0 [
        | err e ↦ r.1
        | ok still ↦ if still then (in_store (Store.set_mounted v.name target) r.1).1 else r.1
      ]

  -- The loop of stage 2, over the volumes of List.
  unfoldable pub restore_mounts : List Volume → Driver W → Driver W
  restore_mounts [] d = d
  restore_mounts (v ∷ vs) d = restore_mounts vs (restore_mount v d)

  -- Stage 2 after ResetRefCounts.
  unfoldable pub restore_after : Res (Unit {0}) → Eff (Driver W) (Res (Unit {0}))
  restore_after (err e) d = (err e, d)
  restore_after (ok _) d = (ok tt, restore_mounts (Store.list d.store) d)

  -- Stage 2.
  unfoldable pub restart_counts : Eff (Driver W) (Res (Unit {0}))
  restart_counts = do zeroed ← in_store Store.reset_ref_counts; restore_after zeroed

  -- The store's Reconcile as the driver calls it; its report is only logged.
  unfoldable pub align_store : List DiskInfo → Eff (Driver W) (Res (Unit {0}))
  align_store disks = in_store λ s.
      let (changes, r, s') = Store.reconcile (live_names disks) (some (by_name disks)) s in (r, s')

  unfoldable pub restart_after : Res (Unit {0}) → Eff (Driver W) (Res (Unit {0}))
  restart_after (err e) d = (err e, d)
  restart_after (ok _) d = restart_counts d

  -- Stage 1 and 2 with the disks of GCE.
  unfoldable pub reconcile_listed : Res (List DiskInfo) → Eff (Driver W) (Res (Unit {0}))
  reconcile_listed (err e) d = (err e, d)
  reconcile_listed (ok disks) d =
      let r = align_store disks (resume_deletes disks d) in restart_after r.0 r.1

  -- Reconcile
  unfoldable pub reconcile : Eff (Driver W) (Res (Unit {0}))
  reconcile = do listed ← outside g.list_managed_disks; reconcile_listed listed
