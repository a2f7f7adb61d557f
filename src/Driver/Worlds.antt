-- ===== src/Driver/Worlds.antt =====
-- What the calls of GCE and of the host that Reconcile and the background deletes make all keep,
-- these keep.
use docker_plugin_gce_pd.Prelude.{true, false, Bool, ◌∙◌, refl, Option, none, some}
use docker_plugin_gce_pd.Driver.Lifecycle.{take_task}
use docker_plugin_gce_pd.Prelude.{
  true, false, Bool, ℕ, zero, suc, ◌%◌, length, ◌≡◌, sym, List, [], ◌∷◌, ok, err, arith,
}
use mathlib.Core.Path.{subst}
use docker_plugin_gce_pd.Prelude.Bytes.{Bytes}
use docker_plugin_gce_pd.Errors.{Res}
use docker_plugin_gce_pd.State.Volume.{Volume}
use docker_plugin_gce_pd.State.Store
use docker_plugin_gce_pd.Gce.Info.{DiskInfo}
use docker_plugin_gce_pd.Gce.Retry.Outcome.{Keeps}
use docker_plugin_gce_pd.Mount.Paths.{mountpoint_for}
use docker_plugin_gce_pd.Driver.Interface.{GceClient, Mounter, Task, Driver}
use docker_plugin_gce_pd.Driver.Lifecycle.{run_background}
use docker_plugin_gce_pd.Driver.Startup.{
  restore_mount, restore_mounts, restore_after, restart_counts, align_store, restart_after,
  reconcile_listed, reconcile, resume_deletes,
}
use docker_plugin_gce_pd.Driver.Remounted.Listed.{resume_deletes-world, align_store-world}
use docker_plugin_gce_pd.Driver.Waiting.{finish, wait_background}
use docker_plugin_gce_pd.Prelude.{true, false, Bool, Bool}
use docker_plugin_gce_pd.Prelude.{true, false, Bool, Option}
use docker_plugin_gce_pd.Driver.Lifecycle.{take_task}
use docker_plugin_gce_pd.Prelude.{true, false, Bool, if◌then◌else◌}
use docker_plugin_gce_pd.Prelude.{true, false, Bool, ◌==◌}

module _ {W : Type 0} (g : GceClient W) (m : Mounter W) (P : W → Type 0)
    (looks : (target : Bytes) → Keeps P (m.is_mounted target)) where
  restore_mounts-keeps :
      (vs : List Volume) (d : Driver W) → P d.world → P (restore_mounts g m vs d).world
  unfolding restore_mounts restore_mount
  restore_mounts-keeps [] d p = p
  restore_mounts-keeps (v ∷ vs) d p =
      restore_mounts-keeps vs (restore_mount g m v d)
        (ground (arith, looks (mountpoint_for v.name) d.world p))

  restore_after-keeps :
      (r : Res (Unit {0})) (d : Driver W) → P d.world → P (restore_after g m r d).1.world
  unfolding restore_after
  restore_after-keeps (err e) d p = p
  restore_after-keeps (ok _) d p = restore_mounts-keeps (Store.list d.store) d p

  restart_after-keeps :
      (r : Res (Unit {0})) (d : Driver W) → P d.world → P (restart_after g m r d).1.world
  unfolding restart_after restart_counts
  restart_after-keeps (err e) d p = p
  restart_after-keeps (ok _) d p =
      let r = Store.reset_ref_counts d.store in restore_after-keeps r.0 (record d { store = r.1 }) p

  reconcile_listed-keeps :
      (r : Res (List DiskInfo)) (d : Driver W) → P d.world → P (reconcile_listed g m r d).1.world
  unfolding reconcile_listed
  reconcile_listed-keeps (err e) d p = p
  reconcile_listed-keeps (ok disks) d p =
      let d' = resume_deletes g m disks d in
      let r = align_store g m disks d' in
      restart_after-keeps r.0 r.1
        (subst P (sym (align_store-world g m disks d' ∙ resume_deletes-world g m disks d)) p)

  pub reconcile-keeps :
      Keeps P g.list_managed_disks → (d : Driver W) → P d.world → P (reconcile g m d).1.world
  unfolding reconcile
  reconcile-keeps lists d p =
      let r = g.list_managed_disks d.world in
      reconcile_listed-keeps r.0 (record d { world = r.1 }) (lists d.world p)

module _ {W : Type 0} (g : GceClient W) (m : Mounter W) (P : W → Type 0)
    (deletes : (name : Bytes) (snapshot_first : Bool)
      → Keeps P (g.delete_disk name snapshot_first)) where
  run_background-keeps : (i : ℕ) (d : Driver W) → P d.world → P (run_background g m i d).world
  unfolding run_background
  run_background-keeps i d p = go (take_task i d.background) refl
    where
      go :
          (o : Option (Task × List Task))
          → take_task i d.background ≡ o
          → P (run_background g m i d).world
      go none e = rw (run_background, e) p
      go (some (t, rest)) e = rw (run_background, e) (deletes t.name t.snapshot_first d.world p)

  finish-keeps :
      (n : ℕ) (pick : List Task → ℕ) (d : Driver W) → P d.world → P (finish g m n pick d).world
  unfolding finish
  finish-keeps zero pick d p = p
  finish-keeps (suc n) pick d p = finish-keeps n pick _ (go (d.bg == 0))
    where
      i : ℕ
      i = pick d.background % length d.background

      go : (b : Bool) → P (if b then d else run_background g m i d).world
      go true = p
      go false = run_background-keeps i d p

  pub wait_background-keeps :
      (pick : List Task → ℕ) (d : Driver W) → P d.world → P (wait_background g m pick d).world
  unfolding wait_background
  wait_background-keeps pick d p = finish-keeps (length d.background) pick d p
