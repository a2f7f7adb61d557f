-- ===== src/Driver/Recovery.antt =====
-- Startup establishes the invariant, whatever the state file held.
use docker_plugin_gce_pd.Prelude.{◌≡◌, refl, ◌⊎◌, List, [], ◌∷◌, some}
use docker_plugin_gce_pd.Prelude.{ok, err, arith, false}
use docker_plugin_gce_pd.Errors.{Res}
use docker_plugin_gce_pd.State.Volume.{Volume, restore}
use docker_plugin_gce_pd.State.Store
use docker_plugin_gce_pd.State.Store.{Store, imported_volume}
use docker_plugin_gce_pd.State.Keeps.{Holds, update-Holds, reset_ref_counts-Holds}
use docker_plugin_gce_pd.State.Reconciled.{reconcile-EachOf, reconcile-NodupKeys}
use docker_plugin_gce_pd.State.Sorted.{Named}
use mathlib.Core.Path.{subst, sym}
use docker_plugin_gce_pd.Gce.Info.{DiskInfo}
use docker_plugin_gce_pd.Mount.Paths.{mountpoint_for}
use docker_plugin_gce_pd.Driver.Interface.{GceClient, Mounter, Driver}
use docker_plugin_gce_pd.Driver.Lifecycle.{delete_in_background}
use docker_plugin_gce_pd.Driver.Startup.{
  by_name, live_names, reconcile, resume_deletes, restore_mount, restore_mounts, restore_after,
  restart_counts, align_store, restart_after, reconcile_listed,
}
use docker_plugin_gce_pd.Driver.Invariant.{Fits, IsSound, either, reset-Fits, restore-Fits}

module _ {W : Type 0} (g : GceClient W) (m : Mounter W) where
  pub resume_deletes-store :
      (dks : List DiskInfo) (d : Driver W) → (resume_deletes g m dks d).store ≡ d.store
  unfolding resume_deletes delete_in_background
  resume_deletes-store [] d = refl
  resume_deletes-store (dk ∷ dks) d = ground (
    arith,
    resume_deletes-store dks d,
    resume_deletes-store dks (delete_in_background dk.name false d),
  )

  pub restore_mount-store :
      (v : Volume) (d : Driver W)
      → ((restore_mount g m v d).store ≡ d.store)
        ⊎ ((restore_mount g m v d).store
            ≡ (Store.set_mounted v.name (mountpoint_for v.name) d.store).1)
  unfolding restore_mount
  restore_mount-store v d = ground arith

  restore_mount-IsSound :
      (v : Volume) (d : Driver W) → IsSound 1 d → IsSound 1 (restore_mount g m v d)
  restore_mount-IsSound v d h = either (Holds (Fits 1)) (restore_mount-store v d) h (
      unfold Store.set_mounted in
      update-Holds (Fits 1) (Fits 1) (λ k w f. f) v.name (restore (mountpoint_for v.name)) d.store
        (λ w. restore-Fits 1 v.name w (omega arith)) h)

  restore_mounts-IsSound :
      (vs : List Volume) (d : Driver W) → IsSound 1 d → IsSound 1 (restore_mounts g m vs d)
  unfolding restore_mounts
  restore_mounts-IsSound [] d h = h
  restore_mounts-IsSound (v ∷ vs) d h =
      restore_mounts-IsSound vs (restore_mount g m v d) (restore_mount-IsSound v d h)

  -- A failing write leaves the counts reset in memory all the same.
  restore_after-IsSound :
      (r : Res (Unit {0})) (d : Driver W) → IsSound 1 d → IsSound 1 (restore_after g m r d).1
  unfolding restore_after
  restore_after-IsSound (err x) d h = h
  restore_after-IsSound (ok _) d h = restore_mounts-IsSound (Store.list d.store) d h

  restart_counts-IsSound : (d : Driver W) → Holds Named d.store → IsSound 1 (restart_counts g m d).1
  unfolding restart_counts
  restart_counts-IsSound d h =
      let r = Store.reset_ref_counts d.store in
      restore_after-IsSound r.0 (record d { store = r.1 })
        (reset_ref_counts-Holds Named (Fits 1) d.store (reset-Fits 1) h)

  pub align_store-Named :
      (disks : List DiskInfo) (d : Driver W)
      → Holds Named d.store
      → Holds Named (align_store g m disks d).1.store
  unfolding align_store
  align_store-Named disks d (u, e) = (
    reconcile-NodupKeys (live_names disks) (some (by_name disks)) d.store u,
    reconcile-EachOf Named (live_names disks) (some (by_name disks)) d.store
        (λ k. unfold imported_volume in refl) e,
  )

  restart_after-IsSound :
      (r : Res (Unit {0})) (d : Driver W)
      → Holds Named d.store
      → (restart_after g m r d).0 ≡ ok tt
      → IsSound 1 (restart_after g m r d).1
  unfolding restart_after
  restart_after-IsSound (err x) d h e = cc
  restart_after-IsSound (ok _) d h e = restart_counts-IsSound d h

  reconcile_listed-IsSound :
      (r : Res (List DiskInfo)) (d : Driver W)
      → Holds Named d.store
      → (reconcile_listed g m r d).0 ≡ ok tt
      → IsSound 1 (reconcile_listed g m r d).1
  unfolding reconcile_listed
  reconcile_listed-IsSound (err x) d h e = cc
  reconcile_listed-IsSound (ok disks) d h e =
      let d' = resume_deletes g m disks d in
      let r = align_store g m disks d' in
      restart_after-IsSound r.0 r.1
        (align_store-Named disks d' (subst (Holds Named) (sym (resume_deletes-store disks d)) h)) e

  -- When Reconcile returns no error at startup, every record fits: it stands under its name, its
  -- count is 0 or 1, and its status and mount point agree with the count. Of the store that was
  -- loaded this assumes only that each record stands under its own name, once.
  pub reconcile-IsSound :
      (d : Driver W)
      → Holds Named d.store
      → (reconcile g m d).0 ≡ ok tt
      → IsSound 1 (reconcile g m d).1
  unfolding reconcile
  reconcile-IsSound d h e =
      let r = g.list_managed_disks d.world in
      reconcile_listed-IsSound r.0 (record d { world = r.1 }) h e
