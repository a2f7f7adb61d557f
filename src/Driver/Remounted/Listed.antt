-- ===== src/Driver/Remounted/Listed.antt =====
-- Which volumes there are after the reconciliation at startup, and which of them are mounted.
use docker_plugin_gce_pd.Prelude.{
  ◌≡◌, refl, sym, ◌∙◌, Bool, false, Option, none, some, List, [], ◌∷◌, ok, err, arith,
  if◌then◌else◌,
}
use mathlib.Core.Path.{subst}
use docker_plugin_gce_pd.Prelude.Bytes.{Bytes}
use docker_plugin_gce_pd.Prelude.Map.{lookup}
use docker_plugin_gce_pd.Errors.{Res}
use docker_plugin_gce_pd.State.Volume.{Volume, reset}
use docker_plugin_gce_pd.State.Store
use docker_plugin_gce_pd.State.Store.{Store, contains}
use docker_plugin_gce_pd.State.Sorted.{Named, last_named-sorted_volumes}
use docker_plugin_gce_pd.State.Keeps.{Holds, reset_ref_counts-Holds}
use docker_plugin_gce_pd.State.Reconciled.{lookup-reconcile, or_imported}
use docker_plugin_gce_pd.Gce.Info.{DiskInfo, deleting}
use docker_plugin_gce_pd.Prelude.{Bool-cases, not, ◌||◌, ◌&&◌}
use docker_plugin_gce_pd.Prelude.Bytes.{str_eq}
use docker_plugin_gce_pd.Mount.Paths.{mountpoint_for}
use docker_plugin_gce_pd.Driver.Interface.{GceClient, Mounter, Driver}
use docker_plugin_gce_pd.Driver.Lifecycle.{delete_in_background}
use docker_plugin_gce_pd.Driver.Startup.{
  restore_after, restart_counts, align_store, restart_after, reconcile_listed, reconcile,
  live_names, by_name, resume_deletes,
}
use docker_plugin_gce_pd.Driver.Recovery.{resume_deletes-store, align_store-Named}
use docker_plugin_gce_pd.Driver.Remounted.{
  restored, restored_there, reset-Named, lookup-reset_ref_counts, lookup-restore_mounts,
}

-- What becomes of a record: its count is reset, and it is mounted where its mount point is.
abbrev pub settled : (Bytes → Bool) → Bytes → Option Volume → Option Volume
settled on k none = none
settled on k (some v) = restored (on (mountpoint_for k)) k (some (reset v))

-- GCE lists a disk of this name that is not being deleted.
abbrev pub has_live : Bytes → List DiskInfo → Bool
has_live k [] = false
has_live k (dk ∷ dks) = (str_eq dk.name k && not (deleting dk)) || has_live k dks

contains-live_names :
    (k : Bytes) (disks : List DiskInfo) → contains k (live_names disks) ≡ has_live k disks
unfolding contains live_names
contains-live_names k [] = refl
contains-live_names k (dk ∷ dks) =
    ground
      (arith, contains-live_names k dks, Bool-cases (deleting dk), Bool-cases (str_eq dk.name k))

-- The disks that GCE lists and does not delete, each with its record, or else a new one.
abbrev pub aligned : List DiskInfo → Bytes → Store → Option Volume
aligned disks k s =
    if has_live k disks then or_imported (some (by_name disks)) k (lookup k s.vols) else none

module _ {W : Type 0} (g : GceClient W) (m : Mounter W) where
  pub align_store-world :
      (disks : List DiskInfo) (d : Driver W) → (align_store g m disks d).1.world ≡ d.world
  unfolding align_store
  align_store-world disks d = refl

  pub resume_deletes-world :
      (dks : List DiskInfo) (d : Driver W) → (resume_deletes g m dks d).world ≡ d.world
  unfolding resume_deletes delete_in_background
  resume_deletes-world [] d = refl
  resume_deletes-world (dk ∷ dks) d = ground (
    arith,
    resume_deletes-world dks d,
    resume_deletes-world dks (delete_in_background dk.name false d),
  )

module _ {W : Type 0} (g : GceClient W) (m : Mounter W) (P : W → Type 0) (on : Bytes → Bool)
    (sees : (target : Bytes) (w : W) → P w → (m.is_mounted target w).0 ≡ ok (on target))
    (stays : (target : Bytes) (w : W) → P w → P (m.is_mounted target w).1) where
  lookup-restore_after :
      (k : Bytes) (r : Res (Unit {0})) (d : Driver W)
      → P d.world
      → Holds Named d.store
      → (restore_after g m r d).0 ≡ ok tt
      → lookup k (restore_after g m r d).1.store.vols
        ≡ restored (on (mountpoint_for k)) k (lookup k d.store.vols)
  unfolding restore_after Store.list
  lookup-restore_after k (err x) d p h e = cc
  lookup-restore_after k (ok _) d p (u, ns) e =
      rw
        (
          lookup-restore_mounts g m P on sees stays k (Store.list d.store) d p,
          last_named-sorted_volumes k d.store.vols u ns,
        )
        (restored_there (on (mountpoint_for k)) k (lookup k d.store.vols))

  settle_reset :
      (k : Bytes) (o : Option Volume)
      → restored (on (mountpoint_for k)) k (elim o [ none ↦ none | some v ↦ some (reset v) ])
        ≡ settled on k o
  settle_reset k none = refl
  settle_reset k (some v) = refl

  lookup-restart_counts :
      (k : Bytes) (d : Driver W)
      → P d.world
      → Holds Named d.store
      → (restart_counts g m d).0 ≡ ok tt
      → lookup k (restart_counts g m d).1.store.vols ≡ settled on k (lookup k d.store.vols)
  unfolding restart_counts
  lookup-restart_counts k d p h e =
      let r = Store.reset_ref_counts d.store in
      lookup-restore_after k r.0 (record d { store = r.1 }) p
        (reset_ref_counts-Holds Named Named d.store reset-Named h) e
      ∙ rw (lookup-reset_ref_counts, settle_reset) refl

  lookup-restart_after :
      (k : Bytes) (r : Res (Unit {0})) (d : Driver W)
      → P d.world
      → Holds Named d.store
      → (restart_after g m r d).0 ≡ ok tt
      → lookup k (restart_after g m r d).1.store.vols ≡ settled on k (lookup k d.store.vols)
  unfolding restart_after
  lookup-restart_after k (err x) d p h e = cc
  lookup-restart_after k (ok _) d p h e = lookup-restart_counts k d p h e

  lookup-align_store :
      (k : Bytes) (disks : List DiskInfo) (d : Driver W)
      → lookup k (align_store g m disks d).1.store.vols ≡ aligned disks k d.store
  unfolding align_store
  lookup-align_store k disks d =
      lookup-reconcile k (live_names disks) (some (by_name disks)) d.store
      ∙ rw (contains-live_names k disks) refl

  lookup-reconcile_listed :
      (k : Bytes) (disks : List DiskInfo) (d : Driver W)
      → P d.world
      → Holds Named d.store
      → (reconcile_listed g m (ok disks) d).0 ≡ ok tt
      → lookup k (reconcile_listed g m (ok disks) d).1.store.vols
        ≡ settled on k (aligned disks k d.store)
  unfolding reconcile_listed
  lookup-reconcile_listed k disks d p h e =
      let d' = resume_deletes g m disks d in
      let r = align_store g m disks d' in
      let there = resume_deletes-store g m disks d in
      lookup-restart_after k r.0 r.1
        (subst P (sym (align_store-world g m disks d' ∙ resume_deletes-world g m disks d)) p)
        (align_store-Named g m disks d' (subst (Holds Named) (sym there) h)) e
      ∙ rw (lookup-align_store k disks d', there) refl

  pub lookup-reconciled :
      (k : Bytes) (disks : List DiskInfo) (d : Driver W)
      → (g.list_managed_disks d.world).0 ≡ ok disks
      → P (g.list_managed_disks d.world).1
      → Holds Named d.store
      → (reconcile g m d).0 ≡ ok tt
      → lookup k (reconcile g m d).1.store.vols ≡ settled on k (aligned disks k d.store)
  unfolding reconcile
  lookup-reconciled k disks d l p h e =
      let d' = record d { world = (g.list_managed_disks d.world).1 } in
      rw l (lookup-reconcile_listed k disks d' p h (rw (sym l) e))
