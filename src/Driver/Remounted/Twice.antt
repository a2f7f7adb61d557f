-- ===== src/Driver/Remounted/Twice.antt =====
-- A second reconciliation right after a first one finds nothing to change.
use docker_plugin_gce_pd.Prelude.{
  ◌≡◌, refl, ◌∙◌, ap, Bool, true, false, Option, none, some, List, ok, Bool-cases, inl, inr,
  if◌then◌else◌,
}
use docker_plugin_gce_pd.Prelude.Bytes.{Bytes}
use docker_plugin_gce_pd.Prelude.Map.{lookup}
use docker_plugin_gce_pd.State.Volume.{Volume, VolumeOptions, reset, restore, settle}
use docker_plugin_gce_pd.State.Sorted.{Named}
use docker_plugin_gce_pd.State.Store.{imported_volume}
use docker_plugin_gce_pd.State.Keeps.{Holds, EachOf-weaken}
use docker_plugin_gce_pd.State.Reconciled.{or_imported}
use docker_plugin_gce_pd.Gce.Info.{DiskInfo}
use docker_plugin_gce_pd.Mount.Paths.{mountpoint_for}
use docker_plugin_gce_pd.Driver.Interface.{GceClient, Mounter, Driver}
use docker_plugin_gce_pd.Driver.Startup.{reconcile, by_name}
use docker_plugin_gce_pd.Driver.Invariant.{Fits}
use docker_plugin_gce_pd.Driver.Recovery.{reconcile-IsSound}
use docker_plugin_gce_pd.Driver.Worlds.{reconcile-keeps}
use docker_plugin_gce_pd.Driver.Remounted.Listed.{has_live, settled, lookup-reconciled}

reset-restore : (target : Bytes) (v : Volume) → reset (restore target (reset v)) ≡ reset v
unfolding reset restore settle
reset-restore target v = refl

reset_twice : (v : Volume) → reset (reset v) ≡ reset v
unfolding reset settle
reset_twice v = refl

-- The record of a name once aligned and settled, again.
settled-some :
    (on : Bytes → Bool) (k : Bytes) (options : Option (Bytes → VolumeOptions)) (v : Volume)
    → settled on k (or_imported options k (settled on k (some v))) ≡ settled on k (some v)
unfolding restore
settled-some on k options v = elim (Bool-cases (on (mountpoint_for k))) [
  | inl still ↦ rw still (
      rw still (ap (λ u. some (restore (mountpoint_for k) u)) (reset-restore (mountpoint_for k) v)))
  | inr gone ↦ rw gone (rw gone (ap (λ u. some u) (reset_twice v)))
]

settled_again :
    (on : Bytes → Bool) (k : Bytes) (options : Option (Bytes → VolumeOptions)) (o : Option Volume)
    → settled on k (or_imported options k (settled on k (or_imported options k o)))
      ≡ settled on k (or_imported options k o)
settled_again on k options none = settled-some on k options (imported_volume options k)
settled_again on k options (some v) = settled-some on k options v

module _ {W : Type 0} (g : GceClient W) (m : Mounter W) (P : W → Type 0) (on : Bytes → Bool)
    (sees : (target : Bytes) (w : W) → P w → (m.is_mounted target w).0 ≡ ok (on target))
    (stays : (target : Bytes) (w : W) → P w → P (m.is_mounted target w).1) (disks : List DiskInfo)
    (lists : (w : W) → P w → (g.list_managed_disks w).0 ≡ ok disks)
    (keeps : (w : W) → P w → P (g.list_managed_disks w).1) where
  settled_live :
      (k : Bytes) (o : Option Volume) (live : Bool)
      → settled on k (
          if live
          then or_imported
              (some (by_name disks))
              k
              (settled on k (if live then or_imported (some (by_name disks)) k o else none))
          else none)
        ≡ settled on k (if live then or_imported (some (by_name disks)) k o else none)
  settled_live k o true = settled_again on k (some (by_name disks)) o
  settled_live k o false = refl

  reconciled-Named :
      (d : Driver W)
      → Holds Named d.store
      → (reconcile g m d).0 ≡ ok tt
      → Holds Named (reconcile g m d).1.store
  reconciled-Named d h e =
      let (u, f) = reconcile-IsSound g m d h e in
      (u, EachOf-weaken (Fits 1) Named (λ k v fits. fits.named) (reconcile g m d).1.store.vols f)

  -- Where each record of before stands under its own name, once, GCE lists the same disks and
  -- IsMounted gives the same answer for each path throughout: a second reconciliation that returns
  -- no error, after a first one, leaves under every name what the first one left.
  pub reconcile_twice :
      (k : Bytes) (d : Driver W)
      → P d.world
      → Holds Named d.store
      → (reconcile g m d).0 ≡ ok tt
      → (reconcile g m (reconcile g m d).1).0 ≡ ok tt
      → lookup k (reconcile g m (reconcile g m d).1).1.store.vols
        ≡ lookup k (reconcile g m d).1.store.vols
  reconcile_twice k d p h e e' =
      let d' = (reconcile g m d).1 in
      let p' : P d'.world = reconcile-keeps g m P stays keeps d p in
      let first =
        lookup-reconciled g m P on sees stays k disks d (lists d.world p) (keeps d.world p) h e in
      let second =
        lookup-reconciled g m P on sees stays k disks d' (lists d'.world p') (keeps d'.world p')
          (reconciled-Named d h e) e' in
      second ∙ rw first (settled_live k (lookup k d.store.vols) (has_live k disks))
