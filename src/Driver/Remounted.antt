-- ===== src/Driver/Remounted.antt =====
-- Which records the loop of stage 2 of the reconciliation marks as mounted.
pub mod Listed
pub mod Twice
use docker_plugin_gce_pd.Prelude.{
  ◌≡◌, refl, sym, ap, Bool, true, false, ◌&&◌, ◌||◌, Option, none, some, List, [], ◌∷◌, ok, arith,
  if◌then◌else◌, Bool-cases, inl, inr, ◌⊎◌,
}
use docker_plugin_gce_pd.Prelude.Bytes.{Bytes, str_eq, str_eq→eq, str_eq_refl}
use docker_plugin_gce_pd.Prelude.Map.{lookup, is_some}
use docker_plugin_gce_pd.Errors.{Res}
use docker_plugin_gce_pd.State.Volume.{Volume, restore}
use docker_plugin_gce_pd.State.Store
use docker_plugin_gce_pd.State.Store.{Store, contains}
use docker_plugin_gce_pd.State.Sorted.{last_named, last_named-cons, last_named-sorted_volumes}
use docker_plugin_gce_pd.State.Keeps.{Holds, lookup-reset_all, reset_ref_counts-Holds}
use docker_plugin_gce_pd.State.Reconciled.{lookup-reconcile, or_imported}
use docker_plugin_gce_pd.State.Updates.{lookup-update_at, update_missing}
use docker_plugin_gce_pd.Mount.Paths.{mountpoint_for}
use docker_plugin_gce_pd.Driver.Interface.{GceClient, Mounter, Driver}
use docker_plugin_gce_pd.Driver.Startup.{restore_mount, restore_mounts}
use docker_plugin_gce_pd.State.Volume.{reset}
use docker_plugin_gce_pd.Driver.Startup.{restore_after}
use docker_plugin_gce_pd.Driver.Startup.{restart_counts}
use docker_plugin_gce_pd.State.Sorted.{Named}
use docker_plugin_gce_pd.Prelude.{◌∙◌}
use docker_plugin_gce_pd.Driver.Startup.{restart_after}
use docker_plugin_gce_pd.Driver.Startup.{align_store}
use docker_plugin_gce_pd.Driver.Startup.{resume_deletes}
use docker_plugin_gce_pd.Driver.Startup.{reconcile_listed}

-- A record is restored as mounted, if it is to be.
abbrev pub restored : Bool → Bytes → Option Volume → Option Volume
restored b k none = none
restored b k (some v) = if b then some (restore (mountpoint_for k) v) else some v

restored-false : (k : Bytes) (o : Option Volume) → restored false k o ≡ o
restored-false k none = refl
restored-false k (some v) = refl

restored_twice :
    (a b : Bool) (k : Bytes) (o : Option Volume)
    → restored a k (restored b k o) ≡ restored (a || b) k o
unfolding restore
restored_twice a b k none = refl
restored_twice true true k (some v) = refl
restored_twice true false k (some v) = refl
restored_twice false b k (some v) = ground arith

pub restored_there :
    (b : Bool) (k : Bytes) (o : Option Volume) → restored (is_some o && b) k o ≡ restored b k o
restored_there b k none = refl
restored_there b k (some v) = refl

is_some-last_named :
    (c : Bool) (k : Bytes) (v : Volume) (vs : List Volume)
    → (is_some (last_named k vs) && c) || (str_eq v.name k && c)
      ≡ is_some (last_named k (v ∷ vs)) && c
is_some-last_named c k v vs =
    rw (last_named-cons k v vs) ground (arith, Bool-cases c, Bool-cases (str_eq v.name k))

pub reset-Named : (k : Bytes) (v : Volume) → Named k v → Named k (reset v)
unfolding reset
reset-Named k v e = e

pub lookup-reset_ref_counts :
    (k : Bytes) (s : Store)
    → lookup k (Store.reset_ref_counts s).1.vols
      ≡ elim (lookup k s.vols) [ none ↦ none | some v ↦ some (reset v) ]
unfolding Store.reset_ref_counts
lookup-reset_ref_counts k s = lookup-reset_all k s.vols

lookup-set_mounted :
    (k name : Bytes) (s : Store)
    → lookup k (Store.set_mounted name (mountpoint_for name) s).1.vols
      ≡ restored (str_eq name k) k (lookup k s.vols)
unfolding Store.set_mounted
lookup-set_mounted k name s = go (lookup name s.vols) refl (Bool-cases (str_eq name k))
  where
    go :
        (o : Option Volume)
        → lookup name s.vols ≡ o
        → (str_eq name k ≡ true) ⊎ (str_eq name k ≡ false)
        → lookup k (Store.set_mounted name (mountpoint_for name) s).1.vols
          ≡ restored (str_eq name k) k (lookup k s.vols)
    go none e (inl same) =
        let at : name ≡ k = str_eq→eq name k same in
        rw (update_missing name (restore (mountpoint_for name)) s e, same, sym at, e) refl
    go none e (inr other) =
        rw (update_missing name (restore (mountpoint_for name)) s e, other, restored-false) refl
    go (some v) e (inl same) =
        let at : name ≡ k = str_eq→eq name k same in
        rw (lookup-update_at k name (restore (mountpoint_for name)) s v e, same, sym at, e) refl
    go (some v) e (inr other) =
        rw (lookup-update_at k name (restore (mountpoint_for name)) s v e, other, restored-false)
          refl

module _ {W : Type 0} (g : GceClient W) (m : Mounter W) (P : W → Type 0) (on : Bytes → Bool)
    (sees : (target : Bytes) (w : W) → P w → (m.is_mounted target w).0 ≡ ok (on target))
    (stays : (target : Bytes) (w : W) → P w → P (m.is_mounted target w).1) where
  restore_mount-stays : (v : Volume) (d : Driver W) → P d.world → P (restore_mount g m v d).world
  unfolding restore_mount
  restore_mount-stays v d p =
      ground
        (arith, sees (mountpoint_for v.name) d.world p, stays (mountpoint_for v.name) d.world p)

  restore_mount-store_seen :
      (v : Volume) (d : Driver W)
      → P d.world
      → (restore_mount g m v d).store ≡ (
          if on (mountpoint_for v.name)
          then (Store.set_mounted v.name (mountpoint_for v.name) d.store).1
          else d.store)
  unfolding restore_mount
  restore_mount-store_seen v d p = ground (arith, sees (mountpoint_for v.name) d.world p)

  lookup-restore_mount :
      (k : Bytes) (v : Volume) (d : Driver W)
      → P d.world
      → lookup k (restore_mount g m v d).store.vols
        ≡ restored (str_eq v.name k && on (mountpoint_for k)) k (lookup k d.store.vols)
  lookup-restore_mount k v d p =
      rw (restore_mount-store_seen v d p) elim (Bool-cases (str_eq v.name k)) [
        | inl same ↦
            let at : v.name ≡ k = str_eq→eq v.name k same in
            rw (same, at)
              elim (Bool-cases (on (mountpoint_for k))) [
                | inl still ↦ rw still (rw lookup-set_mounted (rw (str_eq_refl k) refl))
                | inr gone ↦ rw gone (sym (restored-false k (lookup k d.store.vols)))
              ]
        | inr other ↦ elim (Bool-cases (on (mountpoint_for v.name))) [
          | inl still ↦ rw (other, still) (rw (lookup-set_mounted, other) refl)
          | inr gone ↦ rw (other, gone) (sym (restored-false k (lookup k d.store.vols)))
        ]
      ]

  pub lookup-restore_mounts :
      (k : Bytes) (vs : List Volume) (d : Driver W)
      → P d.world
      → lookup k (restore_mounts g m vs d).store.vols
        ≡ restored (is_some (last_named k vs) && on (mountpoint_for k)) k (lookup k d.store.vols)
  unfolding restore_mounts last_named
  lookup-restore_mounts k [] d p = sym (restored-false k (lookup k d.store.vols))
  lookup-restore_mounts k (v ∷ vs) d p =
      rw
        (
          lookup-restore_mounts k vs (restore_mount g m v d) (restore_mount-stays v d p),
          lookup-restore_mount k v d p,
          restored_twice,
        )
        (ap (λ b. restored b k (lookup k d.store.vols))
          (is_some-last_named (on (mountpoint_for k)) k v vs))
