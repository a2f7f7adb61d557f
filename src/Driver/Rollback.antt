-- ===== src/Driver/Rollback.antt =====
-- Create and Mount when the state cannot be written after GCE and the host have done their part.
use mathlib.Core.List.{Permᴰ}
use docker_plugin_gce_pd.Prelude.{ℕ, suc, ◌<◌, ◌^◌, ◌≡◌, true, false, none}
use docker_plugin_gce_pd.Prelude.{ok, err, is_ok, arith}
use docker_plugin_gce_pd.Prelude.Bytes.{Bytes}
use docker_plugin_gce_pd.Prelude.Map.{Map, lookup}
use docker_plugin_gce_pd.Errors.{Error, is_disk_not_found}
use docker_plugin_gce_pd.State.Store
use docker_plugin_gce_pd.State.Store.{Store}
use docker_plugin_gce_pd.State.Updates.{lookup-add}
use docker_plugin_gce_pd.Gce.Name.{validate_disk_name}
use docker_plugin_gce_pd.Gce.Options.{DiskOptions, parse_disk_options}
use docker_plugin_gce_pd.Gce.Options.Ranges.{HasNoClash, parse_disk_options-perm}
use docker_plugin_gce_pd.Gce.Info.{DiskInfo}
use docker_plugin_gce_pd.Mount.Paths.{mountpoint_for}
use docker_plugin_gce_pd.Driver.Interface.{GceClient, Mounter, Driver}
use docker_plugin_gce_pd.Driver.Lifecycle.{
  new_record, after_add, after_create, provision, create_found, create_untracked, create, mount,
  mount_counted, after_count, detach_and_fail, inc_ref,
}
use docker_plugin_gce_pd.Driver.Creating.{tracked, untracked}
use docker_plugin_gce_pd.Driver.Counting.{HeldBy, inc_ref-HeldBy, mount_shared}

module _ {W : Type 0} (g : GceClient W) (m : Mounter W) where
  rolled_back_untracked :
      (now name : Bytes) (opts : DiskOptions) (d : Driver W) (x e : Error) (info : DiskInfo)
      → (g.get_disk name d.world).0 ≡ err x
      → is_disk_not_found x ≡ true
      → (g.create_disk name opts (g.get_disk name d.world).1).0 ≡ ok info
      → (Store.add (new_record now name opts) d.store).0 ≡ err e
      → let r = create_untracked g m now name opts d in
        (is_ok r.0 ≡ false)
        × (r.1.world
            ≡ (g.delete_disk name false (g.create_disk name opts (g.get_disk name d.world).1).1).1)
        × (r.1.store ≡ (Store.add (new_record now name opts) d.store).1)
  unfolding create_untracked create_found provision after_create after_add
  rolled_back_untracked now name opts d x e info gone missing made failed = ground arith

  -- A Create with valid options and a valid name that the state does not have, where GCE has no
  -- disk of the name, the disk is created and the state cannot be written: it returns an error
  -- with DeleteDisk as its last call, and the same Create, repeated with the map in any order,
  -- returns success and changes and calls nothing, if no two keys of the map differ in case only.
  pub create_after_rollback :
      (now later name : Bytes) (raw raw' : Map Bytes) (opts : DiskOptions) (d : Driver W)
      (x e : Error) (info : DiskInfo)
      → HasNoClash raw
      → Permᴰ raw raw'
      → parse_disk_options raw ≡ ok opts
      → validate_disk_name name ≡ ok tt
      → lookup name d.store.vols ≡ none
      → (g.get_disk name d.world).0 ≡ err x
      → is_disk_not_found x ≡ true
      → (g.create_disk name opts (g.get_disk name d.world).1).0 ≡ ok info
      → (Store.add (new_record now name opts) d.store).0 ≡ err e
      → let r = create g m now name raw d in
        (is_ok r.0 ≡ false)
        × (r.1.world
            ≡ (g.delete_disk name false (g.create_disk name opts (g.get_disk name d.world).1).1).1)
        × (create g m later name raw' r.1 ≡ (ok tt, r.1))
  create_after_rollback now later name raw raw' opts d x e info apart order parsed valid absent gone
        missing made failed =
      let same = untracked g m now name raw opts d parsed valid absent in
      let (failed', world, store) =
        rolled_back_untracked now name opts d x e info gone missing made failed in
      (
        rw same failed',
        rw same world,
        tracked g m later name raw' opts (create g m now name raw d).1
            (parse_disk_options-perm raw raw' opts apart order parsed) valid
            (
              now,
              rw (same, store)
                  (unfold new_record in lookup-add (new_record now name opts) d.store absent),
            ),
      )

  uncounted :
      (name target : Bytes) (d : Driver W) (e : Error)
      → (Store.inc_ref name target d.store).1 ≡ err e
      → let r = mount_counted g m name target d in
        (is_ok r.0 ≡ false)
        × (r.1.world ≡ (g.detach_disk name (m.unmount target d.world).1).1)
        × (r.1.store ≡ (Store.inc_ref name target d.store).2)
  unfolding mount_counted after_count detach_and_fail inc_ref
  uncounted name target d e failed = ground arith

  -- The end of Mount, after the disk is mounted, where the count cannot be written: it returns an
  -- error after an unmount and DetachDisk as its last calls, and the next Mount of the volume
  -- calls neither GCE nor the host. The count is two below 2^63 or less.
  pub mount_after_failed_write :
      (c : ℕ) (name : Bytes) (d : Driver W) (e : Error)
      → suc (suc c) < 2 ^ 63
      → HeldBy c name d.store
      → (Store.inc_ref name (mountpoint_for name) d.store).1 ≡ err e
      → let r = mount_counted g m name (mountpoint_for name) d in
        (is_ok r.0 ≡ false)
        × (r.1.world ≡ (g.detach_disk name (m.unmount (mountpoint_for name) d.world).1).1)
        × ((mount g m name r.1).1.world ≡ r.1.world)
  mount_after_failed_write c name d e lt h failed =
      let (failed', world, store) = uncounted name (mountpoint_for name) d e failed in
      (
        failed',
        world,
        (mount_shared g m c name (mount_counted g m name (mountpoint_for name) d).1 (omega arith)
            (rw store (inc_ref-HeldBy c name (mountpoint_for name) d.store (omega arith) h))).1,
      )
