-- ===== src/Driver/Lifecycle.antt =====
-- driver.go: the methods of `Driver`. The options of a Create are the entries of the request's map
-- in one order in which Go may range over it; the same request may come in another order. Its mutex makes each of them one step; the background
-- deletes are steps of their own. `now` is the time that a new record is stamped with.
use docker_plugin_gce_pd.Prelude.{
  ℕ, zero, suc, Bool, false, not, ◌||◌, Option, none, some, List, [],
}
use docker_plugin_gce_pd.Prelude.{◌∷◌, ◌++◌, map, ok, err, ◌==◌, if◌then◌else◌}
use docker_plugin_gce_pd.Prelude.Bytes.{Bytes, codes, str_eq}
use docker_plugin_gce_pd.Prelude.Map.{Map}
use docker_plugin_gce_pd.Prelude.Eff.{Eff, ◌>>=◌, ◌>>◌, return}
use docker_plugin_gce_pd.Errors.{
  Error, Res, is_disk_not_found, wrapped, rolled_back, adopting, mount_state_write,
  volume_not_found, different_options, still_deleting, not_managed, mismatched_disk, in_use,
  orphaned,
}
use docker_plugin_gce_pd.State.Volume.{Volume, created, is_positive}
use docker_plugin_gce_pd.State.Store
use docker_plugin_gce_pd.State.Store.{Store}
use docker_plugin_gce_pd.Gce.Name.{validate_disk_name}
use docker_plugin_gce_pd.Gce.Options.{
  DiskOptions, parse_disk_options, label, managed_by_key, managed_by_value, reclaim_retain,
}
use docker_plugin_gce_pd.Gce.Info.{DiskInfo, deleting}
use docker_plugin_gce_pd.Mount.Paths.{mountpoint_for}
use docker_plugin_gce_pd.Driver.Interface.{GceClient, Mounter, Task, Driver, outside, in_store}
use docker_plugin_gce_pd.Driver.Convert.{to_state_options, options_match, ApiVolume, to_api_volume}
use docker_plugin_gce_pd.Prelude.{◌+◌}
use docker_plugin_gce_pd.Prelude.{◌-◌}

-- New
unfoldable pub new : {W : Type 0} → W → Store → Bytes → Driver W
new world store scope = record {
  store = store;
  world = world;
  background = [];
  bg = 0;
  scope = if str_eq scope [] then codes "local" else scope;
}

-- The record that Create and adoptExistingDisk add.
unfoldable pub new_record : Bytes → Bytes → DiskOptions → Volume
new_record now name opts = record {
  name = name;
  options = to_state_options opts;
  status = created;
  mountpoint = [];
  ref_count = 0;
  created_at = now;
}

-- deleteInBackground: Add(1), and a goroutine; what that does is `run_background`.
unfoldable pub delete_in_background : {W : Type 0} → Bytes → Bool → Driver W → Driver W
delete_in_background name snapshot_first d = record d {
  background = d.background ++ (record { name = name; snapshot_first = snapshot_first } ∷ []);
  bg = d.bg + 1;
}

-- Get, List and Path read the state without the driver's mutex, and Capabilities the scope.
unfoldable pub get : {W : Type 0} → Bytes → Driver W → Res ApiVolume
unfolding to_api_volume
get name d = elim (Store.get name d.store) [
  | none ↦ err (volume_not_found name)
  | some v ↦ ok (to_api_volume v)
]

unfoldable pub list : {W : Type 0} → Driver W → List ApiVolume
unfolding to_api_volume
list d = map to_api_volume (Store.list d.store)

unfoldable pub path : {W : Type 0} → Bytes → Driver W → Res Bytes
path name d = elim (Store.get name d.store) [
  | none ↦ err (volume_not_found name)
  | some v ↦ ok v.mountpoint
]

unfoldable pub capabilities : {W : Type 0} → Driver W → Bytes
capabilities d = d.scope

abbrev pub put_back : Task → Option (Task × List Task) → Option (Task × List Task)
put_back t none = none
put_back t (some (u, us)) = some (u, t ∷ us)

-- The pending delete at a position, and the others.
unfoldable pub take_task : ℕ → List Task → Option (Task × List Task)
take_task n [] = none
take_task zero (t ∷ ts) = some (t, ts)
take_task (suc n) (t ∷ ts) = put_back t (take_task n ts)

module _ {W : Type 0} (g : GceClient W) (m : Mounter W) where
  unfoldable pub adopt_existing_disk :
      Bytes → Bytes → DiskInfo → DiskOptions → Eff (Driver W) (Res (Unit {0}))
  adopt_existing_disk now name info opts =
      if not (str_eq (label managed_by_key info.labels) managed_by_value)
      then return (err (not_managed name))
      else if not (info.size_gb == opts.size_gb) || not (str_eq info.disk_type opts.disk_type)
      then return (err (mismatched_disk name))
      else (do
        added ← in_store (Store.add (new_record now name opts))
        elim added [ err e ↦ return (err (wrapped (adopting name) e)) | ok _ ↦ return (ok tt) ])

  -- Create after Add: where the state was not written, the disk is deleted again.
  unfoldable pub after_add : Bytes → Res (Unit {0}) → Eff (Driver W) (Res (Unit {0}))
  after_add name (ok _) = return (ok tt)
  after_add name (err e) = do
    deleted ← outside (g.delete_disk name false)
    elim deleted [
      | err del ↦ return (err (orphaned name e del))
      | ok _ ↦ return (err (wrapped (rolled_back name) e))
    ]

  -- Create after CreateDisk.
  unfoldable pub after_create :
      Bytes → Bytes → DiskOptions → Res DiskInfo → Eff (Driver W) (Res (Unit {0}))
  after_create now name opts (err e) = return (err e)
  after_create now name opts (ok _) = do
    added ← in_store (Store.add (new_record now name opts))
    after_add name added

  -- Create from `d.gce.CreateDisk` on.
  unfoldable pub provision : Bytes → Bytes → DiskOptions → Eff (Driver W) (Res (Unit {0}))
  provision now name opts = do
    info ← outside (g.create_disk name opts)
    after_create now name opts info

  -- Create after GetDisk: the disk exists, or GCE has none of the name, or cannot tell.
  unfoldable pub create_found :
      Bytes → Bytes → DiskOptions → Res DiskInfo → Eff (Driver W) (Res (Unit {0}))
  create_found now name opts (ok existing) =
      if deleting existing
      then return (err (still_deleting name))
      else adopt_existing_disk now name existing opts
  create_found now name opts (err e) =
      if is_disk_not_found e then provision now name opts else return (err e)

  -- Create on a volume that is not in the state.
  unfoldable pub create_untracked : Bytes → Bytes → DiskOptions → Eff (Driver W) (Res (Unit {0}))
  create_untracked now name opts = do
    found ← outside (g.get_disk name)
    create_found now name opts found

  -- Create
  unfoldable pub create : Bytes → Bytes → Map Bytes → Eff (Driver W) (Res (Unit {0}))
  create now name options d = elim (parse_disk_options options) [
    | err e ↦ (err e, d)
    | ok opts ↦ elim (validate_disk_name name) [
      | err e ↦ (err e, d)
      | ok _ ↦ elim (Store.get name d.store) [
        | some existing ↦
            if options_match existing.options opts
            then (ok tt, d)
            else (err (different_options name), d)
        | none ↦ create_untracked now name opts d
      ]
    ]
  ]

  -- A goroutine of deleteInBackground runs, the one at `n`: DeleteDisk, whose result is only
  -- logged, and the deferred Done.
  unfoldable pub run_background : ℕ → Driver W → Driver W
  unfolding take_task
  run_background n d = elim (take_task n d.background) [
    | none ↦ d
    | some (task, tasks) ↦ record d {
      background = tasks;
      world = (g.delete_disk task.name task.snapshot_first d.world).1;
      bg = d.bg - 1;
    }
  ]

  -- Remove
  unfoldable pub remove : Bytes → Eff (Driver W) (Res (Unit {0}))
  remove name d = elim (Store.get name d.store) [
    | none ↦ (err (volume_not_found name), d)
    | some v ↦
        if is_positive v.ref_count
        then (err (in_use name v.ref_count), d)
        else if str_eq v.options.reclaim_policy reclaim_retain
        then in_store (Store.remove name) d
        else (let r = in_store (Store.remove name) d in
            elim r.0 [
              | err e ↦ (err e, r.1)
              | ok _ ↦ (ok tt, delete_in_background name v.options.snapshot_on_remove r.1)
            ])
  ]

  -- IncRef and DecRef as the driver calls them.
  unfoldable pub inc_ref : Bytes → Bytes → Eff (Driver W) (Res (Unit {0}))
  inc_ref name target = in_store λ s. let (n, r, s') = Store.inc_ref name target s in (r, s')

  -- `_ = d.gce.DetachDisk(ctx, name)`, then the error.
  unfoldable pub detach_and_fail : Bytes → Error → Eff (Driver W) (Res Bytes)
  detach_and_fail name e = do outside (g.detach_disk name); return (err e)

  -- Mount after IncRef: where the state was not written, what was done is undone.
  unfoldable pub after_count : Bytes → Bytes → Res (Unit {0}) → Eff (Driver W) (Res Bytes)
  after_count name target (ok _) = return (ok target)
  after_count name target (err e) = do
    outside (m.unmount target)
    detach_and_fail name (wrapped (mount_state_write name) e)

  unfoldable pub mount_counted : Bytes → Bytes → Eff (Driver W) (Res Bytes)
  mount_counted name target = do counted ← inc_ref name target; after_count name target counted

  -- Mount after `d.mount.Mount`.
  unfoldable pub after_mount : Bytes → Bytes → Res (Unit {0}) → Eff (Driver W) (Res Bytes)
  after_mount name target (err e) = detach_and_fail name e
  after_mount name target (ok _) = mount_counted name target

  -- Mount after EnsureFormatted.
  unfoldable pub after_format : Bytes → Bytes → Bytes → Res Bytes → Eff (Driver W) (Res Bytes)
  after_format name target device (err e) = detach_and_fail name e
  after_format name target device (ok _) = do
    mounted ← outside (m.mount device target)
    after_mount name target mounted

  -- Mount after WaitForDevice.
  unfoldable pub after_wait : Bytes → Bytes → Bytes → Res Bytes → Eff (Driver W) (Res Bytes)
  after_wait name target fs_type (err e) = detach_and_fail name e
  after_wait name target fs_type (ok device) = do
    formatted ← outside (m.ensure_formatted device fs_type)
    after_format name target device formatted

  -- Mount after AttachDisk.
  unfoldable pub after_attach : Bytes → Bytes → Bytes → Res (Unit {0}) → Eff (Driver W) (Res Bytes)
  after_attach name target fs_type (err e) = return (err e)
  after_attach name target fs_type (ok _) = do
    waited ← outside (m.wait_for_device name)
    after_wait name target fs_type waited

  -- Mount of a volume with no count.
  unfoldable pub mount_first : Bytes → Bytes → Bytes → Eff (Driver W) (Res Bytes)
  mount_first name target fs_type = do
    attached ← outside (g.attach_disk name)
    after_attach name target fs_type attached

  -- Mount
  unfoldable pub mount : Bytes → Eff (Driver W) (Res Bytes)
  mount name d = elim (Store.get name d.store) [
    | none ↦ (err (volume_not_found name), d)
    | some v ↦
        let target = mountpoint_for name in
        if is_positive v.ref_count
        then (let r = inc_ref name target d in (elim r.0 [ err e ↦ err e | ok _ ↦ ok target ], r.1))
        else mount_first name target v.options.fs_type d
  ]

  -- Unmount once the count has reached zero.
  unfoldable pub unmount_last : Bytes → Bytes → Eff (Driver W) (Res (Unit {0}))
  unmount_last name target = do
    unmounted ← outside (m.unmount target)
    elim unmounted [ err e ↦ return (err e) | ok _ ↦ outside (g.detach_disk name) ]

  unfoldable pub dec_ref : Bytes → Eff (Driver W) (ℕ × Res (Unit {0}))
  dec_ref name = in_store λ s. let (n, r, s') = Store.dec_ref name s in ((n, r), s')

  -- Unmount
  unfoldable pub unmount : Bytes → Eff (Driver W) (Res (Unit {0}))
  unmount name d = elim (Store.get name d.store) [
    | none ↦ (err (volume_not_found name), d)
    | some v ↦
        if v.ref_count == 0
        then (ok tt, d)
        else (let r = dec_ref name d in
            elim r.0.1 [
              | err e ↦ (err e, r.1)
              | ok _ ↦
                  if is_positive r.0.0
                  then (ok tt, r.1)
                  else unmount_last name (mountpoint_for name) r.1
            ])
  ]
