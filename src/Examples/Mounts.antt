-- ===== src/Examples/Mounts.antt =====
-- A Mount and an Unmount that succeed, and a Create right after a Remove, at the example world.
use docker_plugin_gce_pd.Driver.LastUnmount.{LastCalls}
use docker_plugin_gce_pd.Prelude.{◌≡◌, refl, ◌⊎◌, none, some, true, false, [], ◌∷◌, ◌++◌, ok, err}
use docker_plugin_gce_pd.Prelude.Bytes.{codes, str_eq}
use docker_plugin_gce_pd.Prelude.Map.{lookup}
use docker_plugin_gce_pd.Errors.{still_deleting}
use docker_plugin_gce_pd.State.Volume.{Volume}
use docker_plugin_gce_pd.State.Store
use docker_plugin_gce_pd.Gce.Name.{validate_disk_name}
use docker_plugin_gce_pd.Gce.Options.{
  parse_disk_options, label, managed_by_key, managed_by_value, reclaim_delete, reclaim_retain,
}
use docker_plugin_gce_pd.Gce.Info.{deleting}
use docker_plugin_gce_pd.Mount.Paths.{mountpoint_for}
use docker_plugin_gce_pd.Driver.Interface.{GceClient, Mounter, Driver}
use docker_plugin_gce_pd.Driver.Lifecycle.{
  new_record, create, remove, run_background, mount, unmount,
}
use docker_plugin_gce_pd.Driver.Counting.{HeldBy}
use docker_plugin_gce_pd.Driver.Succeeding.{Counted, Opened, mount_ok}
use docker_plugin_gce_pd.Driver.Racing.{deletion_of, create_after_remove}
use docker_plugin_gce_pd.Examples.World.{
  Log, data_name, noon, plain_raw, plain_options, data_info, empty_gce, busy_host, volume_with,
  counting, store_of, driver_of,
}
use docker_plugin_gce_pd.Errors.{Error}
use docker_plugin_gce_pd.Driver.LastUnmount.{unmount_lem}

-- A host on which every command succeeds.
abbrev free_host : Mounter Log
free_host = record busy_host {
  mount = λ device target w. (ok tt, codes "mount" ∷ w);
  unmount = λ target w. (ok tt, codes "umount" ∷ w);
}

found_at : (v : Volume) → lookup data_name ((data_name, v) ∷ []) ≡ some v
unfolding lookup str_eq
found_at v = refl

mounts_first : (mount empty_gce free_host data_name (counting 0)).0 ≡ ok (mountpoint_for data_name)
unfolding mount Store.get lookup str_eq docker_plugin_gce_pd.State.Volume.is_positive
    docker_plugin_gce_pd.Driver.Lifecycle.mount_first
    docker_plugin_gce_pd.Driver.Lifecycle.after_attach
    docker_plugin_gce_pd.Driver.Lifecycle.after_wait
    docker_plugin_gce_pd.Driver.Lifecycle.after_format
    docker_plugin_gce_pd.Driver.Lifecycle.after_mount
    docker_plugin_gce_pd.Driver.Lifecycle.mount_counted
    docker_plugin_gce_pd.Driver.Lifecycle.after_count docker_plugin_gce_pd.Driver.Lifecycle.inc_ref
    Store.inc_ref docker_plugin_gce_pd.State.Files.write_state
mounts_first = refl

mount_ok_example :
    (w : Log) × Opened empty_gce free_host data_name (mountpoint_for data_name) (codes "ext4") [] w
    × Counted empty_gce free_host data_name
        (mountpoint_for data_name)
        w
        (counting 0)
        (mount empty_gce free_host data_name (counting 0))
unfolding docker_plugin_gce_pd.Driver.Convert.to_state_options
mount_ok_example =
    mount_ok empty_gce free_host data_name (mountpoint_for data_name) (counting 0) (volume_with 0)
      (found_at (volume_with 0)) refl mounts_first

unmount_lem_example :
    HeldBy 0 data_name (unmount empty_gce free_host data_name (counting 1)).1.store
    × (((e : Error) × ((Store.dec_ref data_name (counting 1).store).1 ≡ err e)
          × (unmount empty_gce free_host data_name (counting 1) ≡ (
            err e,
            record (counting 1) { store = (Store.dec_ref data_name (counting 1).store).2 },
          )))
        ⊎ (((Store.dec_ref data_name (counting 1).store).1 ≡ ok tt)
            × LastCalls empty_gce free_host data_name
                (record (counting 1) { store = (Store.dec_ref data_name (counting 1).store).2 })
                (unmount empty_gce free_host data_name (counting 1))))
unmount_lem_example =
    unmount_lem empty_gce free_host data_name (counting 1)
      (volume_with 1, found_at (volume_with 1), refl)

-- The volume's disk is to be deleted with it, and GCE still shows the disk.
abbrev doomed : Volume
doomed = record (volume_with 0) {
  options = record (volume_with 0).options { reclaim_policy = reclaim_delete };
}

abbrev doomed_driver : Driver Log
doomed_driver = driver_of (store_of [] ((data_name, doomed) ∷ []))

abbrev slow_gce : GceClient Log
slow_gce = record empty_gce { get_disk = λ name w. (ok data_info, codes "get" ∷ w) }

parsed : parse_disk_options plain_raw ≡ ok plain_options
unfolding parse_disk_options docker_plugin_gce_pd.Gce.Options.set_options
    docker_plugin_gce_pd.Gce.Options.set_option str_eq docker_plugin_gce_pd.Prelude.Bytes.to_lower
    docker_plugin_gce_pd.Gce.Options.set_size docker_plugin_gce_pd.Gce.Options.parse_positive
    docker_plugin_gce_pd.Gce.Options.check_sources
parsed = refl

valid : validate_disk_name data_name ≡ ok tt
unfolding validate_disk_name str_eq
valid = refl

deletes_disk : str_eq reclaim_delete reclaim_retain ≡ false
unfolding str_eq
deletes_disk = refl

removes_record : (Store.remove data_name doomed_driver.store).0 ≡ ok tt
unfolding Store.remove lookup str_eq docker_plugin_gce_pd.State.Files.write_state
removes_record = refl

ours : label managed_by_key data_info.labels ≡ managed_by_value
unfolding label lookup str_eq
ours = refl

adds_record :
    (Store.add
      (new_record noon data_name plain_options)
      (Store.remove data_name doomed_driver.store).1).0
    ≡ ok tt
unfolding Store.add lookup Store.remove str_eq docker_plugin_gce_pd.Prelude.Map.erase
    docker_plugin_gce_pd.State.Files.write_state
adds_record = refl

create_after_remove_example :
    ((create slow_gce free_host noon data_name plain_raw
        (remove slow_gce free_host data_name doomed_driver).1).1.background
      ≡ [] ++ (deletion_of slow_gce free_host data_name doomed ∷ []))
    × (((deleting data_info ≡ true)
          × ((create slow_gce free_host noon data_name plain_raw
                (remove slow_gce free_host data_name doomed_driver).1).0
              ≡ err (still_deleting data_name))
          × (lookup data_name
                (create slow_gce free_host noon data_name plain_raw
                  (remove slow_gce free_host data_name doomed_driver).1).1.store.vols
              ≡ none))
        ⊎ ((deleting data_info ≡ false)
            × ((create slow_gce free_host noon data_name plain_raw
                  (remove slow_gce free_host data_name doomed_driver).1).0
                ≡ ok tt)
            × (lookup data_name
                  (create slow_gce free_host noon data_name plain_raw
                    (remove slow_gce free_host data_name doomed_driver).1).1.store.vols
                ≡ some (new_record noon data_name plain_options))
            × ((lookup data_name
                    (run_background slow_gce free_host 0
                      (create slow_gce free_host noon data_name plain_raw
                        (remove slow_gce free_host data_name doomed_driver).1).1).store.vols
                  ≡ some (new_record noon data_name plain_options))
                × ((run_background slow_gce free_host 0
                      (create slow_gce free_host noon data_name plain_raw
                        (remove slow_gce free_host data_name doomed_driver).1).1).world
                    ≡ codes "delete"
                      ∷ (create slow_gce free_host noon data_name plain_raw
                          (remove slow_gce free_host data_name doomed_driver).1).1.world))))
unfolding docker_plugin_gce_pd.State.Volume.is_positive
create_after_remove_example =
    create_after_remove slow_gce free_host noon data_name plain_raw plain_options doomed_driver
      doomed data_info parsed valid (found_at doomed) refl deletes_disk removes_record refl ours
      refl refl adds_record
