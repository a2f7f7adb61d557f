-- ===== src/Examples/Drivers.antt =====
-- The theorems on the driver, at the example world.
use mathlib.Core.List.{Permᴰ}
use docker_plugin_gce_pd.Prelude.Map.{Map}
use docker_plugin_gce_pd.Prelude.Bytes.{Bytes}
use docker_plugin_gce_pd.Prelude.{◌≡◌, refl, [], ok, arith}
use docker_plugin_gce_pd.Prelude.{ℕ, ◌⊎◌, none, some, true, false, ◌∷◌, ◌++◌, err, is_ok}
use docker_plugin_gce_pd.Prelude.Bytes.{codes}
use docker_plugin_gce_pd.Errors.{
  system, disk_not_found, in_use, is_disk_not_found, wrapped, writing_temp_state,
}
use docker_plugin_gce_pd.State.Volume.{is_positive}
use docker_plugin_gce_pd.State.Store
use docker_plugin_gce_pd.Gce.Options.Ranges.{HasNoClash}
use docker_plugin_gce_pd.Gce.Name.{validate_disk_name}
use docker_plugin_gce_pd.Gce.Options.{DiskOptions, parse_disk_options}
use docker_plugin_gce_pd.Mount.Paths.{mountpoint_for}
use docker_plugin_gce_pd.Driver.Interface.{Driver}
use docker_plugin_gce_pd.Driver.Creating.{Founded, create_ok, create_idempotent}
use docker_plugin_gce_pd.Driver.Removing.{deletion, remove_lem}
use docker_plugin_gce_pd.Driver.Rollback.{create_after_rollback, mount_after_failed_write}
use docker_plugin_gce_pd.Prelude.Map.{lookup, lookup-nil}
use docker_plugin_gce_pd.Driver.Lifecycle.{
  new_record, create, remove, mount, mount_counted, unmount,
}
use docker_plugin_gce_pd.Driver.Startup.{reconcile}
use docker_plugin_gce_pd.Driver.Invariant.{IsSound}
use docker_plugin_gce_pd.Driver.Recovery.{reconcile-IsSound}
use docker_plugin_gce_pd.Driver.Counting.{HeldBy, mount_times, unmount_times, mount_unmount_nested}
use docker_plugin_gce_pd.Driver.Mounting.{OkOrDetached, mount_failure_detaches, unmount_not_retried}
use docker_plugin_gce_pd.Examples.World.{
  data_name, empty_gce, busy_host, volume_with, counting, no_volumes, Log, noon, later, raw_options,
  plain_options, data_info, full_disk, store_of, driver_of,
}

listed : (reconcile empty_gce busy_host (counting 7)).0 ≡ ok tt
unfolding reconcile docker_plugin_gce_pd.Driver.Startup.reconcile_listed
    docker_plugin_gce_pd.Driver.Startup.restart_after
    docker_plugin_gce_pd.Driver.Startup.align_store docker_plugin_gce_pd.State.Store.reconcile
    docker_plugin_gce_pd.State.Files.write_state docker_plugin_gce_pd.Driver.Startup.resume_deletes
    docker_plugin_gce_pd.Gce.Info.deleting docker_plugin_gce_pd.Prelude.Bytes.str_eq lookup
    docker_plugin_gce_pd.Driver.Startup.restart_counts
    docker_plugin_gce_pd.Driver.Startup.restore_after
    docker_plugin_gce_pd.State.Store.reset_ref_counts
listed = refl

reconcile-IsSound_example : IsSound 1 (reconcile empty_gce busy_host (counting 7)).1
unfolding lookup
reconcile-IsSound_example =
    reconcile-IsSound empty_gce busy_host (counting 7) ((refl, tt), (refl, tt)) listed

held : (n : ℕ) → HeldBy n data_name (counting n).store
unfolding lookup docker_plugin_gce_pd.Prelude.Bytes.str_eq
held n = (volume_with n, refl, refl)

mount_unmount_nested_example :
    HeldBy 1 data_name
      (unmount_times empty_gce busy_host 3 data_name
        (mount_times empty_gce busy_host 3 data_name (counting 1))).store
    × ((unmount_times empty_gce busy_host 3 data_name
          (mount_times empty_gce busy_host 3 data_name (counting 1))).world
        ≡ [])
mount_unmount_nested_example =
    mount_unmount_nested empty_gce busy_host 3 0 data_name (counting 1) (omega arith) (held 1)

mount_failure_detaches_example :
    OkOrDetached empty_gce busy_host data_name (mount empty_gce busy_host data_name (counting 0))
mount_failure_detaches_example =
    mount_failure_detaches empty_gce busy_host data_name (counting 0) (held 0) refl

unmount_not_retried_example :
    unmount empty_gce busy_host data_name (unmount empty_gce busy_host data_name (counting 1)).1
    ≡ (ok tt, (unmount empty_gce busy_host data_name (counting 1)).1)
unmount_not_retried_example =
    unmount_not_retried empty_gce busy_host data_name (counting 1) (held 1)

created_driver : (create empty_gce busy_host noon data_name raw_options no_volumes).0 ≡ ok tt
unfolding create parse_disk_options docker_plugin_gce_pd.Gce.Options.set_options
    docker_plugin_gce_pd.Gce.Options.set_option docker_plugin_gce_pd.Prelude.Bytes.str_eq
    docker_plugin_gce_pd.Prelude.Bytes.to_lower docker_plugin_gce_pd.Gce.Options.set_size
    docker_plugin_gce_pd.Gce.Options.parse_positive docker_plugin_gce_pd.Gce.Options.set_labels
    docker_plugin_gce_pd.Gce.Options.parse_labels docker_plugin_gce_pd.Prelude.Bytes.trim_space
    docker_plugin_gce_pd.Gce.Options.parse_pairs docker_plugin_gce_pd.Prelude.Bytes.split
    docker_plugin_gce_pd.Gce.Options.parse_label docker_plugin_gce_pd.Gce.Options.cut
    docker_plugin_gce_pd.Gce.Options.set_label docker_plugin_gce_pd.Gce.Options.check_sources
    validate_disk_name docker_plugin_gce_pd.Driver.Convert.options_match
    docker_plugin_gce_pd.Driver.Convert.to_gce_options
    docker_plugin_gce_pd.Driver.Convert.to_state_options
    docker_plugin_gce_pd.Driver.Lifecycle.adopt_existing_disk
    docker_plugin_gce_pd.Driver.Lifecycle.after_add
    docker_plugin_gce_pd.Driver.Lifecycle.after_create
    docker_plugin_gce_pd.Driver.Lifecycle.create_found
    docker_plugin_gce_pd.Driver.Lifecycle.create_untracked new_record
    docker_plugin_gce_pd.Driver.Lifecycle.provision is_disk_not_found
    docker_plugin_gce_pd.Gce.Info.deleting docker_plugin_gce_pd.Gce.Name.matches_name
    docker_plugin_gce_pd.Gce.Options.digits docker_plugin_gce_pd.Gce.Options.insert_all
    docker_plugin_gce_pd.Gce.Options.label docker_plugin_gce_pd.Gce.Options.labels_agree
    docker_plugin_gce_pd.Gce.Options.matches docker_plugin_gce_pd.Gce.Options.one_of
    docker_plugin_gce_pd.Gce.Options.parse_bool docker_plugin_gce_pd.Prelude.Bytes.is_space
    docker_plugin_gce_pd.Prelude.Bytes.lower_byte docker_plugin_gce_pd.Prelude.Bytes.str_lt
    docker_plugin_gce_pd.Prelude.Bytes.trim_left docker_plugin_gce_pd.Prelude.Map.erase
    docker_plugin_gce_pd.Prelude.Map.insert lookup docker_plugin_gce_pd.State.Files.insert_sorted
    docker_plugin_gce_pd.State.Files.next_io docker_plugin_gce_pd.State.Files.rename
    docker_plugin_gce_pd.State.Files.sort_by_name docker_plugin_gce_pd.State.Files.sorted_volumes
    docker_plugin_gce_pd.State.Files.temp_path docker_plugin_gce_pd.State.Files.values
    docker_plugin_gce_pd.State.Files.write_file docker_plugin_gce_pd.State.Files.write_state
    Store.add Store.get Store.persist
created_driver = refl

create_ok_example :
    (opts : DiskOptions) × (parse_disk_options raw_options ≡ ok opts)
    × (validate_disk_name data_name ≡ ok tt)
    × Founded empty_gce busy_host data_name opts []
    × (lookup data_name
          (create empty_gce busy_host noon data_name raw_options no_volumes).1.store.vols
        ≡ some (new_record noon data_name opts))
create_ok_example =
    create_ok empty_gce busy_host noon data_name raw_options no_volumes (lookup-nil data_name)
      created_driver

-- The same map, with its entries in the other order.
abbrev turned_options : Map Bytes
turned_options =
    (codes "labels", codes "env=dev,gcepd-deleting=true") ∷ (codes "size", codes "20") ∷ []

raw_options-HasNoClash : HasNoClash raw_options
unfolding docker_plugin_gce_pd.Prelude.Bytes.to_lower docker_plugin_gce_pd.Prelude.Bytes.lower_byte
raw_options-HasNoClash = (((λ e. cc), tt), (tt, tt))

create_idempotent_example :
    create empty_gce busy_host later data_name turned_options
      (create empty_gce busy_host noon data_name raw_options no_volumes).1
    ≡ (ok tt, (create empty_gce busy_host noon data_name raw_options no_volumes).1)
create_idempotent_example =
    create_idempotent empty_gce busy_host noon later data_name raw_options turned_options no_volumes
      raw_options-HasNoClash (Permᴰ.swap refl refl) (lookup-nil data_name) created_driver

found_at : (n : ℕ) → lookup data_name (counting n).store.vols ≡ some (volume_with n)
unfolding lookup docker_plugin_gce_pd.Prelude.Bytes.str_eq
found_at n = refl

remove_lem_example :
    ((is_positive 0 ≡ true)
      × (remove empty_gce busy_host data_name (counting 0)
          ≡ (err (in_use data_name 0), counting 0)))
    ⊎ ((is_positive 0 ≡ false)
        × (lookup data_name (remove empty_gce busy_host data_name (counting 0)).1.store.vols ≡ none)
        × ((remove empty_gce busy_host data_name (counting 0)).1.world ≡ [])
        × (is_ok (remove empty_gce busy_host data_name (counting 0)).0
            ≡ is_ok (Store.remove data_name (counting 0).store).0)
        × ((remove empty_gce busy_host data_name (counting 0)).1.background
            ≡ []
              ++ deletion empty_gce busy_host
                  (volume_with 0)
                  data_name
                  (is_ok (remove empty_gce busy_host data_name (counting 0)).0)))
remove_lem_example =
    remove_lem empty_gce busy_host data_name (counting 0) (volume_with 0) (found_at 0)

-- The state has no volume, and its next write fails.
abbrev full_empty : Driver Log
full_empty = driver_of (store_of full_disk [])

abbrev two_raw : Map Bytes
two_raw = (codes "size", codes "20") ∷ (codes "fs", codes "ext4") ∷ []

abbrev turned_raw : Map Bytes
turned_raw = (codes "fs", codes "ext4") ∷ (codes "size", codes "20") ∷ []

parsed : parse_disk_options two_raw ≡ ok plain_options
unfolding docker_plugin_gce_pd.Prelude.Bytes.lower_byte docker_plugin_gce_pd.Gce.Options.one_of
    parse_disk_options docker_plugin_gce_pd.Gce.Options.set_options
    docker_plugin_gce_pd.Gce.Options.set_option docker_plugin_gce_pd.Prelude.Bytes.str_eq
    docker_plugin_gce_pd.Prelude.Bytes.to_lower docker_plugin_gce_pd.Gce.Options.set_size
    docker_plugin_gce_pd.Gce.Options.parse_positive docker_plugin_gce_pd.Gce.Options.check_sources
parsed = refl

valid : validate_disk_name data_name ≡ ok tt
unfolding validate_disk_name docker_plugin_gce_pd.Prelude.Bytes.str_eq
valid = refl

unwritten :
    (Store.add (new_record noon data_name plain_options) full_empty.store).0
    ≡ err (wrapped writing_temp_state (system (codes "ENOSPC")))
unfolding Store.add lookup docker_plugin_gce_pd.State.Files.write_state
unwritten = refl

missing : is_disk_not_found (disk_not_found data_name) ≡ true
unfolding is_disk_not_found
missing = refl

two_raw-HasNoClash : HasNoClash two_raw
unfolding docker_plugin_gce_pd.Prelude.Bytes.to_lower docker_plugin_gce_pd.Prelude.Bytes.lower_byte
two_raw-HasNoClash = (((λ e. cc), tt), (tt, tt))

create_after_rollback_example :
    (is_ok (create empty_gce busy_host noon data_name two_raw full_empty).0 ≡ false)
    × ((create empty_gce busy_host noon data_name two_raw full_empty).1.world
        ≡ codes "delete" ∷ codes "create" ∷ codes "get" ∷ [])
    × (create empty_gce busy_host later data_name turned_raw
          (create empty_gce busy_host noon data_name two_raw full_empty).1
        ≡ (ok tt, (create empty_gce busy_host noon data_name two_raw full_empty).1))
create_after_rollback_example =
    create_after_rollback empty_gce busy_host noon later data_name two_raw turned_raw plain_options
      full_empty (disk_not_found data_name) (wrapped writing_temp_state (system (codes "ENOSPC")))
      data_info two_raw-HasNoClash (Permᴰ.swap refl refl) parsed valid (lookup-nil data_name) refl
      missing refl unwritten

-- The state has the volume, and its next write fails.
abbrev full_counting : Driver Log
full_counting = driver_of (store_of full_disk ((data_name, volume_with 0) ∷ []))

full_held : HeldBy 0 data_name full_counting.store
unfolding lookup docker_plugin_gce_pd.Prelude.Bytes.str_eq
full_held = (volume_with 0, refl, refl)

uncounted :
    (Store.inc_ref data_name (mountpoint_for data_name) full_counting.store).1
    ≡ err (wrapped writing_temp_state (system (codes "ENOSPC")))
unfolding Store.inc_ref lookup docker_plugin_gce_pd.Prelude.Bytes.str_eq
    docker_plugin_gce_pd.State.Files.write_state
uncounted = refl

mount_after_failed_write_example :
    (is_ok (mount_counted empty_gce busy_host data_name (mountpoint_for data_name) full_counting).0
      ≡ false)
    × ((mount_counted empty_gce busy_host data_name
          (mountpoint_for data_name)
          full_counting).1.world
        ≡ codes "detach" ∷ codes "umount" ∷ [])
    × ((mount empty_gce busy_host data_name
          (mount_counted empty_gce busy_host data_name
            (mountpoint_for data_name)
            full_counting).1).1.world
        ≡ (mount_counted empty_gce busy_host data_name
            (mountpoint_for data_name)
            full_counting).1.world)
mount_after_failed_write_example =
    mount_after_failed_write empty_gce busy_host 0 data_name full_counting
      (wrapped writing_temp_state (system (codes "ENOSPC"))) (omega arith) full_held uncounted
