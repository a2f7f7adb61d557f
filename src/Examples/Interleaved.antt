-- ===== src/Examples/Interleaved.antt =====
-- Requests among the phases of a background delete, at the example site.
use docker_plugin_gce_pd.State.Json.{marshal}
use docker_plugin_gce_pd.Driver.Interleaved.Refinement.{run-refines}
use docker_plugin_gce_pd.Driver.Counts.{counts}
use docker_plugin_gce_pd.Driver.Counts.Refinement.{Changes}
use docker_plugin_gce_pd.Prelude.{inl}
use docker_plugin_gce_pd.Prelude.Map.{lookup}
use docker_plugin_gce_pd.Driver.Interleaved.Snapshots.{job_at, Snapshotted, run-Snapshotted}
use docker_plugin_gce_pd.Gce.Disks.Phases.{deletes, reads}
use docker_plugin_gce_pd.Prelude.{◌≡◌, refl, some, true, List, [], ◌∷◌, ok, arith}
use docker_plugin_gce_pd.Prelude.Bytes.{codes}
use docker_plugin_gce_pd.Errors.{Res}
use docker_plugin_gce_pd.State.Files.{Fs, json}
use docker_plugin_gce_pd.State.Store.{Store, load}
use docker_plugin_gce_pd.Gce.Disks.{delete_disk}
use docker_plugin_gce_pd.Gce.Disks.Phases.{ends}
use docker_plugin_gce_pd.Driver.Interface.{Mounter, Driver, Task}
use docker_plugin_gce_pd.Driver.Lifecycle.{new, run_background}
use docker_plugin_gce_pd.Driver.Startup.{reconcile}
use docker_plugin_gce_pd.Driver.Invariant.{IsSound}
use docker_plugin_gce_pd.Driver.Wiring.{gce_client}
use docker_plugin_gce_pd.Driver.Interleaved.{
  System, Move, serves, starts, goes_on, mounts, removes, quiet, run,
}
use docker_plugin_gce_pd.Driver.Interleaved.Sound.{served_interleaved-IsSound}
use docker_plugin_gce_pd.Examples.World.{
  Site, monday, clock, api_with, client, data_name, volume_with, store_of,
}
use docker_plugin_gce_pd.Gce.Disks.Phases.{reads}

-- A host on which every command succeeds.
abbrev host : Mounter Site
host = record {
  wait_for_device = λ name w. (ok (codes "/dev/sdb"), w);
  ensure_formatted = λ device fs_type w. (ok fs_type, w);
  mount = λ device target w. (ok tt, w);
  unmount = λ target w. (ok tt, w);
  is_mounted = λ target w. (ok true, w);
}

abbrev file : Fs
file = record { files = (codes "/s", json (marshal (volume_with 3 ∷ []))) ∷ []; script = [] }

abbrev loaded : Store
loaded = record { path = codes "/s"; vols = (data_name, volume_with 3) ∷ []; fs = file }

loads : load (codes "/s") file ≡ ok loaded
unfolding load docker_plugin_gce_pd.Prelude.Map.lookup docker_plugin_gce_pd.Prelude.Bytes.str_eq
    docker_plugin_gce_pd.Prelude.Map.insert docker_plugin_gce_pd.State.Json.unmarshal marshal
    docker_plugin_gce_pd.State.Json.unmarshal_volume docker_plugin_gce_pd.State.Json.marshal_volume
    docker_plugin_gce_pd.State.Json.set_volume_members
    docker_plugin_gce_pd.State.Json.set_volume_member docker_plugin_gce_pd.Prelude.Bytes.to_lower
    docker_plugin_gce_pd.State.Json.set_options_members
    docker_plugin_gce_pd.State.Json.marshal_options
    docker_plugin_gce_pd.State.Json.set_options_member
    docker_plugin_gce_pd.Driver.Convert.to_state_options docker_plugin_gce_pd.State.Json.json_text
    docker_plugin_gce_pd.State.Json.json_text_from docker_plugin_gce_pd.State.Json.rune_rest
loads = refl

ready :
    (reconcile (gce_client clock (api_with []) client) host (new monday loaded (codes "global"))).0
    ≡ ok tt
unfolding reconcile docker_plugin_gce_pd.Driver.Startup.reconcile_listed
    docker_plugin_gce_pd.Gce.Disks.list_managed_disks docker_plugin_gce_pd.Gce.Retry.retry
    docker_plugin_gce_pd.Gce.Retry.attempt_from docker_plugin_gce_pd.Gce.Retry.after_call
    docker_plugin_gce_pd.Driver.Startup.restart_after
    docker_plugin_gce_pd.Driver.Startup.align_store docker_plugin_gce_pd.State.Store.reconcile
    docker_plugin_gce_pd.State.Files.write_state docker_plugin_gce_pd.Driver.Startup.resume_deletes
    docker_plugin_gce_pd.Gce.Info.deleting docker_plugin_gce_pd.Prelude.Bytes.str_eq
    docker_plugin_gce_pd.Prelude.Map.lookup docker_plugin_gce_pd.Gce.Info.disk_info_from_proto new
    docker_plugin_gce_pd.Driver.Startup.restart_counts
    docker_plugin_gce_pd.Driver.Startup.restore_after
    docker_plugin_gce_pd.Driver.Lifecycle.delete_in_background
    docker_plugin_gce_pd.Driver.Startup.import_options
    docker_plugin_gce_pd.Driver.Startup.live_names
    docker_plugin_gce_pd.Driver.Startup.options_by_name
    docker_plugin_gce_pd.Driver.Startup.restore_mount
    docker_plugin_gce_pd.Driver.Startup.restore_mounts docker_plugin_gce_pd.Errors.as_googleapi
    docker_plugin_gce_pd.Gce.Info.after_last docker_plugin_gce_pd.Gce.Info.last_url_segment
    docker_plugin_gce_pd.Gce.Options.label docker_plugin_gce_pd.Gce.Retry.after_clock
    docker_plugin_gce_pd.Gce.Retry.after_error docker_plugin_gce_pd.Gce.Retry.after_sleep
    docker_plugin_gce_pd.Gce.Retry.is_retryable docker_plugin_gce_pd.Gce.Retry.next_interval
    docker_plugin_gce_pd.Gce.Retry.retryable_code docker_plugin_gce_pd.Gce.Retry.retryable_status
    docker_plugin_gce_pd.Mount.Paths.clean docker_plugin_gce_pd.Mount.Paths.join
    docker_plugin_gce_pd.Mount.Paths.join_segments docker_plugin_gce_pd.Mount.Paths.mountpoint_for
    docker_plugin_gce_pd.Mount.Paths.push_segment docker_plugin_gce_pd.Mount.Paths.push_segments
    docker_plugin_gce_pd.Prelude.Bytes.split docker_plugin_gce_pd.Prelude.Bytes.str_lt
    docker_plugin_gce_pd.Prelude.Map.erase docker_plugin_gce_pd.Prelude.Map.insert
    docker_plugin_gce_pd.State.Files.insert_sorted docker_plugin_gce_pd.State.Files.next_io
    docker_plugin_gce_pd.State.Files.rename docker_plugin_gce_pd.State.Files.sort_by_name
    docker_plugin_gce_pd.State.Files.sorted_volumes docker_plugin_gce_pd.State.Files.temp_path
    docker_plugin_gce_pd.State.Files.values docker_plugin_gce_pd.State.Files.write_file
    docker_plugin_gce_pd.State.Store.contains docker_plugin_gce_pd.State.Store.drop_vanished
    docker_plugin_gce_pd.State.Store.import_missing docker_plugin_gce_pd.State.Store.imported_volume
    docker_plugin_gce_pd.State.Store.insert_string docker_plugin_gce_pd.State.Store.list
    docker_plugin_gce_pd.State.Store.persist docker_plugin_gce_pd.State.Store.reset_all
    docker_plugin_gce_pd.State.Store.reset_ref_counts docker_plugin_gce_pd.State.Store.set_mounted
    docker_plugin_gce_pd.State.Store.sort_strings docker_plugin_gce_pd.State.Store.update
    docker_plugin_gce_pd.State.Volume.reset docker_plugin_gce_pd.State.Volume.restore
    docker_plugin_gce_pd.State.Volume.settle
ready = refl

abbrev moves : List Move
moves =
    serves (removes data_name) ∷ starts 0 ∷ goes_on 0 ∷ serves (mounts data_name) ∷ goes_on 0 ∷ []

abbrev started : Driver Site
started =
    (reconcile (gce_client clock (api_with []) client) host (new monday loaded (codes "global"))).1

served_interleaved-IsSound_example :
    IsSound 6 (run clock (api_with []) client host moves (quiet started)).driver
served_interleaved-IsSound_example =
    served_interleaved-IsSound clock (api_with []) client host (codes "/s") (codes "global") file
      loaded monday moves loads ready (omega arith)

abbrev erase_data : Task
erase_data = record { name = data_name; snapshot_first = true }

-- The delete of the disk is pending.
abbrev pending : Driver Site
pending = record {
  store = store_of [] [];
  world = monday;
  background = erase_data ∷ [];
  bg = 1;
  scope = codes "local";
}

-- A Mount and a Remove run while the goroutine gets to its delete.
abbrev to_delete : List Move
to_delete =
    starts 0
    ∷ goes_on 0
    ∷ serves (mounts data_name)
    ∷ goes_on 0
    ∷ serves (removes data_name)
    ∷ goes_on 0
    ∷ []

stands_ready :
    job_at 0 (run clock (api_with []) client host to_delete (quiet pending)).jobs
    ≡ some (record { task = erase_data; phase = deletes })
unfolding job_at run docker_plugin_gce_pd.Driver.Interleaved.move
    docker_plugin_gce_pd.Driver.Interleaved.serve docker_plugin_gce_pd.Driver.Interleaved.start
    docker_plugin_gce_pd.Driver.Lifecycle.take_task docker_plugin_gce_pd.Driver.Lifecycle.mount
    docker_plugin_gce_pd.Driver.Lifecycle.remove docker_plugin_gce_pd.State.Store.get
    docker_plugin_gce_pd.Driver.Interleaved.go_on docker_plugin_gce_pd.Driver.Interleaved.advance_at
    docker_plugin_gce_pd.Driver.Interleaved.advance_job
    docker_plugin_gce_pd.Gce.Disks.Phases.advance docker_plugin_gce_pd.Gce.Disks.Phases.once_found
    docker_plugin_gce_pd.Gce.Disks.get_disk docker_plugin_gce_pd.Gce.Disks.snapshot_disk
    docker_plugin_gce_pd.Gce.Retry.retry docker_plugin_gce_pd.Gce.Retry.attempt_from
    docker_plugin_gce_pd.Gce.Retry.after_call docker_plugin_gce_pd.Gce.Client.retry_op
    docker_plugin_gce_pd.Gce.Client.issue docker_plugin_gce_pd.Gce.Client.wait_op
    docker_plugin_gce_pd.Gce.Info.attached docker_plugin_gce_pd.Gce.Info.disk_info_from_proto
    docker_plugin_gce_pd.Gce.Info.deleting docker_plugin_gce_pd.Prelude.Bytes.str_eq
    docker_plugin_gce_pd.Prelude.Map.lookup docker_plugin_gce_pd.Gce.Disks.mark_deleting
stands_ready = refl

run-Snapshotted_example :
    Snapshotted clock (api_with []) client host 0 data_name to_delete (quiet pending)
run-Snapshotted_example =
    run-Snapshotted clock (api_with []) client host 0 erase_data to_delete pending refl stands_ready

-- A state with a volume that nothing mounts.
abbrev unmounted : Driver Site
unmounted = record pending { store = store_of [] ((data_name, volume_with 0) ∷ []) }

unmounted-IsSound : IsSound 1 unmounted
unfolding lookup
unmounted-IsSound = (
  (refl, tt),
  (record { named = refl; bounded = omega arith; agrees = inl (refl, refl, refl) }, tt),
)

run-refines_example :
    Changes
      (counts unmounted)
      6
      (counts (run clock (api_with []) client host to_delete (quiet unmounted)).driver)
run-refines_example =
    run-refines clock (api_with []) client host to_delete unmounted (omega arith) unmounted-IsSound
