-- ===== src/Examples/Tables.antt =====
-- The theorems on the mount table, at a host that can mount one disk.
use docker_plugin_gce_pd.Prelude.{
  sym, ap, Bool-cases, inl, inr, ◌≡◌, refl, Bool, true, false, not, ◌&&◌, none, some, List, [], ◌∷◌,
  ◌++◌, ok, err, arith, if◌then◌else◌,
}
use docker_plugin_gce_pd.Prelude.Bytes.{Bytes, codes, str_eq, str_eq_iff}
use docker_plugin_gce_pd.Prelude.Map.{lookup}
use docker_plugin_gce_pd.Prelude.Bytes.{is_space, str_eq_refl}
use docker_plugin_gce_pd.Prelude.{not, ◌&&◌}
use docker_plugin_gce_pd.Gce.Retry.{Runtime}
use docker_plugin_gce_pd.Mount.Paths.{clean, mountpoint_for}
use docker_plugin_gce_pd.Mount.Mounts.{mounted_in}
use docker_plugin_gce_pd.Mount.Table.{Entry, text_of, mounted_at, mounted_in-text_of}
use docker_plugin_gce_pd.Mount.Commands.{Host}
use docker_plugin_gce_pd.Driver.Interface.{GceClient, Driver}
use docker_plugin_gce_pd.Driver.Lifecycle.{mount, unmount}
use docker_plugin_gce_pd.Driver.Wiring.{host_mounter}
use docker_plugin_gce_pd.Driver.Counting.{HeldBy}
use docker_plugin_gce_pd.Driver.Tables.{Aside, first_mount_last_unmount}
use docker_plugin_gce_pd.Examples.World.{new_year, data_name, data_info, volume_with, store_of}
use docker_plugin_gce_pd.Gce.Retry.{Runtime}
use docker_plugin_gce_pd.Prelude.{none, some, ◌++◌, ◌&&◌}
use docker_plugin_gce_pd.Prelude.Map.{lookup}
use docker_plugin_gce_pd.Driver.Interface.{GceClient, Driver}
use docker_plugin_gce_pd.Mount.Paths.{clean, mountpoint_for}
use docker_plugin_gce_pd.Driver.Lifecycle.{mount, unmount}
use docker_plugin_gce_pd.Driver.Wiring.{host_mounter}
use docker_plugin_gce_pd.Driver.Counting.{HeldBy}
use docker_plugin_gce_pd.Driver.Tables.{Aside, first_mount_last_unmount}
use docker_plugin_gce_pd.Examples.World.{data_name, data_info, volume_with, store_of}
use docker_plugin_gce_pd.Examples.OneMount.{
  place, entry, root, both-AreEntries, table, host, host-Kernel,
}

mounted_in-text_of_example :
    mounted_in place (text_of (root ∷ entry ∷ [])) ≡ mounted_at place (root ∷ entry ∷ [])
mounted_in-text_of_example = mounted_in-text_of place (root ∷ entry ∷ []) both-AreEntries

-- A runtime whose clock stands still, and a client for which every call succeeds.
abbrev still : Runtime Bool
still = record {
  rounds = 3;
  now = λ w. (0, w);
  utc = λ w. (new_year, w);
  int63n = λ n w. (0, w);
  sleep = λ n w. (tt, w);
  sleep_or_done = λ n w. (none, w);
  done = λ w. (none, w);
  grpc_code = λ e. none;
}

abbrev ready_gce : GceClient Bool
ready_gce = record {
  create_disk = λ name opts w. (ok data_info, w);
  get_disk = λ name w. (ok data_info, w);
  delete_disk = λ name snapshot_first w. (ok tt, w);
  list_managed_disks = λ w. (ok (data_info ∷ []), w);
  attach_disk = λ name w. (ok tt, w);
  detach_disk = λ name w. (ok tt, w);
}

others-Aside : Aside still host 5 ready_gce table host-Kernel data_name
unfolding str_eq
others-Aside = record {
  runtime = λ t. record {
    by_now = λ w p. p;
    by_utc = λ w p. p;
    by_int63n = λ n w p. p;
    by_sleep = λ n w p. p;
    by_sleep_or_done = λ n w p. p;
    by_done = λ w p. p;
  };
  stats = λ w. refl;
  formats =
      λ t. record { probes = λ args w p. p; makes_ext4 = λ args w p. p; makes_xfs = λ args w p. p };
  attaches = λ w. refl;
  detaches = λ w. refl;
}

abbrev idle : Driver Bool
idle = record {
  store = store_of [] ((data_name, volume_with 0) ∷ []);
  world = false;
  background = [];
  bg = 0;
  scope = codes "local";
}

found : lookup data_name idle.store.vols ≡ some (volume_with 0)
unfolding lookup str_eq
found = refl

free : mounted_at (mountpoint_for data_name) (root ∷ []) ≡ false
unfolding mounted_at str_eq clean mountpoint_for docker_plugin_gce_pd.Mount.Paths.push_segment
free = refl

up : (mount ready_gce (host_mounter still host 5) data_name idle).0 ≡ ok (mountpoint_for data_name)
unfolding mount docker_plugin_gce_pd.State.Store.get lookup str_eq
    docker_plugin_gce_pd.State.Volume.is_positive docker_plugin_gce_pd.Driver.Lifecycle.mount_first
    docker_plugin_gce_pd.Driver.Lifecycle.after_attach
    docker_plugin_gce_pd.Driver.Lifecycle.after_wait
    docker_plugin_gce_pd.Mount.Commands.wait_for_device
    docker_plugin_gce_pd.Mount.Commands.poll_device docker_plugin_gce_pd.Mount.Commands.after_stat
    docker_plugin_gce_pd.Driver.Lifecycle.after_format
    docker_plugin_gce_pd.Mount.Commands.ensure_formatted
    docker_plugin_gce_pd.Mount.Commands.after_probe
    docker_plugin_gce_pd.Mount.Commands.probe_fs_type docker_plugin_gce_pd.Prelude.Bytes.trim_space
    docker_plugin_gce_pd.Driver.Lifecycle.after_mount docker_plugin_gce_pd.Mount.Commands.mount
    docker_plugin_gce_pd.Driver.Lifecycle.after_count
    docker_plugin_gce_pd.Driver.Lifecycle.detach_and_fail
    docker_plugin_gce_pd.Driver.Lifecycle.inc_ref docker_plugin_gce_pd.State.Files.values
    docker_plugin_gce_pd.State.Files.write_file docker_plugin_gce_pd.State.Files.write_state
    docker_plugin_gce_pd.State.Store.inc_ref docker_plugin_gce_pd.State.Store.persist
    docker_plugin_gce_pd.State.Store.update docker_plugin_gce_pd.State.Volume.hold text_of
    mountpoint_for docker_plugin_gce_pd.Mount.Paths.push_segment
    docker_plugin_gce_pd.Driver.Lifecycle.mount_counted
up = refl

down :
    (unmount ready_gce
      (host_mounter still host 5)
      data_name
      (mount ready_gce (host_mounter still host 5) data_name idle).1).0
    ≡ ok tt
unfolding unmount docker_plugin_gce_pd.State.Store.get lookup mount str_eq
    docker_plugin_gce_pd.State.Volume.is_positive docker_plugin_gce_pd.Driver.Lifecycle.mount_first
    docker_plugin_gce_pd.Driver.Lifecycle.after_attach
    docker_plugin_gce_pd.Driver.Lifecycle.after_wait
    docker_plugin_gce_pd.Mount.Commands.wait_for_device
    docker_plugin_gce_pd.Mount.Commands.poll_device docker_plugin_gce_pd.Mount.Commands.after_stat
    docker_plugin_gce_pd.Driver.Lifecycle.after_format
    docker_plugin_gce_pd.Mount.Commands.ensure_formatted
    docker_plugin_gce_pd.Mount.Commands.after_probe
    docker_plugin_gce_pd.Mount.Commands.probe_fs_type docker_plugin_gce_pd.Prelude.Bytes.trim_space
    docker_plugin_gce_pd.Driver.Lifecycle.after_mount
    docker_plugin_gce_pd.Driver.Lifecycle.after_count docker_plugin_gce_pd.Driver.Lifecycle.dec_ref
    docker_plugin_gce_pd.Driver.Lifecycle.detach_and_fail docker_plugin_gce_pd.State.Store.update
    docker_plugin_gce_pd.State.Volume.hold docker_plugin_gce_pd.State.Volume.one_less
    docker_plugin_gce_pd.State.Volume.release docker_plugin_gce_pd.State.Volume.settle
    docker_plugin_gce_pd.Mount.Commands.mount text_of docker_plugin_gce_pd.Mount.Commands.unmount
    docker_plugin_gce_pd.Driver.Lifecycle.inc_ref docker_plugin_gce_pd.State.Store.inc_ref
    docker_plugin_gce_pd.State.Files.write_state docker_plugin_gce_pd.Prelude.Map.insert
    docker_plugin_gce_pd.State.Store.dec_ref docker_plugin_gce_pd.Driver.Lifecycle.unmount_last
    mountpoint_for docker_plugin_gce_pd.Mount.Paths.push_segment
    docker_plugin_gce_pd.Driver.Lifecycle.mount_counted
down = refl

first_mount_last_unmount_example :
    ((e : Entry) × (clean e.target ≡ clean (mountpoint_for data_name))
      × (table (mount ready_gce (host_mounter still host 5) data_name idle).1.world
          ≡ (root ∷ []) ++ (e ∷ [])))
    × (table
          (unmount ready_gce
            (host_mounter still host 5)
            data_name
            (mount ready_gce (host_mounter still host 5) data_name idle).1).1.world
        ≡ root ∷ [])
    × HeldBy 0 data_name
        (unmount ready_gce
          (host_mounter still host 5)
          data_name
          (mount ready_gce (host_mounter still host 5) data_name idle).1).1.store
first_mount_last_unmount_example =
    first_mount_last_unmount still host 5 ready_gce table host-Kernel data_name
      (mountpoint_for data_name) idle (volume_with 0) others-Aside found refl free up down
