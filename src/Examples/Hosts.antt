-- ===== src/Examples/Hosts.antt =====
-- The theorems on the mounter, at a host on which no device appears, and on the failover.
use docker_plugin_gce_pd.Prelude.{◌≢◌, refl, [], ok, err, arith}
use docker_plugin_gce_pd.Prelude.Bytes.{codes}
use docker_plugin_gce_pd.Errors.{system, unfinished}
use docker_plugin_gce_pd.Prelude.Bytes.{Bytes}
use docker_plugin_gce_pd.Gce.Attach.{ensure_detached_from_holder}
use docker_plugin_gce_pd.Gce.Attach.Fencing.{Detached, ensure_detached_from_holder-Detached}
use docker_plugin_gce_pd.Gce.Refs.{instance_name_from_ref}
use docker_plugin_gce_pd.Examples.World.{api_with, client}
use docker_plugin_gce_pd.Prelude.{◌≡◌}
use docker_plugin_gce_pd.Mount.Commands.{Host, wait_for_device}
use docker_plugin_gce_pd.Mount.Waiting.{Passes, wait_for_device-ends}
use docker_plugin_gce_pd.Examples.World.{Site, monday, clock, data_name}

abbrev no_device : Host Site
no_device = record {
  run = λ args w. (ok [], w);
  stat = λ path w. (err (system (codes "ENOENT")), w);
  mkdir_all = λ path w. (ok tt, w);
  read_mounts = λ w. (ok [], w);
}

clock-Passes : Passes clock no_device λ w. w.time
clock-Passes = record {
  reads = λ w. refl;
  moves = λ w. omega arith;
  by_sleep = λ n w. omega arith;
  by_done = λ w. omega arith;
  by_stat = λ dev w. omega arith;
  done_finishes = λ w e. cc;
}

wait_for_device-ends_example :
    (wait_for_device clock no_device 5 data_name monday).0 ≢ err unfinished
wait_for_device-ends_example =
    wait_for_device-ends clock no_device 5 (λ w. w.time) clock-Passes data_name monday (omega arith)

-- Another instance is running, and lets the disk go.
abbrev other : Bytes
other = codes "projects/p/zones/z/instances/vm-2"

let_go : (ensure_detached_from_holder clock (api_with []) client data_name other monday).0 ≡ ok tt
unfolding docker_plugin_gce_pd.Gce.Attach.ensure_detached_from_holder
    docker_plugin_gce_pd.Gce.Attach.instance_state docker_plugin_gce_pd.Gce.Attach.after_state
    docker_plugin_gce_pd.Gce.Attach.after_status docker_plugin_gce_pd.Gce.Attach.detach_running
    docker_plugin_gce_pd.Gce.Attach.detach_from_instance
    docker_plugin_gce_pd.Gce.Attach.after_detach docker_plugin_gce_pd.Gce.Attach.await_release
    docker_plugin_gce_pd.Gce.Attach.after_check docker_plugin_gce_pd.Gce.Attach.disk_released_by
    docker_plugin_gce_pd.Gce.Attach.used_by docker_plugin_gce_pd.Gce.Client.retry_op
    docker_plugin_gce_pd.Gce.Client.issue docker_plugin_gce_pd.Gce.Client.wait_op
    docker_plugin_gce_pd.Gce.Retry.retry docker_plugin_gce_pd.Gce.Retry.attempt_from
    docker_plugin_gce_pd.Gce.Retry.after_call docker_plugin_gce_pd.Gce.Disks.get_disk
    docker_plugin_gce_pd.Gce.Refs.is_holder_down
    docker_plugin_gce_pd.Gce.Refs.instance_name_from_ref docker_plugin_gce_pd.Prelude.Bytes.str_eq
    docker_plugin_gce_pd.Gce.Info.disk_info_from_proto
let_go = refl

ensure_detached_from_holder-Detached_example :
    Detached clock (api_with []) client data_name (instance_name_from_ref other) monday
ensure_detached_from_holder-Detached_example =
    ensure_detached_from_holder-Detached clock (api_with []) client data_name other monday let_go
