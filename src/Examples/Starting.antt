-- ===== src/Examples/Starting.antt =====
-- The theorems on the start of the plugin, in a world that counts the REST clients that are open.
use docker_plugin_gce_pd.Prelude.{
  ℕ, zero, suc, Option, ◌+◌, ◌-◌, ◌≡◌, refl, none, [], ok, is_ok, if◌then◌else◌,
}
use docker_plugin_gce_pd.Prelude.Bytes.{Bytes, codes, str_eq}
use docker_plugin_gce_pd.State.Files.{Fs}
use docker_plugin_gce_pd.Gce.Retry.{Runtime}
use docker_plugin_gce_pd.Gce.Client.{ComputeApi}
use docker_plugin_gce_pd.Gce.Info.{DiskProto}
use docker_plugin_gce_pd.Gce.Opening
use docker_plugin_gce_pd.Gce.Opening.{Library, Config, Opened, adapters, opened}
use docker_plugin_gce_pd.Cmd.Run.Counted.{CountsClients}
use docker_plugin_gce_pd.Cmd.Run.Leaks.{run-live}
use docker_plugin_gce_pd.Mount.Running.{System, succeeded}
use docker_plugin_gce_pd.Metadata.{Transport, Metadata, fetch, new, project_id}
use docker_plugin_gce_pd.Cmd.Run.{Platform, run, config}
use docker_plugin_gce_pd.Cmd.Run.Served.{Served, run-Served}
use docker_plugin_gce_pd.Examples.World.{new_year, data_proto}
use docker_plugin_gce_pd.Prelude.{◌∷◌}
use docker_plugin_gce_pd.Prelude.{some}
use docker_plugin_gce_pd.Prelude.{arith}

abbrev body_at : Bytes → Bytes
body_at url =
    if str_eq url (codes "http://metadata.google.internal/computeMetadata/v1/instance/zone")
    then codes "projects/1/zones/z"
    else codes "p"

abbrev server : Transport ℕ
server = record {
  invalid_url = λ url. none;
  get = λ url header w. (ok (record { status_code = 200; body = body_at url; broken = none }), w);
}

abbrev library : Library ℕ Unit Unit Unit Unit
library = record {
  new_disks_client = λ c w. (ok tt, 1 + w);
  new_instances_client = λ c w. (ok tt, 1 + w);
  close_disks = λ c w. (ok tt, w - 1);
  close_instances = λ c w. (ok tt, w - 1);
  insert = λ c p z d w. (ok tt, w);
  get = λ c p z name w. (ok (data_proto []), w);
  delete = λ c p z name w. (ok tt, w);
  list = λ c p z filter w. (tt, w);
  next = λ it w. (ok none, w);
  create_snapshot = λ c p z name s w. (ok tt, w);
  set_labels = λ c p z name f labels w. (ok tt, w);
  attach_disk = λ c p z i d w. (ok tt, w);
  detach_disk = λ c p z i d w. (ok tt, w);
  get_instance = λ c p z i w. (ok (codes "RUNNING"), w);
  wait = λ op w. (ok tt, w);
}

abbrev runtime : Runtime ℕ
runtime = record {
  rounds = 2;
  now = λ w. (0, w);
  utc = λ w. (new_year, w);
  int63n = λ n w. (0, w);
  sleep = λ n w. (tt, w);
  sleep_or_done = λ n w. (none, w);
  done = λ w. (none, w);
  grpc_code = λ e. none;
}

abbrev system : System ℕ
system = record {
  combined_output = λ argv w. (([], succeeded), w);
  stat = λ path w. (ok tt, w);
  mkdir_all = λ path w. (ok tt, w);
  read_file = λ path w. (ok [], w);
}

-- A VM without settings, state and disks, whose handler stops at once.
abbrev vm : Platform ℕ Unit Unit Unit Unit
vm = record {
  getenv = λ name. [];
  http = server;
  lib = library;
  runtime = runtime;
  system = system;
  list_rounds = 3;
  fraction = λ f scale unit. 0;
  serve_unix = λ g m d. (ok tt, d);
  serves_counted = λ g m d counted. counted;
  pick = λ tasks. 0;
}

abbrev no_files : Fs
no_files = record { files = []; script = [] }

abbrev learned : Metadata
learned = record { project_id = codes "p"; zone = codes "z"; instance_name = codes "p" }

fetched : (fetch (new server []) 0).0 ≡ ok learned
unfolding fetch docker_plugin_gce_pd.Metadata.fetch_zone project_id
    docker_plugin_gce_pd.Metadata.get new docker_plugin_gce_pd.Metadata.apply_options
    docker_plugin_gce_pd.Metadata.after_do docker_plugin_gce_pd.Metadata.after_read
    docker_plugin_gce_pd.Metadata.read_limited str_eq docker_plugin_gce_pd.Metadata.url_of
    docker_plugin_gce_pd.Prelude.Bytes.trim_left_byte docker_plugin_gce_pd.Metadata.fetch_name
    docker_plugin_gce_pd.Metadata.zone docker_plugin_gce_pd.Metadata.after_zone
    docker_plugin_gce_pd.Metadata.short_zone docker_plugin_gce_pd.Gce.Info.after_last
    docker_plugin_gce_pd.Metadata.checked_zone docker_plugin_gce_pd.Metadata.instance_name
    docker_plugin_gce_pd.Prelude.Bytes.is_space docker_plugin_gce_pd.Prelude.Bytes.trim_left
    docker_plugin_gce_pd.Prelude.Bytes.trim_space
fetched = refl

started : (run vm no_files 0).0 ≡ ok tt
unfolding docker_plugin_gce_pd.Cmd.Run.run docker_plugin_gce_pd.Cmd.Run.after_on_gce
    docker_plugin_gce_pd.Cmd.Run.after_fetch docker_plugin_gce_pd.Cmd.Run.after_scope
    docker_plugin_gce_pd.Cmd.Run.after_force docker_plugin_gce_pd.Cmd.Run.after_new
    docker_plugin_gce_pd.Cmd.Run.after_load docker_plugin_gce_pd.Cmd.Run.after_reconcile
    docker_plugin_gce_pd.Metadata.on_gce docker_plugin_gce_pd.Metadata.get
    docker_plugin_gce_pd.Metadata.new docker_plugin_gce_pd.Metadata.apply_options
    docker_plugin_gce_pd.Metadata.after_do docker_plugin_gce_pd.Metadata.after_read
    docker_plugin_gce_pd.Metadata.read_limited docker_plugin_gce_pd.Metadata.url_of
    docker_plugin_gce_pd.Metadata.fetch docker_plugin_gce_pd.Metadata.fetch_zone
    docker_plugin_gce_pd.Metadata.fetch_name docker_plugin_gce_pd.Metadata.project_id
    docker_plugin_gce_pd.Metadata.zone docker_plugin_gce_pd.Metadata.after_zone
    docker_plugin_gce_pd.Metadata.checked_zone docker_plugin_gce_pd.Metadata.short_zone
    docker_plugin_gce_pd.Metadata.instance_name docker_plugin_gce_pd.Prelude.Bytes.trim_left_byte
    docker_plugin_gce_pd.Prelude.Bytes.trim_space docker_plugin_gce_pd.Prelude.Bytes.trim_left
    docker_plugin_gce_pd.Prelude.Bytes.is_space docker_plugin_gce_pd.Prelude.Bytes.str_eq
    docker_plugin_gce_pd.Gce.Info.after_last docker_plugin_gce_pd.Cmd.Config.resolve_scope
    docker_plugin_gce_pd.Cmd.Config.resolve_force_detach_after docker_plugin_gce_pd.Gce.Opening.new
    docker_plugin_gce_pd.Gce.Opening.after_disks docker_plugin_gce_pd.Gce.Opening.open_instances
    docker_plugin_gce_pd.Gce.Opening.after_instances docker_plugin_gce_pd.Gce.Opening.credentials
    docker_plugin_gce_pd.Gce.Opening.adapters docker_plugin_gce_pd.Gce.Opening.drain
    docker_plugin_gce_pd.Gce.Opening.after_next docker_plugin_gce_pd.Gce.Opening.close
    docker_plugin_gce_pd.Gce.Client.new_client docker_plugin_gce_pd.State.Store.load
    docker_plugin_gce_pd.State.Store.decode docker_plugin_gce_pd.State.Store.reconcile
    docker_plugin_gce_pd.State.Store.reset_ref_counts docker_plugin_gce_pd.State.Store.persist
    docker_plugin_gce_pd.State.Store.list docker_plugin_gce_pd.State.Files.next_io
    docker_plugin_gce_pd.State.Files.write_state docker_plugin_gce_pd.State.Files.sorted_volumes
    docker_plugin_gce_pd.State.Files.sort_by_name docker_plugin_gce_pd.Prelude.Map.lookup
    docker_plugin_gce_pd.Driver.Lifecycle.new docker_plugin_gce_pd.Driver.Startup.reconcile
    docker_plugin_gce_pd.Driver.Startup.reconcile_listed
    docker_plugin_gce_pd.Driver.Startup.resume_deletes
    docker_plugin_gce_pd.Driver.Startup.align_store
    docker_plugin_gce_pd.Driver.Startup.restart_after
    docker_plugin_gce_pd.Driver.Startup.restart_counts
    docker_plugin_gce_pd.Driver.Startup.restore_after
    docker_plugin_gce_pd.Driver.Startup.restore_mounts
    docker_plugin_gce_pd.Driver.Startup.live_names docker_plugin_gce_pd.Gce.Disks.list_managed_disks
    docker_plugin_gce_pd.Gce.Retry.retry docker_plugin_gce_pd.Gce.Retry.attempt_from
    docker_plugin_gce_pd.Gce.Retry.after_call docker_plugin_gce_pd.Driver.Waiting.wait_background
    docker_plugin_gce_pd.Driver.Waiting.finish
started = refl

run-Served_example : Served vm no_files (run vm no_files 0).1
run-Served_example = run-Served vm no_files 0 started

vm-CountsClients : CountsClients vm (λ w. w)
vm-CountsClients = record {
  opens_disks = λ c w. refl;
  opens_instances = λ c w. refl;
  closes_disks = λ c w. refl;
  closes_instances = λ c w. refl;
  by_get = λ c j z name w. refl;
  by_list = λ c j z filter w. refl;
  by_next = λ it w. refl;
  by_delete = λ c j z name w. refl;
  by_snapshot = λ c j z name s w. refl;
  by_labels = λ c j z name f l w. refl;
  by_wait = λ op w. refl;
  by_runtime = λ n. record {
    by_now = λ w h. h;
    by_utc = λ w h. h;
    by_int63n = λ m w h. h;
    by_sleep = λ m w h. h;
    by_sleep_or_done = λ m w h. h;
    by_done = λ w h. h;
  };
  by_http = λ url h w. refl;
  by_read = λ path w. refl;
  by_serve = λ c d. refl;
}

run-live_example : (run vm no_files 3).1 ≡ 3
run-live_example = run-live vm (λ w. w) vm-CountsClients no_files 3
