-- ===== src/Examples/World.antt =====
-- A small world for the examples: a log of the calls that reach it, a volume, and a Compute API.
use docker_plugin_gce_pd.Prelude.{ℕ, ◌+◌, List, [], ◌∷◌, none, true}
use docker_plugin_gce_pd.Prelude.{ok, err}
use docker_plugin_gce_pd.Prelude.Bytes.{Bytes, codes}
use docker_plugin_gce_pd.Prelude.Map.{Map}
use docker_plugin_gce_pd.Errors.{system, disk_not_found}
use docker_plugin_gce_pd.State.Volume.{Volume, created}
use docker_plugin_gce_pd.State.Files.{Io, fault}
use docker_plugin_gce_pd.State.Store.{Store}
use docker_plugin_gce_pd.Gce.Options.{
  DiskOptions, default_options, managed_by_key, managed_by_value,
}
use docker_plugin_gce_pd.Gce.Info.{DiskInfo, DiskProto}
use docker_plugin_gce_pd.Gce.Retry.{Civil, Runtime, BackoffConfig}
use docker_plugin_gce_pd.Gce.Client.{ComputeApi, Client}
use docker_plugin_gce_pd.Driver.Interface.{GceClient, Mounter, Driver}
use docker_plugin_gce_pd.Driver.Convert.{to_state_options}
use docker_plugin_gce_pd.Prelude.{Bool}
use docker_plugin_gce_pd.Prelude.{false}

abbrev pub Log : Type 0
Log = List Bytes

abbrev pub data_name : Bytes
data_name = codes "data-1"

abbrev pub noon : Bytes
noon = codes "12:00"

abbrev pub later : Bytes
later = codes "13:00"

abbrev pub plain_raw : Map Bytes
plain_raw = (codes "size", codes "20") ∷ []

abbrev pub raw_options : Map Bytes
raw_options =
    (codes "size", codes "20") ∷ (codes "labels", codes "env=dev,gcepd-deleting=true") ∷ []

abbrev pub plain_options : DiskOptions
plain_options = record default_options { size_gb = 20 }

abbrev pub data_info : DiskInfo
data_info = record {
  name = data_name;
  size_gb = 20;
  disk_type = codes "pd-balanced";
  status = codes "READY";
  users = [];
  labels = (managed_by_key, managed_by_value) ∷ [];
  self_link = codes "disks/data-1";
}

-- GCE has no disk until one is created, and lists one.
abbrev pub empty_gce : GceClient Log
empty_gce = record {
  create_disk = λ name opts w. (ok data_info, codes "create" ∷ w);
  get_disk = λ name w. (err (disk_not_found name), codes "get" ∷ w);
  delete_disk = λ name snapshot_first w. (ok tt, codes "delete" ∷ w);
  list_managed_disks = λ w. (ok (data_info ∷ []), codes "list" ∷ w);
  attach_disk = λ name w. (ok tt, codes "attach" ∷ w);
  detach_disk = λ name w. (ok tt, codes "detach" ∷ w);
}

-- A host on which no mount succeeds, though all targets are mounted.
abbrev pub busy_host : Mounter Log
busy_host = record {
  wait_for_device = λ name w. (ok (codes "/dev/sdb"), codes "wait" ∷ w);
  ensure_formatted = λ device fs_type w. (ok fs_type, codes "format" ∷ w);
  mount = λ device target w. (err (system (codes "busy")), codes "mount" ∷ w);
  unmount = λ target w. (err (system (codes "busy")), codes "umount" ∷ w);
  is_mounted = λ target w. (ok true, w);
}

abbrev pub volume_with : ℕ → Volume
volume_with n = record {
  name = data_name;
  options = to_state_options plain_options;
  status = created;
  mountpoint = [];
  ref_count = n;
  created_at = noon;
}

abbrev pub store_of : List Io → Map Volume → Store
store_of script vols = record {
  path = codes "/state.json";
  vols = vols;
  fs = record { files = []; script = script };
}

abbrev pub driver_of : Store → Driver Log
driver_of s = record { store = s; world = []; background = []; bg = 0; scope = codes "local" }

-- A state with the volume at a count.
abbrev pub counting : ℕ → Driver Log
counting n = driver_of (store_of [] ((data_name, volume_with n) ∷ []))

abbrev pub no_volumes : Driver Log
no_volumes = driver_of (store_of [] [])

-- A disk that is full.
abbrev pub full_disk : List Io
full_disk = fault (system (codes "ENOSPC")) none ∷ []

-- A world with a clock, in which a disk may have been put in a snapshot and deleted.
pub record Site : Type 0 where
  pub time : ℕ
  pub snapshot : Bool
  pub deleted : Bool

abbrev pub monday : Site
monday = record { time = 5; snapshot = false; deleted = false }

abbrev pub new_year : Civil
new_year = record { year = 2024; month = 1; day = 2; hour = 3; minute = 4; second = 5 }

abbrev pub clock : Runtime Site
clock = record {
  rounds = 11;
  now = λ w. (w.time, record w { time = w.time + 1 });
  utc = λ w. (new_year, w);
  int63n = λ n w. (0, w);
  sleep = λ n w. (tt, record w { time = w.time + n });
  sleep_or_done = λ n w. (none, record w { time = w.time + n });
  done = λ w. (none, w);
  grpc_code = λ e. none;
}

abbrev pub short_backoff : BackoffConfig
short_backoff = record {
  initial_interval = 1;
  max_interval = 4;
  multiply = λ n. n + n;
  max_elapsed = 10;
}

abbrev pub data_proto : List Bytes → DiskProto
data_proto users = record {
  name = data_name;
  size_gb = 20;
  type_url = codes "zones/z/diskTypes/pd-ssd";
  status = codes "READY";
  users = users;
  labels = [];
  self_link = codes "disks/data-1";
  label_fingerprint = codes "f";
}

-- An API whose only disk has the users given, and whose operations are done at once.
abbrev pub api_with : List Bytes → ComputeApi Site (Unit {0})
api_with users = record {
  insert_disk = λ p z d w. (ok tt, w);
  get_disk = λ p z name w. (ok (data_proto users), w);
  delete_disk = λ p z name w. (ok tt, record w { deleted = true });
  list_disks = λ p z filter w. (ok (data_proto users ∷ []), w);
  create_snapshot = λ p z name s w. (ok tt, record w { snapshot = true });
  set_labels = λ p z name f labels w. (ok tt, w);
  attach_disk = λ p z i d w. (ok tt, w);
  detach_disk = λ p z i d w. (ok tt, w);
  get_instance = λ p z i w. (ok (codes "RUNNING"), w);
  wait = λ op w. (ok tt, w);
}

abbrev pub client : Client
client = record {
  project_id = codes "p";
  zone = codes "z";
  this_instance = codes "vm-1";
  scope = codes "local";
  force_detach_after = 3;
  backoff = short_backoff;
}
