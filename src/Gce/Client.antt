-- ===== src/Gce/Client.antt =====
-- gce/gce.go: the client, and the part of the Compute API that it calls, which is third-party
-- code: an interface over the world `W` with operations of a type `O`.
use docker_plugin_gce_pd.Prelude.{
  ℕ, Bool, Option, none, some, List, [], ok, err, ◌==◌, if◌then◌else◌,
}
use docker_plugin_gce_pd.Prelude.Bytes.{Bytes, codes, str_eq}
use docker_plugin_gce_pd.Prelude.Map.{Map}
use docker_plugin_gce_pd.Prelude.Eff.{Eff, ◌>>=◌, return}
use docker_plugin_gce_pd.Errors.{Res, wrapped, waiting_for_operation}
use docker_plugin_gce_pd.Gce.Info.{DiskProto}
use docker_plugin_gce_pd.Gce.Retry.{Runtime, BackoffConfig, default_backoff, retry}

abbrev pub scope_local : Bytes
scope_local = codes "local"

abbrev pub scope_global : Bytes
scope_global = codes "global"

-- The fields of the Disk in an InsertDiskRequest.
pub record NewDisk : Type 0 where
  pub name : Bytes
  pub size_gb : ℕ
  pub type_url : Bytes
  pub labels : Map Bytes
  pub source_snapshot : Option Bytes
  pub source_image : Option Bytes

pub record NewSnapshot : Type 0 where
  pub name : Bytes
  pub labels : Map Bytes

pub record AttachedDisk : Type 0 where
  pub source : Bytes
  pub device_name : Bytes
  pub mode : Bytes
  pub boot : Bool
  pub auto_delete : Bool

-- The calls of diskAPI and instanceAPI, with the project and the zone first, and the wait of an
-- operation.
pub record ComputeApi (W O : Type 0) : Type 0 where
  pub insert_disk : Bytes → Bytes → NewDisk → Eff W (Res O)
  pub get_disk : Bytes → Bytes → Bytes → Eff W (Res DiskProto)
  pub delete_disk : Bytes → Bytes → Bytes → Eff W (Res O)
  -- the last argument is the filter
  pub list_disks : Bytes → Bytes → Bytes → Eff W (Res (List DiskProto))
  pub create_snapshot : Bytes → Bytes → Bytes → NewSnapshot → Eff W (Res O)
  -- the disk, the fingerprint and the labels
  pub set_labels : Bytes → Bytes → Bytes → Bytes → Map Bytes → Eff W (Res O)
  -- the instance and the disk, or the device name
  pub attach_disk : Bytes → Bytes → Bytes → AttachedDisk → Eff W (Res O)
  pub detach_disk : Bytes → Bytes → Bytes → Bytes → Eff W (Res O)
  -- the status of an instance
  pub get_instance : Bytes → Bytes → Bytes → Eff W (Res Bytes)
  pub wait : O → Eff W (Res (Unit {0}))

pub record Client : Type 0 where
  pub project_id : Bytes
  pub zone : Bytes
  pub this_instance : Bytes
  pub scope : Bytes
  pub force_detach_after : ℕ
  pub backoff : BackoffConfig

abbrev pub default_force_detach_after : ℕ
default_force_detach_after = 30_000_000_000

-- newClient: the defaults for what the configuration leaves empty. `none` is the zero value of
-- BackoffConfig.
unfoldable pub new_client : Bytes → Bytes → Bytes → Bytes → ℕ → Option BackoffConfig → Client
new_client project zone this_instance scope force_after backoff = record {
  project_id = project;
  zone = zone;
  this_instance = this_instance;
  scope = if str_eq scope [] then scope_local else scope;
  force_detach_after = if force_after == 0 then default_force_detach_after else force_after;
  backoff = elim backoff [ none ↦ default_backoff | some b ↦ b ];
}

module _ {W O : Type 0} (rt : Runtime W) (api : ComputeApi W O) (c : Client) where
  -- waitOp
  unfoldable pub wait_op : O → Eff W (Res (Unit {0}))
  wait_op op = do
    r ← api.wait op
    elim r [ ok _ ↦ return (ok tt) | err e ↦ return (err (wrapped waiting_for_operation e)) ]

  -- The closure that a call with an operation is retried as: the call, then the wait.
  unfoldable pub issue : Eff W (Res O) → Eff W (Res (Unit {0}))
  unfolding wait_op
  issue call = do r ← call; elim r [ err e ↦ return (err e) | ok op ↦ wait_op op ]

  unfoldable pub retry_op : Eff W (Res O) → Eff W (Res (Unit {0}))
  unfolding issue retry
  retry_op call = retry rt c.backoff (issue call)
