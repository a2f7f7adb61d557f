-- ===== src/Driver/Interface.antt =====
-- driver.go: the interfaces gceClient and mounter, over a state `W` of the world outside of the
-- driver, and the driver's own state. The store is that of internal/state.
use docker_plugin_gce_pd.Prelude.{ℕ, Bool, List}
use docker_plugin_gce_pd.Prelude.Bytes.{Bytes}
use docker_plugin_gce_pd.Prelude.Eff.{Eff}
use docker_plugin_gce_pd.Errors.{Res}
use docker_plugin_gce_pd.State.Store.{Store}
use docker_plugin_gce_pd.Gce.Options.{DiskOptions}
use docker_plugin_gce_pd.Gce.Info.{DiskInfo}

pub record GceClient (W : Type 0) : Type 0 where
  pub create_disk : Bytes → DiskOptions → Eff W (Res DiskInfo)
  pub get_disk : Bytes → Eff W (Res DiskInfo)
  pub delete_disk : Bytes → Bool → Eff W (Res (Unit {0}))
  pub list_managed_disks : Eff W (Res (List DiskInfo))
  pub attach_disk : Bytes → Eff W (Res (Unit {0}))
  pub detach_disk : Bytes → Eff W (Res (Unit {0}))

pub record Mounter (W : Type 0) : Type 0 where
  pub wait_for_device : Bytes → Eff W (Res Bytes)
  pub ensure_formatted : Bytes → Bytes → Eff W (Res Bytes)
  pub mount : Bytes → Bytes → Eff W (Res (Unit {0}))
  pub unmount : Bytes → Eff W (Res (Unit {0}))
  pub is_mounted : Bytes → Eff W (Res Bool)

-- A delete that `deleteInBackground` has started and that is not done yet.
pub record Task : Type 0 where
  pub name : Bytes
  pub snapshot_first : Bool

-- `background` has the goroutines of `deleteInBackground` that have not called DeleteDisk yet, and
-- `bg` is the counter of the WaitGroup.
pub record Driver (W : Type 0) : Type 0 where
  pub store : Store
  pub world : W
  pub background : List Task
  pub bg : ℕ
  pub scope : Bytes

-- A call that sees the world alone, and one that sees the store alone.
abbrev pub outside : {W A : Type 0} → Eff W A → Eff (Driver W) A
outside call d = let r = call d.world in (r.0, record d { world = r.1 })

abbrev pub in_store : {W A : Type 0} → Eff Store A → Eff (Driver W) A
in_store call d = let r = call d.store in (r.0, record d { store = r.1 })
