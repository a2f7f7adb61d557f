-- ===== src/Examples/Views.antt =====
-- The theorems on whole runs of the driver, with one volume.
use docker_plugin_gce_pd.Prelude.{
  inl, ℕ, ◌≡◌, refl, true, false, none, some, [], ◌∷◌, ok, err, arith, List,
}
use docker_plugin_gce_pd.Prelude.Bytes.{Bytes, codes}
use docker_plugin_gce_pd.Prelude.Map.{lookup}
use docker_plugin_gce_pd.Driver.Interface.{Driver, Task}
use docker_plugin_gce_pd.Driver.Startup.{reconcile}
use docker_plugin_gce_pd.Driver.Waiting.{wait_background, Finished}
use docker_plugin_gce_pd.Driver.Counted.{wait_background-Finished}
use docker_plugin_gce_pd.Driver.Invariant.{Step, Reach}
use docker_plugin_gce_pd.Driver.Lifecycle.{new}
use docker_plugin_gce_pd.Gce.Options.{deleting_key}
use docker_plugin_gce_pd.Driver.Remounted.Twice.{reconcile_twice}
use docker_plugin_gce_pd.Examples.World.{
  Log, data_name, data_info, empty_gce, busy_host, counting, no_volumes,
}
use docker_plugin_gce_pd.Driver.Interface.{GceClient}
use docker_plugin_gce_pd.Driver.Lifecycle.{mount}

-- GCE shows a disk whose delete was interrupted.
abbrev marked_gce : GceClient Log
marked_gce = record empty_gce {
  list_managed_disks =
      λ w. (ok (record data_info { labels = (deleting_key, codes "true") ∷ [] } ∷ []), w);
}

abbrev restarted : Driver Log
restarted = (reconcile marked_gce busy_host (new [] no_volumes.store (codes "local"))).1

-- The delete has been resumed, and a Mount is served.
abbrev resumed : Driver Log
resumed = (mount marked_gce busy_host data_name restarted).1

wait_background-Finished_example :
    (order : List Task) × Finished marked_gce busy_host resumed
      (wait_background marked_gce busy_host (λ ts. 1) resumed)
      order
wait_background-Finished_example =
    wait_background-Finished marked_gce busy_host (λ ts. 1) [] no_volumes.store (codes "local") 1
      resumed (Reach.next Reach.here (Step.mounts data_name restarted))

listed : (reconcile empty_gce busy_host (counting 7)).0 ≡ ok tt
unfolding reconcile docker_plugin_gce_pd.Driver.Startup.reconcile_listed
    docker_plugin_gce_pd.Driver.Startup.restart_after
    docker_plugin_gce_pd.Driver.Startup.align_store docker_plugin_gce_pd.State.Store.reconcile
    docker_plugin_gce_pd.State.Files.write_state docker_plugin_gce_pd.Driver.Startup.resume_deletes
    docker_plugin_gce_pd.Gce.Info.deleting docker_plugin_gce_pd.Prelude.Bytes.str_eq lookup
    docker_plugin_gce_pd.Driver.Startup.restart_counts
    docker_plugin_gce_pd.Driver.Startup.restore_after
    docker_plugin_gce_pd.State.Store.reset_ref_counts
listed = refl

listed_again :
    (reconcile empty_gce busy_host (reconcile empty_gce busy_host (counting 7)).1).0 ≡ ok tt
unfolding reconcile docker_plugin_gce_pd.Driver.Startup.reconcile_listed
    docker_plugin_gce_pd.Driver.Startup.restart_after
    docker_plugin_gce_pd.Driver.Startup.align_store docker_plugin_gce_pd.State.Store.reconcile
    docker_plugin_gce_pd.State.Files.write_state docker_plugin_gce_pd.Driver.Startup.resume_deletes
    docker_plugin_gce_pd.Gce.Info.deleting docker_plugin_gce_pd.Prelude.Bytes.str_eq lookup
    docker_plugin_gce_pd.Driver.Startup.restart_counts
    docker_plugin_gce_pd.Driver.Startup.restore_after
    docker_plugin_gce_pd.State.Store.reset_ref_counts
    docker_plugin_gce_pd.Driver.Startup.restore_mounts
    docker_plugin_gce_pd.Driver.Startup.restore_mount docker_plugin_gce_pd.State.Store.list
    docker_plugin_gce_pd.State.Files.sorted_volumes docker_plugin_gce_pd.Driver.Startup.live_names
    docker_plugin_gce_pd.State.Store.set_mounted
listed_again = refl

reconcile_twice_example :
    lookup data_name
      (reconcile empty_gce busy_host (reconcile empty_gce busy_host (counting 7)).1).1.store.vols
    ≡ lookup data_name (reconcile empty_gce busy_host (counting 7)).1.store.vols
reconcile_twice_example =
    reconcile_twice empty_gce busy_host (λ w. Unit) (λ target. true) (λ target w p. refl)
      (λ target w p. tt) (data_info ∷ []) (λ w p. refl) (λ w p. tt) data_name (counting 7) tt
      (unfold lookup in ((refl, tt), (refl, tt))) listed listed_again
