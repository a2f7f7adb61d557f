-- ===== src/Driver/Serving.antt =====
-- From the state file to the requests: Load, New, Reconcile, and what is served after them, as
-- cmd/docker-volume-gcepd/main.go runs them.
use docker_plugin_gce_pd.Prelude.{ℕ, suc, ◌<◌, ◌^◌, ◌≡◌, ok}
use docker_plugin_gce_pd.Prelude.Bytes.{Bytes}
use docker_plugin_gce_pd.State.Files.{Fs}
use docker_plugin_gce_pd.State.Store.{Store, load}
use docker_plugin_gce_pd.State.Reload.{load-Named}
use docker_plugin_gce_pd.Driver.Interface.{GceClient, Mounter, Driver}
use docker_plugin_gce_pd.Driver.Lifecycle.{new}
use docker_plugin_gce_pd.Driver.Startup.{reconcile}
use docker_plugin_gce_pd.Driver.Invariant.{IsSound, Reach, Reach-IsSound}
use docker_plugin_gce_pd.Driver.Recovery.{reconcile-IsSound}

module _ {W : Type 0} (g : GceClient W) (m : Mounter W) where
  -- Whatever the state file held: where Load and Reconcile return no error, then along any fewer
  -- than 2^63 - 1 requests and background deletes every record stands under its own name, once,
  -- with a count at most one more than their number and a status and a mount point that agree with
  -- it.
  pub served-IsSound :
      (path scope : Bytes) (fs : Fs) (s : Store) (w : W) (n : ℕ) (d : Driver W)
      → load path fs ≡ ok s
      → (reconcile g m (new w s scope)).0 ≡ ok tt
      → suc n < 2 ^ 63
      → Reach g m (reconcile g m (new w s scope)).1 n d
      → IsSound (suc n) d
  served-IsSound path scope fs s w n d loaded ready lt reached =
      Reach-IsSound g m n lt reached
        (reconcile-IsSound g m (new w s scope) (unfold new in load-Named path fs s loaded) ready)
