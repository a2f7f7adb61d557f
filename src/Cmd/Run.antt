-- ===== src/Cmd/Run.antt =====
-- cmd/docker-volume-gcepd/main.go: run, with all of the packages under internal/ over one world
-- `W`. What they run on is given: the environment, net/http, the Compute library, the host and the
-- clock, the handler of go-plugins-helpers/volume, and the scheduler. The log is left out.
pub mod Served
pub mod Counted
pub mod Leaks
use docker_plugin_gce_pd.Prelude.{ℕ, List, [], ok, err, none, Bool, true, false}
use docker_plugin_gce_pd.Prelude.Bytes.{Bytes, codes}
use docker_plugin_gce_pd.Prelude.Eff.{Eff, ◌>>=◌, return}
use docker_plugin_gce_pd.Errors.{Res, not_on_gce}
use docker_plugin_gce_pd.State.Files.{Fs}
use docker_plugin_gce_pd.State.Store.{Store, load}
use docker_plugin_gce_pd.Gce.Retry.{Runtime}
use docker_plugin_gce_pd.Gce.Opening
use docker_plugin_gce_pd.Gce.Opening.{Library, Config, Opened, adapters}
use docker_plugin_gce_pd.Mount.Running.{System, real_host}
use docker_plugin_gce_pd.Metadata as MetadataServer
use docker_plugin_gce_pd.Metadata.{Transport, Metadata}
use docker_plugin_gce_pd.Driver.Interface.{GceClient, Mounter, Task, Driver}
use docker_plugin_gce_pd.Driver.Lifecycle
use docker_plugin_gce_pd.Driver.Startup.{reconcile}
use docker_plugin_gce_pd.Driver.Waiting.{IsCounted, wait_background}
use docker_plugin_gce_pd.Driver.Wiring.{gce_client, host_mounter}
use docker_plugin_gce_pd.Cmd.Config.{
  scope_env, force_detach_after_env, resolve_scope, resolve_force_detach_after,
}

pub record Platform (W D I It O : Type 0) : Type 0 where
  pub getenv : Bytes → Bytes
  pub http : Transport W
  pub lib : Library W D I It O
  pub runtime : Runtime W
  pub system : System W
  -- the rounds of the adapter's List
  pub list_rounds : ℕ
  -- the float64 product of ParseDuration
  pub fraction : ℕ → ℕ → ℕ → ℕ
  -- ServeUnix of the handler of a driver with this client and this mounter
  pub serve_unix : GceClient W → Mounter W → Eff (Driver W) (Res (Unit {0}))
  -- it starts and ends the driver's goroutines through the driver's methods alone, which count them
  pub serves_counted :
      (g : GceClient W) (m : Mounter W) (d : Driver W)
      → IsCounted d
      → IsCounted (serve_unix g m d).1
  pub pick : List Task → ℕ

abbrev pub key_file_env : Bytes
key_file_env = codes "GCEPD_KEYFILE"

abbrev pub default_path : Bytes
default_path = codes "/var/lib/docker-gcepd/state.json"

abbrev pub default_device_timeout : ℕ
default_device_timeout = 60_000_000_000

module _ {W D I It O : Type 0} (p : Platform W D I It O) where
  -- What `driver.New` is given.
  abbrev pub client_of : Opened D I → GceClient W
  client_of c = gce_client p.runtime (adapters p.lib p.list_rounds c) c.client

  abbrev pub mounter : Mounter W
  mounter = host_mounter p.runtime (real_host p.system) default_device_timeout

  -- run after Reconcile.
  unfoldable pub after_reconcile : Opened D I → Res (Unit {0}) → Eff (Driver W) (Res (Unit {0}))
  after_reconcile c (err e) = return (err e)
  after_reconcile c (ok _) = do
    r ← p.serve_unix (client_of c) mounter
    λ d. (r, wait_background (client_of c) mounter p.pick d)

  -- run after Load, up to the deferred Close.
  unfoldable pub after_load : Opened D I → Bytes → Res Store → Eff W (Res (Unit {0}))
  after_load c scope (err e) = return (err e)
  after_load c scope (ok s) = λ w.
      let r = reconcile (client_of c) mounter (Lifecycle.new w s scope) in
      let q = after_reconcile c r.0 r.1 in (q.0, q.1.world)

  -- run after gce.New, with the deferred Close, whose result is dropped.
  unfoldable pub after_new : Fs → Bytes → Res (Opened D I) → Eff W (Res (Unit {0}))
  after_new fs scope (err e) = return (err e)
  after_new fs scope (ok c) = do
    r ← after_load c scope (load default_path fs)
    _ ← Opening.close p.lib c
    return r

  abbrev pub config : Metadata → Bytes → ℕ → Config
  config id scope force_after = record {
    project_id = id.project_id;
    zone = id.zone;
    this_instance = id.instance_name;
    scope = scope;
    force_detach_after = force_after;
    backoff = none;
  }

  -- run after resolveForceDetachAfter.
  unfoldable pub after_force : Fs → Metadata → Bytes → Res ℕ → Eff W (Res (Unit {0}))
  after_force fs id scope (err e) = return (err e)
  after_force fs id scope (ok n) = do
    made ← Opening.new p.lib (config id scope n) (p.getenv key_file_env)
    after_new fs scope made

  -- run after resolveScope.
  unfoldable pub after_scope : Fs → Metadata → Res Bytes → Eff W (Res (Unit {0}))
  after_scope fs id (err e) = return (err e)
  after_scope fs id (ok scope) =
      after_force fs id scope
        (resolve_force_detach_after p.fraction (p.getenv force_detach_after_env))

  -- run after Fetch.
  unfoldable pub after_fetch : Fs → Res Metadata → Eff W (Res (Unit {0}))
  after_fetch fs (err e) = return (err e)
  after_fetch fs (ok id) = after_scope fs id (resolve_scope (p.getenv scope_env))

  -- run after OnGCE.
  unfoldable pub after_on_gce : Fs → Bool → Eff W (Res (Unit {0}))
  after_on_gce fs false = return (err not_on_gce)
  after_on_gce fs true = do
    id ← MetadataServer.fetch (MetadataServer.new p.http [])
    after_fetch fs id

  -- run, with the files that it finds.
  unfoldable pub run : Fs → Eff W (Res (Unit {0}))
  run fs = do on ← MetadataServer.on_gce (MetadataServer.new p.http []); after_on_gce fs on
