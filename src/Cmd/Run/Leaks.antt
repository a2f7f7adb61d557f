-- ===== src/Cmd/Run/Leaks.antt =====
-- However run ends, it has closed the REST clients that it has opened.
use docker_plugin_gce_pd.Prelude.{ℕ, ◌+◌, ◌≡◌, refl, ◌∙◌, ok, err, is_ok, if◌then◌else◌}
use docker_plugin_gce_pd.Prelude.Bytes.{Bytes}
use docker_plugin_gce_pd.Errors.{Res}
use docker_plugin_gce_pd.Prelude.{true, false}
use docker_plugin_gce_pd.State.Files.{Fs}
use docker_plugin_gce_pd.State.Store.{Store, load}
use docker_plugin_gce_pd.Gce.Disks.Keeping.{list_managed_disks-Keeps, delete_disk-Keeps}
use docker_plugin_gce_pd.Gce.Opening
use docker_plugin_gce_pd.Gce.Opening.Handles.{new-live, close-live}
use docker_plugin_gce_pd.Driver.Lifecycle
use docker_plugin_gce_pd.Driver.Startup.{reconcile}
use docker_plugin_gce_pd.Driver.Worlds.{reconcile-keeps, wait_background-keeps}
use docker_plugin_gce_pd.Cmd.Config.{
  resolve_scope, resolve_force_detach_after, force_detach_after_env, scope_env,
}
use docker_plugin_gce_pd.Cmd.Run.{
  default_path, after_reconcile, after_load, after_new, after_force, after_scope, after_fetch,
  after_on_gce, run, config, key_file_env,
}
use docker_plugin_gce_pd.Gce.Opening.{Opened, adapters, drain, after_next}
use docker_plugin_gce_pd.Metadata as MetadataServer
use docker_plugin_gce_pd.Metadata.{Metadata}
use docker_plugin_gce_pd.Driver.Interface.{Driver}
use docker_plugin_gce_pd.Cmd.Run.{Platform, client_of, mounter}
use docker_plugin_gce_pd.Prelude.{arith}
use docker_plugin_gce_pd.Cmd.Run.{Bool}
use docker_plugin_gce_pd.Cmd.Run.Counted.{
  CountsClients, server, adapters-Untouched, is_mounted-live, fetch-live, on_gce-live,
}

module _ {W D I It O : Type 0} (p : Platform W D I It O) (live : W → ℕ)
    (counts : CountsClients p live) where
  after_reconcile-live :
      (c : Opened D I) (r : Res (Unit {0})) (d : Driver W)
      → live (after_reconcile p c r d).1.world ≡ live d.world
  unfolding after_reconcile
  after_reconcile-live c (err e) d = refl
  after_reconcile-live c (ok _) d =
      let n = live d.world in
      let d' = (p.serve_unix (client_of p c) (mounter p) d).1 in
      wait_background-keeps (client_of p c) (mounter p) (λ w. live w ≡ n)
        (delete_disk-Keeps p.runtime (adapters p.lib p.list_rounds c) c.client (λ w. live w ≡ n)
          (counts.by_runtime n) (adapters-Untouched p live counts n c))
        p.pick d' (counts.by_serve c d)

  after_load-live :
      (c : Opened D I) (scope : Bytes) (r : Res Store) (w : W)
      → live (after_load p c scope r w).1 ≡ live w
  unfolding after_load Lifecycle.new
  after_load-live c scope (err e) w = refl
  after_load-live c scope (ok s) w =
      let d = Lifecycle.new w s scope in
      let r = reconcile (client_of p c) (mounter p) d in
      after_reconcile-live c r.0 r.1
      ∙ reconcile-keeps (client_of p c) (mounter p) (λ v. live v ≡ live w)
          (is_mounted-live p live counts (live w))
          (list_managed_disks-Keeps p.runtime (adapters p.lib p.list_rounds c) c.client
            (λ v. live v ≡ live w) (counts.by_runtime (live w))
            (adapters-Untouched p live counts (live w) c))
          d refl

  after_new-live :
      (fs : Fs) (scope : Bytes) (r : Res (Opened D I)) (n : ℕ) (w : W)
      → live w ≡ (if is_ok r then 2 + n else n)
      → live (after_new p fs scope r w).1 ≡ n
  unfolding after_new
  after_new-live fs scope (err e) n w h = h
  after_new-live fs scope (ok c) n w h =
      let w' = (after_load p c scope (load default_path fs) w).1 in
      close-live p.lib live counts.opens_disks counts.opens_instances counts.closes_disks
        counts.closes_instances c w'
      ∙ rw (after_load-live c scope (load default_path fs) w, h) (omega arith)

  after_force-live :
      (fs : Fs) (id : Metadata) (scope : Bytes) (r : Res ℕ) (w : W)
      → live (after_force p fs id scope r w).1 ≡ live w
  unfolding after_force
  after_force-live fs id scope (err e) w = refl
  after_force-live fs id scope (ok n) w =
      let r = Opening.new p.lib (config p id scope n) (p.getenv key_file_env) w in
      after_new-live fs scope r.0 (live w) r.1 (
        new-live p.lib live counts.opens_disks counts.opens_instances counts.closes_disks
          counts.closes_instances (config p id scope n) (p.getenv key_file_env) w)

  after_scope-live :
      (fs : Fs) (id : Metadata) (r : Res Bytes) (w : W) → live (after_scope p fs id r w).1 ≡ live w
  unfolding after_scope
  after_scope-live fs id (err e) w = refl
  after_scope-live fs id (ok scope) w =
      after_force-live fs id scope
        (resolve_force_detach_after p.fraction (p.getenv force_detach_after_env)) w

  after_fetch-live : (fs : Fs) (r : Res Metadata) (w : W) → live (after_fetch p fs r w).1 ≡ live w
  unfolding after_fetch
  after_fetch-live fs (err e) w = refl
  after_fetch-live fs (ok id) w = after_scope-live fs id (resolve_scope (p.getenv scope_env)) w

  after_on_gce-live : (fs : Fs) (on : Bool) (w : W) → live (after_on_gce p fs on w).1 ≡ live w
  unfolding after_on_gce
  after_on_gce-live fs false w = refl
  after_on_gce-live fs true w =
      let r = MetadataServer.fetch (server p live counts) w in
      after_fetch-live fs r.0 r.1 ∙ fetch-live p live counts w

  -- Where `live` counts the REST clients that are open: whatever the outside answers and at
  -- whichever stage run ends, with an error or without, it leaves as many of them open as there
  -- were.
  pub run-live : (fs : Fs) (w : W) → live (run p fs w).1 ≡ live w
  unfolding run
  run-live fs w =
      let r = MetadataServer.on_gce (server p live counts) w in
      after_on_gce-live fs r.0 r.1 ∙ on_gce-live p live counts w
