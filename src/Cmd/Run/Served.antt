-- ===== src/Cmd/Run/Served.antt =====
-- What has happened when run returns no error.
use docker_plugin_gce_pd.Prelude.{ℕ, ◌≡◌, refl, ap, ◌∙◌, Bool, true, false, [], ok, err}
use docker_plugin_gce_pd.Prelude.Bytes.{Bytes}
use docker_plugin_gce_pd.Errors.{Res}
use docker_plugin_gce_pd.State.Files.{Fs}
use docker_plugin_gce_pd.State.Store.{Store, load}
use docker_plugin_gce_pd.State.Reload.{load-Named}
use docker_plugin_gce_pd.Gce.Opening
use docker_plugin_gce_pd.Gce.Opening.{Opened}
use docker_plugin_gce_pd.Metadata as MetadataServer
use docker_plugin_gce_pd.Metadata.{Metadata}
use docker_plugin_gce_pd.Driver.Interface.{Driver}
use docker_plugin_gce_pd.Driver.Lifecycle
use docker_plugin_gce_pd.Driver.Startup.{reconcile}
use docker_plugin_gce_pd.Driver.Invariant.{IsSound}
use docker_plugin_gce_pd.Driver.Recovery.{reconcile-IsSound}
use docker_plugin_gce_pd.Driver.Counted.{started-IsCounted}
use docker_plugin_gce_pd.Driver.Waiting.{IsCounted, wait_background, wait_background-counted}
use docker_plugin_gce_pd.Cmd.Config.{
  resolve_scope, resolve_force_detach_after, force_detach_after_env, scope_env,
}
use docker_plugin_gce_pd.Cmd.Run.{
  Platform, client_of, mounter, default_path, after_reconcile, after_load, after_new, after_force,
  after_scope, after_fetch, after_on_gce, run, config, key_file_env,
}

module _ {W D I It O : Type 0} (p : Platform W D I It O) where
  -- The metadata server has named this identity.
  abbrev pub Identified : Metadata → Type 0
  Identified id = (u : W) × ((MetadataServer.fetch (MetadataServer.new p.http []) u).0 ≡ ok id)

  -- New has made the client from the identity and the settings in the environment.
  abbrev pub Created : Bytes → Opened D I → Type 0
  Created scope c =
      (id : Metadata) × (n : ℕ) × (v : W) × Identified id
      × (resolve_scope (p.getenv scope_env) ≡ ok scope)
      × (resolve_force_detach_after p.fraction (p.getenv force_detach_after_env) ≡ ok n)
      × ((Opening.new p.lib (config p id scope n) (p.getenv key_file_env) v).0 ≡ ok c)

  -- A client has been opened, the state has been loaded and reconciled, a driver with sound
  -- records has been served without an error, the pending deletes have ended, and the client has
  -- been closed.
  pub record Served (fs : Fs) (w' : W) : Type 0 where
    pub client : Opened D I
    pub store : Store
    pub scope : Bytes
    pub made : Created scope client
    pub start : W
    pub loaded : load default_path fs ≡ ok store
    pub reconciled :
        (reconcile (client_of p client) (mounter p) (Lifecycle.new start store scope)).0 ≡ ok tt
    pub driver : Driver W
    pub same :
        driver ≡ (reconcile (client_of p client) (mounter p) (Lifecycle.new start store scope)).1
    pub sound : IsSound 1 driver
    pub left : Driver W
    pub waited :
        left
        ≡ wait_background
            (client_of p client)
            (mounter p)
            p.pick
            (p.serve_unix (client_of p client) (mounter p) driver).1
    pub ended : left.background ≡ []
    pub served : (p.serve_unix (client_of p client) (mounter p) driver).0 ≡ ok tt
    pub closed : w' ≡ (Opening.close p.lib client left.world).1

  after_reconcile_ok :
      (c : Opened D I) (r : Res (Unit {0})) (d : Driver W)
      → (after_reconcile p c r d).0 ≡ ok tt
      → (r ≡ ok tt)
        × ((p.serve_unix (client_of p c) (mounter p) d).0 ≡ ok tt)
        × ((after_reconcile p c r d).1
            ≡ wait_background
                (client_of p c)
                (mounter p)
                p.pick
                (p.serve_unix (client_of p c) (mounter p) d).1)
  unfolding after_reconcile
  after_reconcile_ok c (err e) d h = cc
  after_reconcile_ok c (ok _) d h = (refl, h, refl)

  emptied :
      (c : Opened D I) (r : Res (Unit {0})) (d : Driver W)
      → IsCounted d
      → (after_reconcile p c r d).0 ≡ ok tt
      → (after_reconcile p c r d).1.background ≡ []
  emptied c r d counted h =
      let d' = (p.serve_unix (client_of p c) (mounter p) d).1 in
      let (ready, served, left) = after_reconcile_ok c r d h in
      let (order, (perm, done, zeroed, kept, called)) =
        wait_background-counted (client_of p c) (mounter p) p.pick d'
          (p.serves_counted (client_of p c) (mounter p) d counted) in
      ap (λ (e : Driver W). e.background) left ∙ done

  after_load-Served :
      (fs : Fs) (c : Opened D I) (scope : Bytes) (r : Res Store) (w : W)
      → load default_path fs ≡ r
      → Created scope c
      → (after_load p c scope r w).0 ≡ ok tt
      → Served fs (Opening.close p.lib c (after_load p c scope r w).1).1
  unfolding after_load Lifecycle.new
  after_load-Served fs c scope (err e) w l q h = cc
  after_load-Served fs c scope (ok s) w l q h =
      let d = Lifecycle.new w s scope in
      let r = reconcile (client_of p c) (mounter p) d in
      let (ready, served, left) = after_reconcile_ok c r.0 r.1 h in
      record {
        client = c;
        store = s;
        scope = scope;
        made = q;
        start = w;
        loaded = l;
        reconciled = ready;
        driver = r.1;
        same = refl;
        sound =
            reconcile-IsSound (client_of p c) (mounter p) d (load-Named default_path fs s l) ready;
        left = (after_reconcile p c r.0 r.1).1;
        waited = left;
        ended = emptied c r.0 r.1 (started-IsCounted (client_of p c) (mounter p) w s scope) h;
        served = served;
        closed = refl;
      }

  after_new-Served :
      (fs : Fs) (scope : Bytes) (r : Res (Opened D I)) (w : W)
      → ((c : Opened D I) → r ≡ ok c → Created scope c)
      → (after_new p fs scope r w).0 ≡ ok tt
      → Served fs (after_new p fs scope r w).1
  unfolding after_new
  after_new-Served fs scope (err e) w q h = cc
  after_new-Served fs scope (ok c) w q h =
      after_load-Served fs c scope (load default_path fs) w refl (q c refl) h

  after_force-Served :
      (fs : Fs) (id : Metadata) (scope : Bytes) (r : Res ℕ) (w : W)
      → Identified id
      → resolve_scope (p.getenv scope_env) ≡ ok scope
      → resolve_force_detach_after p.fraction (p.getenv force_detach_after_env) ≡ r
      → (after_force p fs id scope r w).0 ≡ ok tt
      → Served fs (after_force p fs id scope r w).1
  unfolding after_force
  after_force-Served fs id scope (err e) w i q t h = cc
  after_force-Served fs id scope (ok n) w i q t h =
      let r = Opening.new p.lib (config p id scope n) (p.getenv key_file_env) w in
      after_new-Served fs scope r.0 r.1 (λ c made. (id, n, w, i, q, t, made)) h

  after_scope-Served :
      (fs : Fs) (id : Metadata) (r : Res Bytes) (w : W)
      → Identified id
      → resolve_scope (p.getenv scope_env) ≡ r
      → (after_scope p fs id r w).0 ≡ ok tt
      → Served fs (after_scope p fs id r w).1
  unfolding after_scope
  after_scope-Served fs id (err e) w i q h = cc
  after_scope-Served fs id (ok scope) w i q h =
      after_force-Served fs id scope
        (resolve_force_detach_after p.fraction (p.getenv force_detach_after_env)) w i q refl h

  after_fetch-Served :
      (fs : Fs) (r : Res Metadata) (w : W)
      → ((id : Metadata) → r ≡ ok id → Identified id)
      → (after_fetch p fs r w).0 ≡ ok tt
      → Served fs (after_fetch p fs r w).1
  unfolding after_fetch
  after_fetch-Served fs (err e) w i h = cc
  after_fetch-Served fs (ok id) w i h =
      after_scope-Served fs id (resolve_scope (p.getenv scope_env)) w (i id refl) refl h

  after_on_gce-Served :
      (fs : Fs) (on : Bool) (w : W)
      → (after_on_gce p fs on w).0 ≡ ok tt
      → Served fs (after_on_gce p fs on w).1
  unfolding after_on_gce
  after_on_gce-Served fs false w h = cc
  after_on_gce-Served fs true w h =
      let r = MetadataServer.fetch (MetadataServer.new p.http []) w in
      after_fetch-Served fs r.0 r.1 (λ id named. (w, named)) h

  -- When run returns no error, with a handler that starts and ends the driver's goroutines through
  -- its methods alone, the metadata server has named an identity, New has made a client from it
  -- and from valid settings of the environment, and the state file has been loaded and reconciled
  -- without an error. The driver that was then served has each record under its own name, once,
  -- with a count of 0 or 1 that the status and the mount point agree with. The handler returned no
  -- error, no background delete is pending after it, and the client's Close comes last.
  pub run-Served : (fs : Fs) (w : W) → (run p fs w).0 ≡ ok tt → Served fs (run p fs w).1
  unfolding run
  run-Served fs w h =
      let r = MetadataServer.on_gce (MetadataServer.new p.http []) w in
      after_on_gce-Served fs r.0 r.1 h
