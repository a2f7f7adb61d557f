-- ===== src/Gce/Opening/Handles.antt =====
-- New and Close own the two REST clients: none is left open.
use docker_plugin_gce_pd.Prelude.{
  ℕ, ◌+◌, ◌-◌, ◌≡◌, ◌∙◌, Option, ok, err, is_ok, arith, if◌then◌else◌,
}
use docker_plugin_gce_pd.Prelude.Bytes.{Bytes}
use docker_plugin_gce_pd.Errors.{Res}
use docker_plugin_gce_pd.Gce.Opening.{
  Library, Config, Opened, credentials, after_instances, after_disks, open_instances, new, close,
}

module _ {W D I It O : Type 0} (lib : Library W D I It O) (live : W → ℕ)
    (opens_disks : (c : Option Bytes) (w : W)
      → live (lib.new_disks_client c w).1
        ≡ (if is_ok (lib.new_disks_client c w).0 then 1 + live w else live w))
    (opens_instances : (c : Option Bytes) (w : W)
      → live (lib.new_instances_client c w).1
        ≡ (if is_ok (lib.new_instances_client c w).0 then 1 + live w else live w))
    (closes_disks : (c : D) (w : W) → live (lib.close_disks c w).1 ≡ live w - 1)
    (closes_instances : (c : I) (w : W) → live (lib.close_instances c w).1 ≡ live w - 1) where
  -- Where `n` clients are open and the disks client is one of them.
  after_instances-live :
      (n : ℕ) (cfg : Config) (disks : D) (r : Res I) (w : W)
      → live w ≡ (if is_ok r then 2 + n else 1 + n)
      → live (after_instances lib cfg disks r w).1
        ≡ (if is_ok (after_instances lib cfg disks r w).0 then 2 + n else n)
  unfolding after_instances
  after_instances-live n cfg disks (err e) w h = closes_disks disks w ∙ omega arith
  after_instances-live n cfg disks (ok i) w h = h

  after_disks-live :
      (n : ℕ) (cfg : Config) (keyfile : Bytes) (r : Res D) (w : W)
      → live w ≡ (if is_ok r then 1 + n else n)
      → live (after_disks lib cfg keyfile r w).1
        ≡ (if is_ok (after_disks lib cfg keyfile r w).0 then 2 + n else n)
  unfolding after_disks open_instances
  after_disks-live n cfg keyfile (err e) w h = h
  after_disks-live n cfg keyfile (ok disks) w h =
      let r = lib.new_instances_client (credentials keyfile) w in
      after_instances-live n cfg disks r.0 r.1
        (opens_instances (credentials keyfile) w ∙ rw h (ground arith))

  -- New opens two clients, or, when it returns an error, leaves as many open as there were.
  pub new-live :
      (cfg : Config) (keyfile : Bytes) (w : W)
      → live (new lib cfg keyfile w).1
        ≡ (if is_ok (new lib cfg keyfile w).0 then 2 + live w else live w)
  unfolding new
  new-live cfg keyfile w =
      let r = lib.new_disks_client (credentials keyfile) w in
      after_disks-live (live w) cfg keyfile r.0 r.1 (opens_disks (credentials keyfile) w)

  -- Close closes two, whichever of its calls fail.
  pub close-live : (c : Opened D I) (w : W) → live (close lib c w).1 ≡ live w - 2
  unfolding close
  close-live c w =
      closes_instances c.instances (lib.close_disks c.disks w).1
      ∙ rw (closes_disks c.disks w) (omega arith)
