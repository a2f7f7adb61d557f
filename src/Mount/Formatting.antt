-- ===== src/Mount/Formatting.antt =====
-- What EnsureFormatted does to a device that has a filesystem.
use docker_plugin_gce_pd.Prelude.{ℕ, ◌≡◌, ◌≢◌, refl, [], ok, err, arith}
use docker_plugin_gce_pd.Prelude.Bytes.{Bytes, str_eq_iff}
use docker_plugin_gce_pd.Errors.{Res}
use docker_plugin_gce_pd.Gce.Retry.{Runtime}
use docker_plugin_gce_pd.Mount.Commands.{Host, probe_fs_type, after_probe, ensure_formatted}

module _ {W : Type 0} (rt : Runtime W) (host : Host W) (device_timeout_ns : ℕ) where
  after_probe_lem :
      (device fs_type : Bytes) (r : Res Bytes) (w : W)
      → r ≢ ok []
      → after_probe rt host device_timeout_ns device fs_type r w ≡ (r, w)
  unfolding after_probe
  after_probe_lem device fs_type (err e) w h = refl
  after_probe_lem device fs_type (ok existing) w h = ground (arith, str_eq_iff existing [])

  -- EnsureFormatted never formats a device that the probe has not found blank: where the probe
  -- finds a filesystem or fails, its result is returned and no other command runs.
  pub ensure_formatted_lem :
      (device fs_type : Bytes) (w : W)
      → (probe_fs_type rt host device_timeout_ns device w).0 ≢ ok []
      → ensure_formatted rt host device_timeout_ns device fs_type w
        ≡ probe_fs_type rt host device_timeout_ns device w
  unfolding ensure_formatted
  ensure_formatted_lem device fs_type w h =
      after_probe_lem device fs_type (probe_fs_type rt host device_timeout_ns device w).0
        (probe_fs_type rt host device_timeout_ns device w).1 h
