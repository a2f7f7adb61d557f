-- ===== src/Driver/Convert.antt =====
-- driver/convert.go
use docker_plugin_gce_pd.Prelude.{ℕ, Bool}
use docker_plugin_gce_pd.Prelude.Bytes.{Bytes}
use docker_plugin_gce_pd.State.Volume.{Status, VolumeOptions, Volume}
use docker_plugin_gce_pd.Gce.Options.{DiskOptions, matches}

unfoldable pub to_state_options : DiskOptions → VolumeOptions
to_state_options o = record {
  size_gb = o.size_gb;
  disk_type = o.disk_type;
  fs_type = o.fs_type;
  labels = o.labels;
  source_snapshot = o.source_snapshot;
  source_image = o.source_image;
  snapshot_on_remove = o.snapshot_on_remove;
  reclaim_policy = o.reclaim_policy;
}

unfoldable pub to_gce_options : VolumeOptions → DiskOptions
to_gce_options o = record {
  size_gb = o.size_gb;
  disk_type = o.disk_type;
  fs_type = o.fs_type;
  labels = o.labels;
  source_snapshot = o.source_snapshot;
  source_image = o.source_image;
  snapshot_on_remove = o.snapshot_on_remove;
  reclaim_policy = o.reclaim_policy;
}

unfoldable pub options_match : VolumeOptions → DiskOptions → Bool
unfolding to_gce_options
options_match stored parsed = matches (to_gce_options stored) parsed

-- `volume.Volume` of the plugin API; its Status is a map with these five keys.
pub record ApiVolume : Type 0 where
  pub name : Bytes
  pub mountpoint : Bytes
  pub created_at : Bytes
  pub status : Status
  pub ref_count : ℕ
  pub size_gb : ℕ
  pub disk_type : Bytes
  pub fs_type : Bytes

unfoldable pub to_api_volume : Volume → ApiVolume
to_api_volume v = record {
  name = v.name;
  mountpoint = v.mountpoint;
  created_at = v.created_at;
  status = v.status;
  ref_count = v.ref_count;
  size_gb = v.options.size_gb;
  disk_type = v.options.disk_type;
  fs_type = v.options.fs_type;
}
