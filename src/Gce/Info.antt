-- ===== src/Gce/Info.antt =====
-- gce/disk.go: `DiskInfo` and the proto that it is made from, with the names cut out of URLs.
pub mod Segments
use docker_plugin_gce_pd.Prelude.{ℕ, Bool, true, false, Option, none, some, List, [], ◌∷◌}
use docker_plugin_gce_pd.Prelude.{◌==◌, if◌then◌else◌}
use docker_plugin_gce_pd.Prelude.Bytes.{Bytes, codes, str_eq}
use docker_plugin_gce_pd.Prelude.Map.{Map}
use docker_plugin_gce_pd.Gce.Options.{deleting_key, label}

pub record DiskInfo : Type 0 where
  pub name : Bytes
  pub size_gb : ℕ
  pub disk_type : Bytes
  pub status : Bytes
  pub users : List Bytes
  pub labels : Map Bytes
  pub self_link : Bytes

-- The fields of `computepb.Disk` that the program reads.
pub record DiskProto : Type 0 where
  pub name : Bytes
  pub size_gb : ℕ
  pub type_url : Bytes
  pub status : Bytes
  pub users : List Bytes
  pub labels : Map Bytes
  pub self_link : Bytes
  pub label_fingerprint : Bytes

-- DiskInfo.Attached
unfoldable pub attached : DiskInfo → Bool
attached d = elim d.users [ [] ↦ false | u ∷ us ↦ true ]

-- DiskInfo.Deleting
unfoldable pub deleting : DiskInfo → Bool
unfolding label
deleting d = str_eq (label deleting_key d.labels) (codes "true")

-- What follows the last byte `c`, where there is one.
unfoldable pub after_last : ℕ → Bytes → Option Bytes
after_last c [] = none
after_last c (b ∷ bs) = elim (after_last c bs) [
  | some rest ↦ some rest
  | none ↦ if b == c then some bs else none
]

unfoldable pub last_url_segment : Bytes → Bytes
unfolding after_last
last_url_segment s = elim (after_last b'/' s) [ some rest ↦ rest | none ↦ s ]

unfoldable pub disk_info_from_proto : DiskProto → DiskInfo
unfolding last_url_segment
disk_info_from_proto d = record {
  name = d.name;
  size_gb = d.size_gb;
  disk_type = last_url_segment d.type_url;
  status = d.status;
  users = d.users;
  labels = d.labels;
  self_link = d.self_link;
}
