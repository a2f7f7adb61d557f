-- ===== src/Gce/Disks.antt =====
-- gce/disk.go: the client's operations on disks.
pub mod Deleting
pub mod Snapshots
pub mod Keeping
pub mod Phases
use docker_plugin_gce_pd.Prelude.{Bool, true, false, Option, none, some, List, [], ◌∷◌}
use docker_plugin_gce_pd.Prelude.{◌++◌, map, ok, err, if◌then◌else◌}
use docker_plugin_gce_pd.Prelude.Bytes.{Bytes, codes, str_eq}
use docker_plugin_gce_pd.Prelude.Map.{Map, insert}
use docker_plugin_gce_pd.Prelude.Eff.{Eff, ◌>>=◌, return}
use docker_plugin_gce_pd.Errors.{
  Res, is_not_found, is_disk_not_found, wrapped, disk_not_found, creating_disk, getting_disk,
  deleting_disk, marking_deleting, snapshotting, listing_disks, still_attached,
}
use docker_plugin_gce_pd.Gce.Name.{validate_disk_name}
use docker_plugin_gce_pd.Gce.Options.{
  DiskOptions, effective_labels, insert_all, managed_by_key, managed_by_value, deleting_key,
}
use docker_plugin_gce_pd.Gce.Info.{DiskInfo, attached, deleting, disk_info_from_proto}
use docker_plugin_gce_pd.Gce.Refs.{truncate}
use docker_plugin_gce_pd.Gce.Stamp.{now_stamp}
use docker_plugin_gce_pd.Gce.Retry.{Runtime, retry}
use docker_plugin_gce_pd.Gce.Client.{NewDisk, ComputeApi, Client, retry_op}

unfoldable pub disk_type_url : Client → Bytes → Bytes
disk_type_url c t =
    codes "projects/"
    ++ (c.project_id ++ (codes "/zones/" ++ (c.zone ++ (codes "/diskTypes/" ++ t))))

abbrev pub if_given : Bytes → Option Bytes
if_given s = if str_eq s [] then none else some s

-- The Disk that CreateDisk asks for.
unfoldable pub disk_resource : Client → Bytes → DiskOptions → NewDisk
disk_resource c name opts = record {
  name = name;
  size_gb = opts.size_gb;
  type_url = disk_type_url c opts.disk_type;
  labels = effective_labels opts;
  source_snapshot = if_given opts.source_snapshot;
  source_image = if_given opts.source_image;
}

unfoldable pub snapshot_name : Bytes → Bytes → Bytes
snapshot_name name stamp = truncate name 40 ++ (codes "-snap-" ++ stamp)

-- The labels that markDeleting sets, from those of the disk.
unfoldable pub deleting_labels : Map Bytes → Map Bytes
deleting_labels labels = insert deleting_key (codes "true") (insert_all labels [])

abbrev pub managed_filter : Bytes
managed_filter = codes "labels.managed-by=docker-gcepd"

module _ {W O : Type 0} (rt : Runtime W) (api : ComputeApi W O) (c : Client) where
  unfoldable pub get_disk : Bytes → Eff W (Res DiskInfo)
  get_disk name = do
    r ← retry rt c.backoff (api.get_disk c.project_id c.zone name)
    elim r [
      | ok d ↦ return (ok (disk_info_from_proto d))
      | err e ↦
          return
            (err (if is_not_found e then disk_not_found name else wrapped (getting_disk name) e))
    ]

  unfoldable pub create_disk : Bytes → DiskOptions → Eff W (Res DiskInfo)
  create_disk name opts = elim (validate_disk_name name) [
    | err e ↦ return (err e)
    | ok _ ↦ do
      r ← retry_op rt api c (api.insert_disk c.project_id c.zone (disk_resource c name opts))
      elim r [ err e ↦ return (err (wrapped (creating_disk name) e)) | ok _ ↦ get_disk name ]
  ]

  unfoldable pub snapshot_disk : Bytes → Eff W (Res (Unit {0}))
  snapshot_disk name = do
    t ← rt.utc
    retry_op rt api c (
        api.create_snapshot c.project_id c.zone name (record {
          name = snapshot_name name (now_stamp t);
          labels = (managed_by_key, managed_by_value) ∷ [];
        }))

  unfoldable pub mark_deleting : DiskInfo → Eff W (Res (Unit {0}))
  mark_deleting info = do
    r ← retry rt c.backoff (api.get_disk c.project_id c.zone info.name)
    elim r [
      | err e ↦ return (err e)
      | ok d ↦ retry_op rt api c (
          api.set_labels c.project_id c.zone info.name d.label_fingerprint
            (deleting_labels d.labels))
    ]

  -- The last call of DeleteDisk, where a 404 is success.
  unfoldable pub delete_marked : Bytes → Eff W (Res (Unit {0}))
  delete_marked name = do
    r ← retry_op rt api c (api.delete_disk c.project_id c.zone name)
    elim r [
      | ok _ ↦ return (ok tt)
      | err e ↦ return (if is_not_found e then ok tt else err (wrapped (deleting_disk name) e))
    ]

  -- DeleteDisk after the snapshot.
  unfoldable pub after_snapshot : Bytes → Res (Unit {0}) → Eff W (Res (Unit {0}))
  after_snapshot name (err e) = return (err (wrapped (snapshotting name) e))
  after_snapshot name (ok _) = delete_marked name

  -- DeleteDisk once the disk carries the mark.
  unfoldable pub snapshot_and_delete : Bytes → Bool → Eff W (Res (Unit {0}))
  snapshot_and_delete name false = delete_marked name
  snapshot_and_delete name true = do taken ← snapshot_disk name; after_snapshot name taken

  -- DeleteDisk after markDeleting.
  unfoldable pub after_mark : Bytes → Bool → Res (Unit {0}) → Eff W (Res (Unit {0}))
  after_mark name snapshot_first (err e) = return (err (wrapped (marking_deleting name) e))
  after_mark name snapshot_first (ok _) = snapshot_and_delete name snapshot_first

  -- DeleteDisk on a disk that is there and attached nowhere.
  unfoldable pub mark_and_delete : DiskInfo → Bytes → Bool → Eff W (Res (Unit {0}))
  mark_and_delete info name snapshot_first =
      if deleting info
      then snapshot_and_delete name snapshot_first
      else (do marked ← mark_deleting info; after_mark name snapshot_first marked)

  -- DeleteDisk after GetDisk.
  unfoldable pub delete_found : Bytes → Bool → Res DiskInfo → Eff W (Res (Unit {0}))
  delete_found name snapshot_first (err e) = return (if is_disk_not_found e then ok tt else err e)
  delete_found name snapshot_first (ok info) =
      if attached info
      then return (err (still_attached name info.users))
      else mark_and_delete info name snapshot_first

  unfoldable pub delete_disk : Bytes → Bool → Eff W (Res (Unit {0}))
  delete_disk name snapshot_first = do found ← get_disk name; delete_found name snapshot_first found

  unfoldable pub list_managed_disks : Eff W (Res (List DiskInfo))
  list_managed_disks = do
    r ← retry rt c.backoff (api.list_disks c.project_id c.zone managed_filter)
    elim r [
      | err e ↦ return (err (wrapped listing_disks e))
      | ok ds ↦ return (ok (map disk_info_from_proto ds))
    ]
