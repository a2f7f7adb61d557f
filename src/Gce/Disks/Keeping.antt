-- ===== src/Gce/Disks/Keeping.antt =====
-- What the calls of the Compute API and the runtime all keep, listing and deleting disks keep.
use docker_plugin_gce_pd.Prelude.{Bool, true, false, ok, err}
use docker_plugin_gce_pd.Prelude.Bytes.{Bytes}
use docker_plugin_gce_pd.Prelude.Map.{Map}
use docker_plugin_gce_pd.Errors.{Res}
use docker_plugin_gce_pd.Gce.Info.{DiskInfo, attached, deleting}
use docker_plugin_gce_pd.Gce.Retry.{Runtime, retry}
use docker_plugin_gce_pd.Gce.Retry.Outcome.{Quiet, Keeps, handled-Keeps, if-Keeps, retry-Keeps}
use docker_plugin_gce_pd.Gce.Client.{NewSnapshot, ComputeApi, Client, retry_op}
use docker_plugin_gce_pd.Gce.Attach.Local.{retry_op-Keeps, get_disk-Keeps}
use docker_plugin_gce_pd.Gce.Disks.{
  managed_filter, deleting_labels, get_disk, snapshot_disk, mark_deleting, delete_marked,
  after_snapshot, snapshot_and_delete, after_mark, mark_and_delete, delete_found, delete_disk,
  list_managed_disks,
}

-- The calls that DeleteDisk and ListManagedDisks make.
pub record Untouched {W O : Type 0} (api : ComputeApi W O) (P : W → Type 0) : Type 0 where
  pub by_get : (p z name : Bytes) → Keeps P (api.get_disk p z name)
  pub by_list : (p z filter : Bytes) → Keeps P (api.list_disks p z filter)
  pub by_delete : (p z name : Bytes) → Keeps P (api.delete_disk p z name)
  pub by_snapshot : (p z name : Bytes) (s : NewSnapshot) → Keeps P (api.create_snapshot p z name s)
  pub by_labels : (p z name f : Bytes) (l : Map Bytes) → Keeps P (api.set_labels p z name f l)
  pub by_wait : (op : O) → Keeps P (api.wait op)

module _ {W O : Type 0} (rt : Runtime W) (api : ComputeApi W O) (c : Client) (P : W → Type 0)
    (quiet : Quiet rt P) (same : Untouched api P) where
  pub list_managed_disks-Keeps : Keeps P (list_managed_disks rt api c)
  unfolding list_managed_disks
  list_managed_disks-Keeps w p =
      let call = api.list_disks c.project_id c.zone managed_filter in
      let r = retry rt c.backoff call w in
      handled-Keeps P r.0 _ _ r.1
        (retry-Keeps rt c.backoff call P quiet (same.by_list c.project_id c.zone managed_filter) w
          p)
        (λ ds v q. q) (λ e v q. q)

  delete_marked-Keeps : (name : Bytes) → Keeps P (delete_marked rt api c name)
  unfolding delete_marked
  delete_marked-Keeps name w p =
      let call = api.delete_disk c.project_id c.zone name in
      let r = retry_op rt api c call w in
      handled-Keeps P r.0 _ _ r.1
        (retry_op-Keeps rt api c P quiet same.by_wait call (same.by_delete c.project_id c.zone name)
          w p)
        (λ a v q. q) (λ e v q. q)

  snapshot_disk-Keeps : (name : Bytes) → Keeps P (snapshot_disk rt api c name)
  unfolding snapshot_disk
  snapshot_disk-Keeps name w p =
      retry_op-Keeps rt api c P quiet same.by_wait _ (same.by_snapshot c.project_id c.zone name _)
        (rt.utc w).1 (quiet.by_utc w p)

  mark_deleting-Keeps : (info : DiskInfo) → Keeps P (mark_deleting rt api c info)
  unfolding mark_deleting
  mark_deleting-Keeps info w p =
      let call = api.get_disk c.project_id c.zone info.name in
      let r = retry rt c.backoff call w in
      handled-Keeps P r.0 _ _ r.1
        (retry-Keeps rt c.backoff call P quiet (same.by_get c.project_id c.zone info.name) w p)
        (λ d. retry_op-Keeps rt api c P quiet same.by_wait _ (
          same.by_labels c.project_id c.zone info.name d.label_fingerprint
            (deleting_labels d.labels)))
        (λ e v q. q)

  after_snapshot-Keeps :
      (name : Bytes) (r : Res (Unit {0})) → Keeps P (after_snapshot rt api c name r)
  unfolding after_snapshot
  after_snapshot-Keeps name (err e) w p = p
  after_snapshot-Keeps name (ok _) w p = delete_marked-Keeps name w p

  snapshot_and_delete-Keeps :
      (name : Bytes) (first : Bool) → Keeps P (snapshot_and_delete rt api c name first)
  unfolding snapshot_and_delete
  snapshot_and_delete-Keeps name false w p = delete_marked-Keeps name w p
  snapshot_and_delete-Keeps name true w p =
      let r = snapshot_disk rt api c name w in
      after_snapshot-Keeps name r.0 r.1 (snapshot_disk-Keeps name w p)

  after_mark-Keeps :
      (name : Bytes) (first : Bool) (r : Res (Unit {0}))
      → Keeps P (after_mark rt api c name first r)
  unfolding after_mark
  after_mark-Keeps name first (err e) w p = p
  after_mark-Keeps name first (ok _) w p = snapshot_and_delete-Keeps name first w p

  delete_found-Keeps :
      (name : Bytes) (first : Bool) (r : Res DiskInfo)
      → Keeps P (delete_found rt api c name first r)
  unfolding delete_found mark_and_delete
  delete_found-Keeps name first (err e) = λ w p. p
  delete_found-Keeps name first (ok info) =
      if-Keeps P (attached info) _ _ (λ w p. p)
        (if-Keeps P (deleting info) _ _ (snapshot_and_delete-Keeps name first) λ w p.
          let r = mark_deleting rt api c info w in
          after_mark-Keeps name first r.0 r.1 (mark_deleting-Keeps info w p))

  pub delete_disk-Keeps : (name : Bytes) (first : Bool) → Keeps P (delete_disk rt api c name first)
  unfolding delete_disk
  delete_disk-Keeps name first w p =
      let r = get_disk rt api c name w in
      delete_found-Keeps name first r.0 r.1 (
        get_disk-Keeps rt api c P quiet same.by_wait name (same.by_get c.project_id c.zone name) w
          p)
