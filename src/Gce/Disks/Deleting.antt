-- ===== src/Gce/Disks/Deleting.antt =====
-- DeleteDisk: what it refuses, the mark that it sets, and the snapshot that comes first.
use docker_plugin_gce_pd.Prelude.{◌≡◌, refl, ◌∙◌, Bool, true, false, some, []}
use docker_plugin_gce_pd.Prelude.{ok, err, ap, arith, if◌then◌else◌}
use docker_plugin_gce_pd.Prelude.Bytes.{Bytes, codes, str_eq, str_eq_refl}
use docker_plugin_gce_pd.Prelude.Map.{Map, lookup, lookup-insert, lookup-nil, NodupKeys}
use docker_plugin_gce_pd.Prelude.Eff.{◌>>=◌, return}
use docker_plugin_gce_pd.Errors.{Res, still_attached}
use docker_plugin_gce_pd.Gce.Options.{
  DiskOptions, managed_by_key, managed_by_value, deleting_key, label, insert_all, effective_labels,
}
use docker_plugin_gce_pd.Gce.Options.Labels.{lookup-insert_all, lookup-effective_labels}
use docker_plugin_gce_pd.Gce.Info.{DiskInfo, attached, deleting}
use docker_plugin_gce_pd.Gce.Retry.{Runtime}
use docker_plugin_gce_pd.Gce.Retry.Outcome.{Keeps, if-Keeps}
use docker_plugin_gce_pd.Gce.Client.{ComputeApi, Client}
use docker_plugin_gce_pd.Gce.Disks.{
  disk_resource, deleting_labels, get_disk, snapshot_disk, mark_deleting, delete_marked,
  snapshot_and_delete, mark_and_delete, delete_disk, after_snapshot, after_mark, delete_found,
}

-- Where a disk has each label once, the mark of a deletion sets its own label and changes no
-- other.
pub lookup-deleting_labels :
    (k : Bytes) (labels : Map Bytes)
    → NodupKeys labels
    → lookup k (deleting_labels labels)
      ≡ (if str_eq deleting_key k then some (codes "true") else lookup k labels)
unfolding deleting_labels
lookup-deleting_labels k labels u =
    lookup-insert k deleting_key (codes "true") (insert_all labels [])
    ∙ rw (lookup-insert_all k labels [] u, lookup-nil {V = Bytes}) (ground arith)

managed-ne-deleting : str_eq managed_by_key deleting_key ≡ false
unfolding str_eq
managed-ne-deleting = refl

label-as : (k : Bytes) (m : Map Bytes) (v : Bytes) → lookup k m ≡ some v → label k m ≡ v
unfolding label
label-as k m v e = rw (e, label) refl

label-same : (k : Bytes) (m n : Map Bytes) → lookup k m ≡ lookup k n → label k m ≡ label k n
unfolding label
label-same k m n e = rw (e, label) refl

-- A disk that has the labels that CreateDisk sends, for options with each label once, carries the
-- plugin's managed-by label; and it counts as being deleted exactly if the user's labels have the
-- mark of a deletion.
pub disk_resource_labels :
    (c : Client) (name : Bytes) (o : DiskOptions) (info : DiskInfo)
    → NodupKeys o.labels
    → info.labels ≡ (disk_resource c name o).labels
    → (label managed_by_key info.labels ≡ managed_by_value)
      × (deleting info ≡ str_eq (label deleting_key o.labels) (codes "true"))
unfolding disk_resource deleting
disk_resource_labels c name o info u same = (
  ap (label managed_by_key) same
      ∙ label-as managed_by_key (effective_labels o) managed_by_value
          (lookup-effective_labels managed_by_key o u ∙ rw (str_eq_refl managed_by_key) refl),
  ap (λ l. str_eq (label deleting_key l) (codes "true")) same
      ∙ ap (λ l. str_eq l (codes "true"))
          (label-same deleting_key (effective_labels o) o.labels
            (lookup-effective_labels deleting_key o u ∙ rw managed-ne-deleting refl)),
)

module _ {W O : Type 0} (rt : Runtime W) (api : ComputeApi W O) (c : Client) where
  -- A disk with users is never deleted, marked or put in a snapshot: after reading it DeleteDisk
  -- returns an error that names them, and calls nothing more.
  pub delete_disk_attached :
      (name : Bytes) (snapshot_first : Bool) (info : DiskInfo) (w : W)
      → (get_disk rt api c name w).0 ≡ ok info
      → attached info ≡ true
      → delete_disk rt api c name snapshot_first w
        ≡ (err (still_attached name info.users), (get_disk rt api c name w).1)
  unfolding delete_disk delete_found
  delete_disk_attached name snapshot_first info w found used = ground arith

  module _ (name : Bytes) (P Taken : W → Type 0)
      (marks : (info : DiskInfo) → Keeps P (mark_deleting rt api c info))
      (snaps : Keeps P (snapshot_disk rt api c name))
      (taken : (w : W)
        → (snapshot_disk rt api c name w).0 ≡ ok tt
        → Taken (snapshot_disk rt api c name w).1)
      (deletes : (w : W) → Taken w → P w → P (delete_marked rt api c name w).1) where
    after_snapshot-Keeps :
        (r : Res (Unit {0})) (w : W)
        → (r ≡ ok tt → Taken w)
        → P w
        → P (after_snapshot rt api c name r w).1
    unfolding after_snapshot
    after_snapshot-Keeps (err e) w t p = p
    after_snapshot-Keeps (ok _) w t p = deletes w (t refl) p

    snapshot_and_delete-Keeps : Keeps P (snapshot_and_delete rt api c name true)
    unfolding snapshot_and_delete
    snapshot_and_delete-Keeps w p =
        after_snapshot-Keeps (snapshot_disk rt api c name w).0 (snapshot_disk rt api c name w).1
          (taken w) (snaps w p)

    after_mark-Keeps : (r : Res (Unit {0})) → Keeps P (after_mark rt api c name true r)
    unfolding after_mark
    after_mark-Keeps (err e) w p = p
    after_mark-Keeps (ok _) w p = snapshot_and_delete-Keeps w p

    mark_and_delete-Keeps : (info : DiskInfo) → Keeps P (mark_and_delete rt api c info name true)
    unfolding mark_and_delete
    mark_and_delete-Keeps info =
        if-Keeps P (deleting info) (snapshot_and_delete rt api c name true)
          (mark_deleting rt api c info >>= after_mark rt api c name true) snapshot_and_delete-Keeps
          λ w p.
            after_mark-Keeps (mark_deleting rt api c info w).0 (mark_deleting rt api c info w).1
              (marks info w p)

    delete_found-Keeps : (r : Res DiskInfo) → Keeps P (delete_found rt api c name true r)
    unfolding delete_found
    delete_found-Keeps (err e) = λ w p. p
    delete_found-Keeps (ok info) =
        if-Keeps P (attached info) (return (err (still_attached name info.users)))
          (mark_and_delete rt api c info name true) (λ w p. p) (mark_and_delete-Keeps info)

    -- With snapshotFirst DeleteDisk breaks no property of the world that reading, marking and
    -- taking the snapshot keep, and that the delete keeps wherever a snapshot has returned no
    -- error: it never runs the delete but after such a snapshot.
    pub delete_disk_after_snapshot :
        Keeps P (get_disk rt api c name) → (w : W) → P w → P (delete_disk rt api c name true w).1
    unfolding delete_disk
    delete_disk_after_snapshot reads w p =
        delete_found-Keeps (get_disk rt api c name w).0 (get_disk rt api c name w).1 (reads w p)
