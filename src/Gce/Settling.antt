-- ===== src/Gce/Settling.antt =====
-- The operations of the client end: neither the retry loop nor the wait for a holder to let go of
-- a disk runs through its rounds.
pub mod Failover
pub mod Operations
use docker_plugin_gce_pd.Prelude.{
  length, ℕ, zero, suc, ◌+◌, ◌≤◌, ◌<◌, ◌≡◌, refl, Bool, true, false, Option, none, some, List, [],
  ◌∷◌, ok, err, ltb, arith, not, if◌then◌else◌,
}
use docker_plugin_gce_pd.Prelude.Bytes.{Bytes, str_eq}
use docker_plugin_gce_pd.Prelude.Map.{Map}
use docker_plugin_gce_pd.Prelude.Eff.{Eff}
use docker_plugin_gce_pd.Errors.{
  Error, Res, is_not_found, is_disk_not_found, empty_name, long_name, malformed_name, wrapped,
  disk_not_found, getting_disk, still_attached,
}
use docker_plugin_gce_pd.Gce.Name.{matches_name, validate_disk_name}
use docker_plugin_gce_pd.Gce.Options.{DiskOptions}
use docker_plugin_gce_pd.Gce.Info.{DiskInfo, attached, deleting}
use docker_plugin_gce_pd.Gce.Refs.{is_holder_down, instance_name_from_ref, same_instance}
use docker_plugin_gce_pd.Gce.Retry.{Runtime, retry}
use docker_plugin_gce_pd.Gce.Retry.Ends.{
  if-finished, finished, Settled, SettledStop, Clock, SettledAt, Settles, handled-Settles,
  if-Settles, if-Settled, retry-Settles,
}
use docker_plugin_gce_pd.Gce.Client.{
  NewDisk, NewSnapshot, AttachedDisk, ComputeApi, Client, scope_global, wait_op, issue, retry_op,
}
use docker_plugin_gce_pd.Gce.Disks.{
  managed_filter, disk_resource, get_disk, create_disk, snapshot_disk, mark_deleting, delete_marked,
  after_snapshot, snapshot_and_delete, after_mark, mark_and_delete, delete_found, delete_disk,
  list_managed_disks,
}
use docker_plugin_gce_pd.Gce.Attach.{
  instance_self_link, used_by, attached_disk, detach_from_instance, instance_state,
  disk_released_by, after_select, after_grace, after_check, await_release, after_detach,
  detach_running, after_status, after_state, ensure_detached_from_holder, attach_here, take_over,
  attach_from, attach_disk, detach_disk,
}

-- Each call of the API but the listing, and the wait for an operation, returns an error of the
-- program's kinds or a value, and does not set the clock back. The listing is a loop of the
-- adapter over the pages of GCE's answer (Gce/Opening) and is left out.
pub record ApiSettles {W O : Type 0} (time : W → ℕ) (api : ComputeApi W O) : Type 0 where
  pub insert_disk : (p z : Bytes) (d : NewDisk) → Settles time (api.insert_disk p z d)
  pub get_disk : (p z name : Bytes) → Settles time (api.get_disk p z name)
  pub delete_disk : (p z name : Bytes) → Settles time (api.delete_disk p z name)
  pub create_snapshot :
      (p z name : Bytes) (s : NewSnapshot) → Settles time (api.create_snapshot p z name s)
  pub set_labels :
      (p z name fingerprint : Bytes) (labels : Map Bytes)
      → Settles time (api.set_labels p z name fingerprint labels)
  pub attach_disk : (p z i : Bytes) (a : AttachedDisk) → Settles time (api.attach_disk p z i a)
  pub detach_disk : (p z i device : Bytes) → Settles time (api.detach_disk p z i device)
  pub get_instance : (p z i : Bytes) → Settles time (api.get_instance p z i)
  pub wait : (op : O) → Settles time (api.wait op)

validate_disk_name-Settled : (name : Bytes) → Settled (validate_disk_name name)
unfolding validate_disk_name finished
validate_disk_name-Settled name = if-Settled (str_eq name []) (err empty_name) _ refl (
    if-Settled (ltb 63 (length name)) (err (long_name name)) _ refl
      (if-Settled (matches_name name) (ok tt) (err (malformed_name name)) tt refl))

module _ {W O : Type 0} (rt : Runtime W) (api : ComputeApi W O) (c : Client) (time : W → ℕ)
    (clock : Clock rt time) (calls : ApiSettles time api)
    (enough : c.backoff.max_elapsed < rt.rounds) where
  wait_op-Settles : (op : O) → Settles time (wait_op rt api c op)
  unfolding wait_op finished
  wait_op-Settles op t w le =
      handled-Settles time (api.wait op w).0 _ _ t (api.wait op w).1 (calls.wait op t w le)
        (λ a t' w' le'. (tt, le')) (λ e s t' w' le'. (s, le'))

  issue-Settles : (call : Eff W (Res O)) → Settles time call → Settles time (issue rt api c call)
  unfolding issue
  issue-Settles call settles t w le =
      handled-Settles time (call w).0 _ _ t (call w).1 (settles t w le) wait_op-Settles
        (λ e s t' w' le'. (s, le'))

  pub retry_op-Settles :
      (call : Eff W (Res O)) → Settles time call → Settles time (retry_op rt api c call)
  unfolding retry_op
  retry_op-Settles call settles =
      retry-Settles rt c.backoff (issue rt api c call) time clock (issue-Settles call settles)
        enough

  pub get_disk-Settles : (name : Bytes) → Settles time (get_disk rt api c name)
  unfolding get_disk finished
  get_disk-Settles name t w le =
      let call = retry rt c.backoff (api.get_disk c.project_id c.zone name) in
      handled-Settles time (call w).0 _ _ t (call w).1
        (retry-Settles rt c.backoff (api.get_disk c.project_id c.zone name) time clock
          (calls.get_disk c.project_id c.zone name) enough t w le)
        (λ a t' w' le'. (tt, le'))
        (λ e s t' w' le'. (
          if-finished (is_not_found e) (disk_not_found name) (wrapped (getting_disk name) e) refl s,
          le',
        ))

  -- The rule for a call that settles and is handled at once.
  pub retried-Settles :
      {A B : Type 0} (call : Eff W (Res A))
      → Settles time call
      → (f : A → Eff W (Res B)) (h : Error → Eff W (Res B)) → ((a : A) → Settles time (f a))
      → ((e : Error) → finished e ≡ true → Settles time (h e))
      → Settles time
          (λ w. (elim (call w).0 as (λ x. Eff W (Res B)) [ ok a ↦ f a | err e ↦ h e ]) (call w).1)
  retried-Settles call settles f h kf kh t w le =
      handled-Settles time (call w).0 f h t (call w).1 (settles t w le) kf kh

  pub create_disk-Settles :
      (name : Bytes) (opts : DiskOptions) → Settles time (create_disk rt api c name opts)
  unfolding create_disk finished
  create_disk-Settles name opts t w le =
      handled-Settles time (validate_disk_name name) _ _ t w (validate_disk_name-Settled name, le)
        (λ v.
          retried-Settles
            (retry_op rt api c (api.insert_disk c.project_id c.zone (disk_resource c name opts)))
            (retry_op-Settles (api.insert_disk c.project_id c.zone (disk_resource c name opts))
              (calls.insert_disk c.project_id c.zone (disk_resource c name opts)))
            _ _ (λ a. get_disk-Settles name) (λ e s t' w' le'. (s, le')))
        (λ e s t' w' le'. (s, le'))

  snapshot_disk-Settles : (name : Bytes) → Settles time (snapshot_disk rt api c name)
  unfolding snapshot_disk
  snapshot_disk-Settles name t w le =
      let (stamp, w') = rt.utc w in
      retry_op-Settles _ (calls.create_snapshot c.project_id c.zone name _) t w'
        (omega (arith, clock.by_utc w))

  mark_deleting-Settles : (info : DiskInfo) → Settles time (mark_deleting rt api c info)
  unfolding mark_deleting
  mark_deleting-Settles info t w le =
      let call = retry rt c.backoff (api.get_disk c.project_id c.zone info.name) in
      handled-Settles time (call w).0 _ _ t (call w).1
        (retry-Settles rt c.backoff (api.get_disk c.project_id c.zone info.name) time clock
          (calls.get_disk c.project_id c.zone info.name) enough t w le)
        (λ d.
          retry_op-Settles _ (calls.set_labels c.project_id c.zone info.name d.label_fingerprint _))
        (λ e s t' w' le'. (s, le'))

  delete_marked-Settles : (name : Bytes) → Settles time (delete_marked rt api c name)
  unfolding delete_marked finished
  delete_marked-Settles name t w le =
      let call = retry_op rt api c (api.delete_disk c.project_id c.zone name) in
      handled-Settles time (call w).0 _ _ t (call w).1
        (retry_op-Settles _ (calls.delete_disk c.project_id c.zone name) t w le)
        (λ a t' w' le'. (tt, le'))
        (λ e s t' w' le'. (if-Settled {A = Unit} (is_not_found e) (ok tt) (err _) tt s, le'))

  after_snapshot-Settles :
      (name : Bytes) (r : Res (Unit {0}))
      → Settled r
      → Settles time (after_snapshot rt api c name r)
  unfolding after_snapshot finished
  after_snapshot-Settles name (err e) s t w le = (s, le)
  after_snapshot-Settles name (ok _) s t w le = delete_marked-Settles name t w le

  snapshot_and_delete-Settles :
      (name : Bytes) (first : Bool) → Settles time (snapshot_and_delete rt api c name first)
  unfolding snapshot_and_delete
  snapshot_and_delete-Settles name false t w le = delete_marked-Settles name t w le
  snapshot_and_delete-Settles name true t w le =
      let r = snapshot_disk rt api c name w in
      let (s, le') = snapshot_disk-Settles name t w le in
      after_snapshot-Settles name r.0 s t r.1 le'

  after_mark-Settles :
      (name : Bytes) (first : Bool) (r : Res (Unit {0}))
      → Settled r
      → Settles time (after_mark rt api c name first r)
  unfolding after_mark finished
  after_mark-Settles name first (err e) s t w le = (s, le)
  after_mark-Settles name first (ok _) s t w le = snapshot_and_delete-Settles name first t w le

  mark_and_delete-Settles :
      (info : DiskInfo) (name : Bytes) (first : Bool)
      → Settles time (mark_and_delete rt api c info name first)
  unfolding mark_and_delete
  mark_and_delete-Settles info name first =
      if-Settles time (deleting info) _ _ (snapshot_and_delete-Settles name first) (λ t w le.
        let r = mark_deleting rt api c info w in
        let (s, le') = mark_deleting-Settles info t w le in
        after_mark-Settles name first r.0 s t r.1 le')

  delete_found-Settles :
      (name : Bytes) (first : Bool) (r : Res DiskInfo)
      → Settled r
      → Settles time (delete_found rt api c name first r)
  unfolding delete_found finished
  delete_found-Settles name first (err e) s t w le =
      (if-Settled {A = Unit} (is_disk_not_found e) (ok tt) (err e) tt s, le)
  delete_found-Settles name first (ok info) s t w le =
      if-Settles time (attached info) _ _ (λ t' w' le'. (refl, le'))
        (mark_and_delete-Settles info name first) t w le

  pub delete_disk-Settles :
      (name : Bytes) (first : Bool) → Settles time (delete_disk rt api c name first)
  unfolding delete_disk
  delete_disk-Settles name first t w le =
      let r = get_disk rt api c name w in
      let (s, le') = get_disk-Settles name t w le in delete_found-Settles name first r.0 s t r.1 le'
