-- ===== src/Gce/Attach/Local.antt =====
-- With the local scope AttachDisk never takes a disk away from another instance.
use docker_plugin_gce_pd.Prelude.{◌≡◌, false, List, [], ◌∷◌, arith}
use docker_plugin_gce_pd.Prelude.Bytes.{Bytes, str_eq}
use docker_plugin_gce_pd.Prelude.Eff.{Eff}
use docker_plugin_gce_pd.Errors.{Res}
use docker_plugin_gce_pd.Gce.Info.{DiskInfo}
use docker_plugin_gce_pd.Gce.Retry.{Runtime, retry}
use docker_plugin_gce_pd.Gce.Retry.Outcome.{Quiet, Keeps, handled-Keeps, retry-Keeps}
use docker_plugin_gce_pd.Gce.Client.{
  AttachedDisk, ComputeApi, Client, scope_global, wait_op, issue, retry_op,
}
use docker_plugin_gce_pd.Gce.Disks.{get_disk}
use docker_plugin_gce_pd.Gce.Attach.{attached_disk, attach_here, attach_from, attach_disk}

module _ {W O : Type 0} (rt : Runtime W) (api : ComputeApi W O) (c : Client) (P : W → Type 0)
    (quiet : Quiet rt P) (waits : (op : O) → Keeps P (api.wait op)) where
  wait_op-Keeps : (op : O) → Keeps P (wait_op rt api c op)
  unfolding wait_op
  wait_op-Keeps op w p =
      handled-Keeps P (api.wait op w).0 _ _ (api.wait op w).1 (waits op w p) (λ a v q. q)
        (λ e v q. q)

  issue-Keeps : (call : Eff W (Res O)) → Keeps P call → Keeps P (issue rt api c call)
  unfolding issue
  issue-Keeps call kept w p =
      handled-Keeps P (call w).0 _ _ (call w).1 (kept w p) wait_op-Keeps (λ e v q. q)

  -- A call with an operation, retried until it ends, keeps what the call and the wait keep.
  pub retry_op-Keeps : (call : Eff W (Res O)) → Keeps P call → Keeps P (retry_op rt api c call)
  unfolding retry_op
  retry_op-Keeps call kept =
      retry-Keeps rt c.backoff (issue rt api c call) P quiet (issue-Keeps call kept)

  pub get_disk-Keeps :
      (name : Bytes)
      → Keeps P (api.get_disk c.project_id c.zone name)
      → Keeps P (get_disk rt api c name)
  unfolding get_disk
  get_disk-Keeps name kept w p =
      let call = retry rt c.backoff (api.get_disk c.project_id c.zone name) in
      handled-Keeps P (call w).0 _ _ (call w).1
        (retry-Keeps rt c.backoff (api.get_disk c.project_id c.zone name) P quiet kept w p)
        (λ a v q. q) (λ e v q. q)

  attach_here-Keeps :
      (name : Bytes) (info : DiskInfo)
      → ((a : AttachedDisk) → Keeps P (api.attach_disk c.project_id c.zone c.this_instance a))
      → Keeps P (attach_here rt api c name info)
  unfolding attach_here
  attach_here-Keeps name info kept w p =
      let call =
        retry_op rt api c
          (api.attach_disk c.project_id c.zone c.this_instance (attached_disk name info)) in
      handled-Keeps P (call w).0 _ _ (call w).1
        (retry_op-Keeps
          (api.attach_disk c.project_id c.zone c.this_instance (attached_disk name info))
          (kept (attached_disk name info)) w p)
        (λ a v q. q) (λ e v q. q)

  attach_from-Keeps :
      (name : Bytes) (info : DiskInfo) (users : List Bytes)
      → str_eq c.scope scope_global ≡ false
      → ((a : AttachedDisk) → Keeps P (api.attach_disk c.project_id c.zone c.this_instance a))
      → Keeps P (attach_from rt api c name info users)
  unfolding attach_from
  attach_from-Keeps name info [] here kept w p = attach_here-Keeps name info kept w p
  attach_from-Keeps name info (u ∷ us) here kept w p = ground arith

  -- In a scope that is not global AttachDisk breaks no property of the world that the runtime,
  -- reading the disk, attaching a disk to this instance and waiting for an operation all keep,
  -- whatever detaching a disk and reading an instance do to it.
  pub attach_disk_local :
      (name : Bytes)
      → str_eq c.scope scope_global ≡ false
      → Keeps P (api.get_disk c.project_id c.zone name)
      → ((a : AttachedDisk) → Keeps P (api.attach_disk c.project_id c.zone c.this_instance a))
      → (w : W) → P w
      → P (attach_disk rt api c name w).1
  unfolding attach_disk
  attach_disk_local name here reads kept w p =
      let call = get_disk rt api c name in
      handled-Keeps P (call w).0 _ _ (call w).1 (get_disk-Keeps name reads w p)
        (λ info. attach_from-Keeps name info info.users here kept) (λ e v q. q)
