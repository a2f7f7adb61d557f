-- ===== src/Gce/Settling/Operations.antt =====
-- AttachDisk and DetachDisk end, and so does each operation of the client on one disk.
use docker_plugin_gce_pd.Prelude.Bytes.{str_eq}
use docker_plugin_gce_pd.Gce.Refs.{same_instance}
use docker_plugin_gce_pd.Gce.Info.{DiskInfo}
use docker_plugin_gce_pd.Gce.Options.{DiskOptions}
use docker_plugin_gce_pd.Prelude.{ℕ, suc, ◌<◌, refl, Bool, true, false, [], ok, arith}
use docker_plugin_gce_pd.Prelude.{Bool-cases, inl, inr, List, [], ◌∷◌}
use docker_plugin_gce_pd.Prelude.Eff.{return}
use docker_plugin_gce_pd.Prelude.Bytes.{Bytes}
use docker_plugin_gce_pd.Prelude.Eff.{Eff}
use docker_plugin_gce_pd.Errors.{Res}
use docker_plugin_gce_pd.Gce.Retry.{Runtime}
use docker_plugin_gce_pd.Gce.Retry.Ends.{finished, Settled, Clock, Settles}
use docker_plugin_gce_pd.Gce.Disks.{delete_disk}
use docker_plugin_gce_pd.Gce.Client.{scope_global, ComputeApi, Client, retry_op}
use docker_plugin_gce_pd.Gce.Disks.{get_disk}
use docker_plugin_gce_pd.Gce.Attach.{attach_disk, detach_disk, detach_from_instance}
use docker_plugin_gce_pd.Gce.Settling.{
  create_disk-Settles, delete_disk-Settles, ApiSettles, retry_op-Settles, get_disk-Settles,
  retried-Settles,
}
use docker_plugin_gce_pd.Gce.Attach.{ensure_detached_from_holder}
use docker_plugin_gce_pd.Gce.Attach.{attach_here}
use docker_plugin_gce_pd.Gce.Attach.{take_over}
use docker_plugin_gce_pd.Gce.Attach.{attach_from}
use docker_plugin_gce_pd.Gce.Attach.{attach_disk}
use docker_plugin_gce_pd.Gce.Settling.{DiskInfo}
use docker_plugin_gce_pd.Gce.Attach.{detach_disk}
use docker_plugin_gce_pd.Gce.Settling.{DiskOptions}
use docker_plugin_gce_pd.Gce.Attach.{attached_disk}
use docker_plugin_gce_pd.Gce.Settling.{same_instance}
use docker_plugin_gce_pd.Gce.Attach.{used_by}
use docker_plugin_gce_pd.Gce.Disks.{create_disk}
use docker_plugin_gce_pd.Gce.Attach.{instance_self_link}
use docker_plugin_gce_pd.Gce.Disks.{delete_disk}
use docker_plugin_gce_pd.Gce.Settling.{str_eq}
use docker_plugin_gce_pd.Gce.Client.{scope_global}
use docker_plugin_gce_pd.Gce.Settling.Failover.{
  detach_from_instance-Settles, ensure_detached_from_holder-Settles,
}

module _ {W O : Type 0} (rt : Runtime W) (api : ComputeApi W O) (c : Client) (time : W → ℕ)
    (clock : Clock rt time) (calls : ApiSettles time api)
    (enough : c.backoff.max_elapsed < rt.rounds)
    (patient : suc c.force_detach_after < rt.rounds) where
  attach_here-Settles :
      (name : Bytes) (info : DiskInfo) → Settles time (attach_here rt api c name info)
  unfolding attach_here finished
  attach_here-Settles name info =
      let call = api.attach_disk c.project_id c.zone c.this_instance (attached_disk name info) in
      retried-Settles rt api c time clock calls enough (retry_op rt api c call)
        (retry_op-Settles rt api c time clock calls enough call
          (calls.attach_disk c.project_id c.zone c.this_instance (attached_disk name info)))
        _ _ (λ a t w le. (tt, le)) (λ e s t w le. (s, le))

  take_over-Settles : (name user : Bytes) → Settles time (take_over rt api c name user)
  unfolding take_over
  take_over-Settles name user =
      retried-Settles rt api c time clock calls enough
        (ensure_detached_from_holder rt api c name user)
        (ensure_detached_from_holder-Settles rt api c time clock calls enough patient name user) _ _
        (λ a.
          retried-Settles rt api c time clock calls enough (get_disk rt api c name)
            (get_disk-Settles rt api c time clock calls enough name) _ _ (attach_here-Settles name)
            (λ e s t w le. (s, le)))
        (λ e s t w le. (s, le))

  attach_from-Settles :
      (name : Bytes) (info : DiskInfo) (users : List Bytes)
      → Settles time (attach_from rt api c name info users)
  unfolding attach_from finished
  attach_from-Settles name info [] t w le = attach_here-Settles name info t w le
  attach_from-Settles name info (u ∷ us) t w le =
      elim (Bool-cases (same_instance u (instance_self_link c))) [
        | inl ours ↦ rw (attach_from, ours) (tt, le)
        | inr other ↦ elim (Bool-cases (str_eq c.scope scope_global)) [
          | inl global ↦ rw (attach_from, other, global) (take_over-Settles name u t w le)
          | inr here ↦ rw (attach_from, other, here) (refl, le)
        ]
      ]

  attach_disk-Settles : (name : Bytes) → Settles time (attach_disk rt api c name)
  unfolding attach_disk
  attach_disk-Settles name =
      retried-Settles rt api c time clock calls enough (get_disk rt api c name)
        (get_disk-Settles rt api c time clock calls enough name) _ _
        (λ info. attach_from-Settles name info info.users) (λ e s t w le. (s, le))

  detach_attached-Settles :
      (name : Bytes) (info : DiskInfo)
      → Settles time
          (elim (used_by (instance_self_link c) info.users) as (λ b. Eff W (Res (Unit {0}))) [
            | false ↦ return (ok tt)
            | true ↦ detach_from_instance rt api c name c.this_instance
          ])
  detach_attached-Settles name info t w le =
      elim (Bool-cases (used_by (instance_self_link c) info.users)) [
        | inl ours ↦ rw ours (
            detach_from_instance-Settles rt api c time clock calls enough name c.this_instance t w
              le)
        | inr free ↦ rw free (tt, le)
      ]

  detach_disk-Settles : (name : Bytes) → Settles time (detach_disk rt api c name)
  unfolding detach_disk
  detach_disk-Settles name =
      retried-Settles rt api c time clock calls enough (get_disk rt api c name)
        (get_disk-Settles rt api c time clock calls enough name) _ _ (detach_attached-Settles name)
        (λ e s t w le. (s, le))

  -- On a clock that moves with each reading and that the API does not set back, and where each
  -- call of the API, and each wait for an operation, returns a value or an error of the program's
  -- kinds, whichever it is, CreateDisk, GetDisk, DeleteDisk, AttachDisk and DetachDisk end by
  -- themselves: with an error of the program or a value, and never because a loop has run through
  -- its rounds, if those are more than the nanoseconds of MaxElapsed, and of the grace window and
  -- one more.
  pub client-Settles :
      (name : Bytes) (opts : DiskOptions) (first : Bool) (w : W)
      → Settled (create_disk rt api c name opts w).0
        × Settled (get_disk rt api c name w).0
        × Settled (delete_disk rt api c name first w).0
        × Settled (attach_disk rt api c name w).0
        × Settled (detach_disk rt api c name w).0
  client-Settles name opts first w = (
    (create_disk-Settles rt api c time clock calls enough name opts 0 w (omega arith)).0,
    (get_disk-Settles rt api c time clock calls enough name 0 w (omega arith)).0,
    (delete_disk-Settles rt api c time clock calls enough name first 0 w (omega arith)).0,
    (attach_disk-Settles name 0 w (omega arith)).0,
    (detach_disk-Settles name 0 w (omega arith)).0,
  )
