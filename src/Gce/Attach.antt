-- ===== src/Gce/Attach.antt =====
-- gce/attach.go: attach, detach, and the failover from another instance.
pub mod Local
pub mod Fencing
use docker_plugin_gce_pd.Prelude.{ℕ, zero, suc, ◌+◌, Bool, true, false, not, Option, none, some}
use docker_plugin_gce_pd.Prelude.{List, [], ◌∷◌, ok, err, ltb, if◌then◌else◌}
use docker_plugin_gce_pd.Prelude.Bytes.{Bytes, codes, str_eq}
use docker_plugin_gce_pd.Prelude.Eff.{Eff, ◌>>=◌, ◌>>◌, return}
use docker_plugin_gce_pd.Errors.{
  Error, Res, is_not_found, wrapped, attaching_disk, detaching_disk, failing_over,
  attached_elsewhere, unfinished,
}
use docker_plugin_gce_pd.Gce.Info.{DiskInfo}
use docker_plugin_gce_pd.Gce.Refs.{
  same_instance, instance_name_from_ref, instance_path, is_holder_down,
}
use docker_plugin_gce_pd.Gce.Retry.{Runtime, retry}
use docker_plugin_gce_pd.Gce.Client.{AttachedDisk, ComputeApi, Client, scope_global, retry_op}
use docker_plugin_gce_pd.Gce.Disks.{get_disk}

unfoldable pub instance_self_link : Client → Bytes
unfolding instance_path
instance_self_link c = instance_path c.project_id c.zone c.this_instance

-- Some user of a disk is the instance with this link.
unfoldable pub used_by : Bytes → List Bytes → Bool
unfolding same_instance
used_by link [] = false
used_by link (u ∷ us) = let rest = used_by link us in if same_instance u link then true else rest

abbrev pub attached_disk : Bytes → DiskInfo → AttachedDisk
attached_disk name info = record {
  source = info.self_link;
  device_name = name;
  mode = codes "READ_WRITE";
  boot = false;
  auto_delete = false;
}

module _ {W O : Type 0} (rt : Runtime W) (api : ComputeApi W O) (c : Client) where
  unfoldable pub detach_from_instance : Bytes → Bytes → Eff W (Res (Unit {0}))
  unfolding retry_op
  detach_from_instance name holder = do
    r ← retry_op rt api c (api.detach_disk c.project_id c.zone holder name)
    elim r [ ok _ ↦ return (ok tt) | err e ↦ return (err (wrapped (detaching_disk name holder) e)) ]

  unfoldable pub instance_state : Bytes → Eff W (Res Bytes)
  unfolding retry
  instance_state holder = do
    r ← retry rt c.backoff (api.get_instance c.project_id c.zone holder)
    elim r [
      | ok status ↦ return (ok status)
      | err e ↦ return (if is_not_found e then ok [] else err e)
    ]

  unfoldable pub disk_released_by : Bytes → Bytes → Eff W (Res Bool)
  unfolding get_disk used_by instance_path
  disk_released_by name holder = do
    r ← get_disk rt api c name
    elim r [
      | err e ↦ return (err e)
      | ok info ↦ return (ok (not (used_by (instance_path c.project_id c.zone holder) info.users)))
    ]

  module _ (again : Eff W (Res (Unit {0}))) where
    -- The end of a round of the loop of ensureDetachedFromHolder, after the `select`; `again` is
    -- the next round.
    unfoldable pub after_select : Option Error → Eff W (Res (Unit {0}))
    after_select (some e) = return (err e)
    after_select none = do rt.sleep 1_000_000_000; again

    -- After the test of the deadline.
    unfoldable pub after_grace : Bytes → Bytes → Bool → Eff W (Res (Unit {0}))
    after_grace name holder true = detach_from_instance name holder
    after_grace name holder false = do stopped ← rt.done; after_select stopped

    -- After diskReleasedBy.
    unfoldable pub after_check : ℕ → Bytes → Bytes → Res Bool → Eff W (Res (Unit {0}))
    after_check deadline name holder (err e) = return (err e)
    after_check deadline name holder (ok true) = return (ok tt)
    after_check deadline name holder (ok false) = do
      t ← rt.now
      after_grace name holder (ltb deadline t)

  -- The loop of ensureDetachedFromHolder, up to the deadline.
  unfoldable pub await_release : ℕ → ℕ → Bytes → Bytes → Eff W (Res (Unit {0}))
  await_release zero deadline name holder = return (err unfinished)
  await_release (suc n) deadline name holder = do
    r ← disk_released_by name holder
    after_check (await_release n deadline name holder) deadline name holder r

  -- ensureDetachedFromHolder after the first detach.
  unfoldable pub after_detach : Bytes → Bytes → Res (Unit {0}) → Eff W (Res (Unit {0}))
  after_detach name holder (err e) = return (err e)
  after_detach name holder (ok _) = do
    t ← rt.now
    await_release rt.rounds (t + c.force_detach_after) name holder

  -- ensureDetachedFromHolder with a holder that is up.
  unfoldable pub detach_running : Bytes → Bytes → Eff W (Res (Unit {0}))
  detach_running name holder = do r ← detach_from_instance name holder; after_detach name holder r

  -- ensureDetachedFromHolder after isHolderDown.
  unfoldable pub after_status : Bytes → Bytes → Bool → Eff W (Res (Unit {0}))
  after_status name holder true = detach_from_instance name holder
  after_status name holder false = detach_running name holder

  -- ensureDetachedFromHolder after instanceState.
  unfoldable pub after_state : Bytes → Bytes → Res Bytes → Eff W (Res (Unit {0}))
  after_state name holder (err e) = return (err (wrapped (failing_over name holder) e))
  after_state name holder (ok status) = after_status name holder (is_holder_down status)

  unfoldable pub ensure_detached_from_holder : Bytes → Bytes → Eff W (Res (Unit {0}))
  ensure_detached_from_holder name holder_ref = do
    r ← instance_state (instance_name_from_ref holder_ref)
    after_state name (instance_name_from_ref holder_ref) r

  -- The call at the end of AttachDisk.
  unfoldable pub attach_here : Bytes → DiskInfo → Eff W (Res (Unit {0}))
  unfolding retry_op
  attach_here name info = do
    r ←
        retry_op rt api c
          (api.attach_disk c.project_id c.zone c.this_instance (attached_disk name info))
    elim r [
      | ok _ ↦ return (ok tt)
      | err e ↦ return (err (wrapped (attaching_disk name c.this_instance) e))
    ]

  -- The failover in AttachDisk: the holder lets go, and the disk is fetched again.
  unfoldable pub take_over : Bytes → Bytes → Eff W (Res (Unit {0}))
  unfolding ensure_detached_from_holder attach_here get_disk
  take_over name user = do
    r ← ensure_detached_from_holder name user
    elim r [
      | err e ↦ return (err e)
      | ok _ ↦ do
        again ← get_disk rt api c name
        elim again [ err e ↦ return (err e) | ok info ↦ attach_here name info ]
    ]

  -- The loop over the users: each way through its body leaves it.
  unfoldable pub attach_from : Bytes → DiskInfo → List Bytes → Eff W (Res (Unit {0}))
  unfolding take_over attach_here instance_self_link
  attach_from name info [] = attach_here name info
  attach_from name info (u ∷ us) = elim (same_instance u (instance_self_link c)) [
    | true ↦ return (ok tt)
    | false ↦ elim (str_eq c.scope scope_global) [
      | false ↦ return (err (attached_elsewhere name u))
      | true ↦ take_over name u
    ]
  ]

  unfoldable pub attach_disk : Bytes → Eff W (Res (Unit {0}))
  unfolding get_disk attach_from
  attach_disk name = do
    r ← get_disk rt api c name
    elim r [ err e ↦ return (err e) | ok info ↦ attach_from name info info.users ]

  unfoldable pub detach_disk : Bytes → Eff W (Res (Unit {0}))
  unfolding get_disk used_by detach_from_instance instance_self_link
  detach_disk name = do
    r ← get_disk rt api c name
    elim r [
      | err e ↦ return (err e)
      | ok info ↦ elim (used_by (instance_self_link c) info.users) [
        | false ↦ return (ok tt)
        | true ↦ detach_from_instance name c.this_instance
      ]
    ]
