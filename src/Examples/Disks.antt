-- ===== src/Examples/Disks.antt =====
-- The theorems on the client of GCE, at the example site.
use docker_plugin_gce_pd.Prelude.{◌≡◌, ◌≢◌, refl, true, false, some, [], ◌∷◌, ok, err, arith}
use docker_plugin_gce_pd.Prelude.{if◌then◌else◌}
use docker_plugin_gce_pd.Prelude.Bytes.{codes, str_eq}
use docker_plugin_gce_pd.Prelude.{ap, sym, ◌∙◌, length, ℕ, false}
use docker_plugin_gce_pd.Prelude.Bytes.{Bytes}
use docker_plugin_gce_pd.Errors.{Res}
use docker_plugin_gce_pd.Gce.Client.{ComputeApi}
use docker_plugin_gce_pd.Mount.Commands.{Host, probe_fs_type, ensure_formatted}
use docker_plugin_gce_pd.Mount.Formatting.{ensure_formatted_lem}
use docker_plugin_gce_pd.Gce.Info.{DiskInfo}
use docker_plugin_gce_pd.Gce.Retry.{retry}
use docker_plugin_gce_pd.Gce.Retry.Outcome.{Quiet}
use docker_plugin_gce_pd.Gce.Disks.{
  get_disk, delete_disk, mark_deleting, snapshot_disk, delete_marked,
}
use docker_plugin_gce_pd.Gce.Disks.Deleting.{delete_disk_after_snapshot}
use docker_plugin_gce_pd.Gce.Attach.{attach_disk}
use docker_plugin_gce_pd.Gce.Attach.Local.{attach_disk_local}
use docker_plugin_gce_pd.Examples.World.{Site, monday, clock, api_with, client, data_name}
use docker_plugin_gce_pd.Prelude.{List}
use docker_plugin_gce_pd.Prelude.Bytes.{Bytes}

-- The disk is attached to another instance.
abbrev user : List Bytes
user = codes "instances/vm-2" ∷ []

-- A deleted disk has a snapshot.
abbrev Safe : Site → Type 0
Safe w = if w.deleted then w.snapshot ≡ true else Unit

abbrev Taken : Site → Type 0
Taken w = w.snapshot ≡ true

reads-Safe : (w : Site) → Safe w → Safe (get_disk clock (api_with []) client data_name w).1
unfolding get_disk retry docker_plugin_gce_pd.Gce.Retry.attempt_from
    docker_plugin_gce_pd.Gce.Retry.after_call
reads-Safe w p = p

marks-Safe :
    (info : DiskInfo) (w : Site) → Safe w → Safe (mark_deleting clock (api_with []) client info w).1
unfolding mark_deleting retry docker_plugin_gce_pd.Gce.Retry.attempt_from
    docker_plugin_gce_pd.Gce.Retry.after_call docker_plugin_gce_pd.Gce.Client.retry_op
marks-Safe info w p = p

snapshot-Taken : (w : Site) → Taken (snapshot_disk clock (api_with []) client data_name w).1
unfolding snapshot_disk docker_plugin_gce_pd.Gce.Client.retry_op
    docker_plugin_gce_pd.Gce.Retry.attempt_from docker_plugin_gce_pd.Gce.Retry.after_call
snapshot-Taken w = refl

Taken-Safe : (w : Site) → Taken w → Safe w
Taken-Safe w t = elim w.deleted as (λ b. if b then w.snapshot ≡ true else Unit) [
  | true ↦ t
  | false ↦ tt
]

deletes-Safe : (w : Site) → Taken w → Safe (delete_marked clock (api_with []) client data_name w).1
unfolding delete_marked docker_plugin_gce_pd.Gce.Client.retry_op
    docker_plugin_gce_pd.Gce.Retry.attempt_from docker_plugin_gce_pd.Gce.Retry.after_call
deletes-Safe w t = t

delete_disk_after_snapshot_example :
    Safe (delete_disk clock (api_with []) client data_name true monday).1
delete_disk_after_snapshot_example =
    delete_disk_after_snapshot clock (api_with []) client data_name Safe Taken marks-Safe
      (λ w p.
        Taken-Safe (snapshot_disk clock (api_with []) client data_name w).1 (snapshot-Taken w))
      (λ w e. snapshot-Taken w) (λ w t p. deletes-Safe w t) reads-Safe monday tt

-- Nothing is deleted.
abbrev Intact : Site → Type 0
Intact w = w.deleted ≡ false

clock-Quiet : Quiet clock Intact
clock-Quiet = record {
  by_now = λ w p. p;
  by_utc = λ w p. p;
  by_int63n = λ n w p. p;
  by_sleep = λ n w p. p;
  by_sleep_or_done = λ n w p. p;
  by_done = λ w p. p;
}

attach_disk_local_example : Intact (attach_disk clock (api_with user) client data_name monday).1
attach_disk_local_example =
    attach_disk_local clock (api_with user) client Intact clock-Quiet (λ op w p. p) data_name
      (unfold str_eq in refl) (λ w p. p) (λ a w p. p) monday refl

abbrev size_of : Res Bytes → ℕ
size_of (ok b) = length b
size_of (err e) = 0

-- The probe finds a filesystem on every device.
abbrev host : Host Site
host = record {
  run = λ args w. (ok (codes "ext4"), w);
  stat = λ path w. (ok tt, w);
  mkdir_all = λ path w. (ok tt, w);
  read_mounts = λ w. (ok [], w);
}

probed : (probe_fs_type clock host 1 (codes "/dev/sdb") monday).0 ≡ ok (codes "ext4")
unfolding probe_fs_type docker_plugin_gce_pd.Prelude.Bytes.trim_space
probed = refl

ensure_formatted_lem_example :
    ensure_formatted clock host 1 (codes "/dev/sdb") (codes "xfs") monday
    ≡ probe_fs_type clock host 1 (codes "/dev/sdb") monday
ensure_formatted_lem_example =
    ensure_formatted_lem clock host 1 (codes "/dev/sdb") (codes "xfs") monday
      λ e. omega (arith, ap (λ (r : Res Bytes). size_of r) (sym probed ∙ e))
