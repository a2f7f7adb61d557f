-- ===== src/Driver/Tables.antt =====
-- The first Mount of a volume and its last Unmount, down to the mount table of the host.
use docker_plugin_gce_pd.Prelude.{ℕ, ◌≡◌, ◌∙◌, sym, ap, false, List, [], ◌∷◌, ◌++◌, ok, some, arith}
use mathlib.Core.Path.{subst}
use docker_plugin_gce_pd.Errors.{Res}
use docker_plugin_gce_pd.Prelude.Bytes.{Bytes}
use docker_plugin_gce_pd.Prelude.Map.{lookup}
use docker_plugin_gce_pd.State.Volume.{Volume}
use docker_plugin_gce_pd.Gce.Retry.{Runtime}
use docker_plugin_gce_pd.Gce.Retry.Outcome.{Quiet}
use docker_plugin_gce_pd.Mount.Paths.{clean, device_path, mountpoint_for}
use docker_plugin_gce_pd.Mount.Table.{Entry, mounted_at}
use docker_plugin_gce_pd.Mount.Commands.{Host}
use docker_plugin_gce_pd.Mount.Kernel.{Kernel}
use docker_plugin_gce_pd.Mount.Kernel.Cycle.{mount_unmount}
use docker_plugin_gce_pd.Mount.Keeping.{FormatKeeps, wait_for_device-Keeps, ensure_formatted-Keeps}
use docker_plugin_gce_pd.Driver.Interface.{GceClient, Driver}
use docker_plugin_gce_pd.Driver.Lifecycle.{mount, unmount}
use docker_plugin_gce_pd.Driver.Wiring.{host_mounter}
use docker_plugin_gce_pd.Driver.Counting.{HeldBy, inc_ref-HeldBy}
use docker_plugin_gce_pd.Driver.Succeeding.{mount_ok, unmount_ok}

module _ {W : Type 0} (rt : Runtime W) (host : Host W) (timeout : ℕ) (g : GceClient W)
    (table : W → List Entry) (kernel : Kernel host table) where
  -- Other calls than those of mount and umount leave the mount table alone.
  pub record Aside (name : Bytes) : Type 0 where
    pub runtime : (t : List Entry) → Quiet rt (λ w. table w ≡ t)
    pub stats : (w : W) → table (host.stat (device_path name) w).1 ≡ table w
    pub formats : (t : List Entry) → FormatKeeps rt host timeout (λ w. table w ≡ t) (runtime t)
    pub attaches : (w : W) → table (g.attach_disk name w).1 ≡ table w
    pub detaches : (w : W) → table (g.detach_disk name w).1 ≡ table w

  -- From a free mount point: a Mount that succeeds on a volume with a count of zero puts one mount
  -- into the mount table, last, at the volume's mount point; an Unmount
  -- right after it that succeeds leaves the table as it was before, and the volume with a count of
  -- zero.
  pub first_mount_last_unmount :
      (name t : Bytes) (d : Driver W) (v : Volume)
      → Aside name
      → lookup name d.store.vols ≡ some v
      → v.ref_count ≡ 0
      → mounted_at (mountpoint_for name) (table d.world) ≡ false
      → (mount g (host_mounter rt host timeout) name d).0 ≡ ok t
      → (unmount g
          (host_mounter rt host timeout)
          name
          (mount g (host_mounter rt host timeout) name d).1).0
        ≡ ok tt
      → let d' = (mount g (host_mounter rt host timeout) name d).1 in
        let d'' = (unmount g (host_mounter rt host timeout) name d').1 in
        ((e : Entry) × (clean e.target ≡ clean (mountpoint_for name))
          × (table d'.world ≡ table d.world ++ (e ∷ [])))
        × (table d''.world ≡ table d.world)
        × HeldBy 0 name d''.store
  first_mount_last_unmount name t d v aside found count free up down =
      let m = host_mounter rt host timeout in
      let target = mountpoint_for name in
      let (w, (device, attached, waited, (kind, formatted, mounted, last)), (counted, left)) =
        mount_ok g m name t d v found count up in
      let w1 = (g.attach_disk name d.world).1 in
      let w2 = (m.wait_for_device name w1).1 in
      let w3 = (m.ensure_formatted device v.options.fs_type w2).1 in
      let same : table w3 ≡ table d.world =
        ensure_formatted-Keeps rt host timeout (λ x. table x ≡ table d.world)
          (aside.runtime (table d.world)) (aside.formats (table d.world)) device v.options.fs_type
          w2
          (wait_for_device-Keeps rt host timeout (λ x. table x ≡ table d.world)
            (aside.runtime (table d.world)) name (λ x p. aside.stats x ∙ p) w1
            (aside.attaches d.world)) in
      let d' = (mount g m name d).1 in
      let held : HeldBy 1 name d'.store =
        subst (HeldBy 1 name) (sym (ap (λ (r : Res Bytes × Driver W). r.1.store) left))
          (inc_ref-HeldBy 0 name target d.store (omega arith) (v, found, count)) in
      let (zeroed, held', off, detached, there) = unmount_ok g m name d' held down in
      let here : d'.world ≡ (m.mount device target w3).1 =
        ap (λ (r : Res Bytes × Driver W). r.1.world) left ∙ last in
      let ((e, at, stands), back) =
        mount_unmount rt host timeout table kernel device target w3
          (ap (mounted_at target) same ∙ free) mounted
          (subst (λ x. (m.unmount target x).0 ≡ ok tt) here off) in
      (
        (e, at, ap table here ∙ stands ∙ ap (λ x. x ++ (e ∷ [])) same),
        ap table there
            ∙ aside.detaches (m.unmount target d'.world).1
            ∙ ap (λ x. table (m.unmount target x).1) here
            ∙ back
            ∙ same,
        held',
      )
