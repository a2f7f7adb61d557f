-- ===== src/Driver/Mounting.antt =====
-- The error paths of Mount and Unmount.
use docker_plugin_gce_pd.Prelude.{◌≡◌, refl, ◌⊎◌, inl, inr, true}
use docker_plugin_gce_pd.Prelude.{false, some, ok, err, is_ok, arith}
use mathlib.Core.Path.{subst, sym}
use docker_plugin_gce_pd.Prelude.Bytes.{Bytes}
use docker_plugin_gce_pd.Prelude.Map.{lookup}
use docker_plugin_gce_pd.Errors.{Error, Res}
use docker_plugin_gce_pd.State.Volume.{Volume, is_positive}
use docker_plugin_gce_pd.State.Store
use docker_plugin_gce_pd.State.Store.{Store}
use docker_plugin_gce_pd.Mount.Paths.{mountpoint_for}
use docker_plugin_gce_pd.Driver.Interface.{GceClient, Mounter, Driver}
use docker_plugin_gce_pd.Driver.Lifecycle.{
  mount, mount_first, mount_counted, after_count, after_mount, after_format, after_wait,
  after_attach, detach_and_fail, unmount, unmount_last, inc_ref, dec_ref,
}
use docker_plugin_gce_pd.Driver.Counting.{HeldBy, dec_ref-HeldBy}

module _ {W : Type 0} (g : GceClient W) (m : Mounter W) where
  -- The call succeeded, or the last thing that it did in the world was to detach the disk.
  abbrev pub OkOrDetached : Bytes → Res Bytes × Driver W → Type 0
  OkOrDetached name r =
      (is_ok r.0 ≡ true) ⊎ ((is_ok r.0 ≡ false) × (w : W) × (r.1.world ≡ (g.detach_disk name w).1))

  detach_and_fail-Detached :
      (name : Bytes) (e : Error) (d : Driver W) → OkOrDetached name (detach_and_fail g m name e d)
  unfolding detach_and_fail
  detach_and_fail-Detached name e d = inr (refl, d.world, refl)

  after_count-Detached :
      (name target : Bytes) (r : Res (Unit {0})) (d : Driver W)
      → OkOrDetached name (after_count g m name target r d)
  unfolding after_count
  after_count-Detached name target (ok _) d = inl refl
  after_count-Detached name target (err e) d =
      detach_and_fail-Detached name _ (record d { world = (m.unmount target d.world).1 })

  after_mount-Detached :
      (name target : Bytes) (r : Res (Unit {0})) (d : Driver W)
      → OkOrDetached name (after_mount g m name target r d)
  unfolding after_mount mount_counted inc_ref
  after_mount-Detached name target (err e) d = detach_and_fail-Detached name e d
  after_mount-Detached name target (ok _) d =
      let (n, r, s') = Store.inc_ref name target d.store in
      after_count-Detached name target r (record d { store = s' })

  after_format-Detached :
      (name target device : Bytes) (r : Res Bytes) (d : Driver W)
      → OkOrDetached name (after_format g m name target device r d)
  unfolding after_format
  after_format-Detached name target device (err e) d = detach_and_fail-Detached name e d
  after_format-Detached name target device (ok _) d =
      let (r, w) = m.mount device target d.world in
      after_mount-Detached name target r (record d { world = w })

  after_wait-Detached :
      (name target fs_type : Bytes) (r : Res Bytes) (d : Driver W)
      → OkOrDetached name (after_wait g m name target fs_type r d)
  unfolding after_wait
  after_wait-Detached name target fs_type (err e) d = detach_and_fail-Detached name e d
  after_wait-Detached name target fs_type (ok device) d =
      let (r, w) = m.ensure_formatted device fs_type d.world in
      after_format-Detached name target device r (record d { world = w })

  after_attach-Detached :
      (name target fs_type : Bytes) (d : Driver W)
      → OkOrDetached name (after_attach g m name target fs_type (ok tt) d)
  unfolding after_attach
  after_attach-Detached name target fs_type d =
      let (r, w) = m.wait_for_device name d.world in
      after_wait-Detached name target fs_type r (record d { world = w })

  pub mount-first_lem :
      (name : Bytes) (d : Driver W) (v : Volume)
      → lookup name d.store.vols ≡ some v
      → v.ref_count ≡ 0
      → mount g m name d ≡ mount_first g m name (mountpoint_for name) v.options.fs_type d
  unfolding mount is_positive Store.get
  mount-first_lem name d v found count = ground arith

  -- Mount of a volume with a count of zero, once AttachDisk has succeeded, succeeds, or it ends
  -- with an error after DetachDisk as its last call in the world, wherever it failed.
  pub mount_failure_detaches :
      (name : Bytes) (d : Driver W)
      → HeldBy 0 name d.store
      → (g.attach_disk name d.world).0 ≡ ok tt
      → OkOrDetached name (mount g m name d)
  mount_failure_detaches name d (v, found, count) attached =
      subst (OkOrDetached name) (sym (mount-first_lem name d v found count)) (
        unfold mount_first in
        subst
          (λ (r : Res (Unit {0})). OkOrDetached name (
            after_attach g m name (mountpoint_for name) v.options.fs_type r
              (record d { world = (g.attach_disk name d.world).1 })))
          (sym attached)
          (after_attach-Detached name (mountpoint_for name) v.options.fs_type
            (record d { world = (g.attach_disk name d.world).1 })))

  -- What an Unmount that fails leaves behind.
  unmount_drops :
      (name : Bytes) (d : Driver W)
      → HeldBy 1 name d.store
      → (unmount g m name d).1.store ≡ (Store.dec_ref name d.store).2
  unfolding unmount unmount_last dec_ref is_positive Store.get
  unmount_drops name d (v, found, count) = ground arith

  unmount_idle :
      (name : Bytes) (d : Driver W) → HeldBy 0 name d.store → unmount g m name d ≡ (ok tt, d)
  unfolding unmount Store.get
  unmount_idle name d (v, found, count) = ground arith

  -- After an Unmount of a volume with a count of one, whether it succeeded or the host could not
  -- unmount or GCE could not detach the disk, another Unmount returns success and does nothing.
  pub unmount_not_retried :
      (name : Bytes) (d : Driver W)
      → HeldBy 1 name d.store
      → let d' = (unmount g m name d).1 in unmount g m name d' ≡ (ok tt, d')
  unmount_not_retried name d h =
      unmount_idle name (unmount g m name d).1
        (rw (unmount_drops name d h) (dec_ref-HeldBy 0 name d.store (omega arith) h))
