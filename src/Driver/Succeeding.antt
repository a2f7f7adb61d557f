-- ===== src/Driver/Succeeding.antt =====
-- What a Mount or an Unmount that succeeds has done, in GCE, on the host and in the state.
use docker_plugin_gce_pd.Prelude.{◌≡◌, refl, some, ok, err, some, arith}
use docker_plugin_gce_pd.Prelude.Bytes.{Bytes}
use docker_plugin_gce_pd.Prelude.Map.{lookup}
use docker_plugin_gce_pd.Errors.{Res}
use docker_plugin_gce_pd.State.Volume.{is_positive, Volume}
use docker_plugin_gce_pd.State.Store
use docker_plugin_gce_pd.State.Store.{Store}
use docker_plugin_gce_pd.Mount.Paths.{mountpoint_for}
use docker_plugin_gce_pd.Driver.Interface.{GceClient, Mounter, Driver}
use docker_plugin_gce_pd.Driver.Lifecycle.{
  mount, mount_first, mount_counted, after_count, after_mount, after_format, after_wait,
  after_attach, detach_and_fail, unmount, unmount_last, inc_ref, dec_ref,
}
use docker_plugin_gce_pd.Driver.Mounting.{mount-first_lem}
use docker_plugin_gce_pd.Driver.Counting.{dec_ref_count, HeldBy, dec_ref-HeldBy}
use docker_plugin_gce_pd.State.Volume.{is_positive, is_positive}

module _ {W : Type 0} (g : GceClient W) (m : Mounter W) where
  -- A result of Mount that left this world, with the volume counted.
  abbrev pub Counted : Bytes → Bytes → W → Driver W → Res Bytes × Driver W → Type 0
  Counted name target w d r =
      ((Store.inc_ref name target d.store).1 ≡ ok tt)
      × (r ≡ (ok target, record d { store = (Store.inc_ref name target d.store).2; world = w }))

  counted_ok :
      (name target t : Bytes) (d : Driver W)
      → (mount_counted g m name target d).0 ≡ ok t
      → Counted name target d.world d (mount_counted g m name target d)
  unfolding mount_counted inc_ref after_count detach_and_fail
  counted_ok name target t d h = ground arith

  mounted_ok :
      (name target t : Bytes) (r : Res (Unit {0})) (d : Driver W)
      → (after_mount g m name target r d).0 ≡ ok t
      → (r ≡ ok tt) × Counted name target d.world d (after_mount g m name target r d)
  unfolding after_mount detach_and_fail
  mounted_ok name target t (err e) d h = cc
  mounted_ok name target t (ok _) d h = (refl, counted_ok name target t d h)

  -- The device is formatted or has its file system, and is mounted.
  abbrev pub Ready : Bytes → Bytes → Bytes → W → W → Type 0
  Ready fs_type device target w w' =
      (kind : Bytes) × ((m.ensure_formatted device fs_type w).0 ≡ ok kind)
      × ((m.mount device target (m.ensure_formatted device fs_type w).1).0 ≡ ok tt)
      × (w' ≡ (m.mount device target (m.ensure_formatted device fs_type w).1).1)

  formatted_ok :
      (name target t device : Bytes) (r : Res Bytes) (d : Driver W)
      → (after_format g m name target device r d).0 ≡ ok t
      → (kind : Bytes) × (r ≡ ok kind)
        × ((m.mount device target d.world).0 ≡ ok tt)
        × Counted name target
            (m.mount device target d.world).1
            d
            (after_format g m name target device r d)
  unfolding after_format detach_and_fail
  formatted_ok name target t device (err e) d h = cc
  formatted_ok name target t device (ok kind) d h =
      let (r, w) = m.mount device target d.world in
      let (mounts, counted) = mounted_ok name target t r (record d { world = w }) h in
      (kind, refl, mounts, counted)

  waited_ok :
      (name target fs_type t : Bytes) (r : Res Bytes) (d : Driver W)
      → (after_wait g m name target fs_type r d).0 ≡ ok t
      → (device : Bytes) × (w : W) × (r ≡ ok device)
        × Ready fs_type device target d.world w
        × Counted name target w d (after_wait g m name target fs_type r d)
  unfolding after_wait detach_and_fail
  waited_ok name target fs_type t (err e) d h = cc
  waited_ok name target fs_type t (ok device) d h =
      let (r, w) = m.ensure_formatted device fs_type d.world in
      let (kind, formats, mounts, counted) =
        formatted_ok name target t device r (record d { world = w }) h in
      (device, (m.mount device target w).1, refl, (kind, formats, mounts, refl), counted)

  -- The disk is attached, its device appears, and is ready and mounted.
  abbrev pub Opened : Bytes → Bytes → Bytes → W → W → Type 0
  Opened name target fs_type w w' =
      (device : Bytes) × ((g.attach_disk name w).0 ≡ ok tt)
      × ((m.wait_for_device name (g.attach_disk name w).1).0 ≡ ok device)
      × Ready fs_type device target (m.wait_for_device name (g.attach_disk name w).1).1 w'

  attached_ok :
      (name target fs_type t : Bytes) (r : Res (Unit {0})) (d : Driver W)
      → (after_attach g m name target fs_type r d).0 ≡ ok t
      → (device : Bytes) × (w : W) × (r ≡ ok tt)
        × ((m.wait_for_device name d.world).0 ≡ ok device)
        × Ready fs_type device target (m.wait_for_device name d.world).1 w
        × Counted name target w d (after_attach g m name target fs_type r d)
  unfolding after_attach
  attached_ok name target fs_type t (err e) d h = cc
  attached_ok name target fs_type t (ok _) d h =
      let (r, w) = m.wait_for_device name d.world in
      let (device, w', waits, ready, counted) =
        waited_ok name target fs_type t r (record d { world = w }) h in
      (device, w', refl, waits, ready, counted)

  opened :
      (name target fs_type t : Bytes) (d : Driver W)
      → (mount_first g m name target fs_type d).0 ≡ ok t
      → (w : W) × Opened name target fs_type d.world w
        × Counted name target w d (mount_first g m name target fs_type d)
  unfolding mount_first
  opened name target fs_type t d h =
      let (r, w) = g.attach_disk name d.world in
      let (device, w', attaches, waits, ready, counted) =
        attached_ok name target fs_type t r (record d { world = w }) h in
      (w', (device, attaches, waits, ready), counted)

  -- A Mount that succeeds on a volume with a count of zero has, in this order and each with
  -- success, attached the disk, waited for its device, formatted the device if it had to, with the
  -- file system of the volume's options, and mounted it at the volume's mount point; it has
  -- written the count, returns that mount point, and has called nothing else.
  pub mount_ok :
      (name t : Bytes) (d : Driver W) (v : Volume)
      → lookup name d.store.vols ≡ some v
      → v.ref_count ≡ 0
      → (mount g m name d).0 ≡ ok t
      → (w : W) × Opened name (mountpoint_for name) v.options.fs_type d.world w
        × Counted name (mountpoint_for name) w d (mount g m name d)
  mount_ok name t d v found count h =
      let first = mount-first_lem g m name d v found count in
      rw first (opened name (mountpoint_for name) v.options.fs_type t d (rw first at h))

  last_ok :
      (name target : Bytes) (d : Driver W)
      → (unmount_last g m name target d).0 ≡ ok tt
      → ((m.unmount target d.world).0 ≡ ok tt)
        × ((g.detach_disk name (m.unmount target d.world).1).0 ≡ ok tt)
        × ((unmount_last g m name target d).1
            ≡ record d { world = (g.detach_disk name (m.unmount target d.world).1).1 })
  unfolding unmount_last
  last_ok name target d h = ground arith

  unmount-last_lem :
      (name : Bytes) (d : Driver W)
      → HeldBy 1 name d.store
      → (Store.dec_ref name d.store).0 ≡ 0
      → (unmount g m name d).0 ≡ ok tt
      → ((Store.dec_ref name d.store).1 ≡ ok tt)
        × (unmount g m name d
            ≡ unmount_last g m name
                (mountpoint_for name)
                (record d { store = (Store.dec_ref name d.store).2 }))
  unfolding unmount dec_ref is_positive Store.get
  unmount-last_lem name d (v, found, count) none_left h = ground arith

  -- An Unmount that succeeds on a volume with a count of one has written the count of zero, and
  -- has unmounted the mount point and then detached the disk, each with success, as its only
  -- calls of the host and of GCE.
  pub unmount_ok :
      (name : Bytes) (d : Driver W)
      → HeldBy 1 name d.store
      → (unmount g m name d).0 ≡ ok tt
      → let d' = (unmount g m name d).1 in
        let w = (m.unmount (mountpoint_for name) d.world).1 in
        ((Store.dec_ref name d.store).1 ≡ ok tt)
        × HeldBy 0 name d'.store
        × ((m.unmount (mountpoint_for name) d.world).0 ≡ ok tt)
        × ((g.detach_disk name w).0 ≡ ok tt)
        × (d'.world ≡ (g.detach_disk name w).1)
  unmount_ok name d held h =
      let dropped = dec_ref-HeldBy 0 name d.store (omega arith) held in
      let (counts, last) = unmount-last_lem name d held (dec_ref_count 0 name d.store dropped) h in
      let (unmounts, detaches, left) =
        last_ok name (mountpoint_for name) (record d { store = (Store.dec_ref name d.store).2 })
          (rw last at h) in
      (counts, rw (last, left) dropped, unmounts, detaches, rw (last, left) refl)
