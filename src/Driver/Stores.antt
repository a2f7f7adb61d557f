-- ===== src/Driver/Stores.antt =====
-- What each method of the driver does to the store: which store operation it runs, if any.
use docker_plugin_gce_pd.Prelude.{◌≡◌, refl}
use docker_plugin_gce_pd.Prelude.{ok, err, arith, ◌⊎◌, inl, inr}
use docker_plugin_gce_pd.Prelude.{Option, none, some}
use docker_plugin_gce_pd.Prelude.Bytes.{Bytes}
use docker_plugin_gce_pd.Prelude.Map.{Map, lookup}
use docker_plugin_gce_pd.Errors.{Res}
use docker_plugin_gce_pd.State.Volume.{Volume}
use docker_plugin_gce_pd.State.Store
use docker_plugin_gce_pd.State.Store.{Store}
use docker_plugin_gce_pd.Gce.Options.{DiskOptions, parse_disk_options}
use docker_plugin_gce_pd.Mount.Paths.{mountpoint_for}
use docker_plugin_gce_pd.Gce.Info.{DiskInfo}
use docker_plugin_gce_pd.Driver.Interface.{GceClient, Mounter, Driver}
use docker_plugin_gce_pd.Driver.Lifecycle.{
  new_record, adopt_existing_disk, after_add, after_create, provision, create_found,
  create_untracked, create, remove, mount_counted, detach_and_fail, after_count, after_mount,
  after_format, after_wait, after_attach, mount_first, mount, unmount_last, unmount, dec_ref,
  delete_in_background, inc_ref,
}
use docker_plugin_gce_pd.Errors.{Error}
use docker_plugin_gce_pd.Prelude.{Option}

abbrev Added : Bytes → Bytes → DiskOptions → Store → Store → Type 0
Added now name opts s s' = (s' ≡ s) ⊎ (s' ≡ (Store.add (new_record now name opts) s).1)

module _ {W : Type 0} (g : GceClient W) (m : Mounter W) where
  adopt-store :
      (now name : Bytes) (info : DiskInfo) (opts : DiskOptions) (d : Driver W)
      → Added now name opts d.store (adopt_existing_disk g m now name info opts d).1.store
  unfolding adopt_existing_disk
  adopt-store now name info opts d = ground arith

  after_create-store :
      (now name : Bytes) (opts : DiskOptions) (r : Res DiskInfo) (d : Driver W)
      → Added now name opts d.store (after_create g m now name opts r d).1.store
  unfolding after_create after_add
  after_create-store now name opts (err e) d = inl refl
  after_create-store now name opts (ok _) d = ground arith

  provision-store :
      (now name : Bytes) (opts : DiskOptions) (d : Driver W)
      → Added now name opts d.store (provision g m now name opts d).1.store
  unfolding provision
  provision-store now name opts d =
      let (r, w) = g.create_disk name opts d.world in
      after_create-store now name opts r (record d { world = w })

  create_found-store :
      (now name : Bytes) (opts : DiskOptions) (r : Res DiskInfo) (d : Driver W)
      → Added now name opts d.store (create_found g m now name opts r d).1.store
  unfolding create_found
  create_found-store now name opts (ok info) d = ground (arith, adopt-store now name info opts d)
  create_found-store now name opts (err x) d = ground (arith, provision-store now name opts d)

  create_untracked-store :
      (now name : Bytes) (opts : DiskOptions) (d : Driver W)
      → Added now name opts d.store (create_untracked g m now name opts d).1.store
  unfolding create_untracked
  create_untracked-store now name opts d =
      let r = g.get_disk name d.world in
      create_found-store now name opts r.0 (record d { world = r.1 })

  -- Create changes the store only by the Add of a fresh record with the parsed options.
  pub create-store :
      (now name : Bytes) (raw : Map Bytes) (d : Driver W)
      → ((create g m now name raw d).1.store ≡ d.store)
        ⊎ ((opts : DiskOptions) × (parse_disk_options raw ≡ ok opts)
            × ((create g m now name raw d).1.store
                ≡ (Store.add (new_record now name opts) d.store).1))
  unfolding create
  create-store now name raw d = go (parse_disk_options raw) refl
    where
      S : Store
      S = (create g m now name raw d).1.store

      go :
          (r : Res DiskOptions)
          → parse_disk_options raw ≡ r
          → (S ≡ d.store)
            ⊎ ((opts : DiskOptions) × (parse_disk_options raw ≡ ok opts)
                × (S ≡ (Store.add (new_record now name opts) d.store).1))
      go (err x) e = inl (ground arith)
      go (ok opts) e =
          let same : Added now name opts d.store S =
            ground (arith, create_untracked-store now name opts d) in
          elim same [ inl p ↦ inl p | inr p ↦ inr (opts, e, p) ]

  pub remove-store :
      (name : Bytes) (d : Driver W)
      → ((remove g m name d).1.store ≡ d.store)
        ⊎ ((remove g m name d).1.store ≡ (Store.remove name d.store).1)
  unfolding remove delete_in_background
  remove-store name d = ground arith

  abbrev Counted : Bytes → Bytes → Driver W → Driver W → Type 0
  Counted name target d d' =
      (d'.store ≡ d.store) ⊎ (d'.store ≡ (Store.inc_ref name target d.store).2)

  detach_and_fail-store :
      (name : Bytes) (e : Error) (d : Driver W) → (detach_and_fail g m name e d).1.store ≡ d.store
  unfolding detach_and_fail
  detach_and_fail-store name e d = refl

  after_count-store :
      (name target : Bytes) (r : Res (Unit {0})) (d : Driver W)
      → (after_count g m name target r d).1.store ≡ d.store
  unfolding after_count
  after_count-store name target (ok _) d = refl
  after_count-store name target (err e) d =
      detach_and_fail-store name _ (record d { world = (m.unmount target d.world).1 })

  after_mount-store :
      (name target : Bytes) (r : Res (Unit {0})) (d : Driver W)
      → Counted name target d (after_mount g m name target r d).1
  unfolding after_mount mount_counted inc_ref
  after_mount-store name target (err e) d = inl (detach_and_fail-store name e d)
  after_mount-store name target (ok _) d =
      let (n, r, s') = Store.inc_ref name target d.store in
      inr (after_count-store name target r (record d { store = s' }))

  after_format-store :
      (name target device : Bytes) (r : Res Bytes) (d : Driver W)
      → Counted name target d (after_format g m name target device r d).1
  unfolding after_format
  after_format-store name target device (err e) d = inl (detach_and_fail-store name e d)
  after_format-store name target device (ok _) d =
      let (r, w) = m.mount device target d.world in
      after_mount-store name target r (record d { world = w })

  after_wait-store :
      (name target fs_type : Bytes) (r : Res Bytes) (d : Driver W)
      → Counted name target d (after_wait g m name target fs_type r d).1
  unfolding after_wait
  after_wait-store name target fs_type (err e) d = inl (detach_and_fail-store name e d)
  after_wait-store name target fs_type (ok device) d =
      let (r, w) = m.ensure_formatted device fs_type d.world in
      after_format-store name target device r (record d { world = w })

  after_attach-store :
      (name target fs_type : Bytes) (r : Res (Unit {0})) (d : Driver W)
      → Counted name target d (after_attach g m name target fs_type r d).1
  unfolding after_attach
  after_attach-store name target fs_type (err e) d = inl refl
  after_attach-store name target fs_type (ok _) d =
      let (r, w) = m.wait_for_device name d.world in
      after_wait-store name target fs_type r (record d { world = w })

  mount_first-store :
      (name target fs_type : Bytes) (d : Driver W)
      → Counted name target d (mount_first g m name target fs_type d).1
  unfolding mount_first
  mount_first-store name target fs_type d =
      let (r, w) = g.attach_disk name d.world in
      after_attach-store name target fs_type r (record d { world = w })

  -- Mount changes the store only by IncRef with the volume's mount target.
  pub mount-store :
      (name : Bytes) (d : Driver W) → Counted name (mountpoint_for name) d (mount g m name d).1
  unfolding mount inc_ref Store.get
  mount-store name d = go (lookup name d.store.vols) refl
    where
      go :
          (o : Option Volume)
          → lookup name d.store.vols ≡ o
          → Counted name (mountpoint_for name) d (mount g m name d).1
      go none e = inl (ground arith)
      go (some v) e =
          ground (arith, mount_first-store name (mountpoint_for name) v.options.fs_type d)

  -- Unmount changes the store only by DecRef.
  pub unmount-store :
      (name : Bytes) (d : Driver W)
      → ((unmount g m name d).1.store ≡ d.store)
        ⊎ ((unmount g m name d).1.store ≡ (Store.dec_ref name d.store).2)
  unfolding unmount unmount_last dec_ref
  unmount-store name d = ground arith
