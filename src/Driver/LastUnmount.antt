-- ===== src/Driver/LastUnmount.antt =====
-- driver.go: Unmount of the last mount of a volume, on every branch.
use docker_plugin_gce_pd.Prelude.{◌≡◌, refl, inl, inr, ◌⊎◌, ok, err, arith}
use docker_plugin_gce_pd.Prelude.Bytes.{Bytes}
use docker_plugin_gce_pd.Errors.{Error, Res}
use docker_plugin_gce_pd.State.Volume.{is_positive}
use docker_plugin_gce_pd.State.Store
use docker_plugin_gce_pd.Mount.Paths.{mountpoint_for}
use docker_plugin_gce_pd.Driver.Interface.{GceClient, Mounter, Driver}
use docker_plugin_gce_pd.Driver.Lifecycle.{unmount, unmount_last, dec_ref}
use docker_plugin_gce_pd.Driver.Counting.{dec_ref_count, HeldBy, dec_ref-HeldBy}

module _ {W : Type 0} (g : GceClient W) (m : Mounter W) where
  -- The end of an Unmount after the count of zero has been written.
  abbrev pub LastCalls : Bytes → Driver W → Res (Unit {0}) × Driver W → Type 0
  LastCalls name d r =
      let (off, w) = m.unmount (mountpoint_for name) d.world in
      ((e : Error) × (off ≡ err e) × (r ≡ (err e, record d { world = w })))
      ⊎ ((off ≡ ok tt)
          × (r ≡ ((g.detach_disk name w).0, record d { world = (g.detach_disk name w).1 })))

  last_lem :
      (name : Bytes) (d : Driver W)
      → LastCalls name d (unmount_last g m name (mountpoint_for name) d)
  unfolding unmount_last
  last_lem name d = go (m.unmount (mountpoint_for name) d.world).0 refl
    where
      go :
          (r : Res (Unit {0}))
          → (m.unmount (mountpoint_for name) d.world).0 ≡ r
          → LastCalls name d (unmount_last g m name (mountpoint_for name) d)
      go (err e) h = inl (e, h, ground arith)
      go (ok tt) h = inr (h, ground arith)

  -- The volume's record is written before anything else.
  unmount-dec_ref :
      (name : Bytes) (d : Driver W)
      → HeldBy 1 name d.store
      → (Store.dec_ref name d.store).0 ≡ 0
      → unmount g m name d ≡ elim (Store.dec_ref name d.store).1 [
        | err e ↦ (err e, record d { store = (Store.dec_ref name d.store).2 })
        | ok _ ↦
            unmount_last g m name
              (mountpoint_for name)
              (record d { store = (Store.dec_ref name d.store).2 })
      ]
  unfolding unmount dec_ref is_positive Store.get
  unmount-dec_ref name d (v, found, count) none_left = ground arith

  last_store :
      (name target : Bytes) (d : Driver W) → (unmount_last g m name target d).1.store ≡ d.store
  unfolding unmount_last
  last_store name target d = ground arith

  -- Unmount on a volume with a count of one, on every branch: the volume's count is zero after
  -- it; where the record cannot be written, it returns that error and calls neither the host nor
  -- GCE; where it is written, the mount point is unmounted, where that fails its error is
  -- returned and GCE is not called, and where it succeeds DetachDisk is the last call and its
  -- result is that of Unmount. Nothing else of the driver changes.
  pub unmount_lem :
      (name : Bytes) (d : Driver W)
      → HeldBy 1 name d.store
      → let (n, written, s) = Store.dec_ref name d.store in
        let r = unmount g m name d in
        HeldBy 0 name r.1.store
        × (((e : Error) × (written ≡ err e) × (r ≡ (err e, record d { store = s })))
            ⊎ ((written ≡ ok tt) × LastCalls name (record d { store = s }) r))
  unmount_lem name d held = go (Store.dec_ref name d.store).1 refl
    where
      dropped : HeldBy 0 name (Store.dec_ref name d.store).2
      dropped = dec_ref-HeldBy 0 name d.store (omega arith) held

      d' : Driver W
      d' = record d { store = (Store.dec_ref name d.store).2 }

      go :
          (written : Res (Unit {0}))
          → (Store.dec_ref name d.store).1 ≡ written
          → let r = unmount g m name d in
            HeldBy 0 name r.1.store
            × (((e : Error) × ((Store.dec_ref name d.store).1 ≡ err e) × (r ≡ (err e, d')))
                ⊎ (((Store.dec_ref name d.store).1 ≡ ok tt) × LastCalls name d' r))
      go (err e) h =
          let same : unmount g m name d ≡ (err e, d') =
            rw h at (unmount-dec_ref name d held (dec_ref_count 0 name d.store dropped)) in
          (rw same dropped, inl (e, h, same))
      go (ok tt) h =
          let same : unmount g m name d ≡ unmount_last g m name (mountpoint_for name) d' =
            rw h at (unmount-dec_ref name d held (dec_ref_count 0 name d.store dropped)) in
          (
            rw (same, last_store name (mountpoint_for name) d') dropped,
            inr (h, rw same (last_lem name d')),
          )
