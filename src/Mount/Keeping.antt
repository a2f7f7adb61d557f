-- ===== src/Mount/Keeping.antt =====
-- What WaitForDevice and EnsureFormatted keep of the world.
use docker_plugin_gce_pd.Prelude.{
  Bool-cases, inl, inr, ℕ, zero, suc, ◌+◌, ◌≡◌, refl, Bool, true, false, not, Option, none, some,
  List, [], ◌∷◌, ok, err, ltb, arith,
}
use docker_plugin_gce_pd.Prelude.Bytes.{Bytes, codes, str_eq}
use docker_plugin_gce_pd.Prelude.Eff.{Eff}
use docker_plugin_gce_pd.Errors.{Error, Res}
use docker_plugin_gce_pd.Gce.Retry.{Runtime}
use docker_plugin_gce_pd.Gce.Retry.Outcome.{Quiet, Keeps, handled-Keeps, if-Keeps}
use docker_plugin_gce_pd.Mount.Paths.{device_path}
use docker_plugin_gce_pd.Mount.Commands.{
  Host, mkfs_args, after_done, after_deadline, after_stat, poll_device, wait_for_device,
  probe_fs_type, format, format_blank, after_probe, ensure_formatted,
}

module _ {W : Type 0} (rt : Runtime W) (host : Host W) (timeout : ℕ) (P : W → Type 0)
    (quiet : Quiet rt P) where
  module _ (again : Eff W (Res Bytes)) (next : Keeps P again) where
    after_done-Keeps : (o : Option Error) → Keeps P (after_done rt host timeout again o)
    unfolding after_done
    after_done-Keeps (some e) w p = p
    after_done-Keeps none w p = next (rt.sleep 500_000_000 w).1 (quiet.by_sleep 500_000_000 w p)

    after_deadline-Keeps :
        (dev : Bytes) (late : Bool) → Keeps P (after_deadline rt host timeout again dev late)
    unfolding after_deadline
    after_deadline-Keeps dev true w p = p
    after_deadline-Keeps dev false w p =
        after_done-Keeps (rt.done w).0 (rt.done w).1 (quiet.by_done w p)

    after_stat-Keeps :
        (deadline : ℕ) (dev : Bytes) (r : Res (Unit {0}))
        → Keeps P (after_stat rt host timeout again deadline dev r)
    unfolding after_stat
    after_stat-Keeps deadline dev (ok _) w p = p
    after_stat-Keeps deadline dev (err _) w p =
        after_deadline-Keeps dev (ltb deadline (rt.now w).0) (rt.now w).1 (quiet.by_now w p)

  poll_device-Keeps :
      (n deadline : ℕ) (dev : Bytes)
      → Keeps P (host.stat dev)
      → Keeps P (poll_device rt host timeout n deadline dev)
  unfolding poll_device
  poll_device-Keeps zero deadline dev stats w p = p
  poll_device-Keeps (suc n) deadline dev stats w p =
      after_stat-Keeps (poll_device rt host timeout n deadline dev)
        (poll_device-Keeps n deadline dev stats) deadline dev (host.stat dev w).0
        (host.stat dev w).1 (stats w p)

  -- WaitForDevice keeps what the runtime and the look for the device keep.
  pub wait_for_device-Keeps :
      (name : Bytes)
      → Keeps P (host.stat (device_path name))
      → Keeps P (wait_for_device rt host timeout name)
  unfolding wait_for_device
  wait_for_device-Keeps name stats w p =
      poll_device-Keeps rt.rounds ((rt.now w).0 + timeout) (device_path name) stats (rt.now w).1
        (quiet.by_now w p)

  -- The commands that EnsureFormatted runs: blkid, and mkfs for one of the two file systems.
  pub record FormatKeeps : Type 0 where
    pub probes : (args : List Bytes) → Keeps P (host.run (codes "blkid" ∷ args))
    pub makes_ext4 : (args : List Bytes) → Keeps P (host.run (codes "mkfs.ext4" ∷ args))
    pub makes_xfs : (args : List Bytes) → Keeps P (host.run (codes "mkfs.xfs" ∷ args))

  module _ (commands : FormatKeeps) where
    probe_fs_type-Keeps : (device : Bytes) → Keeps P (probe_fs_type rt host timeout device)
    unfolding probe_fs_type
    probe_fs_type-Keeps device w p =
        handled-Keeps P _ _ _ _ (commands.probes _ w p) (λ a v q. q) (λ e v q. q)

    mkfs-Keeps :
        (fs_type device : Bytes) (args : List Bytes)
        → mkfs_args fs_type device ≡ ok args
        → Keeps P (host.run args)
    unfolding mkfs_args
    mkfs-Keeps fs_type device args e = elim (Bool-cases (str_eq fs_type (codes "ext4"))) [
      | inl ext4 ↦
          let same : args ≡ codes "mkfs.ext4" ∷ codes "-F" ∷ device ∷ [] =
            ground (arith, e, ext4) in
          rw same (commands.makes_ext4 (codes "-F" ∷ device ∷ []))
      | inr other ↦ elim (Bool-cases (str_eq fs_type (codes "xfs"))) [
        | inl xfs ↦
            let same : args ≡ codes "mkfs.xfs" ∷ codes "-f" ∷ device ∷ [] =
              ground (arith, e, other, xfs) in
            rw same (commands.makes_xfs (codes "-f" ∷ device ∷ []))
        | inr none_of ↦ let no : ⊥ = ground (arith, e, other, none_of) in elim no [ ]
      ]
    ]

    format-Keeps : (device fs_type : Bytes) → Keeps P (format rt host timeout device fs_type)
    unfolding format
    format-Keeps device fs_type w p = go (mkfs_args fs_type device) refl
      where
        go :
            (r : Res (List Bytes))
            → mkfs_args fs_type device ≡ r
            → P (format rt host timeout device fs_type w).1
        go (err x) e = rw (format, e) p
        go (ok args) e =
            rw (format, e)
              (handled-Keeps P (host.run args w).0 _ _ (host.run args w).1
                (mkfs-Keeps fs_type device args e w p) (λ a v q. q) (λ x v q. q))

    format_blank-Keeps :
        (device fs_type : Bytes) → Keeps P (format_blank rt host timeout device fs_type)
    unfolding format_blank
    format_blank-Keeps device fs_type w p =
        handled-Keeps P _ _ _ _ (format-Keeps device fs_type w p) (λ a v q. q) (λ e v q. q)

    after_probe-Keeps :
        (device fs_type : Bytes) (r : Res Bytes)
        → Keeps P (after_probe rt host timeout device fs_type r)
    unfolding after_probe
    after_probe-Keeps device fs_type (err e) w p = p
    after_probe-Keeps device fs_type (ok existing) w p =
        if-Keeps P (not (str_eq existing [])) _ _ (λ v q. q) (format_blank-Keeps device fs_type) w p

    -- EnsureFormatted keeps what those commands keep.
    pub ensure_formatted-Keeps :
        (device fs_type : Bytes) → Keeps P (ensure_formatted rt host timeout device fs_type)
    unfolding ensure_formatted
    ensure_formatted-Keeps device fs_type w p =
        let r = probe_fs_type rt host timeout device w in
        after_probe-Keeps device fs_type r.0 r.1 (probe_fs_type-Keeps device w p)
