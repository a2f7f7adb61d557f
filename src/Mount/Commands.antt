-- ===== src/Mount/Commands.antt =====
-- mount.go: `Mounter` over what it runs on: the runner of commands and the file system, which are
-- the host's, and the clock.
use docker_plugin_gce_pd.Prelude.{ℕ, zero, suc, ◌+◌, Bool, true, false, List, [], ◌∷◌, ok, err}
use docker_plugin_gce_pd.Prelude.{ltb, ◌==◌, none, some, if◌then◌else◌}
use docker_plugin_gce_pd.Prelude.Bytes.{Bytes, codes, str_eq, trim_space}
use docker_plugin_gce_pd.Prelude.Eff.{Eff, ◌>>=◌, ◌>>◌, return}
use docker_plugin_gce_pd.Errors.{
  Error, Res, exit_error, wrapped, device_timeout, unsupported_filesystem, probing_device,
  formatting_device, creating_mountpoint, mounting, unmounting, reading_mounts, unfinished,
}
use docker_plugin_gce_pd.Gce.Retry.{Runtime}
use docker_plugin_gce_pd.Mount.Paths.{device_path}
use docker_plugin_gce_pd.Mount.Mounts.{mounted_in}
use docker_plugin_gce_pd.Prelude.{not, Option}

-- The interfaces runner and fileSystem.
pub record Host (W : Type 0) : Type 0 where
  pub run : List Bytes → Eff W (Res Bytes)
  pub stat : Bytes → Eff W (Res (Unit {0}))
  pub mkdir_all : Bytes → Eff W (Res (Unit {0}))
  pub read_mounts : Eff W (Res Bytes)

-- `exitCode(err) == 2`: only an *exitError that nothing wraps has a code.
unfoldable pub exited_with_2 : Error → Bool
exited_with_2 (exit_error code) = code == 2
exited_with_2 _ = false

-- mkfsArgs
unfoldable pub mkfs_args : Bytes → Bytes → Res (List Bytes)
mkfs_args fs_type device =
    if str_eq fs_type (codes "ext4")
    then ok (codes "mkfs.ext4" ∷ codes "-F" ∷ device ∷ [])
    else if str_eq fs_type (codes "xfs")
    then ok (codes "mkfs.xfs" ∷ codes "-f" ∷ device ∷ [])
    else err (unsupported_filesystem fs_type)

module _ {W : Type 0} (rt : Runtime W) (host : Host W) (device_timeout_ns : ℕ) where
  module _ (again : Eff W (Res Bytes)) where
    -- The end of a round of WaitForDevice, after the `select`; `again` is the next round.
    unfoldable pub after_done : Option Error → Eff W (Res Bytes)
    after_done (some e) = return (err e)
    after_done none = do rt.sleep 500_000_000; again

    -- After the test of the deadline.
    unfoldable pub after_deadline : Bytes → Bool → Eff W (Res Bytes)
    after_deadline dev true = return (err (device_timeout dev))
    after_deadline dev false = do stopped ← rt.done; after_done stopped

    -- After the call of `stat`.
    unfoldable pub after_stat : ℕ → Bytes → Res (Unit {0}) → Eff W (Res Bytes)
    after_stat deadline dev (ok _) = return (ok dev)
    after_stat deadline dev (err _) = do t ← rt.now; after_deadline dev (ltb deadline t)

  -- The loop of WaitForDevice, up to the deadline.
  unfoldable pub poll_device : ℕ → ℕ → Bytes → Eff W (Res Bytes)
  poll_device zero deadline dev = return (err unfinished)
  poll_device (suc n) deadline dev = do
    found ← host.stat dev
    after_stat (poll_device n deadline dev) deadline dev found

  unfoldable pub wait_for_device : Bytes → Eff W (Res Bytes)
  wait_for_device volume_name = do
    t ← rt.now
    poll_device rt.rounds (t + device_timeout_ns) (device_path volume_name)

  unfoldable pub probe_fs_type : Bytes → Eff W (Res Bytes)
  unfolding exited_with_2
  probe_fs_type device = do
    r ← host.run (
        codes "blkid"
        ∷ codes "-p"
        ∷ codes "-o"
        ∷ codes "value"
        ∷ codes "-s"
        ∷ codes "TYPE"
        ∷ device
        ∷ [])
    elim r [
      | ok out ↦ return (ok (trim_space out))
      | err e ↦ return (if exited_with_2 e then ok [] else err (wrapped (probing_device device) e))
    ]

  unfoldable pub format : Bytes → Bytes → Eff W (Res (Unit {0}))
  unfolding mkfs_args
  format device fs_type = elim (mkfs_args fs_type device) [
    | err e ↦ return (err e)
    | ok args ↦ do
      r ← host.run args
      elim r [ err e ↦ return (err (wrapped (formatting_device device) e)) | ok _ ↦ return (ok tt) ]
  ]

  -- EnsureFormatted on a blank device.
  unfoldable pub format_blank : Bytes → Bytes → Eff W (Res Bytes)
  unfolding format
  format_blank device fs_type = do
    r ← format device fs_type
    elim r [ err e ↦ return (err e) | ok _ ↦ return (ok fs_type) ]

  -- EnsureFormatted after ProbeFSType.
  unfoldable pub after_probe : Bytes → Bytes → Res Bytes → Eff W (Res Bytes)
  after_probe device fs_type (err e) = return (err e)
  after_probe device fs_type (ok existing) =
      if not (str_eq existing []) then return (ok existing) else format_blank device fs_type

  unfoldable pub ensure_formatted : Bytes → Bytes → Eff W (Res Bytes)
  ensure_formatted device fs_type = do
    existing ← probe_fs_type device
    after_probe device fs_type existing

  unfoldable pub is_mounted : Bytes → Eff W (Res Bool)
  unfolding mounted_in
  is_mounted target = do
    r ← host.read_mounts
    elim r [
      | err e ↦ return (err (wrapped reading_mounts e))
      | ok mounts ↦ return (ok (mounted_in target mounts))
    ]

  -- Mount on a target that is not mounted.
  unfoldable pub mount_new : Bytes → Bytes → Eff W (Res (Unit {0}))
  mount_new device target = do
    made ← host.mkdir_all target
    elim made [
      | err e ↦ return (err (wrapped (creating_mountpoint target) e))
      | ok _ ↦ do
        r ← host.run (codes "mount" ∷ device ∷ target ∷ [])
        elim r [ err e ↦ return (err (wrapped (mounting target) e)) | ok _ ↦ return (ok tt) ]
    ]

  unfoldable pub mount : Bytes → Bytes → Eff W (Res (Unit {0}))
  unfolding is_mounted mount_new
  mount device target = do
    r ← is_mounted target
    elim r [
      | err e ↦ return (err e)
      | ok mounted ↦ elim mounted [ true ↦ return (ok tt) | false ↦ mount_new device target ]
    ]

  -- Unmount of a target that is mounted.
  unfoldable pub unmount_mounted : Bytes → Eff W (Res (Unit {0}))
  unmount_mounted target = do
    r ← host.run (codes "umount" ∷ target ∷ [])
    elim r [ err e ↦ return (err (wrapped (unmounting target) e)) | ok _ ↦ return (ok tt) ]

  unfoldable pub unmount : Bytes → Eff W (Res (Unit {0}))
  unfolding is_mounted unmount_mounted
  unmount target = do
    r ← is_mounted target
    elim r [
      | err e ↦ return (err e)
      | ok mounted ↦ elim mounted [ false ↦ return (ok tt) | true ↦ unmount_mounted target ]
    ]
