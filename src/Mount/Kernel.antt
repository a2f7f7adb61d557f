-- ===== src/Mount/Kernel.antt =====
-- Mount and Unmount on a host with a mount table, which /proc/mounts shows.
pub mod Cycle
use docker_plugin_gce_pd.Prelude.{
  Bool-cases, inl, inr, ℕ, ◌≡◌, refl, ◌∙◌, sym, ap, true, false, List, [], ◌∷◌, ◌++◌, ok, err,
  arith,
}
use docker_plugin_gce_pd.Prelude.Bytes.{Bytes, codes, str_eq, str_eq_iff}
use docker_plugin_gce_pd.Errors.{Error, Res}
use docker_plugin_gce_pd.Gce.Retry.{Runtime}
use docker_plugin_gce_pd.Mount.Paths.{clean}
use docker_plugin_gce_pd.Mount.Table.{
  Entry, AreEntries, text_of, mounted_at, mounted_in-text_of, without_top, mounted_at-last,
  without_top-last,
}
use docker_plugin_gce_pd.Mount.Commands.{
  Host, is_mounted, mount_new, mount, unmount_mounted, unmount,
}

-- What Linux, mount(8) and umount(8) do: a mount stands last in the table, at the path given; an
-- unmount takes the one on top away; a command that fails, and the other calls, change nothing.
pub record Kernel {W : Type 0} (host : Host W) (table : W → List Entry) : Type 0 where
  pub entries : (w : W) → AreEntries (table w)
  pub reads : (text : Bytes) (w : W) → (host.read_mounts w).0 ≡ ok text → text ≡ text_of (table w)
  pub by_read : (w : W) → table (host.read_mounts w).1 ≡ table w
  pub by_mkdir : (path : Bytes) (w : W) → table (host.mkdir_all path w).1 ≡ table w
  pub mounts :
      (device target out : Bytes) (w : W)
      → (host.run (codes "mount" ∷ device ∷ target ∷ []) w).0 ≡ ok out
      → (e : Entry) × (clean e.target ≡ clean target)
        × (table (host.run (codes "mount" ∷ device ∷ target ∷ []) w).1 ≡ table w ++ (e ∷ []))
  pub mount_fails :
      (device target : Bytes) (x : Error) (w : W)
      → (host.run (codes "mount" ∷ device ∷ target ∷ []) w).0 ≡ err x
      → table (host.run (codes "mount" ∷ device ∷ target ∷ []) w).1 ≡ table w
  pub unmounts :
      (target out : Bytes) (w : W)
      → (host.run (codes "umount" ∷ target ∷ []) w).0 ≡ ok out
      → table (host.run (codes "umount" ∷ target ∷ []) w).1 ≡ without_top target (table w)
  pub unmount_fails :
      (target : Bytes) (x : Error) (w : W)
      → (host.run (codes "umount" ∷ target ∷ []) w).0 ≡ err x
      → table (host.run (codes "umount" ∷ target ∷ []) w).1 ≡ table w

module _ {W : Type 0} (rt : Runtime W) (host : Host W) (timeout : ℕ) (table : W → List Entry)
    (kernel : Kernel host table) where
  -- Where /proc/mounts can be read, IsMounted says what the table has.
  pub is_mounted_lem :
      (target text : Bytes) (w : W)
      → (host.read_mounts w).0 ≡ ok text
      → is_mounted rt host timeout target w
        ≡ (ok (mounted_at target (table w)), (host.read_mounts w).1)
  unfolding is_mounted
  is_mounted_lem target text w read =
      ground
        (arith, kernel.reads text w read, mounted_in-text_of target (table w) (kernel.entries w))

  pub mounted_lem :
      (device target text : Bytes) (w : W)
      → (host.read_mounts w).0 ≡ ok text
      → mounted_at target (table w) ≡ true
      → mount rt host timeout device target w ≡ (ok tt, (host.read_mounts w).1)
  unfolding mount
  mounted_lem device target text w read at = ground (arith, is_mounted_lem target text w read, at)

  pub unmounted_lem :
      (device target text : Bytes) (w : W)
      → (host.read_mounts w).0 ≡ ok text
      → mounted_at target (table w) ≡ false
      → mount rt host timeout device target w
        ≡ mount_new rt host timeout device target (host.read_mounts w).1
  unfolding mount
  unmounted_lem device target text w read free =
      ground (arith, is_mounted_lem target text w read, free)

  pub mount_reads :
      (device target : Bytes) (w : W)
      → (mount rt host timeout device target w).0 ≡ ok tt
      → (text : Bytes) × ((host.read_mounts w).0 ≡ ok text)
  unfolding mount is_mounted
  mount_reads device target w h = go (host.read_mounts w).0 refl
    where
      go :
          (r : Res Bytes)
          → (host.read_mounts w).0 ≡ r
          → (text : Bytes) × ((host.read_mounts w).0 ≡ ok text)
      go (ok text) e = (text, e)
      go (err x) e = let no : ⊥ = ground (arith, e, h) in elim no [ ]

  pub unmount_reads :
      (target : Bytes) (w : W)
      → (unmount rt host timeout target w).0 ≡ ok tt
      → (text : Bytes) × ((host.read_mounts w).0 ≡ ok text)
  unfolding unmount is_mounted
  unmount_reads target w h = go (host.read_mounts w).0 refl
    where
      go :
          (r : Res Bytes)
          → (host.read_mounts w).0 ≡ r
          → (text : Bytes) × ((host.read_mounts w).0 ≡ ok text)
      go (ok text) e = (text, e)
      go (err x) e = let no : ⊥ = ground (arith, e, h) in elim no [ ]

  mount_new_ok :
      (device target : Bytes) (w : W)
      → (mount_new rt host timeout device target w).0 ≡ ok tt
      → let call = host.run (codes "mount" ∷ device ∷ target ∷ []) (host.mkdir_all target w).1 in
        (out : Bytes) × (call.0 ≡ ok out) × ((mount_new rt host timeout device target w).1 ≡ call.1)
  unfolding mount_new
  mount_new_ok device target w h =
      go (host.run (codes "mount" ∷ device ∷ target ∷ []) (host.mkdir_all target w).1).0 refl
    where
      go :
          (r : Res Bytes)
          → (host.run (codes "mount" ∷ device ∷ target ∷ []) (host.mkdir_all target w).1).0 ≡ r
          → (out : Bytes) × ((host.run
                (codes "mount" ∷ device ∷ target ∷ [])
                (host.mkdir_all target w).1).0
              ≡ ok out)
            × ((mount_new rt host timeout device target w).1
                ≡ (host.run (codes "mount" ∷ device ∷ target ∷ []) (host.mkdir_all target w).1).1)
      go (ok out) e = (out, e, ground (arith, e, h))
      go (err x) e = let no : ⊥ = ground (arith, e, h) in elim no [ ]

  -- A mount that is made anew stands last in the table.
  pub mount_new-Last :
      (device target : Bytes) (w : W)
      → (mount_new rt host timeout device target w).0 ≡ ok tt
      → (e : Entry) × (clean e.target ≡ clean target)
        × (table (mount_new rt host timeout device target w).1 ≡ table w ++ (e ∷ []))
  unfolding mount_new
  mount_new-Last device target w h =
      let (out, ran, left) = mount_new_ok device target w h in
      let (e, at, last) = kernel.mounts device target out (host.mkdir_all target w).1 ran in
      (e, at, ap table left ∙ last ∙ ap (λ t. t ++ (e ∷ [])) (kernel.by_mkdir target w))

  pub unmount_mounted-Off :
      (target : Bytes) (w : W)
      → (unmount_mounted rt host timeout target w).0 ≡ ok tt
      → table (unmount_mounted rt host timeout target w).1 ≡ without_top target (table w)
  unfolding unmount_mounted
  unmount_mounted-Off target w h = go (host.run (codes "umount" ∷ target ∷ []) w).0 refl
    where
      go :
          (r : Res Bytes)
          → (host.run (codes "umount" ∷ target ∷ []) w).0 ≡ r
          → table (unmount_mounted rt host timeout target w).1 ≡ without_top target (table w)
      go (ok out) e = ground (arith, e, kernel.unmounts target out w e)
      go (err x) e = let no : ⊥ = ground (arith, e, h) in elim no [ ]
