-- ===== src/Mount/Kernel/Cycle.antt =====
-- A mount that succeeds, and the unmount after it, on a host with a mount table.
use docker_plugin_gce_pd.Prelude.{
  Bool-cases, inl, inr, ℕ, ◌≡◌, ◌∙◌, sym, ap, true, false, List, [], ◌∷◌, ◌++◌, ok, arith,
}
use docker_plugin_gce_pd.Prelude.Bytes.{Bytes, str_eq, str_eq_iff}
use docker_plugin_gce_pd.Gce.Retry.{Runtime}
use docker_plugin_gce_pd.Mount.Paths.{clean}
use docker_plugin_gce_pd.Mount.Table.{
  Entry, mounted_at, without_top, mounted_at-last, without_top-last,
}
use docker_plugin_gce_pd.Mount.Commands.{Host, mount, unmount_mounted, unmount}
use docker_plugin_gce_pd.Mount.Kernel.{
  Kernel, mounted_lem, unmounted_lem, mount_reads, unmount_reads, mount_new-Last,
  unmount_mounted-Off, is_mounted_lem,
}

module _ {W : Type 0} (rt : Runtime W) (host : Host W) (timeout : ℕ) (table : W → List Entry)
    (kernel : Kernel host table) where
  -- Where the mount point is free and Mount succeeds: a mount stands last in the mount table,
  -- at the mount point.
  mounts-Last :
      (device target : Bytes) (w : W)
      → mounted_at target (table w) ≡ false
      → (mount rt host timeout device target w).0 ≡ ok tt
      → (e : Entry) × (clean e.target ≡ clean target)
        × (table (mount rt host timeout device target w).1 ≡ table w ++ (e ∷ []))
  mounts-Last device target w free h =
      let (text, read) = mount_reads rt host timeout table kernel device target w h in
      let anew = unmounted_lem rt host timeout table kernel device target text w read free in
      let w1 = (host.read_mounts w).1 in
      let (e, at, last) =
        mount_new-Last rt host timeout table kernel device target w1
          (ap (λ r. r.0) (sym anew) ∙ h) in
      (e, at, ap (λ r. table r.1) anew ∙ last ∙ ap (λ t. t ++ (e ∷ [])) (kernel.by_read w))

  unmounts_lem :
      (target text : Bytes) (w : W)
      → (host.read_mounts w).0 ≡ ok text
      → mounted_at target (table w) ≡ true
      → unmount rt host timeout target w
        ≡ unmount_mounted rt host timeout target (host.read_mounts w).1
  unfolding unmount
  unmounts_lem target text w read at =
      ground (arith, is_mounted_lem rt host timeout table kernel target text w read, at)

  unmounts-Off :
      (target : Bytes) (w : W)
      → mounted_at target (table w) ≡ true
      → (unmount rt host timeout target w).0 ≡ ok tt
      → table (unmount rt host timeout target w).1 ≡ without_top target (table w)
  unmounts-Off target w at h =
      let (text, read) = unmount_reads rt host timeout table kernel target w h in
      let same = unmounts_lem target text w read at in
      ap (λ r. table r.1) same
      ∙ unmount_mounted-Off rt host timeout table kernel target (host.read_mounts w).1
          (ap (λ r. r.0) (sym same) ∙ h)
      ∙ ap (without_top target) (kernel.by_read w)

  last-Up :
      (target : Bytes) (w w' : W) (e : Entry)
      → clean e.target ≡ clean target
      → table w' ≡ table w ++ (e ∷ [])
      → mounted_at target (table w') ≡ true
  last-Up target w w' e at last =
      let same : str_eq (clean e.target) (clean target) ≡ true =
        (str_eq_iff (clean e.target) (clean target)).1 at in
      rw last (ground (arith, mounted_at-last target (table w) e))

  -- A Mount that succeeds at a mount point that is free puts a mount last in the mount table,
  -- at the mount point; an Unmount right after it that succeeds leaves the table as it was.
  pub mount_unmount :
      (device target : Bytes) (w : W)
      → mounted_at target (table w) ≡ false
      → (mount rt host timeout device target w).0 ≡ ok tt
      → (unmount rt host timeout target (mount rt host timeout device target w).1).0 ≡ ok tt
      → let w' = (mount rt host timeout device target w).1 in
        ((e : Entry) × (clean e.target ≡ clean target) × (table w' ≡ table w ++ (e ∷ [])))
        × (table (unmount rt host timeout target w').1 ≡ table w)
  mount_unmount device target w free up down =
      let (e, at, last) = mounts-Last device target w free up in
      let same : str_eq (clean e.target) (clean target) ≡ true =
        (str_eq_iff (clean e.target) (clean target)).1 at in
      let w' = (mount rt host timeout device target w).1 in
      let is_up = last-Up target w w' e at last in
      (
        (e, at, last),
        unmounts-Off target w' is_up down
            ∙ ap (without_top target) last
            ∙ without_top-last target (table w) e free same,
      )

  mount-Up :
      (device target : Bytes) (w : W)
      → (mount rt host timeout device target w).0 ≡ ok tt
      → mounted_at target (table (mount rt host timeout device target w).1) ≡ true
  mount-Up device target w h = elim (Bool-cases (mounted_at target (table w))) [
    | inl at ↦
        let (text, read) = mount_reads rt host timeout table kernel device target w h in
        rw (mounted_lem rt host timeout table kernel device target text w read at, kernel.by_read w)
          at
    | inr free ↦
        let (e, at, last) = mounts-Last device target w free h in last-Up target w _ e at last
  ]

  -- A Mount that has succeeded and is repeated succeeds, where /proc/mounts can be read, and does
  -- nothing but to read it.
  pub mount_again :
      (device target text : Bytes) (w : W)
      → (mount rt host timeout device target w).0 ≡ ok tt
      → (host.read_mounts (mount rt host timeout device target w).1).0 ≡ ok text
      → let w' = (mount rt host timeout device target w).1 in
        mount rt host timeout device target w' ≡ (ok tt, (host.read_mounts w').1)
  mount_again device target text w h read =
      mounted_lem rt host timeout table kernel device target text
        (mount rt host timeout device target w).1 read (mount-Up device target w h)
