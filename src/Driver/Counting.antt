-- ===== src/Driver/Counting.antt =====
-- Mount and Unmount count the users of a volume, and only the first and the last of them reach
-- GCE and the host.
use docker_plugin_gce_pd.Prelude.{ℕ, zero, suc, ◌+◌, ◌<◌, ◌^◌, ◌≡◌, refl, ◌∙◌}
use docker_plugin_gce_pd.Prelude.{some, arith, ap}
use mathlib.Core.Path.{subst}
use native.Mathlib.Nat.{add-zero}
use docker_plugin_gce_pd.Prelude.Bytes.{Bytes}
use docker_plugin_gce_pd.Prelude.Map.{lookup}
use docker_plugin_gce_pd.State.Volume.{Volume, hold, release, is_positive}
use docker_plugin_gce_pd.State.Store
use docker_plugin_gce_pd.State.Store.{Store, captured}
use docker_plugin_gce_pd.State.Updates.{lookup-update}
use docker_plugin_gce_pd.Mount.Paths.{mountpoint_for}
use docker_plugin_gce_pd.Driver.Interface.{GceClient, Mounter, Driver}
use docker_plugin_gce_pd.Driver.Lifecycle.{mount, unmount, inc_ref, dec_ref}

-- The store has the volume, with this count.
abbrev pub HeldBy : ℕ → Bytes → Store → Type 0
HeldBy c name s = (v : Volume) × (lookup name s.vols ≡ some v) × (v.ref_count ≡ c)

pub inc_ref-HeldBy :
    (c : ℕ) (name target : Bytes) (s : Store)
    → suc c < 2 ^ 63
    → HeldBy c name s
    → HeldBy (suc c) name (Store.inc_ref name target s).2
unfolding Store.inc_ref hold
inc_ref-HeldBy c name target s lt (v, found, count) =
    (hold target v, lookup-update name (hold target) s v found, omega arith)

pub dec_ref-HeldBy :
    (c : ℕ) (name : Bytes) (s : Store)
    → suc c < 2 ^ 63
    → HeldBy (suc c) name s
    → HeldBy c name (Store.dec_ref name s).2
unfolding Store.dec_ref release
dec_ref-HeldBy c name s lt (v, found, count) =
    (release v, lookup-update name release s v found, ground arith)

-- The count that DecRef returns is that of the volume that it leaves.
pub dec_ref_count :
    (c : ℕ) (name : Bytes) (s : Store)
    → HeldBy c name (Store.dec_ref name s).2
    → (Store.dec_ref name s).0 ≡ c
unfolding Store.dec_ref
dec_ref_count c name s (v, found, count) = ap captured found ∙ count

module _ {W : Type 0} (g : GceClient W) (m : Mounter W) where
  -- Mount of a volume in use counts it, and calls neither GCE nor the host.
  pub mount_shared :
      (c : ℕ) (name : Bytes) (d : Driver W)
      → suc c < 2 ^ 63
      → HeldBy (suc c) name d.store
      → ((mount g m name d).1.store ≡ (Store.inc_ref name (mountpoint_for name) d.store).2)
        × ((mount g m name d).1.world ≡ d.world)
  unfolding mount inc_ref is_positive Store.get
  mount_shared c name d lt (v, found, count) = ground arith

  mount_shared-HeldBy :
      (c : ℕ) (name : Bytes) (d : Driver W)
      → suc (suc c) < 2 ^ 63
      → HeldBy (suc c) name d.store
      → HeldBy (suc (suc c)) name (mount g m name d).1.store
  mount_shared-HeldBy c name d lt h =
      rw (mount_shared c name d (omega arith) h).0
        (inc_ref-HeldBy (suc c) name (mountpoint_for name) d.store lt h)

  -- Unmount with other users left counts them, and calls neither GCE nor the host.
  unmount_counted :
      (c n : ℕ) (name : Bytes) (d : Driver W)
      → HeldBy (suc c) name d.store
      → (Store.dec_ref name d.store).0 ≡ suc n
      → suc n < 2 ^ 63
      → ((unmount g m name d).1.store ≡ (Store.dec_ref name d.store).2)
        × ((unmount g m name d).1.world ≡ d.world)
  unfolding unmount dec_ref is_positive Store.get
  unmount_counted c n name d (v, found, count) left lt = ground arith

  unmount_shared :
      (c : ℕ) (name : Bytes) (d : Driver W)
      → suc (suc c) < 2 ^ 63
      → HeldBy (suc (suc c)) name d.store
      → ((unmount g m name d).1.store ≡ (Store.dec_ref name d.store).2)
        × ((unmount g m name d).1.world ≡ d.world)
  unmount_shared c name d lt h =
      unmount_counted (suc c) c name d h
        (dec_ref_count (suc c) name d.store (dec_ref-HeldBy (suc c) name d.store lt h))
        (omega arith)

  -- So many calls of Mount, and of Unmount, for one volume.
  pub mount_times : ℕ → Bytes → Driver W → Driver W
  mount_times zero name d = d
  mount_times (suc k) name d = mount_times k name (mount g m name d).1

  pub unmount_times : ℕ → Bytes → Driver W → Driver W
  unmount_times zero name d = d
  unmount_times (suc k) name d = unmount_times k name (unmount g m name d).1

  mount_times_lem :
      (k c : ℕ) (name : Bytes) (d : Driver W)
      → suc c + k < 2 ^ 63
      → HeldBy (suc c) name d.store
      → HeldBy (suc c + k) name (mount_times k name d).store
        × ((mount_times k name d).world ≡ d.world)
  unfolding mount_times
  mount_times_lem zero c name d lt h = (rw add-zero h, refl)
  mount_times_lem (suc k) c name d lt h =
      let (held, same) =
        mount_times_lem k (suc c) name (mount g m name d).1 (omega arith)
          (mount_shared-HeldBy c name d (omega arith) h) in
      (
        subst (λ (n : ℕ). HeldBy n name (mount_times k name (mount g m name d).1).store)
            (omega arith) held,
        same ∙ (mount_shared c name d (omega arith) h).1,
      )

  unmount_times_lem :
      (k c : ℕ) (name : Bytes) (d : Driver W)
      → suc c + k < 2 ^ 63
      → HeldBy (suc c + k) name d.store
      → HeldBy (suc c) name (unmount_times k name d).store
        × ((unmount_times k name d).world ≡ d.world)
  unfolding unmount_times
  unmount_times_lem zero c name d lt h = (rw add-zero at h, refl)
  unmount_times_lem (suc k) c name d lt h =
      let before : HeldBy (suc (suc (c + k))) name d.store =
        subst (λ (n : ℕ). HeldBy n name d.store) (omega arith) h in
      let (store, world) = unmount_shared (c + k) name d (omega arith) before in
      let after : HeldBy (suc c + k) name (unmount g m name d).1.store = rw store (
        subst (λ (n : ℕ). HeldBy n name (Store.dec_ref name d.store).2) (omega arith)
          (dec_ref-HeldBy (suc (c + k)) name d.store (omega arith) before)) in
      let (held, same) = unmount_times_lem k c name (unmount g m name d).1 (omega arith) after in
      (held, same ∙ world)

  -- On a volume with a count above zero, any number of further mounts and then as many unmounts
  -- call neither GCE nor the host, whichever writes of the state fail, and leave the count as it
  -- was. The count stays below 2^63.
  pub mount_unmount_nested :
      (k c : ℕ) (name : Bytes) (d : Driver W)
      → suc c + k < 2 ^ 63
      → HeldBy (suc c) name d.store
      → HeldBy (suc c) name (unmount_times k name (mount_times k name d)).store
        × ((unmount_times k name (mount_times k name d)).world ≡ d.world)
  mount_unmount_nested k c name d lt h =
      let (held, same) = mount_times_lem k c name d lt h in
      let (held', same') = unmount_times_lem k c name (mount_times k name d) lt held in
      (held', same' ∙ same)
