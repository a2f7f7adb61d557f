-- ===== src/Driver/Invariant.antt =====
-- The invariant of the records that the driver keeps, over any sequence of its steps.
use docker_plugin_gce_pd.Prelude.{ℕ, suc, ◌≤◌, ◌<◌, ◌^◌, ◌≡◌, refl, ◌⊎◌, inl, inr, []}
use docker_plugin_gce_pd.Prelude.{arith}
use docker_plugin_gce_pd.Prelude.Bytes.{Bytes}
use docker_plugin_gce_pd.Prelude.Map.{Map}
use docker_plugin_gce_pd.State.Volume.{Volume, created, mounted, hold, release, reset, restore}
use docker_plugin_gce_pd.State.Store
use docker_plugin_gce_pd.State.Store.{Store, imported_volume}
use docker_plugin_gce_pd.State.Keeps.{Holds, EachOf-weaken, add-Holds, remove-Holds, update-Holds}
use docker_plugin_gce_pd.State.Sorted.{Named}
use mathlib.Core.Path.{subst, sym}
use docker_plugin_gce_pd.Mount.Paths.{mountpoint_for}
use docker_plugin_gce_pd.Driver.Interface.{GceClient, Mounter, Driver}
use docker_plugin_gce_pd.Driver.Lifecycle.{
  new_record, create, remove, mount, unmount, run_background,
}
use docker_plugin_gce_pd.Driver.Stores.{create-store, remove-store, mount-store, unmount-store}

-- Status and mount point agree with the count: nothing is mounted at zero, and above zero the
-- volume is mounted at its target.
abbrev pub Agrees : Bytes → Volume → Type 0
Agrees k v =
    ((v.ref_count ≡ 0) × (v.status ≡ created) × (v.mountpoint ≡ []))
    ⊎ ((0 < v.ref_count) × (v.status ≡ mounted) × (v.mountpoint ≡ mountpoint_for k))

-- A record under its own name, with a count up to a bound.
pub record Fits (bound : ℕ) (k : Bytes) (v : Volume) : Type 0 where
  pub named : v.name ≡ k
  pub bounded : v.ref_count ≤ bound
  pub agrees : Agrees k v

Fits-weaken : (n : ℕ) (k : Bytes) (v : Volume) → Fits n k v → Fits (suc n) k v
Fits-weaken n k v f = ground arith

hold-Fits :
    (n : ℕ) (k : Bytes) (v : Volume)
    → suc n < 2 ^ 63
    → Fits n k v
    → Fits (suc n) k (hold (mountpoint_for k) v)
unfolding hold
hold-Fits n k v lt f = ground arith

release-Fits : (n : ℕ) (k : Bytes) (v : Volume) → n < 2 ^ 63 → Fits n k v → Fits n k (release v)
unfolding release
release-Fits n k v lt f = ground arith

pub reset-Fits : (n : ℕ) (k : Bytes) (v : Volume) → Named k v → Fits n k (reset v)
unfolding reset
reset-Fits n k v f = ground arith

pub restore-Fits :
    (n : ℕ) (k : Bytes) (v : Volume) → 0 < n → Fits n k v → Fits n k (restore (mountpoint_for k) v)
unfolding restore
restore-Fits n k v lt f = ground arith

-- Every record of the store fits, under one key each.
abbrev pub IsSound : {W : Type 0} → ℕ → Driver W → Type 0
IsSound n d = Holds (Fits n) d.store

pub either : (P : Store → Type 0) {s a b : Store} → (s ≡ a) ⊎ (s ≡ b) → P a → P b → P s
either P (inl e) pa pb = subst P (sym e) pa
either P (inr e) pa pb = subst P (sym e) pb

module _ {W : Type 0} (g : GceClient W) (m : Mounter W) where
  create-IsSound :
      (n : ℕ) (now name : Bytes) (raw : Map Bytes) (d : Driver W)
      → IsSound n d
      → IsSound n (create g m now name raw d).1
  create-IsSound n now name raw d h = elim (create-store g m now name raw d) [
    | inl e ↦ subst (Holds (Fits n)) (sym e) h
    | inr (opts, parsed, e) ↦ subst (Holds (Fits n)) (sym e) (
        add-Holds (Fits n) (new_record now name opts) d.store
          (unfold new_record in
            record { named = refl; bounded = omega arith; agrees = inl (refl, refl, refl) })
          h)
  ]

  remove-IsSound :
      (n : ℕ) (name : Bytes) (d : Driver W) → IsSound n d → IsSound n (remove g m name d).1
  remove-IsSound n name d h =
      either (Holds (Fits n)) (remove-store g m name d) h (remove-Holds (Fits n) name d.store h)

  pub weaken-IsSound : (n : ℕ) (d : Driver W) → IsSound n d → IsSound (suc n) d
  weaken-IsSound n d (u, f) =
      (u, EachOf-weaken (Fits n) (Fits (suc n)) (Fits-weaken n) d.store.vols f)

  mount-IsSound :
      (n : ℕ) (name : Bytes) (d : Driver W)
      → suc n < 2 ^ 63
      → IsSound n d
      → IsSound (suc n) (mount g m name d).1
  mount-IsSound n name d lt h =
      either (Holds (Fits (suc n))) (mount-store g m name d) (weaken-IsSound n d h) (
        unfold Store.inc_ref in
        update-Holds (Fits n) (Fits (suc n)) (Fits-weaken n) name (hold (mountpoint_for name))
          d.store (λ v. hold-Fits n name v lt) h)

  unmount-IsSound :
      (n : ℕ) (name : Bytes) (d : Driver W)
      → n < 2 ^ 63
      → IsSound n d
      → IsSound n (unmount g m name d).1
  unmount-IsSound n name d lt h = either (Holds (Fits n)) (unmount-store g m name d) h (
      unfold Store.dec_ref in
      update-Holds (Fits n) (Fits n) (λ k v f. f) name release d.store
        (λ v. release-Fits n name v lt) h)

  pub run_background-store : (i : ℕ) (d : Driver W) → (run_background g m i d).store ≡ d.store
  unfolding run_background
  run_background-store i d = ground arith

  -- One request that the plugin serves, or one background delete.
  pub data Step : Driver W → Driver W → Type 0 where
    creates :
        (now name : Bytes) (raw : Map Bytes) (d : Driver W) → Step d (create g m now name raw d).1
    removes : (name : Bytes) (d : Driver W) → Step d (remove g m name d).1
    mounts : (name : Bytes) (d : Driver W) → Step d (mount g m name d).1
    unmounts : (name : Bytes) (d : Driver W) → Step d (unmount g m name d).1
    deletes : (i : ℕ) (d : Driver W) → Step d (run_background g m i d)

  -- So many steps lead from one state to another.
  pub data Reach (d : Driver W) : ℕ → Driver W → Type 0 where
    here : Reach d 0 d
    next : {n : ℕ} {d' d'' : Driver W} → Reach d n d' → Step d' d'' → Reach d (suc n) d''

  pub Step-IsSound :
      (n : ℕ) {d d' : Driver W} → suc n < 2 ^ 63 → Step d d' → IsSound n d → IsSound (suc n) d'
  Step-IsSound n lt (creates now name raw d) h =
      weaken-IsSound n (create g m now name raw d).1 (create-IsSound n now name raw d h)
  Step-IsSound n lt (removes name d) h =
      weaken-IsSound n (remove g m name d).1 (remove-IsSound n name d h)
  Step-IsSound n lt (mounts name d) h = mount-IsSound n name d lt h
  Step-IsSound n lt (unmounts name d) h =
      weaken-IsSound n (unmount g m name d).1 (unmount-IsSound n name d (omega arith) h)
  Step-IsSound n lt (deletes i d) h =
      weaken-IsSound n (run_background g m i d)
        (subst (Holds (Fits n)) (sym (run_background-store i d)) h)

  -- From records that stand under their names, once, with counts of 0 or 1 that their status and
  -- mount point agree with: along any fewer than 2^63 - 1 requests and background deletes,
  -- whatever GCE and the host answer and whichever writes of the state fail, they keep standing
  -- so, with a count at most one more than the number of steps.
  pub Reach-IsSound :
      {d : Driver W} (n : ℕ) {d' : Driver W}
      → suc n < 2 ^ 63
      → Reach d n d'
      → IsSound 1 d
      → IsSound (suc n) d'
  Reach-IsSound n lt here h = h
  Reach-IsSound n lt (next {n = k} r st) h =
      Step-IsSound (suc k) (omega arith) st (Reach-IsSound k (omega arith) r h)
