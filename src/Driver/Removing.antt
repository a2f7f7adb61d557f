-- ===== src/Driver/Removing.antt =====
-- Remove: what it refuses, what it keeps, and what it hands to the background.
use docker_plugin_gce_pd.Prelude.{◌≡◌, Bool, true, false, not, ◌&&◌, none, some, List}
use docker_plugin_gce_pd.Prelude.{[], ◌∷◌, ◌++◌, err, is_ok, arith, if◌then◌else◌}
use mathlib.Core.List.{append-nil}
use docker_plugin_gce_pd.Prelude.{◌⊎◌, inl, inr, Bool-cases}
use docker_plugin_gce_pd.Prelude.Bytes.{Bytes, str_eq, str_eq_refl}
use docker_plugin_gce_pd.Prelude.Map.{lookup, lookup-erase}
use docker_plugin_gce_pd.Errors.{in_use}
use docker_plugin_gce_pd.State.Volume.{Volume, is_positive}
use docker_plugin_gce_pd.State.Store
use docker_plugin_gce_pd.State.Store.{Store}
use docker_plugin_gce_pd.Gce.Options.{reclaim_retain}
use docker_plugin_gce_pd.Driver.Interface.{GceClient, Mounter, Driver, Task}
use docker_plugin_gce_pd.Driver.Lifecycle.{remove, delete_in_background}

module _ {W : Type 0} (g : GceClient W) (m : Mounter W) where
  -- The delete that Remove is to start for a volume, if it is to start one.
  abbrev pub deletion : Volume → Bytes → Bool → List Task
  deletion v name removed =
      if removed && not (str_eq v.options.reclaim_policy reclaim_retain)
      then record { name = name; snapshot_first = v.options.snapshot_on_remove } ∷ []
      else []

  forgets :
      (name : Bytes) (s : Store) (v : Volume)
      → lookup name s.vols ≡ some v
      → lookup name (Store.remove name s).1.vols ≡ none
  unfolding Store.remove
  forgets name s v found =
      rw (found, Store.remove) (rw lookup-erase (ground (arith, str_eq_refl name)))

  in_use_lem :
      (name : Bytes) (d : Driver W) (v : Volume)
      → lookup name d.store.vols ≡ some v
      → is_positive v.ref_count ≡ true
      → remove g m name d ≡ (err (in_use name v.ref_count), d)
  unfolding remove Store.get
  in_use_lem name d v found used = ground arith

  free_lem :
      (name : Bytes) (d : Driver W) (v : Volume)
      → lookup name d.store.vols ≡ some v
      → is_positive v.ref_count ≡ false
      → let r = remove g m name d in
        (r.1.store ≡ (Store.remove name d.store).1)
        × (r.1.world ≡ d.world)
        × (is_ok r.0 ≡ is_ok (Store.remove name d.store).0)
        × (r.1.background ≡ d.background ++ deletion v name (is_ok r.0))
  unfolding remove delete_in_background Store.get
  free_lem name d v found free = ground (arith, append-nil d.background)

  -- What Remove does with a volume that the state has: it refuses one in use and changes nothing.
  -- Of another it forgets the record, in memory even if the write fails, calls neither GCE nor the
  -- host, and starts a background delete of the disk, with a snapshot if the volume asks for one,
  -- exactly if the write succeeds and the policy is not to retain the disk.
  pub remove_lem :
      (name : Bytes) (d : Driver W) (v : Volume)
      → lookup name d.store.vols ≡ some v
      → let r = remove g m name d in
        ((is_positive v.ref_count ≡ true) × (r ≡ (err (in_use name v.ref_count), d)))
        ⊎ ((is_positive v.ref_count ≡ false)
            × (lookup name r.1.store.vols ≡ none)
            × (r.1.world ≡ d.world)
            × (is_ok r.0 ≡ is_ok (Store.remove name d.store).0)
            × (r.1.background ≡ d.background ++ deletion v name (is_ok r.0)))
  remove_lem name d v found = elim (Bool-cases (is_positive v.ref_count)) [
    | inl used ↦ inl (used, in_use_lem name d v found used)
    | inr free ↦
        let (store, world, same, background) = free_lem name d v found free in
        inr (free, rw store (forgets name d.store v found), world, same, background)
  ]
