-- ===== src/Driver/Counts/Refinement.antt =====
-- The steps of the driver as changes of the view of its users.
use mathlib.Core.Path.{subst}
use docker_plugin_gce_pd.Prelude.{
  ℕ, suc, ◌<◌, ◌≤◌, ◌^◌, ◌≡◌, refl, sym, ap, ◌∙◌, ◌⊎◌, inl, inr, false, Option, none, some, arith,
}
use docker_plugin_gce_pd.Prelude.Bytes.{Bytes}
use docker_plugin_gce_pd.Prelude.Map.{Map, lookup, lookup-EachOf}
use docker_plugin_gce_pd.State.Volume.{Volume, is_positive}
use docker_plugin_gce_pd.Errors.{Res}
use docker_plugin_gce_pd.State.Store
use docker_plugin_gce_pd.State.Store.{Store}
use docker_plugin_gce_pd.Driver.Interface.{GceClient, Mounter, Driver}
use docker_plugin_gce_pd.Driver.Lifecycle.{
  new_record, create, remove, mount, unmount, run_background,
}
use docker_plugin_gce_pd.Driver.Stores.{create-store, remove-store, mount-store, unmount-store}
use docker_plugin_gce_pd.Driver.Removing.{remove_lem}
use docker_plugin_gce_pd.Driver.Invariant.{
  Fits, IsSound, Step, creates, removes, mounts, unmounts, deletes, Reach, here, next,
  Reach-IsSound, run_background-store,
}
use docker_plugin_gce_pd.Mount.Paths.{mountpoint_for}
use docker_plugin_gce_pd.Driver.Counts.{
  Counts, Change, stays, goes, count_of, counts_of, counts, add-Change, hold-Change, release-Change,
  counts_of-remove,
}

-- A run of so many changes.
pub data Changes (f : Counts) : ℕ → Counts → Type 0 where
  none_yet : Changes f 0 f
  then' : {n : ℕ} {f' f'' : Counts} → Changes f n f' → Change f' f'' → Changes f (suc n) f''

module _ {W : Type 0} (g : GceClient W) (m : Mounter W) where
  pub same-Change : (d d' : Driver W) → d'.store ≡ d.store → Change (counts d) (counts d')
  same-Change d d' e = stays (ap counts_of e)

  -- A change of the store, for a driver whose store is the changed one.
  moved-Change :
      (d d' : Driver W) (s : Store)
      → d'.store ≡ s
      → Change (counts d) (counts_of s)
      → Change (counts d) (counts d')
  moved-Change d d' s e = subst (λ t. Change (counts d) (counts_of t)) (sym e)

  bound_of :
      (n : ℕ) (name : Bytes) (d : Driver W)
      → IsSound n d
      → (v : Volume) → lookup name d.store.vols ≡ some v
      → v.ref_count ≤ n
  bound_of n name d (u, f) v e =
      let fits : Fits n name v = lookup-EachOf (Fits n) name v d.store.vols f e in fits.bounded

  create-Change :
      (now name : Bytes) (raw : Map Bytes) (d : Driver W)
      → Change (counts d) (counts (create g m now name raw d).1)
  create-Change now name raw d = elim (create-store g m now name raw d) [
    | inl e ↦ same-Change d (create g m now name raw d).1 e
    | inr (opts, parsed, e) ↦
        moved-Change d (create g m now name raw d).1
          (Store.add (new_record now name opts) d.store).1 e
          (add-Change (new_record now name opts) d.store (unfold new_record in refl))
  ]

  remove_absent :
      (name : Bytes) (d : Driver W)
      → lookup name d.store.vols ≡ none
      → (remove g m name d).1.store ≡ d.store
  unfolding remove Store.get
  remove_absent name d e = ground arith

  remove-Change :
      (n : ℕ) (name : Bytes) (d : Driver W)
      → n < 2 ^ 63
      → IsSound n d
      → Change (counts d) (counts (remove g m name d).1)
  unfolding is_positive
  remove-Change n name d lt sound = go (lookup name d.store.vols) refl
    where
      idle : (v : Volume) → is_positive v.ref_count ≡ false → v.ref_count ≤ n → v.ref_count ≡ 0
      idle v free bound = ground arith

      moved :
          (v : Volume)
          → lookup name d.store.vols ≡ some v
          → v.ref_count ≡ 0
          → ((remove g m name d).1.store ≡ d.store)
            ⊎ ((remove g m name d).1.store ≡ (Store.remove name d.store).1)
          → Change (counts d) (counts (remove g m name d).1)
      moved v e free (inl same) = same-Change d (remove g m name d).1 same
      moved v e free (inr same) =
          moved-Change d (remove g m name d).1 (Store.remove name d.store).1 same
            (goes name (ap count_of e ∙ ap some free) (counts_of-remove name d.store v e))

      go :
          (o : Option Volume)
          → lookup name d.store.vols ≡ o
          → Change (counts d) (counts (remove g m name d).1)
      go none e = same-Change d (remove g m name d).1 (remove_absent name d e)
      go (some v) e = elim (remove_lem g m name d v e) [
        | inl (used, same) ↦
            same-Change d (remove g m name d).1
              (ap (λ (r : Res (Unit {0}) × Driver W). r.1.store) same)
        | inr (free, forgotten, world, result, tasks) ↦
            moved v e (idle v free (bound_of n name d sound v e)) (remove-store g m name d)
      ]

  mount-Change :
      (n : ℕ) (name : Bytes) (d : Driver W)
      → suc n < 2 ^ 63
      → IsSound n d
      → Change (counts d) (counts (mount g m name d).1)
  mount-Change n name d lt sound = elim (mount-store g m name d) [
    | inl e ↦ same-Change d (mount g m name d).1 e
    | inr e ↦
        moved-Change d (mount g m name d).1 (Store.inc_ref name (mountpoint_for name) d.store).2 e (
          unfold Store.inc_ref in
          hold-Change n name (mountpoint_for name) d.store lt (bound_of n name d sound))
  ]

  unmount-Change :
      (n : ℕ) (name : Bytes) (d : Driver W)
      → n < 2 ^ 63
      → IsSound n d
      → Change (counts d) (counts (unmount g m name d).1)
  unmount-Change n name d lt sound = elim (unmount-store g m name d) [
    | inl e ↦ same-Change d (unmount g m name d).1 e
    | inr e ↦
        moved-Change d (unmount g m name d).1 (Store.dec_ref name d.store).2 e
          (unfold Store.dec_ref in release-Change n name d.store lt (bound_of n name d sound))
  ]

  pub Step-Change :
      (n : ℕ) {d d' : Driver W}
      → suc n < 2 ^ 63
      → Step g m d d'
      → IsSound n d
      → Change (counts d) (counts d')
  Step-Change n lt (creates now name raw d) h = create-Change now name raw d
  Step-Change n lt (removes name d) h = remove-Change n name d (omega arith) h
  Step-Change n lt (mounts name d) h = mount-Change n name d lt h
  Step-Change n lt (unmounts name d) h = unmount-Change n name d (omega arith) h
  Step-Change n lt (deletes i d) h =
      same-Change d (run_background g m i d) (run_background-store g m i d)

  -- From sound records, any fewer than 2^63 - 1 requests and background deletes are a run of the
  -- five changes of the view, whatever GCE and the host answer and whichever writes of the state
  -- fail: a volume goes only when it has no mounts, and a mount counts one more or one less.
  pub Reach-refines :
      {d : Driver W} (n : ℕ) {d' : Driver W}
      → suc n < 2 ^ 63
      → Reach g m d n d'
      → IsSound 1 d
      → Changes (counts d) n (counts d')
  Reach-refines n lt here h = none_yet
  Reach-refines n lt (next {n = k} {d' = d1} r st) h =
      then' (Reach-refines k (omega arith) r h)
        (Step-Change (suc k) (omega arith) st (Reach-IsSound g m k (omega arith) r h))
