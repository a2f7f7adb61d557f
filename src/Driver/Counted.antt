-- ===== src/Driver/Counted.antt =====
-- driver.go: the counter of the WaitGroup along Reconcile, the requests and the background deletes.
use docker_plugin_gce_pd.Prelude.{
  ℕ, zero, suc, ◌+◌, ◌≡◌, refl, sym, ◌∙◌, ap, Option, none, some, List, [], ◌∷◌, ◌++◌, length,
  arith, ok, err, Bool-cases, inl, inr,
}
use docker_plugin_gce_pd.Prelude.Bytes.{Bytes}
use docker_plugin_gce_pd.Prelude.Map.{Map}
use docker_plugin_gce_pd.Errors.{Res}
use docker_plugin_gce_pd.State.Volume.{Volume}
use docker_plugin_gce_pd.State.Store
use docker_plugin_gce_pd.State.Store.{Store}
use docker_plugin_gce_pd.Gce.Info.{DiskInfo, deleting}
use docker_plugin_gce_pd.Driver.Interface.{GceClient, Mounter, Task, Driver}
use docker_plugin_gce_pd.Driver.Lifecycle.{
  take_task, put_back, run_background, delete_in_background, new, create, remove, mount, unmount,
  create_untracked, create_found, provision, after_create, after_add, adopt_existing_disk,
  mount_first, mount_counted, after_count, after_mount, after_format, after_wait, after_attach,
  detach_and_fail, inc_ref, unmount_last, dec_ref,
}
use docker_plugin_gce_pd.Driver.Startup.{
  resume_deletes, restore_mount, restore_mounts, restore_after, restart_counts, restart_after,
  align_store, reconcile_listed, reconcile,
}
use docker_plugin_gce_pd.Driver.Waiting.{
  IsCounted, Finished, wait_background, wait_background-counted,
}
use docker_plugin_gce_pd.Driver.Invariant.{
  Step, Reach, creates, removes, mounts, unmounts, deletes, here, next,
}
use docker_plugin_gce_pd.Prelude.{Bool}
use docker_plugin_gce_pd.Prelude.{false}

length-snoc : (ts : List Task) (t : Task) → length (ts ++ (t ∷ [])) ≡ length ts + 1
length-snoc [] t = refl
length-snoc (u ∷ ts) t = omega (arith, length-snoc ts t)

delete_in_background-IsCounted :
    {W : Type 0} (name : Bytes) (first : Bool) (d : Driver W)
    → IsCounted d
    → IsCounted (delete_in_background name first d)
unfolding delete_in_background
delete_in_background-IsCounted name first d h =
    omega (arith, h, length-snoc d.background (record { name = name; snapshot_first = first }))

length-put_back :
    (t u : Task) (ts rest : List Task) (o : Option (Task × List Task))
    → put_back t o ≡ some (u, rest)
    → ((r : List Task) → o ≡ some (u, r) → length ts ≡ suc (length r))
    → suc (length ts) ≡ suc (length rest)
length-put_back t u ts rest none h f = cc
length-put_back t u ts rest (some (v, r)) h f = grind (arith, f)

length-take_task :
    (i : ℕ) (ts rest : List Task) (t : Task)
    → take_task i ts ≡ some (t, rest)
    → length ts ≡ suc (length rest)
unfolding take_task
length-take_task i [] rest t h = cc
length-take_task zero (u ∷ ts) rest t h = ground arith
length-take_task (suc i) (u ∷ ts) rest t h =
    length-put_back u t ts rest (take_task i ts) h (λ r e. length-take_task i ts r t e)

-- The goroutines and the counter are the same.
abbrev Unmoved : {W : Type 0} → Driver W → Driver W → Type 0
Unmoved d d' = (d'.background ≡ d.background) × (d'.bg ≡ d.bg)

Unmoved-IsCounted : {W : Type 0} (d d' : Driver W) → Unmoved d d' → IsCounted d → IsCounted d'
Unmoved-IsCounted d d' (same, count) h = count ∙ h ∙ ap length (sym same)

module _ {W : Type 0} (g : GceClient W) (m : Mounter W) where
  run_background-IsCounted :
      (i : ℕ) (d : Driver W) → IsCounted d → IsCounted (run_background g m i d)
  unfolding run_background
  run_background-IsCounted i d h = go (take_task i d.background) refl
    where
      go :
          (o : Option (Task × List Task))
          → take_task i d.background ≡ o
          → IsCounted (run_background g m i d)
      go none e = rw (run_background, e) h
      go (some (t, rest)) e =
          rw (run_background, e) (omega (arith, h, length-take_task i d.background rest t e))

  create-Unmoved :
      (now name : Bytes) (raw : Map Bytes) (d : Driver W) → Unmoved d (create g m now name raw d).1
  unfolding create create_untracked create_found provision after_create after_add
      adopt_existing_disk
  create-Unmoved now name raw d = ground arith

  mount-Unmoved : (name : Bytes) (d : Driver W) → Unmoved d (mount g m name d).1
  unfolding mount mount_first mount_counted after_count after_mount after_format after_wait
      after_attach detach_and_fail inc_ref
  mount-Unmoved name d = ground arith

  unmount-Unmoved : (name : Bytes) (d : Driver W) → Unmoved d (unmount g m name d).1
  unfolding unmount unmount_last dec_ref
  unmount-Unmoved name d = ground arith

  remove-IsCounted : (name : Bytes) (d : Driver W) → IsCounted d → IsCounted (remove g m name d).1
  unfolding remove delete_in_background
  remove-IsCounted name d h = grind (arith, length-snoc)

  Step-IsCounted : {d d' : Driver W} → Step g m d d' → IsCounted d → IsCounted d'
  Step-IsCounted (creates now name raw d) h =
      Unmoved-IsCounted d (create g m now name raw d).1 (create-Unmoved now name raw d) h
  Step-IsCounted (removes name d) h = remove-IsCounted name d h
  Step-IsCounted (mounts name d) h =
      Unmoved-IsCounted d (mount g m name d).1 (mount-Unmoved name d) h
  Step-IsCounted (unmounts name d) h =
      Unmoved-IsCounted d (unmount g m name d).1 (unmount-Unmoved name d) h
  Step-IsCounted (deletes i d) h = run_background-IsCounted i d h

  pub Reach-IsCounted :
      {d : Driver W} {n : ℕ} {d' : Driver W} → Reach g m d n d' → IsCounted d → IsCounted d'
  Reach-IsCounted here h = h
  Reach-IsCounted (next r st) h = Step-IsCounted st (Reach-IsCounted r h)

  resume_deletes-IsCounted :
      (dks : List DiskInfo) (d : Driver W) → IsCounted d → IsCounted (resume_deletes g m dks d)
  unfolding resume_deletes
  resume_deletes-IsCounted [] d h = h
  resume_deletes-IsCounted (dk ∷ dks) d h = elim (Bool-cases (deleting dk)) [
    | inl dying ↦
        resume_deletes-IsCounted dks _ (rw dying (delete_in_background-IsCounted dk.name false d h))
    | inr alive ↦ resume_deletes-IsCounted dks _ (rw alive h)
  ]

  restore_mount-Unmoved : (v : Volume) (d : Driver W) → Unmoved d (restore_mount g m v d)
  unfolding restore_mount
  restore_mount-Unmoved v d = ground arith

  restore_mounts-IsCounted :
      (vs : List Volume) (d : Driver W) → IsCounted d → IsCounted (restore_mounts g m vs d)
  unfolding restore_mounts
  restore_mounts-IsCounted [] d h = h
  restore_mounts-IsCounted (v ∷ vs) d h =
      restore_mounts-IsCounted vs (restore_mount g m v d)
        (Unmoved-IsCounted d (restore_mount g m v d) (restore_mount-Unmoved v d) h)

  restore_after-IsCounted :
      (r : Res (Unit {0})) (d : Driver W) → IsCounted d → IsCounted (restore_after g m r d).1
  unfolding restore_after
  restore_after-IsCounted (err e) d h = h
  restore_after-IsCounted (ok _) d h = restore_mounts-IsCounted (Store.list d.store) d h

  restart_after-IsCounted :
      (r : Res (Unit {0})) (d : Driver W) → IsCounted d → IsCounted (restart_after g m r d).1
  unfolding restart_after restart_counts
  restart_after-IsCounted (err e) d h = h
  restart_after-IsCounted (ok _) d h =
      let z = Store.reset_ref_counts d.store in
      restore_after-IsCounted z.0 (record d { store = z.1 }) h

  reconcile_listed-IsCounted :
      (r : Res (List DiskInfo)) (d : Driver W)
      → IsCounted d
      → IsCounted (reconcile_listed g m r d).1
  unfolding reconcile_listed align_store
  reconcile_listed-IsCounted (err e) d h = h
  reconcile_listed-IsCounted (ok disks) d h =
      restart_after-IsCounted _ _ (resume_deletes-IsCounted disks d h)

  reconcile-IsCounted : (d : Driver W) → IsCounted d → IsCounted (reconcile g m d).1
  unfolding reconcile
  reconcile-IsCounted d h =
      let r = g.list_managed_disks d.world in
      reconcile_listed-IsCounted r.0 (record d { world = r.1 }) h

  -- The counter of a new driver is right after Reconcile, whatever that returns.
  pub started-IsCounted :
      (start : W) (s : Store) (scope : Bytes) → IsCounted (reconcile g m (new start s scope)).1
  unfolding new
  started-IsCounted start s scope = reconcile-IsCounted (new start s scope) refl

  -- After New, Reconcile, whatever it returns, and any requests and background deletes,
  -- WaitBackground does not block for ever: the counter of the WaitGroup comes to zero and no
  -- delete is pending; whatever order the scheduler chooses, each delete that was pending has
  -- called DeleteDisk once, in some order of them, and the store is as it was.
  pub wait_background-Finished :
      (pick : List Task → ℕ) (start : W) (s : Store) (scope : Bytes) (n : ℕ) (d : Driver W)
      → Reach g m (reconcile g m (new start s scope)).1 n d
      → (order : List Task) × Finished g m d (wait_background g m pick d) order
  wait_background-Finished pick start s scope n d r =
      wait_background-counted g m pick d (Reach-IsCounted r (started-IsCounted start s scope))
