-- ===== src/Driver/Interleaved/Snapshots.antt =====
-- A background delete takes its snapshot first, whatever runs between its phases.
use docker_plugin_gce_pd.Prelude.{
  ℕ, zero, suc, ◌≡◌, refl, sym, ap, ◌⊎◌, inl, inr, true, Bool-cases, Option, none, some, List, [],
  ◌∷◌, ◌++◌, ok, err, arith,
}
use mathlib.Core.Path.{subst}
use docker_plugin_gce_pd.Prelude.Bytes.{Bytes}
use docker_plugin_gce_pd.Errors.{Res}
use docker_plugin_gce_pd.Gce.Retry.{Runtime}
use docker_plugin_gce_pd.Gce.Client.{ComputeApi, Client}
use docker_plugin_gce_pd.Gce.Info.{DiskInfo, attached, deleting}
use docker_plugin_gce_pd.Gce.Disks.{get_disk, mark_deleting, snapshot_disk}
use docker_plugin_gce_pd.Gce.Disks.Phases.{
  Phase, reads, marks, snaps, deletes, ends, advance, once_found, once_labelled, once_taken,
}
use docker_plugin_gce_pd.Driver.Interface.{Mounter, Driver, Task}
use docker_plugin_gce_pd.Driver.Lifecycle.{take_task}
use docker_plugin_gce_pd.Driver.Interleaved.{
  System, Job, Move, serves, starts, goes_on, quiet, start, advance_job, advance_at, go_on, move,
  run,
}

unfoldable pub job_at : ℕ → List Job → Option Job
job_at k [] = none
job_at zero (j ∷ js) = some j
job_at (suc k) (j ∷ js) = job_at k js

found_alive : (name : Bytes) (r : Res DiskInfo) → once_found name true r ≡ deletes → ⊥
unfolding once_found
found_alive name (err e) h = cc
found_alive name (ok info) h = elim (Bool-cases (attached info)) [
  | inl at ↦ ground (arith, h, at)
  | inr free ↦ elim (Bool-cases (deleting info)) [
    | inl dying ↦ ground (arith, h, free, dying)
    | inr new ↦ ground (arith, h, free, new)
  ]
]

labelled_alive : (name : Bytes) (r : Res (Unit {0})) → once_labelled name true r ≡ deletes → ⊥
labelled_alive name (err e) h = cc
labelled_alive name (ok _) h = cc

taken_ok : (name : Bytes) (r : Res (Unit {0})) → once_taken name r ≡ deletes → r ≡ ok tt
taken_ok name (err e) h = let no : ⊥ = cc in elim no [ ]
taken_ok name (ok _) h = refl

-- A job after the list has grown by one.
job_at-grown :
    (k : ℕ) (js : List Job) (new j : Job)
    → job_at k (js ++ (new ∷ [])) ≡ some j
    → (job_at k js ≡ some j) ⊎ (j ≡ new)
unfolding job_at
job_at-grown zero [] new j h = inr (cc)
job_at-grown (suc k) [] new j h = let no : ⊥ = cc in elim no [ ]
job_at-grown zero (i ∷ js) new j h = inl h
job_at-grown (suc k) (i ∷ js) new j h = job_at-grown k js new j h

job_at-started :
    {W : Type 0} (k i : ℕ) (s : System W) (j : Job)
    → job_at k (start i s).jobs ≡ some j
    → (job_at k s.jobs ≡ some j) ⊎ (j.phase ≡ reads)
unfolding start
job_at-started k i s j h = go (take_task i s.driver.background) refl
  where
    go :
        (o : Option (Task × List Task))
        → take_task i s.driver.background ≡ o
        → (job_at k s.jobs ≡ some j) ⊎ (j.phase ≡ reads)
    go none e = inl (rw (start, e) at h)
    go (some (t, tasks)) e = elim (job_at-grown k s.jobs _ j (rw (start, e) at h)) [
      | inl old ↦ inl old
      | inr new ↦ inr (ap (λ (x : Job). x.phase) new)
    ]

module _ {W O : Type 0} (rt : Runtime W) (api : ComputeApi W O) (c : Client) (m : Mounter W) where
  advance-deletes :
      (name : Bytes) (p : Phase) (w : W)
      → (advance rt api c name true p w).0 ≡ deletes
      → (snapshot_disk rt api c name w).0 ≡ ok tt
  unfolding advance
  advance-deletes name reads w h =
      let no = found_alive name (get_disk rt api c name w).0 h in elim no [ ]
  advance-deletes name (marks info) w h =
      let no = labelled_alive name (mark_deleting rt api c info w).0 h in elim no [ ]
  advance-deletes name snaps w h = taken_ok name (snapshot_disk rt api c name w).0 h
  advance-deletes name deletes w h = let no : ⊥ = cc in elim no [ ]
  advance-deletes name (ends r) w h = let no : ⊥ = cc in elim no [ ]

  advance_job-deletes :
      (t : Task) (j : Job) (w : W)
      → t.snapshot_first ≡ true
      → record { task = t; phase = deletes } ≡ (advance_job rt api c m j w).0
      → (snapshot_disk rt api c t.name w).0 ≡ ok tt
  unfolding advance_job
  advance_job-deletes t j w first now =
      let same : t ≡ j.task = ap (λ (x : Job). x.task) now in
      let phase : deletes ≡ (advance rt api c j.task.name j.task.snapshot_first j.phase w).0 =
        ap (λ (x : Job). x.phase) now in
      let stands : deletes ≡ (advance rt api c t.name t.snapshot_first j.phase w).0 =
        subst (λ (u : Task). deletes ≡ (advance rt api c u.name u.snapshot_first j.phase w).0)
          (sym same) phase in
      advance-deletes t.name j.phase w
        (sym (subst (λ b. deletes ≡ (advance rt api c t.name b j.phase w).0) first stands))

  -- A job after one of the list has gone on.
  job_at-advanced :
      (k i : ℕ) (js : List Job) (w : W) (j : Job)
      → job_at k (advance_at rt api c m i js w).0 ≡ some j
      → (job_at k js ≡ some j)
        ⊎ ((i ≡ k) × (j0 : Job) × (job_at k js ≡ some j0) × (j ≡ (advance_job rt api c m j0 w).0))
  unfolding job_at advance_at
  job_at-advanced k i [] w j h = inl h
  job_at-advanced zero zero (x ∷ js) w j h = inr (refl, x, refl, cc)
  job_at-advanced (suc k) zero (x ∷ js) w j h = inl h
  job_at-advanced zero (suc i) (x ∷ js) w j h = inl h
  job_at-advanced (suc k) (suc i) (x ∷ js) w j h = elim (job_at-advanced k i js w j h) [
    | inl old ↦ inl old
    | inr (e, j0, there, now) ↦ inr (ap suc e, j0, there, now)
  ]

  -- The goroutine at a position stands before its delete, for a task that asks for a snapshot.
  abbrev Ready : ℕ → Task → System W → Type 0
  Ready k t s = job_at k s.jobs ≡ some (record { task = t; phase = deletes })

  -- One of the moves was its taking of the snapshot, which returned no error.
  abbrev pub Snapshotted : ℕ → Bytes → List Move → System W → Type 0
  Snapshotted k name mvs s =
      (before after : List Move) × (mvs ≡ before ++ (goes_on k ∷ after))
      × ((snapshot_disk rt api c name (run rt api c m before s).driver.world).0 ≡ ok tt)

  move-Ready :
      (k : ℕ) (t : Task) (mv : Move) (mvs : List Move) (s : System W)
      → t.snapshot_first ≡ true
      → Ready k t (move rt api c m mv s)
      → Ready k t s ⊎ Snapshotted k t.name (mv ∷ mvs) s
  unfolding move go_on run
  move-Ready k t (serves r) mvs s first h = inl h
  move-Ready k t (starts i) mvs s first h = elim (job_at-started k i s _ h) [
    | inl old ↦ inl old
    | inr new ↦ let no : ⊥ = cc in elim no [ ]
  ]
  move-Ready k t (goes_on i) mvs s first h = elim (job_at-advanced k i s.jobs s.driver.world _ h) [
    | inl old ↦ inl old
    | inr (e, j0, there, now) ↦
        inr
          ([], mvs, ap (λ n. goes_on n ∷ mvs) e, advance_job-deletes t j0 s.driver.world first now)
  ]

  run-Ready :
      (k : ℕ) (t : Task) (mvs : List Move) (s : System W)
      → t.snapshot_first ≡ true
      → Ready k t (run rt api c m mvs s)
      → Ready k t s ⊎ Snapshotted k t.name mvs s
  unfolding run
  run-Ready k t [] s first h = inl h
  run-Ready k t (mv ∷ mvs) s first h = elim (run-Ready k t mvs (move rt api c m mv s) first h) [
    | inl now ↦ move-Ready k t mv mvs s first now
    | inr (before, after, split, taken) ↦ inr (mv ∷ before, after, ap (λ x. mv ∷ x) split, taken)
  ]

  -- From a start with no goroutine, along any moves: where a goroutine stands before the delete of
  -- its disk and was started with a snapshot asked for, one of the moves was its own taking of a
  -- snapshot of that disk, which returned no error, whatever else ran in between.
  pub run-Snapshotted :
      (k : ℕ) (t : Task) (mvs : List Move) (d : Driver W)
      → t.snapshot_first ≡ true
      → job_at k (run rt api c m mvs (quiet d)).jobs ≡ some (record { task = t; phase = deletes })
      → Snapshotted k t.name mvs (quiet d)
  unfolding job_at
  run-Snapshotted k t mvs d first h = elim (run-Ready k t mvs (quiet d) first h) [
    | inl now ↦ let no : ⊥ = cc in elim no [ ]
    | inr taken ↦ taken
  ]
