-- ===== src/Driver/Interleaved.antt =====
-- driver.go: requests among the phases of the background deletes. The driver's mutex keeps
-- requests apart; the goroutine that deleteInBackground starts does not hold it, so each phase of
-- its DeleteDisk is a move of its own, between any two requests. A request is one move: a phase
-- that falls between two calls of one request is not a run of this system.
pub mod Sound
pub mod Refinement
pub mod Snapshots
use docker_plugin_gce_pd.Prelude.{ℕ, zero, suc, Bool, none, some, List, [], ◌∷◌, ◌++◌}
use docker_plugin_gce_pd.Prelude.Bytes.{Bytes}
use docker_plugin_gce_pd.Prelude.Map.{Map}
use docker_plugin_gce_pd.Prelude.Eff.{Eff}
use docker_plugin_gce_pd.Gce.Retry.{Runtime}
use docker_plugin_gce_pd.Gce.Client.{ComputeApi, Client}
use docker_plugin_gce_pd.Gce.Disks.Phases.{Phase, reads, ends, advance}
use docker_plugin_gce_pd.Driver.Interface.{Mounter, Task, Driver}
use docker_plugin_gce_pd.Driver.Lifecycle.{create, remove, mount, unmount, take_task}
use docker_plugin_gce_pd.Driver.Wiring.{gce_client}
use docker_plugin_gce_pd.Prelude.{◌-◌}

-- A goroutine of deleteInBackground: the delete that it is to do, and how far it is.
pub record Job : Type 0 where
  pub task : Task
  pub phase : Phase

pub record System (W : Type 0) : Type 0 where
  pub driver : Driver W
  pub jobs : List Job

pub data Request : Type 0 where
  creates : Bytes → Bytes → Map Bytes → Request
  removes : Bytes → Request
  mounts : Bytes → Request
  unmounts : Bytes → Request

-- A request is served, or the goroutine of a pending delete starts, or one that runs goes on.
pub data Move : Type 0 where
  serves : Request → Move
  starts : ℕ → Move
  goes_on : ℕ → Move

-- The goroutines that have not ended.
abbrev pub running : List Job → ℕ
running [] = 0
running (j ∷ js) = elim j.phase [ ends r ↦ running js | _ ↦ suc (running js) ]

-- No goroutine runs.
abbrev pub quiet : {W : Type 0} → Driver W → System W
quiet d = record { driver = d; jobs = [] }

unfoldable pub start : {W : Type 0} → ℕ → System W → System W
unfolding take_task
start i s = elim (take_task i s.driver.background) [
  | none ↦ s
  | some (task, tasks) ↦ record s {
    driver = record s.driver { background = tasks };
    jobs = s.jobs ++ (record { task = task; phase = reads } ∷ []);
  }
]

module _ {W O : Type 0} (rt : Runtime W) (api : ComputeApi W O) (c : Client) (m : Mounter W) where
  unfoldable pub serve : Request → Driver W → Driver W
  serve (creates now name raw) d = (create (gce_client rt api c) m now name raw d).1
  serve (removes name) d = (remove (gce_client rt api c) m name d).1
  serve (mounts name) d = (mount (gce_client rt api c) m name d).1
  serve (unmounts name) d = (unmount (gce_client rt api c) m name d).1

  unfoldable pub advance_job : Job → Eff W Job
  advance_job j w =
      let r = advance rt api c j.task.name j.task.snapshot_first j.phase w in
      (record j { phase = r.0 }, r.1)

  unfoldable pub advance_at : ℕ → List Job → Eff W (List Job)
  advance_at n [] w = ([], w)
  advance_at zero (j ∷ js) w = let r = advance_job j w in (r.0 ∷ js, r.1)
  advance_at (suc n) (j ∷ js) w = let r = advance_at n js w in (j ∷ r.0, r.1)

  -- The goroutine at `i` goes on by one phase; the one that ends calls Done.
  unfoldable pub go_on : ℕ → System W → System W
  go_on i s =
      let r = advance_at i s.jobs s.driver.world in
      let ended = running s.jobs - running r.0 in
      record { driver = record s.driver { world = r.1; bg = s.driver.bg - ended }; jobs = r.0 }

  unfoldable pub move : Move → System W → System W
  unfolding start
  move (serves r) s = record s { driver = serve r s.driver }
  move (starts i) s = start i s
  move (goes_on i) s = go_on i s

  unfoldable pub run : List Move → System W → System W
  run [] s = s
  run (mv ∷ mvs) s = run mvs (move mv s)
