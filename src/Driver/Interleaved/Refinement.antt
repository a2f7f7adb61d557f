-- ===== src/Driver/Interleaved/Refinement.antt =====
-- The interleavings of requests and background deletes as changes of the view of the users.
use docker_plugin_gce_pd.Prelude.{ℕ, suc, ◌+◌, ◌<◌, ◌^◌, refl, List, [], ◌∷◌, length, arith}
use docker_plugin_gce_pd.Gce.Retry.{Runtime}
use docker_plugin_gce_pd.Gce.Client.{ComputeApi, Client}
use docker_plugin_gce_pd.Driver.Interface.{Mounter, Driver}
use docker_plugin_gce_pd.Driver.Wiring.{gce_client}
use docker_plugin_gce_pd.Driver.Invariant.{IsSound}
use docker_plugin_gce_pd.Driver.Counts.{Counts, Change, counts}
use docker_plugin_gce_pd.Driver.Counts.Refinement.{
  Changes, none_yet, then', same-Change, Step-Change,
}
use docker_plugin_gce_pd.Driver.Interleaved.{
  System, Move, serves, starts, goes_on, quiet, start, go_on, move, run,
}
use docker_plugin_gce_pd.Driver.Interleaved.Sound.{serve-Step, start-store, move-IsSound}

-- One change more, at the beginning.
before-Changes :
    {f f' f'' : Counts} {n : ℕ} → Change f f' → Changes f' n f'' → Changes f (suc n) f''
before-Changes c none_yet = then' none_yet c
before-Changes c (then' cs c') = then' (before-Changes c cs) c'

module _ {W O : Type 0} (rt : Runtime W) (api : ComputeApi W O) (c : Client) (m : Mounter W) where
  move-Change :
      (n : ℕ) (mv : Move) (s : System W)
      → suc n < 2 ^ 63
      → IsSound n s.driver
      → Change (counts s.driver) (counts (move rt api c m mv s).driver)
  unfolding move go_on
  move-Change n (serves r) s lt h =
      Step-Change (gce_client rt api c) m n lt (serve-Step rt api c m r s.driver) h
  move-Change n (starts i) s lt h =
      same-Change (gce_client rt api c) m s.driver (start i s).driver (start-store rt api c m i s)
  move-Change n (goes_on i) s lt h =
      same-Change (gce_client rt api c) m s.driver (go_on rt api c m i s).driver refl

  run-Changes :
      (n : ℕ) (mvs : List Move) (s : System W)
      → n + length mvs < 2 ^ 63
      → IsSound n s.driver
      → Changes (counts s.driver) (length mvs) (counts (run rt api c m mvs s).driver)
  unfolding run
  run-Changes n [] s lt h = none_yet
  run-Changes n (mv ∷ mvs) s lt h = before-Changes (move-Change n mv s (omega arith) h) (
      run-Changes (suc n) mvs (move rt api c m mv s) (omega arith)
        (move-IsSound rt api c m n mv s (omega arith) h))

  -- From sound records, any fewer than 2^63 - 1 moves, in which requests are served and the
  -- goroutines of the background deletes start and go on by one phase, in any order, are as many
  -- changes of the view of the users: nothing, a new volume with no mounts, the end of a volume
  -- with no mounts, one mount more or one mount less. This is so whatever GCE and the host answer
  -- and whichever writes of the state fail.
  pub run-refines :
      (mvs : List Move) (d : Driver W)
      → suc (length mvs) < 2 ^ 63
      → IsSound 1 d
      → Changes (counts d) (length mvs) (counts (run rt api c m mvs (quiet d)).driver)
  run-refines mvs d lt h = run-Changes 1 mvs (quiet d) (omega arith) h
