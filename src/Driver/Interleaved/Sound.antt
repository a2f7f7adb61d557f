-- ===== src/Driver/Interleaved/Sound.antt =====
-- The invariant of the records along any interleaving of the requests and the background deletes.
use docker_plugin_gce_pd.Prelude.{
  ℕ, suc, ◌+◌, ◌<◌, ◌^◌, ◌≡◌, refl, ok, List, [], ◌∷◌, length, arith,
}
use mathlib.Core.Path.{subst, sym}
use docker_plugin_gce_pd.Prelude.Bytes.{Bytes}
use docker_plugin_gce_pd.State.Keeps.{Holds}
use docker_plugin_gce_pd.State.Files.{Fs}
use docker_plugin_gce_pd.State.Store.{Store, load}
use docker_plugin_gce_pd.State.Reload.{load-Named}
use docker_plugin_gce_pd.Gce.Retry.{Runtime}
use docker_plugin_gce_pd.Gce.Client.{ComputeApi, Client}
use docker_plugin_gce_pd.Driver.Interface.{Mounter, Driver}
use docker_plugin_gce_pd.Driver.Lifecycle.{new}
use docker_plugin_gce_pd.Driver.Startup.{reconcile}
use docker_plugin_gce_pd.Driver.Wiring.{gce_client}
use docker_plugin_gce_pd.Driver.Invariant.{Fits, IsSound, Step, weaken-IsSound, Step-IsSound}
use docker_plugin_gce_pd.Driver.Recovery.{reconcile-IsSound}
use docker_plugin_gce_pd.Driver.Interleaved.{
  System, Request, creates, removes, mounts, unmounts, Move, serves, starts, goes_on, quiet, start,
  serve, go_on, move, run,
}

module _ {W O : Type 0} (rt : Runtime W) (api : ComputeApi W O) (c : Client) (m : Mounter W) where
  pub serve-Step :
      (r : Request) (d : Driver W) → Step (gce_client rt api c) m d (serve rt api c m r d)
  unfolding serve
  serve-Step (creates now name raw) d = Step.creates now name raw d
  serve-Step (removes name) d = Step.removes name d
  serve-Step (mounts name) d = Step.mounts name d
  serve-Step (unmounts name) d = Step.unmounts name d

  pub start-store : (i : ℕ) (s : System W) → (start i s).driver.store ≡ s.driver.store
  unfolding start
  start-store i s = ground arith

  kept-IsSound : (n : ℕ) (d d' : Driver W) → d'.store ≡ d.store → IsSound n d → IsSound (suc n) d'
  kept-IsSound n d d' e h =
      weaken-IsSound (gce_client rt api c) m n d' (subst (Holds (Fits n)) (sym e) h)

  pub move-IsSound :
      (n : ℕ) (mv : Move) (s : System W)
      → suc n < 2 ^ 63
      → IsSound n s.driver
      → IsSound (suc n) (move rt api c m mv s).driver
  unfolding move go_on
  move-IsSound n (serves r) s lt h =
      Step-IsSound (gce_client rt api c) m n lt (serve-Step r s.driver) h
  move-IsSound n (starts i) s lt h = kept-IsSound n s.driver (start i s).driver (start-store i s) h
  move-IsSound n (goes_on i) s lt h = kept-IsSound n s.driver (go_on rt api c m i s).driver refl h

  run-IsSound :
      (n : ℕ) (mvs : List Move) (s : System W)
      → n + length mvs < 2 ^ 63
      → IsSound n s.driver
      → IsSound (n + length mvs) (run rt api c m mvs s).driver
  unfolding run
  run-IsSound n [] s lt h = subst (λ k. IsSound k s.driver) (omega arith) h
  run-IsSound n (mv ∷ mvs) s lt h =
      subst (λ k. IsSound k (run rt api c m mvs (move rt api c m mv s)).driver) (omega arith)
        (run-IsSound (suc n) mvs (move rt api c m mv s) (omega arith)
          (move-IsSound n mv s (omega arith) h))

  -- Whatever the state file held: where Load and Reconcile return no error, then along any fewer
  -- than 2^63 - 1 moves, in any order, in which requests are served and the goroutines of the
  -- background deletes start and go on by one phase, every record stands under its own name, once,
  -- with a count at most one more than the number of moves and a status and a mount point that
  -- agree with it.
  pub served_interleaved-IsSound :
      (path scope : Bytes) (fs : Fs) (s : Store) (w : W) (mvs : List Move)
      → load path fs ≡ ok s
      → (reconcile (gce_client rt api c) m (new w s scope)).0 ≡ ok tt
      → suc (length mvs) < 2 ^ 63
      → let d = (reconcile (gce_client rt api c) m (new w s scope)).1 in
        IsSound (1 + length mvs) (run rt api c m mvs (quiet d)).driver
  served_interleaved-IsSound path scope fs s w mvs loaded ready lt =
      let g = gce_client rt api c in
      let d = (reconcile g m (new w s scope)).1 in
      run-IsSound 1 mvs (quiet d) (omega arith)
        (reconcile-IsSound g m (new w s scope) (unfold new in load-Named path fs s loaded) ready)
