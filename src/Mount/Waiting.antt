-- ===== src/Mount/Waiting.antt =====
-- WaitForDevice ends by itself when it has more rounds than nanoseconds to wait.
use docker_plugin_gce_pd.Prelude.{
  ℕ, zero, suc, ◌+◌, ◌≤◌, ◌<◌, ◌≡◌, ◌≢◌, refl, ◌∙◌, Bool, true, false,
}
use docker_plugin_gce_pd.Prelude.{Option, none, some, ok, err, arith, ltb}
use docker_plugin_gce_pd.Prelude.Bytes.{Bytes}
use docker_plugin_gce_pd.Prelude.Eff.{Eff}
use docker_plugin_gce_pd.Errors.{Error, Res, unfinished}
use docker_plugin_gce_pd.Gce.Retry.{Runtime}
use docker_plugin_gce_pd.Mount.Paths.{device_path}
use docker_plugin_gce_pd.Mount.Commands.{
  Host, after_done, after_deadline, after_stat, poll_device, wait_for_device,
}

-- A clock that reads the time of the world, later at each reading, and that nothing sets back. The
-- error of the context is an error of the program.
pub record Passes {W : Type 0} (rt : Runtime W) (host : Host W) (time : W → ℕ) : Type 0 where
  pub reads : (w : W) → (rt.now w).0 ≡ time w
  pub moves : (w : W) → time w < time (rt.now w).1
  pub by_sleep : (n : ℕ) (w : W) → time w ≤ time (rt.sleep n w).1
  pub by_done : (w : W) → time w ≤ time (rt.done w).1
  pub by_stat : (dev : Bytes) (w : W) → time w ≤ time (host.stat dev w).1
  pub done_finishes : (w : W) → (rt.done w).0 ≢ some unfinished

module _ {W : Type 0} (rt : Runtime W) (host : Host W) (timeout : ℕ) (time : W → ℕ)
    (passes : Passes rt host time) where
  module _ (k start : ℕ) (again : Eff W (Res Bytes))
      (next : (w : W)
        → suc k ≤ suc timeout
        → start + suc k ≤ time w
        → (again w).0 ≢ err unfinished) where
    after_done-ends :
        (o : Option Error) (w0 w : W)
        → (rt.done w0).0 ≡ o
        → suc k ≤ suc timeout
        → start + suc k ≤ time w
        → (after_done rt host timeout again o w).0 ≢ err unfinished
    unfolding after_done
    after_done-ends (some e) w0 w h lt past x = passes.done_finishes w0 (h ∙ ground arith)
    after_done-ends none w0 w h lt past x =
        next (rt.sleep 500_000_000 w).1 lt (omega (arith, passes.by_sleep 500_000_000 w)) x

    after_deadline-ends :
        (dev : Bytes) (late : Bool) (w : W)
        → (late ≡ false → suc k ≤ suc timeout)
        → start + suc k ≤ time w
        → (after_deadline rt host timeout again dev late w).0 ≢ err unfinished
    unfolding after_deadline
    after_deadline-ends dev true w lt past x = cc
    after_deadline-ends dev false w lt past x =
        after_done-ends (rt.done w).0 w (rt.done w).1 refl (lt refl)
          (omega (arith, passes.by_done w)) x

    after_stat-ends :
        (dev : Bytes) (r : Res (Unit {0})) (w : W)
        → start + k ≤ time w
        → (after_stat rt host timeout again (start + timeout) dev r w).0 ≢ err unfinished
    unfolding after_stat
    after_stat-ends dev (ok _) w past x = cc
    after_stat-ends dev (err e) w past x =
        after_deadline-ends dev (ltb (start + timeout) (rt.now w).0) (rt.now w).1
          (λ early. ground (arith, passes.reads w)) (omega (arith, passes.moves w)) x

  poll_device-ends :
      (n k start : ℕ) (dev : Bytes) (w : W)
      → suc timeout < k + n
      → k ≤ suc timeout
      → start + k ≤ time w
      → (poll_device rt host timeout n (start + timeout) dev w).0 ≢ err unfinished
  unfolding poll_device
  poll_device-ends zero k start dev w more few past x = absurd (omega arith)
  poll_device-ends (suc n) k start dev w more few past x =
      after_stat-ends k start (poll_device rt host timeout n (start + timeout) dev)
        (λ w' lt past'. poll_device-ends n (suc k) start dev w' (omega arith) lt past') dev
        (host.stat dev w).0 (host.stat dev w).1 (omega (arith, passes.by_stat dev w)) x

  -- On a clock that moves with each reading, WaitForDevice ends by itself, whether the device
  -- appears or not: it never runs out of its rounds if those are more than its timeout has
  -- nanoseconds, and one.
  pub wait_for_device-ends :
      (volume_name : Bytes) (w : W)
      → suc timeout < rt.rounds
      → (wait_for_device rt host timeout volume_name w).0 ≢ err unfinished
  unfolding wait_for_device
  wait_for_device-ends volume_name w enough =
      poll_device-ends rt.rounds 0 (rt.now w).0 (device_path volume_name) (rt.now w).1 (omega arith)
        (omega arith) (omega (arith, passes.reads w, passes.moves w))
