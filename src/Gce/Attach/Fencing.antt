-- ===== src/Gce/Attach/Fencing.antt =====
-- The fencing of a failover: what has to happen before a disk is taken from a holder that is up.
use docker_plugin_gce_pd.Prelude.{
  ℕ, zero, suc, ◌+◌, ◌<◌, ◌≡◌, Bool, true, false, Option, none, some, ok, err, ltb, arith, ◌⊎◌, inl,
  inr, refl,
}
use docker_plugin_gce_pd.Prelude.Bytes.{Bytes}
use docker_plugin_gce_pd.Prelude.Eff.{Eff}
use docker_plugin_gce_pd.Errors.{Error, Res}
use docker_plugin_gce_pd.Gce.Refs.{instance_name_from_ref, is_holder_down}
use docker_plugin_gce_pd.Gce.Retry.{Runtime}
use docker_plugin_gce_pd.Gce.Client.{ComputeApi, Client}
use docker_plugin_gce_pd.Gce.Attach.{
  detach_from_instance, disk_released_by, await_release, detach_running, instance_state,
  ensure_detached_from_holder, after_select, after_grace, after_check, after_detach, after_status,
  after_state,
}

module _ {W O : Type 0} (rt : Runtime W) (api : ComputeApi W O) (c : Client)
    (name holder : Bytes) where
  -- The holder has let go of the disk, or else the clock has passed the deadline and a second
  -- detach has succeeded after that.
  pub data LetGo (deadline : ℕ) : Type 0 where
    released : (w : W) → (disk_released_by rt api c name holder w).0 ≡ ok true → LetGo deadline
    forced :
        (w : W)
        → deadline < (rt.now w).0
        → (detach_from_instance rt api c name holder (rt.now w).1).0 ≡ ok tt
        → LetGo deadline

  module _ (deadline : ℕ) (again : Eff W (Res (Unit {0})))
      (next : (w : W) → (again w).0 ≡ ok tt → LetGo deadline) where
    after_select-LetGo :
        (o : Option Error) (w : W) → (after_select rt api c again o w).0 ≡ ok tt → LetGo deadline
    unfolding after_select
    after_select-LetGo (some e) w h = cc
    after_select-LetGo none w h = next (rt.sleep 1_000_000_000 w).1 h

    after_grace-LetGo :
        (w : W) (late : Bool)
        → ltb deadline (rt.now w).0 ≡ late
        → (after_grace rt api c again name holder late (rt.now w).1).0 ≡ ok tt
        → LetGo deadline
    unfolding after_grace
    after_grace-LetGo w true late h = forced w (ground arith) h
    after_grace-LetGo w false late h = let r = rt.done (rt.now w).1 in after_select-LetGo r.0 r.1 h

    after_check-LetGo :
        (r : Res Bool) (w : W)
        → (disk_released_by rt api c name holder w).0 ≡ r
        → (after_check rt api c again deadline name holder r
            (disk_released_by rt api c name holder w).1).0
          ≡ ok tt
        → LetGo deadline
    unfolding after_check
    after_check-LetGo (err e) w same h = cc
    after_check-LetGo (ok true) w same h = released w same
    after_check-LetGo (ok false) w same h =
        let w' = (disk_released_by rt api c name holder w).1 in
        after_grace-LetGo w' (ltb deadline (rt.now w').0) refl h

  await_release-LetGo :
      (n deadline : ℕ) (w : W)
      → (await_release rt api c n deadline name holder w).0 ≡ ok tt
      → LetGo deadline
  unfolding await_release
  await_release-LetGo zero deadline w h = cc
  await_release-LetGo (suc n) deadline w h =
      after_check-LetGo deadline (await_release rt api c n deadline name holder)
        (await_release-LetGo n deadline) (disk_released_by rt api c name holder w).0 w refl h

  after_detach-LetGo :
      (r : Res (Unit {0})) (w : W)
      → (after_detach rt api c name holder r w).0 ≡ ok tt
      → (r ≡ ok tt) × LetGo ((rt.now w).0 + c.force_detach_after)
  unfolding after_detach
  after_detach-LetGo (err e) w h = cc
  after_detach-LetGo (ok _) w h =
      (refl, await_release-LetGo rt.rounds ((rt.now w).0 + c.force_detach_after) (rt.now w).1 h)

  -- The states of the world after the read of the status, and after the first detach.
  abbrev pub at_status : W → W
  at_status w = (instance_state rt api c holder w).1

  abbrev pub at_detach : W → W
  at_detach w = (detach_from_instance rt api c name holder (at_status w)).1

  -- Detached: the status was read, and a detach from the holder succeeded at once. From a holder
  -- that was not down the disk was let go besides, with the window from the first detach.
  abbrev pub Detached : W → Type 0
  Detached w =
      (status : Bytes) × ((instance_state rt api c holder w).0 ≡ ok status)
      × ((detach_from_instance rt api c name holder (at_status w)).0 ≡ ok tt)
      × ((is_holder_down status ≡ true) ⊎ LetGo ((rt.now (at_detach w)).0 + c.force_detach_after))

  after_status-Detached :
      (down : Bool) (w : W)
      → (after_status rt api c name holder down w).0 ≡ ok tt
      → ((detach_from_instance rt api c name holder w).0 ≡ ok tt)
        × ((down ≡ true)
            ⊎ LetGo
                ((rt.now (detach_from_instance rt api c name holder w).1).0 + c.force_detach_after))
  unfolding after_status detach_running
  after_status-Detached true w h = (h, inl refl)
  after_status-Detached false w h =
      let r = detach_from_instance rt api c name holder w in
      let (first, let_go) = after_detach-LetGo r.0 r.1 h in (first, inr let_go)

  after_state-Detached :
      (r : Res Bytes) (w : W)
      → (instance_state rt api c holder w).0 ≡ r
      → (after_state rt api c name holder r (at_status w)).0 ≡ ok tt
      → Detached w
  unfolding after_state
  after_state-Detached (err e) w same h = cc
  after_state-Detached (ok status) w same h =
      let (first, fenced) = after_status-Detached (is_holder_down status) (at_status w) h in
      (status, same, first, fenced)

module _ {W O : Type 0} (rt : Runtime W) (api : ComputeApi W O) (c : Client) where
  -- When ensureDetachedFromHolder returns no error, the status of the holder was read and a detach
  -- from it succeeded. Where the status is not one of those in which the holder cannot write, then
  -- besides either the disk was found released by the holder, or a further detach succeeded after a
  -- reading of the clock that is past the time right after the first detach plus the grace window.
  pub ensure_detached_from_holder-Detached :
      (name ref : Bytes) (w : W)
      → (ensure_detached_from_holder rt api c name ref w).0 ≡ ok tt
      → Detached rt api c name (instance_name_from_ref ref) w
  unfolding ensure_detached_from_holder
  ensure_detached_from_holder-Detached name ref w h =
      let holder = instance_name_from_ref ref in
      after_state-Detached rt api c name holder (instance_state rt api c holder w).0 w refl h
