-- ===== src/Gce/Settling/Failover.antt =====
-- The failover ends, the wait for a holder to let go of a disk included.
use docker_plugin_gce_pd.Gce.Refs.{instance_name_from_ref}
use docker_plugin_gce_pd.Gce.Refs.{is_holder_down}
use docker_plugin_gce_pd.Prelude.{
  ℕ, zero, suc, ◌+◌, ◌≤◌, ◌<◌, ◌≡◌, refl, Bool, true, false, Option, none, some, [], ok, err, ltb,
  arith,
}
use docker_plugin_gce_pd.Prelude.{[]}
use docker_plugin_gce_pd.Prelude.Bytes.{Bytes}
use docker_plugin_gce_pd.Prelude.Eff.{Eff}
use docker_plugin_gce_pd.Errors.{Error, Res, is_not_found}
use docker_plugin_gce_pd.Gce.Retry.{Runtime, retry}
use docker_plugin_gce_pd.Gce.Retry.Ends.{
  finished, Settled, SettledStop, Clock, SettledAt, Settles, if-Settled, retry-Settles,
}
use docker_plugin_gce_pd.Gce.Client.{ComputeApi, Client, retry_op}
use docker_plugin_gce_pd.Gce.Disks.{get_disk}
use docker_plugin_gce_pd.Gce.Attach.{
  detach_from_instance, instance_state, disk_released_by, after_select, after_grace, after_check,
  await_release,
}
use docker_plugin_gce_pd.Gce.Settling.{
  ApiSettles, retry_op-Settles, get_disk-Settles, retried-Settles,
}
use docker_plugin_gce_pd.Gce.Attach.{after_detach}
use docker_plugin_gce_pd.Gce.Attach.{after_status}
use docker_plugin_gce_pd.Gce.Attach.{after_state}
use docker_plugin_gce_pd.Gce.Attach.{ensure_detached_from_holder}
use docker_plugin_gce_pd.Gce.Attach.{detach_running}
use docker_plugin_gce_pd.Gce.Settling.{is_holder_down}
use docker_plugin_gce_pd.Gce.Settling.{instance_name_from_ref}

module _ {W O : Type 0} (rt : Runtime W) (api : ComputeApi W O) (c : Client) (time : W → ℕ)
    (clock : Clock rt time) (calls : ApiSettles time api)
    (enough : c.backoff.max_elapsed < rt.rounds) where
  pub detach_from_instance-Settles :
      (name holder : Bytes) → Settles time (detach_from_instance rt api c name holder)
  unfolding detach_from_instance finished
  detach_from_instance-Settles name holder =
      let call = api.detach_disk c.project_id c.zone holder name in
      retried-Settles rt api c time clock calls enough (retry_op rt api c call)
        (retry_op-Settles rt api c time clock calls enough call
          (calls.detach_disk c.project_id c.zone holder name))
        _ _ (λ a t w le. (tt, le)) (λ e s t w le. (s, le))

  instance_state-Settles : (holder : Bytes) → Settles time (instance_state rt api c holder)
  unfolding instance_state
  instance_state-Settles holder =
      let call = api.get_instance c.project_id c.zone holder in
      retried-Settles rt api c time clock calls enough (retry rt c.backoff call)
        (retry-Settles rt c.backoff call time clock (calls.get_instance c.project_id c.zone holder)
          enough)
        _ _ (λ a t w le. (tt, le))
        (λ e s t w le. (if-Settled {A = Bytes} (is_not_found e) (ok []) (err e) tt s, le))

  disk_released_by-Settles :
      (name holder : Bytes) → Settles time (disk_released_by rt api c name holder)
  unfolding disk_released_by
  disk_released_by-Settles name holder =
      retried-Settles rt api c time clock calls enough (get_disk rt api c name)
        (get_disk-Settles rt api c time clock calls enough name) _ _ (λ a t w le. (tt, le))
        (λ e s t w le. (s, le))

  -- One round of the wait; each takes the clock on by a reading of it.
  module _ (name holder : Bytes) (t deadline k : ℕ) (again : Eff W (Res (Unit {0})))
      (next : (w : W) → t ≤ time w → k < time w → k ≤ deadline → SettledAt time t (again w)) where
    after_select-SettledAt :
        (o : Option Error) (w : W)
        → SettledStop o
        → t ≤ time w
        → k < time w
        → k ≤ deadline
        → SettledAt time t (after_select rt api c again o w)
    unfolding after_select
    after_select-SettledAt (some e) w s le past early = (s, le)
    after_select-SettledAt none w s le past early =
        let moved = clock.by_sleep 1_000_000_000 w in
        next (rt.sleep 1_000_000_000 w).1 (omega arith) (omega arith) early

    after_grace-SettledAt :
        (late : Bool) (w : W)
        → (late ≡ false → k ≤ deadline)
        → t ≤ time w
        → k < time w
        → SettledAt time t (after_grace rt api c again name holder late w)
    unfolding after_grace
    after_grace-SettledAt true w early le past = detach_from_instance-Settles name holder t w le
    after_grace-SettledAt false w early le past =
        let (stop, w1) = rt.done w in
        let moved = clock.by_done w in
        after_select-SettledAt stop w1 (clock.done_settles w) (omega arith) (omega arith)
          (early refl)

    after_check-SettledAt :
        (r : Res Bool) (w : W)
        → Settled r
        → t ≤ time w
        → k ≤ time w
        → SettledAt time t (after_check rt api c again deadline name holder r w)
    unfolding after_check
    after_check-SettledAt (err e) w s le past = (s, le)
    after_check-SettledAt (ok true) w s le past = (tt, le)
    after_check-SettledAt (ok false) w s le past =
        after_grace-SettledAt (ltb deadline (rt.now w).0) (rt.now w).1
          (λ early. ground (arith, clock.reads w)) (omega (arith, clock.moves w))
          (omega (arith, clock.moves w))

  -- The wait settles with a round for each nanosecond up to the deadline, and two more.
  await_release-SettledAt :
      (n deadline k : ℕ) (name holder : Bytes) (t : ℕ) (w : W)
      → suc deadline < k + n
      → k ≤ suc deadline
      → k ≤ time w
      → t ≤ time w
      → SettledAt time t (await_release rt api c n deadline name holder w)
  unfolding await_release
  await_release-SettledAt zero deadline k name holder t w more few past le =
      let no : ⊥ = omega arith in elim no [ ]
  await_release-SettledAt (suc n) deadline k name holder t w more few past le =
      let r = disk_released_by rt api c name holder w in
      let (s, le1) = disk_released_by-Settles name holder t w le in
      let (_, le2) = disk_released_by-Settles name holder k w past in
      after_check-SettledAt name holder t deadline k (await_release rt api c n deadline name holder)
        (λ w' at past' early.
          await_release-SettledAt n deadline (suc k) name holder t w' (omega arith) (omega arith)
            past' at)
        r.0 r.1 s le1 le2

  module _ (patient : suc c.force_detach_after < rt.rounds) where
    after_detach-Settles :
        (name holder : Bytes) (r : Res (Unit {0}))
        → Settled r
        → Settles time (after_detach rt api c name holder r)
    unfolding after_detach
    after_detach-Settles name holder (err e) s t w le = (s, le)
    after_detach-Settles name holder (ok _) s t w le =
        await_release-SettledAt rt.rounds ((rt.now w).0 + c.force_detach_after) (rt.now w).0 name
          holder t (rt.now w).1 (omega arith) (omega arith)
          (omega (arith, clock.reads w, clock.moves w)) (omega (arith, clock.moves w))

    after_status-Settles :
        (name holder : Bytes) (down : Bool) → Settles time (after_status rt api c name holder down)
    unfolding after_status detach_running
    after_status-Settles name holder true t w le = detach_from_instance-Settles name holder t w le
    after_status-Settles name holder false t w le =
        let r = detach_from_instance rt api c name holder w in
        let (s, le') = detach_from_instance-Settles name holder t w le in
        after_detach-Settles name holder r.0 s t r.1 le'

    after_state-Settles :
        (name holder : Bytes) (r : Res Bytes)
        → Settled r
        → Settles time (after_state rt api c name holder r)
    unfolding after_state finished
    after_state-Settles name holder (err e) s t w le = (s, le)
    after_state-Settles name holder (ok status) s t w le =
        after_status-Settles name holder (is_holder_down status) t w le

    pub ensure_detached_from_holder-Settles :
        (name ref : Bytes) → Settles time (ensure_detached_from_holder rt api c name ref)
    unfolding ensure_detached_from_holder
    ensure_detached_from_holder-Settles name ref t w le =
        let holder = instance_name_from_ref ref in
        let r = instance_state rt api c holder w in
        let (s, le') = instance_state-Settles holder t w le in
        after_state-Settles name holder r.0 s t r.1 le'
