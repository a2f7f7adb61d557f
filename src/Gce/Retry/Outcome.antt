-- ===== src/Gce/Retry/Outcome.antt =====
-- What the retry loop returns, and what it keeps.
use docker_plugin_gce_pd.Prelude.{ℕ, zero, suc, ◌+◌, ◌≡◌, refl, Bool, true, false}
use docker_plugin_gce_pd.Prelude.{Option, none, some, ok, err, if◌then◌else◌}
use docker_plugin_gce_pd.Prelude.Eff.{Eff}
use docker_plugin_gce_pd.Errors.{Error, Res, retry_exhausted, unfinished}
use docker_plugin_gce_pd.Gce.Retry.{
  Runtime, BackoffConfig, is_retryable, next_interval, after_sleep, after_clock, after_error,
  after_call, attempt_from, retry,
}

-- A property of the world that the runtime keeps.
pub record Quiet {W : Type 0} (rt : Runtime W) (P : W → Type 0) : Type 0 where
  pub by_now : (w : W) → P w → P (rt.now w).1
  pub by_utc : (w : W) → P w → P (rt.utc w).1
  pub by_int63n : (n : ℕ) (w : W) → P w → P (rt.int63n n w).1
  pub by_sleep : (n : ℕ) (w : W) → P w → P (rt.sleep n w).1
  pub by_sleep_or_done : (n : ℕ) (w : W) → P w → P (rt.sleep_or_done n w).1
  pub by_done : (w : W) → P w → P (rt.done w).1

-- A call that keeps a property.
abbrev pub Keeps : {W A : Type 0} → (W → Type 0) → Eff W A → Type 0
Keeps {W} P call = (w : W) → P w → P (call w).1

-- The rule for a call whose error and whose value are handled apart.
pub handled-Keeps :
    {W A B : Type 0} (P : W → Type 0) (r : Res A) (f : A → Eff W B) (h : Error → Eff W B) (w : W)
    → P w
    → ((a : A) → Keeps P (f a))
    → ((e : Error) → Keeps P (h e))
    → P ((elim r as (λ x. Eff W B) [ ok a ↦ f a | err e ↦ h e ]) w).1
handled-Keeps P (ok a) f h w p kf kh = kf a w p
handled-Keeps P (err e) f h w p kf kh = kh e w p

pub if-Keeps :
    {W A : Type 0} (P : W → Type 0) (b : Bool) (f h : Eff W A)
    → Keeps P f
    → Keeps P h
    → Keeps P (if b then f else h)
if-Keeps P true f h kf kh = kf
if-Keeps P false f h kf kh = kh

module _ {W A : Type 0} (rt : Runtime W) (cfg : BackoffConfig) (fn : Eff W (Res A)) where
  -- Why the loop returned what it returned.
  pub data Explained : Res A → Type 0 where
    succeeded : (w : W) (a : A) → (fn w).0 ≡ ok a → Explained (ok a)
    refused : (w : W) (e : Error) → (fn w).0 ≡ err e → is_retryable rt e ≡ false → Explained (err e)
    gave_up :
        (w : W) (e : Error) (attempts : ℕ)
        → (fn w).0 ≡ err e
        → is_retryable rt e ≡ true
        → Explained (err (retry_exhausted attempts e))
    stopped : (w : W) (n : ℕ) (e : Error) → (rt.sleep_or_done n w).0 ≡ some e → Explained (err e)
    ran_out : Explained (err unfinished)

  module _ (P : W → Type 0) (again : ℕ → ℕ → Eff W (Res A))
      (next : (a i : ℕ) (w : W) → P w → Explained (again a i w).0 × P (again a i w).1)
      (quiet : Quiet rt P) where
    abbrev Good : Res A × W → Type 0
    Good r = Explained r.0 × P r.1

    after_sleep-Good :
        (a i n : ℕ) (o : Option Error) (w0 w : W)
        → (rt.sleep_or_done n w0).0 ≡ o
        → P w
        → Good (after_sleep rt cfg again a i o w)
    unfolding after_sleep
    after_sleep-Good a i n (some e) w0 w h p = (stopped w0 n e h, p)
    after_sleep-Good a i n none w0 w h p = next (a + 1) (next_interval cfg i) w p

    after_clock-Good :
        (a i : ℕ) (e : Error) (late : Bool) (w0 w : W)
        → (fn w0).0 ≡ err e
        → is_retryable rt e ≡ true
        → P w
        → Good (after_clock rt cfg again a i e late w)
    unfolding after_clock
    after_clock-Good a i e true w0 w h r p = (gave_up w0 e (a + 1) h r, p)
    after_clock-Good a i e false w0 w h r p =
        let (pause, w1) = rt.int63n (i + 1) w in
        let (stop, w2) = rt.sleep_or_done pause w1 in
        after_sleep-Good a i pause stop w1 w2 refl
          (quiet.by_sleep_or_done pause w1 (quiet.by_int63n (i + 1) w p))

    after_error-Good :
        (start a i : ℕ) (e : Error) (b : Bool) (w0 w : W)
        → (fn w0).0 ≡ err e
        → is_retryable rt e ≡ b
        → P w
        → Good (after_error rt cfg again start a i e b w)
    unfolding after_error
    after_error-Good start a i e false w0 w h r p = (refused w0 e h r, p)
    after_error-Good start a i e true w0 w h r p =
        after_clock-Good a i e _ w0 (rt.now w).1 h r (quiet.by_now w p)

    after_call-Good :
        (start a i : ℕ) (r : Res A) (w0 w : W)
        → (fn w0).0 ≡ r
        → P w
        → Good (after_call rt cfg again start a i r w)
    unfolding after_call
    after_call-Good start a i (ok x) w0 w h p = (succeeded w0 x h, p)
    after_call-Good start a i (err e) w0 w h p =
        after_error-Good start a i e (is_retryable rt e) w0 w h refl p

  module _ (P : W → Type 0) (quiet : Quiet rt P) (kept : Keeps P fn) where
    attempt_from-Good :
        (n start a i : ℕ) (w : W)
        → P w
        → Explained (attempt_from rt cfg fn n start a i w).0
          × P (attempt_from rt cfg fn n start a i w).1
    unfolding attempt_from
    attempt_from-Good zero start a i w p = (ran_out, p)
    attempt_from-Good (suc n) start a i w p =
        after_call-Good P (attempt_from rt cfg fn n start) (attempt_from-Good n start) quiet start a
          i (fn w).0 w (fn w).1 refl (kept w p)

    -- A property of the world that a call and the runtime keep is kept by the call, retried.
    pub retry-Keeps : Keeps P (retry rt cfg fn)
    unfolding retry
    retry-Keeps w p =
        (attempt_from-Good rt.rounds (rt.now w).0 0 cfg.initial_interval (rt.now w).1
          (quiet.by_now w p)).1

abbrev Anywhere : (W : Type 0) → W → Type 0
Anywhere W w = Unit

-- The loop returns what the call returned when it succeeded or failed with an error that is not
-- worth a retry; or an error of the call that is worth a retry, wrapped with a number of attempts;
-- or the error of the context; or the error that it has run out of rounds.
pub retry-Explained :
    {W A : Type 0} (rt : Runtime W) (cfg : BackoffConfig) (fn : Eff W (Res A)) (w : W)
    → Explained rt cfg fn (retry rt cfg fn w).0
unfolding retry
retry-Explained {W} rt cfg fn w =
    (attempt_from-Good rt cfg fn (Anywhere W)
      (record {
        by_now = λ v _. tt;
        by_utc = λ v _. tt;
        by_int63n = λ n v _. tt;
        by_sleep = λ n v _. tt;
        by_sleep_or_done = λ n v _. tt;
        by_done = λ v _. tt;
      })
      (λ v _. tt) rt.rounds (rt.now w).0 0 cfg.initial_interval (rt.now w).1 tt).0
