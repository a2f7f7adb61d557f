-- ===== src/Gce/Retry.antt =====
-- gce/retry.go: the retry loop over an unknown world. What it takes from outside is a `Runtime`:
-- the clock, sleeping, the context, the random jitter, and `status.FromError` of grpc. A loop has
-- `rounds` rounds; Retry/Ends shows when they are enough. Durations are in nanoseconds.
pub mod Outcome
pub mod Ends
pub mod Itoa
use docker_plugin_gce_pd.Prelude.{ℕ, zero, suc, ◌+◌, ◌-◌, ◌*◌, ◌/◌, ◌%◌, Bool, true, false, ◌||◌}
use docker_plugin_gce_pd.Prelude.{Option, none, some, [], ◌∷◌, ok, err, ◌==◌, ltb, leb}
use docker_plugin_gce_pd.Prelude.{if◌then◌else◌}
use docker_plugin_gce_pd.Prelude.Bytes.{Bytes}
use docker_plugin_gce_pd.Prelude.Eff.{Eff, ◌>>=◌, return}
use docker_plugin_gce_pd.Errors.{Error, Res, as_googleapi, retry_exhausted, unfinished}

-- A time of the calendar, in UTC.
pub record Civil : Type 0 where
  pub year : ℕ
  pub month : ℕ
  pub day : ℕ
  pub hour : ℕ
  pub minute : ℕ
  pub second : ℕ

pub record Runtime (W : Type 0) : Type 0 where
  pub rounds : ℕ
  -- `time.Now()`, and `time.Now().UTC()` in `nowStamp`
  pub now : Eff W ℕ
  pub utc : Eff W Civil
  -- `rand.Int63n(n)`
  pub int63n : ℕ → Eff W ℕ
  pub sleep : ℕ → Eff W (Unit {0})
  -- `select` on `ctx.Done()` and `time.After`, and on `ctx.Done()` with a default
  pub sleep_or_done : ℕ → Eff W (Option Error)
  pub done : Eff W (Option Error)
  -- `status.FromError`, where it is ok: the code
  pub grpc_code : Error → Option ℕ

-- `multiply` is the product of float64 with Multiplier, converted back.
pub record BackoffConfig : Type 0 where
  pub initial_interval : ℕ
  pub max_interval : ℕ
  pub multiply : ℕ → ℕ
  pub max_elapsed : ℕ

abbrev pub default_backoff : BackoffConfig
default_backoff = record {
  initial_interval = 500_000_000;
  max_interval = 30_000_000_000;
  multiply = λ n. n * 2;
  max_elapsed = 120_000_000_000;
}

-- 429, 500, 502, 503 and 504
unfoldable pub retryable_code : ℕ → Bool
retryable_code c = c == 429 || c == 500 || c == 502 || c == 503 || c == 504

-- `codes.Unavailable`, `ResourceExhausted`, `Aborted` and `Internal`
unfoldable pub retryable_status : ℕ → Bool
retryable_status c = c == 14 || c == 8 || c == 10 || c == 13

unfoldable pub next_interval : BackoffConfig → ℕ → ℕ
next_interval cfg interval =
    if ltb cfg.max_interval (cfg.multiply interval) then cfg.max_interval else cfg.multiply interval

-- The loop of itoa: `room` bytes of the buffer are free in front of those in `b`.
unfoldable pub fill : ℕ → ℕ → Bytes → Bytes
fill zero n b = b
fill (suc room) n b =
    let rest = fill room (n / 10) ((b'0' + n % 10) ∷ b) in if ltb 0 n then rest else b

unfoldable pub itoa : ℕ → Bytes
unfolding fill
itoa n = if n == 0 then b'0' ∷ [] else fill 20 n []

module _ {W : Type 0} (rt : Runtime W) where
  unfoldable pub is_retryable : Error → Bool
  is_retryable e = elim (as_googleapi e) [
    | some code ↦ retryable_code code
    | none ↦ elim (rt.grpc_code e) [ none ↦ false | some code ↦ retryable_status code ]
  ]

  module _ {A : Type 0} (cfg : BackoffConfig) (again : ℕ → ℕ → Eff W (Res A)) where
    -- The end of a round, after the `select`; `again` is the next round, from its attempt and
    -- interval.
    unfoldable pub after_sleep : ℕ → ℕ → Option Error → Eff W (Res A)
    after_sleep attempt interval (some e) = return (err e)
    after_sleep attempt interval none = again (attempt + 1) (next_interval cfg interval)

    -- After the test of the elapsed time.
    unfoldable pub after_clock : ℕ → ℕ → Error → Bool → Eff W (Res A)
    after_clock attempt interval e true = return (err (retry_exhausted (attempt + 1) e))
    after_clock attempt interval e false = do
      pause ← rt.int63n (interval + 1)
      stopped ← rt.sleep_or_done pause
      after_sleep attempt interval stopped

    -- After `isRetryable`.
    unfoldable pub after_error : ℕ → ℕ → ℕ → Error → Bool → Eff W (Res A)
    after_error start attempt interval e false = return (err e)
    after_error start attempt interval e true = do
      t ← rt.now
      after_clock attempt interval e (leb cfg.max_elapsed (t - start))

    -- After the call of `fn`.
    unfoldable pub after_call : ℕ → ℕ → ℕ → Res A → Eff W (Res A)
    after_call start attempt interval (ok a) = return (ok a)
    after_call start attempt interval (err e) =
        after_error start attempt interval e (is_retryable e)

  module _ {A : Type 0} (cfg : BackoffConfig) (fn : Eff W (Res A)) where
    -- The loop, with the rounds left, the start, the attempts so far and the interval.
    unfoldable pub attempt_from : ℕ → ℕ → ℕ → ℕ → Eff W (Res A)
    attempt_from zero start attempt interval = return (err unfinished)
    attempt_from (suc n) start attempt interval = do
      r ← fn
      after_call cfg (attempt_from n start) start attempt interval r

    unfoldable pub retry : Eff W (Res A)
    retry = do start ← rt.now; attempt_from rt.rounds start 0 cfg.initial_interval
