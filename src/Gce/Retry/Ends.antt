-- ===== src/Gce/Retry/Ends.antt =====
-- When the loops of the client end by themselves: on a clock that moves with each reading, with
-- more rounds than nanoseconds to spend.
use docker_plugin_gce_pd.Prelude.{
  ℕ, zero, suc, ◌+◌, ◌-◌, ◌≤◌, ◌<◌, ◌≡◌, refl, Bool, true, false, leb, if◌then◌else◌,
}
use docker_plugin_gce_pd.Prelude.{Option, none, some, ok, err, arith}
use docker_plugin_gce_pd.Prelude.Eff.{Eff}
use docker_plugin_gce_pd.Errors.{Error, Res, retry_exhausted, unfinished, wrapped}
use docker_plugin_gce_pd.Gce.Retry.{
  Runtime, BackoffConfig, is_retryable, next_interval, after_sleep, after_clock, after_error,
  after_call, attempt_from, retry,
}

-- An error of the program, not that of a loop of the model that has used up its rounds.
unfoldable pub finished : Error → Bool
finished unfinished = false
finished (retry_exhausted n e) = finished e
finished (wrapped d e) = finished e
finished e = true

-- A result that no loop has cut short.
abbrev pub Settled : {A : Type 0} → Res A → Type 0
Settled (ok a) = Unit {0}
Settled (err e) = finished e ≡ true

abbrev pub SettledStop : Option Error → Type 0
SettledStop none = Unit {0}
SettledStop (some e) = finished e ≡ true

-- A clock that reads the time of the world, later at each reading, and that nothing sets back.
-- The errors of the context are errors of the program.
pub record Clock {W : Type 0} (rt : Runtime W) (time : W → ℕ) : Type 0 where
  pub reads : (w : W) → (rt.now w).0 ≡ time w
  pub moves : (w : W) → time w < time (rt.now w).1
  pub by_utc : (w : W) → time w ≤ time (rt.utc w).1
  pub by_int63n : (n : ℕ) (w : W) → time w ≤ time (rt.int63n n w).1
  pub by_sleep : (n : ℕ) (w : W) → time w ≤ time (rt.sleep n w).1
  pub by_sleep_or_done : (n : ℕ) (w : W) → time w ≤ time (rt.sleep_or_done n w).1
  pub by_done : (w : W) → time w ≤ time (rt.done w).1
  pub sleep_settles : (n : ℕ) (w : W) → SettledStop (rt.sleep_or_done n w).0
  pub done_settles : (w : W) → SettledStop (rt.done w).0

module _ {W : Type 0} (time : W → ℕ) where
  -- A settled result, not before a time.
  abbrev pub SettledAt : {A : Type 0} → ℕ → Res A × W → Type 0
  SettledAt t r = Settled r.0 × (t ≤ time r.1)

  -- A call that settles and does not set the clock back.
  abbrev pub Settles : {A : Type 0} → Eff W (Res A) → Type 0
  Settles call = (t : ℕ) (w : W) → t ≤ time w → SettledAt t (call w)

  -- The rule for a call whose error and whose value are handled apart.
  pub handled-Settles :
      {A B : Type 0} (r : Res A) (f : A → Eff W (Res B)) (h : Error → Eff W (Res B)) (t : ℕ) (w : W)
      → SettledAt t (r, w)
      → ((a : A) → Settles (f a))
      → ((e : Error) → finished e ≡ true → Settles (h e))
      → SettledAt t ((elim r as (λ x. Eff W (Res B)) [ ok a ↦ f a | err e ↦ h e ]) w)
  handled-Settles (ok a) f h t w (s, le) kf kh = kf a t w le
  handled-Settles (err e) f h t w (s, le) kf kh = kh e s t w le

  pub if-Settles :
      {A : Type 0} (b : Bool) (f h : Eff W (Res A))
      → Settles f
      → Settles h
      → Settles (if b then f else h)
  if-Settles true f h kf kh = kf
  if-Settles false f h kf kh = kh

pub if-Settled :
    {A : Type 0} (b : Bool) (x y : Res A) → Settled x → Settled y → Settled (if b then x else y)
if-Settled true x y sx sy = sx
if-Settled false x y sx sy = sy

pub if-finished :
    (b : Bool) (x y : Error)
    → finished x ≡ true
    → finished y ≡ true
    → finished (if b then x else y) ≡ true
if-finished true x y sx sy = sx
if-finished false x y sx sy = sy

module _ {W A : Type 0} (rt : Runtime W) (cfg : BackoffConfig) (fn : Eff W (Res A)) (time : W → ℕ)
    (clock : Clock rt time) (settles : Settles time fn) where
  module _ (t k start : ℕ) (from : t ≤ start) (again : ℕ → ℕ → Eff W (Res A))
      (next : (a i : ℕ) (w : W)
        → suc k ≤ cfg.max_elapsed
        → start + suc k ≤ time w
        → SettledAt time t (again a i w)) where
    after_sleep-SettledAt :
        (a i : ℕ) (o : Option Error) (w : W)
        → SettledStop o
        → suc k ≤ cfg.max_elapsed
        → start + suc k ≤ time w
        → SettledAt time t (after_sleep rt cfg again a i o w)
    unfolding after_sleep
    after_sleep-SettledAt a i (some e) w s lt past = (s, omega arith)
    after_sleep-SettledAt a i none w s lt past = next (a + 1) (next_interval cfg i) w lt past

    after_clock-SettledAt :
        (a i : ℕ) (e : Error) (late : Bool) (w : W)
        → finished e ≡ true
        → (late ≡ false → suc k ≤ cfg.max_elapsed)
        → start + suc k ≤ time w
        → SettledAt time t (after_clock rt cfg again a i e late w)
    unfolding after_clock finished
    after_clock-SettledAt a i e true w s lt past = (s, omega arith)
    after_clock-SettledAt a i e false w s lt past =
        let (pause, w1) = rt.int63n (i + 1) w in
        let (stop, w2) = rt.sleep_or_done pause w1 in
        after_sleep-SettledAt a i stop w2 (clock.sleep_settles pause w1) (lt refl)
          (omega (arith, clock.by_int63n (i + 1) w, clock.by_sleep_or_done pause w1))

    after_error-SettledAt :
        (a i : ℕ) (e : Error) (b : Bool) (w : W)
        → finished e ≡ true
        → start + k ≤ time w
        → SettledAt time t (after_error rt cfg again start a i e b w)
    unfolding after_error
    after_error-SettledAt a i e false w s past = (s, omega arith)
    after_error-SettledAt a i e true w s past =
        after_clock-SettledAt a i e (leb cfg.max_elapsed ((rt.now w).0 - start)) (rt.now w).1 s
          (λ early. ground (arith, clock.reads w)) (omega (arith, clock.moves w))

    after_call-SettledAt :
        (a i : ℕ) (r : Res A) (w : W)
        → Settled r
        → start + k ≤ time w
        → SettledAt time t (after_call rt cfg again start a i r w)
    unfolding after_call
    after_call-SettledAt a i (ok v) w s past = (tt, omega arith)
    after_call-SettledAt a i (err e) w s past =
        after_error-SettledAt a i e (is_retryable rt e) w s past

  -- With at least `k` nanoseconds gone, and rounds for more than the rest, the loop settles.
  attempt_from-SettledAt :
      (n k start a i t : ℕ) (w : W)
      → cfg.max_elapsed < k + n
      → k ≤ cfg.max_elapsed
      → start + k ≤ time w
      → t ≤ start
      → SettledAt time t (attempt_from rt cfg fn n start a i w)
  unfolding attempt_from
  attempt_from-SettledAt zero k start a i t w more few past from =
      let no : ⊥ = omega arith in elim no [ ]
  attempt_from-SettledAt (suc n) k start a i t w more few past from =
      let (s, le) = settles (start + k) w past in
      after_call-SettledAt t k start from (attempt_from rt cfg fn n start)
        (λ a' i' w' lt past'.
          attempt_from-SettledAt n (suc k) start a' i' t w' (omega arith) lt past' from)
        a i (fn w).0 (fn w).1 s le

  -- On a clock that moves with each reading, a call that settles is one that settles when it is
  -- retried, if the loop has more rounds than MaxElapsed has nanoseconds.
  pub retry-Settles : cfg.max_elapsed < rt.rounds → Settles time (retry rt cfg fn)
  unfolding retry
  retry-Settles enough t w le =
      attempt_from-SettledAt rt.rounds 0 (rt.now w).0 0 cfg.initial_interval t (rt.now w).1
        (omega arith) (omega arith) (omega (arith, clock.reads w, clock.moves w))
        (omega (arith, clock.reads w))
