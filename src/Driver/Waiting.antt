-- ===== src/Driver/Waiting.antt =====
-- driver.go: WaitBackground. It blocks while the counter of the WaitGroup is not zero, and
-- meanwhile the goroutines of deleteInBackground that are not done run to their ends, in an order
-- that the scheduler chooses. Each of them is one step here: the mix of their phases is in
-- Driver/Interleaved. A counter that the goroutines do not bring to zero would block for ever;
-- here it is what `bg` is at the end.
use docker_plugin_gce_pd.Prelude.{
  ℕ, zero, suc, ◌<◌, ◌%◌, ◌≡◌, refl, sym, ◌∙◌, ap, some, List, [], ◌∷◌, length, arith,
  if◌then◌else◌, ◌==◌, false, ◌-◌,
}
use mathlib.Core.Path.{subst}
use mathlib.Core.List.{Perm}
use mathlib.Core.List.Perm
use native.Mathlib.Nat.{mod-lt, zero-lt-suc}
use docker_plugin_gce_pd.Driver.Interface.{GceClient, Mounter, Task, Driver}
use docker_plugin_gce_pd.Driver.Lifecycle.{take_task, put_back, run_background}
use docker_plugin_gce_pd.Prelude.{ℕ}

take_task-Perm :
    (i : ℕ) (ts : List Task)
    → i < length ts
    → (t : Task) × (rest : List Task) × (take_task i ts ≡ some (t, rest))
      × (length ts ≡ suc (length rest))
      × Perm (t ∷ rest) ts
unfolding take_task
take_task-Perm i [] lt = let no : ⊥ = omega arith in elim no [ ]
take_task-Perm zero (t ∷ ts) lt = (t, ts, refl, refl, Perm.rfl)
take_task-Perm (suc i) (t ∷ ts) lt =
    let (u, rest, took, len, perm) = take_task-Perm i ts (omega arith) in
    (
      u,
      t ∷ rest,
      ap (put_back t) took,
      ap suc len,
      Perm.trans (Perm.swap t u rest) (Perm.cons t perm),
    )

length-zero : {A : Type 0} (xs : List A) → length xs ≡ 0 → xs ≡ []
length-zero [] e = refl
length-zero (x ∷ xs) e = let no : ⊥ = omega arith in elim no [ ]

-- The WaitGroup counts the goroutines that are not done.
abbrev pub IsCounted : {W : Type 0} → Driver W → Type 0
IsCounted d = d.bg ≡ length d.background

module _ {W : Type 0} (g : GceClient W) (m : Mounter W) where
  -- While the counter is not zero, the next goroutine that `pick` chooses runs to its end, at
  -- most so often.
  unfoldable pub finish : ℕ → (List Task → ℕ) → Driver W → Driver W
  finish zero pick d = d
  finish (suc n) pick d =
      finish n pick
        (if d.bg == 0 then d else run_background g m (pick d.background % length d.background) d)

  -- WaitBackground
  unfoldable pub wait_background : (List Task → ℕ) → Driver W → Driver W
  unfolding finish
  wait_background pick d = finish (length d.background) pick d

  -- The calls of DeleteDisk for these tasks, one after the other.
  abbrev pub delete_each : List Task → W → W
  delete_each [] w = w
  delete_each (t ∷ ts) w = delete_each ts (g.delete_disk t.name t.snapshot_first w).1

  -- All of them have run, in this order.
  abbrev pub Finished : Driver W → Driver W → List Task → Type 0
  Finished d d' order =
      Perm order d.background
      × (d'.background ≡ [])
      × (d'.bg ≡ 0)
      × (d'.store ≡ d.store)
      × (d'.world ≡ delete_each order d.world)

  pub run_background-taken :
      (i : ℕ) (t : Task) (rest : List Task) (d : Driver W)
      → take_task i d.background ≡ some (t, rest)
      → run_background g m i d ≡ record d {
        background = rest;
        world = (g.delete_disk t.name t.snapshot_first d.world).1;
        bg = d.bg - 1;
      }
  unfolding run_background
  run_background-taken i t rest d took = rw (run_background, took) refl

  finish-Finished :
      (n : ℕ) (pick : List Task → ℕ) (d : Driver W)
      → length d.background ≡ n
      → IsCounted d
      → (order : List Task) × Finished d (finish n pick d) order
  unfolding finish
  finish-Finished zero pick d len counted =
      let none_left = length-zero d.background len in
      (
        [],
        (subst (Perm []) (sym none_left) Perm.nil, none_left, omega (arith, counted), refl, refl),
      )
  finish-Finished (suc n) pick d len counted =
      let i = pick d.background % length d.background in
      let (t, rest, took, shorter, perm) =
        take_task-Perm i d.background (rw len (mod-lt (pick d.background) (zero-lt-suc n))) in
      let d' = record d {
        background = rest;
        world = (g.delete_disk t.name t.snapshot_first d.world).1;
        bg = d.bg - 1;
      } in
      let (order, (perm', done, zeroed, kept, called)) =
        finish-Finished n pick d' (omega arith) (omega (arith, counted)) in
      let ran : run_background g m i d ≡ d' = run_background-taken i t rest d took in
      let some_left : (d.bg == 0) ≡ false = ground (arith, counted) in
      let same : finish (suc n) pick d ≡ finish n pick d' =
        ap (λ b. finish n pick (if b then d else run_background g m i d)) some_left
        ∙ ap (finish n pick) ran in
      (
        t ∷ order,
        (
          Perm.trans (Perm.cons t perm') perm,
          ap (λ (e : Driver W). e.background) same ∙ done,
          ap (λ (e : Driver W). e.bg) same ∙ zeroed,
          ap (λ (e : Driver W). e.store) same ∙ kept,
          ap (λ (e : Driver W). e.world) same ∙ called,
        ),
      )

  pub wait_background-counted :
      (pick : List Task → ℕ) (d : Driver W)
      → IsCounted d
      → (order : List Task) × Finished d (wait_background pick d) order
  unfolding wait_background
  wait_background-counted pick d counted = finish-Finished (length d.background) pick d refl counted
