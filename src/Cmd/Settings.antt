-- ===== src/Cmd/Settings.antt =====
-- What the environment may set: the window before a forced detach.
use docker_plugin_gce_pd.Prelude.{
  ℕ, zero, suc, ◌+◌, ◌-◌, ◌*◌, ◌/◌, ◌%◌, ◌^◌, ◌<◌, ◌≤◌, ◌≡◌, refl, ap, ◌∙◌, some, none, Option, [],
  ◌∷◌, ◌++◌, ok, arith, ltb, Bool-cases, inl, inr, length,
}
use docker_plugin_gce_pd.Prelude.Bytes.{Bytes, codes, str_eq}
use docker_plugin_gce_pd.Gce.Retry.{fill, itoa}
use docker_plugin_gce_pd.Gce.Retry.Itoa.{tenth}
use docker_plugin_gce_pd.Cmd.Durations.{
  Duration, leading_int, parse_duration, parse_unsigned, sum_parts, next_part, after_int, with_unit,
  add_fraction, unit_name, unit_of, add_part, after_sum,
}
use docker_plugin_gce_pd.Cmd.Config.{resolve_force_detach_after, checked_duration}
use docker_plugin_gce_pd.Prelude.{true}
use docker_plugin_gce_pd.Prelude.{Bool}
use docker_plugin_gce_pd.Prelude.{false}
use docker_plugin_gce_pd.Prelude.{◌⊎◌}

-- Not negative, unless it says so.
abbrev InRange : Duration → Type 0
InRange d = (d.negative ≡ true) ⊎ (d.nanoseconds < 2 ^ 63)

after_sum-InRange :
    (neg : Bool) (o : Option ℕ) (d : Duration) → after_sum neg o ≡ some d → InRange d
unfolding after_sum
after_sum-InRange neg none d h = cc
after_sum-InRange true (some n) d h = inl ground arith
after_sum-InRange false (some n) d h = inr ground arith

parse_unsigned-InRange :
    (fraction : ℕ → ℕ → ℕ → ℕ) (neg : Bool) (s : Bytes) (d : Duration)
    → parse_unsigned fraction neg s ≡ some d
    → InRange d
unfolding parse_unsigned
parse_unsigned-InRange fraction neg s d h =
    ground (arith, after_sum-InRange neg (sum_parts fraction (length s) 0 s) d)

parse_duration-InRange :
    (fraction : ℕ → ℕ → ℕ → ℕ) (s : Bytes) (d : Duration)
    → parse_duration fraction s ≡ some d
    → InRange d
unfolding parse_duration
parse_duration-InRange fraction [] d h = cc
parse_duration-InRange fraction (b ∷ bs) d h = ground (
  arith,
  parse_unsigned-InRange fraction true bs d,
  parse_unsigned-InRange fraction false bs d,
  parse_unsigned-InRange fraction false (b ∷ bs) d,
)

checked_duration-bounded :
    (v : Bytes) (o : Option Duration) (n : ℕ)
    → ((d : Duration) → o ≡ some d → InRange d)
    → checked_duration v o ≡ ok n
    → n < 2 ^ 63
unfolding checked_duration
checked_duration-bounded v none n r h = cc
checked_duration-bounded v (some d) n r h = elim (r d refl) [
  | inl neg ↦ ground arith
  | inr small ↦ ground arith
]

-- A window that the environment sets is an int64 that is not negative, whatever the float64
-- arithmetic gives.
pub resolve_force_detach_after-bounded :
    (fraction : ℕ → ℕ → ℕ → ℕ) (v : Bytes) (n : ℕ)
    → resolve_force_detach_after fraction v ≡ ok n
    → n < 2 ^ 63
unfolding resolve_force_detach_after
resolve_force_detach_after-bounded fraction v n h = elim (Bool-cases (str_eq v [])) [
  | inl unset ↦ ground arith
  | inr set ↦
      checked_duration-bounded v (parse_duration fraction v) n (parse_duration-InRange fraction v)
        (ground arith)
]

leading_int-digit :
    (n : ℕ) (b : Bytes) → n ≤ 2 ^ 63 → leading_int (n / 10) ((b'0' + n % 10) ∷ b) ≡ leading_int n b
unfolding leading_int
leading_int-digit n b h =
    let back : n / 10 * 10 + (b'0' + n % 10 - b'0') ≡ n = omega arith in rw back (ground arith)

leading_int-fill :
    (room n : ℕ) (b : Bytes)
    → n < 10 ^ room
    → n ≤ 2 ^ 63
    → leading_int 0 (fill room n b) ≡ leading_int n b
unfolding fill
leading_int-fill zero n b h k = ap (λ (i : ℕ). leading_int i b) (omega arith)
leading_int-fill (suc room) n b h k = elim (Bool-cases (ltb 0 n)) [
  | inl more ↦ rw more (
      leading_int-fill room (n / 10) ((b'0' + n % 10) ∷ b) (tenth room n h) (omega arith)
      ∙ leading_int-digit n b k)
  | inr done ↦ rw done (ap (λ (i : ℕ). leading_int i b) (ground arith))
]

fill-append : (room n : ℕ) (b t : Bytes) → fill room n b ++ t ≡ fill room n (b ++ t)
unfolding fill
fill-append zero n b t = refl
fill-append (suc room) n b t = ground (arith, fill-append room (n / 10) ((b'0' + n % 10) ∷ b) t)

itoa-suc : (k : ℕ) → itoa (suc k) ≡ fill 20 (suc k) []
unfolding itoa fill
itoa-suc k = ground arith

leading_int-unit : (n : ℕ) → leading_int n (codes "s") ≡ some (n, codes "s")
unfolding leading_int
leading_int-unit n = refl

module _ (fraction : ℕ → ℕ → ℕ → ℕ) where
  add_fraction-whole :
      (n : ℕ)
      → n * 1_000_000_000 < 2 ^ 63
      → add_fraction fraction n (0, 1) 1_000_000_000 ≡ some (n * 1_000_000_000)
  unfolding add_fraction
  add_fraction-whole n lt = ground arith

  with_unit-seconds :
      (n : ℕ)
      → n * 1_000_000_000 < 2 ^ 63
      → with_unit fraction 0 n (0, 1) (codes "s", []) ≡ some (n * 1_000_000_000, [])
  unfolding with_unit unit_of add_part str_eq
  with_unit-seconds n lt = rw (with_unit, add_fraction-whole n lt) (ground arith)

  next_part-seconds :
      (s : Bytes) (n : ℕ)
      → leading_int 0 s ≡ some (n, codes "s")
      → 1 < length s
      → n * 1_000_000_000 < 2 ^ 63
      → next_part fraction 0 s ≡ some (n * 1_000_000_000, [])
  unfolding next_part after_int unit_name
  next_part-seconds s n h long lt = rw (next_part, h) (ground (arith, with_unit-seconds n lt))

  unsigned-seconds :
      (b c : ℕ) (t : Bytes) (n : ℕ)
      → next_part fraction 0 (b ∷ c ∷ t) ≡ some (n * 1_000_000_000, [])
      → n * 1_000_000_000 < 2 ^ 63
      → parse_unsigned fraction false (b ∷ c ∷ t)
        ≡ some (record { negative = false; nanoseconds = n * 1_000_000_000 })
  unfolding parse_unsigned sum_parts after_sum str_eq
  unsigned-seconds b c t n h lt = ground (arith, h)

  -- A positive number and its unit.
  seconds_lem :
      (s : Bytes) (k : ℕ)
      → leading_int 0 s ≡ some (suc k, codes "s")
      → suc k * 1_000_000_000 < 2 ^ 63
      → resolve_force_detach_after fraction s ≡ ok (suc k * 1_000_000_000)
  unfolding resolve_force_detach_after checked_duration parse_duration str_eq leading_int
  seconds_lem [] k h lt = cc
  seconds_lem (b ∷ []) k h lt = ground arith
  seconds_lem (b ∷ c ∷ t) k h lt =
      let next = next_part-seconds (b ∷ c ∷ t) (suc k) h (omega arith) lt in
      let whole = unsigned-seconds b c t (suc k) next lt in
      let starts : (b ≡ b'-' → ⊥) × (b ≡ b'+' → ⊥) = ground arith in ground (arith, whole)

-- A whole number of seconds, as the window may be written, is read as that many nanoseconds where
-- it fits into an int64.
pub resolve_force_detach_after-seconds :
    (fraction : ℕ → ℕ → ℕ → ℕ) (n : ℕ)
    → n * 1_000_000_000 < 2 ^ 63
    → resolve_force_detach_after fraction (itoa n ++ codes "s") ≡ ok (n * 1_000_000_000)
resolve_force_detach_after-seconds fraction zero lt =
    unfold resolve_force_detach_after checked_duration parse_duration parse_unsigned sum_parts
      next_part after_int with_unit add_fraction add_part after_sum unit_name unit_of itoa
      leading_int str_eq in
    refl
resolve_force_detach_after-seconds fraction (suc k) lt =
    seconds_lem fraction (itoa (suc k) ++ codes "s") k
      (rw (itoa-suc, fill-append)
        (leading_int-fill 20 (suc k) (codes "s") (omega arith) (omega arith)
          ∙ leading_int-unit (suc k)))
      lt
