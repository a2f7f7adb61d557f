-- ===== src/Gce/Retry/Itoa.antt =====
-- itoa writes the decimal digits of a number, as they are read back.
use Prim.Native.Nat.{ℕ}
use docker_plugin_gce_pd.Prelude.{
  zero, suc, ◌+◌, ◌-◌, ◌*◌, ◌/◌, ◌%◌, ◌^◌, ◌<◌, ◌≡◌, ap, ◌∙◌, some, [], ◌∷◌, arith,
}
use docker_plugin_gce_pd.Prelude.{Bool-cases, inl, inr, ◌==◌, ltb}
use docker_plugin_gce_pd.Prelude.Bytes.{Bytes}
use native.Mathlib.Nat.{pow-suc}
use docker_plugin_gce_pd.Gce.Options.{digits}
use docker_plugin_gce_pd.Gce.Retry.{fill, itoa}

digits-digit : (n : ℕ) (b : Bytes) → digits (n / 10) ((b'0' + n % 10) ∷ b) ≡ digits n b
unfolding digits
digits-digit n b =
    let back : n / 10 * 10 + (b'0' + n % 10 - b'0') ≡ n = omega arith in rw back (ground arith)

pub tenth : (room n : ℕ) → n < 10 ^ suc room → n / 10 < 10 ^ room
tenth room n h = let h' : n < 10 ^ room * 10 = rw (pow-suc) at h in omega arith

digits-fill : (room n : ℕ) (b : Bytes) → n < 10 ^ room → digits 0 (fill room n b) ≡ digits n b
unfolding fill
digits-fill zero n b h = ap (λ (k : ℕ). digits k b) (omega arith)
digits-fill (suc room) n b h = elim (Bool-cases (ltb 0 n)) [
  | inl more ↦
      rw more (digits-fill room (n / 10) ((b'0' + n % 10) ∷ b) (tenth room n h) ∙ digits-digit n b)
  | inr done ↦ rw done (ap (λ (k : ℕ). digits k b) (ground arith))
]

-- itoa writes a number with at most twenty digits, as every int64 that is not negative has, so that
-- reading its decimal digits gives the number back.
pub digits-itoa : (n : ℕ) → n < 10 ^ 20 → digits 0 (itoa n) ≡ some n
unfolding itoa digits
digits-itoa n h = elim (Bool-cases (n == 0)) [
  | inl none' ↦ rw none' (ap some (ground arith))
  | inr some' ↦ rw some' (digits-fill 20 n [] h)
]
