-- ===== src/Prelude/Map.antt =====
-- Go maps with string keys, as association lists. `m[k] = v` keeps the place of an old entry;
-- nothing in the program depends on the place, since a Go map has no order.
use mathlib.Core.Path.{◌≡◌, refl, subst}
use mathlib.Core.Logic.{inl, inr}
use mathlib.Core.Bool.{Bool, true, false}
use mathlib.Core.Option.{Option, none, some, some-injective}
use mathlib.Core.List.{List, [], ◌∷◌}
use native.Mathlib.Omega.{arith}
use docker_plugin_gce_pd.Prelude.Tests.{if◌then◌else◌, Bool-cases}
use docker_plugin_gce_pd.Prelude.Bytes.{Bytes, str_eq, str_eq_iff, str_eq→eq}

abbrev pub Map {ℓ} : Type ℓ → Type ℓ
Map V = List (Bytes × V)

abbrev pub keys {ℓ} : {V : Type ℓ} → Map V → List Bytes
keys [] = []
keys ((k, v) ∷ m) = k ∷ keys m

abbrev pub is_some {ℓ} : {V : Type ℓ} → Option V → Bool
is_some none = false
is_some (some v) = true

module _ {ℓ} {V : Type ℓ} where
  -- `v, ok := m[k]`
  unfoldable pub lookup : Bytes → Map V → Option V
  lookup k [] = none
  lookup k ((j, v) ∷ m) = if str_eq j k then some v else lookup k m

  -- `m[k] = v`
  unfoldable pub insert : Bytes → V → Map V → Map V
  insert k v [] = (k, v) ∷ []
  insert k v ((j, w) ∷ m) = if str_eq j k then (k, v) ∷ m else (j, w) ∷ insert k v m

  -- `delete(m, k)`
  unfoldable pub erase : Bytes → Map V → Map V
  erase k [] = []
  erase k ((j, w) ∷ m) = let rest = erase k m in if str_eq j k then rest else (j, w) ∷ rest

  pub lookup-insert :
      (j k : Bytes) (v : V) (m : Map V)
      → lookup j (insert k v m) ≡ (if str_eq k j then some v else lookup j m)
  unfolding lookup insert
  lookup-insert j k v [] = refl
  lookup-insert j k v ((i, w) ∷ m) =
      ground (arith, str_eq_iff k j, str_eq_iff i k, str_eq_iff i j, lookup-insert j k v m)

  pub lookup-erase :
      (j k : Bytes) (m : Map V) → lookup j (erase k m) ≡ (if str_eq k j then none else lookup j m)
  unfolding lookup erase
  lookup-erase j k [] = ground arith
  lookup-erase j k ((i, w) ∷ m) =
      ground (arith, str_eq_iff k j, str_eq_iff i k, str_eq_iff i j, lookup-erase j k m)

  pub lookup-nil : (j : Bytes) → lookup j [] ≡ none
  unfolding lookup
  lookup-nil j = refl

  -- No key is listed twice.
  abbrev pub NodupKeys : Map V → Type ℓ
  NodupKeys [] = Unit
  NodupKeys ((k, v) ∷ m) = (lookup k m ≡ none) × NodupKeys m

  pub insert-NodupKeys : (k : Bytes) (v : V) (m : Map V) → NodupKeys m → NodupKeys (insert k v m)
  unfolding insert lookup
  insert-NodupKeys k v [] _ = (refl, tt)
  insert-NodupKeys k v ((j, w) ∷ m) (fresh, u) =
      ground
        (arith, insert-NodupKeys k v m u, lookup-insert j k v m, str_eq_iff j k, str_eq_iff k j)

  pub erase-NodupKeys : (k : Bytes) (m : Map V) → NodupKeys m → NodupKeys (erase k m)
  unfolding erase lookup
  erase-NodupKeys k [] _ = tt
  erase-NodupKeys k ((j, w) ∷ m) (fresh, u) =
      ground (arith, erase-NodupKeys k m u, lookup-erase j k m)

pub ruleset map_laws = (lookup-nil, lookup-insert, lookup-erase)

module _ {ℓ κ} {V : Type ℓ} (P : Bytes → V → Type κ) where
  -- Every entry has the property.
  abbrev pub EachOf : Map V → Type κ
  EachOf [] = Unit
  EachOf ((k, v) ∷ m) = P k v × EachOf m

  pub lookup-EachOf : (k : Bytes) (v : V) (m : Map V) → EachOf m → lookup k m ≡ some v → P k v
  unfolding lookup
  lookup-EachOf k v [] _ e = cc
  lookup-EachOf k v ((j, w) ∷ m) (p, ps) e = elim (Bool-cases (str_eq j k)) [
    | inl same ↦
        let found : w ≡ v = some-injective w v (rw same at e) in
        subst (λ i. P i v) (str_eq→eq j k same) (subst (λ u. P j u) found p)
    | inr other ↦ lookup-EachOf k v m ps (rw other at e)
  ]

  pub insert-EachOf : (k : Bytes) (v : V) (m : Map V) → P k v → EachOf m → EachOf (insert k v m)
  unfolding insert
  insert-EachOf k v [] p _ = (p, tt)
  insert-EachOf k v ((j, w) ∷ m) p (q, ps) = elim (Bool-cases (str_eq j k)) [
    | inl same ↦ rw same (p, ps)
    | inr other ↦ rw other (q, insert-EachOf k v m p ps)
  ]

  pub erase-EachOf : (k : Bytes) (m : Map V) → EachOf m → EachOf (erase k m)
  unfolding erase
  erase-EachOf k [] _ = tt
  erase-EachOf k ((j, w) ∷ m) (q, ps) = elim (Bool-cases (str_eq j k)) [
    | inl same ↦ rw same (erase-EachOf k m ps)
    | inr other ↦ rw other (q, erase-EachOf k m ps)
  ]
