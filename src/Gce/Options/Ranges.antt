-- ===== src/Gce/Options/Ranges.antt =====
-- Every order in which Go may range over the map of a request.
use mathlib.Core.Path.{subst}
use mathlib.Core.List.{Permᴰ}
use docker_plugin_gce_pd.Prelude.{◌≡◌, ◌≢◌, refl, sym, ◌∙◌, ap, Option, none, some, [], ◌∷◌, ok}
use docker_plugin_gce_pd.Prelude.Bytes.{Bytes, to_lower}
use docker_plugin_gce_pd.Prelude.Map.{Map}
use docker_plugin_gce_pd.Gce.Options.{
  DiskOptions, default_options, check_sources, parse_disk_options,
}
use docker_plugin_gce_pd.Gce.Options.Order.{
  shown, applied, setting_of, runs, runs-swap, then_same, parse_disk_options-shown, shown_ok,
}

-- No key of the map differs from this one in case only.
abbrev pub Fresh : Bytes → Map Bytes → Type 0
Fresh j [] = Unit
Fresh j (e ∷ raw) = (to_lower j ≢ to_lower e.0) × Fresh j raw

-- No two keys of the map differ in case only.
abbrev pub HasNoClash : Map Bytes → Type 0
HasNoClash [] = Unit
HasNoClash (e ∷ raw) = Fresh e.0 raw × HasNoClash raw

Fresh-perm : (j : Bytes) {a b : Map Bytes} → Permᴰ a b → Fresh j a → Fresh j b
Fresh-perm j Permᴰ.nil h = tt
Fresh-perm j (Permᴰ.cons e p) (n, h) =
    (subst (λ x. to_lower j ≢ to_lower x.0) e n, Fresh-perm j p h)
Fresh-perm j (Permᴰ.swap e f) (n, (n', h)) =
    (subst (λ x. to_lower j ≢ to_lower x.0) f n', (subst (λ x. to_lower j ≢ to_lower x.0) e n, h))
Fresh-perm j (Permᴰ.trans p q) h = Fresh-perm j q (Fresh-perm j p h)

HasNoClash-perm : {a b : Map Bytes} → Permᴰ a b → HasNoClash a → HasNoClash b
HasNoClash-perm Permᴰ.nil h = tt
HasNoClash-perm (Permᴰ.cons {b = y} {l₂ = l} e p) (f, h) =
    (subst (λ x. Fresh x.0 l) e (Fresh-perm _ p f), HasNoClash-perm p h)
HasNoClash-perm (Permᴰ.swap {a = x} {b = y} {a' = y'} {b' = x'} {l = l} e f) ((n, fx), (fy, h)) =
    subst (λ z. HasNoClash (z ∷ x' ∷ l)) f
      (subst (λ z. HasNoClash (y ∷ z ∷ l)) e (((λ q. n (sym q)), fy), (fx, h)))
HasNoClash-perm (Permᴰ.trans p q) h = HasNoClash-perm q (HasNoClash-perm p h)

runs-perm : {a b : Map Bytes} → Permᴰ a b → HasNoClash a → (o : DiskOptions) → runs a o ≡ runs b o
runs-perm Permᴰ.nil h o = refl
runs-perm (Permᴰ.cons {a = x} {b = y} {l₁ = l} {l₂ = l'} e p) (f, h) o =
    then_same (applied (setting_of (to_lower x.0) x.1) o) (runs l) (runs l') (runs-perm p h)
    ∙ ap (λ z. runs (z ∷ l') o) e
runs-perm (Permᴰ.swap {a = x} {b = y} {a' = y'} {b' = x'} {l = l} e f) ((n, fx), (fy, h)) o =
    runs-swap x.0 y.0 x.1 y.1 l o n
    ∙ ap (λ z. runs (y ∷ z ∷ l) o) e
    ∙ ap (λ z. runs (z ∷ x' ∷ l) o) f
runs-perm (Permᴰ.trans p q) h o = runs-perm p h o ∙ runs-perm q (HasNoClash-perm p h) o

-- Options that are accepted are accepted, with the same result, in every order of the map, if no
-- two of its keys differ in case only.
pub parse_disk_options-perm :
    (raw raw' : Map Bytes) (o : DiskOptions)
    → HasNoClash raw
    → Permᴰ raw raw'
    → parse_disk_options raw ≡ ok o
    → parse_disk_options raw' ≡ ok o
parse_disk_options-perm raw raw' o apart p accepted =
    let f : Option DiskOptions → Option DiskOptions =
      λ x. elim x [ none ↦ none | some o' ↦ shown (check_sources o') ] in
    shown_ok (parse_disk_options raw') o (
      parse_disk_options-shown raw'
      ∙ ap f (sym (runs-perm p apart default_options))
      ∙ sym (parse_disk_options-shown raw)
      ∙ ap shown accepted)
