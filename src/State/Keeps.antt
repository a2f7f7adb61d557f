-- ===== src/State/Keeps.antt =====
-- The operations of the store keep what holds of each volume, when the changes that they make do.
use docker_plugin_gce_pd.Prelude.{◌≡◌, refl, none, some, [], ◌∷◌, Option, arith}
use docker_plugin_gce_pd.Prelude.Bytes.{Bytes}
use docker_plugin_gce_pd.Prelude.Map.{
  Map, lookup, NodupKeys, EachOf, lookup-EachOf, insert-NodupKeys, erase-NodupKeys, insert-EachOf,
  erase-EachOf,
}
use docker_plugin_gce_pd.State.Volume.{Volume, reset}
use docker_plugin_gce_pd.State.Store.{Store, add, remove, update, reset_all, reset_ref_counts}

-- Each volume stands under one key, and has the property.
abbrev pub Holds : (Bytes → Volume → Type 0) → Store → Type 0
Holds P s = NodupKeys s.vols × EachOf P s.vols

module _ (P : Bytes → Volume → Type 0) where
  pub add-Holds : (v : Volume) (s : Store) → P v.name v → Holds P s → Holds P (add v s).1
  unfolding add
  add-Holds v s p (u, ps) = go (lookup v.name s.vols) refl
    where
      go : (o : Option Volume) → lookup v.name s.vols ≡ o → Holds P (add v s).1
      go none e =
          rw (e, add) (insert-NodupKeys v.name v s.vols u, insert-EachOf P v.name v s.vols p ps)
      go (some w) e = rw (e, add) (u, ps)

  pub remove-Holds : (name : Bytes) (s : Store) → Holds P s → Holds P (remove name s).1
  unfolding remove
  remove-Holds name s (u, ps) = go (lookup name s.vols) refl
    where
      go : (o : Option Volume) → lookup name s.vols ≡ o → Holds P (remove name s).1
      go none e = rw (e, remove) (u, ps)
      go (some w) e = rw (e, remove) (erase-NodupKeys name s.vols u, erase-EachOf P name s.vols ps)

module _ (P Q : Bytes → Volume → Type 0) (weaken : (k : Bytes) (v : Volume) → P k v → Q k v) where
  pub EachOf-weaken : (m : Map Volume) → EachOf P m → EachOf Q m
  EachOf-weaken [] _ = tt
  EachOf-weaken ((k, v) ∷ m) (p, ps) = (weaken k v p, EachOf-weaken m ps)

  -- `fn` may take the volume from one property to a weaker one, as a count that grows does.
  pub update-Holds :
      (name : Bytes) (fn : Volume → Volume) (s : Store)
      → ((v : Volume) → P name v → Q name (fn v))
      → Holds P s
      → Holds Q (update name fn s).1
  unfolding update
  update-Holds name fn s step (u, ps) = go (lookup name s.vols) refl
    where
      go : (o : Option Volume) → lookup name s.vols ≡ o → Holds Q (update name fn s).1
      go none e = rw (e, update) (u, EachOf-weaken s.vols ps)
      go (some v) e =
          rw (e, update)
            (
              insert-NodupKeys name (fn v) s.vols u,
              insert-EachOf Q name (fn v) s.vols (step v (lookup-EachOf P name v s.vols ps e))
                  (EachOf-weaken s.vols ps),
            )

module _ (P Q : Bytes → Volume → Type 0) where
  reset_all-EachOf :
      (m : Map Volume)
      → ((k : Bytes) (v : Volume) → P k v → Q k (reset v))
      → EachOf P m
      → EachOf Q (reset_all m)
  unfolding reset_all
  reset_all-EachOf [] step _ = tt
  reset_all-EachOf ((k, v) ∷ m) step (p, ps) = (step k v p, reset_all-EachOf m step ps)

pub lookup-reset_all :
    (k : Bytes) (m : Map Volume)
    → lookup k (reset_all m) ≡ elim (lookup k m) [ none ↦ none | some v ↦ some (reset v) ]
unfolding lookup reset_all
lookup-reset_all k [] = refl
lookup-reset_all k ((j, v) ∷ m) = ground (arith, lookup-reset_all k m)

reset_all-NodupKeys : (m : Map Volume) → NodupKeys m → NodupKeys (reset_all m)
unfolding reset_all
reset_all-NodupKeys [] _ = tt
reset_all-NodupKeys ((k, v) ∷ m) (fresh, u) =
    (rw (lookup-reset_all k m, fresh), reset_all-NodupKeys m u)

pub reset_ref_counts-Holds :
    (P Q : Bytes → Volume → Type 0) (s : Store)
    → ((k : Bytes) (v : Volume) → P k v → Q k (reset v))
    → Holds P s
    → Holds Q (reset_ref_counts s).1
unfolding reset_ref_counts
reset_ref_counts-Holds P Q s step (u, ps) =
    (reset_all-NodupKeys s.vols u, reset_all-EachOf P Q s.vols step ps)
