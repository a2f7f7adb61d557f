-- ===== src/State/Reconciled.antt =====
-- What the store's Reconcile leaves under each name, and what it reports.
use docker_plugin_gce_pd.Prelude.{◌≡◌, refl, sym, ◌∙◌, not, ◌&&◌, Option}
use docker_plugin_gce_pd.Prelude.{
  none, some, List, [], ◌∷◌, arith, if◌then◌else◌, Bool-cases, inl, inr,
}
use docker_plugin_gce_pd.Prelude.Bytes.{Bytes, str_eq_iff}
use docker_plugin_gce_pd.Prelude.Map.{
  Map, lookup, insert, is_some, lookup-insert, NodupKeys, EachOf, insert-NodupKeys, insert-EachOf,
}
use docker_plugin_gce_pd.State.Volume.{VolumeOptions, Volume}
use docker_plugin_gce_pd.State.Store.{
  Store, contains, drop_vanished, import_missing, imported_volume, insert_string, sort_strings,
  reconcile,
}
use docker_plugin_gce_pd.Prelude.Bytes.{str_eq}
use docker_plugin_gce_pd.Prelude.{true}

abbrev pub or_imported : Option (Bytes → VolumeOptions) → Bytes → Option Volume → Option Volume
or_imported options k none = some (imported_volume options k)
or_imported options k (some v) = some v

lookup-drop_vanished :
    (k : Bytes) (names : List Bytes) (m : Map Volume)
    → lookup k (drop_vanished names m).0 ≡ (if contains k names then lookup k m else none)
unfolding drop_vanished lookup
lookup-drop_vanished k names [] = ground arith
lookup-drop_vanished k names ((j, v) ∷ m) =
    ground (arith, lookup-drop_vanished k names m, str_eq_iff j k)

lookup-import_missing :
    (k : Bytes) (names : List Bytes) (options : Option (Bytes → VolumeOptions)) (m : Map Volume)
    → lookup k (import_missing names options m).0
      ≡ (if contains k names then or_imported options k (lookup k m) else lookup k m)
unfolding import_missing contains
lookup-import_missing k [] options m = refl
lookup-import_missing k (n ∷ ns) options m = ground (
  arith,
  lookup-import_missing k ns options m,
  lookup-import_missing k ns options (insert n (imported_volume options n) m),
  lookup-insert k n (imported_volume options n) m,
  str_eq_iff n k,
)

-- After Reconcile a name has a volume exactly if GCE listed it: the volume that the store had, or
-- else a new one with the options given for the name, whatever becomes of the write.
pub lookup-reconcile :
    (k : Bytes) (names : List Bytes) (options : Option (Bytes → VolumeOptions)) (s : Store)
    → lookup k (reconcile names options s).2.vols
      ≡ (if contains k names then or_imported options k (lookup k s.vols) else none)
unfolding reconcile
lookup-reconcile k names options s =
    lookup-import_missing k names options (drop_vanished names s.vols).0
    ∙ rw lookup-drop_vanished (ground arith)

contains-insert_string :
    (k s : Bytes) (l : List Bytes) → contains k (insert_string s l) ≡ contains k (s ∷ l)
unfolding contains insert_string
contains-insert_string k s [] = refl
contains-insert_string k s (t ∷ ts) = ground (arith, contains-insert_string k s ts)

contains-cons :
    (k s : Bytes) (l : List Bytes)
    → contains k (s ∷ l) ≡ (if str_eq s k then true else contains k l)
unfolding contains
contains-cons k s l = refl

contains-sort_strings : (k : Bytes) (l : List Bytes) → contains k (sort_strings l) ≡ contains k l
unfolding sort_strings
contains-sort_strings k [] = refl
contains-sort_strings k (s ∷ ss) =
    contains-insert_string k s (sort_strings ss)
    ∙ rw (contains-cons k s (sort_strings ss), contains-sort_strings k ss)
        (sym (contains-cons k s ss))

contains-removed :
    (k : Bytes) (names : List Bytes) (m : Map Volume)
    → contains k (drop_vanished names m).1 ≡ (is_some (lookup k m) && not (contains k names))
unfolding drop_vanished lookup contains
contains-removed k names [] = refl
contains-removed k names ((j, v) ∷ m) = ground (arith, contains-removed k names m, str_eq_iff j k)

contains-imported :
    (k : Bytes) (names : List Bytes) (options : Option (Bytes → VolumeOptions)) (m : Map Volume)
    → contains k (import_missing names options m).1
      ≡ (contains k names && not (is_some (lookup k m)))
unfolding import_missing contains
contains-imported k [] options m = refl
contains-imported k (n ∷ ns) options m = ground (
  arith,
  contains-imported k ns options m,
  contains-imported k ns options (insert n (imported_volume options n) m),
  lookup-insert k n (imported_volume options n) m,
  str_eq_iff n k,
)

-- The report of Reconcile is exact: it lists as removed the names that had a volume and are not
-- in GCE, and as imported those in GCE that had none.
pub reconcile_report :
    (k : Bytes) (names : List Bytes) (options : Option (Bytes → VolumeOptions)) (s : Store)
    → let res = (reconcile names options s).0 in
      (contains k res.removed ≡ (is_some (lookup k s.vols) && not (contains k names)))
      × (contains k res.imported ≡ (contains k names && not (is_some (lookup k s.vols))))
unfolding reconcile
reconcile_report k names options s = (
  contains-sort_strings k _ ∙ contains-removed k names s.vols,
  contains-sort_strings k _
      ∙ contains-imported k names options _
      ∙ rw lookup-drop_vanished (ground arith),
)

module _ (P : Bytes → Volume → Type 0) where
  drop_vanished-EachOf :
      (names : List Bytes) (m : Map Volume) → EachOf P m → EachOf P (drop_vanished names m).0
  unfolding drop_vanished
  drop_vanished-EachOf names [] _ = tt
  drop_vanished-EachOf names ((j, v) ∷ m) (p, ps) = elim (Bool-cases (contains j names)) [
    | inl here ↦ rw here (p, drop_vanished-EachOf names m ps)
    | inr gone ↦ rw gone (drop_vanished-EachOf names m ps)
  ]

  import_missing-EachOf :
      (names : List Bytes) (options : Option (Bytes → VolumeOptions)) (m : Map Volume)
      → ((k : Bytes) → P k (imported_volume options k))
      → EachOf P m
      → EachOf P (import_missing names options m).0
  unfolding import_missing
  import_missing-EachOf [] options m new ps = ps
  import_missing-EachOf (n ∷ ns) options m new ps = elim (Bool-cases (is_some (lookup n m))) [
    | inl known ↦ rw known (import_missing-EachOf ns options m new ps)
    | inr unknown ↦ rw unknown (
        import_missing-EachOf ns options _ new
          (insert-EachOf P n (imported_volume options n) m (new n) ps))
  ]

  pub reconcile-EachOf :
      (names : List Bytes) (options : Option (Bytes → VolumeOptions)) (s : Store)
      → ((k : Bytes) → P k (imported_volume options k))
      → EachOf P s.vols
      → EachOf P (reconcile names options s).2.vols
  unfolding reconcile
  reconcile-EachOf names options s new ps =
      import_missing-EachOf names options _ new (drop_vanished-EachOf names s.vols ps)

drop_vanished-NodupKeys :
    (names : List Bytes) (m : Map Volume) → NodupKeys m → NodupKeys (drop_vanished names m).0
unfolding drop_vanished
drop_vanished-NodupKeys names [] _ = tt
drop_vanished-NodupKeys names ((j, v) ∷ m) (fresh, u) =
    ground (arith, drop_vanished-NodupKeys names m u, lookup-drop_vanished j names m)

import_missing-NodupKeys :
    (names : List Bytes) (options : Option (Bytes → VolumeOptions)) (m : Map Volume)
    → NodupKeys m
    → NodupKeys (import_missing names options m).0
unfolding import_missing
import_missing-NodupKeys [] options m u = u
import_missing-NodupKeys (n ∷ ns) options m u = ground (
  arith,
  import_missing-NodupKeys ns options m,
  import_missing-NodupKeys ns options (insert n (imported_volume options n) m),
  insert-NodupKeys n (imported_volume options n) m u,
)

pub reconcile-NodupKeys :
    (names : List Bytes) (options : Option (Bytes → VolumeOptions)) (s : Store)
    → NodupKeys s.vols
    → NodupKeys (reconcile names options s).2.vols
unfolding reconcile
reconcile-NodupKeys names options s u =
    import_missing-NodupKeys names options _ (drop_vanished-NodupKeys names s.vols u)
