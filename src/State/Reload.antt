-- ===== src/State/Reload.antt =====
-- What Load reads back from the file that `persist` has written.
use mathlib.Core.Path.{subst}
use docker_plugin_gce_pd.Prelude.{
  ◌≡◌, refl, ap, ◌∙◌, Option, none, some, List, [], ◌∷◌, arith, ok, err,
}
use docker_plugin_gce_pd.Prelude.Bytes.{Bytes}
use docker_plugin_gce_pd.Prelude.Map.{
  Map, lookup, insert, lookup-insert, lookup-nil, NodupKeys, EachOf, insert-NodupKeys,
  insert-EachOf,
}
use docker_plugin_gce_pd.State.Volume.{Volume}
use docker_plugin_gce_pd.Errors.{Res}
use docker_plugin_gce_pd.State.Files.{
  Content, blank, json, corrupt, Io, fine, fault, Fs, sorted_volumes,
}
use docker_plugin_gce_pd.State.Store.{Store, index_by_name, decode, load, persist}
use docker_plugin_gce_pd.State.Json.{marshal, unmarshal}
use docker_plugin_gce_pd.State.Json.Roundtrip.{Utf8, unmarshal-marshal, sorted_volumes-AreText}
use docker_plugin_gce_pd.Errors.{panicked}
use docker_plugin_gce_pd.State.Keeps.{Holds}
use docker_plugin_gce_pd.State.Sorted.{Named, last_named, last_named-sorted_volumes}
use docker_plugin_gce_pd.State.Atomic.{write_state_atomic}
use docker_plugin_gce_pd.State.Store.{after_unmarshal}
use docker_plugin_gce_pd.State.Store.{all_there}
use docker_plugin_gce_pd.Prelude.{map}
use docker_plugin_gce_pd.State.Json.Roundtrip.{AreText}

abbrev pub first_some : Option Volume → Option Volume → Option Volume
first_some (some v) o = some v
first_some none o = o

lookup-index_by_name :
    (k : Bytes) (vs : List Volume) (m : Map Volume)
    → lookup k (index_by_name vs m) ≡ first_some (last_named k vs) (lookup k m)
unfolding index_by_name last_named
lookup-index_by_name k [] m = refl
lookup-index_by_name k (v ∷ vs) m =
    lookup-index_by_name k vs (insert v.name v m) ∙ rw lookup-insert (ground arith)

-- Each volume comes to stand under its own name, once.
index_by_name-Named :
    (vs : List Volume) (m : Map Volume)
    → NodupKeys m × EachOf Named m
    → NodupKeys (index_by_name vs m) × EachOf Named (index_by_name vs m)
unfolding index_by_name
index_by_name-Named [] m h = h
index_by_name-Named (v ∷ vs) m (u, e) =
    index_by_name-Named vs (insert v.name v m)
      (insert-NodupKeys v.name v m u, insert-EachOf Named v.name v m refl e)

-- A loaded store, if there is one, has the property.
abbrev IfLoaded : (Store → Type 0) → Res Store → Type 0
IfLoaded P (ok t) = P t
IfLoaded P (err e) = Unit

after_unmarshal-Named :
    (path : Bytes) (fs : Fs) (o : Option (List (Option Volume)))
    → IfLoaded (Holds Named) (after_unmarshal path fs o)
unfolding after_unmarshal
after_unmarshal-Named path fs none = tt
after_unmarshal-Named path fs (some vs) = go (all_there vs)
  where
    go :
        (o : Option (List Volume))
        → IfLoaded (Holds Named) (elim o [
          | none ↦ err panicked
          | some ws ↦ ok (record { path = path; vols = index_by_name ws []; fs = fs })
        ])
    go none = tt
    go (some ws) = index_by_name-Named ws [] (tt, tt)

decode-Named :
    (path : Bytes) (o : Option Content) (fs : Fs) → IfLoaded (Holds Named) (decode path o fs)
unfolding decode
decode-Named path none fs = (tt, tt)
decode-Named path (some blank) fs = (tt, tt)
decode-Named path (some corrupt) fs = tt
decode-Named path (some (json js)) fs = after_unmarshal-Named path fs (unmarshal js)

loaded-Named : (path : Bytes) (fs : Fs) → IfLoaded (Holds Named) (load path fs)
unfolding load
loaded-Named path fs = go fs.files fs.script
  where
    go :
        (files : Map Content) (script : List Io)
        → IfLoaded (Holds Named) (load path (record { files = files; script = script }))
    go files [] = decode-Named path (lookup path files) _
    go files (fine ∷ []) = decode-Named path (lookup path files) _
    go files (fine ∷ fine ∷ s) = decode-Named path (lookup path files) _
    go files (fine ∷ fault e left ∷ s) = tt
    go files (fault e left ∷ s) = tt

-- Whatever the state file held, even two records of one name, a store that Load returns has each
-- volume under its own name, once.
pub load-Named : (path : Bytes) (fs : Fs) (t : Store) → load path fs ≡ ok t → Holds Named t
load-Named path fs t h = subst (IfLoaded (Holds Named)) h (loaded-Named path fs)

written :
    (s : Store) (r : Res (Unit {0})) (s' : Store)
    → persist s ≡ (r, s')
    → r ≡ ok tt
    → lookup s.path s'.fs.files ≡ some (json (marshal (sorted_volumes s.vols)))
unfolding persist
written s r s' h e =
    rw (← ap (λ (p : Res (Unit {0}) × Store). p.1.fs) h)
      (write_state_atomic s.path s.vols s.fs ∙ rw (ap (λ (p : Res (Unit {0}) × Store). p.0) h ∙ e))

all_there-lem : (vs : List Volume) → all_there (map some vs) ≡ some vs
unfolding all_there
all_there-lem [] = refl
all_there-lem (v ∷ vs) = rw (all_there-lem vs) refl

after_unmarshal-lem :
    (path : Bytes) (fs : Fs) (vs : List Volume)
    → AreText vs
    → after_unmarshal path fs (unmarshal (marshal vs))
      ≡ ok (record { path = path; vols = index_by_name vs []; fs = fs })
unfolding after_unmarshal
after_unmarshal-lem path fs vs t =
    ap (after_unmarshal path fs) (unmarshal-marshal vs t)
    ∙ rw (after_unmarshal, all_there-lem vs) refl

-- For a store with each volume under its own name, once, each label once, and strings that are
-- UTF-8: a restart after persist has returned no error, with no failing system call, reads the
-- JSON that persist has written and finds under every name the volume that the store had.
pub load-persist :
    (s s' : Store) (k : Bytes)
    → NodupKeys s.vols
    → EachOf Named s.vols
    → EachOf Utf8 s.vols
    → persist s ≡ (ok tt, s')
    → (t : Store) × (load s.path (record s'.fs { script = [] }) ≡ ok t)
      × (lookup k t.vols ≡ lookup k s.vols)
unfolding load decode
load-persist s s' k u e texts h = (
  record {
    path = s.path;
    vols = index_by_name (sorted_volumes s.vols) [];
    fs = record s'.fs { script = [] };
  },
  rw (written s _ s' h refl) (
      after_unmarshal-lem s.path (record s'.fs { script = [] }) (sorted_volumes s.vols)
        (sorted_volumes-AreText s.vols texts)),
  lookup-index_by_name k (sorted_volumes s.vols) []
      ∙ rw (last_named-sorted_volumes k s.vols u e, lookup-nil) (ground arith),
)
