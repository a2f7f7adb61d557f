-- ===== src/State/Store.antt =====
-- state.go: `Store` and its operations. The mutex makes each of them one step. A change to the
-- map stays when `persist` fails after it, as in the code.
use docker_plugin_gce_pd.Prelude.{ℕ, Bool, true, false, Option, none, some, List, [], ◌∷◌}
use docker_plugin_gce_pd.Prelude.{ok, err, if◌then◌else◌}
use docker_plugin_gce_pd.Prelude.Bytes.{Bytes, str_eq, str_lt}
use docker_plugin_gce_pd.Prelude.Map.{Map, lookup, insert, erase, is_some}
use docker_plugin_gce_pd.Errors.{
  Res, wrapped, already_in_state, not_in_state, creating_state_dir, reading_state_file,
  parsing_state_file, system,
}
use docker_plugin_gce_pd.State.Volume.{
  VolumeOptions, Volume, created, hold, release, reset, restore,
}
pub use docker_plugin_gce_pd.State.Json.{zero_options}
use docker_plugin_gce_pd.State.Json.{set_if, unmarshal}
use docker_plugin_gce_pd.State.Files.{
  Content, blank, json, corrupt, fine, fault, Fs, next_io, sorted_volumes, write_state,
}
use docker_plugin_gce_pd.Errors.{panicked}

pub record Store : Type 0 where
  pub path : Bytes
  pub vols : Map Volume
  pub fs : Fs

-- The loop of Load over the decoded volumes: a later one with the same name wins.
unfoldable pub index_by_name : List Volume → Map Volume → Map Volume
index_by_name [] m = m
index_by_name (v ∷ vs) m = index_by_name vs (insert v.name v m)

-- The volumes, if no pointer is nil.
unfoldable pub all_there : List (Option Volume) → Option (List Volume)
all_there [] = some []
all_there (none ∷ vs) = none
all_there (some v ∷ vs) = set_if (all_there vs) (λ ws. v ∷ ws)

-- Load after Unmarshal. A nil pointer is dereferenced.
unfoldable pub after_unmarshal : Bytes → Fs → Option (List (Option Volume)) → Res Store
unfolding all_there index_by_name
after_unmarshal path fs none = err (wrapped parsing_state_file (system path))
after_unmarshal path fs (some vs) = elim (all_there vs) [
  | none ↦ err panicked
  | some ws ↦ ok (record { path = path; vols = index_by_name ws []; fs = fs })
]

unfoldable pub decode : Bytes → Option Content → Fs → Res Store
unfolding after_unmarshal
decode path none fs = ok (record { path = path; vols = []; fs = fs })
decode path (some blank) fs = ok (record { path = path; vols = []; fs = fs })
decode path (some corrupt) fs = err (wrapped parsing_state_file (system path))
decode path (some (json js)) fs = after_unmarshal path fs (unmarshal js)

-- Load: MkdirAll, ReadFile, then the decoding.
unfoldable pub load : Bytes → Fs → Res Store
unfolding next_io decode
load path fs =
    let (made, after_mkdir) = next_io fs.script in
    elim made [
      | fault e _ ↦ err (wrapped creating_state_dir e)
      | fine ↦
          let (read, script) = next_io after_mkdir in
          elim read [
            | fault e _ ↦ err (wrapped reading_state_file e)
            | fine ↦
                decode path (lookup path fs.files) (record { files = fs.files; script = script })
          ]
    ]

unfoldable pub persist : Store → Res (Unit {0}) × Store
persist s = let (r, fs) = write_state s.path s.vols s.fs in (r, record s { fs = fs })

-- `s.vols = m` and then `persist`.
abbrev pub persist_with : Map Volume → Store → Res (Unit {0}) × Store
persist_with m s = persist (record s { vols = m })

-- Get and List return copies.
unfoldable pub get : Bytes → Store → Option Volume
get name s = lookup name s.vols

unfoldable pub list : Store → List Volume
list s = sorted_volumes s.vols

unfoldable pub add : Volume → Store → Res (Unit {0}) × Store
unfolding persist
add v s = elim (lookup v.name s.vols) [
  | some _ ↦ (err (already_in_state v.name), s)
  | none ↦ persist_with (insert v.name v s.vols) s
]

unfoldable pub remove : Bytes → Store → Res (Unit {0}) × Store
unfolding persist
remove name s = elim (lookup name s.vols) [
  | none ↦ (ok tt, s)
  | some _ ↦ persist_with (erase name s.vols) s
]

unfoldable pub update : Bytes → (Volume → Volume) → Store → Res (Unit {0}) × Store
unfolding persist
update name fn s = elim (lookup name s.vols) [
  | none ↦ (err (not_in_state name), s)
  | some v ↦ persist_with (insert name (fn v) s.vols) s
]

-- The variable `n` that the closures of IncRef and DecRef set: the new count.
abbrev pub captured : Option Volume → ℕ
captured none = 0
captured (some v) = v.ref_count

-- IncRef and DecRef return the count beside the error.
unfoldable pub inc_ref : Bytes → Bytes → Store → ℕ × Res (Unit {0}) × Store
unfolding update hold
inc_ref name mountpoint s =
    let (r, s') = update name (hold mountpoint) s in (captured (lookup name s'.vols), r, s')

unfoldable pub dec_ref : Bytes → Store → ℕ × Res (Unit {0}) × Store
unfolding update release
dec_ref name s = let (r, s') = update name release s in (captured (lookup name s'.vols), r, s')

unfoldable pub reset_all : Map Volume → Map Volume
unfolding reset
reset_all [] = []
reset_all ((k, v) ∷ m) = (k, reset v) ∷ reset_all m

unfoldable pub reset_ref_counts : Store → Res (Unit {0}) × Store
unfolding persist reset_all
reset_ref_counts s = persist_with (reset_all s.vols) s

unfoldable pub set_mounted : Bytes → Bytes → Store → Res (Unit {0}) × Store
unfolding update restore
set_mounted name mountpoint s = update name (restore mountpoint) s

-- `gceSet[name]`
unfoldable pub contains : Bytes → List Bytes → Bool
contains name [] = false
contains name (n ∷ ns) = let rest = contains name ns in if str_eq n name then true else rest

pub record ReconcileResult : Type 0 where
  pub imported : List Bytes
  pub removed : List Bytes

-- The first loop of Reconcile, with the names that it appends to `res.Removed`.
unfoldable pub drop_vanished : List Bytes → Map Volume → Map Volume × List Bytes
unfolding contains
drop_vanished names [] = ([], [])
drop_vanished names ((k, v) ∷ m) =
    let (kept, removed) = drop_vanished names m in
    if contains k names then ((k, v) ∷ kept, removed) else (kept, k ∷ removed)

abbrev pub options_for : Option (Bytes → VolumeOptions) → Bytes → VolumeOptions
options_for none name = zero_options
options_for (some f) name = f name

unfoldable pub imported_volume : Option (Bytes → VolumeOptions) → Bytes → Volume
imported_volume options name = record {
  name = name;
  options = options_for options name;
  status = created;
  mountpoint = [];
  ref_count = 0;
  created_at = [];
}

-- The second loop of Reconcile, with the names that it appends to `res.Imported`.
unfoldable pub import_missing :
    List Bytes → Option (Bytes → VolumeOptions) → Map Volume → Map Volume × List Bytes
unfolding imported_volume
import_missing [] options m = (m, [])
import_missing (name ∷ names) options m =
    let known = is_some (lookup name m) in
    let (m', imported) =
      import_missing names options
        (if known then m else insert name (imported_volume options name) m) in
    (m', if known then imported else name ∷ imported)

-- `sort.Strings`
unfoldable pub insert_string : Bytes → List Bytes → List Bytes
insert_string s [] = s ∷ []
insert_string s (t ∷ ts) =
    let rest = insert_string s ts in if str_lt t s then t ∷ rest else s ∷ t ∷ ts

unfoldable pub sort_strings : List Bytes → List Bytes
unfolding insert_string
sort_strings [] = []
sort_strings (s ∷ ss) = insert_string s (sort_strings ss)

unfoldable pub reconcile :
    List Bytes → Option (Bytes → VolumeOptions) → Store → ReconcileResult × Res (Unit {0}) × Store
unfolding persist drop_vanished import_missing sort_strings
reconcile names options s =
    let (kept, removed) = drop_vanished names s.vols in
    let (m, imported) = import_missing names options kept in
    let (r, s') = persist_with m s in
    (record { imported = sort_strings imported; removed = sort_strings removed }, r, s')
