-- ===== src/State/Files.antt =====
-- state.go: the state file. A file is empty, or an array of JSON values, or a text that is neither;
-- the outcomes of the system calls come from a script, one for each call; when the script has run
-- out they succeed. A write that fails may leave anything, or nothing new, in its file.
use docker_plugin_gce_pd.Prelude.{Option, none, some, List, [], ◌∷◌, ◌++◌, ok, err}
use docker_plugin_gce_pd.Prelude.{if◌then◌else◌}
use docker_plugin_gce_pd.Prelude.Bytes.{Bytes, codes, str_lt}
use docker_plugin_gce_pd.Prelude.Map.{Map, lookup, insert, erase}
use docker_plugin_gce_pd.Errors.{Error, Res, wrapped, writing_temp_state, renaming_state}
use docker_plugin_gce_pd.State.Volume.{Volume}
use docker_plugin_gce_pd.State.Json.{Json, marshal}

pub data Content : Type 0 where
  blank : Content
  json : List Json → Content
  corrupt : Content

pub data Io : Type 0 where
  fine : Io
  fault : Error → Option Content → Io

pub record Fs : Type 0 where
  pub files : Map Content
  pub script : List Io

-- The outcome of the next system call, and the outcomes after it.
unfoldable pub next_io : List Io → Io × List Io
next_io [] = (fine, [])
next_io (io ∷ script) = (io, script)

abbrev pub leave : Bytes → Option Content → Map Content → Map Content
leave path none files = files
leave path (some c) files = insert path c files

-- `os.WriteFile`
unfoldable pub write_file : Bytes → Content → Fs → Res (Unit {0}) × Fs
unfolding next_io
write_file path c fs =
    let (io, script) = next_io fs.script in
    elim io [
      | fine ↦ (ok tt, record { files = insert path c fs.files; script = script })
      | fault e left ↦ (err e, record { files = leave path left fs.files; script = script })
    ]

abbrev pub move : Bytes → Bytes → Option Content → Map Content → Map Content
move from to none files = files
move from to (some c) files = erase from (insert to c files)

-- `os.Rename`, which replaces the target in one step or fails and changes nothing.
unfoldable pub rename : Bytes → Bytes → Fs → Res (Unit {0}) × Fs
unfolding next_io
rename from to fs =
    let (io, script) = next_io fs.script in
    elim io [
      | fine ↦
          (ok tt, record { files = move from to (lookup from fs.files) fs.files; script = script })
      | fault e left ↦ (err e, record { files = fs.files; script = script })
    ]

-- `sort.Slice` by Name.
unfoldable pub insert_sorted : Volume → List Volume → List Volume
insert_sorted v [] = v ∷ []
insert_sorted v (w ∷ ws) =
    let rest = insert_sorted v ws in if str_lt w.name v.name then w ∷ rest else v ∷ w ∷ ws

unfoldable pub sort_by_name : List Volume → List Volume
unfolding insert_sorted
sort_by_name [] = []
sort_by_name (v ∷ vs) = insert_sorted v (sort_by_name vs)

-- The values of the map, in the order of its iteration.
unfoldable pub values : Map Volume → List Volume
values [] = []
values ((k, v) ∷ m) = v ∷ values m

-- The volumes as List returns them and as `persist` writes them.
unfoldable pub sorted_volumes : Map Volume → List Volume
unfolding sort_by_name values
sorted_volumes m = sort_by_name (values m)

-- `s.path + ".tmp"`
unfoldable pub temp_path : Bytes → Bytes
temp_path path = path ++ codes ".tmp"

abbrev pub rename_step : Bytes → Res (Unit {0}) × Fs → Res (Unit {0}) × Fs
rename_step path (err e, fs) = (err (wrapped writing_temp_state e), fs)
rename_step path (ok tt, fs) =
    let (r, fs') = rename (temp_path path) path fs in
    elim r [ ok _ ↦ (ok tt, fs') | err e ↦ (err (wrapped renaming_state e), fs') ]

-- The part of `persist` that writes: a temporary file, then a rename.
unfoldable pub write_state : Bytes → Map Volume → Fs → Res (Unit {0}) × Fs
unfolding write_file rename
write_state path vols fs =
    rename_step path (write_file (temp_path path) (json (marshal (sorted_volumes vols))) fs)
