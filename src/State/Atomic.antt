-- ===== src/State/Atomic.antt =====
-- The write of the state file is atomic, whatever the outcomes of the system calls.
use docker_plugin_gce_pd.State.Json.{marshal}
use docker_plugin_gce_pd.Prelude.{ℕ, ◌≡◌, refl, false, some, [], ◌∷◌, ◌++◌}
use docker_plugin_gce_pd.Prelude.{is_ok, arith, if◌then◌else◌, Option, none, List}
use docker_plugin_gce_pd.Prelude.Bytes.{Bytes, str_eq, str_eq_refl}
use docker_plugin_gce_pd.Prelude.Map.{Map, lookup, insert, lookup-insert, lookup-erase}
use docker_plugin_gce_pd.State.Volume.{Volume}
use docker_plugin_gce_pd.State.Files.{
  Content, json, Io, fine, fault, leave, move, Fs, sorted_volumes, temp_path, write_state,
}
use docker_plugin_gce_pd.State.Files.{leave}
use docker_plugin_gce_pd.Prelude.Map.{insert}
use docker_plugin_gce_pd.State.Files.{move}
use docker_plugin_gce_pd.Prelude.{List}
use docker_plugin_gce_pd.Prelude.Bytes.{str_eq_refl}
use docker_plugin_gce_pd.State.Files.{Io}

longer-ne : (a : Bytes) (c : ℕ) (b : Bytes) → str_eq (a ++ (c ∷ b)) a ≡ false
unfolding str_eq
longer-ne [] c b = refl
longer-ne (x ∷ a) c b = ground (arith, longer-ne a c b)

temp_path-ne : (path : Bytes) → str_eq (temp_path path) path ≡ false
unfolding temp_path
temp_path-ne path = longer-ne path _ _

module _ (path : Bytes) (c : Content) (files : Map Content) where
  lookup-leave :
      (left : Option Content) → lookup path (leave (temp_path path) left files) ≡ lookup path files
  lookup-leave none = refl
  lookup-leave (some d) =
      ground (arith, lookup-insert path (temp_path path) d files, temp_path-ne path)

  temp-written : lookup (temp_path path) (insert (temp_path path) c files) ≡ some c
  temp-written =
      ground (
        arith,
        lookup-insert (temp_path path) (temp_path path) c files,
        str_eq_refl (temp_path path),
      )

  unmoved : lookup path (insert (temp_path path) c files) ≡ lookup path files
  unmoved = ground (arith, lookup-insert path (temp_path path) c files, temp_path-ne path)

  moved : (files' : Map Content) → lookup path (move (temp_path path) path (some c) files') ≡ some c
  moved files' = ground (
    arith,
    lookup-erase path (temp_path path) (insert path c files'),
    lookup-insert path path c files',
    temp_path-ne path,
    str_eq_refl path,
  )

-- After the write the state file holds the volumes of the map in the order of their names if no
-- error is returned, and what it held before if one is.
pub write_state_atomic :
    (path : Bytes) (m : Map Volume) (fs : Fs)
    → let r = write_state path m fs in
      lookup path r.1.files
      ≡ (if is_ok r.0 then some (json (marshal (sorted_volumes m))) else lookup path fs.files)
unfolding write_state
write_state_atomic path m fs = go fs.files fs.script
  where
    go :
        (files : Map Content) (script : List Io)
        → let r = write_state path m (record { files = files; script = script }) in
          lookup path r.1.files
          ≡ (if is_ok r.0 then some (json (marshal (sorted_volumes m))) else lookup path files)
    go files [] = rw (temp-written path _ files) (moved path _ files _)
    go files (fine ∷ []) = rw (temp-written path _ files) (moved path _ files _)
    go files (fine ∷ fine ∷ s) = rw (temp-written path _ files) (moved path _ files _)
    go files (fine ∷ fault e left ∷ s) = unmoved path _ files
    go files (fault e left ∷ s) = lookup-leave path (json []) files left
