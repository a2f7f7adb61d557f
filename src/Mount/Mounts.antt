-- ===== src/Mount/Mounts.antt =====
-- mount.go: the scan of /proc/mounts in IsMounted.
use docker_plugin_gce_pd.Prelude.{Bool, false, ◌||◌, List, [], ◌∷◌, if◌then◌else◌}
use docker_plugin_gce_pd.Prelude.Bytes.{Bytes, str_eq, split, is_space}
use docker_plugin_gce_pd.Mount.Paths.{clean}

-- `strings.Fields`: the field that is being read, if any byte of it is, and those after it.
unfoldable pub fields_from : Bytes → List Bytes × Bytes
unfolding is_space
fields_from [] = ([], [])
fields_from (c ∷ cs) =
    let (done, current) = fields_from cs in
    if is_space c
    then (if str_eq current [] then done else current ∷ done, [])
    else (done, c ∷ current)

unfoldable pub fields : Bytes → List Bytes
unfolding fields_from
fields line =
    let (done, current) = fields_from line in if str_eq current [] then done else current ∷ done

-- The second field of a line is the mount point.
unfoldable pub mounts_at : Bytes → List Bytes → Bool
unfolding clean
mounts_at target [] = false
mounts_at target (f ∷ []) = false
mounts_at target (f ∷ g ∷ fs) = str_eq (clean g) target

unfoldable pub any_mounts_at : Bytes → List Bytes → Bool
unfolding mounts_at fields
any_mounts_at target [] = false
any_mounts_at target (line ∷ lines) = mounts_at target (fields line) || any_mounts_at target lines

-- IsMounted on the text of /proc/mounts.
unfoldable pub mounted_in : Bytes → Bytes → Bool
unfolding any_mounts_at split
mounted_in target mounts = any_mounts_at (clean target) (split 10 mounts)
