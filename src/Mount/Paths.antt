-- ===== src/Mount/Paths.antt =====
-- What driver.go and mount.go use of path/filepath, on Unix: Clean and Join, by segments; the
-- mount target of a volume and the device path of a disk.
pub mod Targets
use docker_plugin_gce_pd.Prelude.{Bool, false, List, [], ◌∷◌, ◌++◌, ◌||◌, if◌then◌else◌}
use docker_plugin_gce_pd.Prelude.Bytes.{Bytes, codes, str_eq, split}

abbrev pub mount_root : Bytes
mount_root = codes "/var/lib/docker-gcepd/mounts"

abbrev pub device_by_id_prefix : Bytes
device_by_id_prefix = codes "/dev/disk/by-id/google-"

-- DevicePath
unfoldable pub device_path : Bytes → Bytes
device_path volume_name = device_by_id_prefix ++ volume_name

abbrev pub is_rooted : Bytes → Bool
is_rooted [] = false
is_rooted (c ∷ cs) = str_eq (c ∷ []) (codes "/")

-- One segment onto the segments so far, the last of them first. At the root `..` is dropped.
unfoldable pub push_segment : Bool → List Bytes → Bytes → List Bytes
push_segment rooted [] s =
    if str_eq s [] || str_eq s (codes ".")
    then []
    else if str_eq s (codes "..")
    then (if rooted then [] else s ∷ [])
    else s ∷ []
push_segment rooted (t ∷ ts) s =
    if str_eq s [] || str_eq s (codes ".")
    then t ∷ ts
    else if str_eq s (codes "..")
    then (if str_eq t (codes "..") then s ∷ t ∷ ts else ts)
    else s ∷ t ∷ ts

unfoldable pub push_segments : Bool → List Bytes → List Bytes → List Bytes
push_segments rooted acc [] = acc
push_segments rooted acc (s ∷ ss) = push_segments rooted (push_segment rooted acc s) ss

-- The segments, the last of them first, joined by slashes in their order.
unfoldable pub join_segments : List Bytes → Bytes
join_segments [] = []
join_segments (s ∷ []) = s
join_segments (s ∷ t ∷ ts) = join_segments (t ∷ ts) ++ (codes "/" ++ s)

abbrev pub or_dot : Bytes → Bytes
or_dot [] = codes "."
or_dot (c ∷ cs) = c ∷ cs

-- `filepath.Clean`
unfoldable pub clean : Bytes → Bytes
unfolding push_segments join_segments split
clean path =
    let rooted = is_rooted path in
    let joined = join_segments (push_segments rooted [] (split b'/' path)) in
    if rooted then codes "/" ++ joined else or_dot joined

-- `filepath.Join(root, name)` for a root that is not empty: an empty element is skipped.
unfoldable pub join : Bytes → Bytes → Bytes
unfolding clean
join root [] = clean root
join root (c ∷ cs) = clean (root ++ (codes "/" ++ (c ∷ cs)))

-- mountpointFor
unfoldable pub mountpoint_for : Bytes → Bytes
unfolding join
mountpoint_for name = join mount_root name
