-- ===== src/Gce/Options.antt =====
-- gce/options.go: the constants, `DiskOptions`, ParseDiskOptions, parseLabels, EffectiveLabels
-- and Matches. The raw options are the entries of the map in the order in which `range` gives them.
pub mod Valid
pub mod Labels
pub mod Match
pub mod Order
pub mod Ranges
use docker_plugin_gce_pd.Prelude.{ℕ, ◌+◌, ◌-◌, ◌*◌, ◌^◌, Bool, true, false, not, ◌&&◌, ◌||◌}
use docker_plugin_gce_pd.Prelude.{Option, none, some, List, [], ◌∷◌, ok, err, ◌>>=◌}
use docker_plugin_gce_pd.Prelude.{ltb, leb, ◌==◌, length, if◌then◌else◌}
use docker_plugin_gce_pd.Prelude.Bytes.{Bytes, codes, str_eq, to_lower, trim_space, split}
use docker_plugin_gce_pd.Prelude.Map.{Map, lookup, insert}
use docker_plugin_gce_pd.Errors.{
  Res, invalid_size, invalid_type, invalid_fs, invalid_bool, invalid_policy, unknown_option,
  invalid_label, reserved_label, exclusive_sources,
}

abbrev pub managed_by_key : Bytes
managed_by_key = codes "managed-by"

abbrev pub managed_by_value : Bytes
managed_by_value = codes "docker-gcepd"

abbrev pub deleting_key : Bytes
deleting_key = codes "gcepd-deleting"

abbrev pub reclaim_retain : Bytes
reclaim_retain = codes "retain"

abbrev pub reclaim_delete : Bytes
reclaim_delete = codes "delete"

pub record DiskOptions : Type 0 where
  pub size_gb : ℕ
  pub disk_type : Bytes
  pub fs_type : Bytes
  pub labels : Map Bytes
  pub source_snapshot : Bytes
  pub source_image : Bytes
  pub snapshot_on_remove : Bool
  pub reclaim_policy : Bytes

abbrev pub default_options : DiskOptions
default_options = record {
  size_gb = 10;
  disk_type = codes "pd-balanced";
  fs_type = codes "ext4";
  labels = [];
  source_snapshot = [];
  source_image = [];
  snapshot_on_remove = false;
  reclaim_policy = reclaim_retain;
}

-- A lookup in a map from strings to true, `knownDiskTypes` or `validFSTypes`.
unfoldable pub one_of : List Bytes → Bytes → Bool
one_of [] s = false
one_of (t ∷ ts) s = str_eq s t || one_of ts s

abbrev pub known_disk_types : List Bytes
known_disk_types =
    codes "pd-standard" ∷ codes "pd-balanced" ∷ codes "pd-ssd" ∷ codes "pd-extreme" ∷ []

abbrev pub valid_fs_types : List Bytes
valid_fs_types = codes "ext4" ∷ codes "xfs" ∷ []

-- The value of decimal digits after those that have been read.
unfoldable pub digits : ℕ → Bytes → Option ℕ
digits n [] = some n
digits n (c ∷ cs) =
    let rest = digits (n * 10 + (c - b'0')) cs in if leb b'0' c && leb c b'9' then rest else none

abbrev pub without_plus : Bytes → Bytes
without_plus [] = []
without_plus (c ∷ cs) = if c == b'+' then cs else c ∷ cs

-- `strconv.ParseInt(v, 10, 64)` where it gives a positive number; `none` stands for an error, a
-- number out of range, and what is not positive, which is all that has a minus sign.
unfoldable pub parse_positive : Bytes → Option ℕ
unfolding digits
parse_positive v = elim (without_plus v) [
  | [] ↦ none
  | c ∷ cs ↦ elim (digits 0 (c ∷ cs)) [
    | none ↦ none
    | some n ↦ if ltb 0 n && ltb n (2 ^ 63) then some n else none
  ]
]

-- `strconv.ParseBool`
unfoldable pub parse_bool : Bytes → Option Bool
unfolding one_of
parse_bool v =
    if one_of (codes "1" ∷ codes "t" ∷ codes "T" ∷ codes "TRUE" ∷ codes "true" ∷ codes "True" ∷ [])
      v
    then some true
    else if one_of
        (codes "0" ∷ codes "f" ∷ codes "F" ∷ codes "FALSE" ∷ codes "false" ∷ codes "False" ∷ []) v
    then some false
    else none

abbrev pub before_cut : ℕ → Option (Bytes × Bytes) → Option (Bytes × Bytes)
before_cut c none = none
before_cut c (some (a, b)) = some (c ∷ a, b)

-- `strings.SplitN(s, sep, 2)`: the two parts, or `none` where there is one part only.
unfoldable pub cut : ℕ → Bytes → Option (Bytes × Bytes)
cut sep [] = none
cut sep (c ∷ cs) = let rest = cut sep cs in if c == sep then some ([], cs) else before_cut c rest

-- The round of parseLabels on a pair that has been cut into a key and a value.
unfoldable pub set_label : Bytes → Bytes → Bytes → Map Bytes → Res (Map Bytes)
set_label pair k v out =
    if str_eq k []
    then err (invalid_label pair)
    else if str_eq (trim_space k) managed_by_key
    then err (reserved_label managed_by_key)
    else ok (insert (trim_space k) (trim_space v) out)

-- One round of the loop of parseLabels.
unfoldable pub parse_label : Bytes → Map Bytes → Res (Map Bytes)
parse_label pair out = elim (cut b'=' pair) [
  | none ↦ err (invalid_label pair)
  | some (k, v) ↦ set_label pair k v out
]

unfoldable pub parse_pairs : List Bytes → Map Bytes → Res (Map Bytes)
parse_pairs [] out = ok out
parse_pairs (pair ∷ pairs) out = parse_label pair out >>= λ out'. parse_pairs pairs out'

unfoldable pub parse_labels : Bytes → Res (Map Bytes)
parse_labels s = if str_eq (trim_space s) [] then ok [] else parse_pairs (split b',' s) []

-- `for lk, lv := range lbls { opts.Labels[lk] = lv }`
unfoldable pub insert_all : Map Bytes → Map Bytes → Map Bytes
insert_all [] m = m
insert_all ((k, v) ∷ l) m = insert_all l (insert k v m)

-- The cases "size" and "labels" of the switch.
unfoldable pub set_size : Bytes → DiskOptions → Res DiskOptions
set_size v o = elim (parse_positive v) [
  | none ↦ err (invalid_size v)
  | some n ↦ ok (record o { size_gb = n })
]

unfoldable pub set_labels : Bytes → DiskOptions → Res DiskOptions
set_labels v o = parse_labels v >>= λ l. ok (record o { labels = insert_all l o.labels })

-- The switch of ParseDiskOptions, on the lower case key; `k` is the key as it was given.
unfoldable pub set_option : Bytes → Bytes → Bytes → DiskOptions → Res DiskOptions
set_option key k v o =
    if str_eq key (codes "size")
    then set_size v o
    else if str_eq key (codes "type")
    then (if one_of known_disk_types v
        then ok (record o { disk_type = v })
        else err (invalid_type v))
    else if str_eq key (codes "fs")
    then (if one_of valid_fs_types v then ok (record o { fs_type = v }) else err (invalid_fs v))
    else if str_eq key (codes "labels")
    then set_labels v o
    else if str_eq key (codes "sourcesnapshot")
    then ok (record o { source_snapshot = v })
    else if str_eq key (codes "sourceimage")
    then ok (record o { source_image = v })
    else if str_eq key (codes "snapshotonremove")
    then elim (parse_bool v) [
      | none ↦ err (invalid_bool v)
      | some b ↦ ok (record o { snapshot_on_remove = b })
    ]
    else if str_eq key (codes "reclaimpolicy")
    then (if one_of (reclaim_retain ∷ reclaim_delete ∷ []) (to_lower v)
        then ok (record o { reclaim_policy = to_lower v })
        else err (invalid_policy v))
    else err (unknown_option k)

unfoldable pub set_options : Map Bytes → DiskOptions → Res DiskOptions
set_options [] o = ok o
set_options ((k, v) ∷ raw) o = set_option (to_lower k) k v o >>= λ o'. set_options raw o'

-- The test after the loop.
unfoldable pub check_sources : DiskOptions → Res DiskOptions
check_sources o =
    if not (str_eq o.source_snapshot []) && not (str_eq o.source_image [])
    then err exclusive_sources
    else ok o

unfoldable pub parse_disk_options : Map Bytes → Res DiskOptions
parse_disk_options raw = set_options raw default_options >>= λ o. check_sources o

unfoldable pub effective_labels : DiskOptions → Map Bytes
unfolding insert_all
effective_labels o = insert managed_by_key managed_by_value (insert_all o.labels [])

-- `m[k]` on a map of strings: the empty string where there is no entry.
unfoldable pub label : Bytes → Map Bytes → Bytes
label k m = elim (lookup k m) [ none ↦ [] | some v ↦ v ]

-- The last loop of Matches.
unfoldable pub labels_agree : Map Bytes → Map Bytes → Bool
unfolding label
labels_agree [] other = true
labels_agree ((k, v) ∷ l) other = str_eq (label k other) v && labels_agree l other

unfoldable pub matches : DiskOptions → DiskOptions → Bool
matches o other =
    if not (o.size_gb == other.size_gb)
      || not (str_eq o.disk_type other.disk_type)
      || not (str_eq o.fs_type other.fs_type)
    then false
    else if not (str_eq o.source_snapshot other.source_snapshot)
        || not (str_eq o.source_image other.source_image)
    then false
    else if not (str_eq o.reclaim_policy other.reclaim_policy)
    then false
    else if not (length o.labels == length other.labels)
    then false
    else labels_agree o.labels other.labels
