-- ===== src/Gce/Options/Match.antt =====
-- When Matches takes two option sets for the same disk.
use docker_plugin_gce_pd.Prelude.{◌≡◌, refl, ◌≢◌, Bool, true, none, some, []}
use docker_plugin_gce_pd.Prelude.{◌∷◌, arith, length}
use docker_plugin_gce_pd.Prelude.Bytes.{Bytes, str_eq_iff, str_eq_refl}
use docker_plugin_gce_pd.Prelude.Map.{Map, lookup, NodupKeys, EachOf}
use docker_plugin_gce_pd.Gce.Options.{DiskOptions, label, labels_agree, matches}

-- The label has the value in the map.
abbrev pub Labelled : Map Bytes → Bytes → Bytes → Type 0
Labelled m k v = lookup k m ≡ some v

Labelled-cons :
    (j w : Bytes) (l m : Map Bytes)
    → lookup j m ≡ none
    → EachOf (Labelled l) m
    → EachOf (Labelled ((j, w) ∷ l)) m
unfolding lookup
Labelled-cons j w l [] fresh _ = tt
Labelled-cons j w l ((k, v) ∷ m) fresh (e, es) =
    (ground (arith, str_eq_iff j k, str_eq_iff k j), Labelled-cons j w l m (ground arith) es)

Labelled-self : (m : Map Bytes) → NodupKeys m → EachOf (Labelled m) m
Labelled-self [] _ = tt
Labelled-self ((k, v) ∷ m) (fresh, u) =
    (unfold lookup in rw (str_eq_refl k), Labelled-cons k v m m fresh (Labelled-self m u))

labels_agree-of_Labelled : (l m : Map Bytes) → EachOf (Labelled m) l → labels_agree l m ≡ true
unfolding labels_agree label
labels_agree-of_Labelled [] m _ = refl
labels_agree-of_Labelled ((k, v) ∷ l) m (e, es) =
    ground (arith, labels_agree-of_Labelled l m es, str_eq_refl v)

-- Options with each label once match themselves, whatever SnapshotOnRemove is in either.
pub matches_self :
    (o : DiskOptions) (snapshot : Bool)
    → NodupKeys o.labels
    → matches o (record o { snapshot_on_remove = snapshot }) ≡ true
unfolding matches
matches_self o snapshot u = ground (
  arith,
  str_eq_refl o.disk_type,
  str_eq_refl o.fs_type,
  str_eq_refl o.source_snapshot,
  str_eq_refl o.source_image,
  str_eq_refl o.reclaim_policy,
  labels_agree-of_Labelled o.labels o.labels (Labelled-self o.labels u),
)

-- What a match says of the labels.
abbrev pub Reads : Map Bytes → Bytes → Bytes → Type 0
Reads m k v = label k m ≡ v

labels_agree-Reads : (l m : Map Bytes) → labels_agree l m ≡ true → EachOf (Reads m) l
unfolding labels_agree
labels_agree-Reads [] m h = tt
labels_agree-Reads ((k, v) ∷ l) m h =
    (ground (arith, str_eq_iff (label k m) v), labels_agree-Reads l m (ground arith))

-- Two option sets that match have the same size, type, filesystem, sources and policy, as many
-- labels, and each label of the first reads the same in the second.
pub record SameDisk (a b : DiskOptions) : Type 0 where
  pub size : a.size_gb ≡ b.size_gb
  pub disk_type : a.disk_type ≡ b.disk_type
  pub fs_type : a.fs_type ≡ b.fs_type
  pub source_snapshot : a.source_snapshot ≡ b.source_snapshot
  pub source_image : a.source_image ≡ b.source_image
  pub reclaim_policy : a.reclaim_policy ≡ b.reclaim_policy
  pub as_many_labels : length a.labels ≡ length b.labels
  pub labels : EachOf (Reads b.labels) a.labels

abbrev Scalars : DiskOptions → DiskOptions → Type 0
Scalars a b =
    (a.size_gb ≡ b.size_gb)
    × (a.disk_type ≡ b.disk_type)
    × (a.fs_type ≡ b.fs_type)
    × (a.source_snapshot ≡ b.source_snapshot)
    × (a.source_image ≡ b.source_image)
    × (a.reclaim_policy ≡ b.reclaim_policy)
    × (length a.labels ≡ length b.labels)
    × (labels_agree a.labels b.labels ≡ true)

matches-Scalars : (a b : DiskOptions) → matches a b ≡ true → Scalars a b
unfolding matches
matches-Scalars a b h = ground (
  arith,
  str_eq_iff a.disk_type b.disk_type,
  str_eq_iff a.fs_type b.fs_type,
  str_eq_iff a.source_snapshot b.source_snapshot,
  str_eq_iff a.source_image b.source_image,
  str_eq_iff a.reclaim_policy b.reclaim_policy,
)

-- Options that match have the same size, type, filesystem, sources and reclaim policy, as many
-- labels, and each label of the first reads the same in the second.
pub matches-SameDisk : (a b : DiskOptions) → matches a b ≡ true → SameDisk a b
matches-SameDisk a b h =
    let (size, type', fs, snapshot, image, policy, count, labels) = matches-Scalars a b h in
    record {
      size = size;
      disk_type = type';
      fs_type = fs;
      source_snapshot = snapshot;
      source_image = image;
      reclaim_policy = policy;
      as_many_labels = count;
      labels = labels_agree-Reads a.labels b.labels labels;
    }

-- Options whose only label has an empty value match those that differ from them in having another
-- label, with any value, in its place.
pub matches_other_label :
    (o : DiskOptions) (k j v : Bytes)
    → k ≢ j
    → matches (record o { labels = (k, []) ∷ [] }) (record o { labels = (j, v) ∷ [] }) ≡ true
unfolding matches labels_agree label lookup
matches_other_label o k j v h = ground (
  arith,
  str_eq_refl o.disk_type,
  str_eq_refl o.fs_type,
  str_eq_refl o.source_snapshot,
  str_eq_refl o.source_image,
  str_eq_refl o.reclaim_policy,
  str_eq_refl [],
  str_eq_iff j k,
)
