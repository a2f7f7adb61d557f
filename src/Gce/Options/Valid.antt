-- ===== src/Gce/Options/Valid.antt =====
-- What holds of options that ParseDiskOptions accepts.
use docker_plugin_gce_pd.Prelude.{ℕ, ◌≡◌, refl, ◌∙◌, ◌<◌, ◌^◌, true, Option, none, some}
use docker_plugin_gce_pd.Prelude.{List, [], ◌∷◌, ok, arith, ◌⊎◌}
use docker_plugin_gce_pd.Prelude.Bytes.{Bytes, str_eq, str_eq_iff, trim_space, to_lower, split}
use docker_plugin_gce_pd.Prelude.Map.{Map, lookup, insert, lookup-insert, lookup-nil}
use docker_plugin_gce_pd.Prelude.{>>=-eq-ok}
use mathlib.Core.Path.{subst}
use docker_plugin_gce_pd.Gce.Options.{
  DiskOptions, default_options, managed_by_key, reclaim_retain, reclaim_delete, one_of,
  known_disk_types, valid_fs_types, parse_positive, set_label, cut, parse_label, parse_pairs,
  parse_labels, insert_all, set_size, set_labels, set_option, set_options, check_sources,
  parse_disk_options,
}

-- The values that every parsed option set has.
pub record AreValid (o : DiskOptions) : Type 0 where
  pub positive : 0 < o.size_gb
  pub in_int64 : o.size_gb < 2 ^ 63
  pub known_type : one_of known_disk_types o.disk_type ≡ true
  pub known_fs : one_of valid_fs_types o.fs_type ≡ true
  pub known_policy : one_of (reclaim_retain ∷ reclaim_delete ∷ []) o.reclaim_policy ≡ true
  pub unreserved : lookup managed_by_key o.labels ≡ none

parse_positive_bounds : (v : Bytes) (n : ℕ) → parse_positive v ≡ some n → (0 < n) × (n < 2 ^ 63)
unfolding parse_positive
parse_positive_bounds v n h = ground arith

set_label-unreserved :
    (pair k v : Bytes) (out : Map Bytes) {out' : Map Bytes}
    → lookup managed_by_key out ≡ none
    → set_label pair k v out ≡ ok out'
    → lookup managed_by_key out' ≡ none
unfolding set_label
set_label-unreserved pair k v out u h =
    ground (arith, lookup-insert managed_by_key (trim_space k) (trim_space v) out)

parse_label-unreserved :
    (pair : Bytes) (out : Map Bytes) {out' : Map Bytes}
    → lookup managed_by_key out ≡ none
    → parse_label pair out ≡ ok out'
    → lookup managed_by_key out' ≡ none
unfolding parse_label
parse_label-unreserved pair out {out'} u h = go (cut b'=' pair) refl
  where
    go : (o : Option (Bytes × Bytes)) → cut b'=' pair ≡ o → lookup managed_by_key out' ≡ none
    go none e = cc (rw (e, parse_label) at h)
    go (some (k, v)) e = set_label-unreserved pair k v out u (rw (e, parse_label) at h)

parse_pairs-unreserved :
    (pairs : List Bytes) (out : Map Bytes) {l : Map Bytes}
    → lookup managed_by_key out ≡ none
    → parse_pairs pairs out ≡ ok l
    → lookup managed_by_key l ≡ none
unfolding parse_pairs
parse_pairs-unreserved [] out u h = ground arith
parse_pairs-unreserved (pair ∷ pairs) out u h =
    let (out', parsed, rest) = >>=-eq-ok (parse_label pair out) _ h in
    parse_pairs-unreserved pairs out' (parse_label-unreserved pair out u parsed) rest

parse_labels-unreserved :
    (s : Bytes) (l : Map Bytes) → parse_labels s ≡ ok l → lookup managed_by_key l ≡ none
unfolding parse_labels
parse_labels-unreserved s l h =
    ground (
      arith,
      parse_pairs-unreserved (split b',' s) [] {l = l},
      lookup-nil {V = Bytes} managed_by_key,
    )

pub lookup-insert_all_absent :
    (k : Bytes) (l m : Map Bytes) → lookup k l ≡ none → lookup k (insert_all l m) ≡ lookup k m
unfolding insert_all lookup
lookup-insert_all_absent k [] m h = refl
lookup-insert_all_absent k ((j, v) ∷ l) m h =
    ground (arith, lookup-insert_all_absent k l (insert j v m), lookup-insert k j v m)

set_size-AreValid :
    (v : Bytes) (o : DiskOptions) {o' : DiskOptions}
    → AreValid o
    → set_size v o ≡ ok o'
    → AreValid o'
unfolding set_size
set_size-AreValid v o {o'} valid h = go (parse_positive v) refl
  where
    go : (n : Option ℕ) → parse_positive v ≡ n → AreValid o'
    go none e = cc (rw (e, set_size) at h)
    go (some n) e =
        let bounds : (0 < n) × (n < 2 ^ 63) = parse_positive_bounds v n e in
        let set : set_size v o ≡ ok (record o { size_gb = n }) = rw (e, set_size) in ground arith

set_labels-AreValid :
    (v : Bytes) (o : DiskOptions) {o' : DiskOptions}
    → AreValid o
    → set_labels v o ≡ ok o'
    → AreValid o'
unfolding set_labels
set_labels-AreValid v o {o'} valid h =
    let (l, parsed, set) = >>=-eq-ok (parse_labels v) _ h in
    let absent : lookup managed_by_key (insert_all l o.labels) ≡ none =
      lookup-insert_all_absent managed_by_key l o.labels (parse_labels-unreserved v l parsed)
      ∙ valid.unreserved in
    ground arith

set_option-AreValid :
    (key k v : Bytes) (o : DiskOptions) {o' : DiskOptions}
    → AreValid o
    → set_option key k v o ≡ ok o'
    → AreValid o'
unfolding set_option
set_option-AreValid key k v o {o'} valid h =
    ground (arith, set_size-AreValid v o {o' = o'} valid, set_labels-AreValid v o {o' = o'} valid)

set_options-AreValid :
    (raw : Map Bytes) (o : DiskOptions) {o' : DiskOptions}
    → AreValid o
    → set_options raw o ≡ ok o'
    → AreValid o'
unfolding set_options
set_options-AreValid [] o valid h = ground arith
set_options-AreValid ((k, v) ∷ raw) o valid h =
    let (o1, set, rest) = >>=-eq-ok (set_option (to_lower k) k v o) _ h in
    set_options-AreValid raw o1 (set_option-AreValid (to_lower k) k v o valid set) rest

default-AreValid : AreValid default_options
unfolding one_of str_eq lookup
default-AreValid = record {
  positive = omega arith;
  in_int64 = omega arith;
  known_type = refl;
  known_fs = refl;
  known_policy = refl;
  unreserved = refl;
}

check_sources_lem :
    (o : DiskOptions) {o' : DiskOptions}
    → check_sources o ≡ ok o'
    → (o ≡ o') × ((o'.source_snapshot ≡ []) ⊎ (o'.source_image ≡ []))
unfolding check_sources
check_sources_lem o h =
    ground (arith, str_eq_iff o.source_snapshot [], str_eq_iff o.source_image [])

-- Options that are accepted, whatever the entries and their order, have a size that is positive
-- and fits an int64, a known disk type, a known filesystem, a known reclaim policy, no label under
-- the plugin's managed-by key, and at most one of a source snapshot and a source image.
pub parse_disk_options-AreValid :
    (raw : Map Bytes) (o : DiskOptions)
    → parse_disk_options raw ≡ ok o
    → AreValid o × ((o.source_snapshot ≡ []) ⊎ (o.source_image ≡ []))
unfolding parse_disk_options
parse_disk_options-AreValid raw o h =
    let (o1, set, checked) = >>=-eq-ok (set_options raw default_options) _ h in
    let (same, sources) = check_sources_lem o1 checked in
    (subst AreValid same (set_options-AreValid raw default_options default-AreValid set), sources)
