-- ===== src/Gce/Options/Labels.antt =====
-- The labels of a disk: those of the parsed options, and those that are sent to GCE.
use docker_plugin_gce_pd.Prelude.{◌≡◌, refl, ◌∙◌, Option, none, some, []}
use docker_plugin_gce_pd.Prelude.{◌∷◌, ok, arith, if◌then◌else◌, >>=-eq-ok}
use docker_plugin_gce_pd.Prelude.Bytes.{Bytes, str_eq, str_eq_iff, to_lower}
use docker_plugin_gce_pd.Prelude.Map.{
  Map, lookup, insert, lookup-insert, lookup-nil, NodupKeys, insert-NodupKeys,
}
use docker_plugin_gce_pd.Gce.Options.{
  DiskOptions, default_options, managed_by_key, managed_by_value, parse_labels, insert_all,
  set_labels, set_size, set_option, set_options, check_sources, parse_disk_options,
  effective_labels,
}

pub insert_all-NodupKeys : (l m : Map Bytes) → NodupKeys m → NodupKeys (insert_all l m)
unfolding insert_all
insert_all-NodupKeys [] m u = u
insert_all-NodupKeys ((k, v) ∷ l) m u =
    insert_all-NodupKeys l (insert k v m) (insert-NodupKeys k v m u)

abbrev pub or_else : Option Bytes → Option Bytes → Option Bytes
or_else (some v) o = some v
or_else none o = o

-- Entries copied over a map: theirs win.
pub lookup-insert_all :
    (k : Bytes) (l m : Map Bytes)
    → NodupKeys l
    → lookup k (insert_all l m) ≡ or_else (lookup k l) (lookup k m)
unfolding insert_all lookup
lookup-insert_all k [] m _ = refl
lookup-insert_all k ((j, v) ∷ l) m (fresh, u) =
    ground (arith, lookup-insert_all k l (insert j v m) u, lookup-insert k j v m, str_eq_iff j k)

abbrev HasNodup : DiskOptions → Type 0
HasNodup o = NodupKeys o.labels

set_size-HasNodup :
    (v : Bytes) (o : DiskOptions) {o' : DiskOptions}
    → HasNodup o
    → set_size v o ≡ ok o'
    → HasNodup o'
unfolding set_size
set_size-HasNodup v o u h = ground arith

set_labels-HasNodup :
    (v : Bytes) (o : DiskOptions) {o' : DiskOptions}
    → HasNodup o
    → set_labels v o ≡ ok o'
    → HasNodup o'
unfolding set_labels
set_labels-HasNodup v o u h =
    let (l, parsed, set) = >>=-eq-ok (parse_labels v) _ h in
    ground (arith, insert_all-NodupKeys l o.labels u)

set_option-HasNodup :
    (key k v : Bytes) (o : DiskOptions) {o' : DiskOptions}
    → HasNodup o
    → set_option key k v o ≡ ok o'
    → HasNodup o'
unfolding set_option
set_option-HasNodup key k v o {o'} u h =
    ground (arith, set_size-HasNodup v o {o' = o'} u, set_labels-HasNodup v o {o' = o'} u)

set_options-HasNodup :
    (raw : Map Bytes) (o : DiskOptions) {o' : DiskOptions}
    → HasNodup o
    → set_options raw o ≡ ok o'
    → HasNodup o'
unfolding set_options
set_options-HasNodup [] o u h = ground arith
set_options-HasNodup ((k, v) ∷ raw) o u h =
    let (o1, set, rest) = >>=-eq-ok (set_option (to_lower k) k v o) _ h in
    set_options-HasNodup raw o1 (set_option-HasNodup (to_lower k) k v o u set) rest

-- Parsed labels have each key once.
pub parse_disk_options-HasNodup :
    (raw : Map Bytes) (o : DiskOptions) → parse_disk_options raw ≡ ok o → NodupKeys o.labels
unfolding parse_disk_options check_sources
parse_disk_options-HasNodup raw o h =
    let (o1, set, checked) = >>=-eq-ok (set_options raw default_options) _ h in
    let u : NodupKeys o1.labels = set_options-HasNodup raw default_options tt set in ground arith

-- Where the options have each label once, the labels sent to GCE are the user's, with the
-- managed-by label put over them.
pub lookup-effective_labels :
    (k : Bytes) (o : DiskOptions)
    → NodupKeys o.labels
    → lookup k (effective_labels o)
      ≡ (if str_eq managed_by_key k then some managed_by_value else lookup k o.labels)
unfolding effective_labels
lookup-effective_labels k o u =
    lookup-insert k managed_by_key managed_by_value (insert_all o.labels [])
    ∙ rw (lookup-insert_all k o.labels [] u, lookup-nil {V = Bytes}) (ground arith)
