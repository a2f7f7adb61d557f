-- ===== src/Gce/Options/Order.antt =====
-- The order in which ParseDiskOptions meets the entries of its map, which Go leaves open.
use docker_plugin_gce_pd.Prelude.{
  ℕ, ◌≡◌, ◌≢◌, refl, sym, ◌∙◌, ap, Bool, true, Option, none, some, [], ◌∷◌, ◌++◌, ok, err, arith,
  if◌then◌else◌,
}
use docker_plugin_gce_pd.Prelude.Bytes.{Bytes, codes, str_eq, str_eq→eq, to_lower}
use docker_plugin_gce_pd.Prelude.Map.{Map}
use docker_plugin_gce_pd.Prelude.{◌>>=◌}
use docker_plugin_gce_pd.Errors.{Res}
use docker_plugin_gce_pd.Gce.Options.{
  DiskOptions, default_options, one_of, known_disk_types, valid_fs_types, reclaim_retain,
  reclaim_delete, parse_positive, parse_bool, parse_labels, insert_all, set_size, set_labels,
  set_option, set_options, check_sources, parse_disk_options,
}

-- What an entry sets.
pub data Setting : Type 0 where
  size : ℕ → Setting
  type_is fs snapshot image policy : Bytes → Setting
  labelled : Map Bytes → Setting
  on_remove : Bool → Setting

abbrev apply : Setting → DiskOptions → DiskOptions
apply (size n) o = record o { size_gb = n }
apply (type_is v) o = record o { disk_type = v }
apply (fs v) o = record o { fs_type = v }
apply (snapshot v) o = record o { source_snapshot = v }
apply (image v) o = record o { source_image = v }
apply (policy v) o = record o { reclaim_policy = v }
apply (labelled l) o = record o { labels = insert_all l o.labels }
apply (on_remove b) o = record o { snapshot_on_remove = b }

abbrev key_of : Setting → Bytes
key_of (size n) = codes "size"
key_of (type_is v) = codes "type"
key_of (fs v) = codes "fs"
key_of (snapshot v) = codes "sourcesnapshot"
key_of (image v) = codes "sourceimage"
key_of (policy v) = codes "reclaimpolicy"
key_of (labelled l) = codes "labels"
key_of (on_remove b) = codes "snapshotonremove"

commutes :
    (s t : Setting) (o : DiskOptions)
    → key_of s ≢ key_of t
    → apply s (apply t o) ≡ apply t (apply s o)
commutes s t o other = ground arith

abbrev policy_of : Bytes → Option Setting
policy_of p = if one_of (reclaim_retain ∷ reclaim_delete ∷ []) p then some (policy p) else none

-- The setting of an entry, from its key in lower case.
abbrev pub setting_of : Bytes → Bytes → Option Setting
setting_of key v =
    if str_eq key (codes "size")
    then elim (parse_positive v) [ none ↦ none | some n ↦ some (size n) ]
    else if str_eq key (codes "type")
    then (if one_of known_disk_types v then some (type_is v) else none)
    else if str_eq key (codes "fs")
    then (if one_of valid_fs_types v then some (fs v) else none)
    else if str_eq key (codes "labels")
    then elim (parse_labels v) [ err e ↦ none | ok l ↦ some (labelled l) ]
    else if str_eq key (codes "sourcesnapshot")
    then some (snapshot v)
    else if str_eq key (codes "sourceimage")
    then some (image v)
    else if str_eq key (codes "snapshotonremove")
    then elim (parse_bool v) [ none ↦ none | some b ↦ some (on_remove b) ]
    else if str_eq key (codes "reclaimpolicy")
    then policy_of (to_lower v)
    else none

-- A result without its error.
abbrev pub shown : {A : Type 0} → Res A → Option A
shown (err e) = none
shown (ok a) = some a

abbrev pub applied : Option Setting → DiskOptions → Option DiskOptions
applied none o = none
applied (some s) o = some (apply s o)

set_option-shown :
    (key k v : Bytes) (o : DiskOptions)
    → shown (set_option key k v o) ≡ applied (setting_of key v) o
unfolding set_option set_size set_labels
set_option-shown key k v o = ground arith

setting_of-key :
    (key v : Bytes) (s : Setting) → setting_of key v ≡ some s → str_eq key (key_of s) ≡ true
setting_of-key key v s h = ground arith

-- The loop, where its errors are all one.
abbrev pub runs : Map Bytes → DiskOptions → Option DiskOptions
runs [] o = some o
runs ((k, v) ∷ raw) o = elim (applied (setting_of (to_lower k) v) o) [
  | none ↦ none
  | some o' ↦ runs raw o'
]

shown_bind :
    (r : Res DiskOptions) (f : DiskOptions → Res DiskOptions) (g : DiskOptions → Option DiskOptions)
    → ((o : DiskOptions) → shown (f o) ≡ g o)
    → shown (r >>= f) ≡ elim (shown r) [ none ↦ none | some o ↦ g o ]
shown_bind (err e) f g h = refl
shown_bind (ok o) f g h = h o

set_options-shown : (raw : Map Bytes) (o : DiskOptions) → shown (set_options raw o) ≡ runs raw o
unfolding set_options
set_options-shown [] o = refl
set_options-shown ((k, v) ∷ raw) o =
    shown_bind (set_option (to_lower k) k v o) (set_options raw) (runs raw) (set_options-shown raw)
    ∙ ap (λ (x : Option DiskOptions). elim x [ none ↦ none | some o' ↦ runs raw o' ])
        (set_option-shown (to_lower k) k v o)

-- Two entries, and those after them.
abbrev two : Option Setting → Option Setting → Map Bytes → DiskOptions → Option DiskOptions
two x y raw o = elim (applied x o) [
  | none ↦ none
  | some o' ↦ elim (applied y o') [ none ↦ none | some o'' ↦ runs raw o'' ]
]

two_swap :
    (x y : Option Setting) (raw : Map Bytes) (o : DiskOptions)
    → ((s t : Setting) → x ≡ some s → y ≡ some t → key_of t ≢ key_of s)
    → two x y raw o ≡ two y x raw o
two_swap none none raw o h = refl
two_swap none (some t) raw o h = refl
two_swap (some s) none raw o h = refl
two_swap (some s) (some t) raw o h = ap (runs raw) (commutes t s o (h s t refl refl))

pub runs-swap :
    (j k u v : Bytes) (raw : Map Bytes) (o : DiskOptions)
    → to_lower j ≢ to_lower k
    → runs ((j, u) ∷ (k, v) ∷ raw) o ≡ runs ((k, v) ∷ (j, u) ∷ raw) o
runs-swap j k u v raw o other =
    two_swap (setting_of (to_lower j) u) (setting_of (to_lower k) v) raw o λ s t a b e.
      let first = str_eq→eq (to_lower j) (key_of s) (setting_of-key (to_lower j) u s a) in
      let second = str_eq→eq (to_lower k) (key_of t) (setting_of-key (to_lower k) v t b) in
      other (first ∙ sym e ∙ sym second)

pub then_same :
    (x : Option DiskOptions) (f g : DiskOptions → Option DiskOptions)
    → ((o : DiskOptions) → f o ≡ g o)
    → elim x [ none ↦ none | some o ↦ f o ] ≡ elim x [ none ↦ none | some o ↦ g o ]
then_same none f g h = refl
then_same (some o) f g h = h o

runs-swap_after :
    (before : Map Bytes) (j k u v : Bytes) (raw : Map Bytes) (o : DiskOptions)
    → to_lower j ≢ to_lower k
    → runs (before ++ ((j, u) ∷ (k, v) ∷ raw)) o ≡ runs (before ++ ((k, v) ∷ (j, u) ∷ raw)) o
runs-swap_after [] j k u v raw o other = runs-swap j k u v raw o other
runs-swap_after ((i, x) ∷ before) j k u v raw o other =
    then_same (applied (setting_of (to_lower i) x) o) _ _
      λ o'. runs-swap_after before j k u v raw o' other

pub parse_disk_options-shown :
    (raw : Map Bytes)
    → shown (parse_disk_options raw)
      ≡ elim (runs raw default_options) [ none ↦ none | some o ↦ shown (check_sources o) ]
unfolding parse_disk_options
parse_disk_options-shown raw =
    shown_bind (set_options raw default_options) check_sources (λ o. shown (check_sources o))
      (λ o. refl)
    ∙ ap (λ (x : Option DiskOptions). elim x [ none ↦ none | some o ↦ shown (check_sources o) ])
        (set_options-shown raw default_options)

pub shown_ok : (r : Res DiskOptions) (o : DiskOptions) → shown r ≡ some o → r ≡ ok o
shown_ok (err e) o h = cc
shown_ok (ok a) o h = cc

-- Options that are accepted do not depend on the order in which Go gives the entries of the map:
-- two neighbours may change places, anywhere, if their keys differ in more than case.
pub parse_disk_options-swap :
    (before : Map Bytes) (j k u v : Bytes) (raw : Map Bytes) (o : DiskOptions)
    → to_lower j ≢ to_lower k
    → parse_disk_options (before ++ ((j, u) ∷ (k, v) ∷ raw)) ≡ ok o
    → parse_disk_options (before ++ ((k, v) ∷ (j, u) ∷ raw)) ≡ ok o
parse_disk_options-swap before j k u v raw o other accepted =
    let f : Option DiskOptions → Option DiskOptions =
      λ x. elim x [ none ↦ none | some o' ↦ shown (check_sources o') ] in
    shown_ok (parse_disk_options (before ++ ((k, v) ∷ (j, u) ∷ raw))) o (
      parse_disk_options-shown (before ++ ((k, v) ∷ (j, u) ∷ raw))
      ∙ ap f (sym (runs-swap_after before j k u v raw default_options other))
      ∙ sym (parse_disk_options-shown (before ++ ((j, u) ∷ (k, v) ∷ raw)))
      ∙ ap shown accepted)
