-- ===== src/State/Json/Roundtrip.antt =====
-- Unmarshal of what Marshal has written.
use docker_plugin_gce_pd.State.Json.Labels.{IsText, BothText, add_labels-lem, Apart-nil}
use docker_plugin_gce_pd.State.Files.{sorted_volumes}
use docker_plugin_gce_pd.Prelude.{
  ◌≡◌, refl, Bool-cases, inl, inr, ◌∙◌, ap, Bool, true, false, Option, some, List, [], ◌∷◌, map,
  sym,
}
use docker_plugin_gce_pd.Prelude.Bytes.{Bytes, codes, str_eq, str_lt, to_lower, lower_byte}
use docker_plugin_gce_pd.Prelude.Map.{Map, NodupKeys, EachOf}
use docker_plugin_gce_pd.State.Volume.{VolumeOptions, Volume}
use docker_plugin_gce_pd.State.Files.{values, insert_sorted, sort_by_name, sorted_volumes}
use docker_plugin_gce_pd.State.Json.{
  Json, boolean, integer, string, object, Members, end, member, json_text, omitempty_text,
  omitempty_bool, omitempty_labels, text_member, marshal_labels, marshal_options, marshal_volume,
  marshal, add_labels, set_options_member, set_options_members, set_volume_member,
  set_volume_members, zero_options, zero_volume, unmarshal_volume, unmarshal, set_if,
}

-- The strings of the options are UTF-8, and no label stands twice.
pub record OptionsText (o : VolumeOptions) : Type 0 where
  pub disk_type : IsText o.disk_type
  pub fs_type : IsText o.fs_type
  pub labels : EachOf BothText o.labels
  pub once : NodupKeys o.labels
  pub source_snapshot : IsText o.source_snapshot
  pub source_image : IsText o.source_image
  pub reclaim_policy : IsText o.reclaim_policy

-- The strings of the record are UTF-8, and no label stands twice.
pub record Utf8 (k : Bytes) (v : Volume) : Type 0 where
  pub name : IsText v.name
  pub options : OptionsText v.options
  pub status : IsText v.status
  pub mountpoint : IsText v.mountpoint
  pub created_at : IsText v.created_at

-- One member after the other.
options_step :
    (key : Bytes) (j : Json) (ms : Members) (o o' : VolumeOptions)
    → set_options_member key j o ≡ some o'
    → set_options_members (member key j ms) o ≡ set_options_members ms o'
unfolding set_options_members
options_step key j ms o o' h = rw (set_options_members, h) refl

options_text :
    (key x : Bytes) (ms : Members) (o : VolumeOptions) (set : Bytes → VolumeOptions)
    → ((s : Bytes) → set_options_member key (string s) o ≡ some (set s))
    → IsText x
    → set_options_members (text_member key x ms) o ≡ set_options_members ms (set x)
options_text key x ms o set h t =
    options_step key (string (json_text x)) ms o (set x)
      (h (json_text x) ∙ ap (λ s. some (set s)) t)

options_omitempty :
    (key x : Bytes) (ms : Members) (o : VolumeOptions) (set : Bytes → VolumeOptions)
    → ((s : Bytes) → set_options_member key (string s) o ≡ some (set s))
    → set [] ≡ o
    → IsText x
    → set_options_members (omitempty_text key x ms) o ≡ set_options_members ms (set x)
options_omitempty key [] ms o set h e t = ap (set_options_members ms) (sym e)
options_omitempty key (c ∷ s) ms o set h e t = options_text key (c ∷ s) ms o set h t

options_bool :
    (key : Bytes) (b : Bool) (ms : Members) (o : VolumeOptions) (set : Bool → VolumeOptions)
    → ((c : Bool) → set_options_member key (boolean c) o ≡ some (set c))
    → set false ≡ o
    → set_options_members (omitempty_bool key b ms) o ≡ set_options_members ms (set b)
options_bool key false ms o set h e = ap (set_options_members ms) (sym e)
options_bool key true ms o set h e = options_step key (boolean true) ms o (set true) (h true)

options_labels :
    (key : Bytes) (l : Map Bytes) (ms : Members) (o : VolumeOptions)
    (set : Map Bytes → VolumeOptions)
    → ((c : Members) → set_options_member key (object c) o ≡ set_if (add_labels c []) set)
    → set [] ≡ o
    → EachOf BothText l
    → NodupKeys l
    → set_options_members (omitempty_labels key l ms) o ≡ set_options_members ms (set l)
options_labels key [] ms o set h e t u = ap (set_options_members ms) (sym e)
options_labels key (x ∷ l) ms o set h e t u =
    options_step key (object (marshal_labels (x ∷ l))) ms o (set (x ∷ l)) (
      h (marshal_labels (x ∷ l))
      ∙ ap (λ r. set_if r set) (add_labels-lem (x ∷ l) [] t u (Apart-nil (x ∷ l))))

options_end : (o : VolumeOptions) → set_options_members end o ≡ some o
unfolding set_options_members
options_end o = refl

set_options-lem :
    (o : VolumeOptions)
    → OptionsText o
    → set_options_members (marshal_options o) zero_options ≡ some o
unfolding marshal_options set_options_member str_eq to_lower lower_byte
set_options-lem o t =
    let o1 : VolumeOptions = record zero_options { size_gb = o.size_gb } in
    let o2 : VolumeOptions = record o1 { disk_type = o.disk_type } in
    let o3 : VolumeOptions = record o2 { fs_type = o.fs_type } in
    let o4 : VolumeOptions = record o3 { labels = o.labels } in
    let o5 : VolumeOptions = record o4 { source_snapshot = o.source_snapshot } in
    let o6 : VolumeOptions = record o5 { source_image = o.source_image } in
    let o7 : VolumeOptions = record o6 { snapshot_on_remove = o.snapshot_on_remove } in
    options_step (codes "sizeGb") (integer o.size_gb) _ zero_options o1 refl
    ∙ options_text (codes "type") o.disk_type _ o1 (λ s. record o1 { disk_type = s }) (λ s. refl)
        t.disk_type
    ∙ options_text (codes "fsType") o.fs_type _ o2 (λ s. record o2 { fs_type = s }) (λ s. refl)
        t.fs_type
    ∙ options_labels (codes "labels") o.labels _ o3 (λ l. record o3 { labels = l }) (λ c. refl) refl
        t.labels t.once
    ∙ options_omitempty (codes "sourceSnapshot") o.source_snapshot _ o4
        (λ s. record o4 { source_snapshot = s }) (λ s. refl) refl t.source_snapshot
    ∙ options_omitempty (codes "sourceImage") o.source_image _ o5
        (λ s. record o5 { source_image = s }) (λ s. refl) refl t.source_image
    ∙ options_bool (codes "snapshotOnRemove") o.snapshot_on_remove _ o6
        (λ b. record o6 { snapshot_on_remove = b }) (λ b. refl) refl
    ∙ options_omitempty (codes "reclaimPolicy") o.reclaim_policy end o7
        (λ s. record o7 { reclaim_policy = s }) (λ s. refl) refl t.reclaim_policy
    ∙ options_end o

volume_end : (v : Volume) → set_volume_members end v ≡ some v
unfolding set_volume_members
volume_end v = refl

volume_step :
    (key : Bytes) (j : Json) (ms : Members) (v v' : Volume)
    → set_volume_member key j v ≡ some v'
    → set_volume_members (member key j ms) v ≡ set_volume_members ms v'
unfolding set_volume_members
volume_step key j ms v v' h = rw (set_volume_members, h) refl

volume_text :
    (key x : Bytes) (ms : Members) (v : Volume) (set : Bytes → Volume)
    → ((s : Bytes) → set_volume_member key (string s) v ≡ some (set s))
    → IsText x
    → set_volume_members (text_member key x ms) v ≡ set_volume_members ms (set x)
volume_text key x ms v set h t =
    volume_step key (string (json_text x)) ms v (set x) (h (json_text x) ∙ ap (λ s. some (set s)) t)

volume_omitempty :
    (key x : Bytes) (ms : Members) (v : Volume) (set : Bytes → Volume)
    → ((s : Bytes) → set_volume_member key (string s) v ≡ some (set s))
    → set [] ≡ v
    → IsText x
    → set_volume_members (omitempty_text key x ms) v ≡ set_volume_members ms (set x)
volume_omitempty key [] ms v set h e t = ap (set_volume_members ms) (sym e)
volume_omitempty key (c ∷ s) ms v set h e t = volume_text key (c ∷ s) ms v set h t

set_volume-lem :
    (k : Bytes) (v : Volume) → Utf8 k v → unmarshal_volume (marshal_volume v) ≡ some (some v)
unfolding unmarshal_volume marshal_volume set_volume_member str_eq to_lower lower_byte
set_volume-lem k v t =
    let v1 : Volume = record zero_volume { name = v.name } in
    let v2 : Volume = record v1 { options = v.options } in
    let v3 : Volume = record v2 { status = v.status } in
    let v4 : Volume = record v3 { mountpoint = v.mountpoint } in
    let v5 : Volume = record v4 { ref_count = v.ref_count } in
    ap (λ r. set_if r some)
      (volume_text (codes "name") v.name _ zero_volume (λ s. record zero_volume { name = s })
          (λ s. refl) t.name
        ∙ volume_step (codes "options") (object (marshal_options v.options)) _ v1 v2 (
            ap (λ r. set_if r (λ o. record v1 { options = o }))
              (set_options-lem v.options t.options))
        ∙ volume_text (codes "status") v.status _ v2 (λ s. record v2 { status = s }) (λ s. refl)
            t.status
        ∙ volume_omitempty (codes "mountpoint") v.mountpoint _ v3
            (λ s. record v3 { mountpoint = s }) (λ s. refl) refl t.mountpoint
        ∙ volume_step (codes "refCount") (integer v.ref_count) _ v4 v5 refl
        ∙ volume_omitempty (codes "createdAt") v.created_at end v5
            (λ s. record v5 { created_at = s }) (λ s. refl) refl t.created_at
        ∙ volume_end v)

abbrev pub AreText : List Volume → Type 0
AreText [] = Unit
AreText (v ∷ vs) = Utf8 [] v × AreText vs

unmarshal_step :
    (j : Json) (js : List Json) (v : Option Volume) (vs : List (Option Volume))
    → unmarshal_volume j ≡ some v
    → unmarshal js ≡ some vs
    → unmarshal (j ∷ js) ≡ some (v ∷ vs)
unfolding unmarshal
unmarshal_step j js v vs a b = rw (unmarshal, a, b) refl

pub unmarshal-marshal :
    (vs : List Volume) → AreText vs → unmarshal (marshal vs) ≡ some (map some vs)
unfolding unmarshal marshal
unmarshal-marshal [] t = refl
unmarshal-marshal (v ∷ vs) (t, ts) =
    unmarshal_step (marshal_volume v) (marshal vs) (some v) (map some vs) (set_volume-lem [] v t)
      (unmarshal-marshal vs ts)

forget_key : (k : Bytes) (v : Volume) → Utf8 k v → Utf8 [] v
forget_key k v t = record {
  name = t.name;
  options = t.options;
  status = t.status;
  mountpoint = t.mountpoint;
  created_at = t.created_at;
}

values-AreText : (m : Map Volume) → EachOf Utf8 m → AreText (values m)
unfolding values
values-AreText [] t = tt
values-AreText ((k, v) ∷ m) (t, ts) = (forget_key k v t, values-AreText m ts)

insert_sorted-AreText :
    (v : Volume) (vs : List Volume) → Utf8 [] v → AreText vs → AreText (insert_sorted v vs)
unfolding insert_sorted
insert_sorted-AreText v [] t ts = (t, tt)
insert_sorted-AreText v (w ∷ ws) t (s, ss) = elim (Bool-cases (str_lt w.name v.name)) [
  | inl less ↦ rw less (s, insert_sorted-AreText v ws t ss)
  | inr more ↦ rw more (t, (s, ss))
]

sort_by_name-AreText : (vs : List Volume) → AreText vs → AreText (sort_by_name vs)
unfolding sort_by_name
sort_by_name-AreText [] t = tt
sort_by_name-AreText (v ∷ vs) (t, ts) =
    insert_sorted-AreText v (sort_by_name vs) t (sort_by_name-AreText vs ts)

pub sorted_volumes-AreText : (m : Map Volume) → EachOf Utf8 m → AreText (sorted_volumes m)
unfolding sorted_volumes
sorted_volumes-AreText m t = sort_by_name-AreText (values m) (values-AreText m t)
