-- ===== src/State/Json.antt =====
-- state.go: what encoding/json makes of the records, by their struct tags. A document is what the
-- text of the state file says once it is scanned: its strings are the decoded ones, and an integer
-- of 64 bits is kept as its bit pattern.
pub mod Labels
pub mod Roundtrip
use docker_plugin_gce_pd.Prelude.{
  ℕ, zero, suc, Bool, true, false, ◌&&◌, ◌==◌, ltb, leb, if◌then◌else◌, Option, none, some, List,
  [], ◌∷◌,
}
use docker_plugin_gce_pd.Prelude.Bytes.{Bytes, codes, str_eq, to_lower}
use docker_plugin_gce_pd.Prelude.Map.{Map, insert}
use docker_plugin_gce_pd.State.Volume.{VolumeOptions, Volume}

mutual
  pub data Json : Type 0 where
    null : Json
    boolean : Bool → Json
    integer : ℕ → Json
    string : Bytes → Json
    object : Members → Json
    -- an array, or a number that is no integer of 64 bits
    other : Json

  pub data Members : Type 0 where
    end : Members
    member : Bytes → Json → Members → Members

-- The continuation bytes after a first byte of UTF-8, and the bounds of the first of them.
abbrev lead : ℕ → ℕ × ℕ × ℕ
lead a =
    if leb 194 a && leb a 223
    then (1, 128, 191)
    else if a == 224
    then (2, 160, 191)
    else if a == 237
    then (2, 128, 159)
    else if leb 225 a && leb a 239
    then (2, 128, 191)
    else if a == 240
    then (3, 144, 191)
    else if leb 241 a && leb a 243
    then (3, 128, 191)
    else if a == 244
    then (3, 128, 143)
    else (0, 0, 0)

unfoldable pub continues : ℕ → ℕ → ℕ → Bytes → Bool
continues zero lo hi s = true
continues (suc n) lo hi [] = false
continues (suc n) lo hi (b ∷ s) = (leb lo b && leb b hi) && continues n 128 191 s

-- The bytes after the first of the rune at the head of a string, or none if it is not UTF-8.
unfoldable pub rune_rest : ℕ → Bytes → Option ℕ
unfolding continues
rune_rest a s =
    if ltb a 128
    then some 0
    else (let (n, lo, hi) = lead a in if ltb 0 n && continues n lo hi s then some n else none)

-- The string, after so many bytes that belong to a rune already read, with U+FFFD for each byte
-- that is not UTF-8.
unfoldable pub json_text_from : ℕ → Bytes → Bytes
json_text_from n [] = []
json_text_from (suc n) (a ∷ s) = a ∷ json_text_from n s
json_text_from zero (a ∷ s) = elim (rune_rest a s) [
  | none ↦ 239 ∷ 191 ∷ 189 ∷ json_text_from zero s
  | some n ↦ a ∷ json_text_from n s
]

-- A string written and read again.
unfoldable pub json_text : Bytes → Bytes
json_text s = json_text_from zero s

-- The members of a struct, `omitempty` ones where they are not empty.
abbrev pub text_member : Bytes → Bytes → Members → Members
text_member key s rest = member key (string (json_text s)) rest

abbrev pub omitempty_text : Bytes → Bytes → Members → Members
omitempty_text key [] rest = rest
omitempty_text key (c ∷ s) rest = text_member key (c ∷ s) rest

abbrev pub omitempty_bool : Bytes → Bool → Members → Members
omitempty_bool key false rest = rest
omitempty_bool key true rest = member key (boolean true) rest

-- Marshal sorts the labels by key, which no reader of the object sees.
unfoldable pub marshal_labels : Map Bytes → Members
marshal_labels [] = end
marshal_labels ((k, v) ∷ labels) = text_member (json_text k) v (marshal_labels labels)

abbrev pub omitempty_labels : Bytes → Map Bytes → Members → Members
omitempty_labels key [] rest = rest
omitempty_labels key (l ∷ labels) rest = member key (object (marshal_labels (l ∷ labels))) rest

-- Marshal of a VolumeOptions
unfoldable pub marshal_options : VolumeOptions → Members
marshal_options o = member (codes "sizeGb") (integer o.size_gb) (
    text_member (codes "type") o.disk_type (
      text_member (codes "fsType") o.fs_type (
        omitempty_labels (codes "labels") o.labels (
          omitempty_text (codes "sourceSnapshot") o.source_snapshot (
            omitempty_text (codes "sourceImage") o.source_image (
              omitempty_bool (codes "snapshotOnRemove") o.snapshot_on_remove
                (omitempty_text (codes "reclaimPolicy") o.reclaim_policy end)))))))

-- Marshal of a Volume
unfoldable pub marshal_volume : Volume → Json
marshal_volume v = object (
    text_member (codes "name") v.name (
      member (codes "options") (object (marshal_options v.options)) (
        text_member (codes "status") v.status (
          omitempty_text (codes "mountpoint") v.mountpoint (
            member (codes "refCount") (integer v.ref_count)
              (omitempty_text (codes "createdAt") v.created_at end))))))

-- Marshal of the slice that persist has sorted.
unfoldable pub marshal : List Volume → List Json
marshal [] = []
marshal (v ∷ vs) = marshal_volume v ∷ marshal vs

-- A value stored in a field: a null changes nothing, and a value of another type is an error.
abbrev pub into_text : Json → Bytes → Option Bytes
into_text null old = some old
into_text (string s) old = some s
into_text _ old = none

abbrev pub into_integer : Json → ℕ → Option ℕ
into_integer null old = some old
into_integer (integer n) old = some n
into_integer _ old = none

abbrev pub into_bool : Json → Bool → Option Bool
into_bool null old = some old
into_bool (boolean b) old = some b
into_bool _ old = none

-- The entries of an object, added to a map of strings.
unfoldable pub add_labels : Members → Map Bytes → Option (Map Bytes)
add_labels end m = some m
add_labels (member k j ms) m = elim (into_text j []) [
  | none ↦ none
  | some s ↦ add_labels ms (insert k s m)
]

abbrev pub into_labels : Json → Map Bytes → Option (Map Bytes)
into_labels null old = some []
into_labels (object ms) old = add_labels ms old
into_labels _ old = none

-- The field of a key is found without regard to case.
abbrev pub is_field : Bytes → Bytes → Bool
is_field tag key = str_eq (to_lower key) (to_lower tag)

abbrev pub set_if : {A B : Type 0} → Option A → (A → B) → Option B
set_if none f = none
set_if (some a) f = some (f a)

unfoldable pub set_options_member : Bytes → Json → VolumeOptions → Option VolumeOptions
set_options_member key j o =
    if is_field (codes "sizeGb") key
    then set_if (into_integer j o.size_gb) (λ n. record o { size_gb = n })
    else if is_field (codes "type") key
    then set_if (into_text j o.disk_type) (λ s. record o { disk_type = s })
    else if is_field (codes "fsType") key
    then set_if (into_text j o.fs_type) (λ s. record o { fs_type = s })
    else if is_field (codes "labels") key
    then set_if (into_labels j o.labels) (λ l. record o { labels = l })
    else if is_field (codes "sourceSnapshot") key
    then set_if (into_text j o.source_snapshot) (λ s. record o { source_snapshot = s })
    else if is_field (codes "sourceImage") key
    then set_if (into_text j o.source_image) (λ s. record o { source_image = s })
    else if is_field (codes "snapshotOnRemove") key
    then set_if (into_bool j o.snapshot_on_remove) (λ b. record o { snapshot_on_remove = b })
    else if is_field (codes "reclaimPolicy") key
    then set_if (into_text j o.reclaim_policy) (λ s. record o { reclaim_policy = s })
    else some o

unfoldable pub set_options_members : Members → VolumeOptions → Option VolumeOptions
set_options_members end o = some o
set_options_members (member key j ms) o = elim (set_options_member key j o) [
  | none ↦ none
  | some o' ↦ set_options_members ms o'
]

abbrev pub into_options : Json → VolumeOptions → Option VolumeOptions
into_options null old = some old
into_options (object ms) old = set_options_members ms old
into_options _ old = none

unfoldable pub set_volume_member : Bytes → Json → Volume → Option Volume
set_volume_member key j v =
    if is_field (codes "name") key
    then set_if (into_text j v.name) (λ s. record v { name = s })
    else if is_field (codes "options") key
    then set_if (into_options j v.options) (λ o. record v { options = o })
    else if is_field (codes "status") key
    then set_if (into_text j v.status) (λ s. record v { status = s })
    else if is_field (codes "mountpoint") key
    then set_if (into_text j v.mountpoint) (λ s. record v { mountpoint = s })
    else if is_field (codes "refCount") key
    then set_if (into_integer j v.ref_count) (λ n. record v { ref_count = n })
    else if is_field (codes "createdAt") key
    then set_if (into_text j v.created_at) (λ s. record v { created_at = s })
    else some v

unfoldable pub set_volume_members : Members → Volume → Option Volume
set_volume_members end v = some v
set_volume_members (member key j ms) v = elim (set_volume_member key j v) [
  | none ↦ none
  | some v' ↦ set_volume_members ms v'
]

abbrev pub zero_options : VolumeOptions
zero_options = record {
  size_gb = 0;
  disk_type = [];
  fs_type = [];
  labels = [];
  source_snapshot = [];
  source_image = [];
  snapshot_on_remove = false;
  reclaim_policy = [];
}

abbrev pub zero_volume : Volume
zero_volume = record {
  name = [];
  options = zero_options;
  status = [];
  mountpoint = [];
  ref_count = 0;
  created_at = [];
}

-- An element of the `[]*Volume` that Unmarshal fills: a null is a nil pointer.
unfoldable pub unmarshal_volume : Json → Option (Option Volume)
unmarshal_volume null = some none
unmarshal_volume (object ms) = set_if (set_volume_members ms zero_volume) some
unmarshal_volume _ = none

-- Unmarshal of the file: none is its error.
unfoldable pub unmarshal : List Json → Option (List (Option Volume))
unmarshal [] = some []
unmarshal (j ∷ js) = elim (unmarshal_volume j) [
  | none ↦ none
  | some v ↦ set_if (unmarshal js) (λ vs. v ∷ vs)
]
