-- ===== src/Gce/Refs.antt =====
-- gce/attach.go: references to instances, and the small helpers on strings.
pub mod Names
use docker_plugin_gce_pd.Prelude.{
  ℕ, zero, suc, Bool, true, false, ◌&&◌, ◌||◌, Option, none, some, [], ◌∷◌, ◌++◌, ◌==◌,
  if◌then◌else◌,
}
use docker_plugin_gce_pd.Prelude.Bytes.{Bytes, codes, str_eq}
use docker_plugin_gce_pd.Gce.Info.{last_url_segment}

unfoldable pub has_prefix : Bytes → Bytes → Bool
has_prefix s [] = true
has_prefix [] (p ∷ ps) = false
has_prefix (c ∷ cs) (p ∷ ps) = c == p && has_prefix cs ps

-- `s[i:]` for `i = lastIndex(s, sub)`, where that is not -1; `sub` is not empty.
unfoldable pub from_last_index : Bytes → Bytes → Option Bytes
unfolding has_prefix
from_last_index sub [] = none
from_last_index sub (c ∷ cs) = elim (from_last_index sub cs) [
  | some rest ↦ some rest
  | none ↦ if has_prefix (c ∷ cs) sub then some (c ∷ cs) else none
]

abbrev pub drop_first : Bytes → Bytes
drop_first [] = []
drop_first (c ∷ cs) = cs

abbrev pub marker : Bytes
marker = codes "/projects/"

-- Without the marker both of its other branches return `s`.
unfoldable pub trailing_instance_path : Bytes → Bytes
unfolding from_last_index
trailing_instance_path s = elim (from_last_index marker s) [
  | some rest ↦ drop_first rest
  | none ↦ if has_prefix s (codes "projects/") then s else s
]

unfoldable pub same_instance : Bytes → Bytes → Bool
unfolding trailing_instance_path
same_instance a b = str_eq (trailing_instance_path a) (trailing_instance_path b)

unfoldable pub instance_name_from_ref : Bytes → Bytes
unfolding trailing_instance_path last_url_segment
instance_name_from_ref ref = last_url_segment (trailing_instance_path ref)

-- The path of an instance, in instanceSelfLink and in diskReleasedBy.
unfoldable pub instance_path : Bytes → Bytes → Bytes → Bytes
instance_path project zone name =
    codes "projects/" ++ (project ++ (codes "/zones/" ++ (zone ++ (codes "/instances/" ++ name))))

-- isHolderDown
unfoldable pub is_holder_down : Bytes → Bool
is_holder_down status =
    str_eq status []
    || str_eq status (codes "TERMINATED")
    || str_eq status (codes "STOPPED")
    || str_eq status (codes "STOPPING")
    || str_eq status (codes "SUSPENDED")
    || str_eq status (codes "SUSPENDING")

-- truncate
unfoldable pub truncate : Bytes → ℕ → Bytes
truncate s zero = []
truncate [] (suc n) = []
truncate (c ∷ cs) (suc n) = c ∷ truncate cs n
