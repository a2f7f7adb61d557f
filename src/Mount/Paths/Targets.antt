-- ===== src/Mount/Paths/Targets.antt =====
-- The mount targets of volumes with valid names.
use docker_plugin_gce_pd.Prelude.{ℕ, ◌≡◌, refl, ◌∙◌, sym, [], ◌∷◌, ◌++◌, arith, ok}
use docker_plugin_gce_pd.Prelude.{◌==◌, if◌then◌else◌}
use docker_plugin_gce_pd.Prelude.Bytes.{Bytes, codes, str_eq, split, onto_first}
use docker_plugin_gce_pd.Gce.Name.{is_name_byte, validate_disk_name}
use docker_plugin_gce_pd.Gce.Name.Grammar.{
  AllOf, DiskName, letter, longer, DiskName-bytes, validate_disk_name_iff,
}
use docker_plugin_gce_pd.Mount.Paths.{mount_root, mountpoint_for, push_segment}

split_none : (s : Bytes) → AllOf is_name_byte s → split b'/' s ≡ s ∷ []
unfolding split
split_none [] _ = refl
split_none (c ∷ cs) (h, hs) = ground (arith, split_none cs hs)

last_segment :
    (c : ℕ) (cs : Bytes)
    → AllOf is_name_byte (c ∷ cs)
    → (if c == b'/' then [] ∷ split b'/' cs else onto_first c (split b'/' cs)) ≡ (c ∷ cs) ∷ []
last_segment c cs (h, hs) = rw (split_none cs hs) (ground arith)

target_of_bytes :
    (c : ℕ) (cs : Bytes)
    → AllOf is_name_byte (c ∷ cs)
    → mountpoint_for (c ∷ cs) ≡ mount_root ++ (codes "/" ++ (c ∷ cs))
unfolding mountpoint_for str_eq push_segment
target_of_bytes c cs (h, hs) = rw (last_segment c cs (h, hs)) (ground arith)

target_of_name :
    {name : Bytes} → DiskName name → mountpoint_for name ≡ mount_root ++ (codes "/" ++ name)
target_of_name (letter c h) = target_of_bytes c [] (DiskName-bytes (letter c h))
target_of_name (longer c middle last cs h a e w) =
    target_of_bytes c cs (DiskName-bytes (longer c middle last cs h a e w))

append-injective : (r a b : Bytes) → r ++ a ≡ r ++ b → a ≡ b
append-injective [] a b h = h
append-injective (c ∷ r) a b h = append-injective r a b (cc)

-- A volume with a valid name is mounted at its name below the mount root.
pub mountpoint_for_lem :
    (name : Bytes)
    → validate_disk_name name ≡ ok tt
    → mountpoint_for name ≡ mount_root ++ (codes "/" ++ name)
mountpoint_for_lem name h = target_of_name ((validate_disk_name_iff name).0 h).0

-- Two volumes with valid names have the same mount target only if they have the same name.
pub mountpoint_for-injective :
    (name other : Bytes)
    → validate_disk_name name ≡ ok tt
    → validate_disk_name other ≡ ok tt
    → mountpoint_for name ≡ mountpoint_for other
    → name ≡ other
mountpoint_for-injective name other h k same =
    append-injective (mount_root ++ codes "/") name other
      (sym (mountpoint_for_lem name h) ∙ same ∙ mountpoint_for_lem other k)
