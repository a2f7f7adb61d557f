-- ===== src/Gce/Name.antt =====
-- gce/options.go: ValidateDiskName and the expression `^[a-z]([-a-z0-9]*[a-z0-9])?$`.
pub mod Grammar
use docker_plugin_gce_pd.Prelude.{ℕ, Bool, true, false, [], ◌∷◌, ◌&&◌, ◌||◌, ◌==◌, ok, err}
use docker_plugin_gce_pd.Prelude.{ltb, leb, length, if◌then◌else◌}
use docker_plugin_gce_pd.Prelude.Bytes.{Bytes, str_eq}
use docker_plugin_gce_pd.Errors.{Res, empty_name, long_name, malformed_name}

abbrev pub max_disk_name_len : ℕ
max_disk_name_len = 63

-- `[a-z]`, `[a-z0-9]` and `[-a-z0-9]`
abbrev pub is_lower : ℕ → Bool
is_lower c = leb b'a' c && leb c b'z'

abbrev pub is_alnum : ℕ → Bool
is_alnum c = is_lower c || (leb b'0' c && leb c b'9')

abbrev pub is_name_byte : ℕ → Bool
is_name_byte c = is_alnum c || c == b'-'

-- What `([-a-z0-9]*[a-z0-9])?$` matches.
pub matches_rest : Bytes → Bool
matches_rest [] = true
matches_rest (c ∷ []) = is_alnum c
matches_rest (c ∷ d ∷ cs) = is_name_byte c && matches_rest (d ∷ cs)

-- `diskNameRE.MatchString`
unfoldable pub matches_name : Bytes → Bool
unfolding matches_rest
matches_name [] = false
matches_name (c ∷ cs) = is_lower c && matches_rest cs

unfoldable pub validate_disk_name : Bytes → Res (Unit {0})
unfolding matches_name
validate_disk_name name =
    if str_eq name []
    then err empty_name
    else if ltb max_disk_name_len (length name)
    then err (long_name name)
    else if matches_name name
    then ok tt
    else err (malformed_name name)
