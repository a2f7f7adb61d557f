-- ===== src/Examples/OptionSets.antt =====
-- The theorems on names and options, at examples.
use docker_plugin_gce_pd.Prelude.{◌≡◌, ◌↔◌, ◌⊎◌, ◌≤◌, refl, true, some, [], ◌∷◌, ◌++◌, ok}
use docker_plugin_gce_pd.Prelude.{ap, length, arith, if◌then◌else◌}
use docker_plugin_gce_pd.Prelude.Bytes.{Bytes, codes, str_eq}
use docker_plugin_gce_pd.Prelude.{◌≢◌}
use docker_plugin_gce_pd.Prelude.Bytes.{to_lower}
use docker_plugin_gce_pd.Prelude.Map.{Map}
use docker_plugin_gce_pd.Gce.Options.Order.{parse_disk_options-swap}
use docker_plugin_gce_pd.Gce.Name.{validate_disk_name}
use docker_plugin_gce_pd.Gce.Name.Grammar.{DiskName, validate_disk_name_iff}
use docker_plugin_gce_pd.Gce.Options.{
  DiskOptions, default_options, parse_disk_options, effective_labels, matches, managed_by_key,
  digits, managed_by_value,
}
use docker_plugin_gce_pd.Gce.Options.Valid.{AreValid, parse_disk_options-AreValid}
use docker_plugin_gce_pd.Examples.World.{data_name, plain_raw, plain_options}

validate_disk_name_iff_example :
    (validate_disk_name (codes "ab-") ≡ ok tt)
    ↔ (DiskName (codes "ab-") × (length (codes "ab-") ≤ 63))
validate_disk_name_iff_example = validate_disk_name_iff (codes "ab-")

parsed : parse_disk_options plain_raw ≡ ok plain_options
unfolding parse_disk_options docker_plugin_gce_pd.Gce.Options.set_options
    docker_plugin_gce_pd.Gce.Options.set_option str_eq docker_plugin_gce_pd.Prelude.Bytes.to_lower
    docker_plugin_gce_pd.Gce.Options.set_size docker_plugin_gce_pd.Gce.Options.parse_positive
    docker_plugin_gce_pd.Gce.Options.check_sources
parsed = refl

parse_disk_options-AreValid_example :
    AreValid plain_options
    × ((plain_options.source_snapshot ≡ []) ⊎ (plain_options.source_image ≡ []))
parse_disk_options-AreValid_example = parse_disk_options-AreValid plain_raw plain_options parsed

valid : validate_disk_name data_name ≡ ok tt
unfolding validate_disk_name str_eq
valid = refl

abbrev with_fs : Map Bytes
with_fs = (codes "size", codes "20") ∷ (codes "Fs", codes "xfs") ∷ []

abbrev xfs_options : DiskOptions
xfs_options = record plain_options { fs_type = codes "xfs" }

with_fs_parsed : parse_disk_options with_fs ≡ ok xfs_options
unfolding parse_disk_options docker_plugin_gce_pd.Gce.Options.set_options
    docker_plugin_gce_pd.Gce.Options.set_option str_eq docker_plugin_gce_pd.Prelude.Bytes.to_lower
    docker_plugin_gce_pd.Gce.Options.set_size docker_plugin_gce_pd.Gce.Options.parse_positive
    docker_plugin_gce_pd.Gce.Options.check_sources docker_plugin_gce_pd.Gce.Options.one_of
with_fs_parsed = refl

keys_differ : to_lower (codes "size") ≢ to_lower (codes "Fs")
unfolding to_lower
keys_differ e = cc

parse_disk_options-swap_example :
    parse_disk_options ((codes "Fs", codes "xfs") ∷ (codes "size", codes "20") ∷ [])
    ≡ ok xfs_options
parse_disk_options-swap_example =
    parse_disk_options-swap [] (codes "size") (codes "Fs") (codes "20") (codes "xfs") [] xfs_options
      keys_differ with_fs_parsed
