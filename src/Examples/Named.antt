-- ===== src/Examples/Named.antt =====
-- The theorems on names, references and settings, at those of one disk and two instances.
use docker_plugin_gce_pd.Prelude.{◌≡◌, ◌↔◌, refl, true, [], ◌∷◌, ◌++◌, ◌*◌, ok, arith}
use docker_plugin_gce_pd.Prelude.Bytes.{Bytes, codes}
use docker_plugin_gce_pd.Gce.Name.{validate_disk_name}
use docker_plugin_gce_pd.Gce.Refs.{same_instance, instance_path}
use docker_plugin_gce_pd.Gce.Refs.Names.{same_instance_iff}
use docker_plugin_gce_pd.Examples.World.{new_year}
use docker_plugin_gce_pd.Gce.Stamp.{now_stamp}
use docker_plugin_gce_pd.Gce.Disks.{snapshot_name}
use docker_plugin_gce_pd.Gce.Disks.Snapshots.{snapshot_name_valid}
use docker_plugin_gce_pd.Gce.Retry.{itoa}
use docker_plugin_gce_pd.Cmd.Config.{resolve_force_detach_after}
use docker_plugin_gce_pd.Cmd.Settings.{resolve_force_detach_after-seconds}

abbrev api : Bytes
api = codes "https://www.googleapis.com/compute/v1"

same_instance_iff_example :
    (same_instance
        (api ++ (codes "/" ++ instance_path (codes "p") (codes "z") (codes "vm-1")))
        (instance_path (codes "p") (codes "z") (codes "vm-2"))
      ≡ true)
    ↔ (codes "vm-1" ≡ codes "vm-2")
same_instance_iff_example =
    same_instance_iff api (codes "p") (codes "z") (codes "vm-1") (codes "vm-2")
      (refl, (refl, (refl, (refl, tt)))) (refl, (refl, (refl, (refl, tt))))

valid : validate_disk_name (codes "data-1") ≡ ok tt
unfolding validate_disk_name docker_plugin_gce_pd.Prelude.Bytes.str_eq
valid = refl

snapshot_name_valid_example :
    validate_disk_name (snapshot_name (codes "data-1") (now_stamp new_year)) ≡ ok tt
snapshot_name_valid_example = snapshot_name_valid (codes "data-1") new_year valid (omega arith)

resolve_force_detach_after-seconds_example :
    resolve_force_detach_after (λ f scale unit. 0) (itoa 90 ++ codes "s") ≡ ok (90 * 1_000_000_000)
resolve_force_detach_after-seconds_example =
    resolve_force_detach_after-seconds (λ f scale unit. 0) 90 (omega arith)
