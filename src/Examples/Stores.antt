-- ===== src/Examples/Stores.antt =====
-- The theorems on the state file and the store, at examples.
use docker_plugin_gce_pd.State.Json.{marshal}
use docker_plugin_gce_pd.Prelude.{◌≡◌, refl, some, [], ◌∷◌, ok}
use docker_plugin_gce_pd.Prelude.{is_ok, if◌then◌else◌}
use docker_plugin_gce_pd.Prelude.Bytes.{codes}
use docker_plugin_gce_pd.Prelude.Map.{Map, lookup}
use docker_plugin_gce_pd.State.Volume.{Volume}
use docker_plugin_gce_pd.State.Files.{json, fine, Fs, sorted_volumes, write_state}
use docker_plugin_gce_pd.State.Json.Roundtrip.{Utf8}
use docker_plugin_gce_pd.State.Store.{Store, load, persist}
use docker_plugin_gce_pd.State.Atomic.{write_state_atomic}
use docker_plugin_gce_pd.State.Reload.{load-persist}
use docker_plugin_gce_pd.Examples.World.{data_name, volume_with, store_of, full_disk}

abbrev one : Map Volume
one = (data_name, volume_with 0) ∷ []

-- The disk is full when the rename is due.
abbrev before_rename : Fs
before_rename = record { files = []; script = fine ∷ full_disk }

write_state_atomic_example :
    lookup (codes "/s") (write_state (codes "/s") one before_rename).1.files ≡ (
      if is_ok (write_state (codes "/s") one before_rename).0
      then some (json (marshal (sorted_volumes one)))
      else lookup (codes "/s") before_rename.files)
write_state_atomic_example = write_state_atomic (codes "/s") one before_rename

written : persist (store_of [] one) ≡ (ok tt, (persist (store_of [] one)).1)
unfolding persist write_state
written = refl

one-Utf8 : Utf8 data_name (volume_with 0)
unfolding docker_plugin_gce_pd.State.Json.json_text docker_plugin_gce_pd.State.Json.json_text_from
    docker_plugin_gce_pd.State.Json.rune_rest docker_plugin_gce_pd.State.Json.continues
    docker_plugin_gce_pd.Driver.Convert.to_state_options
one-Utf8 = record {
  name = refl;
  options = record {
    disk_type = refl;
    fs_type = refl;
    labels = tt;
    once = tt;
    source_snapshot = refl;
    source_image = refl;
    reclaim_policy = refl;
  };
  status = refl;
  mountpoint = refl;
  created_at = refl;
}

load-persist_example :
    (t : Store) × (load
        (codes "/state.json")
        (record (persist (store_of [] one)).1.fs { script = [] })
      ≡ ok t)
    × (lookup data_name t.vols ≡ lookup data_name one)
load-persist_example =
    load-persist (store_of [] one) (persist (store_of [] one)).1 data_name
      (unfold lookup in (refl, tt)) (refl, tt) (one-Utf8, tt) written
