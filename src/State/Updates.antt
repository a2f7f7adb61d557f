-- ===== src/State/Updates.antt =====
-- What the operations of the store leave under each name. None of this depends on whether the
-- write of the file fails.
use docker_plugin_gce_pd.Prelude.{◌≡◌, none, some, arith, if◌then◌else◌}
use docker_plugin_gce_pd.Prelude.Bytes.{Bytes, str_eq, str_eq_refl}
use docker_plugin_gce_pd.Prelude.Map.{lookup, lookup-insert, lookup-erase}
use docker_plugin_gce_pd.State.Volume.{Volume}
use docker_plugin_gce_pd.State.Store.{Store, add, remove, update}

pub lookup-update :
    (name : Bytes) (fn : Volume → Volume) (s : Store) (v : Volume)
    → lookup name s.vols ≡ some v
    → lookup name (update name fn s).1.vols ≡ some (fn v)
unfolding update
lookup-update name fn s v e = rw (e, update) (rw lookup-insert (ground (arith, str_eq_refl name)))

pub lookup-add :
    (v : Volume) (s : Store) → lookup v.name s.vols ≡ none → lookup v.name (add v s).1.vols ≡ some v
unfolding add
lookup-add v s e = rw (e, add) (rw lookup-insert (ground (arith, str_eq_refl v.name)))

-- Under every name.
pub lookup-update_at :
    (k name : Bytes) (fn : Volume → Volume) (s : Store) (v : Volume)
    → lookup name s.vols ≡ some v
    → lookup k (update name fn s).1.vols ≡ (if str_eq name k then some (fn v) else lookup k s.vols)
unfolding update
lookup-update_at k name fn s v e = rw (e, update) (lookup-insert k name (fn v) s.vols)

pub lookup-add_at :
    (k : Bytes) (v : Volume) (s : Store)
    → lookup v.name s.vols ≡ none
    → lookup k (add v s).1.vols ≡ (if str_eq v.name k then some v else lookup k s.vols)
unfolding add
lookup-add_at k v s e = rw (e, add) (lookup-insert k v.name v s.vols)

pub lookup-remove_at :
    (k name : Bytes) (s : Store) (v : Volume)
    → lookup name s.vols ≡ some v
    → lookup k (remove name s).1.vols ≡ (if str_eq name k then none else lookup k s.vols)
unfolding remove
lookup-remove_at k name s v e = rw (e, remove) (lookup-erase k name s.vols)

-- An operation on a volume that is not there, and Add of one that is, leave the store as it was.
pub update_missing :
    (name : Bytes) (fn : Volume → Volume) (s : Store)
    → lookup name s.vols ≡ none
    → (update name fn s).1 ≡ s
unfolding update
update_missing name fn s e = ground arith

pub remove_missing : (name : Bytes) (s : Store) → lookup name s.vols ≡ none → (remove name s).1 ≡ s
unfolding remove
remove_missing name s e = ground arith

pub add_present : (v w : Volume) (s : Store) → lookup v.name s.vols ≡ some w → (add v s).1 ≡ s
unfolding add
add_present v w s e = ground arith
