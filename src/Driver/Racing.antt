-- ===== src/Driver/Racing.antt =====
-- Create right after a Remove that has started a background delete.
use docker_plugin_gce_pd.Driver.Waiting.{run_background-taken}
use docker_plugin_gce_pd.Driver.Lifecycle.{take_task, put_back, run_background}
use docker_plugin_gce_pd.Driver.Interface.{Task}
use docker_plugin_gce_pd.Prelude.{length, List, [], ap, ◌∙◌, refl}
use docker_plugin_gce_pd.Prelude.{◌∷◌, inl, inr, ◌⊎◌, Bool-cases, refl, ◌≡◌, true, ok, err, arith}
use docker_plugin_gce_pd.Prelude.Bytes.{Bytes, str_eq_iff}
use docker_plugin_gce_pd.Errors.{still_deleting}
use docker_plugin_gce_pd.Gce.Name.{validate_disk_name}
use docker_plugin_gce_pd.State.Store
use docker_plugin_gce_pd.State.Store.{Store}
use docker_plugin_gce_pd.Gce.Options.{DiskOptions, label, managed_by_key, managed_by_value}
use docker_plugin_gce_pd.Gce.Info.{DiskInfo, deleting}
use docker_plugin_gce_pd.Driver.Interface.{GceClient, Mounter, Driver}
use docker_plugin_gce_pd.Driver.Lifecycle.{
  new_record, create_untracked, create_found, adopt_existing_disk,
}
use docker_plugin_gce_pd.Driver.Removing.{remove_lem}
use docker_plugin_gce_pd.State.Volume.{Volume, is_positive}
use docker_plugin_gce_pd.Prelude.Map.{Map, lookup}
use docker_plugin_gce_pd.Driver.Creating.{Adoptable, untracked}
use docker_plugin_gce_pd.State.Updates.{lookup-add}
use docker_plugin_gce_pd.Driver.Lifecycle.{remove, create}
use docker_plugin_gce_pd.Driver.Lifecycle.{delete_in_background}
use docker_plugin_gce_pd.Driver.Interface.{Task}
use docker_plugin_gce_pd.Prelude.{some}
use docker_plugin_gce_pd.Gce.Options.{parse_disk_options}
use docker_plugin_gce_pd.Prelude.{false}
use docker_plugin_gce_pd.Prelude.Bytes.{str_eq}
use docker_plugin_gce_pd.Prelude.{none}
use docker_plugin_gce_pd.Gce.Options.{reclaim_retain}
use docker_plugin_gce_pd.Prelude.{◌++◌, []}
use docker_plugin_gce_pd.Prelude.{◌+◌}

module _ {W : Type 0} (g : GceClient W) (m : Mounter W) where
  untracked_marked :
      (now name : Bytes) (opts : DiskOptions) (d : Driver W) (info : DiskInfo)
      → (g.get_disk name d.world).0 ≡ ok info
      → deleting info ≡ true
      → create_untracked g m now name opts d
        ≡ (err (still_deleting name), record d { world = (g.get_disk name d.world).1 })
  unfolding create_untracked create_found
  untracked_marked now name opts d info found dying = ground arith

  untracked_adopts :
      (now name : Bytes) (opts : DiskOptions) (d : Driver W) (info : DiskInfo)
      → (g.get_disk name d.world).0 ≡ ok info
      → Adoptable g m info opts
      → (Store.add (new_record now name opts) d.store).0 ≡ ok tt
      → create_untracked g m now name opts d ≡ (
        ok tt,
        record d {
          store = (Store.add (new_record now name opts) d.store).1;
          world = (g.get_disk name d.world).1;
        },
      )
  unfolding create_untracked create_found adopt_existing_disk
  untracked_adopts now name opts d info found ours written = ground (
    arith,
    str_eq_iff (label managed_by_key info.labels) managed_by_value,
    str_eq_iff info.disk_type opts.disk_type,
    ours.ours,
    ours.alive,
    ours.size,
    ours.disk_type,
  )

  -- The background delete that Remove starts.
  abbrev pub deletion_of : Bytes → Volume → Task
  deletion_of name v = record { name = name; snapshot_first = v.options.snapshot_on_remove }

  -- What Remove leaves when it starts one.
  removed :
      (name : Bytes) (d : Driver W) (v : Volume)
      → lookup name d.store.vols ≡ some v
      → is_positive v.ref_count ≡ false
      → str_eq v.options.reclaim_policy reclaim_retain ≡ false
      → (Store.remove name d.store).0 ≡ ok tt
      → remove g m name d ≡ (
        ok tt,
        record d {
          store = (Store.remove name d.store).1;
          background = d.background ++ (deletion_of name v ∷ []);
          bg = d.bg + 1;
        },
      )
  unfolding remove delete_in_background Store.get
  removed name d v found free delete written = ground arith

  forgotten :
      (name : Bytes) (d : Driver W) (v : Volume)
      → lookup name d.store.vols ≡ some v
      → is_positive v.ref_count ≡ false
      → lookup name (remove g m name d).1.store.vols ≡ none
  forgotten name d v found free = elim (remove_lem g m name d v found) [
    | inl (used, _) ↦ let no : ⊥ = cc in elim no [ ]
    | inr (_, gone, _, _, _) ↦ gone
  ]

  take_task-last :
      (ts : List Task) (t : Task) → take_task (length ts) (ts ++ (t ∷ [])) ≡ some (t, ts)
  unfolding take_task
  take_task-last [] t = refl
  take_task-last (u ∷ ts) t = ap (put_back u) (take_task-last ts t)

  -- A Create with valid options and a valid name, right after a Remove that has started the
  -- background delete of the disk, where GCE shows a disk of the plugin with the size and type
  -- asked for, and the state can be written. If the disk shows the mark of a delete, the Create is
  -- refused and nothing is recorded. If the goroutine has not marked it yet, the Create succeeds:
  -- the volume is recorded over that disk, the delete of the disk is still pending, and when it
  -- runs it calls DeleteDisk and leaves the volume recorded.
  pub create_after_remove :
      (now name : Bytes) (raw : Map Bytes) (opts : DiskOptions) (d : Driver W) (v : Volume)
      (info : DiskInfo)
      → parse_disk_options raw ≡ ok opts
      → validate_disk_name name ≡ ok tt
      → lookup name d.store.vols ≡ some v
      → is_positive v.ref_count ≡ false
      → str_eq v.options.reclaim_policy reclaim_retain ≡ false
      → (Store.remove name d.store).0 ≡ ok tt
      → (g.get_disk name d.world).0 ≡ ok info
      → label managed_by_key info.labels ≡ managed_by_value
      → info.size_gb ≡ opts.size_gb
      → info.disk_type ≡ opts.disk_type
      → (Store.add (new_record now name opts) (Store.remove name d.store).1).0 ≡ ok tt
      → let d' = (remove g m name d).1 in
        let r = create g m now name raw d' in
        (r.1.background ≡ d.background ++ (deletion_of name v ∷ []))
        × (((deleting info ≡ true)
              × (r.0 ≡ err (still_deleting name))
              × (lookup name r.1.store.vols ≡ none))
            ⊎ ((deleting info ≡ false)
                × (r.0 ≡ ok tt)
                × (lookup name r.1.store.vols ≡ some (new_record now name opts))
                × (let d'' = run_background g m (length d.background) r.1 in
                    (lookup name d''.store.vols ≡ some (new_record now name opts))
                    × (d''.world ≡ (g.delete_disk name v.options.snapshot_on_remove r.1.world).1))))
  create_after_remove now name raw opts d v info parsed valid found free delete written shown ours
        size disk_type added =
      let d' : Driver W = record d {
        store = (Store.remove name d.store).1;
        background = d.background ++ (deletion_of name v ∷ []);
        bg = d.bg + 1;
      } in
      let absent : lookup name d'.store.vols ≡ none =
        rw (removed name d v found free delete written) at (forgotten name d v found free) in
      let same = untracked g m now name raw opts d' parsed valid absent in
      let adopted : Driver W = record d' {
        store = (Store.add (new_record now name opts) d'.store).1;
        world = (g.get_disk name d.world).1;
      } in
      let recorded : lookup name adopted.store.vols ≡ some (new_record now name opts) =
        unfold new_record in lookup-add (new_record now name opts) d'.store absent in
      let ran =
        run_background-taken g m (length d.background) (deletion_of name v) d.background adopted
          (take_task-last d.background (deletion_of name v)) in
      rw (removed name d v found free delete written, same)
        (elim (Bool-cases (deleting info)) [
          | inl dying ↦
              rw (untracked_marked now name opts d' info shown dying)
                (refl, inl (dying, refl, absent))
          | inr alive ↦
              rw
                (untracked_adopts now name opts d' info shown
                  (record { ours = ours; alive = alive; size = size; disk_type = disk_type }) added)
                (
                  refl,
                  inr (
                    alive,
                    refl,
                    recorded,
                    (
                      ap (λ (e : Driver W). lookup name e.store.vols) ran ∙ recorded,
                      ap (λ (e : Driver W). e.world) ran,
                    ),
                  ),
                )
        ])
