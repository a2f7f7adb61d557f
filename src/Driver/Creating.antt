-- ===== src/Driver/Creating.antt =====
-- Create: idempotence, the disks that it takes over, and the rollback.
use mathlib.Core.List.{Permᴰ}
use docker_plugin_gce_pd.Prelude.{◌≡◌, refl, ◌⊎◌, inl, inr, true, false, none}
use docker_plugin_gce_pd.Prelude.{some, ok, err, is_ok, arith}
use docker_plugin_gce_pd.Prelude.Bytes.{Bytes, str_eq_iff}
use docker_plugin_gce_pd.Prelude.Map.{Map, lookup}
use docker_plugin_gce_pd.Errors.{Error, Res, is_disk_not_found}
use docker_plugin_gce_pd.State.Store
use docker_plugin_gce_pd.State.Store.{Store}
use docker_plugin_gce_pd.State.Updates.{lookup-add}
use docker_plugin_gce_pd.Gce.Name.{validate_disk_name}
use docker_plugin_gce_pd.Gce.Options.{
  DiskOptions, parse_disk_options, label, managed_by_key, managed_by_value,
}
use docker_plugin_gce_pd.Gce.Options.Labels.{parse_disk_options-HasNodup}
use docker_plugin_gce_pd.Gce.Options.Ranges.{HasNoClash, parse_disk_options-perm}
use docker_plugin_gce_pd.Gce.Options.Match.{matches_self}
use docker_plugin_gce_pd.Gce.Info.{DiskInfo, deleting}
use docker_plugin_gce_pd.Driver.Interface.{GceClient, Mounter, Driver}
use docker_plugin_gce_pd.Driver.Convert.{to_state_options, options_match}
use docker_plugin_gce_pd.Driver.Lifecycle.{
  new_record, adopt_existing_disk, provision, after_add, after_create, create_found,
  create_untracked, create,
}

-- Create with the same options as a record that it has made.
options_match_self :
    (now name : Bytes) (raw : Map Bytes) (opts : DiskOptions)
    → parse_disk_options raw ≡ ok opts
    → options_match (new_record now name opts).options opts ≡ true
unfolding new_record to_state_options options_match
options_match_self now name raw opts parsed =
    matches_self opts opts.snapshot_on_remove (parse_disk_options-HasNodup raw opts parsed)

module _ {W : Type 0} (g : GceClient W) (m : Mounter W) where
  -- The state has a record that Create made for the options.
  abbrev pub Recorded : Bytes → DiskOptions → Store → Type 0
  Recorded name opts s = (now : Bytes) × (lookup name s.vols ≡ some (new_record now name opts))

  -- A result other than those with which Create fails before it writes the state.
  pub tracked :
      (now name : Bytes) (raw : Map Bytes) (opts : DiskOptions) (d : Driver W)
      → parse_disk_options raw ≡ ok opts
      → validate_disk_name name ≡ ok tt
      → Recorded name opts d.store
      → create g m now name raw d ≡ (ok tt, d)
  unfolding create Store.get
  tracked now name raw opts d parsed valid (then', found) =
      ground (arith, options_match_self then' name raw opts parsed)

  -- What Create needs of a disk that exists before it takes it over.
  pub record Adoptable (info : DiskInfo) (opts : DiskOptions) : Type 0 where
    pub ours : label managed_by_key info.labels ≡ managed_by_value
    pub alive : deleting info ≡ false
    pub size : info.size_gb ≡ opts.size_gb
    pub disk_type : info.disk_type ≡ opts.disk_type

  adopt-Adoptable :
      (now name : Bytes) (info : DiskInfo) (opts : DiskOptions) (d : Driver W)
      → (create_found g m now name opts (ok info) d).0 ≡ ok tt
      → Adoptable info opts
  unfolding create_found adopt_existing_disk
  adopt-Adoptable now name info opts d h = ground (
    arith,
    str_eq_iff (label managed_by_key info.labels) managed_by_value,
    str_eq_iff info.disk_type opts.disk_type,
  )

  -- GCE has a disk of the name that Create may take over, or says that it has none, and Create
  -- has created one.
  abbrev pub Founded : Bytes → DiskOptions → W → Type 0
  Founded name opts w =
      ((info : DiskInfo) × ((g.get_disk name w).0 ≡ ok info) × Adoptable info opts)
      ⊎ ((e : Error) × ((g.get_disk name w).0 ≡ err e)
          × (is_disk_not_found e ≡ true)
          × (is_ok (g.create_disk name opts (g.get_disk name w).1).0 ≡ true))

  after_create_ok :
      (now name : Bytes) (opts : DiskOptions) (r : Res DiskInfo) (d : Driver W)
      → (after_create g m now name opts r d).0 ≡ ok tt
      → (is_ok r ≡ true)
        × ((after_create g m now name opts r d).1.store
            ≡ (Store.add (new_record now name opts) d.store).1)
  unfolding after_create after_add
  after_create_ok now name opts (err e) d h = cc
  after_create_ok now name opts (ok info) d h = (refl, ground arith)

  adopt_ok :
      (now name : Bytes) (info : DiskInfo) (opts : DiskOptions) (d : Driver W)
      → (create_found g m now name opts (ok info) d).0 ≡ ok tt
      → (create_found g m now name opts (ok info) d).1.store
        ≡ (Store.add (new_record now name opts) d.store).1
  unfolding create_found adopt_existing_disk
  adopt_ok now name info opts d h = ground arith

  provision_ok :
      (now name : Bytes) (e : Error) (opts : DiskOptions) (d : Driver W)
      → (create_found g m now name opts (err e) d).0 ≡ ok tt
      → (is_disk_not_found e ≡ true)
        × (is_ok (g.create_disk name opts d.world).0 ≡ true)
        × ((create_found g m now name opts (err e) d).1.store
            ≡ (Store.add (new_record now name opts) d.store).1)
  unfolding create_found provision
  provision_ok now name e opts d h =
      let (r, w) = g.create_disk name opts d.world in
      ground (arith, after_create_ok now name opts r (record d { world = w }))

  found_ok :
      (now name : Bytes) (opts : DiskOptions) (r : Res DiskInfo) (d : Driver W)
      → let w = (g.get_disk name d.world).1 in
        (g.get_disk name d.world).0 ≡ r
        → (create_found g m now name opts r (record d { world = w })).0 ≡ ok tt
        → Founded name opts d.world
          × ((create_found g m now name opts r (record d { world = w })).1.store
              ≡ (Store.add (new_record now name opts) d.store).1)
  found_ok now name opts (ok info) d e h =
      let d' : Driver W = record d { world = (g.get_disk name d.world).1 } in
      (inl (info, e, adopt-Adoptable now name info opts d' h), adopt_ok now name info opts d' h)
  found_ok now name opts (err x) d e h =
      let d' : Driver W = record d { world = (g.get_disk name d.world).1 } in
      let (gone, made, store) = provision_ok now name x opts d' h in (inr (x, e, gone, made), store)

  create_untracked_ok :
      (now name : Bytes) (opts : DiskOptions) (d : Driver W)
      → (create_untracked g m now name opts d).0 ≡ ok tt
      → Founded name opts d.world
        × ((create_untracked g m now name opts d).1.store
            ≡ (Store.add (new_record now name opts) d.store).1)
  unfolding create_untracked
  create_untracked_ok now name opts d h =
      found_ok now name opts (g.get_disk name d.world).0 d refl h

  -- Create of a name that the state does not have.
  pub untracked :
      (now name : Bytes) (raw : Map Bytes) (opts : DiskOptions) (d : Driver W)
      → parse_disk_options raw ≡ ok opts
      → validate_disk_name name ≡ ok tt
      → lookup name d.store.vols ≡ none
      → create g m now name raw d ≡ create_untracked g m now name opts d
  unfolding create Store.get
  untracked now name raw opts d parsed valid absent = ground arith

  accepted :
      (now name : Bytes) (raw : Map Bytes) (d : Driver W)
      → (create g m now name raw d).0 ≡ ok tt
      → (opts : DiskOptions) × (parse_disk_options raw ≡ ok opts)
        × (validate_disk_name name ≡ ok tt)
  unfolding create
  accepted now name raw d h = go (parse_disk_options raw) refl
    where
      go :
          (r : Res DiskOptions)
          → parse_disk_options raw ≡ r
          → (opts : DiskOptions) × (parse_disk_options raw ≡ ok opts)
            × (validate_disk_name name ≡ ok tt)
      go (ok opts) e = (opts, e, ground arith)
      go (err x) e = cc (rw (e, create) at h)

  -- A Create that succeeds on a name that the state does not have was given valid options and a
  -- valid name, found in GCE a disk of the plugin that is not being deleted and has the size and
  -- type asked for, or none and created one, and has recorded the volume with its options.
  pub create_ok :
      (now name : Bytes) (raw : Map Bytes) (d : Driver W)
      → lookup name d.store.vols ≡ none
      → (create g m now name raw d).0 ≡ ok tt
      → (opts : DiskOptions) × (parse_disk_options raw ≡ ok opts)
        × (validate_disk_name name ≡ ok tt)
        × Founded name opts d.world
        × (lookup name (create g m now name raw d).1.store.vols ≡ some (new_record now name opts))
  create_ok now name raw d absent h =
      let (opts, parsed, valid) = accepted now name raw d h in
      let same = untracked now name raw opts d parsed valid absent in
      let (founded, store) = create_untracked_ok now name opts d (rw same at h) in
      (
        opts,
        parsed,
        valid,
        founded,
        rw (same, store)
            (unfold new_record in lookup-add (new_record now name opts) d.store absent),
      )

  -- A Create that has succeeded on a name that the state did not have, with a map of options no
  -- two of whose keys differ in case only, and that is repeated at once, whatever the time and
  -- the order in which Go ranges over the map, succeeds and changes nothing, in the state, in GCE
  -- and on the host.
  pub create_idempotent :
      (now later name : Bytes) (raw raw' : Map Bytes) (d : Driver W)
      → HasNoClash raw
      → Permᴰ raw raw'
      → lookup name d.store.vols ≡ none
      → (create g m now name raw d).0 ≡ ok tt
      → let d' = (create g m now name raw d).1 in create g m later name raw' d' ≡ (ok tt, d')
  create_idempotent now later name raw raw' d apart order absent h =
      let (opts, parsed, valid, founded, found) = create_ok now name raw d absent h in
      tracked later name raw' opts (create g m now name raw d).1
        (parse_disk_options-perm raw raw' opts apart order parsed) valid (now, found)
