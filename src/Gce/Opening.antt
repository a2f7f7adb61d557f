-- ===== src/Gce/Opening.antt =====
-- gce/gce.go: New, Close and the adapters, which turn the two REST clients of
-- cloud.google.com/go/compute into the interfaces diskAPI and instanceAPI. Those clients are
-- third-party code: a record of their calls over the world `W`, with their types `D`, `I` and `O`
-- and the iterator's type `It`.
pub mod Listing
pub mod Handles
use docker_plugin_gce_pd.Prelude.{
  ℕ, zero, suc, ◌++◌, Option, none, some, List, [], ◌∷◌, ok, err, if◌then◌else◌,
}
use docker_plugin_gce_pd.Prelude.Bytes.{Bytes, str_eq}
use docker_plugin_gce_pd.Prelude.Map.{Map}
use docker_plugin_gce_pd.Prelude.Eff.{Eff, ◌>>=◌, return}
use docker_plugin_gce_pd.Errors.{
  Res, wrapped, creating_disks_client, creating_instances_client, unfinished,
}
use docker_plugin_gce_pd.Gce.Info.{DiskProto}
use docker_plugin_gce_pd.Gce.Retry.{BackoffConfig}
use docker_plugin_gce_pd.Gce.Client.{
  NewDisk, NewSnapshot, AttachedDisk, ComputeApi, Client, new_client,
}

pub record Library (W D I It O : Type 0) : Type 0 where
  -- NewDisksRESTClient and NewInstancesRESTClient, with WithCredentialsFile or without
  pub new_disks_client : Option Bytes → Eff W (Res D)
  pub new_instances_client : Option Bytes → Eff W (Res I)
  pub close_disks : D → Eff W (Res (Unit {0}))
  pub close_instances : I → Eff W (Res (Unit {0}))
  pub insert : D → Bytes → Bytes → NewDisk → Eff W (Res O)
  pub get : D → Bytes → Bytes → Bytes → Eff W (Res DiskProto)
  pub delete : D → Bytes → Bytes → Bytes → Eff W (Res O)
  pub list : D → Bytes → Bytes → Bytes → Eff W It
  -- Next of the iterator: `none` is iterator.Done
  pub next : It → Eff W (Res (Option DiskProto))
  pub create_snapshot : D → Bytes → Bytes → Bytes → NewSnapshot → Eff W (Res O)
  pub set_labels : D → Bytes → Bytes → Bytes → Bytes → Map Bytes → Eff W (Res O)
  pub attach_disk : I → Bytes → Bytes → Bytes → AttachedDisk → Eff W (Res O)
  pub detach_disk : I → Bytes → Bytes → Bytes → Bytes → Eff W (Res O)
  pub get_instance : I → Bytes → Bytes → Bytes → Eff W (Res Bytes)
  pub wait : O → Eff W (Res (Unit {0}))

-- Config; `none` is the zero value of BackoffConfig.
pub record Config : Type 0 where
  pub project_id : Bytes
  pub zone : Bytes
  pub this_instance : Bytes
  pub scope : Bytes
  pub force_detach_after : ℕ
  pub backoff : Option BackoffConfig

-- A Client, with the two REST clients that it owns.
pub record Opened (D I : Type 0) : Type 0 where
  pub client : Client
  pub disks : D
  pub instances : I

-- `clientOpts`, from the value of GCEPD_KEYFILE.
unfoldable pub credentials : Bytes → Option Bytes
credentials keyfile = if str_eq keyfile [] then none else some keyfile

abbrev pub opened : {D I : Type 0} → Config → D → I → Opened D I
opened cfg disks instances = record {
  client =
      new_client cfg.project_id cfg.zone cfg.this_instance cfg.scope cfg.force_detach_after
        cfg.backoff;
  disks = disks;
  instances = instances;
}

module _ {W D I It O : Type 0} (lib : Library W D I It O) where
  -- New after NewInstancesRESTClient: the result of closing the disks client is dropped.
  unfoldable pub after_instances : Config → D → Res I → Eff W (Res (Opened D I))
  after_instances cfg disks (err e) = do
    _ ← lib.close_disks disks
    return (err (wrapped creating_instances_client e))
  after_instances cfg disks (ok instances) = return (ok (opened cfg disks instances))

  -- New after NewDisksRESTClient.
  unfoldable pub open_instances : Config → Bytes → D → Eff W (Res (Opened D I))
  open_instances cfg keyfile disks = do
    made ← lib.new_instances_client (credentials keyfile)
    after_instances cfg disks made

  unfoldable pub after_disks : Config → Bytes → Res D → Eff W (Res (Opened D I))
  after_disks cfg keyfile (err e) = return (err (wrapped creating_disks_client e))
  after_disks cfg keyfile (ok disks) = open_instances cfg keyfile disks

  -- New, with the value of GCEPD_KEYFILE.
  unfoldable pub new : Config → Bytes → Eff W (Res (Opened D I))
  new cfg keyfile = do
    made ← lib.new_disks_client (credentials keyfile)
    after_disks cfg keyfile made

  -- Close
  unfoldable pub close : Opened D I → Eff W (Res (Unit {0}))
  close c = do
    derr ← lib.close_disks c.disks
    ierr ← lib.close_instances c.instances
    return (elim derr [ err e ↦ err e | ok _ ↦ ierr ])

  -- The end of a round of the adapter's List; `again` is the next round, with one disk more.
  unfoldable pub after_next :
      (DiskProto → Eff W (Res (List DiskProto)))
      → List DiskProto
      → Res (Option DiskProto)
      → Eff W (Res (List DiskProto))
  after_next again out (err e) = return (err e)
  after_next again out (ok none) = return (ok out)
  after_next again out (ok (some dk)) = again dk

  -- The loop of the adapter's List, with the disks so far.
  unfoldable pub drain : ℕ → It → List DiskProto → Eff W (Res (List DiskProto))
  drain zero it out = return (err unfinished)
  drain (suc n) it out = do r ← lib.next it; after_next (λ dk. drain n it (out ++ (dk ∷ []))) out r

  -- The adapters of an opened client; the loop of List has `rounds` rounds.
  unfoldable pub adapters : ℕ → Opened D I → ComputeApi W O
  unfolding drain
  adapters rounds c = record {
    insert_disk = lib.insert c.disks;
    get_disk = lib.get c.disks;
    delete_disk = lib.delete c.disks;
    list_disks = λ project zone filter. do
      it ← lib.list c.disks project zone filter
      drain rounds it [];
    create_snapshot = lib.create_snapshot c.disks;
    set_labels = lib.set_labels c.disks;
    attach_disk = lib.attach_disk c.instances;
    detach_disk = lib.detach_disk c.instances;
    get_instance = lib.get_instance c.instances;
    wait = lib.wait;
  }
