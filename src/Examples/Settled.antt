-- ===== src/Examples/Settled.antt =====
-- The operations of the client end, at the example site.
use docker_plugin_gce_pd.Prelude.{refl, arith, true, [], ◌∷◌}
use docker_plugin_gce_pd.Prelude.Bytes.{codes}
use docker_plugin_gce_pd.Gce.Retry.Ends.{Clock, Settled}
use docker_plugin_gce_pd.Gce.Settling.{ApiSettles}
use docker_plugin_gce_pd.Gce.Settling.Operations.{client-Settles}
use docker_plugin_gce_pd.Gce.Disks.{create_disk, get_disk, delete_disk}
use docker_plugin_gce_pd.Gce.Attach.{attach_disk, detach_disk}
use docker_plugin_gce_pd.Examples.World.{
  Site, monday, clock, api_with, client, data_name, plain_options,
}
use docker_plugin_gce_pd.Prelude.{List}
use docker_plugin_gce_pd.Prelude.Bytes.{Bytes}

abbrev user : List Bytes
user = codes "instances/vm-2" ∷ []

clock-Clock : Clock clock λ w. w.time
clock-Clock = record {
  reads = λ w. refl;
  moves = λ w. omega arith;
  by_utc = λ w. omega arith;
  by_int63n = λ n w. omega arith;
  by_sleep = λ n w. omega arith;
  by_sleep_or_done = λ n w. omega arith;
  by_done = λ w. omega arith;
  sleep_settles = λ n w. tt;
  done_settles = λ w. tt;
}

api-ApiSettles : ApiSettles (λ (w : Site). w.time) (api_with user)
api-ApiSettles = record {
  insert_disk = λ p z d t w le. (tt, le);
  get_disk = λ p z name t w le. (tt, le);
  delete_disk = λ p z name t w le. (tt, le);
  create_snapshot = λ p z name s t w le. (tt, le);
  set_labels = λ p z name fingerprint labels t w le. (tt, le);
  attach_disk = λ p z i a t w le. (tt, le);
  detach_disk = λ p z i device t w le. (tt, le);
  get_instance = λ p z i t w le. (tt, le);
  wait = λ op t w le. (tt, le);
}

client-Settles_example :
    Settled (create_disk clock (api_with user) client data_name plain_options monday).0
    × Settled (get_disk clock (api_with user) client data_name monday).0
    × Settled (delete_disk clock (api_with user) client data_name true monday).0
    × Settled (attach_disk clock (api_with user) client data_name monday).0
    × Settled (detach_disk clock (api_with user) client data_name monday).0
client-Settles_example =
    client-Settles clock (api_with user) client (λ w. w.time) clock-Clock api-ApiSettles
      (omega arith) (omega arith) data_name plain_options true monday
