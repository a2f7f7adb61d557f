-- ===== src/Driver/Wiring.antt =====
-- cmd/docker-volume-gcepd/main.go hands the driver a *gce.Client and a *mount.Mounter: the
-- interfaces of the driver, filled by the models of those packages over one world.
use docker_plugin_gce_pd.Prelude.{ℕ}
use docker_plugin_gce_pd.Gce.Retry.{Runtime}
use docker_plugin_gce_pd.Gce.Client.{ComputeApi, Client}
use docker_plugin_gce_pd.Gce.Disks
use docker_plugin_gce_pd.Gce.Attach
use docker_plugin_gce_pd.Mount.Commands
use docker_plugin_gce_pd.Mount.Commands.{Host}
use docker_plugin_gce_pd.Driver.Interface.{GceClient, Mounter}

abbrev pub gce_client : {W O : Type 0} → Runtime W → ComputeApi W O → Client → GceClient W
gce_client rt api c = record {
  create_disk = Disks.create_disk rt api c;
  get_disk = Disks.get_disk rt api c;
  delete_disk = Disks.delete_disk rt api c;
  list_managed_disks = Disks.list_managed_disks rt api c;
  attach_disk = Attach.attach_disk rt api c;
  detach_disk = Attach.detach_disk rt api c;
}

abbrev pub host_mounter : {W : Type 0} → Runtime W → Host W → ℕ → Mounter W
host_mounter rt host timeout = record {
  wait_for_device = Commands.wait_for_device rt host timeout;
  ensure_formatted = Commands.ensure_formatted rt host timeout;
  mount = Commands.mount rt host timeout;
  unmount = Commands.unmount rt host timeout;
  is_mounted = Commands.is_mounted rt host timeout;
}
