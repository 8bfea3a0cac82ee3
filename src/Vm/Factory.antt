-- ===== src/Vm/Factory.antt =====
-- infra/pulumi/modules/vm_factory.py: `create_vm` and the arguments that it builds.
pub mod Disks
use rke2_lab.Base.{
  ℕ, zero, suc, String, ◌<>◌, Bool, true, false, ◌&&◌, Option, none, some, List, [], ◌∷◌, map, eqb,
  ◌==◌, if◌then◌else◌,
}
use rke2_lab.Base.Dict.{Dict, lookup}
use rke2_lab.Py.Text.{show_ℕ}
use rke2_lab.Resources.{
  DiskArgs, NetworkDeviceArgs, IpConfigArgs, CloneArgs, InitializationArgs, VmArgs,
}
use rke2_lab.Vm.{VmNicSpec, VmSpec, VmCommonSettings}

-- An optional text that `if` takes for true.
abbrev set_text : Option String → Option String
set_text none = none
set_text (some text) = if text == "" then none else some text

-- `boot_image_by_node and host_node in boot_image_by_node`, with the image
unfoldable pub image_on : Option (Dict String) → String → Option String
unfolding lookup
image_on none node = none
image_on (some images) node = lookup node images

-- The image that the disk at this index is imported from, with or without a template.
unfoldable pub import_for : Option ℕ → ℕ → String → Option (Dict String) → Option String
unfolding image_on
import_for (some template) idx node images = none
import_for none zero node images = image_on images node
import_for none (suc idx) node images = none

unfoldable pub disk_arg : VmCommonSettings → ℕ → ℕ → String → Option (Dict String) → DiskArgs
unfolding import_for
disk_arg common idx disk_gb host_node boot_image_by_node = record {
  interface = "scsi" <> show_ℕ idx;
  datastore_id = common.datastore_id;
  size = disk_gb;
  file_format = set_text common.disk_file_format;
  cache = set_text (some common.disk_cache);
  iothread = if common.disk_io_thread then some true else none;
  import_from = import_for common.template_vm_id idx host_node boot_image_by_node;
}

-- The disks from an index on.
unfoldable pub disks_from :
    VmCommonSettings → ℕ → List ℕ → String → Option (Dict String) → List DiskArgs
unfolding disk_arg
disks_from common idx [] host_node boot_image_by_node = []
disks_from common idx (disk_gb ∷ rest) host_node boot_image_by_node =
    disk_arg common idx disk_gb host_node boot_image_by_node
    ∷ disks_from common (suc idx) rest host_node boot_image_by_node

unfoldable pub disk_args : VmCommonSettings → List ℕ → String → Option (Dict String) → List DiskArgs
unfolding disks_from
disk_args common disks_gb host_node boot_image_by_node =
    disks_from common 0 disks_gb host_node boot_image_by_node

unfoldable pub network_args : List VmNicSpec → List NetworkDeviceArgs
network_args nics = map (λ nic. record { bridge = nic.bridge; model = nic.model }) nics

unfoldable pub ip_config_args : List VmNicSpec → List IpConfigArgs
ip_config_args nics =
    map (λ nic. record { address = nic.ipv4_cidr; gateway = nic.ipv4_gateway }) nics

unfoldable pub clone_args : VmCommonSettings → Option ℕ → Option CloneArgs
clone_args common none = none
clone_args common (some vm_id) =
    some (record { node_name = common.template_node_name; vm_id = vm_id; full = true })

abbrev or_template : Option String → VmCommonSettings → String
or_template none common = common.template_node_name
or_template (some node) common = node

unfoldable pub initialization_args : VmSpec → VmCommonSettings → InitializationArgs
unfolding ip_config_args
initialization_args spec common = record {
  kind = "nocloud";
  datastore_id = common.cloud_init_datastore_id;
  domain = common.vm_domain;
  servers = spec.dns_servers;
  ip_configs = ip_config_args spec.nics;
  username = common.vm_username;
  password = common.vm_user_password;
  keys = common.vm_ssh_public_key ∷ [];
  upgrade = false;
}

-- The arguments of the VM; the provider and the dependencies are the caller's.
unfoldable pub create_vm : VmSpec → VmCommonSettings → Option String → Option (Dict String) → VmArgs
unfolding disk_args network_args initialization_args clone_args
create_vm spec common node_name boot_image_by_node =
    let host_node = or_template node_name common in
    record {
      node_name = host_node;
      vm_id = spec.vm_id;
      name = spec.hostname;
      tags = spec.tags;
      on_boot = true;
      stop_on_destroy = true;
      cdrom_file_id = "none";
      serial_devices = [] ∷ [];
      operating_system = "l26";
      scsi_hardware = common.scsi_hardware;
      cores = spec.cpu_cores;
      sockets = spec.cpu_sockets;
      cpu_type = spec.cpu_type;
      memory_dedicated = spec.memory_mb;
      clone = clone_args common common.template_vm_id;
      disks = disk_args common spec.disks_gb host_node boot_image_by_node;
      network_devices = network_args spec.nics;
      initialization = initialization_args spec common;
    }
