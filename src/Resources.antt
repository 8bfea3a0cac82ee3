-- ===== src/Resources.antt =====
-- The arguments of the Pulumi resources that the program registers: the calls of
-- infra/pulumi/modules/provider.py, sdn.py and vm_factory.py, and of infra/pulumi/__main__.py. An
-- optional argument that a call leaves out is `none`, and an id of another resource is a text.
use rke2_lab.Base.{ℕ, String, Bool, Option, List}
use rke2_lab.Base.Int.{ℤ}
use rke2_lab.Base.Dict.{Dict}

pub record ProviderArgs : Type 0 where
  pub endpoint : String
  pub username : String
  pub password : String
  pub insecure : Bool
  pub ssh_username : String

pub record ZoneArgs : Type 0 where
  pub resource_id : String
  pub peers : List String
  pub nodes : List String

pub record VnetArgs : Type 0 where
  pub resource_id : String
  pub zone : String
  pub tag : ℤ

-- `proxmox.download.File`
pub record ImageArgs : Type 0 where
  pub content_type : String
  pub datastore_id : String
  pub node_name : String
  pub url : String
  pub file_name : String
  pub checksum : String
  pub checksum_algorithm : String
  pub overwrite : Bool
  pub overwrite_unmanaged : Bool
  pub verify : Bool

pub record DiskArgs : Type 0 where
  pub interface : String
  pub datastore_id : String
  pub size : ℕ
  pub file_format : Option String
  pub cache : Option String
  pub iothread : Option Bool
  pub import_from : Option String

pub record NetworkDeviceArgs : Type 0 where
  pub bridge : String
  pub model : String

pub record IpConfigArgs : Type 0 where
  pub address : String
  pub gateway : Option String

pub record CloneArgs : Type 0 where
  pub node_name : String
  pub vm_id : ℕ
  pub full : Bool

pub record InitializationArgs : Type 0 where
  pub kind : String
  pub datastore_id : String
  pub domain : String
  pub servers : List String
  pub ip_configs : List IpConfigArgs
  pub username : String
  pub password : Option String
  pub keys : List String
  pub upgrade : Bool

pub record VmArgs : Type 0 where
  pub node_name : String
  pub vm_id : ℕ
  pub name : String
  pub tags : List String
  pub on_boot : Bool
  pub stop_on_destroy : Bool
  pub cdrom_file_id : String
  -- each with no settings of its own
  pub serial_devices : List (Dict String)
  pub operating_system : String
  pub scsi_hardware : String
  pub cores : ℕ
  pub sockets : ℕ
  pub cpu_type : String
  pub memory_dedicated : ℕ
  pub clone : Option CloneArgs
  pub disks : List DiskArgs
  pub network_devices : List NetworkDeviceArgs
  pub initialization : InitializationArgs

pub data Resource : Type 0 where
  provider : ProviderArgs → Resource
  zone : ZoneArgs → Resource
  vnet : VnetArgs → Resource
  image : ImageArgs → Resource
  vm : VmArgs → Resource
