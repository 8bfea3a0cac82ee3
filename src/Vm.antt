-- ===== src/Vm.antt =====
-- infra/pulumi/modules/vm_factory.py: the specifications of VMs and their footprints.
pub mod Definitions
pub mod Factory
mod Tests
use rke2_lab.Base.{ℕ, String, ◌+◌, ◌*◌, Bool, Option, List, [], ◌∷◌}

pub record VmNicSpec : Type 0 where
  pub bridge : String
  pub ipv4_cidr : String
  pub ipv4_gateway : Option String
  pub model : String

pub record VmSpec : Type 0 where
  pub key : String
  pub phase : ℕ
  pub hostname : String
  pub vm_id : ℕ
  pub cpu_cores : ℕ
  pub cpu_sockets : ℕ
  pub memory_mb : ℕ
  pub disks_gb : List ℕ
  pub dns_servers : List String
  pub nics : List VmNicSpec
  pub tags : List String
  pub cpu_type : String

pub record VmCommonSettings : Type 0 where
  pub template_node_name : String
  pub template_vm_id : Option ℕ
  pub datastore_id : String
  pub cloud_init_datastore_id : String
  pub vm_username : String
  pub vm_ssh_public_key : String
  pub vm_user_password : Option String
  pub vm_domain : String
  pub disk_file_format : Option String
  pub disk_cache : String
  pub disk_io_thread : Bool
  pub scsi_hardware : String

unfoldable pub sum : List ℕ → ℕ
sum [] = 0
sum (x ∷ xs) = x + sum xs

-- Memory and disk in bytes.
unfoldable pub vm_footprint_bytes : VmSpec → ℕ × ℕ
unfolding sum
vm_footprint_bytes spec = (spec.memory_mb * 1024 * 1024, sum spec.disks_gb * 1024 * 1024 * 1024)
