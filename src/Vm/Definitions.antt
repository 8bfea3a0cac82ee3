-- ===== src/Vm/Definitions.antt =====
-- infra/pulumi/modules/vm_definitions.py: the table of VMs.
use rke2_lab.Base.{String, Option, none, some, [], ◌∷◌}
use rke2_lab.Base.Dict.{Dict}
use rke2_lab.Vm.{VmNicSpec, VmSpec}

-- A NIC of the default model.
abbrev nic : (bridge ipv4_cidr : String) → Option String → VmNicSpec
nic bridge ipv4_cidr ipv4_gateway = record {
  bridge = bridge;
  ipv4_cidr = ipv4_cidr;
  ipv4_gateway = ipv4_gateway;
  model = "virtio";
}

unfoldable pub repo01 : (external_bridge internal_bridge : String) → VmSpec
repo01 external_bridge internal_bridge = record {
  key = "repo01";
  phase = 1;
  hostname = "repo01.dev.lo";
  vm_id = 2001;
  cpu_cores = 4;
  cpu_sockets = 1;
  memory_mb = 10240;
  disks_gb = 32 ∷ 100 ∷ [];
  dns_servers = "192.168.1.1" ∷ [];
  nics =
      nic external_bridge "192.168.1.20/24" (some "192.168.1.1")
      ∷ nic internal_bridge "192.168.2.99/24" none
      ∷ [];
  tags = "phase1" ∷ "repo" ∷ [];
  cpu_type = "host";
}

unfoldable pub core01 : (internal_bridge : String) → VmSpec
core01 internal_bridge = record {
  key = "core01";
  phase = 2;
  hostname = "core.dev.lo";
  vm_id = 2002;
  cpu_cores = 2;
  cpu_sockets = 1;
  memory_mb = 6144;
  disks_gb = 32 ∷ 100 ∷ [];
  dns_servers = "127.0.0.1" ∷ [];
  nics = nic internal_bridge "192.168.2.4/24" (some "192.168.2.99") ∷ [];
  tags = "phase2" ∷ "core" ∷ [];
  cpu_type = "host";
}

unfoldable pub kubecp01 : (internal_bridge : String) → VmSpec
kubecp01 internal_bridge = record {
  key = "kubecp01";
  phase = 4;
  hostname = "kubecp01.dev.lo";
  vm_id = 2101;
  cpu_cores = 4;
  cpu_sockets = 1;
  memory_mb = 6144;
  disks_gb = 32 ∷ 100 ∷ [];
  dns_servers = "192.168.2.4" ∷ [];
  nics = nic internal_bridge "192.168.2.21/24" (some "192.168.2.99") ∷ [];
  tags = "phase4" ∷ "rke2" ∷ "control-plane" ∷ [];
  cpu_type = "host";
}

unfoldable pub kubecp02 : (internal_bridge : String) → VmSpec
kubecp02 internal_bridge = record {
  key = "kubecp02";
  phase = 4;
  hostname = "kubecp02.dev.lo";
  vm_id = 2102;
  cpu_cores = 4;
  cpu_sockets = 1;
  memory_mb = 6144;
  disks_gb = 32 ∷ 100 ∷ [];
  dns_servers = "192.168.2.4" ∷ [];
  nics = nic internal_bridge "192.168.2.22/24" (some "192.168.2.99") ∷ [];
  tags = "phase4" ∷ "rke2" ∷ "control-plane" ∷ [];
  cpu_type = "host";
}

unfoldable pub kubecp03 : (internal_bridge : String) → VmSpec
kubecp03 internal_bridge = record {
  key = "kubecp03";
  phase = 4;
  hostname = "kubecp03.dev.lo";
  vm_id = 2103;
  cpu_cores = 4;
  cpu_sockets = 1;
  memory_mb = 6144;
  disks_gb = 32 ∷ 100 ∷ [];
  dns_servers = "192.168.2.4" ∷ [];
  nics = nic internal_bridge "192.168.2.23/24" (some "192.168.2.99") ∷ [];
  tags = "phase4" ∷ "rke2" ∷ "control-plane" ∷ [];
  cpu_type = "host";
}

unfoldable pub kubewk01 : (internal_bridge : String) → VmSpec
kubewk01 internal_bridge = record {
  key = "kubewk01";
  phase = 5;
  hostname = "kubewk01.dev.lo";
  vm_id = 2201;
  cpu_cores = 4;
  cpu_sockets = 1;
  memory_mb = 10240;
  disks_gb = 32 ∷ 100 ∷ 100 ∷ [];
  dns_servers = "192.168.2.4" ∷ [];
  nics = nic internal_bridge "192.168.2.31/24" (some "192.168.2.99") ∷ [];
  tags = "phase5" ∷ "rke2" ∷ "worker" ∷ [];
  cpu_type = "host";
}

unfoldable pub kubewk02 : (internal_bridge : String) → VmSpec
kubewk02 internal_bridge = record {
  key = "kubewk02";
  phase = 5;
  hostname = "kubewk02.dev.lo";
  vm_id = 2202;
  cpu_cores = 4;
  cpu_sockets = 1;
  memory_mb = 10240;
  disks_gb = 32 ∷ 100 ∷ 100 ∷ [];
  dns_servers = "192.168.2.4" ∷ [];
  nics = nic internal_bridge "192.168.2.32/24" (some "192.168.2.99") ∷ [];
  tags = "phase5" ∷ "rke2" ∷ "worker" ∷ [];
  cpu_type = "host";
}

unfoldable pub kubewk03 : (internal_bridge : String) → VmSpec
kubewk03 internal_bridge = record {
  key = "kubewk03";
  phase = 5;
  hostname = "kubewk03.dev.lo";
  vm_id = 2203;
  cpu_cores = 4;
  cpu_sockets = 1;
  memory_mb = 10240;
  disks_gb = 32 ∷ 100 ∷ 100 ∷ [];
  dns_servers = "192.168.2.4" ∷ [];
  nics = nic internal_bridge "192.168.2.33/24" (some "192.168.2.99") ∷ [];
  tags = "phase5" ∷ "rke2" ∷ "worker" ∷ [];
  cpu_type = "host";
}

unfoldable pub build_vm_specs : (external_bridge internal_bridge : String) → Dict VmSpec
unfolding repo01 core01 kubecp01 kubecp02 kubecp03 kubewk01 kubewk02 kubewk03
build_vm_specs external_bridge internal_bridge =
    ("repo01", repo01 external_bridge internal_bridge)
    ∷ ("core01", core01 internal_bridge)
    ∷ ("kubecp01", kubecp01 internal_bridge)
    ∷ ("kubecp02", kubecp02 internal_bridge)
    ∷ ("kubecp03", kubecp03 internal_bridge)
    ∷ ("kubewk01", kubewk01 internal_bridge)
    ∷ ("kubewk02", kubewk02 internal_bridge)
    ∷ ("kubewk03", kubewk03 internal_bridge)
    ∷ []
