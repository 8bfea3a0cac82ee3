-- ===== src/Main/Selection/Nics.antt =====
-- infra/pulumi/__main__.py and infra/pulumi/modules/sdn_fdb.py: two sources of one map.
use rke2_lab.Base.{String, ◌≡◌, ◌≢◌, false, [], ◌==◌, eq_iff, eq_refl, arith}
use rke2_lab.Py.Effect.{Env}
use rke2_lab.Fdb.Run.{build_settings_from_env}
use rke2_lab.Vm.Definitions.{
  repo01, core01, kubecp01, kubecp02, kubecp03, kubewk01, kubewk02, kubewk03, build_vm_specs,
}
use rke2_lab.Main.Selection.{nic_on, put_number, nic_index_from}

-- Where the two bridges differ, the map of NICs that the program derives from the table of VMs is
-- the one that the standalone entry of sdn_fdb.py writes out.
pub nic_index_from-eq-standalone :
    (env : Env) (external_bridge internal_bridge : String)
    → external_bridge ≢ internal_bridge
    → nic_index_from internal_bridge (build_vm_specs external_bridge internal_bridge) []
      ≡ (build_settings_from_env env).sdn_nic_index
unfolding nic_index_from nic_on put_number build_vm_specs build_settings_from_env repo01 core01
    kubecp01 kubecp02 kubecp03 kubewk01 kubewk02 kubewk03
nic_index_from-eq-standalone env external_bridge internal_bridge differ =
    let other : (external_bridge == internal_bridge) ≡ false =
      ground (arith, eq_iff external_bridge internal_bridge, differ) in
    rw (other, eq_refl internal_bridge)
