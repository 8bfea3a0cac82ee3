-- ===== src/Main/Selection.antt =====
-- infra/pulumi/__main__.py: the VMs of a build, their footprints, and the index of the NIC that each
-- VM has on the internal network.
pub mod Nics
use rke2_lab.Base.{
  ℕ, zero, suc, String, Bool, Option, none, some, List, [], ◌∷◌, contains, leb, eqb, ◌==◌,
  if◌then◌else◌,
}
use rke2_lab.Base.Dict.{Dict, insert}
use rke2_lab.Vm.{VmNicSpec, VmSpec, vm_footprint_bytes}

unfoldable pub with_keys : List String → Dict VmSpec → List VmSpec
with_keys requested [] = []
with_keys requested ((key, spec) ∷ rest) =
    let later = with_keys requested rest in if contains key requested then spec ∷ later else later

unfoldable pub up_to_phase : ℕ → Dict VmSpec → List VmSpec
up_to_phase limit [] = []
up_to_phase limit ((key, spec) ∷ rest) =
    let later = up_to_phase limit rest in if leb spec.phase limit then spec ∷ later else later

-- `deployment_set`
unfoldable pub select_vms : Option (List String) → ℕ → Dict VmSpec → List VmSpec
unfolding with_keys up_to_phase
select_vms (some (k ∷ ks)) limit specs = with_keys (k ∷ ks) specs
select_vms (some []) limit specs = up_to_phase limit specs
select_vms none limit specs = up_to_phase limit specs

-- `{vm.key: common_settings.vm_footprint_bytes(vm) for vm in deployment_set}`
unfoldable pub footprints : List VmSpec → Dict (ℕ × ℕ) → Dict (ℕ × ℕ)
unfolding vm_footprint_bytes
footprints [] sizes = sizes
footprints (vm ∷ vms) sizes = footprints vms (insert vm.key (vm_footprint_bytes vm) sizes)

-- The index of the first NIC on this bridge, counted from `idx`.
unfoldable pub nic_on : String → ℕ → List VmNicSpec → Option ℕ
nic_on bridge idx [] = none
nic_on bridge idx (nic ∷ nics) =
    let later = nic_on bridge (suc idx) nics in if nic.bridge == bridge then some idx else later

-- `d[key] = value` on a dict with numbers as keys
unfoldable pub put_number : ℕ → ℕ → List (ℕ × ℕ) → List (ℕ × ℕ)
put_number key value [] = (key, value) ∷ []
put_number key value ((k, v) ∷ rest) =
    if eqb k key then (k, value) ∷ rest else (k, v) ∷ put_number key value rest

abbrev note_nic : ℕ → Option ℕ → List (ℕ × ℕ) → List (ℕ × ℕ)
note_nic vm_id none index = index
note_nic vm_id (some idx) index = put_number vm_id idx index

-- `sdn_nic_index`
unfoldable pub nic_index_from : String → Dict VmSpec → List (ℕ × ℕ) → List (ℕ × ℕ)
unfolding nic_on put_number
nic_index_from bridge [] index = index
nic_index_from bridge ((key, spec) ∷ rest) index =
    nic_index_from bridge rest (note_nic spec.vm_id (nic_on bridge 0 spec.nics) index)
