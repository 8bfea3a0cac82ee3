-- ===== src/Vm/Tests.antt =====
-- Arguments of VMs, with and without a template.
use rke2_lab.Base.{ℕ, String, ◌≡◌, refl, true, Option, none, some, List, [], ◌∷◌, map}
use rke2_lab.Base.Dict.{Dict, lookup}
use rke2_lab.Resources.{DiskArgs}
use rke2_lab.Vm.{VmCommonSettings}
use rke2_lab.Vm.Definitions.{core01}
use rke2_lab.Vm.Factory.{image_on, import_for, disk_arg, disks_from, disk_args, create_vm}
use rke2_lab.Vm.Factory.Disks.{OneSource, create_vm-OneSource}

abbrev common : Option ℕ → VmCommonSettings
common template = record {
  template_node_name = "pve01";
  template_vm_id = template;
  datastore_id = "local-lvm";
  cloud_init_datastore_id = "local-lvm";
  vm_username = "devops";
  vm_ssh_public_key = "ssh-ed25519 AAAA";
  vm_user_password = none;
  vm_domain = "dev.lo";
  disk_file_format = none;
  disk_cache = "writeback";
  disk_io_thread = true;
  scsi_hardware = "virtio-scsi-single";
}

abbrev images : Dict String
images = ("pve01", "image 1") ∷ ("pve02", "image 2") ∷ []

abbrev sources : List DiskArgs → List (Option String)
sources disks = map (λ (d : DiskArgs). d.import_from) disks

-- The boot disk of a VM on pve02 comes from the image of pve02, and no disk of a clone does.
imports :
    (sources (create_vm (core01 "vlab") (common none) (some "pve02") (some images)).disks
      ≡ some "image 2" ∷ none ∷ [])
    × (sources (create_vm (core01 "vlab") (common (some 9000)) (some "pve02") (some images)).disks
        ≡ none ∷ none ∷ [])
unfolding create_vm disk_args disks_from disk_arg import_for image_on lookup core01
imports = (refl, refl)

create_vm-OneSource_example :
    OneSource
      (common none)
      (some images)
      none
      (create_vm (core01 "vlab") (common none) (some "pve02") (some images))
create_vm-OneSource_example =
    create_vm-OneSource (core01 "vlab") (common none) (some "pve02") (some images)
