-- ===== src/Vm/Factory/Disks.antt =====
-- infra/pulumi/modules/vm_factory.py: where a VM's boot disk comes from.
use rke2_lab.Base.{true, ℕ, suc, String, ◌≡◌, refl, Option, none, some, List, [], ◌∷◌, All}
use rke2_lab.Base.Dict.{Dict}
use rke2_lab.Resources.{DiskArgs, VmArgs}
use rke2_lab.Vm.{VmSpec, VmCommonSettings}
use rke2_lab.Vm.Factory.{
  image_on, import_for, disk_arg, disks_from, disk_args, clone_args, create_vm,
}

abbrev pub IsBlank : DiskArgs → Type 0
IsBlank d = d.import_from ≡ none

-- Only the first disk may come from an image.
abbrev pub FirstFrom : Option String → List DiskArgs → Type 0
FirstFrom image [] = Unit
FirstFrom image (d ∷ ds) = (d.import_from ≡ image) × All IsBlank ds

import_for_later :
    (template : Option ℕ) (idx : ℕ) (node : String) (images : Option (Dict String))
    → import_for template (suc idx) node images ≡ none
unfolding import_for
import_for_later none idx node images = refl
import_for_later (some template) idx node images = refl

disks_from-IsBlank :
    (common : VmCommonSettings) (idx : ℕ) (disks : List ℕ) (node : String)
    (images : Option (Dict String))
    → All IsBlank (disks_from common (suc idx) disks node images)
unfolding disks_from disk_arg
disks_from-IsBlank common idx [] node images = tt
disks_from-IsBlank common idx (gb ∷ disks) node images = (
  import_for_later common.template_vm_id idx node images,
  disks_from-IsBlank common (suc idx) disks node images,
)

disk_args-FirstFrom :
    (common : VmCommonSettings) (disks : List ℕ) (node : String) (images : Option (Dict String))
    → FirstFrom
        (import_for common.template_vm_id 0 node images)
        (disk_args common disks node images)
unfolding disk_args disks_from disk_arg
disk_args-FirstFrom common [] node images = tt
disk_args-FirstFrom common (gb ∷ disks) node images =
    (refl, disks_from-IsBlank common 0 disks node images)

IsBlank-none : (ds : List DiskArgs) → FirstFrom none ds → All IsBlank ds
IsBlank-none [] f = tt
IsBlank-none (d ∷ ds) f = f

-- One source for the system, by the template that is configured or not.
abbrev pub OneSource : VmCommonSettings → Option (Dict String) → Option ℕ → VmArgs → Type 0
OneSource common images (some template) vm =
    (vm.clone
      ≡ some (record { node_name = common.template_node_name; vm_id = template; full = true }))
    × All IsBlank vm.disks
OneSource common images none vm =
    (vm.clone ≡ none) × FirstFrom (image_on images vm.node_name) vm.disks

one_source :
    (common : VmCommonSettings) (images : Option (Dict String)) (t : Option ℕ) (vm : VmArgs)
    → vm.clone ≡ clone_args common t
    → FirstFrom (import_for t 0 vm.node_name images) vm.disks
    → OneSource common images t vm
unfolding clone_args import_for
one_source common images none vm c f = (c, f)
one_source common images (some template) vm c f = (c, IsBlank-none vm.disks f)

-- A VM has one source for its system. With a template it is a full clone of the template, and none of
-- its disks comes from an image. Without one it is no clone, only its first disk may come from an
-- image, and that is the image of the very node that the VM is created on.
pub create_vm-OneSource :
    (spec : VmSpec) (common : VmCommonSettings) (node : Option String)
    (images : Option (Dict String))
    → OneSource common images common.template_vm_id (create_vm spec common node images)
unfolding create_vm
create_vm-OneSource spec common node images =
    one_source common images common.template_vm_id (create_vm spec common node images) refl
      (disk_args-FirstFrom common spec.disks_gb _ images)
