-- ===== src/Main/Tests.antt =====
-- Runs of infra/pulumi/__main__.py: a build of two VMs on two nodes.
use rke2_lab.Base.{
  String, ◌≡◌, ◌≢◌, refl, Bool, true, false, none, some, List, [], ◌∷◌, All, ◌<>◌, ◌==◌, arith,
  eq_iff, if◌then◌else◌,
}
use rke2_lab.Py.Effect.{ok, Env, HttpRequest, Reply}
use rke2_lab.Fake.{fake, runtime, answer, usage, store, ticket}
use rke2_lab.Main.Config.{
  Config, Settings, read_settings, read_sdn_settings, get_required_value, get_bool_value,
  first_name,
}
use rke2_lab.Main.Created.{registrations, create_all_planned}
use rke2_lab.Main.Fits.{FitsInto, placing_at, main-Fits}
use rke2_lab.Sdn.{SdnSettings}
use rke2_lab.Main.Placed.{AllPlaced, main-Placed}
use rke2_lab.Main.Register.{
  Engine, image_args, build_provider, build_internal_lan, register_images, boot_images,
}
use rke2_lab.Main.Run.{
  CreatedVm, Deployment, zip_dict, main, run_program, put_created, create_all, preflight,
  fdb_settings, create_placed, deploy,
}
use rke2_lab.Main.Selection.{select_vms, with_keys, up_to_phase, footprints, nic_index_from}
use rke2_lab.Main.Selection.Nics.{nic_index_from-eq-standalone}
use rke2_lab.Fdb.Run.{build_settings_from_env}
use rke2_lab.Base.Dict.{Dict, has_key}
use rke2_lab.Vm.{VmSpec, vm_footprint_bytes}
use rke2_lab.Vm.Factory.{create_vm}
use rke2_lab.Vm.Definitions.{
  build_vm_specs, repo01, core01, kubecp01, kubecp02, kubecp03, kubewk01, kubewk02, kubewk03,
}
use rke2_lab.Placement.Plan.{plan}
use rke2_lab.Placement.Plan.Decided.{decided}
use rke2_lab.Placement.Planner.{plan_placement, load_record, save_record, select}
use rke2_lab.Placement.Client.{make_client, auth, node_capacity, online_nodes, send, failed}
use rke2_lab.Main.Preview.{Previews, run_program-Previews}

-- 64 GiB of memory and 1 TiB of disk on each node.
abbrev room : HttpRequest → Reply
room r =
    if r.url == "https://pve/api2/json/access/ticket"
    then answer ticket
    else if r.url == "https://pve/api2/json/nodes/pve01/status"
    then answer (usage 68719476736)
    else if r.url == "https://pve/api2/json/nodes/pve02/status"
    then answer (usage 68719476735)
    else answer (store 1099511627776)

abbrev site : Env
site = record fake { http = λ h r. room r }

abbrev engine : Bool → Engine
engine dry_run = record {
  dry_run = dry_run;
  id_of = λ name. "id of " <> name;
  directory = "/infra/pulumi";
}

abbrev proxmox_cfg : Config
proxmox_cfg = record {
  get = λ key.
      if key == "endpoint"
      then some "https://pve"
      else if key == "username"
      then some "root@pam"
      else if key == "password"
      then some "pw"
      else none;
  get_bool = λ key. none;
  get_int = λ key. none;
  get_names = λ key. none;
  get_map = λ key. none;
  get_secret = λ key. none;
}

abbrev deployment_cfg : Config
deployment_cfg = record {
  get = λ key. if key == "vmSshPublicKey" then some "ssh-ed25519 AAAA" else none;
  get_bool = λ key. none;
  get_int = λ key. none;
  get_names = λ key.
      if key == "nodeNames"
      then some ("pve01" ∷ "pve02" ∷ [])
      else if key == "selectedVmKeys"
      then some ("repo01" ∷ "core01" ∷ [])
      else none;
  get_map = λ key. none;
  get_secret = λ key. none;
}

run_program-Previews_example :
    All Previews (run_program site (engine true) proxmox_cfg deployment_cfg []).1
run_program-Previews_example =
    run_program-Previews site (engine true) refl proxmox_cfg deployment_cfg

opened : Unit {0}
unfolding runtime read_settings read_sdn_settings get_required_value get_bool_value first_name
    image_args zip_dict failed build_provider build_internal_lan build_vm_specs repo01 core01
    kubecp01 kubecp02 kubecp03 kubewk01 kubewk02 kubewk03 select_vms with_keys up_to_phase
    footprints vm_footprint_bytes register_images boot_images create_vm put_created create_all
    preflight fdb_settings create_placed deploy main plan decided plan_placement load_record
    save_record make_client auth node_capacity online_nodes send select
opened = tt

-- The larger of the two goes first, to the node with more free memory.
builds_two :
    (d : Deployment) × ((main site (engine true) proxmox_cfg deployment_cfg []).0 ≡ ok d)
    × (d.placements ≡ ("core01", "pve01") ∷ ("repo01", "pve02") ∷ [])
unfolding opened
builds_two = (_, refl, refl)

main-Placed_example :
    AllPlaced (engine true) builds_two.0 (main site (engine true) proxmox_cfg deployment_cfg []).1
main-Placed_example =
    main-Placed site (engine true) proxmox_cfg deployment_cfg builds_two.0 builds_two.1

abbrev two_vms : List VmSpec
two_vms = repo01 "vmbr0" "vlab" ∷ core01 "vlab" ∷ []

abbrev two_nodes : Dict String
two_nodes = ("core01", "pve01") ∷ ("repo01", "pve02") ∷ []

settled : (s : Settings) × (read_settings site proxmox_cfg deployment_cfg ≡ ok s)
unfolding opened
settled = (_, refl)

planned_two :
    (plan_placement site settled.0.provider.endpoint settled.0.provider.username
      settled.0.provider.password
      (footprints two_vms [])
      ".placement.json"
      []
      settled.0.node_names
      false
      []).0
    ≡ ok two_nodes
unfolding opened settled
planned_two = refl

create_all_planned_example :
    (created : Dict CreatedVm) × (create_all settled.0 [] two_nodes two_vms [] []
      ≡ (ok created, registrations settled.0 [] two_nodes two_vms []))
    × All (λ (spec : VmSpec). has_key spec.key created ≡ true) two_vms
create_all_planned_example =
    create_all_planned site settled.0 [] two_nodes [] two_vms ".placement.json" false [] []
      planned_two

main-Fits_example :
    (settings : Settings) × (sdn : SdnSettings) × (read_settings site proxmox_cfg deployment_cfg
      ≡ ok settings)
    × (read_sdn_settings settings deployment_cfg ≡ ok sdn)
    × FitsInto site
        (engine true)
        deployment_cfg
        settings
        (select_vms
          (deployment_cfg.get_names "selectedVmKeys")
          settings.phase_limit
          (build_vm_specs settings.external_bridge sdn.vnet_id))
        (placing_at (engine true) deployment_cfg settings sdn)
        builds_two.0.placements
main-Fits_example =
    main-Fits site (engine true) proxmox_cfg deployment_cfg builds_two.0 builds_two.1

bridges_differ : ◌≢◌ {A = String} "vmbr0" "vlab"
bridges_differ p = ground (arith, eq_iff "vmbr0" "vlab", p)

nic_index_from-eq-standalone_example :
    nic_index_from "vlab" (build_vm_specs "vmbr0" "vlab") []
    ≡ (build_settings_from_env fake).sdn_nic_index
nic_index_from-eq-standalone_example =
    nic_index_from-eq-standalone fake "vmbr0" "vlab" bridges_differ
