-- ===== src/Main/Run.antt =====
-- infra/pulumi/__main__.py: the program after its configuration is read.
use rke2_lab.Base.{
  ℕ, String, ◌<>◌, true, not, Option, none, some, List, [], ◌∷◌, map, eqb, if◌then◌else◌,
}
use rke2_lab.Base.Dict.{Dict, insert}
use rke2_lab.Py.Result.{value_error, index}
use rke2_lab.Py.Effect.{
  Env, Io, printed, registered, pure, raise, lift, emit, for_each, try_except, except_runtime,
  ◌>>=◌, ◌>>◌,
}
use rke2_lab.Resources.{vm}
use rke2_lab.Cleanup.Settings.{CleanupSettings}
use rke2_lab.Cleanup.Run.{clean_orphans}
use rke2_lab.Placement.Planner.{plan_placement}
use rke2_lab.Sdn.{SdnSettings, apply_sdn}
use rke2_lab.Fdb.Settings.{SdnFdbSettings}
use rke2_lab.Fdb.Run.{ensure_sdn_fdb}
use rke2_lab.Vm.{VmNicSpec, VmSpec}
use rke2_lab.Vm.Definitions.{build_vm_specs}
use rke2_lab.Vm.Factory.{create_vm}
use rke2_lab.Main.Config.{Config, Settings, or_text, or_map, read_settings, read_sdn_settings}
use rke2_lab.Main.Selection.{select_vms, footprints, nic_index_from}
use rke2_lab.Main.Register.{Engine, build_provider, build_internal_lan, boot_images}

pub record CreatedVm : Type 0 where
  pub hostname : String
  pub vm_id : ℕ
  pub phase : ℕ
  pub node : String
  pub ip_addresses : List String
  pub resource_name : String

-- `boot_image_by_node or None`
abbrev pub or_none : Dict String → Option (Dict String)
or_none [] = none
or_none (p ∷ ps) = some (p ∷ ps)

unfoldable pub put_created : VmSpec → String → Dict CreatedVm → Dict CreatedVm
put_created spec node created =
    insert spec.key
      (record {
        hostname = spec.hostname;
        vm_id = spec.vm_id;
        phase = spec.phase;
        node = node;
        ip_addresses = map (λ (nic : VmNicSpec). nic.ipv4_cidr) spec.nics;
        resource_name = spec.key;
      })
      created

unfoldable pub create_all :
    Settings → Dict String → Dict String → List VmSpec → Dict CreatedVm → Io (Dict CreatedVm)
unfolding put_created create_vm emit pure lift ◌>>=◌
create_all settings images placements [] created = pure created
create_all settings images placements (spec ∷ specs) created = do
  node ← lift (index spec.key placements)
  emit (registered spec.key (vm (create_vm spec settings.common (some node) (or_none images))))
  create_all settings images placements specs (put_created spec node created)

-- `dict(zip(keys, values))`
unfoldable pub zip_dict : List String → List String → Dict String → Dict String
zip_dict [] values d = d
zip_dict (k ∷ ks) [] d = d
zip_dict (k ∷ ks) (v ∷ vs) d = zip_dict ks vs (insert k v d)

unfoldable pub fdb_settings : Settings → SdnSettings → Dict VmSpec → SdnFdbSettings
unfolding zip_dict nic_index_from
fdb_settings settings sdn specs = record {
  endpoint = settings.provider.endpoint;
  username = settings.provider.username;
  password = settings.provider.password;
  insecure = settings.provider.insecure;
  node_names = settings.node_names;
  peers = sdn.peers;
  vxlan_device = "vxlan_vlab";
  data_file = "/etc/sdn-vlab-fdb/sdn-vlab-fdb.txt";
  data_dir = "/etc/sdn-vlab-fdb";
  hook_file = "/etc/network/if-up.d/sdn-vlab-fdb";
  fallback_password_file = "~/.proxmoxpass";
  node_ssh_hosts = zip_dict settings.node_names sdn.peers [];
  sdn_nic_index = nic_index_from sdn.vnet_id specs [];
}

unfoldable pub print_lines : List String → Io (Unit {0})
unfolding emit for_each pure ◌>>=◌
print_lines lines = do _ ← for_each (λ line. emit (printed line)) lines; pure tt

-- The callback `_post_create_sdn`.
unfoldable pub post_create_sdn : Env → Engine → SdnSettings → SdnFdbSettings → Io (Unit {0})
unfolding apply_sdn ensure_sdn_fdb print_lines emit try_except ◌>>=◌
post_create_sdn env engine sdn fdb = do
  _ ← apply_sdn env sdn.endpoint sdn.username sdn.password engine.dry_run
  try_except (do lines ← ensure_sdn_fdb env fdb engine.dry_run; print_lines lines)
      (except_runtime λ text. emit (printed ("[sdn_fdb] durable overlay apply skipped: " <> text)))

unfoldable pub cleanup_settings : Env → Settings → CleanupSettings
cleanup_settings env settings = record {
  endpoint = settings.provider.endpoint;
  username = settings.provider.username;
  password = settings.provider.password;
  node_names = settings.node_names;
  datastore_ids = settings.common.datastore_id ∷ settings.common.cloud_init_datastore_id ∷ [];
  insecure = settings.provider.insecure;
  fallback_password_file =
      some (or_text (env.getenv "PROXMOX_HOST_PASSWORD_FILE") (env.expanduser "~/.proxmoxpass"));
  node_ssh_hosts = none;
}

-- The cleanup across all nodes, in real runs.
unfoldable pub preflight : Env → Engine → Settings → Io (Unit {0})
unfolding clean_orphans cleanup_settings print_lines emit pure try_except ◌>>=◌
preflight env engine settings =
    if engine.dry_run
    then pure tt
    else try_except
        (do lines ← clean_orphans env (cleanup_settings env settings) true; print_lines lines)
        (except_runtime λ text. emit (printed ("[pve_cleanup] preflight skipped: " <> text)))

-- What the program exports, and the settings of the callback that it registers.
pub record Deployment : Type 0 where
  pub management_node : String
  pub node_names : List String
  pub phase_limit : ℕ
  pub template_vm_id : Option ℕ
  pub boot_image_source : String
  -- the ids of the zone and of the vnet
  pub zone_id : String
  pub vnet_id : String
  pub placements : Dict String
  pub created : Dict CreatedVm
  pub sdn : SdnSettings
  pub fdb : SdnFdbSettings

abbrev pub no_vms {ℓ} : {A : Type ℓ} → Io A
no_vms = raise (value_error "No VMs selected for deployment. Check deployment config values.")

-- `"clone" if template_vm_id else "download"`: 0 counts as false.
unfoldable pub boot_image_source : Option ℕ → String
boot_image_source none = "download"
boot_image_source (some template) = if eqb template 0 then "download" else "clone"

-- The part of the program behind the placement.
unfoldable pub create_placed :
    Env
    → Engine
    → Settings
    → SdnSettings
    → Dict VmSpec
    → (images placements : Dict String) → List VmSpec
    → Io Deployment
unfolding create_all preflight fdb_settings boot_image_source pure ◌>>=◌
create_placed env engine settings sdn specs images placements vms = do
  created ← create_all settings images placements vms []
  preflight env engine settings
  pure (record {
    management_node = settings.provider.node_name;
    node_names = settings.node_names;
    phase_limit = settings.phase_limit;
    template_vm_id = settings.common.template_vm_id;
    boot_image_source = boot_image_source settings.common.template_vm_id;
    zone_id = engine.id_of "sdn-vxlan-zone";
    vnet_id = engine.id_of "sdn-vxlan-vnet";
    placements = placements;
    created = created;
    sdn = sdn;
    fdb = fdb_settings settings sdn specs;
  })

-- The part of the program behind the selection of VMs.
unfoldable pub deploy :
    Env → Engine → Settings → SdnSettings → Config → Dict VmSpec → List VmSpec → Io Deployment
unfolding boot_images footprints plan_placement create_placed raise ◌>>=◌
deploy env engine settings sdn deployment_cfg specs [] = no_vms
deploy env engine settings sdn deployment_cfg specs (first ∷ more) = do
  images ← boot_images engine settings deployment_cfg settings.common.template_vm_id
  placements ←
      plan_placement env settings.provider.endpoint settings.provider.username
        settings.provider.password (footprints (first ∷ more) [])
        (or_text (deployment_cfg.get "placementRecordPath")
          (engine.directory <> "/.placement.json"))
        (or_map (deployment_cfg.get_map "placementOverrides")) settings.node_names
        (not engine.dry_run)
  create_placed env engine settings sdn specs images placements (first ∷ more)

-- The whole module; the callback runs later, when the resources exist.
unfoldable pub main : Env → Engine → (proxmox_cfg deployment_cfg : Config) → Io Deployment
unfolding read_settings build_provider read_sdn_settings build_internal_lan build_vm_specs
    select_vms deploy lift ◌>>=◌
main env engine proxmox_cfg deployment_cfg = do
  settings ← lift (read_settings env proxmox_cfg deployment_cfg)
  build_provider settings.provider
  sdn ← lift (read_sdn_settings settings deployment_cfg)
  build_internal_lan engine sdn
  let specs = build_vm_specs settings.external_bridge sdn.vnet_id
  deploy env engine settings sdn deployment_cfg specs
      (select_vms (deployment_cfg.get_names "selectedVmKeys") settings.phase_limit specs)

-- The program, and then the callback.
unfoldable pub run_program : Env → Engine → (proxmox_cfg deployment_cfg : Config) → Io Deployment
unfolding main post_create_sdn pure ◌>>=◌
run_program env engine proxmox_cfg deployment_cfg = do
  deployment ← main env engine proxmox_cfg deployment_cfg
  post_create_sdn env engine deployment.sdn deployment.fdb
  pure deployment
