-- ===== src/Main/Config.antt =====
-- infra/pulumi/__main__.py: the reading of the configuration. `pulumi.Config` is a record of its
-- getters: an object is a list or a dict of texts, and an integer is not negative.
use rke2_lab.Base.{
  ℕ, zero, suc, String, ◌<>◌, Bool, true, Option, none, some, List, [], ◌∷◌, contains,
}
use rke2_lab.Base.Int.{ℤ}
use rke2_lab.Base.Dict.{Dict}
use rke2_lab.Py.Text.{lower, int_of_text}
use rke2_lab.Py.Result.{Result, ok, err, value_error, ◌>>=◌}
use rke2_lab.Py.Effect.{Env}
use rke2_lab.Cleanup.Settings.{configured}
use rke2_lab.Sdn.{SdnSettings}
use rke2_lab.Vm.{VmCommonSettings}

pub record Config : Type 0 where
  pub get : String → Option String
  pub get_bool : String → Option Bool
  pub get_int : String → Option ℕ
  pub get_names : String → Option (List String)
  pub get_map : String → Option (Dict String)
  pub get_secret : String → Option String

-- `value or default`
abbrev pub or_text : Option String → String → String
or_text value default = elim (configured value) [ none ↦ default | some text ↦ text ]

abbrev pub or_names : Option (List String) → List String → List String
or_names none default = default
or_names (some []) default = default
or_names (some (n ∷ ns)) default = n ∷ ns

abbrev pub or_number : Option ℕ → ℕ → ℕ
or_number none default = default
or_number (some zero) default = default
or_number (some (suc n)) default = suc n

abbrev pub or_map : Option (Dict String) → Dict String
or_map none = []
or_map (some entries) = entries

abbrev from_env : String → String → Option String → Result String
from_env key env_name none = err (
    value_error (
      "Missing required value for '"
      <> (key <> ("'. Set config or env var " <> (env_name <> ".")))))
from_env key env_name (some value) = ok value

abbrev from_config : String → String → Option String → Option String → Result String
from_config key env_name (some value) other = ok value
from_config key env_name none other = from_env key env_name other

-- `_get_required_value`
unfoldable pub get_required_value : Env → Config → String → String → Result String
get_required_value env config key env_name =
    from_config key env_name (configured (config.get key)) (configured (env.getenv env_name))

abbrev bool_from_env : Option String → Bool → Bool
bool_from_env none default = default
bool_from_env (some value) default = contains (lower value) ("1" ∷ "true" ∷ "yes" ∷ "on" ∷ [])

-- `_get_bool_value`
unfoldable pub get_bool_value : Env → Config → String → String → Bool → Bool
get_bool_value env config key env_name default = elim (config.get_bool key) [
  | some value ↦ value
  | none ↦ bool_from_env (env.getenv env_name) default
]

pub record ProviderSettings : Type 0 where
  pub endpoint : String
  pub username : String
  pub password : String
  pub insecure : Bool
  pub node_name : String

-- The module's variables up to the first resource.
pub record Settings : Type 0 where
  pub node_names : List String
  pub provider : ProviderSettings
  pub phase_limit : ℕ
  pub external_bridge : String
  pub image_datastore_id : String
  pub common : VmCommonSettings

abbrev default_nodes : List String
default_nodes = "pve01" ∷ "pve02" ∷ "pve03" ∷ []

abbrev pub default_peers : List String
default_peers = "192.168.1.21" ∷ "192.168.1.22" ∷ "192.168.1.23" ∷ []

unfoldable pub first_name : List String → String
first_name [] = ""
first_name (n ∷ ns) = n

abbrev or_else {ℓ} : {A : Type ℓ} → Option A → Option A → Option A
or_else (some a) other = some a
or_else none other = other

-- `get_secret` returns an output, which counts as true where it is present.
unfoldable pub read_settings : Env → Config → Config → Result Settings
unfolding get_required_value get_bool_value first_name
read_settings env proxmox_cfg deployment_cfg = do
  let node_names = or_names (deployment_cfg.get_names "nodeNames") default_nodes
  let management_node = or_text (deployment_cfg.get "managementNode") (first_name node_names)
  endpoint ← get_required_value env proxmox_cfg "endpoint" "PROXMOX_VE_ENDPOINT"
  username ← get_required_value env proxmox_cfg "username" "PROXMOX_VE_USERNAME"
  password ← get_required_value env proxmox_cfg "password" "PROXMOX_VE_PASSWORD"
  key ← get_required_value env deployment_cfg "vmSshPublicKey" "VM_SSH_PUBLIC_KEY"
  ok (record {
    node_names = node_names;
    provider = record {
      endpoint = endpoint;
      username = username;
      password = password;
      insecure = get_bool_value env proxmox_cfg "insecure" "PROXMOX_VE_INSECURE" true;
      node_name = management_node;
    };
    phase_limit = or_number (deployment_cfg.get_int "phaseLimit") 2;
    external_bridge = or_text (deployment_cfg.get "externalBridge") "vmbr0";
    image_datastore_id = or_text (deployment_cfg.get "imageDatastoreId") "local";
    common = record {
      template_node_name = management_node;
      template_vm_id = deployment_cfg.get_int "templateVmId";
      datastore_id = or_text (deployment_cfg.get "datastoreId") "local-lvm";
      cloud_init_datastore_id = or_text (deployment_cfg.get "cloudInitDatastoreId") "local-lvm";
      vm_username = or_text (deployment_cfg.get "vmUsername") "devops";
      vm_ssh_public_key = key;
      vm_user_password =
          or_else (deployment_cfg.get_secret "vmUserPassword") (env.getenv "VM_USER_PASSWORD");
      vm_domain = or_text (deployment_cfg.get "vmDomain") "dev.lo";
      disk_file_format = deployment_cfg.get "diskFileFormat";
      disk_cache = or_text (deployment_cfg.get "diskCache") "writeback";
      disk_io_thread = true;
      scsi_hardware = "virtio-scsi-single";
    };
  })

abbrev tag_of : Option ℤ → Result ℤ
tag_of none = err (value_error "invalid literal for int()")
tag_of (some tag) = ok tag

unfoldable pub read_sdn_settings : Settings → Config → Result SdnSettings
unfolding int_of_text
read_sdn_settings settings deployment_cfg = do
  tag ← tag_of (int_of_text (or_text (deployment_cfg.get "vxlanTag") "42"))
  ok (record {
    endpoint = settings.provider.endpoint;
    username = settings.provider.username;
    password = settings.provider.password;
    insecure = settings.provider.insecure;
    zone_id = or_text (deployment_cfg.get "sdnZoneId") "labvx";
    vnet_id = or_text (deployment_cfg.get "sdnVnetId") "vlab";
    vxlan_tag = tag;
    node_names = settings.node_names;
    peers = or_names (deployment_cfg.get_names "sdnPeers") default_peers;
  })
