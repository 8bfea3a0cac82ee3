-- ===== src/Main/Register.antt =====
-- infra/pulumi/__main__.py, modules/provider.py and modules/sdn.py: the resources that are registered
-- before the VMs. What the engine gives to the program is a record: whether this is a preview, the ids
-- of resources by their names, and the program's directory.
use rke2_lab.Base.{ℕ, String, ◌<>◌, Bool, true, false, not, Option, none, some, List, [], ◌∷◌}
use rke2_lab.Base.Dict.{Dict, insert}
use rke2_lab.Py.Effect.{Io, registered, pure, emit, ◌>>=◌, ◌>>◌}
use rke2_lab.Resources.{provider, zone, vnet, image, ImageArgs}
use rke2_lab.Sdn.{SdnSettings}
use rke2_lab.Main.Config.{Config, ProviderSettings, Settings, or_text}

pub record Engine : Type 0 where
  pub dry_run : Bool
  pub id_of : String → String
  pub directory : String

-- `build_provider`
unfoldable pub build_provider : ProviderSettings → Io (Unit {0})
unfolding emit
build_provider settings = emit (
    registered "proxmox-provider" (
      provider (record {
        endpoint = settings.endpoint;
        username = settings.username;
        password = settings.password;
        insecure = settings.insecure;
        ssh_username = "root";
      })))

-- `build_internal_lan`
unfoldable pub build_internal_lan : Engine → SdnSettings → Io (Unit {0})
unfolding emit ◌>>=◌
build_internal_lan engine settings = do
  emit (
      registered "sdn-vxlan-zone" (
        zone (record {
          resource_id = settings.zone_id;
          peers = settings.peers;
          nodes = settings.node_names;
        })))
  emit (
      registered "sdn-vxlan-vnet" (
        vnet (record {
          resource_id = settings.vnet_id;
          zone = engine.id_of "sdn-vxlan-zone";
          tag = settings.vxlan_tag;
        })))

abbrev pub image_name : String → String
image_name node = "ubuntu2404-cloud-image-" <> node

unfoldable pub image_args : Settings → Config → String → ImageArgs
image_args settings deployment_cfg node = record {
  content_type = "import";
  datastore_id = settings.image_datastore_id;
  node_name = node;
  url =
      or_text (deployment_cfg.get "baseImageUrl")
        "https://cloud-images.ubuntu.com/releases/noble/release-20260814/ubuntu-24.04-server-cloudimg-amd64.img";
  file_name = or_text (deployment_cfg.get "baseImageFileName") "noble-server-cloudimg-amd64.qcow2";
  checksum =
      or_text (deployment_cfg.get "baseImageChecksum")
        "6e40c07ae715f744f84af0bec76415cc1987dd115b4b8de437818561f01a3733";
  checksum_algorithm = "sha256";
  overwrite = false;
  overwrite_unmanaged = true;
  verify = not settings.provider.insecure;
}

-- The image of each node, with its id.
unfoldable pub register_images :
    Engine → Settings → Config → List String → Dict String → Io (Dict String)
unfolding image_args emit pure ◌>>=◌
register_images engine settings deployment_cfg [] images = pure images
register_images engine settings deployment_cfg (node ∷ nodes) images = do
  emit (registered (image_name node) (image (image_args settings deployment_cfg node)))
  register_images engine settings deployment_cfg nodes
      (insert node (engine.id_of (image_name node)) images)

-- With a template no image is downloaded.
unfoldable pub boot_images : Engine → Settings → Config → Option ℕ → Io (Dict String)
unfolding register_images pure
boot_images engine settings deployment_cfg (some template) = pure []
boot_images engine settings deployment_cfg none =
    register_images engine settings deployment_cfg settings.node_names []
