-- ===== src/Main/Fits.antt =====
-- infra/pulumi/__main__.py: the VMs that a run places anew fit into the nodes it exports for them.
use rke2_lab.Base.{ℕ, String, ◌<>◌, ◌≡◌, refl, ◌∙◌, true, not, List, [], ◌∷◌, arith}
use mathlib.Core.Path.{subst}
use rke2_lab.Base.Contains.{unique, unique-insert}
use rke2_lab.Base.Dict.{Dict, insert, keys}
use rke2_lab.Py.Effect.{ok, History, Env, Io, lift, raise, ◌>>=◌, ◌>>◌}
use rke2_lab.Py.Effect.Returns.{bind-returned, then-returned, lift-returned}
use rke2_lab.Vm.{VmSpec, vm_footprint_bytes}
use rke2_lab.Vm.Definitions.{build_vm_specs}
use rke2_lab.Placement.Planner.{plan_placement}
use rke2_lab.Placement.Planner.Fits.{Fitting, plan_placement-Fitting}
use rke2_lab.Sdn.{SdnSettings}
use rke2_lab.Main.Config.{Config, Settings, or_text, or_map, read_settings, read_sdn_settings}
use rke2_lab.Main.Register.{Engine, build_provider, build_internal_lan, boot_images}
use rke2_lab.Main.Selection.{select_vms, footprints}
use rke2_lab.Main.Placed.{create_placed-placements}
use rke2_lab.Main.Run.{Deployment, deploy, main}

unique-footprints :
    (vms : List VmSpec) (sizes : Dict (ℕ × ℕ))
    → unique (keys sizes) ≡ true
    → unique (keys (footprints vms sizes)) ≡ true
unfolding footprints
unique-footprints [] sizes u = u
unique-footprints (spec ∷ vms) sizes u =
    unique-footprints vms (insert spec.key (vm_footprint_bytes spec) sizes)
      (unique-insert spec.key (vm_footprint_bytes spec) sizes ∙ u)

module _ (env : Env) (engine : Engine) (cfg : Config) (settings : Settings) where
  -- The footprints of these VMs fit into the nodes of `placements`, by what was read after `h`.
  abbrev pub FitsInto : List VmSpec → History → Dict String → Type 0
  FitsInto vms h placements =
      Fitting env settings.provider.endpoint settings.provider.username settings.provider.password
        (footprints vms [])
        (or_text (cfg.get "placementRecordPath") (engine.directory <> "/.placement.json"))
        (or_map (cfg.get_map "placementOverrides")) settings.node_names h placements

  deploy-Fits :
      (sdn : SdnSettings) (specs : Dict VmSpec) (vms : List VmSpec) (h : History) (d : Deployment)
      → (deploy env engine settings sdn cfg specs vms h).0 ≡ ok d
      → FitsInto vms
          (boot_images engine settings cfg settings.common.template_vm_id h).1
          d.placements
  unfolding deploy raise keys
  deploy-Fits sdn specs [] h d e = ground (arith, e)
  deploy-Fits sdn specs (first ∷ more) h d e =
      let load = boot_images engine settings cfg settings.common.template_vm_id in
      let (images, _, e1) = bind-returned load _ h d e in
      let h1 = (load h).1 in
      let place =
        plan_placement env settings.provider.endpoint settings.provider.username
          settings.provider.password (footprints (first ∷ more) [])
          (or_text (cfg.get "placementRecordPath") (engine.directory <> "/.placement.json"))
          (or_map (cfg.get_map "placementOverrides")) settings.node_names (not engine.dry_run) in
      let (placements, planned, e2) = bind-returned place _ h1 d e1 in
      let same : placements ≡ d.placements =
        create_placed-placements env engine settings sdn cfg specs images placements (first ∷ more)
          (place h1).1 d e2 in
      subst (FitsInto (first ∷ more) h1) same (
        plan_placement-Fitting env settings.provider.endpoint settings.provider.username
          settings.provider.password (footprints (first ∷ more) [])
          (or_text (cfg.get "placementRecordPath") (engine.directory <> "/.placement.json"))
          (or_map (cfg.get_map "placementOverrides")) settings.node_names (not engine.dry_run) h1
          placements (unique-footprints (first ∷ more) [] refl) planned)

-- The history of a run when it starts to place its VMs.
abbrev pub placing_at : Engine → Config → Settings → SdnSettings → History
placing_at engine cfg settings sdn =
    let provided = (build_provider settings.provider []).1 in
    let joined = (build_internal_lan engine sdn provided).1 in
    (boot_images engine settings cfg settings.common.template_vm_id joined).1

-- Where the program returns, the placements that it exports were planned for the footprints of the
-- VMs that the configuration selects, and those that it placed anew fit: each stands on a node whose
-- usage it had just read, and all that it gives to this node, the VMs placed before included, fits
-- into the free RAM and the free disk that were read.
pub main-Fits :
    (env : Env) (engine : Engine) (proxmox_cfg deployment_cfg : Config) (d : Deployment)
    → (main env engine proxmox_cfg deployment_cfg []).0 ≡ ok d
    → (settings : Settings) × (sdn : SdnSettings) × (read_settings env proxmox_cfg deployment_cfg
        ≡ ok settings)
      × (read_sdn_settings settings deployment_cfg ≡ ok sdn)
      × FitsInto env engine deployment_cfg settings
          (select_vms
            (deployment_cfg.get_names "selectedVmKeys")
            settings.phase_limit
            (build_vm_specs settings.external_bridge sdn.vnet_id))
          (placing_at engine deployment_cfg settings sdn)
          d.placements
unfolding main lift
main-Fits env engine proxmox_cfg deployment_cfg d e =
    let specs : Settings → SdnSettings → Dict VmSpec =
      λ settings sdn. build_vm_specs settings.external_bridge sdn.vnet_id in
    let finish : Settings → SdnSettings → Io Deployment = λ settings sdn.
      deploy env engine settings sdn deployment_cfg (specs settings sdn) (
        select_vms (deployment_cfg.get_names "selectedVmKeys") settings.phase_limit
          (specs settings sdn)) in
    let with_sdn : Settings → SdnSettings → Io Deployment =
      λ settings sdn. build_internal_lan engine sdn >> finish settings sdn in
    let with_settings : Settings → Io Deployment =
      λ settings. lift (read_sdn_settings settings deployment_cfg) >>= with_sdn settings in
    let read = lift (read_settings env proxmox_cfg deployment_cfg) in
    let (settings, s, e1) =
      bind-returned read (λ settings. build_provider settings.provider >> with_settings settings) []
        d e in
    let h1 = (read []).1 in
    let e2 = then-returned (build_provider settings.provider) (with_settings settings) h1 d e1 in
    let h2 = (build_provider settings.provider h1).1 in
    let (sdn, n, e3) =
      bind-returned (lift (read_sdn_settings settings deployment_cfg)) (with_sdn settings) h2 d
        e2 in
    let h3 = (lift (read_sdn_settings settings deployment_cfg) h2).1 in
    let e4 = then-returned (build_internal_lan engine sdn) (finish settings sdn) h3 d e3 in
    let h4 = (build_internal_lan engine sdn h3).1 in
    let fits =
      deploy-Fits env engine deployment_cfg settings sdn (specs settings sdn)
        (select_vms (deployment_cfg.get_names "selectedVmKeys") settings.phase_limit
          (specs settings sdn))
        h4 d e4 in
    (
      settings,
      sdn,
      lift-returned (read_settings env proxmox_cfg deployment_cfg) settings [] s,
      lift-returned (read_sdn_settings settings deployment_cfg) sdn h2 n,
      fits,
    )
