-- ===== src/Main/Placed.antt =====
-- infra/pulumi/__main__.py: where the VMs stand that a run has registered.
mod Images
use mathlib.Core.Path.{subst}
use rke2_lab.Base.{
  ℕ, String, ◌≡◌, refl, sym, ap, Bool-cases, eq_iff, ◌==◌, ◌⊎◌, inl, inr, Bool, true, false, not,
  Option, none, some, List, [], ◌∷◌, All, All-map, arith,
}
use rke2_lab.Base.Dict.{Dict, lookup, insert, lookup-insert}
use rke2_lab.Py.Result.{index}
use rke2_lab.Py.Effect.{
  Event, registered, sent, ssh_ran, wrote, printed, slept, ran, started, drew, visited, ok, History,
  Env, Io, pure, lift, emit, ◌>>=◌, ◌>>◌,
}
use rke2_lab.Py.Effect.Rules.{
  Emits, Emits-pure, Emits-raise, Emits-lift, Emits-bind, Emits-if, Emits-try, Emits-emit,
  Emits-except_runtime, emits_rules,
}
use rke2_lab.Py.Effect.Returns.{bind-returned, pure-returned}
use rke2_lab.Py.Effect.Ends.{Ends, Ends-raise, Ends-Emits}
use rke2_lab.Resources.{DiskArgs, VmArgs, Resource, provider, zone, vnet, image, vm}
use rke2_lab.Vm.{VmSpec}
use rke2_lab.Vm.Factory.{image_on, create_vm}
use rke2_lab.Vm.Factory.Disks.{IsBlank, FirstFrom, OneSource, create_vm-OneSource}
use rke2_lab.Cleanup.Run.Safety.{clean_orphans-Emits}
use rke2_lab.Placement.Planner.Effects.{plan_placement-Emits}
use rke2_lab.Sdn.{SdnSettings}
use rke2_lab.Main.Config.{Config, ProviderSettings, Settings, read_settings, read_sdn_settings}
use rke2_lab.Main.Placed.Images.{
  IsImageOf, IsImageOf-keeps, Imports, boot_images-Imports, sourced-Imports,
}
use rke2_lab.Main.Register.{
  Engine, image_name, register_images, boot_images, build_provider, build_internal_lan,
}
use rke2_lab.Vm.Definitions.{build_vm_specs}
use rke2_lab.Main.Selection.{select_vms}
use rke2_lab.Main.Run.{
  or_none, create_all, create_placed, preflight, cleanup_settings, Deployment, deploy, main,
}
use rke2_lab.Main.Effects.{
  IsHost, print_lines-Emits, build_provider-Emits, build_internal_lan-Emits, boot_images-Emits,
  create_all-Emits,
}

-- A registered VM stands on the node that `placements` names for it, and a disk of it that is
-- imported comes from the image that was registered for that node.
abbrev pub Placed : Engine → History → Dict String → Event → Type 0
Placed engine h placements (registered name (vm args)) =
    (lookup name placements ≡ some args.node_name)
    × All (λ (d : DiskArgs). IsImageOf engine h args.node_name d.import_from) args.disks
Placed engine h placements _ = Unit

-- Not the registration of a VM.
abbrev NoVm : Event → Type 0
NoVm (registered name r) = IsHost r
NoVm _ = Unit

module _ (engine : Engine) where
  indexed :
      (key : String) (d : Dict String) (node : String)
      → index key d ≡ ok node
      → lookup key d ≡ some node
  unfolding index
  indexed key d node e = ground (arith, e)

  vm-Placed :
      (h : History) (settings : Settings) (images placements : Dict String)
      → Imports engine h images
      → (spec : VmSpec) (node : String) → index spec.key placements ≡ ok node
      → Placed engine h placements
          (registered spec.key (vm (create_vm spec settings.common (some node) (or_none images))))
  unfolding create_vm
  vm-Placed h settings images placements k spec node got = (
    indexed spec.key placements node got,
    sourced-Imports engine h settings images settings.common.template_vm_id
        (create_vm spec settings.common (some node) (or_none images)) k
        (create_vm-OneSource spec settings.common (some node) (or_none images)),
  )

  NoVm-Placed :
      (h : History) (placements : Dict String) (e : Event) → NoVm e → Placed engine h placements e
  NoVm-Placed h placements (registered name (vm args)) k = elim k [ ]
  NoVm-Placed h placements (registered name (provider args)) k = tt
  NoVm-Placed h placements (registered name (zone args)) k = tt
  NoVm-Placed h placements (registered name (vnet args)) k = tt
  NoVm-Placed h placements (registered name (image args)) k = tt
  NoVm-Placed h placements (sent r) k = tt
  NoVm-Placed h placements (ssh_ran host command) k = tt
  NoVm-Placed h placements (wrote path record_of) k = tt
  NoVm-Placed h placements (printed text) k = tt
  NoVm-Placed h placements (slept n) k = tt
  NoVm-Placed h placements (ran command) k = tt
  NoVm-Placed h placements (started command) k = tt
  NoVm-Placed h placements (drew n) k = tt
  NoVm-Placed h placements (visited v) k = tt

-- Every VM that the history has stands where the deployment says.
abbrev pub AllPlaced : Engine → Deployment → History → Type 0
AllPlaced engine d h = All (Placed engine h d.placements) h

module _ (env : Env) (engine : Engine) (settings : Settings) (sdn : SdnSettings)
    (cfg : Config) where
  preflight-Placed :
      (h : History) (placements : Dict String)
      → Emits (Placed engine h placements) (preflight env engine settings)
  unfolding preflight
  preflight-Placed h placements =
      Emits-if engine.dry_run _ _ (λ _. Emits-pure tt)
        (λ _.
          Emits-try _ _
            (Emits-bind _ _
              (clean_orphans-Emits env (cleanup_settings env settings) (λ r. tt)
                (λ host command. tt) (λ text. tt) true)
              (print_lines-Emits (λ text. tt)))
            (λ e. Emits-except_runtime _ e (λ text. Emits-emit _ tt)))

  pub create_placed-placements :
      (specs : Dict VmSpec) (images placements : Dict String) (vms : List VmSpec) (h : History)
      (d : Deployment)
      → (create_placed env engine settings sdn specs images placements vms h).0 ≡ ok d
      → placements ≡ d.placements
  unfolding create_placed
  create_placed-placements specs images placements vms h d e =
      let h1 = (create_all settings images placements vms [] h).1 in
      let h2 = (preflight env engine settings h1).1 in
      let (created, _, rest) =
        bind-returned (create_all settings images placements vms []) _ h d e in
      let (_, _, last) = bind-returned (preflight env engine settings) _ h1 d rest in
      ap (λ (d : Deployment). d.placements) (pure-returned _ d h2 last)

  create_placed-Emits :
      (specs : Dict VmSpec) (images placements : Dict String) (vms : List VmSpec) (h : History)
      → Imports engine h images
      → Emits
          (Placed engine h placements)
          (create_placed env engine settings sdn specs images placements vms)
  unfolding create_placed
  create_placed-Emits specs images placements vms h k =
      Emits-bind _ _
        (create_all-Emits settings images placements
          (vm-Placed engine h settings images placements k) vms [])
        (λ created. Emits-bind _ _ (preflight-Placed h placements) (λ _. Emits-pure _))

  -- The images that were registered before are in the history at the end.
  create_placed-Placed :
      (specs : Dict VmSpec) (images placements : Dict String) (vms : List VmSpec) (h : History)
      → Imports engine h images
      → All NoVm h
      → Ends
          (AllPlaced engine)
          h
          (create_placed env engine settings sdn specs images placements vms)
  create_placed-Placed specs images placements vms h k none_yet = record {
    at = λ d e.
        let m = create_placed env engine settings sdn specs images placements vms in
        let later = (m h).1 in
        let kept = (create_placed-Emits specs images placements vms h k).keeps in
        let all : All (Placed engine later placements) later =
          (create_placed-Emits specs images placements vms later (λ node.
              IsImageOf-keeps engine h later node (lookup node images) (λ e. kept e h) (k node))).at
            h
            (All-map NoVm (Placed engine later placements) h (NoVm-Placed engine later placements)
              none_yet) in
        subst (λ pl. All (Placed engine later pl) later)
          (create_placed-placements specs images placements vms h d e) all;
  }

  deploy-Placed :
      (specs : Dict VmSpec) (vms : List VmSpec) (h : History)
      → All NoVm h
      → Ends (AllPlaced engine) h (deploy env engine settings sdn cfg specs vms)
  unfolding deploy
  deploy-Placed specs [] h none_yet = Ends-raise _
  deploy-Placed specs (first ∷ more) h none_yet =
      Ends-Emits _ _ h
        (boot_images-Emits (λ name r k. k) engine settings cfg settings.common.template_vm_id)
        none_yet
        (λ images loaded still.
          let here =
            boot_images-Imports engine settings cfg settings.common.template_vm_id images h
              loaded in
          let planning =
            plan_placement-Emits {P = NoVm} (λ r q. tt) env (λ text. tt) _ (not engine.dry_run)
              (λ live written. tt) _ _ _ _ _ settings.node_names in
          Ends-Emits _ _ _ planning still (λ placements planned yet.
            create_placed-Placed specs images placements (first ∷ more) _
              (λ node.
                IsImageOf-keeps engine _ _ node (lookup node images) (λ e. planning.keeps e _)
                  (here node))
              yet))

  lan-Placed :
      (specs : Dict VmSpec) (vms : List VmSpec) (h : History)
      → All NoVm h
      → Ends
          (AllPlaced engine)
          h
          (build_internal_lan engine sdn >> deploy env engine settings sdn cfg specs vms)
  lan-Placed specs vms h p =
      Ends-Emits {P = NoVm} (build_internal_lan engine sdn)
        (λ _. deploy env engine settings sdn cfg specs vms) h
        (build_internal_lan-Emits (λ name r k. k) engine sdn) p
        (λ _ _ still. deploy-Placed specs vms _ still)

-- Where the program returns, every VM that it registered stands on the node that the exported
-- placements name for it. None of its disks is imported, or what is imported is the id of the image
-- that was registered under this node's name, and the history has that registration, of an image
-- on this very node.
pub main-Placed :
    (env : Env) (engine : Engine) (proxmox_cfg deployment_cfg : Config) (d : Deployment)
    → (main env engine proxmox_cfg deployment_cfg []).0 ≡ ok d
    → AllPlaced engine d (main env engine proxmox_cfg deployment_cfg []).1
unfolding main
main-Placed env engine proxmox_cfg deployment_cfg d e =
    let rest : (settings : Settings) (h : History)
        → All NoVm h
        → Ends (AllPlaced engine) h (do
          sdn ← lift (read_sdn_settings settings deployment_cfg)
          build_internal_lan engine sdn
          let specs = build_vm_specs settings.external_bridge sdn.vnet_id
          deploy env engine settings sdn deployment_cfg specs
              (select_vms (deployment_cfg.get_names "selectedVmKeys") settings.phase_limit specs)) =
      λ settings h p.
        Ends-Emits {P = NoVm} (lift (read_sdn_settings settings deployment_cfg)) _ h (Emits-lift _)
          p
          (λ sdn _ p2.
            let specs = build_vm_specs settings.external_bridge sdn.vnet_id in
            lan-Placed env engine settings sdn deployment_cfg specs _ _ p2) in
    let whole : Ends (AllPlaced engine) [] (main env engine proxmox_cfg deployment_cfg) =
      Ends-Emits {P = NoVm} (lift (read_settings env proxmox_cfg deployment_cfg)) _ []
        (Emits-lift _) tt
        (λ settings _ p0.
          Ends-Emits {P = NoVm} (build_provider settings.provider) _ _
            (build_provider-Emits (λ name r k. k) engine settings.provider) p0
            (λ _ _ p1. rest settings _ p1)) in
    whole.at d e
