-- ===== src/Main/Preview.antt =====
-- infra/pulumi/__main__.py: a preview.
use rke2_lab.Base.{String, ◌≡◌, true, not, none, List, [], ◌∷◌, All, arith}
use rke2_lab.Base.Dict.{Dict}
use rke2_lab.Py.Effect.{Event, sent, printed, registered, Env}
use rke2_lab.Py.Effect.Rules.{
  Emits, Emits-pure, Emits-raise, Emits-bind, Emits-emit, Emits-if, Emits-try, Emits-except_runtime,
  emits_rules,
}
use rke2_lab.Placement.Client.Effects.{IsRead}
use rke2_lab.Placement.Planner.Effects.{plan_placement-Emits}
use rke2_lab.Sdn.{SdnSettings, apply_sdn}
use rke2_lab.Fdb.Settings.{SdnFdbSettings}
use rke2_lab.Fdb.Run.{ensure_sdn_fdb}
use rke2_lab.Vm.{VmSpec}
use rke2_lab.Main.Config.{Config, ProviderSettings, Settings}
use rke2_lab.Main.Register.{Engine, build_provider, build_internal_lan}
use rke2_lab.Main.Run.{create_placed, preflight, post_create_sdn, deploy, main, run_program}
use rke2_lab.Main.Effects.{
  print_lines-Emits, create_all-Emits, build_provider-Emits, build_internal_lan-Emits,
  boot_images-Emits,
}

-- A read, the ticket's request, a message, or a resource that the engine is told of.
abbrev pub Previews : Event → Type 0
Previews (sent r) = IsRead r
Previews (printed text) = Unit
Previews (registered name resource) = Unit
Previews _ = ⊥

module _ (env : Env) (engine : Engine) (preview : engine.dry_run ≡ true) where
  preflight-Previews : (settings : Settings) → Emits Previews (preflight env engine settings)
  unfolding preflight
  preflight-Previews settings =
      Emits-if engine.dry_run _ _ (λ _. Emits-pure tt) (λ live. ground (arith, preview, live))

  create_placed-Previews :
      (settings : Settings) (sdn : SdnSettings) (specs : Dict VmSpec)
      (images placements : Dict String) (vms : List VmSpec)
      → Emits Previews (create_placed env engine settings sdn specs images placements vms)
  unfolding create_placed
  create_placed-Previews settings sdn specs images placements vms =
      Emits-bind _ _ (create_all-Emits settings images placements (λ spec node got. tt) vms [])
        (λ created. Emits-bind _ _ (preflight-Previews settings) (λ _. Emits-pure _))

  deploy-Previews :
      (settings : Settings) (sdn : SdnSettings) (cfg : Config) (specs : Dict VmSpec)
      (vms : List VmSpec)
      → Emits Previews (deploy env engine settings sdn cfg specs vms)
  unfolding deploy
  deploy-Previews settings sdn cfg specs [] = Emits-raise _
  deploy-Previews settings sdn cfg specs (first ∷ more) =
      Emits-bind _ _
        (boot_images-Emits (λ name r host. tt) engine settings cfg settings.common.template_vm_id)
        (λ images.
          Emits-bind _ _
            (plan_placement-Emits {P = Previews} (λ r q. q) env (λ text. tt) _ (not engine.dry_run)
              (λ live written. ground (arith, preview, live)) _ _ _ _ _ settings.node_names)
            (λ placements.
              create_placed-Previews settings sdn specs images placements (first ∷ more)))

  apply_sdn-Previews :
      (endpoint username password : String)
      → Emits Previews (apply_sdn env endpoint username password engine.dry_run)
  unfolding apply_sdn
  apply_sdn-Previews endpoint username password =
      Emits-if engine.dry_run _ _ (λ _. Emits-bind _ _ (Emits-emit _ tt) (λ _. Emits-pure none))
        (λ live. ground (arith, preview, live))

  ensure_sdn_fdb-Previews :
      (fdb : SdnFdbSettings) → Emits Previews (ensure_sdn_fdb env fdb engine.dry_run)
  unfolding ensure_sdn_fdb
  ensure_sdn_fdb-Previews fdb =
      Emits-if engine.dry_run _ _ (λ _. Emits-pure _) (λ live. ground (arith, preview, live))

  post_create_sdn-Previews :
      (sdn : SdnSettings) (fdb : SdnFdbSettings)
      → Emits Previews (post_create_sdn env engine sdn fdb)
  unfolding post_create_sdn
  post_create_sdn-Previews sdn fdb =
      Emits-bind _ _ (apply_sdn-Previews sdn.endpoint sdn.username sdn.password) (λ _.
        Emits-try _ _
          (Emits-bind _ _ (ensure_sdn_fdb-Previews fdb) (print_lines-Emits (λ text. tt)))
          (λ e. Emits-except_runtime _ e (λ text. Emits-emit _ tt)))

  provider-Previews : (settings : ProviderSettings) → Emits Previews (build_provider settings)
  provider-Previews = build_provider-Emits (λ name r host. tt) engine

  lan-Previews : (sdn : SdnSettings) → Emits Previews (build_internal_lan engine sdn)
  lan-Previews = build_internal_lan-Emits (λ name r host. tt) engine

  main-Previews :
      (proxmox_cfg deployment_cfg : Config)
      → Emits Previews (main env engine proxmox_cfg deployment_cfg)
  unfolding main
  main-Previews proxmox_cfg deployment_cfg =
      search (emits_rules, provider-Previews, lan-Previews, deploy-Previews) depth 12

  -- On a preview the whole program, its callback included, changes nothing: whatever is configured,
  -- whatever the servers and files answer, and whether it returns or raises, it sends only GET
  -- requests and the POST for the ticket, prints, and registers resources. It deletes no volume,
  -- reloads no network, runs nothing over SSH and writes no file.
  pub run_program-Previews :
      (proxmox_cfg deployment_cfg : Config)
      → All Previews (run_program env engine proxmox_cfg deployment_cfg []).1
  unfolding run_program
  run_program-Previews proxmox_cfg deployment_cfg =
      (Emits-bind _ _ (main-Previews proxmox_cfg deployment_cfg) (λ deployment.
          Emits-bind _ _ (post_create_sdn-Previews deployment.sdn deployment.fdb)
            (λ _. Emits-pure deployment))).at
        [] tt
