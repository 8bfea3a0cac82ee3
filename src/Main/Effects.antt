-- ===== src/Main/Effects.antt =====
-- infra/pulumi/__main__.py: the events of its parts, for every property of events that reads and
-- messages have.
use rke2_lab.Base.{ℕ, String, ◌≡◌, Option, none, some, List, [], ◌∷◌}
use rke2_lab.Base.Dict.{Dict}
use rke2_lab.Py.Effect.{Event, printed, registered, emit, lift, History}
use rke2_lab.Py.Effect.Rules.{
  Emits, Emits-pure, Emits-bind, Emits-emit, Emits-for_each, Emits-bind_after, Emits-lift,
  emits_rules,
}
use rke2_lab.Resources.{Resource, vm}
use rke2_lab.Vm.{VmSpec}
use rke2_lab.Vm.Factory.{create_vm}
use rke2_lab.Py.Result.{index, ok}
use rke2_lab.Sdn.{SdnSettings}
use rke2_lab.Main.Config.{Config, ProviderSettings, Settings}
use rke2_lab.Main.Register.{
  Engine, build_provider, build_internal_lan, register_images, boot_images,
}
use rke2_lab.Main.Run.{CreatedVm, or_none, create_all, put_created, print_lines}

-- Not a VM.
abbrev pub IsHost : Resource → Type 0
IsHost (vm args) = ⊥
IsHost _ = Unit

module _ {P : Event → Type 0} where
  pub print_lines-Emits :
      ((text : String) → P (printed text)) → (lines : List String) → Emits P (print_lines lines)
  unfolding print_lines
  print_lines-Emits prints lines =
      Emits-bind _ _ (Emits-for_each _ lines (λ line. Emits-emit (printed line) (prints line)))
        (λ _. Emits-pure tt)

module _ {P : Event → Type 0}
    (others : (name : String) (r : Resource) → IsHost r → P (registered name r))
    (engine : Engine) where
  told : (name : String) (r : Resource) → IsHost r → Emits P (emit (registered name r))
  told name r host = Emits-emit (registered name r) (others name r host)

  pub build_provider-Emits : (settings : ProviderSettings) → Emits P (build_provider settings)
  unfolding build_provider
  build_provider-Emits settings = search (told)

  pub build_internal_lan-Emits :
      (settings : SdnSettings) → Emits P (build_internal_lan engine settings)
  unfolding build_internal_lan
  build_internal_lan-Emits settings = search (emits_rules, told)

  module _ (settings : Settings) (cfg : Config) where
    register_images-Emits :
        (nodes : List String) (images : Dict String)
        → Emits P (register_images engine settings cfg nodes images)
    unfolding register_images
    register_images-Emits [] images = Emits-pure images
    register_images-Emits (node ∷ nodes) images =
        let rest : (more : Dict String) → Emits P (register_images engine settings cfg nodes more) =
          register_images-Emits nodes in
        search (emits_rules, told, rest)

    pub boot_images-Emits :
        (template : Option ℕ) → Emits P (boot_images engine settings cfg template)
    unfolding boot_images
    boot_images-Emits none = register_images-Emits settings.node_names []
    boot_images-Emits (some template) = Emits-pure []

module _ {P : Event → Type 0} (settings : Settings) (images placements : Dict String)
    (placed : (spec : VmSpec) (node : String)
      → index spec.key placements ≡ ok node
      → P (
          registered spec.key
            (vm (create_vm spec settings.common (some node) (or_none images))))) where
  registered-Emits :
      (spec : VmSpec) (h : History) (node : String)
      → (lift (index spec.key placements) h).0 ≡ ok node
      → Emits P (
          emit (
            registered spec.key (vm (create_vm spec settings.common (some node) (or_none images)))))
  unfolding lift
  registered-Emits spec h node got = Emits-emit _ (placed spec node got)

  pub create_all-Emits :
      (specs : List VmSpec) (created : Dict CreatedVm)
      → Emits P (create_all settings images placements specs created)
  unfolding create_all
  create_all-Emits [] created = Emits-pure created
  create_all-Emits (spec ∷ specs) created = Emits-bind_after _ _ (Emits-lift _) (λ h node got.
      Emits-bind _ _ (registered-Emits spec h node got)
        (λ _. create_all-Emits specs (put_created spec node created)))
