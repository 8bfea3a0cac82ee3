-- ===== src/Main/Placed/Images.antt =====
-- infra/pulumi/__main__.py: the image that a VM's disk is imported from.
use mathlib.Core.List.{Memᴰ}
use rke2_lab.Base.{
  ℕ, String, ◌≡◌, refl, sym, Bool-cases, eq_iff, ◌==◌, ◌⊎◌, inl, inr, Option, none, some, List, [],
  ◌∷◌, All,
}
use rke2_lab.Base.Dict.{Dict, lookup, insert, lookup-insert}
use rke2_lab.Py.Effect.{Event, registered, ok, History, pure, emit, ◌>>=◌}
use rke2_lab.Py.Effect.Returns.{ok_inj}
use rke2_lab.Resources.{DiskArgs, VmArgs, ImageArgs, image}
use rke2_lab.Vm.Factory.{image_on}
use rke2_lab.Vm.Factory.Disks.{IsBlank, FirstFrom, OneSource}
use rke2_lab.Main.Config.{Config, Settings}
use rke2_lab.Main.Register.{Engine, image_name, image_args, register_images, boot_images}
use rke2_lab.Main.Run.{or_none}

-- The history has the registration of this node's image, and the image is for this node.
pub record HasImage (h : History) (node : String) : Type 0 where
  pub args : ImageArgs
  pub on_node : args.node_name ≡ node
  pub there : Memᴰ (registered (image_name node) (image args)) h

-- Nothing, or the id of the image that was registered for the node.
abbrev pub IsImageOf : Engine → History → String → Option String → Type 0
IsImageOf engine h node found =
    (found ≡ none) ⊎ ((found ≡ some (engine.id_of (image_name node))) × HasImage h node)

abbrev pub Imports : Engine → History → Dict String → Type 0
Imports engine h images = (node : String) → IsImageOf engine h node (lookup node images)

pub IsImageOf-keeps :
    (engine : Engine) (h later : History) (node : String) (found : Option String)
    → ((e : Event) → Memᴰ e h → Memᴰ e later)
    → IsImageOf engine h node found
    → IsImageOf engine later node found
IsImageOf-keeps engine h later node found keeps (inl nothing) = inl nothing
IsImageOf-keeps engine h later node found keeps (inr (same, has)) =
    inr (same, record { args = has.args; on_node = has.on_node; there = keeps _ has.there })

module _ (engine : Engine) (h : History) where
  insert-Imports :
      (node : String) (images : Dict String)
      → HasImage h node
      → Imports engine h images
      → Imports engine h (insert node (engine.id_of (image_name node)) images)
  insert-Imports node images has k other =
      let image = engine.id_of (image_name node) in
      let found = lookup-insert node other image images in
      elim (Bool-cases (node == other)) [
        | inl same ↦
            let is_it = (eq_iff node other).0 same in
            inr (rw (found, same, sym is_it) refl, rw is_it at has)
        | inr differ ↦ rw (found, differ) (k other)
      ]

  blank-Imports :
      (node : String) (ds : List DiskArgs)
      → All IsBlank ds
      → All (λ (d : DiskArgs). IsImageOf engine h node d.import_from) ds
  blank-Imports node [] b = tt
  blank-Imports node (d ∷ ds) (b, bs) = (inl b, blank-Imports node ds bs)

  first-Imports :
      (node : String) (found : Option String) (ds : List DiskArgs)
      → IsImageOf engine h node found
      → FirstFrom found ds
      → All (λ (d : DiskArgs). IsImageOf engine h node d.import_from) ds
  first-Imports node found [] k f = tt
  first-Imports node found (d ∷ ds) k (same, bs) = (rw same k, blank-Imports node ds bs)

  image_on-Imports :
      (images : Dict String) (node : String)
      → Imports engine h images
      → IsImageOf engine h node (image_on (or_none images) node)
  unfolding image_on lookup
  image_on-Imports [] node k = inl refl
  image_on-Imports (p ∷ images) node k = k node

  pub sourced-Imports :
      (settings : Settings) (images : Dict String) (template : Option ℕ) (args : VmArgs)
      → Imports engine h images
      → OneSource settings.common (or_none images) template args
      → All (λ (d : DiskArgs). IsImageOf engine h args.node_name d.import_from) args.disks
  sourced-Imports settings images none args k (c, first) =
      first-Imports args.node_name _ args.disks (image_on-Imports images args.node_name k) first
  sourced-Imports settings images (some template) args k (c, blank) =
      blank-Imports args.node_name args.disks blank

module _ (engine : Engine) (settings : Settings) (cfg : Config) where
  image_args-HasImage :
      (node : String) (h : History)
      → HasImage (registered (image_name node) (image (image_args settings cfg node)) ∷ h) node
  unfolding image_args
  image_args-HasImage node h = record {
    args = image_args settings cfg node;
    on_node = refl;
    there = Memᴰ.head refl;
  }

  register_images-Imports :
      (nodes : List String) (images out : Dict String) (h : History)
      → (register_images engine settings cfg nodes images h).0 ≡ ok out
      → Imports engine h images
      → Imports engine (register_images engine settings cfg nodes images h).1 out
  unfolding register_images emit pure ◌>>=◌
  register_images-Imports [] images out h e k = rw (← ok_inj e) k
  register_images-Imports (node ∷ nodes) images out h e k =
      let made = registered (image_name node) (image (image_args settings cfg node)) in
      register_images-Imports nodes _ out (made ∷ h) e (
        insert-Imports engine (made ∷ h) node images (image_args-HasImage node h) (λ other.
          IsImageOf-keeps engine h (made ∷ h) other (lookup other images) (λ e m. Memᴰ.tail m)
            (k other)))

  pub boot_images-Imports :
      (template : Option ℕ) (out : Dict String) (h : History)
      → (boot_images engine settings cfg template h).0 ≡ ok out
      → Imports engine (boot_images engine settings cfg template h).1 out
  unfolding boot_images lookup pure
  boot_images-Imports none out h e =
      register_images-Imports settings.node_names [] out h e (λ node. inl refl)
  boot_images-Imports (some template) out h e = rw (← ok_inj e) (λ node. inl refl)
