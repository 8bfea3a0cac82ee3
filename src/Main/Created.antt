-- ===== src/Main/Created.antt =====
-- infra/pulumi/__main__.py: every selected VM is registered on the node that the planner returned.
use rke2_lab.Base.{
  ℕ, String, ◌≡◌, refl, sym, ap, ◌∙◌, Bool, true, Option, some, List, [], ◌∷◌, All, All-map, arith,
  eq_refl,
}
use rke2_lab.Base.Dict.{Dict, lookup, insert, has_key, has_key-insert}
use rke2_lab.Py.Result.{index}
use rke2_lab.Py.Effect.{ok, registered, History, Env, emit, lift}
use rke2_lab.Py.Effect.Returns.{bind_pair}
use rke2_lab.Resources.{vm}
use rke2_lab.Vm.{VmSpec, vm_footprint_bytes}
use rke2_lab.Vm.Factory.{create_vm}
use rke2_lab.Placement.Planner.{plan_placement}
use rke2_lab.Placement.Planner.Places.{HasNode, plan_placement-HasNode}
use rke2_lab.Main.Config.{Settings}
use rke2_lab.Main.Selection.{footprints}
use rke2_lab.Main.Run.{CreatedVm, or_none, put_created, create_all}

module _ {ℓ} {V : Type ℓ} (key : String) (value : V) (d : Dict V) where
  insert_there : has_key key (insert key value d) ≡ true
  insert_there = ground (arith, has_key-insert key key value d, eq_refl key)

  insert_keeps :
      (other : String) → has_key other d ≡ true → has_key other (insert key value d) ≡ true
  insert_keeps other h = ground (arith, has_key-insert key other value d, h)

footprints_keep :
    (vms : List VmSpec) (sizes : Dict (ℕ × ℕ)) (key : String)
    → has_key key sizes ≡ true
    → has_key key (footprints vms sizes) ≡ true
unfolding footprints
footprints_keep [] sizes key h = h
footprints_keep (spec ∷ vms) sizes key h =
    footprints_keep vms (insert spec.key (vm_footprint_bytes spec) sizes) key
      (insert_keeps spec.key (vm_footprint_bytes spec) sizes key h)

-- Every VM has its footprint under its key.
has_key-footprints :
    (vms : List VmSpec) (sizes : Dict (ℕ × ℕ))
    → All (λ (spec : VmSpec). has_key spec.key (footprints vms sizes) ≡ true) vms
unfolding footprints
has_key-footprints [] sizes = tt
has_key-footprints (spec ∷ vms) sizes =
    let more = insert spec.key (vm_footprint_bytes spec) sizes in
    (
      footprints_keep vms more spec.key (insert_there spec.key (vm_footprint_bytes spec) sizes),
      has_key-footprints vms more,
    )

module _ (settings : Settings) (images placements : Dict String) where
  -- One registration for each VM, in order; the later events stand first.
  pub registrations : List VmSpec → History → History
  registrations [] h = h
  registrations (spec ∷ specs) h = registrations specs (
      registered spec.key
        (vm (create_vm spec settings.common (lookup spec.key placements) (or_none images)))
      ∷ h)

  index_found :
      (key node : String) (h : History)
      → lookup key placements ≡ some node
      → lift (index key placements) h ≡ (ok node, h)
  unfolding index lift
  index_found key node h e = rw (e, index) refl

  create_all-kept :
      (vms : List VmSpec) (created : Dict CreatedVm) (h : History)
      → All (λ (spec : VmSpec). HasNode placements spec.key) vms
      → (all : Dict CreatedVm) × (create_all settings images placements vms created h
          ≡ (ok all, registrations vms h))
        × ((key : String) → has_key key created ≡ true → has_key key all ≡ true)
        × All (λ (spec : VmSpec). has_key spec.key all ≡ true) vms
  unfolding create_all put_created registrations index lift emit
  create_all-kept [] created h placed = (created, refl, λ key k. k, tt)
  create_all-kept (spec ∷ specs) created h ((node, e), placed) =
      let later : Option String → History =
        λ o. registered spec.key (vm (create_vm spec settings.common o (or_none images))) ∷ h in
      let (all, run, keeps, has) =
        create_all-kept specs (put_created spec node created) (later (some node)) placed in
      (
        all,
        bind_pair (lift (index spec.key placements)) _ h h node (index_found spec.key node h e)
            ∙ run
            ∙ ap (λ o. (ok all, registrations specs (later o))) (sym e),
        λ key k. keeps key (insert_keeps spec.key _ created key k),
        (keeps spec.key (insert_there spec.key _ created), has),
      )

-- Where the planner returned placements for the footprints of these VMs, creating them raises nothing
-- (no VM is missing among the placements): it registers each VM in order, on the node that the
-- placements name for it, and nothing else, and has an entry for each VM in what it returns.
pub create_all_planned :
    (env : Env) (settings : Settings) (images placements overrides : Dict String)
    (vms : List VmSpec) (path : String) (persist : Bool) (h h' : History)
    → (plan_placement env settings.provider.endpoint settings.provider.username
        settings.provider.password
        (footprints vms [])
        path
        overrides
        settings.node_names
        persist
        h).0
      ≡ ok placements
    → (created : Dict CreatedVm) × (create_all settings images placements vms [] h'
        ≡ (ok created, registrations settings images placements vms h'))
      × All (λ (spec : VmSpec). has_key spec.key created ≡ true) vms
create_all_planned env settings images placements overrides vms path persist h h' planned =
    let node : (spec : VmSpec)
        → has_key spec.key (footprints vms []) ≡ true
        → HasNode placements spec.key =
      λ spec there.
        plan_placement-HasNode env settings.provider.endpoint settings.provider.username
          settings.provider.password (footprints vms []) path overrides settings.node_names persist
          h placements spec.key planned there in
    let (created, run, _, has) = create_all-kept settings images placements vms [] h' (
      All-map _ (λ (spec : VmSpec). HasNode placements spec.key) vms node
        (has_key-footprints vms [])) in
    (created, run, has)
