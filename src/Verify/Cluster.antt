-- ===== src/Verify/Cluster.antt =====
-- verify/test_cluster.py: the checks of the nodes, the Kustomizations and the HelmReleases.
pub mod Ready
mod Tests
use rke2_lab.Base.{ℕ, String, ◌<>◌, Bool, true, false, List, [], ◌∷◌, eqb, length, if◌then◌else◌}
use rke2_lab.Py.Value.{Value, Items, str, arr, nil, cons, truthy}
use rke2_lab.Py.Text.{show_ℕ}
use rke2_lab.Py.Result.{assertion_error}
use rke2_lab.Py.Effect.{Env, Io, Exception, pure, raise, lift, ◌>>=◌, ◌>>◌}
use rke2_lab.Pve.Reading.{iterate}
use rke2_lab.Verify.Session.{item_of}
use rke2_lab.Verify.Kubectl.{kubectl_json}
use rke2_lab.Verify.Conditions.{
  each_of, note_nodes, names_of, stuck_kustomizations, stuck_releases, found_releases,
  missing_releases, bad_pods,
}

abbrev as_items : List Value → Items
as_items [] = nil
as_items (v ∷ vs) = cons v (as_items vs)

-- A list of values, as a message shows it.
abbrev show_list : Env → List Value → String
show_list env vs = env.show_value (arr (as_items vs))

abbrev texts : List String → List Value
texts [] = []
texts (s ∷ ss) = str s ∷ texts ss

abbrev pub is_none {ℓ} : {A : Type ℓ} → List A → Bool
is_none [] = true
is_none (_ ∷ _) = false

-- `assert passed, message`
abbrev pub check : Bool → String → Io (Unit {0})
check true message = pure tt
check false message = raise (assertion_error message)

-- The number of nodes; the message names them.
unfoldable pub check_count : Env → List Value → Io (Unit {0})
unfolding names_of raise pure lift ◌>>=◌
check_count env nodes = if eqb (length nodes) 6 then pure tt else (do
  names ← lift (names_of nodes)
  raise (
      assertion_error (
        "expected 6 nodes, found "
        <> (show_ℕ (length nodes)
            <> (" (" <> (show_list env names <> ") — a node dropped out of the cluster"))))))

unfoldable pub test_all_nodes_ready : Env → Io (Unit {0})
unfolding kubectl_json each_of note_nodes check_count pure raise lift ◌>>=◌
test_all_nodes_ready env = do
  found ← kubectl_json env ("get" ∷ "nodes" ∷ [])
  nodes ← lift (each_of "items" found)
  r ← lift (note_nodes nodes (record { ready = []; not_ready = [] }))
  check (is_none r.not_ready) ("nodes not Ready: " <> show_list env r.not_ready)
  check_count env nodes
  check (eqb (length r.ready) 6) ""

unfoldable pub test_flux_kustomizations_applied : Env → Io (Unit {0})
unfolding kubectl_json item_of iterate truthy stuck_kustomizations lift pure raise ◌>>=◌
test_flux_kustomizations_applied env = do
  found ← kubectl_json env ("get" ∷ "kustomization" ∷ "-A" ∷ [])
  listed ← lift (item_of "items" found)
  check (truthy listed) "no Flux Kustomizations at all"
  kzs ← lift (iterate listed)
  stuck ← lift (stuck_kustomizations env kzs)
  check (is_none stuck) (
      "Flux Kustomizations not Ready — GitOps source is not fully applied: "
      <> show_list env (texts stuck))

-- `_EXPECTED_HELM_RELEASES`, in the order of `sorted`
abbrev pub expected_helm_releases : List (String × String)
expected_helm_releases =
    ("cert-manager", "cert-manager")
    ∷ ("external-secrets", "external-secrets")
    ∷ ("longhorn-system", "longhorn")
    ∷ ("observability", "alloy")
    ∷ ("observability", "kube-prometheus-stack")
    ∷ ("observability", "loki")
    ∷ ("observability", "tempo")
    ∷ ("openbao", "openbao")
    ∷ []

abbrev as_values : List (String × String) → List (Value × Value)
as_values [] = []
as_values ((a, b) ∷ rest) = (str a, str b) ∷ as_values rest

unfoldable pub test_flux_helm_releases_installed : Env → Io (Unit {0})
unfolding kubectl_json each_of found_releases missing_releases stuck_releases lift pure raise ◌>>=◌
test_flux_helm_releases_installed env = do
  listed ← kubectl_json env ("get" ∷ "helmrelease" ∷ "-A" ∷ [])
  releases ← lift (each_of "items" listed)
  found ← lift (found_releases releases)
  let absent = missing_releases expected_helm_releases found
  check (is_none absent) (
      "expected HelmReleases missing from the cluster: "
      <> (env.show_pairs (as_values absent) <> " — the gitops source was not applied"))
  stuck ← lift (stuck_releases env releases)
  check (is_none stuck) ("HelmReleases not Ready: " <> show_list env (texts stuck))

unfoldable pub test_no_pods_in_error_states : Env → Io (Unit {0})
unfolding kubectl_json each_of bad_pods lift pure raise ◌>>=◌
test_no_pods_in_error_states env = do
  found ← kubectl_json env ("get" ∷ "pods" ∷ "-A" ∷ [])
  pods ← lift (each_of "items" found)
  bad ← lift (bad_pods env pods)
  check (is_none bad) ("pods in error states: " <> show_list env (texts bad))
