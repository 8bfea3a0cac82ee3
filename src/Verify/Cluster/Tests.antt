-- ===== src/Verify/Cluster/Tests.antt =====
-- A cluster whose HelmReleases are listed and report nothing.
use rke2_lab.Base.{String, ◌≡◌, refl, some, List, [], ◌∷◌, All}
use rke2_lab.Py.Value.{Value, Items, str, obj, arr, nil, cons, field, end}
use rke2_lab.Py.Result.{assertion_error}
use rke2_lab.Py.Effect.{Env, ok, err}
use rke2_lab.Fake.{fake, runtime}
use rke2_lab.Verify.Session.{item_of}
use rke2_lab.Verify.Kubectl.{kubectl_exe, kubeconfig, kubectl_command, kubectl, kubectl_json}
use rke2_lab.Verify.Conditions.{
  each_of, metadata, label, conditions_of, last_ready, stuck_kustomizations, is_unready, shown,
  stuck_conditions, stuck_releases, found_releases, missing_releases,
}
use rke2_lab.Verify.Cluster.{
  expected_helm_releases, test_flux_kustomizations_applied, test_flux_helm_releases_installed,
}
use rke2_lab.Verify.Cluster.Ready.{test_flux_helm_releases_installed-unreported}

abbrev bare : String × String → Value
bare (namespace, name) = obj (
    field "metadata" (obj (field "namespace" (str namespace) (field "name" (str name) end)))
      (field "status" (obj end) end))

abbrev rows : List (String × String) → Items
rows [] = nil
rows (r ∷ rs) = cons (bare r) (rows rs)

abbrev listed : Value
listed = obj (field "items" (arr (rows expected_helm_releases)) end)

abbrev silent : Env
silent = record fake { decode = λ text. some listed }

opened : Unit {0}
unfolding runtime item_of kubectl_exe kubeconfig kubectl_command kubectl kubectl_json each_of
    metadata label conditions_of last_ready stuck_kustomizations is_unready shown stuck_conditions
    stuck_releases found_releases missing_releases test_flux_kustomizations_applied
    test_flux_helm_releases_installed
opened = tt

-- The same rows as Kustomizations do not pass.
kustomizations_fail :
    (test_flux_kustomizations_applied silent []).0
    ≡ err (
        assertion_error
          "Flux Kustomizations not Ready — GitOps source is not fully applied: <value>")
unfolding opened
kustomizations_fail = refl

releases_read :
    (releases : List Value) × (found : List (Value × Value)) × ((kubectl_json silent
        ("get" ∷ "helmrelease" ∷ "-A" ∷ [])
        []).0
      ≡ ok listed)
    × (each_of "items" listed ≡ ok releases)
    × (found_releases releases ≡ ok found)
    × (missing_releases expected_helm_releases found ≡ [])
    × All (λ release. conditions_of release ≡ ok []) releases
unfolding opened
releases_read = (
  _,
  _,
  refl,
  refl,
  refl,
  refl,
  (refl, (refl, (refl, (refl, (refl, (refl, (refl, (refl, tt)))))))),
)

test_flux_helm_releases_installed-unreported_example :
    (test_flux_helm_releases_installed silent []).0 ≡ ok tt
test_flux_helm_releases_installed-unreported_example =
    test_flux_helm_releases_installed-unreported silent [] listed releases_read.0 releases_read.1
      releases_read.2 releases_read.3 releases_read.4 releases_read.5 releases_read.6
