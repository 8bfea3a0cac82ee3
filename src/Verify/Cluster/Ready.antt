-- ===== src/Verify/Cluster/Ready.antt =====
-- verify/test_cluster.py: what the checks of the Kustomizations and of the HelmReleases make sure of.
use rke2_lab.Base.{
  String, ◌≡◌, refl, ap, ◌∙◌, Bool, true, false, List, [], ◌∷◌, All, arith, if◌then◌else◌,
}
use rke2_lab.Py.Value.{Value, str, equals_text}
use rke2_lab.Py.Result.{ok, >>=-eq-ok}
use rke2_lab.Py.Effect.{Env, History, pure, lift}
use rke2_lab.Py.Effect.Returns.{bind_run, bind_pair}
use rke2_lab.Verify.Kubectl.{kubectl_json}
use rke2_lab.Verify.Cluster.{
  check, is_none, expected_helm_releases, test_flux_helm_releases_installed,
}
use rke2_lab.Verify.Conditions.{
  each_of, found_releases, missing_releases, conditions_of, last_ready, label, stuck_kustomizations,
  stuck_conditions, stuck_releases,
}

-- The last Ready condition of a Kustomization is "True".
pub record IsApplied (kz : Value) : Type 0 where
  pub conditions : List Value
  pub status : Value
  pub listed : conditions_of kz ≡ ok conditions
  pub last : last_ready conditions (str "Unknown") ≡ ok status
  pub is_true : equals_text "True" status ≡ true

-- Where no Kustomization is stuck, the last Ready condition of each is "True"; one without such a
-- condition is stuck.
pub stuck_kustomizations-none :
    (env : Env) (kzs : List Value) → stuck_kustomizations env kzs ≡ ok [] → All IsApplied kzs
unfolding stuck_kustomizations
stuck_kustomizations-none env [] e = tt
stuck_kustomizations-none env (kz ∷ kzs) e =
    let (conditions, c, e1) = >>=-eq-ok (conditions_of kz) _ e in
    let (status, s, e2) = >>=-eq-ok (last_ready conditions (str "Unknown")) _ e1 in
    let (name, n, e3) =
      >>=-eq-ok (if equals_text "True" status then ok "" else label env kz) _ e2 in
    let (rest, r, e4) = >>=-eq-ok (stuck_kustomizations env kzs) _ e3 in
    let good : equals_text "True" status ≡ true = ground (arith, e4) in
    let nothing : rest ≡ [] = ground (arith, e4, good) in
    (
      record { conditions = conditions; status = status; listed = c; last = s; is_true = good },
      stuck_kustomizations-none env kzs (r ∙ ap ok nothing),
    )

-- The same does not hold for the HelmReleases: one without any condition is not stuck.
stuck_releases-unreported :
    (env : Env) (releases : List Value)
    → All (λ release. conditions_of release ≡ ok []) releases
    → stuck_releases env releases ≡ ok []
unfolding stuck_releases stuck_conditions
stuck_releases-unreported env [] h = refl
stuck_releases-unreported env (release ∷ releases) (e, h) =
    rw (e, stuck_releases-unreported env releases h) refl

check_passed :
    (b : Bool) (message : String) (h : History) → b ≡ true → check b message h ≡ (ok tt, h)
unfolding pure
check_passed true message h e = refl
check_passed false message h e = ground (arith, e)

-- Where kubectl lists every expected HelmRelease, and no listed one reports any condition, the check
-- that they are installed and reconciled passes all the same.
pub test_flux_helm_releases_installed-unreported :
    (env : Env) (h : History) (listed : Value) (releases : List Value)
    (found : List (Value × Value))
    → (kubectl_json env ("get" ∷ "helmrelease" ∷ "-A" ∷ []) h).0 ≡ ok listed
    → each_of "items" listed ≡ ok releases
    → found_releases releases ≡ ok found
    → missing_releases expected_helm_releases found ≡ []
    → All (λ release. conditions_of release ≡ ok []) releases
    → (test_flux_helm_releases_installed env h).0 ≡ ok tt
unfolding test_flux_helm_releases_installed lift
test_flux_helm_releases_installed-unreported env h listed releases found read each f complete bare =
    let ask = kubectl_json env ("get" ∷ "helmrelease" ∷ "-A" ∷ []) in
    let h1 = (ask h).1 in
    ap (λ p. p.0)
      (bind_run ask _ h listed read
        ∙ bind_pair (lift (each_of "items" listed)) _ h1 h1 releases (ap (λ r. (r, h1)) each)
        ∙ bind_pair (lift (found_releases releases)) _ h1 h1 found (ap (λ r. (r, h1)) f)
        ∙ bind_pair (check (is_none (missing_releases expected_helm_releases found)) _) _ h1 h1 tt
            (check_passed _ _ h1 (ap is_none complete))
        ∙ bind_pair (lift (stuck_releases env releases)) _ h1 h1 []
            (ap (λ r. (r, h1)) (stuck_releases-unreported env releases bare))
        ∙ check_passed true "" h1 refl)
