-- ===== src/Verify/Vault/Scoped.antt =====
-- verify/test_openbao.py: what a passing check of the administrators' policy makes sure of.
use rke2_lab.Base.{String, ◌≡◌, refl, ap, ◌∙◌, Bool, true, false, not, List, [], ◌∷◌, All, arith}
use rke2_lab.Py.Value.{Value}
use rke2_lab.Py.Effect.{ok, History, Env, Io, raise, lift, pure, ◌>>=◌, ◌>>◌}
use rke2_lab.Py.Effect.Returns.{bind-returned, lift-returned}
use rke2_lab.Verify.Kv.{value_has}
use rke2_lab.Verify.Cluster.{check}
use rke2_lab.Verify.Vault.{
  vault_field, forbidden_paths, check_forbidden, test_admin_policy_is_scoped,
}

check-returned :
    (b : Bool) (message : String) (next : Io (Unit {0})) (h : History)
    → ((check b message >> next) h).0 ≡ ok tt
    → (b ≡ true) × ((next h).0 ≡ ok tt)
unfolding raise pure ◌>>=◌
check-returned true message next h e = (refl, e)
check-returned false message next h e = ground (arith, e)

check_forbidden-returned :
    (text : Value) (ks : List String) (h : History)
    → (check_forbidden text ks h).0 ≡ ok tt
    → All (λ k. value_has k text ≡ ok false) ks
unfolding check_forbidden lift
check_forbidden-returned text [] h e = tt
check_forbidden-returned text (k ∷ ks) h e =
    let (present, p, e1) = bind-returned (lift (value_has k text)) _ h tt e in
    let (absent, e2) = check-returned (not present) _ (check_forbidden text ks) h e1 in
    let gone : present ≡ false = ground (arith, absent) in
    (
      lift-returned (value_has k text) present h p ∙ ap ok gone,
      check_forbidden-returned text ks h e2,
    )

-- Where the check passes, the policy that the vault answered contains none of the forbidden paths.
pub test_admin_policy_is_scoped-returned :
    (env : Env) (h : History)
    → (test_admin_policy_is_scoped env h).0 ≡ ok tt
    → (text : Value) × ((vault_field env "/v1/sys/policies/acl/sso-admins" "policy" h).0 ≡ ok text)
      × All (λ k. value_has k text ≡ ok false) forbidden_paths
unfolding test_admin_policy_is_scoped
test_admin_policy_is_scoped-returned env h e =
    let ask = vault_field env "/v1/sys/policies/acl/sso-admins" "policy" in
    let (text, t, e1) = bind-returned ask (λ text. check_forbidden text forbidden_paths) h tt e in
    (text, t, check_forbidden-returned text forbidden_paths (ask h).1 e1)
