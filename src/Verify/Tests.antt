-- ===== src/Verify/Tests.antt =====
-- Runs of verify/helpers.py and verify/conftest.py against a small estate.
use rke2_lab.Base.{
  ℕ, String, ◌≡◌, refl, ◌||◌, Option, none, some, List, [], ◌∷◌, contains, arith, ◌==◌,
  if◌then◌else◌,
}
use rke2_lab.Base.Int.{pos}
use rke2_lab.Base.Dict.{Dict}
use rke2_lab.Py.Value.{Value, obj, str, end, field}
use rke2_lab.Py.Result.{assertion_error}
use rke2_lab.Py.Effect.{
  Body, Reply, response, HttpRequest, Completed, History, ok, Env, Io, raise, drew, token_urlsafe,
}
use rke2_lab.Fake.{fake, runtime, answer}
use rke2_lab.Verify.Session.{
  env_var, ca, ca_file, make_session, call, json_of, item_of, text_of_reply, token_request,
  keycloak_admin_token, admin_request, keycloak_clear_user_cache, bao_api,
}
use rke2_lab.Verify.Kv.{bao_kv_data, value_has, key_gaps, read_path, kv_gaps, bao_kv_keys_present}
use rke2_lab.Verify.Kv.Gaps.{Present, bao_kv_keys_present-Present}
use rke2_lab.Verify.Ipa.{
  TestUser, remote_command, ansible_command, channel_error, ipa_admin, ipa_user_add, add_command,
  add_attempts, ipa_group_add_member, ipa_group_remove_member, ipa_user_del, extend_groups,
  add_groups, make_test_users, provision_user, remove_user, wait_for_keycloak_sync,
}
use rke2_lab.Verify.Ipa.Groups.{IsDuplicateFree, add_groups-IsDuplicateFree}
use rke2_lab.Verify.Ipa.Settle.{SettlesAfter, ipa_group_add_member-settles}
use rke2_lab.Verify.Fixtures.{set_up, tear_down, with_users, nobody, test_users, hubble_tiers}
use rke2_lab.Verify.Fixtures.Teardown.{IsUp, without_users, with_users-outcome}
use rke2_lab.Verify.Fixtures.Teardown.Tiers.{test_users-removed, hubble_tiers-removed}

abbrev exited : ℕ → String → Option Completed
exited code text = some (record { returncode = pos code; stdout = ""; stderr = text })

abbrev kv_grafana : Value
kv_grafana = obj (field "data" (obj (field "username" (str "admin") end)) end)

abbrev reply_to : HttpRequest → Reply
reply_to r =
    if r.url == "https://sso.k8s.dev.lo/realms/master/protocol/openid-connect/token"
    then response 200 (Body.json (obj (field "access_token" (str "jwt") end)))
    else if r.url == "https://bao.k8s.dev.lo/v1/kv/data/grafana"
    then answer kv_grafana
    else response 204 Body.empty

-- Every secret is set, and the channel works.
abbrev estate : Env
estate = record fake {
  http = λ h r. reply_to r;
  getenv = λ name. if name == "DEVLO_CA_FILE" then none else some "secret";
  process = λ h args. exited 0 "";
}

-- The first command is too early for the directory.
abbrev early : History → Option Completed
early [] = exited 1 "ipa: ERROR: no such entry"
early (e ∷ h) = exited 0 ""

abbrev settling : Env
settling = record estate { process = λ h args. early h }

abbrev plain : TestUser
plain = record {
  name = "test";
  email = "verify-test@dev.lo";
  password = "token";
  groups = "grafana-users" ∷ "gitlab-users" ∷ [];
}

-- A test that fails.
abbrev failing : Io (Unit {0})
failing = raise (assertion_error "no dashboard")

opened : Unit {0}
unfolding runtime env_var ca ca_file make_session call json_of item_of text_of_reply token_request
    keycloak_admin_token admin_request keycloak_clear_user_cache bao_api bao_kv_data value_has
    key_gaps read_path kv_gaps bao_kv_keys_present remote_command ansible_command channel_error
    ipa_admin ipa_user_add add_command add_attempts ipa_group_add_member ipa_group_remove_member
    ipa_user_del extend_groups add_groups provision_user remove_user wait_for_keycloak_sync set_up
    tear_down with_users
opened = tt

provisions : (set_up estate (plain ∷ []) []).0 ≡ ok tt
unfolding opened
provisions = refl

with_users-outcome_example :
    (with_users estate (plain ∷ []) (plain ∷ []) failing []).0
    ≡ (failing (set_up estate (plain ∷ []) []).1).0
with_users-outcome_example =
    with_users-outcome estate (plain ∷ []) (plain ∷ []) failing [] provisions

estate-IsUp : IsUp estate "secret"
estate-IsUp = record { has_password = refl; exits = λ h args. (_, refl, refl) }

made :
    (user : TestUser) × (adm : TestUser) × (drawn : History) × (make_test_users estate []
      ≡ (ok (user, adm), drawn))
unfolding opened make_test_users token_urlsafe
made = (_, _, _, refl)

provisions_two : (set_up estate (made.0 ∷ made.1 ∷ []) made.2).0 ≡ ok tt
unfolding opened make_test_users made
provisions_two = refl

test_users-removed_example :
    (test_users estate (λ user adm. failing) []).1
    ≡ without_users estate "secret"
        (made.1 ∷ made.0 ∷ [])
        (failing (set_up estate (made.0 ∷ made.1 ∷ []) made.2).1).1
test_users-removed_example =
    test_users-removed estate "secret" estate-IsUp [] made.2 made.0 made.1 made.3
      (λ user adm. failing) provisions_two

abbrev hubble_user : TestUser
hubble_user = add_groups made.0 ("hubble-users" ∷ [])

abbrev hubble_adm : TestUser
hubble_adm = add_groups made.1 ("hubble-admins" ∷ [])

abbrev outsider : TestUser
outsider = nobody "hub-sso-none-test" "hub-sso-none@dev.lo" (estate.token made.2 24)

provisions_three :
    (set_up estate (hubble_user ∷ hubble_adm ∷ outsider ∷ []) (drew 24 ∷ made.2)).0 ≡ ok tt
unfolding opened make_test_users made
provisions_three = refl

hubble_tiers-removed_example :
    (hubble_tiers estate (λ user adm third. failing) []).1
    ≡ without_users estate "secret"
        (outsider ∷ hubble_adm ∷ hubble_user ∷ [])
        (failing (set_up estate (hubble_user ∷ hubble_adm ∷ outsider ∷ []) (drew 24 ∷ made.2)).1).1
hubble_tiers-removed_example =
    hubble_tiers-removed estate "secret" estate-IsUp [] made.2 made.0 made.1 made.3 hubble_user
      hubble_adm outsider (λ user adm third. failing) refl refl refl provisions_three

settles : SettlesAfter settling "hubble-users" "test" 1 []
unfolding opened
settles = (_, refl, refl, refl)

ipa_group_add_member-settles_example :
    (ipa_group_add_member settling "hubble-users" "test" []).0 ≡ ok tt
ipa_group_add_member-settles_example =
    ipa_group_add_member-settles settling "hubble-users" "test" 1 [] (omega arith) settles

plain-IsDuplicateFree : IsDuplicateFree plain.groups
plain-IsDuplicateFree = (refl, (refl, tt))

add_groups-IsDuplicateFree_example :
    let more : List String = "hubble-users" ∷ "gitlab-users" ∷ "hubble-users" ∷ [] in
    IsDuplicateFree (add_groups plain more).groups
    × ((group : String)
        → contains group (add_groups plain more).groups
          ≡ (contains group plain.groups || contains group more))
add_groups-IsDuplicateFree_example =
    add_groups-IsDuplicateFree plain ("hubble-users" ∷ "gitlab-users" ∷ "hubble-users" ∷ [])
      plain-IsDuplicateFree

abbrev expected : Dict (List String)
expected = ("grafana", "username" ∷ []) ∷ []

complete : (bao_kv_keys_present estate expected []).0 ≡ ok tt
unfolding opened
complete = refl

bao_kv_keys_present-Present_example : Present estate expected []
bao_kv_keys_present-Present_example = bao_kv_keys_present-Present estate expected [] complete
