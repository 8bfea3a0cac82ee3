-- ===== src/Verify/Ipa.antt =====
-- verify/helpers.py: the FreeIPA admin channel, and the users of a run. `ansible` runs in the
-- repository's ansible directory, with its configuration.
pub mod Settle
pub mod Groups
use rke2_lab.Base.{
  ℕ, zero, suc, String, ◌<>◌, Bool, true, false, none, List, [], ◌∷◌, ◌++◌, map, join, contains,
  if◌then◌else◌,
}
use rke2_lab.Base.Int.{ℤ, pos, negsuc}
use rke2_lab.Py.Text.{has_part, replace, take_text}
use rke2_lab.Py.Result.{runtime_error}
use rke2_lab.Py.Effect.{
  Env, Io, Command, Completed, slept, pure, raise, emit, run_process, token_urlsafe, for_each,
  try_except, except_runtime, ◌>>=◌, ◌>>◌,
}
use rke2_lab.Verify.Session.{env_var}

unfoldable pub remote_command : Bool → List String → String → String
remote_command strict commands pwd_b64 =
    let inner =
      if strict
      then "set -e; cat|base64 -d|kinit admin >/dev/null; " <> join "; " commands
      else "cat|base64 -d|kinit admin >/dev/null; "
        <> join "; " (map (λ c. c <> " || true") commands) in
    "printf '%s' '"
    <> (pwd_b64 <> ("' | docker exec -i freeipa-server bash -c '" <> (inner <> "'")))

-- The configuration is named from the repository's root.
unfoldable pub ansible_command : String → Command
ansible_command remote = record {
  argv = "ansible" ∷ "core01" ∷ "-m" ∷ "shell" ∷ "-a" ∷ remote ∷ [];
  environ = ("ANSIBLE_CONFIG", "ansible/ansible.cfg") ∷ [];
  stdin = none;
}

abbrev pub is_zero : ℤ → Bool
is_zero (pos zero) = true
is_zero (pos (suc n)) = false
is_zero (negsuc n) = false

unfoldable pub channel_error : String → Completed → String
channel_error pwd_b64 proc =
    "ipa admin channel failed:\n"
    <> take_text 1500 (replace pwd_b64 "<redacted>" (proc.stdout <> proc.stderr))

-- `_ipa_admin`
unfoldable pub ipa_admin : Env → Bool → List String → Io (Unit {0})
unfolding env_var remote_command ansible_command run_process channel_error raise pure ◌>>=◌
ipa_admin env strict commands = do
  password ← env_var env "FREEIPA_ADMIN_PASSWORD"
  let pwd_b64 = env.base64 password
  proc ← run_process env (ansible_command (remote_command strict commands pwd_b64))
  if is_zero proc.returncode then pure tt else raise (runtime_error (channel_error pwd_b64 proc))

unfoldable pub ipa_user_add : Env → (name email password : String) → Io (Unit {0})
unfolding ipa_admin
ipa_user_add env name email password = ipa_admin env true (
    ("ipa user-add " <> (name <> (" --first=Verify --last=Test --email=" <> email)))
    ∷ ("echo '" <> (password <> ("' | ipa passwd " <> name)))
    ∷ [])

abbrev pub settle_s : ℕ
settle_s = 5

abbrev pub settle_retries : ℕ
settle_retries = 3

unfoldable pub add_command : (group user : String) → List String
add_command group user = ("ipa group-add-member " <> (group <> (" --users=" <> user))) ∷ []

-- What follows a failed attempt that is not the last.
abbrev pub retry_on : Io (Unit {0}) → String → Io (Unit {0})
retry_on again text =
    if has_part "no such entry" text
    then (do emit (slept settle_s); again)
    else raise (runtime_error text)

-- The attempts where this many are left behind the next one.
unfoldable pub add_attempts : Env → (group user : String) → ℕ → Io (Unit {0})
unfolding ipa_admin add_command try_except emit raise ◌>>=◌
add_attempts env group user zero =
    try_except (ipa_admin env true (add_command group user))
      (except_runtime λ text. raise (runtime_error text))
add_attempts env group user (suc left) =
    let again = add_attempts env group user left in
    try_except (ipa_admin env true (add_command group user)) (except_runtime (retry_on again))

unfoldable pub ipa_group_add_member : Env → (group user : String) → Io (Unit {0})
unfolding add_attempts
ipa_group_add_member env group user = add_attempts env group user settle_retries

unfoldable pub ipa_group_remove_member : Env → (group user : String) → Io (Unit {0})
unfolding ipa_admin
ipa_group_remove_member env group user =
    ipa_admin env false (("ipa group-remove-member " <> (group <> (" --users=" <> user))) ∷ [])

unfoldable pub ipa_user_del : Env → (name : String) → Io (Unit {0})
unfolding ipa_admin
ipa_user_del env name = ipa_admin env false (("ipa user-del " <> name) ∷ [])

pub record TestUser : Type 0 where
  pub name : String
  pub email : String
  pub password : String
  pub groups : List String

-- `groups.extend(g for g in more if g not in groups)`: the test sees what was added before.
unfoldable pub extend_groups : List String → List String → List String
extend_groups groups [] = groups
extend_groups groups (g ∷ more) =
    extend_groups (if contains g groups then groups else groups ++ (g ∷ [])) more

unfoldable pub add_groups : TestUser → List String → TestUser
unfolding extend_groups
add_groups u more = record {
  name = u.name;
  email = u.email;
  password = u.password;
  groups = extend_groups u.groups more;
}

unfoldable pub make_test_users : Env → Io (TestUser × TestUser)
unfolding add_groups token_urlsafe pure ◌>>=◌
make_test_users env = do
  secret ← token_urlsafe env 24
  let user =
      add_groups
        (record { name = "test"; email = "verify-test@dev.lo"; password = secret; groups = [] })
        ("gitlab-users" ∷ "grafana-users" ∷ "longhorn-users" ∷ "openbao-users" ∷ "hubble-users"
          ∷ "traefik-users" ∷ [])
  secret_adm ← token_urlsafe env 24
  let adm =
      add_groups
        (record {
          name = "test.adm";
          email = "verify-test-adm@dev.lo";
          password = secret_adm;
          groups = [];
        })
        ("gitlab-admins" ∷ "grafana-admins" ∷ "longhorn-admins" ∷ "openbao-admins" ∷ "hubble-admins"
          ∷ "traefik-admins" ∷ "keycloak-admins" ∷ [])
  pure (user, adm)

unfoldable pub provision_user : Env → TestUser → Io (Unit {0})
unfolding ipa_user_del ipa_user_add ipa_group_add_member for_each pure ◌>>=◌
provision_user env u = do
  ipa_user_del env u.name
  ipa_user_add env u.name u.email u.password
  _ ← for_each (λ group. ipa_group_add_member env group u.name) u.groups
  pure tt

unfoldable pub remove_user : Env → TestUser → Io (Unit {0})
unfolding ipa_group_remove_member ipa_user_del for_each ◌>>=◌
remove_user env u = do
  _ ← for_each (λ group. ipa_group_remove_member env group u.name) u.groups
  ipa_user_del env u.name

unfoldable pub wait_for_keycloak_sync : Io (Unit {0})
unfolding emit
wait_for_keycloak_sync = emit (slept 80)
