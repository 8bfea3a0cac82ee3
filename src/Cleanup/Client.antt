-- ===== src/Cleanup/Client.antt =====
-- infra/pulumi/modules/pve_cleanup.py: `PveClient`. A ticket that is no text is used as it prints.
pub mod Effects
pub mod Tasks
use rke2_lab.Base.{
  ℕ, zero, suc, String, ◌<>◌, Bool, true, false, ◌||◌, not, Option, none, some, List, [], ◌∷◌, ◌==◌,
  eqb, if◌then◌else◌,
}
use rke2_lab.Base.Int.{pos}
use rke2_lab.Base.Dict.{Dict}
use rke2_lab.Py.Value.{
  Value, null, int, bool, str, arr, obj, end, field, get, get_default, equals_text, equals_int,
  truthy,
}
use rke2_lab.Py.Text.{show_ℕ, show_ℤ, has_prefix, lower}
use rke2_lab.Py.Result.{runtime_error, type_error, attribute_error}
use rke2_lab.Py.Effect.{
  Result, ok, err, Env, Io, printed, pure, raise, lift, emit, try_except, except_runtime, ◌>>=◌,
  ◌>>◌,
}
use rke2_lab.Pve.Http.{request}
use rke2_lab.Pve.Reading.{get_of, data_or_empty, data_or_payload, iterate, text_of}
use rke2_lab.Cleanup.Settings.{CleanupSettings, configured, read_fallback_password}
use rke2_lab.Cleanup.Mac.{find_mac}

pub record PveClient : Type 0 where
  pub settings : CleanupSettings
  pub host : String

unfoldable pub make_client : Env → CleanupSettings → PveClient
make_client env settings =
    let host = env.netloc settings.endpoint in
    record { settings = settings; host = if host == "" then settings.endpoint else host }

-- `_request` with the client's host
unfoldable pub send :
    Env → PveClient → (method path ticket csrf : String) → Option (Dict String) → Io (ℕ × Value)
unfolding request
send env c method path ticket csrf form =
    request env method ("https://" <> (c.host <> path)) ticket csrf form

abbrev pub qemu_path : String → String
qemu_path node = "/api2/json/nodes/" <> (node <> "/qemu")

abbrev pub content_path : String → String → String
content_path node datastore =
    "/api2/json/nodes/" <> (node <> ("/storage/" <> (datastore <> "/content")))

abbrev pub task_path : String → String → String
task_path node upid = "/api2/json/nodes/" <> (node <> ("/tasks/" <> (upid <> "/status")))

-- `f"HTTP {status}: {payload}"`
abbrev http_text : Env → ℕ → Value → String
http_text env status payload = "HTTP " <> (show_ℕ status <> (": " <> text_of env payload))

unfoldable pub try_ticket : Env → PveClient → String → String → Io (String × String)
unfolding send ◌>>=◌
try_ticket env c username password = do
  (status, payload) ←
      send env c "POST" "/api2/json/access/ticket" "" ""
        (some (("new-format", "1") ∷ ("username", username) ∷ ("password", password) ∷ []))
  let answer = data_or_empty payload
  ticket ← lift (get_of "ticket" (str "") answer)
  if not (eqb status 200) || not (truthy ticket)
      then raise (
          runtime_error
            ("Proxmox ticket auth failed (" <> (show_ℕ status <> ("): " <> text_of env payload))))
      else (do
        csrf ← lift (get_of "CSRFPreventionToken" (str "") answer)
        pure (text_of env ticket, text_of env csrf))

-- The `except RuntimeError` branch of `auth`, at the configured file.
unfoldable pub auth_fallback : Env → PveClient → String → Option String → Io (String × String)
unfolding try_ticket read_fallback_password ◌>>=◌
auth_fallback env c text none = raise (runtime_error text)
auth_fallback env c text (some path) = do
  emit (
      printed (
        "[pve_cleanup] provider credentials rejected by PAM; "
        <> "falling back to host password file"))
  password ← read_fallback_password env c.settings
  try_ticket env c c.settings.username password

unfoldable pub auth : Env → PveClient → Io (String × String)
unfolding try_ticket auth_fallback try_except
auth env c =
    try_except (try_ticket env c c.settings.username c.settings.password) (
      except_runtime
        λ text. auth_fallback env c text (configured c.settings.fallback_password_file))

-- A set holds a bool as the int that it equals; a list or a dict has no hash.
unfoldable pub hashed : Value → Result Value
hashed (bool true) = ok (int (pos 1))
hashed (bool false) = ok (int (pos 0))
hashed (arr vs) = err type_error
hashed (obj fs) = err type_error
hashed v = ok v

-- `isinstance(v, dict) and "vmid" in v`, with `v["vmid"]`
unfoldable pub vmid_of : Value → Option Value
unfolding get
vmid_of (obj fs) = get "vmid" fs
vmid_of _ = none

unfoldable pub collect_vmids : List Value → Io (List Value)
unfolding hashed vmid_of ◌>>=◌
collect_vmids [] = pure []
collect_vmids (v ∷ vs) =
    let rest = collect_vmids vs in
    elim (vmid_of v) [ none ↦ rest | some w ↦ (do k ← lift (hashed w); ks ← rest; pure (k ∷ ks)) ]

-- The set as a list: only membership is read.
unfoldable pub node_vmids : Env → PveClient → String → String → Io (List Value)
unfolding send collect_vmids ◌>>=◌
node_vmids env c ticket node = do
  (status, payload) ← send env c "GET" (qemu_path node) ticket "" none
  if not (eqb status 200)
      then raise (runtime_error ("Failed to list VMs on node: " <> http_text env status payload))
      else (do listed ← lift (iterate (data_or_payload payload)); collect_vmids listed)

-- `data.get(f"net{nic_index}")`, where it is a text
net_text : String → Value → Option String
unfolding get
net_text key (obj fs) = elim (get "data" fs) [
  | some (obj fields) ↦ elim (get key fields) [ some (str net) ↦ some net | _ ↦ none ]
  | _ ↦ none
]
net_text key _ = none

abbrev lower_mac : Option String → String
lower_mac none = ""
lower_mac (some mac) = lower mac

unfoldable pub mac_of_config : String → ℕ × Value → String
unfolding net_text find_mac
mac_of_config key (status, payload) =
    if not (eqb status 200)
    then ""
    else elim (net_text key payload) [ none ↦ "" | some net ↦ lower_mac (find_mac net) ]

unfoldable pub node_vm_mac : Env → PveClient → String → String → ℕ → ℕ → Io String
unfolding send mac_of_config ◌>>=◌
node_vm_mac env c ticket node vmid nic_index = do
  reply ← send env c "GET" (qemu_path node <> ("/" <> (show_ℕ vmid <> "/config"))) ticket "" none
  pure (mac_of_config ("net" <> show_ℕ nic_index) reply)

-- What is read of an entry of a storage's content; a missing VMID reads as None.
pub record Content : Type 0 where
  pub volid : String
  pub vmid : Value

abbrev content_of : Value → Value → Result Content
content_of (str volid) vmid = ok (record { volid = volid; vmid = vmid })
content_of _ vmid = err attribute_error

-- `c.get("volid", "")` on which `startswith` is called
unfoldable pub read_content : Value → Result Content
read_content (obj fs) = content_of (get_default "volid" (str "") fs) (get_default "vmid" null fs)
read_content _ = err attribute_error

unfoldable pub select_content : String → List Value → Io (List Content)
unfolding read_content ◌>>=◌
select_content datastore [] = pure []
select_content datastore (v ∷ vs) = do
  c ← lift (read_content v)
  cs ← select_content datastore vs
  pure (if has_prefix (datastore <> ":") c.volid then c ∷ cs else cs)

unfoldable pub node_content : Env → PveClient → String → String → String → Io (List Content)
unfolding send select_content ◌>>=◌
node_content env c ticket datastore node = do
  (status, payload) ← send env c "GET" (content_path node datastore) ticket "" none
  if not (eqb status 200)
      then raise (
          runtime_error (
            "Failed to list storage '"
            <> (datastore <> ("' content: " <> http_text env status payload))))
      else (do listed ← lift (iterate (data_or_payload payload)); select_content datastore listed)

-- `payload.get("data", payload) if isinstance(payload, dict) else {}`
abbrev pub data_of : Value → Value
data_of (obj fs) = get_default "data" (obj fs) fs
data_of _ = obj end

-- `exit_status in ("OK", 0, "0")`
abbrev pub is_success : Value → Bool
is_success v = equals_text "OK" v || equals_int 0 v || equals_text "0" v

unfoldable pub exit_text : Env → Value → String
exit_text env exit_status = if is_success exit_status then "" else text_of env exit_status

unfoldable pub read_task : Env → Value → Result (Option String)
unfolding exit_text
read_task env (obj fs) =
    if equals_text "stopped" (get_default "status" null fs)
    then ok (some (exit_text env (get_default "exitstatus" null fs)))
    else ok none
read_task env _ = err attribute_error

-- One reply of a task's status: the outcome, or `none` to poll again.
unfoldable pub task_outcome : Env → ℕ × Value → Result (Option String)
unfolding read_task
task_outcome env (status, payload) =
    if not (eqb status 200)
    then ok (some ("task poll " <> http_text env status payload))
    else read_task env (data_of payload)

abbrev pub or_poll : Option String → Io String → Io String
or_poll (some outcome) again = pure outcome
or_poll none again = again

unfoldable pub poll_task : Env → PveClient → String → String → String → ℕ → Io String
unfolding send task_outcome pure ◌>>=◌
poll_task env c ticket upid node zero = pure "task still running after poll window"
poll_task env c ticket upid node (suc polls) =
    let again = poll_task env c ticket upid node polls in
    (do
      reply ← send env c "GET" (task_path node upid) ticket "" none
      outcome ← lift (task_outcome env reply)
      or_poll outcome again)

unfoldable pub wait_task : Env → PveClient → String → String → String → Io String
unfolding poll_task
wait_task env c ticket upid node = poll_task env c ticket upid node 60

unfoldable pub delete_content :
    Env → PveClient → (ticket csrf datastore volume node : String) → Io String
unfolding send wait_task ◌>>=◌
delete_content env c ticket csrf datastore volume node = do
  (status, payload) ←
      send env c "DELETE" (content_path node datastore <> ("/" <> volume)) ticket csrf
        (some (("stopvm", "0") ∷ []))
  if not (eqb status 200) then pure (http_text env status payload) else do
    upid ← lift (get_of "data" (str "") payload)
    if text_of env upid == ""
        then pure "no task UPID returned"
        else wait_task env c ticket (text_of env upid) node
