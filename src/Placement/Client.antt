-- ===== src/Placement/Client.antt =====
-- infra/pulumi/modules/placement.py: `_PveUsageClient`. Its methods that set the ticket return the
-- new client. A name or a ticket that is no text is used as it prints.
pub mod Effects
pub mod Typed
mod Tests
use rke2_lab.Base.{
  ℕ, String, ◌<>◌, Bool, true, false, ◌&&◌, ◌||◌, not, Option, none, some, List, [], ◌∷◌, ◌==◌, eqb,
  if◌then◌else◌,
}
use rke2_lab.Base.Int.{ℤ, pos, ◌+ℤ◌}
use rke2_lab.Base.Dict.{Dict, insert}
use rke2_lab.Base.Sorted.{sorted}
use rke2_lab.Py.Value.{
  Value, null, int, str, obj, end, Fields, get, get_default, equals_text, truthy,
}
use rke2_lab.Py.Text.{show_ℕ, has_part}
use rke2_lab.Py.Result.{runtime_error, key_error}
use rke2_lab.Py.Effect.{Exception, Result, ok, err, Env, Io, pure, raise, lift, ◌>>=◌, ◌>>◌}
use rke2_lab.Pve.Http.{request}
use rke2_lab.Pve.Reading.{get_of, data_or_self, data_or_empty, iterate_or_nil, int_of, text_of}
use rke2_lab.Placement.Plan.{NodeCapacity}

pub record UsageClient : Type 0 where
  pub base : String
  pub username : String
  pub password : String
  pub ticket : String
  pub csrf : String

-- `parsed.netloc or endpoint`
host_of : Env → String → String
host_of env endpoint = let host = env.netloc endpoint in if host == "" then endpoint else host

unfoldable pub make_client : Env → String → String → String → UsageClient
unfolding host_of
make_client env endpoint username password = record {
  base = "https://" <> (host_of env endpoint <> "/api2/json");
  username = username;
  password = password;
  ticket = "";
  csrf = "";
}

-- `_request`
unfoldable pub send : Env → UsageClient → String → String → Option (Dict String) → Io (ℕ × Value)
unfolding request
send env c method path form = request env method (c.base <> path) c.ticket c.csrf form

-- `raise RuntimeError(f"... ({status}): {payload}")`
unfoldable pub failed {ℓ} : {A : Type ℓ} → Env → String → ℕ → Value → Io A
failed env what status payload =
    raise (runtime_error (what <> (" (" <> (show_ℕ status <> ("): " <> text_of env payload)))))

unfoldable pub auth : Env → UsageClient → Io UsageClient
unfolding send failed ◌>>=◌
auth env c = do
  (status, payload) ←
      send env c "POST" "/access/ticket"
        (some (("new-format", "1") ∷ ("username", c.username) ∷ ("password", c.password) ∷ []))
  let answer = data_or_empty payload
  ticket ← lift (get_of "ticket" (str "") answer)
  csrf ← lift (get_of "CSRFPreventionToken" (str "") answer)
  if not (eqb status 200) || not (truthy ticket)
      then failed env "PVE usage query auth failed" status payload
      else pure (record c { ticket = text_of env ticket; csrf = text_of env csrf })

-- `isinstance(entry, dict) and entry.get("type") == "node"`
abbrev node_entry : Value → Option Fields
node_entry (obj fs) = if equals_text "node" (get_default "type" null fs) then some fs else none
node_entry _ = none

add_ip : Env → Option Fields → Dict String → Dict String
add_ip env none ips = ips
add_ip env (some fs) ips =
    let name = get_default "name" (str "") fs in
    let ip = get_default "ip" (str "") fs in
    if truthy name && truthy ip then insert (text_of env name) (text_of env ip) ips else ips

collect_ips : Env → List Value → Dict String → Dict String
unfolding add_ip
collect_ips env [] ips = ips
collect_ips env (v ∷ vs) ips = collect_ips env vs (add_ip env (node_entry v) ips)

cluster_status : Env → UsageClient → Io (List Value)
unfolding send failed ◌>>=◌
cluster_status env c = do
  (status, payload) ← send env c "GET" "/cluster/status" none
  if eqb status 200
      then lift (iterate_or_nil (data_or_self payload))
      else failed env "cluster/status failed" status payload

unfoldable pub node_ips : Env → UsageClient → Io (Dict String)
unfolding auth cluster_status collect_ips ◌>>=◌
node_ips env c = do c' ← auth env c; found ← cluster_status env c'; pure (collect_ips env found [])

-- `entry["name"]`
name_of : Env → Fields → Result String
name_of env fs = elim (get "name" fs) [
  | none ↦ err (key_error "name")
  | some v ↦ ok (text_of env v)
]

online_names : Env → List Value → Io (List String)
unfolding name_of ◌>>=◌
online_names env [] = pure []
online_names env (v ∷ vs) =
    let rest = online_names env vs in
    elim (node_entry v) [
      | none ↦ rest
      | some fs ↦
          if truthy (get_default "online" null fs)
          then (do name ← lift (name_of env fs); names ← rest; pure (name ∷ names))
          else rest
    ]

-- The names with the client that has the ticket.
unfoldable pub online_nodes : Env → UsageClient → Io (List String × UsageClient)
unfolding auth cluster_status online_names sorted ◌>>=◌
online_nodes env c = do
  c' ← auth env c
  found ← cluster_status env c'
  names ← online_names env found
  pure (sorted names, c')

-- `isinstance(store, dict) and store.get("active")`
abbrev active_store : Value → Option Fields
active_store (obj fs) = if truthy (get_default "active" null fs) then some fs else none
active_store _ = none

abbrev holds_disks : String → Bool
holds_disks content = has_part "images" content || has_part "rootdir" content

add_avail : Env → Option Fields → ℤ → Io ℤ
unfolding ◌>>=◌
add_avail env none free = pure free
add_avail env (some fs) free =
    if holds_disks (text_of env (get_default "content" (str "") fs))
    then (do avail ← lift (int_of (get_default "avail" (int (pos 0)) fs)); pure (free +ℤ avail))
    else pure free

free_disk_of : Env → List Value → ℤ → Io ℤ
unfolding add_avail ◌>>=◌
free_disk_of env [] free = pure free
free_disk_of env (store ∷ stores) free = do
  more ← add_avail env (active_store store) free
  free_disk_of env stores more

free_ram_of : Value → Io ℤ
unfolding ◌>>=◌
free_ram_of payload = do
  memory ← lift (get_of "memory" (obj end) (data_or_empty payload))
  available ← lift (get_of "available" (int (pos 0)) memory)
  lift (int_of available)

unfoldable pub node_capacity : Env → UsageClient → String → Io NodeCapacity
unfolding send failed free_ram_of free_disk_of ◌>>=◌
node_capacity env c node = do
  (status, payload) ← send env c "GET" ("/nodes/" <> (node <> "/status")) none
  if not (eqb status 200) then failed env (node <> " /status failed") status payload else do
    free_ram ← free_ram_of payload
    (status', stores) ← send env c "GET" ("/nodes/" <> (node <> "/storage")) none
    if not (eqb status' 200) then failed env (node <> " /storage failed") status' stores else do
      listed ← lift (iterate_or_nil (data_or_self stores))
      free_disk ← free_disk_of env listed (pos 0)
      pure (record { name = node; free_ram_bytes = free_ram; free_disk_bytes = free_disk })
