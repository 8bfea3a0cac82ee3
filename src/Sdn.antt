-- ===== src/Sdn.antt =====
-- infra/pulumi/modules/sdn.py: `_apply_once` and `apply_sdn`, the cluster-wide reload of the network.
pub mod Poll
pub mod Wait
pub mod Effects
mod Tests
use rke2_lab.Base.{
  ℕ, zero, suc, String, ◌<>◌, ◌+◌, Bool, true, false, ◌||◌, not, Option, none, some, List, [], ◌∷◌,
  ltb, eqb, ◌==◌, if◌then◌else◌,
}
use rke2_lab.Base.Int.{ℤ}
use rke2_lab.Base.Dict.{Dict}
use rke2_lab.Py.Value.{Value, null, str, obj, end, Fields, get_default, equals_text, truthy}
use rke2_lab.Py.Text.{show_ℕ}
use rke2_lab.Py.Result.{runtime_error, timeout_error}
use rke2_lab.Py.Effect.{
  Exception, Result, ok, err, Env, Io, printed, slept, pure, raise, lift, emit, now, ◌>>=◌, ◌>>◌,
}
use rke2_lab.Pve.Http.{request}
use rke2_lab.Pve.Reading.{get_of, data_or_empty, iterate_or_nil, text_of}

pub record SdnSettings : Type 0 where
  pub endpoint : String
  pub username : String
  pub password : String
  pub insecure : Bool
  pub zone_id : String
  pub vnet_id : String
  pub vxlan_tag : ℤ
  pub node_names : List String
  pub peers : List String

-- `TASK_TIMEOUT_S`
abbrev pub task_timeout_s : ℕ
task_timeout_s = 300

-- How an apply ends without an exception: nothing to wait for, the task of this UPID, or, in the
-- model alone, no rounds left.
pub data Applied : Type 0 where
  synchronous out_of_rounds : Applied
  by_task : String → Applied

-- `base`
unfoldable pub base_of : Env → String → String
base_of env endpoint =
    let host = env.netloc endpoint in
    "https://" <> ((if host == "" then endpoint else host) <> "/api2/json")

-- The ticket and its token, which are used as they print.
unfoldable pub get_ticket : Env → (base username password : String) → Io (String × String)
unfolding request ◌>>=◌
get_ticket env base username password = do
  (status, payload) ←
      request env "POST" (base <> "/access/ticket") "" ""
        (some (("new-format", "1") ∷ ("username", username) ∷ ("password", password) ∷ []))
  let answer = data_or_empty payload
  ticket ← lift (get_of "ticket" (str "") answer)
  if not (eqb status 200) || not (truthy ticket)
      then raise (
          runtime_error
            ("Proxmox ticket auth failed (" <> (show_ℕ status <> ("): " <> text_of env payload))))
      else (do
        csrf ← lift (get_of "CSRFPreventionToken" (str "") answer)
        pure (text_of env ticket, text_of env csrf))

-- `payload.get("data") if isinstance(payload, dict) else None`
unfoldable pub data_or_none : Value → Value
data_or_none (obj fs) = get_default "data" null fs
data_or_none _ = null

-- What the list of tasks says of one: nothing yet, the end, or a failure with its text.
pub data Progress : Type 0 where
  waiting finished : Progress
  failed : String → Progress

abbrev pub is_null : Value → Bool
is_null null = true
is_null _ = false

failure_text : Env → String → Fields → String
failure_text env upid fs =
    "SDN apply task "
    <> (upid
        <> (" finished with "
            <> (text_of env (get_default "status" null fs)
                <> (": " <> text_of env (get_default "statusmsg" (str "") fs)))))

unfoldable pub task_progress : Env → String → Fields → Progress
unfolding failure_text
task_progress env upid fs =
    if is_null (get_default "status" null fs)
    then waiting
    else if equals_text "OK" (get_default "status" null fs)
    then finished
    else failed (failure_text env upid fs)

-- `isinstance(entry, dict) and entry.get("upid") == upid`
abbrev pub entry_of : String → Value → Option Fields
entry_of upid (obj fs) = if equals_text upid (get_default "upid" null fs) then some fs else none
entry_of upid _ = none

abbrev pub progress_or : Env → String → Option Fields → Progress → Progress
progress_or env upid none rest = rest
progress_or env upid (some fs) rest = task_progress env upid fs

-- The `for` loop over the entries: the first entry of the task decides.
unfoldable pub scan_tasks : Env → String → List Value → Progress
unfolding task_progress
scan_tasks env upid [] = waiting
scan_tasks env upid (v ∷ vs) = progress_or env upid (entry_of upid v) (scan_tasks env upid vs)

-- One request of the list of tasks.
unfoldable pub poll_once : Env → (base ticket upid : String) → Io Progress
unfolding request data_or_none scan_tasks pure ◌>>=◌
poll_once env base ticket upid = do
  (status, payload) ← request env "GET" (base <> "/cluster/tasks") ticket "" none
  tasks ← lift (iterate_or_nil (data_or_none payload))
  pure (scan_tasks env upid tasks)

abbrev pub after_poll : String → Progress → Io Applied → Io Applied
after_poll upid waiting again = do emit (slept 5); again
after_poll upid finished again = pure (by_task upid)
after_poll upid (failed text) again = raise (runtime_error text)

abbrev pub timed_out : String → Io Applied
timed_out upid = raise (timeout_error ("SDN apply task " <> (upid <> " not finished within 300s")))

-- `while time.time() < deadline`, with a number of rounds.
unfoldable pub await_task : Env → (base ticket upid : String) → (deadline : ℕ) → ℕ → Io Applied
unfolding poll_once now pure raise emit ◌>>=◌
await_task env base ticket upid deadline zero = pure out_of_rounds
await_task env base ticket upid deadline (suc rounds) =
    let again = await_task env base ticket upid deadline rounds in
    (do
      time ← now env
      if ltb time deadline
          then (do progress ← poll_once env base ticket upid; after_poll upid progress again)
          else timed_out upid)

-- A task of five seconds' rounds cannot take more of them.
abbrev pub max_rounds : ℕ
max_rounds = 61

-- `(payload.get("data") if isinstance(payload, dict) else None) or None`
abbrev pub task_of : Env → Value → Option String
task_of env v = if truthy v then some (text_of env v) else none

unfoldable pub await_reload : Env → (base ticket : String) → Option String → Io Applied
unfolding await_task now pure ◌>>=◌
await_reload env base ticket none = pure synchronous
await_reload env base ticket (some upid) = do
  time ← now env
  await_task env base ticket upid (time + task_timeout_s) max_rounds

-- `_apply_once` with its `base`.
unfoldable pub apply_at : Env → (base username password : String) → Io Applied
unfolding get_ticket request data_or_none await_reload raise ◌>>=◌
apply_at env base username password = do
  (ticket, csrf) ← get_ticket env base username password
  (status, payload) ← request env "PUT" (base <> "/cluster/sdn/") ticket csrf none
  if not (eqb status 200)
      then raise (
          runtime_error ("SDN apply failed (" <> (show_ℕ status <> ("): " <> text_of env payload))))
      else await_reload env base ticket (task_of env (data_or_none payload))

unfoldable pub apply_once : Env → (endpoint username password : String) → Io Applied
unfolding base_of apply_at
apply_once env endpoint username password = apply_at env (base_of env endpoint) username password

done_text : Applied → String
done_text synchronous = "None"
done_text out_of_rounds = "None"
done_text (by_task upid) = upid

-- `none` on a preview.
unfoldable pub apply_sdn :
    Env → (endpoint username password : String) → (dry_run : Bool) → Io (Option Applied)
unfolding apply_once done_text emit pure ◌>>=◌
apply_sdn env endpoint username password dry_run =
    if dry_run
    then (do emit (printed "pve-sdn-apply: skipped (dry run / preview)"); pure none)
    else (do
      applied ← apply_once env endpoint username password
      emit (
          printed
            ("pve-sdn-apply: cluster-wide SDN apply done (task " <> (done_text applied <> ")")))
      pure (some applied))
