-- ===== src/Fake.antt =====
-- A small cluster that answers, for tests: two nodes, one running VM, and volumes on its stores.
use rke2_lab.Base.{ℕ, String, ◌<>◌, [], true, false, none, some, ◌==◌, if◌then◌else◌}
use rke2_lab.Base.Int.{pos}
use rke2_lab.Py.Value.{Value, int, str, arr, obj, nil, cons, end, field}
use rke2_lab.Base.Dict.{lookup, insert, keys, has_key}
use rke2_lab.Base.Sorted.{sorted, insert_sorted, str_lt}
use rke2_lab.Py.Value.{get, get_default, items, entries, truthy, equals_text, equals_int}
use rke2_lab.Py.Text.{
  has_part, has_prefix, strip_prefix, int_of_text, show_ℕ, show_ℤ, take_text, drop_text, last_text,
  after_colon, second_field, strip, lower, split_on, break_at, replace, words, last_number,
}
use rke2_lab.Py.Result.{index}
use rke2_lab.Py.Effect.{
  pure, raise, lift, emit, for_each, try_except, ◌>>=◌, read_file, ssh_session, now, run_process,
  start_process, visit, token_urlsafe, path_exists,
}
use rke2_lab.Pve.Http.{request}
use rke2_lab.Pve.Reading.{
  get_of, data_or_self, data_or_empty, data_or_payload, iterate, iterate_or_nil, int_of, text_of,
}
use rke2_lab.Py.Effect.{Body, Reply, response, http_error, HttpRequest, Expected, File, Env}

-- `{"data": v}` with status 200
abbrev pub answer : Value → Reply
answer v = response 200 (Body.json (obj (field "data" v end)))

abbrev pub num : ℕ → Value
num n = int (pos n)

abbrev pub ticket : Value
ticket = obj (field "ticket" (str "PVE:t") (field "CSRFPreventionToken" (str "csrf") end))

abbrev pub usage : ℕ → Value
usage free = obj (field "memory" (obj (field "available" (num free) end)) end)

abbrev pub store : ℕ → Value
store free = arr (
    cons
      (obj (
        field "active" (num 1)
          (field "content" (str "images,rootdir") (field "avail" (num free) end))))
      nil)

-- VM 2001 runs on pve01, and VMs 2101 and 2002 have left volumes behind.
abbrev volumes : Value
volumes = arr (
    cons (obj (field "volid" (str "local-lvm:vm-2001-disk-0") (field "vmid" (num 2001) end))) (
      cons (obj (field "volid" (str "local-lvm:vm-2101-cloudinit") end)) (
        cons (obj (field "volid" (str "local-lvm:base-2002-disk-0") (field "vmid" (num 2002) end)))
          nil)))

abbrev api : String
api = "https://pve/api2/json"

abbrev reply_to : HttpRequest → Reply
reply_to r =
    if r.method == "DELETE"
    then http_error 501 (Body.not_json "Unexpected content for method 'DELETE'")
    else if r.url == "https://pve/api2/json/access/ticket"
    then answer ticket
    else if r.url == "https://pve/api2/json/nodes/pve01/status"
    then answer (usage 20)
    else if r.url == "https://pve/api2/json/nodes/pve02/status"
    then answer (usage 30)
    else if r.url == "https://pve/api2/json/nodes/pve01/storage"
    then answer (store 500)
    else if r.url == "https://pve/api2/json/nodes/pve02/storage"
    then answer (store 400)
    else if r.url == "https://pve/api2/json/nodes/pve01/qemu"
    then answer (arr (cons (obj (field "vmid" (num 2001) end)) nil))
    else if r.url == "https://pve/api2/json/nodes/pve01/storage/local-lvm/content"
    then answer volumes
    else if r.url == "https://pve/api2/json/nodes/pve01/qemu/2001/config"
    then answer (obj (field "net1" (str "virtio=BC:24:11:00:AA:01,bridge=vlab") end))
    else http_error 595 (Body.not_json "no route to host")

abbrev pub fake : Env
fake = record {
  http = λ h r. reply_to r;
  ssh = λ h host command. record {
    first = Expected.prompt;
    before_first = "";
    second_timed_out = false;
    before_second = "freed\nPVE_CLEANUP_SSH_EXIT=0\nSDN_FDB_SSH_EXIT=0\nFDB_COUNT=7";
    exitstatus = some 0;
  };
  has_pexpect = true;
  read_text = λ h path. some "secret\n";
  read_json = λ h path. File.missing;
  clock = λ h. 0;
  process = λ h args. some (record { returncode = pos 0; stdout = ""; stderr = "" });
  which = λ name. none;
  browse = λ h v. none;
  decode = λ text. none;
  unescape = λ s. s;
  urljoin = λ base url. base <> url;
  query = λ url. [];
  token = λ h n. "token";
  exists = λ h path. true;
  show_value = λ v. "<value>";
  netloc = λ url. "pve";
  repr = λ s. "'" <> (s <> "'");
  show_pairs = λ ps. "<pairs>";
  quote = λ s. s;
  getenv = λ name.
      if name == "PROXMOX_VE_ENDPOINT"
      then some "https://pve"
      else if name == "PROXMOX_VE_PASSWORD"
      then some "pw"
      else if name == "PROXMOX_VE_NODES"
      then some "pve01, "
      else none;
  expanduser = λ path. path;
  base64 = λ s. s;
  unbase64 = λ s. some s;
}

-- Opens the library functions, for tests that run the code.
unfoldable pub runtime : Unit {0}
unfolding lookup insert keys has_key sorted insert_sorted str_lt get get_default items entries
    truthy equals_text equals_int get_of data_or_self data_or_empty data_or_payload iterate
    iterate_or_nil int_of text_of request index pure raise lift emit for_each read_file ssh_session
    try_except now run_process start_process visit token_urlsafe path_exists ◌>>=◌ has_part
    has_prefix strip_prefix int_of_text show_ℕ show_ℤ take_text drop_text last_text after_colon
    second_field strip lower split_on break_at replace words last_number
runtime = tt
