-- ===== src/Pve/Http.antt =====
-- `_request` of infra/pulumi/modules/pve_cleanup.py, and its twins in placement.py and sdn.py: the
-- request that is sent, and how each reply is read.
pub mod Rules
use rke2_lab.Base.{
  ℕ, String, ◌<>◌, Bool, true, false, ◌&&◌, ◌||◌, not, Option, none, some, List, [], ◌∷◌, ◌==◌, eqb,
  if◌then◌else◌,
}
use rke2_lab.Base.Dict.{Dict, insert}
use rke2_lab.Py.Value.{Value, str, obj, end, field}
use rke2_lab.Py.Text.{take_text}
use rke2_lab.Py.Result.{value_error, os_error}
use rke2_lab.Py.Effect.{
  Result, ok, err, Body, Reply, response, http_error, unreachable, HttpRequest, sent, Env, Io,
}

-- `method in ("POST", "PUT", "DELETE") and csrf`
is_write : String → Bool
is_write method = method == "POST" || method == "PUT" || method == "DELETE"

with_form : Option (Dict String) → Dict String → Dict String
with_form none headers = headers
with_form (some form) headers = insert "Content-Type" "application/x-www-form-urlencoded" headers

unfoldable pub headers_for : String → String → String → Option (Dict String) → Dict String
unfolding is_write with_form
headers_for method ticket csrf form =
    let headers = with_form form (("Cookie", "PVEAuthCookie=" <> ticket) ∷ []) in
    if is_write method && not (csrf == "")
    then insert "CSRFPreventionToken" csrf headers
    else headers

message : String → Value
message text = obj (field "message" (str text) end)

-- A response is decoded, and one that is no JSON raises; an error reply never raises.
unfoldable pub read_reply : Reply → Result (ℕ × Value)
unfolding message
read_reply (response status Body.empty) = ok (status, obj end)
read_reply (response status (Body.json v)) = ok (status, v)
read_reply (response status (Body.not_json text)) = err (value_error "JSONDecodeError")
read_reply (http_error code (Body.json v)) = ok (code, v)
read_reply (http_error code (Body.not_json text)) = ok (code, message (take_text 400 text))
read_reply (http_error code Body.empty) = ok (code, message "")
read_reply (unreachable reason) = err (os_error reason)

-- `PveClient._request` with its URL written out.
unfoldable pub request :
    Env → String → String → String → String → Option (Dict String) → Io (ℕ × Value)
unfolding headers_for read_reply
request env method url ticket csrf form h =
    let req : HttpRequest = record {
      method = method;
      url = url;
      headers = headers_for method ticket csrf form;
      form = form;
      payload = none;
    } in
    (read_reply (env.http h req), sent req ∷ h)
