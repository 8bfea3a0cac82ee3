-- ===== src/Verify/Tokens.antt =====
-- verify/helpers.py: the exchange of a code for tokens, and the claims of a token.
pub mod Claims
mod Tests
use Prim.Native.String.{count}
use rke2_lab.Base.{
  ℕ, zero, suc, ◌+◌, ◌-◌, ◌%◌, String, ◌<>◌, not, Option, none, some, List, [], ◌∷◌, eqb,
  if◌then◌else◌,
}
use rke2_lab.Base.Dict.{Dict}
use rke2_lab.Py.Value.{Value}
use rke2_lab.Py.Text.{show_ℕ, take_text, split_on}
use rke2_lab.Py.Result.{runtime_error, value_error, index_error, index}
use rke2_lab.Py.Effect.{Result, ok, err, HttpRequest, Env, Io, raise, lift, ◌>>=◌}
use rke2_lab.Verify.Session.{kc_base, env_var, call, json_of, text_of_reply, decoded}

-- For each client its redirect, and the variable that has its secret.
abbrev pub spe : Dict (String × String)
spe =
    ("grafana", ("https://grafana.k8s.dev.lo/login/generic_oauth", "OIDC_CLIENT_SECRET_GRAFANA"))
    ∷ ("longhorn", ("https://longhorn.k8s.dev.lo/oauth2/callback", "OIDC_CLIENT_SECRET_LONGHORN"))
    ∷ ("openbao", ("http://localhost:8250/oidc/callback", "OIDC_CLIENT_SECRET_OPENBAO"))
    ∷ ("hubble", ("https://hubble.k8s.dev.lo/oauth2/callback", "OIDC_CLIENT_SECRET_HUBBLE"))
    ∷ ("traefik", ("https://traefik.k8s.dev.lo/oauth2/callback", "OIDC_CLIENT_SECRET_TRAEFIK"))
    ∷ []

abbrev pub kc_token_url : String
kc_token_url = kc_base <> "/realms/dev-lo/protocol/openid-connect/token"

unfoldable pub code_request : (client_id code secret redirect_uri : String) → HttpRequest
code_request client_id code secret redirect_uri = record {
  method = "POST";
  url = kc_token_url;
  headers = [];
  form = some (
      ("grant_type", "authorization_code")
      ∷ ("code", code)
      ∷ ("client_id", client_id)
      ∷ ("client_secret", secret)
      ∷ ("redirect_uri", redirect_uri)
      ∷ []);
  payload = none;
}

unfoldable pub exchange_code : Env → (client_id code redirect_uri : String) → Io Value
unfolding index env_var code_request call json_of text_of_reply raise lift ◌>>=◌
exchange_code env client_id code redirect_uri = do
  (_, variable) ← lift (index client_id spe)
  secret ← env_var env variable
  resp ← call env (code_request client_id code secret redirect_uri)
  if not (eqb resp.status_code 200)
      then raise (
          runtime_error (
            "token exchange for "
            <> (client_id
                <> (" failed ("
                    <> (show_ℕ resp.status_code
                        <> ("): " <> take_text 300 (text_of_reply env resp)))))))
      else lift (json_of resp)

-- `"=" * n`
unfoldable pub pads : ℕ → String
pads zero = ""
pads (suc n) = "=" <> pads n

-- `-n % 4`
unfoldable pub missing_pads : ℕ → ℕ
missing_pads n = (4 - n % 4) % 4

-- `parts[1]`
abbrev second_part : List String → Result String
second_part (_ ∷ part ∷ _) = ok part
second_part _ = err index_error

abbrev decoded_bytes : Option String → Result String
decoded_bytes none = err (value_error "binascii.Error")
decoded_bytes (some text) = ok text

unfoldable pub padded : String → String
unfolding missing_pads pads
padded part = part <> pads (missing_pads (count part))

unfoldable pub access_token_claims : Env → (access_token : String) → Io Value
unfolding split_on padded lift ◌>>=◌
access_token_claims env access_token = do
  part ← lift (second_part (split_on b'.' access_token))
  text ← lift (decoded_bytes (env.unbase64 (padded part)))
  lift (decoded (env.decode text))
