-- ===== src/Verify/Tokens/Tests.antt =====
-- A token, and a run of the `kubectl` of verify/helpers.py.
use rke2_lab.Base.{◌<>◌, ◌≡◌, refl, true, Option, none, some, [], ◌∷◌, ◌==◌, if◌then◌else◌, arith}
use rke2_lab.Base.Int.{pos}
use rke2_lab.Py.Value.{Value, str, obj, field, end}
use rke2_lab.Py.Result.{runtime_error}
use rke2_lab.Py.Effect.{Body, response, ran, Env, Completed, ok, err}
use rke2_lab.Fake.{fake, runtime}
use rke2_lab.Verify.Session.{env_var, call, json_of, text_of_reply}
use rke2_lab.Verify.Kubectl.{
  kubectl_exe, kubeconfig, kubectl_command, kubectl, kubectl_apply, kubectl_json,
}
use rke2_lab.Verify.Tokens.{
  missing_pads, pads, padded, access_token_claims, code_request, exchange_code,
}
use rke2_lab.Verify.Tokens.Claims.{is_plain, access_token_claims_unpadded}

abbrev claims : Value
claims = obj (field "roles" (str "grafana-users") end)

abbrev refusal : Option Completed
refusal = some (record { returncode = pos 1; stdout = ""; stderr = "no such CRD\n" })

abbrev decoder : Env
decoder = record fake {
  unbase64 = λ text. if text == "cGF5bG9hZDE=" then some "payload1" else none;
  decode = λ text. if text == "payload1" then some claims else none;
  getenv = λ name. if name == "OIDC_CLIENT_SECRET_GRAFANA" then some "s" else none;
  process = λ h command. refusal;
  http = λ h r. response 200 (Body.json claims);
}

opened : Unit {0}
unfolding runtime env_var call json_of text_of_reply missing_pads pads padded access_token_claims
    code_request exchange_code is_plain kubectl_exe kubeconfig kubectl_command kubectl kubectl_apply
    kubectl_json
opened = tt

exchanged : (exchange_code decoder "grafana" "abc" "https://grafana" []).0 ≡ ok claims
unfolding opened
exchanged = refl

refused : kubectl_apply decoder "kind: Namespace" [] ≡ (
  err (runtime_error "kubectl apply failed: no such CRD"),
  ran (record {
    argv = "~/.local/bin/kubectl" ∷ "apply" ∷ "-f" ∷ "-" ∷ [];
    environ = ("KUBECONFIG", "~/.kube/dev-lo.config") ∷ [];
    stdin = some "kind: Namespace";
  })
      ∷ [],
)
unfolding opened
refused = refl

plain_header : is_plain "aGVhZA" ≡ true
unfolding opened
plain_header = refl

plain_part : is_plain "cGF5bG9hZDE" ≡ true
unfolding opened
plain_part = refl

unpadded : decoder.unbase64 ("cGF5bG9hZDE" <> pads 1) ≡ some "payload1"
unfolding opened
unpadded = refl

access_token_claims_unpadded_example :
    access_token_claims decoder ("aGVhZA" <> ("." <> ("cGF5bG9hZDE" <> ("." <> "sig")))) []
    ≡ (ok claims, [])
access_token_claims_unpadded_example =
    access_token_claims_unpadded decoder "aGVhZA" "cGF5bG9hZDE" "sig" "payload1" 1 claims []
      plain_header plain_part (omega arith) refl unpadded refl
