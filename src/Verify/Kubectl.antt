-- ===== src/Verify/Kubectl.antt =====
-- verify/helpers.py: `kubectl` with the configuration of the lab's cluster.
use rke2_lab.Base.{
  String, ◌<>◌, Bool, true, ◌&&◌, not, Option, none, some, List, [], ◌∷◌, join, if◌then◌else◌,
}
use rke2_lab.Py.Value.{Value}
use rke2_lab.Py.Text.{take_text, strip}
use rke2_lab.Py.Result.{runtime_error}
use rke2_lab.Py.Effect.{
  Env, Io, Command, Completed, pure, raise, lift, run_process, start_process, ◌>>=◌,
}
use rke2_lab.Cleanup.Settings.{configured}
use rke2_lab.Verify.Session.{decoded}
use rke2_lab.Verify.Ipa.{is_zero}

-- `value or default`
abbrev or_default : Option String → String → String
or_default none default = default
or_default (some value) default = value

unfoldable pub kubectl_exe : Env → String
kubectl_exe env =
    or_default (configured (env.which "kubectl")) (env.expanduser "~/.local/bin/kubectl")

unfoldable pub kubeconfig : Env → String
kubeconfig env =
    or_default (configured (env.getenv "KUBECONFIG")) (env.expanduser "~/.kube/dev-lo.config")

unfoldable pub kubectl_command : Env → List String → Option String → Command
unfolding kubectl_exe kubeconfig
kubectl_command env args stdin = record {
  argv = kubectl_exe env ∷ args;
  environ = ("KUBECONFIG", kubeconfig env) ∷ [];
  stdin = stdin;
}

unfoldable pub kubectl : Env → (args : List String) → (check : Bool) → Io Completed
unfolding kubectl_command run_process strip pure raise ◌>>=◌
kubectl env args check = do
  proc ← run_process env (kubectl_command env args none)
  if check && not (is_zero proc.returncode)
      then raise (
          runtime_error
            ("kubectl " <> (join " " args <> (" failed: " <> take_text 400 (strip proc.stderr)))))
      else pure proc

unfoldable pub kubectl_json : Env → (args : List String) → Io Value
unfolding kubectl lift ◌>>=◌
kubectl_json env args = do
  proc ← kubectl env ("-o" ∷ "json" ∷ args) true
  lift (decoded (env.decode proc.stdout))

unfoldable pub kubectl_popen : Env → (args : List String) → Io (Unit {0})
unfolding kubectl_command start_process
kubectl_popen env args = start_process env (kubectl_command env args none)

unfoldable pub kubectl_apply : Env → (text : String) → Io (Unit {0})
unfolding kubectl_command run_process strip pure raise ◌>>=◌
kubectl_apply env text = do
  proc ← run_process env (kubectl_command env ("apply" ∷ "-f" ∷ "-" ∷ []) (some text))
  if is_zero proc.returncode
      then pure tt
      else raise (runtime_error ("kubectl apply failed: " <> take_text 400 (strip proc.stderr)))
