-- ===== src/Verify/Conditions.antt =====
-- verify/test_cluster.py: what its checks read in the answers of kubectl.
use rke2_lab.Base.{
  String, ◌<>◌, Bool, true, false, ◌&&◌, ◌||◌, not, Option, none, some, List, [], ◌∷◌, ◌++◌,
  if◌then◌else◌,
}
use rke2_lab.Py.Value.{Value, arr, nil, null, str, obj, end, items, truthy, equals_text}
use rke2_lab.Py.Result.{Result, ok, err, type_error, ◌>>=◌}
use rke2_lab.Py.Effect.{Env}
use rke2_lab.Pve.Reading.{get_of, iterate, text_of}
use rke2_lab.Verify.Session.{item_of}

-- `for v in w[key]`
unfoldable pub each_of : String → Value → Result (List Value)
unfolding item_of iterate
each_of key w = do v ← item_of key w; iterate v

-- `v["metadata"][key]`
unfoldable pub metadata : String → Value → Result Value
unfolding item_of
metadata key v = do m ← item_of "metadata" v; item_of key m

-- The names of the nodes that are ready, and of those that are not.
pub record Readiness : Type 0 where
  pub ready : List Value
  pub not_ready : List Value

abbrev pub note : Bool → Value → Readiness → Readiness
note true name r = record r { ready = r.ready ++ name ∷ [] }
note false name r = record r { not_ready = r.not_ready ++ name ∷ [] }

unfoldable pub note_condition : Value → Value → Readiness → Result Readiness
unfolding item_of metadata equals_text
note_condition node condition r = do
  kind ← item_of "type" condition
  if not (equals_text "Ready" kind) then ok r else (do
    status ← item_of "status" condition
    name ← metadata "name" node
    ok (note (equals_text "True" status) name r))

unfoldable pub note_conditions : Value → List Value → Readiness → Result Readiness
unfolding note_condition
note_conditions node [] r = ok r
note_conditions node (condition ∷ conditions) r = do
  r' ← note_condition node condition r
  note_conditions node conditions r'

unfoldable pub note_nodes : List Value → Readiness → Result Readiness
unfolding each_of note_conditions item_of
note_nodes [] r = ok r
note_nodes (node ∷ nodes) r = do
  status ← item_of "status" node
  conditions ← each_of "conditions" status
  r' ← note_conditions node conditions r
  note_nodes nodes r'

unfoldable pub names_of : List Value → Result (List Value)
unfolding metadata
names_of [] = ok []
names_of (v ∷ vs) = do name ← metadata "name" v; rest ← names_of vs; ok (name ∷ rest)

-- `{namespace}/{name}`
unfoldable pub label : Env → Value → Result String
unfolding metadata text_of
label env v = do
  namespace ← metadata "namespace" v
  name ← metadata "name" v
  ok (text_of env namespace <> ("/" <> text_of env name))

-- `v["status"].get("conditions", [])`, in a loop
unfoldable pub conditions_of : Value → Result (List Value)
unfolding item_of get_of iterate
conditions_of v = do
  status ← item_of "status" v
  conditions ← get_of "conditions" (arr nil) status
  iterate conditions

abbrev pub newer : Bool → Value → Value → Result Value
newer true condition status = item_of "status" condition
newer false condition status = ok status

-- The status of the last Ready condition.
unfoldable pub last_ready : List Value → Value → Result Value
unfolding item_of equals_text
last_ready [] status = ok status
last_ready (condition ∷ conditions) status = do
  kind ← item_of "type" condition
  status' ← newer (equals_text "Ready" kind) condition status
  last_ready conditions status'

unfoldable pub stuck_kustomizations : Env → List Value → Result (List String)
unfolding conditions_of last_ready label equals_text text_of
stuck_kustomizations env [] = ok []
stuck_kustomizations env (kz ∷ kzs) = do
  conditions ← conditions_of kz
  status ← last_ready conditions (str "Unknown")
  name ← if equals_text "True" status then ok "" else label env kz
  rest ← stuck_kustomizations env kzs
  ok (
      if equals_text "True" status
      then rest
      else (name <> (" (" <> (text_of env status <> ")"))) ∷ rest)

-- A Ready condition with another status than "True".
unfoldable pub is_unready : Value → Result Bool
unfolding item_of equals_text
is_unready condition = do
  kind ← item_of "type" condition
  if not (equals_text "Ready" kind)
      then ok false
      else (do status ← item_of "status" condition; ok (not (equals_text "True" status)))

-- What the message shows of a condition.
unfoldable pub shown : Env → Bool → Value → Value → Result (List String)
unfolding label get_of text_of
shown env false release condition = ok []
shown env true release condition = do
  name ← label env release
  reason ← get_of "reason" (str "") condition
  ok ((name <> (" (" <> (text_of env reason <> ")"))) ∷ [])

unfoldable pub stuck_conditions : Env → Value → List Value → Result (List String)
unfolding is_unready shown
stuck_conditions env release [] = ok []
stuck_conditions env release (condition ∷ conditions) = do
  unready ← is_unready condition
  here ← shown env unready release condition
  rest ← stuck_conditions env release conditions
  ok (here ++ rest)

unfoldable pub stuck_releases : Env → List Value → Result (List String)
unfolding conditions_of stuck_conditions
stuck_releases env [] = ok []
stuck_releases env (release ∷ releases) = do
  conditions ← conditions_of release
  here ← stuck_conditions env release conditions
  rest ← stuck_releases env releases
  ok (here ++ rest)

-- The namespace and the name of each release.
unfoldable pub found_releases : List Value → Result (List (Value × Value))
unfolding metadata
found_releases [] = ok []
found_releases (release ∷ releases) = do
  namespace ← metadata "namespace" release
  name ← metadata "name" release
  rest ← found_releases releases
  ok ((namespace, name) ∷ rest)

abbrev pub is_found : String × String → List (Value × Value) → Bool
is_found expected [] = false
is_found expected ((namespace, name) ∷ rest) =
    (equals_text expected.0 namespace && equals_text expected.1 name) || is_found expected rest

-- The expected releases that are not found.
unfoldable pub missing_releases :
    List (String × String) → List (Value × Value) → List (String × String)
missing_releases [] found = []
missing_releases (expected ∷ more) found =
    let rest = missing_releases more found in
    if is_found expected found then rest else expected ∷ rest

-- `v + w`, in a loop
unfoldable pub both : Value → Value → Result (List Value)
unfolding items iterate
both (arr vs) (arr ws) = ok (items vs ++ items ws)
both (str s) (str t) = iterate (str (s <> t))
both _ _ = err type_error

-- The reason for which a container waits, where it is one of the bad ones.
unfoldable pub waiting_reason : Value → Result (Option Value)
unfolding get_of truthy equals_text
waiting_reason cs = do
  state ← get_of "state" (obj end) cs
  waiting ← get_of "waiting" null state
  if not (truthy waiting) then ok none else (do
    reason ← get_of "reason" null waiting
    ok (
        if equals_text "CrashLoopBackOff" reason || equals_text "Error" reason
        then some reason
        else none))

-- The first such reason among the containers; the rest is not looked at.
unfoldable pub first_waiting : List Value → Result (Option Value)
unfolding waiting_reason
first_waiting [] = ok none
first_waiting (cs ∷ more) = elim (waiting_reason cs) [
  | err e ↦ err e
  | ok (some reason) ↦ ok (some reason)
  | ok none ↦ first_waiting more
]

unfoldable pub containers_of : Value → Result (List Value)
unfolding get_of both
containers_of status = do
  main ← get_of "containerStatuses" (arr nil) status
  init ← get_of "initContainerStatuses" (arr nil) status
  both main init

unfoldable pub waiting_text : Env → Value → Option Value → Result (List String)
unfolding label text_of
waiting_text env pod none = ok []
waiting_text env pod (some reason) = do
  name ← label env pod
  ok ((name <> (" (waiting: " <> (text_of env reason <> ")"))) ∷ [])

-- What is wrong with a pod.
unfoldable pub pod_faults : Env → Value → Result (List String)
unfolding item_of get_of equals_text label text_of containers_of first_waiting waiting_text
pod_faults env pod = do
  status ← item_of "status" pod
  phase ← get_of "phase" null status
  if equals_text "Failed" phase
      then (do name ← label env pod; ok ((name <> (" (" <> (text_of env phase <> ")"))) ∷ []))
      else (do
        containers ← containers_of status
        reason ← first_waiting containers
        waiting_text env pod reason)

unfoldable pub bad_pods : Env → List Value → Result (List String)
unfolding pod_faults
bad_pods env [] = ok []
bad_pods env (pod ∷ pods) = do
  here ← pod_faults env pod
  rest ← bad_pods env pods
  ok (here ++ rest)
