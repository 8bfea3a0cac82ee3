-- ===== src/Placement/Planner.antt =====
-- infra/pulumi/modules/placement.py: `PlacementRecord` and `plan_placement`.
pub mod Effects
pub mod RoundTrip
pub mod Trace
pub mod Places
pub mod Fits
use rke2_lab.Base.{
  ℕ, String, ◌<>◌, Bool, true, false, ◌&&◌, ◌||◌, not, Option, none, some, List, [], ◌∷◌, ◌++◌, map,
  if◌then◌else◌,
}
use rke2_lab.Base.Dict.{Dict, insert, has_key, keys, lookup}
use rke2_lab.Base.Sorted.{sorted}
use rke2_lab.Py.Value.{Value, obj, entries}
use rke2_lab.Py.Result.{runtime_error, index}
use rke2_lab.Py.Effect.{
  Exception, Result, ok, err, File, Event, wrote, printed, Env, Io, pure, raise, lift, emit,
  for_each, ◌>>=◌, ◌>>◌,
}
use rke2_lab.Pve.Reading.{text_of}
use rke2_lab.Placement.Plan.{NodeCapacity, PlacementRequest, plan}
use rke2_lab.Placement.Client.{UsageClient, make_client, auth, online_nodes, node_capacity}

-- `{str(k): str(v) for k, v in raw.items()}`
unfoldable pub placements_of : Env → Dict Value → Dict String
placements_of env [] = []
placements_of env ((k, v) ∷ raw) = (k, text_of env v) ∷ placements_of env raw

bad_record : String → String → Exception
bad_record path why = runtime_error ("placement record " <> (path <> why))

unfoldable pub read_record : Env → String → File → Result (Dict String)
unfolding placements_of bad_record
read_record env path File.missing = ok []
read_record env path (File.unreadable why) =
    err (bad_record path (" is unreadable (" <> (why <> "); fix or delete it before running")))
read_record env path (File.content (obj fs)) = ok (placements_of env (entries fs))
read_record env path (File.content _) = err (bad_record path " is not a JSON object")

-- `PlacementRecord.load`
unfoldable pub load_record : Env → String → Io (Dict String)
unfolding read_record
load_record env path h = (read_record env path (env.read_json h path), h)

-- `{k: self.placements[k] for k in sorted(self.placements)}`
unfoldable pub in_key_order : List String → Dict String → Io (Dict String)
unfolding index ◌>>=◌
in_key_order [] d = pure []
in_key_order (k ∷ ks) d = do v ← lift (index k d); rest ← in_key_order ks d; pure ((k, v) ∷ rest)

-- `PlacementRecord.save`; the directory is made on the way.
unfoldable pub save_record : String → Dict String → Io (Unit {0})
unfolding in_key_order sorted ◌>>=◌
save_record path placements = do
  payload ← in_key_order (sorted (keys placements)) placements
  emit (wrote path payload)

-- `{name: client.node_capacity(name) for name in nodes}`
pub read_capacities : Env → UsageClient → List String → Dict NodeCapacity → Io (Dict NodeCapacity)
unfolding ◌>>=◌
read_capacities env c [] caps = pure caps
read_capacities env c (name ∷ names) caps = do
  cap ← node_capacity env c name
  read_capacities env c names (insert name cap caps)

-- The nodes to consider, with the client that has the ticket.
pub candidate_set : Env → UsageClient → List String → Io (List String × UsageClient)
unfolding ◌>>=◌
candidate_set env c [] = online_nodes env c
candidate_set env c (n ∷ ns) = do c' ← auth env c; pure (n ∷ ns, c')

-- `k in overrides or k in record.placements`
abbrev pub is_known : Dict String → Dict String → String → Bool
is_known overrides placements k = has_key k overrides || has_key k placements

unfoldable pub select : (String → Bool) → List String → List String
select test [] = []
select test (k ∷ ks) = if test k then k ∷ select test ks else select test ks

-- The request of a key of `vm_ram_disk`.
requests_for : Dict (ℕ × ℕ) → List String → Io (List PlacementRequest)
unfolding index ◌>>=◌
requests_for sizes [] = pure []
requests_for sizes (k ∷ ks) = do
  (ram, disk) ← lift (index k sizes)
  rest ← requests_for sizes ks
  pure (record { key = k; ram_bytes = ram; disk_bytes = disk } ∷ rest)

-- `print(f"[placement] {key} -> {choices[key]} (best fit)")`
announce : Dict String → String → Io (Unit {0})
unfolding index ◌>>=◌
announce choices key = do
  node ← lift (index key choices)
  emit (printed ("[placement] " <> (key <> (" -> " <> (node <> " (best fit)")))))

abbrev is_empty {ℓ} : {A : Type ℓ} → List A → Bool
is_empty [] = true
is_empty (_ ∷ _) = false

unfoldable pub plan_placement :
    Env
    → (endpoint username password : String) → (vm_ram_disk : Dict (ℕ × ℕ)) → (record_path : String)
    → (overrides : Dict String) → (candidate_nodes : List String) → (persist : Bool)
    → Io (Dict String)
unfolding candidate_set read_capacities requests_for announce ◌>>=◌
plan_placement env endpoint username password vm_ram_disk record_path overrides candidate_nodes
      persist =
    do
      placements ← load_record env record_path
      (nodes, client) ←
          candidate_set env (make_client env endpoint username password) candidate_nodes
      if is_empty nodes
          then raise (runtime_error "no candidate PVE nodes available for placement")
          else do
            capacities ← read_capacities env client nodes []
            let known = sorted (select (is_known overrides placements) (keys vm_ram_disk))
            let fresh =
                sorted (select (λ k. not (is_known overrides placements k)) (keys vm_ram_disk))
            requests ← requests_for vm_ram_disk (known ++ fresh)
            (choices, placements') ← lift (plan requests capacities placements overrides)
            (if persist && not (is_empty fresh)
                then save_record record_path placements'
                else pure tt)
            for_each (announce choices) fresh
            pure choices
