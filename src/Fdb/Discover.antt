-- ===== src/Fdb/Discover.antt =====
-- infra/pulumi/modules/sdn_fdb.py: `_discover_sdn_macs`.
use rke2_lab.Base.{ℕ, String, ◌<>◌, Option, none, some, List, [], ◌∷◌, ltb, ◌==◌, if◌then◌else◌}
use rke2_lab.Base.Int.{pos}
use rke2_lab.Base.Dict.{Dict, insert}
use rke2_lab.Py.Value.{Value, int}
use rke2_lab.Py.Effect.{Env, Io, printed, pure, emit, try_except, except_runtime, ◌>>=◌, ◌>>◌}
use rke2_lab.Cleanup.Client.{PveClient, node_vmids, node_vm_mac}
use rke2_lab.Cleanup.Orphans.{held}
use rke2_lab.Fdb.Settings.{SdnFdbSettings}

insert_pair : ℕ × ℕ → List (ℕ × ℕ) → List (ℕ × ℕ)
insert_pair p [] = p ∷ []
insert_pair p (q ∷ qs) = if ltb q.0 p.0 then q ∷ insert_pair p qs else p ∷ q ∷ qs

sort_pairs : List (ℕ × ℕ) → List (ℕ × ℕ)
unfolding insert_pair
sort_pairs [] = []
sort_pairs (p ∷ ps) = insert_pair p (sort_pairs ps)

-- The entries of `sdn_nic_index` whose VMID is on the node; the keys of a dict differ.
present : List Value → List (ℕ × ℕ) → List (ℕ × ℕ)
unfolding held
present vmids [] = []
present vmids (p ∷ ps) =
    if held (int (pos p.0)) vmids then p ∷ present vmids ps else present vmids ps

unfoldable pub overlay_vms : List Value → List (ℕ × ℕ) → List (ℕ × ℕ)
unfolding sort_pairs present
overlay_vms vmids index = sort_pairs (present vmids index)

-- The MACs of these VMs, without the NICs that have none.
unfoldable pub macs_on : Env → PveClient → String → String → List (ℕ × ℕ) → Io (List String)
unfolding node_vm_mac pure ◌>>=◌
macs_on env c ticket node [] = pure []
macs_on env c ticket node ((vmid, nic) ∷ rest) = do
  mac ← node_vm_mac env c ticket node vmid nic
  more ← macs_on env c ticket node rest
  pure (if mac == "" then more else mac ∷ more)

-- The VMIDs of a node, or `none` where the list is not to be had.
unfoldable pub vmids_or_none : Env → PveClient → String → String → Io (Option (List Value))
unfolding node_vmids try_except emit pure ◌>>=◌
vmids_or_none env c ticket node =
    try_except (do vmids ← node_vmids env c ticket node; pure (some vmids))
      (except_runtime λ text. do
        emit (
            printed
              ("[sdn_fdb] " <> (node <> (": VM list unavailable (" <> (text <> "); skipping")))))
        pure none)

unfoldable pub macs_of_vms :
    Env → PveClient → String → SdnFdbSettings → String → Option (List Value) → Io (List String)
unfolding overlay_vms macs_on pure
macs_of_vms env c ticket settings node none = pure []
macs_of_vms env c ticket settings node (some vmids) =
    macs_on env c ticket node (overlay_vms vmids settings.sdn_nic_index)

unfoldable pub discover_from :
    Env
    → PveClient
    → String
    → SdnFdbSettings
    → List String
    → Dict (List String)
    → Io (Dict (List String))
unfolding vmids_or_none macs_of_vms pure ◌>>=◌
discover_from env c ticket settings [] macs = pure macs
discover_from env c ticket settings (node ∷ nodes) macs = do
  vmids ← vmids_or_none env c ticket node
  found ← macs_of_vms env c ticket settings node vmids
  discover_from env c ticket settings nodes (insert node found macs)

unfoldable pub discover_sdn_macs :
    Env → PveClient → String → SdnFdbSettings → Io (Dict (List String))
unfolding discover_from
discover_sdn_macs env c ticket settings = discover_from env c ticket settings settings.node_names []
