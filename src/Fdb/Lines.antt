-- ===== src/Fdb/Lines.antt =====
-- infra/pulumi/modules/sdn_fdb.py: `_fdb_lines_for`.
pub mod Remotes
pub mod Total
use rke2_lab.Base.{
  String, ◌<>◌, Bool, Option, none, some, List, [], ◌∷◌, ◌++◌, map, ◌==◌, if◌then◌else◌,
}
use rke2_lab.Base.Dict.{Dict, lookup}
use rke2_lab.Py.Result.{Result, ok, err, ◌>>=◌}
use rke2_lab.Fdb.Settings.{SdnFdbSettings, underlay_for}

abbrev pub multicast_vrrp_mac : String
multicast_vrrp_mac = "33:33:00:00:01"

abbrev pub broadcast_mac : String
broadcast_mac = "ff:ff:ff:ff:ff:ff"

abbrev or_nil : Option (List String) → List String
or_nil none = []
or_nil (some xs) = xs

-- `macs.get(remote, [])`
unfoldable pub macs_of : String → Dict (List String) → List String
unfolding lookup
macs_of node macs = or_nil (lookup node macs)

abbrev pub line_for : String → String → String
line_for peer mac = mac <> (" " <> peer)

unfoldable pub remote_lines : String → List String → List String
remote_lines peer macs =
    map (line_for peer) macs
    ++ (line_for peer multicast_vrrp_mac ∷ line_for peer broadcast_mac ∷ [])

unfoldable pub lines_for_each :
    String → SdnFdbSettings → Dict (List String) → List String → Result (List String)
unfolding underlay_for macs_of remote_lines
lines_for_each node settings macs [] = ok []
lines_for_each node settings macs (remote ∷ remotes) =
    let rest = lines_for_each node settings macs remotes in
    if remote == node then rest else (do
      peer ← underlay_for settings remote
      lines ← rest
      ok (remote_lines peer (macs_of remote macs) ++ lines))

unfoldable pub fdb_lines_for : String → SdnFdbSettings → Dict (List String) → Result (List String)
unfolding lines_for_each
fdb_lines_for node settings macs = lines_for_each node settings macs settings.node_names
