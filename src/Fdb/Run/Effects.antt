-- ===== src/Fdb/Run/Effects.antt =====
-- infra/pulumi/modules/sdn_fdb.py: what `ensure_sdn_fdb` may do to the cluster.
use rke2_lab.Base.{ℕ, String, ◌≡◌, refl, Bool, Option, none, some, List, [], ◌∷◌, All, ◌==◌}
use mathlib.Core.List.{Memᴰ}
use rke2_lab.Base.Dict.{Dict, insert}
use rke2_lab.Py.Value.{Value}
use rke2_lab.Py.Effect.{HttpRequest, Event, sent, ssh_ran, printed, Env, Io, emit, for_each}
use rke2_lab.Py.Effect.Rules.{
  Emits, Emits-pure, Emits-raise, Emits-bind, Emits-lift, Emits-emit, Emits-if, Emits-read_file,
  Emits-ssh_session, emits_rules,
}
use rke2_lab.Cleanup.Client.{PveClient, make_client, node_vmids, node_vm_mac}
use rke2_lab.Cleanup.Client.Effects.{IsRead, send-get, auth-Emits, node_vmids-Emits}
use rke2_lab.Fdb.Settings.{SdnFdbSettings, ssh_host_for, checked_password, read_fallback_password}
use rke2_lab.Fdb.Ssh.{host_ssh}
use rke2_lab.Fdb.Lines.{fdb_lines_for}
use rke2_lab.Fdb.Discover.{
  overlay_vms, macs_on, vmids_or_none, macs_of_vms, discover_from, discover_sdn_macs,
}
use rke2_lab.Fdb.Install.{expected_macs, install_script, verify_node, install_node}
use rke2_lab.Fdb.Run.{client_settings, install_all, ensure_sdn_fdb}

module _ {P : Event → Type 0} (env : Env) (settings : SdnFdbSettings) where
  password_checked : (path : String) (text : Option String) → Emits P (checked_password path text)
  unfolding checked_password
  password_checked path none = Emits-raise _
  password_checked path (some text) = search emits_rules depth 4

  password-Emits : Emits P (read_fallback_password env settings)
  unfolding read_fallback_password
  password-Emits =
      Emits-if (settings.fallback_password_file == "") _ _ (λ _. Emits-raise _)
        (λ _.
          Emits-bind _ _ (Emits-read_file env _) (password_checked settings.fallback_password_file))

  module _ (node : String)
      (runs : (command : String) → P (ssh_ran (ssh_host_for settings node) command)) where
    host_ssh-Emits : (remote : String) → Emits P (host_ssh env settings node remote)
    unfolding host_ssh
    host_ssh-Emits remote =
        Emits-if env.has_pexpect _ _
          (λ _. Emits-bind _ _ password-Emits (λ password.
            Emits-bind _ _ (Emits-ssh_session env _ _ (runs _)) (λ session. Emits-pure _)))
          (λ _. Emits-raise _)

    verify_node-Emits : (macs : List String) → Emits P (verify_node env settings node macs)
    unfolding verify_node
    verify_node-Emits [] = Emits-pure []
    verify_node-Emits (m ∷ ms) = Emits-bind _ _ (host_ssh-Emits _) (λ result. Emits-pure _)

    install_node-Emits : (macs : Dict (List String)) → Emits P (install_node env settings node macs)
    unfolding install_node
    install_node-Emits macs =
        Emits-bind _ _ (Emits-lift (fdb_lines_for node settings macs)) (λ found.
          Emits-bind _ _ (host_ssh-Emits (install_script env settings found)) (λ result.
            Emits-bind _ _ (verify_node-Emits (expected_macs found)) (λ lines. Emits-pure _)))

  module _ (c : PveClient) (reads : (r : HttpRequest) → IsRead c r → P (sent r))
      (prints : (text : String) → P (printed text)) (ticket : String) where
    mac-Emits : (node : String) (vmid nic : ℕ) → Emits P (node_vm_mac env c ticket node vmid nic)
    unfolding node_vm_mac
    mac-Emits node vmid nic =
        Emits-bind _ _ (send-get env c reads _ ticket "" none) (λ reply. Emits-pure _)

    macs_on-Emits : (node : String) (vms : List (ℕ × ℕ)) → Emits P (macs_on env c ticket node vms)
    unfolding macs_on
    macs_on-Emits node [] = Emits-pure []
    macs_on-Emits node ((vmid, nic) ∷ rest) =
        Emits-bind _ _ (mac-Emits node vmid nic)
          (λ mac. Emits-bind _ _ (macs_on-Emits node rest) (λ more. Emits-pure _))

    print-Emits : (text : String) → Emits P (emit (printed text))
    print-Emits text = Emits-emit (printed text) (prints text)

    vmids-Emits : (node : String) → Emits P (node_vmids env c ticket node)
    vmids-Emits node = node_vmids-Emits env c reads ticket node

    vmids_or_none-Emits : (node : String) → Emits P (vmids_or_none env c ticket node)
    unfolding vmids_or_none
    vmids_or_none-Emits node = search (emits_rules, print-Emits, vmids-Emits) depth 12

    macs_of_vms-Emits :
        (node : String) (vmids : Option (List Value))
        → Emits P (macs_of_vms env c ticket settings node vmids)
    unfolding macs_of_vms
    macs_of_vms-Emits node none = Emits-pure []
    macs_of_vms-Emits node (some vmids) =
        macs_on-Emits node (overlay_vms vmids settings.sdn_nic_index)

    discover_from-Emits :
        (nodes : List String) (macs : Dict (List String))
        → Emits P (discover_from env c ticket settings nodes macs)
    unfolding discover_from
    discover_from-Emits [] macs = Emits-pure macs
    discover_from-Emits (node ∷ nodes) macs = Emits-bind _ _ (vmids_or_none-Emits node) (λ vmids.
        Emits-bind _ _ (macs_of_vms-Emits node vmids)
          (λ found. discover_from-Emits nodes (insert node found macs)))

module _ {ℓ κ} {A : Type ℓ} {B : Type κ} {P : Event → Type 0} where
  -- Each call may use that its argument is in the list.
  for_each_in :
      (f : A → Io B) (xs : List A) → ((a : A) → Memᴰ a xs → Emits P (f a)) → Emits P (for_each f xs)
  unfolding for_each
  for_each_in f [] k = Emits-pure []
  for_each_in f (x ∷ xs) k = Emits-bind (f x) _ (k x (Memᴰ.head refl)) (λ y.
      Emits-bind (for_each f xs) _ (for_each_in f xs (λ a m. k a (Memᴰ.tail m)))
        (λ ys. Emits-pure (y ∷ ys)))

-- A read, the ticket's request, a message, or a command on the host of a configured node.
abbrev pub Installs : SdnFdbSettings → PveClient → Event → Type 0
Installs settings c (sent r) = IsRead c r
Installs settings c (printed text) = Unit
Installs settings c (ssh_ran host command) =
    (node : String) × Memᴰ node settings.node_names × (host ≡ ssh_host_for settings node)
Installs settings c _ = ⊥

install_all-Installs :
    (env : Env) (settings : SdnFdbSettings)
    → Emits
        (Installs settings (make_client env (client_settings settings)))
        (install_all env settings)
unfolding install_all discover_sdn_macs
install_all-Installs env settings =
    let c = make_client env (client_settings settings) in
    Emits-bind _ _ (auth-Emits env c (λ r q. q) (λ text. tt)) (λ ticket.
      Emits-bind _ _
        (discover_from-Emits env settings c (λ r q. q) (λ text. tt) ticket.0 settings.node_names [])
        (λ macs.
          Emits-bind _ _
            (for_each_in _ settings.node_names
              (λ node m. install_node-Emits env settings node (λ command. (node, m, refl)) macs))
            (λ lines. Emits-pure _)))

-- Whatever the servers answer, and whether it returns or raises, `ensure_sdn_fdb` changes nothing
-- over the API: it sends only GET requests and the POST for the ticket, writes no local file, and
-- runs commands only on the SSH hosts of the configured nodes.
pub ensure_sdn_fdb-Installs :
    (env : Env) (settings : SdnFdbSettings) (dry_run : Bool)
    → All
        (Installs settings (make_client env (client_settings settings)))
        (ensure_sdn_fdb env settings dry_run []).1
unfolding ensure_sdn_fdb
ensure_sdn_fdb-Installs env settings dry_run =
    (Emits-if dry_run _ _ (λ _. Emits-pure _) (λ _. install_all-Installs env settings)).at [] tt
