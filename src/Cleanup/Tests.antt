-- ===== src/Cleanup/Tests.antt =====
-- Runs of infra/pulumi/modules/pve_cleanup.py against a small cluster.
use rke2_lab.Base.{◌≡◌, refl, ◌↔◌, ◌≤◌, ◌+◌, true, false, some, none, List, [], ◌∷◌, All, length}
use rke2_lab.Fake.{fake, runtime, answer}
use rke2_lab.Py.Value.{Value, obj, str, end, field}
use rke2_lab.Py.Text.{last_number}
use rke2_lab.Py.Effect.{ok, Env}
use rke2_lab.Cleanup.Settings.{
  CleanupSettings, ssh_host_for, checked_password, read_configured, read_fallback_password,
}
use rke2_lab.Cleanup.Mac.{hex_pairs, find_mac}
use rke2_lab.Cleanup.Client.{
  PveClient, make_client, send, try_ticket, auth, hashed, vmid_of, collect_vmids, node_vmids,
  mac_of_config, node_vm_mac, read_content, select_content, node_content, exit_text, read_task,
  task_outcome, poll_task, wait_task, delete_content,
}
use rke2_lab.Cleanup.Client.Tasks.{EndsWell, wait_task_bounded, wait_task-EndsWell}
use rke2_lab.Cleanup.Orphans.{
  Orphan, held, named_vmid, owner_of, seen, add_new, scan_key, scan_entry, scan_content,
  listed_content, scan_stores, find_orphans,
}
use rke2_lab.Cleanup.Orphans.Found.{Unowned, AllDistinct, find_orphans-Unowned}
use rke2_lab.Cleanup.Remove.{
  ssh_exit_marker, dialogue, verdict, remote_command, session_verdict, remove_volume_via_ssh,
}
use rke2_lab.Cleanup.Remove.Verdict.{verdict-success}
use rke2_lab.Cleanup.Run.{
  put_error, error_of, delete_each, failed, nodes_of, attempt, combined, retry_each, announce,
  fall_back, outcome_line, result_lines, apply_orphans, clean_node, clean_orphans,
}
use rke2_lab.Cleanup.Run.Safety.{
  IsHarmless, clean_orphans_preview, RemovesFound, clean_node-RemovesFound,
}

abbrev settings : CleanupSettings
settings = record {
  endpoint = "https://pve";
  username = "root@pam";
  password = "pw";
  node_names = "pve01" ∷ [];
  datastore_ids = "local-lvm" ∷ [];
  insecure = true;
  fallback_password_file = some "/root/.proxmoxpass";
  node_ssh_hosts = none;
}

abbrev client : PveClient
client = record { settings = settings; host = "pve" }

abbrev left : List Orphan
left =
    record { node = "pve01"; datastore = "local-lvm"; volume = "vm-2101-cloudinit" }
    ∷ record { node = "pve01"; datastore = "local-lvm"; volume = "base-2002-disk-0" }
    ∷ []

searched : Unit {0}
unfolding runtime send collect_vmids vmid_of hashed node_vmids read_content select_content
    node_content held named_vmid owner_of seen add_new scan_key scan_entry scan_content
    listed_content scan_stores find_orphans
searched = tt

-- The volume without a `vm-` name counts too, since its entry has a VMID.
finds : (find_orphans fake client "PVE:t" "pve01" []).0 ≡ ok left
unfolding searched
finds = refl

ran : Unit {0}
unfolding searched make_client try_ticket auth exit_text read_task task_outcome poll_task wait_task
    delete_content checked_password read_configured read_fallback_password ssh_host_for dialogue
    verdict remote_command session_verdict remove_volume_via_ssh put_error error_of delete_each
    failed nodes_of attempt combined retry_each announce fall_back outcome_line result_lines
    apply_orphans clean_node clean_orphans
ran = tt

-- The API refuses with status 501, and the host removes both.
cleans :
    (clean_orphans fake settings true []).0
    ≡ ok (
        "Proxmox preflight: 2 orphan storage volume(s) found on node 'pve01'."
        ∷ "  removed pve01:local-lvm:vm-2101-cloudinit"
        ∷ "  removed pve01:local-lvm:base-2002-disk-0" ∷ [])
unfolding ran
cleans = refl

reads_mac : (node_vm_mac fake client "PVE:t" "pve01" 2001 1 []).0 ≡ ok "bc:24:11:00:aa:01"
unfolding runtime send hex_pairs find_mac mac_of_config node_vm_mac
reads_mac = refl

wait_task_bounded_example : length (wait_task fake client "PVE:t" "UPID" "pve01" []).1 ≤ 0 + 60
wait_task_bounded_example = wait_task_bounded fake client "PVE:t" "UPID" "pve01" []

find_orphans-Unowned_example :
    (existing : List Value) × ((node_vmids fake client "PVE:t" "pve01" []).0 ≡ ok existing)
    × All
        (Unowned fake client "PVE:t" "pve01"
          ("local-lvm" ∷ [])
          existing
          (node_vmids fake client "PVE:t" "pve01" []).1)
        left
    × AllDistinct left
find_orphans-Unowned_example = find_orphans-Unowned fake client "PVE:t" "pve01" [] left finds

verdict-success_example :
    (verdict "pve01" "local-lvm:vm-2101-disk-0" "PVE_CLEANUP_SSH_EXIT=5" false (some 0) ≡ "")
    ↔ ((false ≡ false) × (last_number ssh_exit_marker "PVE_CLEANUP_SSH_EXIT=5" ≡ some 0))
verdict-success_example =
    verdict-success "pve01" "local-lvm:vm-2101-disk-0" "PVE_CLEANUP_SSH_EXIT=5" false (some 0)

clean_orphans_preview_example :
    All (IsHarmless (make_client fake settings)) (clean_orphans fake settings false []).1
clean_orphans_preview_example = clean_orphans_preview fake settings

clean_node-RemovesFound_example :
    All
      (RemovesFound fake client "PVE:t" "pve01" [])
      (clean_node fake client "PVE:t" "csrf" true "pve01" []).1
clean_node-RemovesFound_example = clean_node-RemovesFound fake client "PVE:t" "csrf" "pve01" true []

-- A cluster whose tasks have all stopped well.
abbrev finished : Env
finished = record fake {
  http = λ h r. answer (obj (field "status" (str "stopped") (field "exitstatus" (str "OK") end)));
}

done : (wait_task finished client "PVE:t" "UPID" "pve01" []).0 ≡ ok ""
unfolding ran
done = refl

wait_task-EndsWell_example :
    EndsWell finished (wait_task finished client "PVE:t" "UPID" "pve01" []).1
wait_task-EndsWell_example = wait_task-EndsWell finished client "PVE:t" "UPID" "pve01" [] done
