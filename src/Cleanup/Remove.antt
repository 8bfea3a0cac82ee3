-- ===== src/Cleanup/Remove.antt =====
-- infra/pulumi/modules/pve_cleanup.py: `_remove_volume_via_ssh`. A password prompt cannot raise
-- `pexpect.TIMEOUT`, since each `expect` lists it among its patterns.
pub mod Verdict
use rke2_lab.Base.{
  ℕ, zero, suc, String, ◌<>◌, Bool, true, false, Option, none, some, List, [], ◌∷◌, join, ◌==◌,
  if◌then◌else◌,
}
use rke2_lab.Py.Text.{show_ℕ, last_text, replace, words, last_number}
use rke2_lab.Py.Result.{import_error}
use rke2_lab.Py.Effect.{Env, Session, prompt, timeout, eof, Io, pure, raise, ◌>>=◌, ssh_session}
use rke2_lab.Cleanup.Settings.{CleanupSettings, ssh_host_for, read_fallback_password}

abbrev pub ssh_exit_marker : String
ssh_exit_marker = "PVE_CLEANUP_SSH_EXIT="

-- `"\n".join(output_parts)` and `timed_out`
unfoldable pub dialogue : Session → String × Bool
dialogue s = elim s.first [
  | prompt ↦ (s.before_first <> ("\n" <> s.before_second), s.second_timed_out)
  | timeout ↦ (s.before_first, true)
  | eof ↦ (s.before_first, false)
]

-- `" ".join(out.split())[-400:]`
abbrev pub tail_of : String → String
tail_of out = last_text 400 (join " " (words out))

abbrev pub timeout_text : String → String → String
timeout_text host tail =
    "ssh to " <> (host <> (" timed out after 30s" <> (if tail == "" then "" else ": " <> tail)))

abbrev pub exit_text : String → ℕ → String → String
exit_text label zero tail = ""
exit_text label (suc n) tail =
    "pvesm free " <> (label <> (" exited " <> (show_ℕ (suc n) <> (": " <> tail))))

abbrev pub no_status_text : String → String → String
no_status_text host tail = "ssh to " <> (host <> (" returned no remote exit status: " <> tail))

abbrev pub unmarked_text : String → Option ℕ → String → String
unmarked_text host none tail = no_status_text host tail
unmarked_text host (some zero) tail = no_status_text host tail
unmarked_text host (some (suc n)) tail =
    "ssh to " <> (host <> (" failed (exit " <> (show_ℕ (suc n) <> ("): " <> tail))))

abbrev pub finished_text : String → String → Option ℕ → Option ℕ → String → String
finished_text host label (some code) exitstatus tail = exit_text label code tail
finished_text host label none exitstatus tail = unmarked_text host exitstatus tail

-- What the session's redacted output and exit status come to.
unfoldable pub verdict :
    (host label : String) → (out : String) (timed_out : Bool) → Option ℕ → String
unfolding last_number
verdict host label out timed_out exitstatus =
    if timed_out
    then timeout_text host (tail_of out)
    else finished_text host label (last_number ssh_exit_marker out) exitstatus (tail_of out)

unfoldable pub remote_command : Env → String → String
remote_command env label =
    let cmd = "pvesm free " <> (env.quote label <> (" 2>&1; echo " <> (ssh_exit_marker <> "$?"))) in
    "bash -lc " <> env.quote cmd

unfoldable pub session_verdict : (host label password : String) → Session → String
unfolding dialogue replace verdict
session_verdict host label password s =
    let (output, timed_out) = dialogue s in
    verdict host label (replace password "<redacted>" output) timed_out s.exitstatus

unfoldable pub remove_volume_via_ssh : Env → CleanupSettings → String → String → Io String
unfolding remote_command session_verdict read_fallback_password ssh_host_for pure ◌>>=◌
remove_volume_via_ssh env settings label node =
    if env.has_pexpect
    then (do
      password ← read_fallback_password env settings
      session ← ssh_session env (ssh_host_for settings node) (remote_command env label)
      pure (session_verdict (ssh_host_for settings node) label password session))
    else raise import_error
