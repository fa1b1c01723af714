-- ===== src/Services/CodexService/Ensure.antt =====
-- pkg/services/codex_service.go: `EnsureCodexAppServer`. What the system answers at each of its
-- steps is in `Occasion`.
pub mod Started
pub mod Spawned
pub mod Starts
pub mod Records
pub mod Reused
use chatta.Prelude.{
  if◌then◌else◌, Bool, true, false, not, ◌&&◌, ◌||◌, Option, none, some, List, [], ◌∷◌,
}
use chatta.Prelude.Int.{ℤ, pos, ltb_ℤ}
use chatta.Text.Basic.{Text, codes, eq_text, has_prefix}
use chatta.Text.Trim.{trim_space}
use chatta.Dal.State.{is_empty}
use chatta.Dal.Process.{Processes}
use chatta.Services.Control.{Outcome}
use chatta.Services.CodexService.Files.{
  ◌>>=◌, ◌>>◌, Look, Identity, ServiceRecord, ServiceError, failed, choose_one, different_endpoint,
  process_mismatch, identity_mismatch, exited, still_alive, unidentified, unsupported_version,
  Result, ok, err, guard, of_outcome, of_fault, probe_codex_endpoint,
  normalize_managed_codex_socket, process_matches, record_process_matches, stop_started_server,
  remove_stale_socket,
}
use chatta.Services.CodexService.Occasion.{
  healthy_state, started_state, ServiceStatus, Occasion, Ensured, nothing_done, same_identity,
  status_for, reuse_configured, Prepared, prepare,
}

-- `record != nil && record.Endpoint == endpoint && recordProcessMatches(record)`
abbrev pub owns_endpoint : Processes → Text → Option ServiceRecord → Bool
owns_endpoint p endpoint none = false
owns_endpoint p endpoint (some r) = eq_text r.endpoint endpoint && record_process_matches p r

-- The second probe, where the socket's mode could be set right; and the path whose mode changed.
abbrev pub reprobed :
    Look → Text → Result Identity → Result (Option Text) → Option Text × Result Identity
reprobed later endpoint first (err e) = (none, first)
reprobed later endpoint first (ok changed) = (changed, probe_codex_endpoint later endpoint)

abbrev pub probed_again : Occasion → Prepared → Result Identity → Option Text × Result Identity
probed_again o p (ok identity) = (none, ok identity)
probed_again o p (err e) =
    if owns_endpoint o.at_probe.processes p.endpoint p.record_found
    then reprobed o.at_second_probe p.endpoint (err e)
        (normalize_managed_codex_socket o.at_normalize p.socket)
    else (none, err e)

abbrev pub reuse_recorded : Processes → Text → Identity → ServiceRecord → Result ServiceStatus
reuse_recorded ps endpoint identity r =
    let matches = record_process_matches ps r in
    let here = eq_text r.endpoint endpoint in
    if matches && not here
    then err different_endpoint
    else if ltb_ℤ (pos 0) r.pid && (not matches || not here)
    then err process_mismatch
    else if not (same_identity r.identity identity)
    then err identity_mismatch
    else ok (status_for endpoint r.pid r.cli_version identity healthy_state true)

-- The endpoint answers.
unfoldable pub reuse_managed :
    Processes → Text → Identity → Option ServiceRecord → Result ServiceStatus
reuse_managed ps endpoint identity none =
    ok (status_for endpoint (pos 0) (codes "unknown") identity healthy_state true)
reuse_managed ps endpoint identity (some r) = reuse_recorded ps endpoint identity r

-- `codexCLIVersion`
unfoldable pub codex_cli_version : Outcome Text → Result Text
codex_cli_version output = do
  out ← of_outcome output
  let version = trim_space out
  guard (has_prefix version (codes "codex-cli ")) (unsupported_version version)
  ok version

-- The loop that waits for a started server.
abbrev pub look_result : Result (Option Text) → Result Identity → Result Identity
look_result (err e) probed = err e
look_result (ok changed) probed = probed

abbrev pub next_look : Bool → Result Identity → Result Identity → Result Identity
next_look false probed later = err exited
next_look true (ok identity) later = ok identity
next_look true (err e) later = later

unfoldable pub await_server : List Look → Text → ℤ → Text → Text → Text → Text → Result Identity
await_server [] ending pid start binary endpoint socket = err (failed ending)
await_server (l ∷ ls) ending pid start binary endpoint socket =
    next_look (process_matches l.processes pid start binary endpoint)
      (look_result (normalize_managed_codex_socket l socket) (probe_codex_endpoint l endpoint))
      (await_server ls ending pid start binary endpoint socket)

abbrev pub new_record : Text → Text → Text → ℤ → Text → Identity → ServiceRecord
new_record endpoint binary version pid start identity = record {
  version = pos 1;
  pid = pid;
  start = start;
  endpoint = endpoint;
  executable = binary;
  cli_version = version;
  identity = identity;
}

-- A started server that is not ready is stopped, and its socket removed.
abbrev pub given_up : Occasion → Prepared → Text → ℤ → Text → ServiceError → Ensured
given_up o p binary pid start e = record {
  normalized = none;
  cleared = true;
  spawned = some pid;
  signals = stop_started_server o.at_stop o.at_kill pid start binary p.endpoint;
  recorded = none;
  result = err e;
}

abbrev pub written : Occasion → Prepared → Text → Text → ℤ → Text → Identity → Option Text → Ensured
written o p binary version pid start identity (some e) = given_up o p binary pid start (failed e)
written o p binary version pid start identity none = record {
  normalized = none;
  cleared = true;
  spawned = some pid;
  signals = [];
  recorded = some (new_record p.endpoint binary version pid start identity);
  result = ok (status_for p.endpoint pid version identity started_state false);
}

abbrev pub awaited : Occasion → Prepared → Text → Text → ℤ → Text → Result Identity → Ensured
awaited o p binary version pid start (err e) = given_up o p binary pid start e
awaited o p binary version pid start (ok identity) =
    written o p binary version pid start identity o.write_record

-- `stopStartedServer(pid, "", ...)` where no start time was found.
abbrev pub launched : Occasion → Prepared → Text → Text → ℤ → Text → Ensured
launched o p binary version pid [] = record {
  normalized = none;
  cleared = true;
  spawned = some pid;
  signals = stop_started_server o.at_stop o.at_kill pid [] binary p.endpoint;
  recorded = none;
  result = err (unidentified pid);
}
launched o p binary version pid (c ∷ start) =
    awaited o p binary version pid (c ∷ start)
      (await_server o.looks o.ending pid (c ∷ start) binary p.endpoint p.socket)

abbrev pub cleared_then : Result ServiceStatus → Ensured
cleared_then r = record (nothing_done r) { cleared = true }

-- What is to be started: the CLI and its version.
unfoldable pub find_cli : Occasion → Result (Text × Text)
find_cli o = do
  binary ← of_outcome o.binary
  version ← codex_cli_version o.version_output
  of_fault o.prepare_log
  ok (binary, version)

abbrev pub spawned_as : Occasion → Prepared → Text → Text → Result ℤ → Ensured
spawned_as o p binary version (err e) = cleared_then (err e)
spawned_as o p binary version (ok pid) =
    launched o p binary version pid (o.at_start.process_start pid)

abbrev pub start_cli : Occasion → Prepared → Result (Text × Text) → Ensured
start_cli o p (err e) = cleared_then (err e)
start_cli o p (ok (binary, version)) = spawned_as o p binary version (of_outcome o.spawn)

abbrev pub start_server : Occasion → Prepared → Result (Unit {0}) → Ensured
start_server o p (err e) = nothing_done (err e)
start_server o p (ok done) = start_cli o p (find_cli o)

abbrev pub alive_record : Processes → Option ServiceRecord → Option ℤ
alive_record ps none = none
alive_record ps (some r) = if record_process_matches ps r then some r.pid else none

abbrev pub unless_alive : Occasion → Prepared → Option ℤ → Ensured
unless_alive o p (some pid) = nothing_done (err (still_alive pid))
unless_alive o p none = start_server o p (remove_stale_socket o.at_decision p.socket)

abbrev pub decide : Occasion → Prepared → Option Text × Result Identity → Ensured
decide o p (changed, ok identity) =
    record (nothing_done
      (reuse_managed o.at_decision.processes p.endpoint identity p.record_found)) {
        normalized = changed;
      }
decide o p (changed, err e) =
    record (unless_alive o p (alive_record o.at_decision.processes p.record_found)) {
      normalized = changed;
    }

abbrev pub ensure_prepared : Occasion → Result Prepared → Ensured
ensure_prepared o (err e) = nothing_done (err e)
ensure_prepared o (ok p) =
    decide o p (probed_again o p (probe_codex_endpoint o.at_probe p.endpoint))

-- The service home and the configured endpoint are empty where they are not given.
unfoldable pub ensure_codex_app_server : Occasion → Text → Text → Ensured
ensure_codex_app_server o service_home [] = ensure_prepared o (prepare o)
ensure_codex_app_server o service_home (c ∷ configured) =
    if not (is_empty service_home)
    then nothing_done (err choose_one)
    else nothing_done (reuse_configured o.at_probe (c ∷ configured))
