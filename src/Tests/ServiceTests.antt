-- ===== src/Tests/ServiceTests.antt =====
-- Tests of the managed app-server.
use chatta.Prelude.{if◌then◌else◌, ◌≡◌, refl, ◌≢◌, ◌↔◌, true, false, none, some, [], ◌∷◌, ◌++◌}
use chatta.Prelude.Int.{pos}
use chatta.Text.Basic.{Text, codes, eq_text, has_prefix, trim_prefix, contains, contains_text}
use chatta.Text.Path.{split_slash, clean_rooted}
use chatta.Text.Space.{is_space}
use chatta.Text.Trim.{trim_space, trim, trim_left, trim_right}
use chatta.Text.Utf8.{byte_len, rune_len}
use chatta.Dal.Process.{Processes}
use chatta.Services.Control.{done, refused}
use chatta.Services.CodexService.Endpoint.{
  IsPlainPath, has_parent_segment, validate_local_endpoint, validate_local_endpoint_iff,
}
use chatta.Services.CodexService.Files.{
  unidentified, FileInfo, Stat, missing, info, Identity, Look, ServiceRecord, ok, err,
  probe_codex_endpoint, normalize_managed_codex_socket, secure_service_home,
  read_codex_service_record, process_matches, remove_stale_socket,
}
use chatta.Services.CodexService.Occasion.{ServiceStatus, Occasion, healthy_state, prepare}
use chatta.Services.CodexService.Ensure.{
  ensure_codex_app_server, await_server, codex_cli_version, find_cli, reuse_managed,
}
use chatta.Services.CodexService.Ensure.Started.{IsSpawned}
use chatta.Services.CodexService.Ensure.Starts.{
  ensure_codex_app_server-IsSpawned, ensure_codex_app_server-unidentified,
}
use chatta.Tests.Coding.Records.{record_codec}

validate_local_endpoint_iff_example :
    (validate_local_endpoint (codes "unix:///s/a.sock") ≡ none)
    ↔ ((rest : Text) × (codes "unix:///s/a.sock" ≡ codes "unix:///" ++ rest) × IsPlainPath rest)
validate_local_endpoint_iff_example = validate_local_endpoint_iff (codes "unix:///s/a.sock")

no_way_up : validate_local_endpoint (codes "unix:///s/../a") ≢ none
unfolding validate_local_endpoint has_prefix trim_prefix clean_rooted split_slash eq_text byte_len
    rune_len has_parent_segment contains
no_way_up = λ h. cc

abbrev plain_file : FileInfo
plain_file = record {
  is_dir = false;
  is_symlink = false;
  is_socket = false;
  is_regular = true;
  private = true;
  own = true;
}

abbrev mac : Identity
mac = record { codex_home = codes "/c"; platform_family = codes "unix"; platform_os = [] }

abbrev app_server : Processes
app_server = record {
  process_start = λ pid. codes "t5";
  signalled = λ pid. true;
  process_command = λ pid. codes "codex app-server --listen unix:///s/app-server.sock";
}

abbrev no_process : Processes
no_process = record {
  process_start = λ pid. [];
  signalled = λ pid. false;
  process_command = λ pid. [];
}

-- The service home without a socket and without a record.
abbrev at_path : Text → Stat
at_path path =
    if eq_text path (codes "/s") then info (record plain_file { is_dir = true }) else missing

abbrev quiet : Look
quiet = record {
  lstat = at_path;
  stat = at_path;
  eval_symlinks = λ path. done path;
  dir = λ path. codes "/s";
  initialize = λ path. refused (codes "no answer");
  chmod = λ path. none;
  remove = λ path. none;
  processes = no_process;
}

-- The socket is there, and the server answers.
abbrev file_at : Text → Stat
file_at path =
    if eq_text path (codes "/s")
    then info (record plain_file { is_dir = true })
    else if eq_text path (codes "/s/app-server.sock")
    then info (record plain_file { is_socket = true })
    else info plain_file

abbrev answering : Look
answering = record quiet {
  lstat = file_at;
  stat = file_at;
  initialize = λ path. done mac;
  processes = app_server;
}

abbrev first_time : Occasion
first_time = record {
  home = done (codes "/s");
  mkdir = none;
  lock = none;
  codec = record_codec;
  record_content = refused (codes "missing");
  at_home = quiet;
  at_probe = quiet;
  at_normalize = quiet;
  at_second_probe = quiet;
  at_decision = quiet;
  binary = done (codes "/bin/codex");
  version_output = done (codes "codex-cli 1");
  prepare_log = none;
  spawn = done (pos 5);
  at_start = app_server;
  looks = answering ∷ [];
  ending = codes "late";
  write_record = none;
  at_stop = app_server;
  at_kill = app_server;
  at_cleanup = quiet;
}

starts : (ensure_codex_app_server first_time [] []).spawned ≡ some (pos 5)
unfolding ensure_codex_app_server prepare secure_service_home validate_local_endpoint has_prefix
    trim_prefix clean_rooted split_slash eq_text byte_len rune_len has_parent_segment contains
    read_codex_service_record probe_codex_endpoint remove_stale_socket find_cli codex_cli_version
    trim_space trim trim_left trim_right is_space await_server process_matches contains_text
    normalize_managed_codex_socket
starts = refl

ensure_codex_app_server-IsSpawned_example :
    IsSpawned first_time (pos 5) (ensure_codex_app_server first_time [] [])
ensure_codex_app_server-IsSpawned_example =
    ensure_codex_app_server-IsSpawned first_time [] [] (pos 5) starts

-- `ps` does not answer for the new process.
abbrev without_ps : Occasion
without_ps = record first_time { at_start = no_process }

starts_without_ps : (ensure_codex_app_server without_ps [] []).spawned ≡ some (pos 5)
unfolding ensure_codex_app_server prepare secure_service_home validate_local_endpoint has_prefix
    trim_prefix clean_rooted split_slash eq_text byte_len rune_len has_parent_segment contains
    read_codex_service_record probe_codex_endpoint remove_stale_socket find_cli codex_cli_version
    trim_space trim trim_left trim_right is_space
starts_without_ps = refl

ensure_codex_app_server-unidentified_example :
    let e = ensure_codex_app_server without_ps [] [] in
    (e.signals ≡ []) × (e.recorded ≡ none) × (e.result ≡ err (unidentified (pos 5)))
ensure_codex_app_server-unidentified_example =
    ensure_codex_app_server-unidentified without_ps [] [] (pos 5) starts_without_ps refl

abbrev kept_record : ServiceRecord
kept_record = record {
  version = pos 1;
  pid = pos 5;
  start = codes "t5";
  endpoint = codes "unix:///s/app-server.sock";
  executable = codes "/bin/codex";
  cli_version = codes "codex-cli 1";
  identity = mac;
}

abbrev second_time : Occasion
second_time = record first_time {
  record_content = done (record_codec.encode kept_record);
  at_home = answering;
  at_probe = answering;
  at_decision = answering;
}

abbrev healthy : ServiceStatus
healthy = record {
  endpoint = codes "unix:///s/app-server.sock";
  pid = pos 5;
  version = codes "codex-cli 1";
  identity = mac;
  state = healthy_state;
  reused = true;
}

reuses : (ensure_codex_app_server second_time [] []).result ≡ ok healthy
unfolding ensure_codex_app_server prepare secure_service_home validate_local_endpoint has_prefix
    trim_prefix clean_rooted split_slash eq_text byte_len rune_len has_parent_segment contains
    read_codex_service_record probe_codex_endpoint process_matches contains_text trim_space trim
    trim_left trim_right is_space reuse_managed
reuses = refl
