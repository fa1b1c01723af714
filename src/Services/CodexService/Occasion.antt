-- ===== src/Services/CodexService/Occasion.antt =====
-- pkg/services/codex_service.go: what `EnsureCodexAppServer` gets to know and does, the configured
-- endpoint, and the steps up to the service record. What the system answers at each step is in
-- `Occasion`, and what is done to files and processes in `Ensured`.
use chatta.Prelude.{if◌then◌else◌, Bool, true, false, ◌&&◌, Option, none, some, List, [], ◌∷◌, ◌++◌}
use chatta.Prelude.Int.{ℤ, pos}
use chatta.Text.Basic.{Text, codes, eq_text}
use chatta.Dal.AtomicFile.{Bytes}
use chatta.Dal.State.{Codec}
use chatta.Dal.Process.{Processes, Signal}
use chatta.Services.Control.{Outcome}
use chatta.Services.CodexService.Endpoint.{validate_local_endpoint}
use chatta.Services.CodexService.Files.{
  Look, Identity, ServiceRecord, absent, unhealthy, Result, ok, err, ◌>>=◌, ◌>>◌, of_outcome,
  of_fault, of_endpoint, probe_codex_endpoint, secure_service_home, read_codex_service_record,
}

pub data ServiceState : Type 0 where
  reused_state healthy_state started_state : ServiceState

pub record ServiceStatus : Type 0 where
  pub endpoint : Text
  pub pid : ℤ
  pub version : Text
  pub identity : Identity
  pub state : ServiceState
  pub reused : Bool

-- The absolute service home; the looks at the successive steps; the lookup of the CLI and its
-- `--version`; and, for a server that was started, the looks of the ticker up to the end of the
-- time or of the context, with its error, and those of the stop.
pub record Occasion : Type 0 where
  pub home : Outcome Text
  pub mkdir : Option Text
  pub lock : Option Text
  pub codec : Codec ServiceRecord
  pub record_content : Outcome Bytes
  pub at_home : Look
  pub at_probe : Look
  pub at_normalize : Look
  pub at_second_probe : Look
  pub at_decision : Look
  pub binary : Outcome Text
  pub version_output : Outcome Text
  pub prepare_log : Option Text
  pub spawn : Outcome ℤ
  pub at_start : Processes
  pub looks : List Look
  pub ending : Text
  pub write_record : Option Text
  pub at_stop : Processes
  pub at_kill : Processes
  pub at_cleanup : Look

pub record Ensured : Type 0 where
  pub normalized : Option Text
  pub cleared : Bool
  pub spawned : Option ℤ
  pub signals : List Signal
  pub recorded : Option ServiceRecord
  pub result : Result ServiceStatus

abbrev pub nothing_done : Result ServiceStatus → Ensured
nothing_done r = record {
  normalized = none;
  cleared = false;
  spawned = none;
  signals = [];
  recorded = none;
  result = r;
}

abbrev pub join_path : Text → Text → Text
join_path home name = if eq_text home (b'/' ∷ []) then b'/' ∷ name else home ++ (b'/' ∷ name)

abbrev pub same_identity : Identity → Identity → Bool
same_identity a b =
    eq_text a.codex_home b.codex_home
    && eq_text a.platform_family b.platform_family
    && eq_text a.platform_os b.platform_os

abbrev pub status_for : Text → ℤ → Text → Identity → ServiceState → Bool → ServiceStatus
status_for endpoint pid version identity state reused = record {
  endpoint = endpoint;
  pid = pid;
  version = version;
  identity = identity;
  state = state;
  reused = reused;
}

abbrev pub unhealthy_result : Result Identity → Result Identity
unhealthy_result (ok i) = ok i
unhealthy_result (err e) = err (unhealthy e)

-- The endpoint that the user configured.
unfoldable pub reuse_configured : Look → Text → Result ServiceStatus
reuse_configured l endpoint = do
  of_endpoint (validate_local_endpoint endpoint)
  identity ← unhealthy_result (probe_codex_endpoint l endpoint)
  ok (status_for endpoint (pos 0) (codes "unknown") identity reused_state true)

pub record Prepared : Type 0 where
  pub socket : Text
  pub endpoint : Text
  pub record_found : Option ServiceRecord

abbrev pub if_there : Result ServiceRecord → Result (Option ServiceRecord)
if_there (ok r) = ok (some r)
if_there (err absent) = ok none
if_there (err e) = err e

unfoldable pub prepare : Occasion → Result Prepared
prepare o = do
  home ← of_outcome o.home
  secure_service_home o.at_home o.mkdir home
  of_fault o.lock
  let socket = join_path home (codes "app-server.sock")
  let endpoint = codes "unix://" ++ socket
  of_endpoint (validate_local_endpoint endpoint)
  let path = join_path home (codes "service.json")
  r ← if_there (read_codex_service_record o.codec o.at_home path o.record_content)
  ok (record { socket = socket; endpoint = endpoint; record_found = r })
