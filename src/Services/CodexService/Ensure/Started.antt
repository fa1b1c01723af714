-- ===== src/Services/CodexService/Ensure/Started.antt =====
-- What becomes of an app-server that is started.
use chatta.Prelude.{Any, ◌≡◌, ◌≢◌, ◌⊎◌, true, false, none, some, List, [], ◌∷◌}
use chatta.Prelude.Int.{ℤ}
use chatta.Text.Basic.{Text}
use chatta.Dal.Process.{Signal, sigterm}
use chatta.Services.Control.{done}
use chatta.Services.CodexService.Files.{
  Look, ServiceRecord, ServiceError, unidentified, ok, err, probe_codex_endpoint, process_matches,
  stop_started_server, remove_stale_socket,
}
use chatta.Services.CodexService.Occasion.{
  ServiceStatus, Occasion, Ensured, Prepared, prepare, status_for, started_state,
}
use chatta.Services.CodexService.Ensure.{alive_record}

-- At this look the process is the one of the record, and its endpoint answers with its identity.
abbrev pub Answers : ServiceRecord → Look → Type 0
Answers r l =
    (process_matches l.processes r.pid r.start r.executable r.endpoint ≡ true)
    × (probe_codex_endpoint l r.endpoint ≡ ok r.identity)

-- The server is up: it was seen to answer, its record was written, and the status is the record's.
pub record IsReady (o : Occasion) (p : Prepared) (pid : ℤ) (e : Ensured) : Type 0 where
  pub status : ServiceStatus
  pub kept : ServiceRecord
  pub returned : e.result ≡ ok status
  pub recorded : e.recorded ≡ some kept
  pub pid_kept : kept.pid ≡ pid
  pub start_kept : kept.start ≡ o.at_start.process_start pid
  pub endpoint_kept : kept.endpoint ≡ p.endpoint
  pub executable_kept : o.binary ≡ done kept.executable
  pub as_recorded :
      status ≡ status_for kept.endpoint kept.pid kept.cli_version kept.identity started_state false
  pub unharmed : e.signals ≡ []
  pub answered : Any (Answers kept) o.looks

-- The caller gets an error, no record was written, and the server was stopped: `stopStartedServer`
-- was called for it with the executable that was started and its start time, so that it gets a
-- SIGTERM if it still runs under its own command line. Without a start time there is no signal.
pub record IsGivenUp (o : Occasion) (p : Prepared) (pid : ℤ) (e : Ensured) : Type 0 where
  pub why : ServiceError
  pub binary : Text
  pub returned : e.result ≡ err why
  pub unrecorded : e.recorded ≡ none
  pub started : o.binary ≡ done binary
  pub stopped :
      e.signals
      ≡ stop_started_server o.at_stop o.at_kill pid (o.at_start.process_start pid) binary p.endpoint
  pub terminated :
      o.at_start.process_start pid ≢ []
      → process_matches o.at_stop pid (o.at_start.process_start pid) binary p.endpoint ≡ true
      → (later : List Signal) × (e.signals ≡ sigterm ∷ later)
  pub reason : o.at_start.process_start pid ≡ [] → why ≡ unidentified pid

abbrev pub Settled : Occasion → Prepared → ℤ → Ensured → Type 0
Settled o p pid e = IsReady o p pid e ⊎ IsGivenUp o p pid e

-- A server is started only where the endpoint does not answer, no recorded process is alive, and no
-- file that is not a socket of the user stands at its path.
pub record IsSpawned (o : Occasion) (pid : ℤ) (e : Ensured) : Type 0 where
  pub prepared : Prepared
  pub prepares : prepare o ≡ ok prepared
  pub silence : ServiceError
  pub silent : probe_codex_endpoint o.at_probe prepared.endpoint ≡ err silence
  pub dead : alive_record o.at_decision.processes prepared.record_found ≡ none
  pub clear : remove_stale_socket o.at_decision prepared.socket ≡ ok tt
  pub outcome : Settled o prepared pid e
