-- ===== src/Services/CodexService/Ensure/Starts.antt =====
-- When an app-server is started.
use chatta.Prelude.{
  Any, ◌≡◌, refl, ap, ◌∙◌, ◌≢◌, inl, inr, true, Option, none, some, List, [], ◌∷◌, arith,
}
use chatta.Prelude.Int.{ℤ}
use chatta.Text.Basic.{Text}
use chatta.Services.CodexService.Files.{
  Look, Identity, ServiceRecord, unidentified, Result, ok, err, probe_codex_endpoint,
  process_matches, stop_started_server, remove_stale_socket,
}
use chatta.Services.CodexService.Occasion.{Occasion, Ensured, Prepared, prepare}
use chatta.Services.CodexService.Ensure.{
  probed_again, find_cli, start_server, alive_record, unless_alive, decide, ensure_prepared,
  ensure_codex_app_server,
}
use chatta.Services.CodexService.Ensure.Started.{Answers, Settled, IsSpawned}
use chatta.Services.CodexService.Ensure.Spawned.{start_cli-Settled}

also_normalized : Option Text → Ensured → Ensured
also_normalized changed e = record e { normalized = changed }

also_normalized-Settled :
    (o : Occasion) (p : Prepared) (pid : ℤ) (changed : Option Text) (e : Ensured)
    → Settled o p pid e
    → Settled o p pid (also_normalized changed e)
unfolding also_normalized
also_normalized-Settled o p pid changed e (inl r) = inl (record {
  status = r.status;
  kept = r.kept;
  returned = r.returned;
  recorded = r.recorded;
  pid_kept = r.pid_kept;
  start_kept = r.start_kept;
  endpoint_kept = r.endpoint_kept;
  executable_kept = r.executable_kept;
  as_recorded = r.as_recorded;
  unharmed = r.unharmed;
  answered = r.answered;
})
also_normalized-Settled o p pid changed e (inr g) = inr (record {
  why = g.why;
  binary = g.binary;
  returned = g.returned;
  unrecorded = g.unrecorded;
  started = g.started;
  stopped = g.stopped;
  terminated = g.terminated;
  reason = g.reason;
})

start_server-Settled :
    (o : Occasion) (p : Prepared) (r : Result (Unit {0})) (pid : ℤ)
    → (start_server o p r).spawned ≡ some pid
    → (r ≡ ok tt) × Settled o p pid (start_server o p r)
start_server-Settled o p (err e) pid h = absurd (cc)
start_server-Settled o p (ok tt) pid h = (refl, start_cli-Settled o p (find_cli o) pid refl h)

unless_alive-Settled :
    (o : Occasion) (p : Prepared) (alive : Option ℤ) (pid : ℤ)
    → (unless_alive o p alive).spawned ≡ some pid
    → (alive ≡ none)
      × (remove_stale_socket o.at_decision p.socket ≡ ok tt)
      × Settled o p pid (unless_alive o p alive)
unless_alive-Settled o p (some n) pid h = absurd (cc)
unless_alive-Settled o p none pid h =
    let (clear, settled) =
      start_server-Settled o p (remove_stale_socket o.at_decision p.socket) pid h in
    (refl, clear, settled)

decide-IsSpawned :
    (o : Occasion) (p : Prepared) (pid : ℤ) (first : Result Identity)
    (again : Option Text × Result Identity)
    → prepare o ≡ ok p
    → probe_codex_endpoint o.at_probe p.endpoint ≡ first
    → probed_again o p first ≡ again
    → (decide o p again).spawned ≡ some pid
    → IsSpawned o pid (decide o p again)
unfolding also_normalized
decide-IsSpawned o p pid first (changed, ok i) ready probe probes h = absurd (cc)
decide-IsSpawned o p pid (ok i) (changed, err e) ready probe probes h = absurd (cc)
decide-IsSpawned o p pid (err silence) (changed, err e) ready probe probes h =
    let (dead, clear, settled) =
      unless_alive-Settled o p (alive_record o.at_decision.processes p.record_found) pid h in
    record {
      prepared = p;
      prepares = ready;
      silence = silence;
      silent = probe;
      dead = dead;
      clear = clear;
      outcome =
          also_normalized-Settled o p pid changed
            (unless_alive o p (alive_record o.at_decision.processes p.record_found)) settled;
    }

-- If an app-server is started, then the service home was secured and locked, its endpoint did not
-- answer, no process of a record was alive, and what stood at the socket's path was removed or
-- missing. In the end either the server is up: it was seen to run under its own command line and to
-- answer, its record was written, the status is that of the record, and it got no signal; or the
-- caller gets an error, no record was written, and the server was stopped: if its start time is
-- known and it still runs the executable that was started, with this endpoint, it gets a SIGTERM.
pub ensure_codex_app_server-IsSpawned :
    (o : Occasion) (service_home endpoint : Text) (pid : ℤ)
    → let e = ensure_codex_app_server o service_home endpoint in
      e.spawned ≡ some pid → IsSpawned o pid e
unfolding ensure_codex_app_server
ensure_codex_app_server-IsSpawned o service_home [] pid h = of_prepared (prepare o) refl h
  where
    of_prepared :
        (r : Result Prepared)
        → prepare o ≡ r
        → (ensure_prepared o r).spawned ≡ some pid
        → IsSpawned o pid (ensure_prepared o r)
    of_prepared (err e) ready k = absurd (cc)
    of_prepared (ok p) ready k =
        decide-IsSpawned o p pid (probe_codex_endpoint o.at_probe p.endpoint) _ ready refl refl k
ensure_codex_app_server-IsSpawned o [] (c ∷ endpoint) pid h = absurd (cc)
ensure_codex_app_server-IsSpawned o (d ∷ service_home) (c ∷ endpoint) pid h = absurd (cc)

unstarted :
    (r : ServiceRecord) (l : Look)
    → r.start ≡ []
    → process_matches l.processes r.pid r.start r.executable r.endpoint ≢ true
unfolding process_matches
unstarted r l e = λ matches. absurd (ground (arith, e, matches))

-- A server whose start time `ps` does not give gets no signal: the error says that its identity
-- could not be established, and it is left to run.
pub ensure_codex_app_server-unidentified :
    (o : Occasion) (service_home endpoint : Text) (pid : ℤ)
    → let e = ensure_codex_app_server o service_home endpoint in
      e.spawned ≡ some pid
      → o.at_start.process_start pid ≡ []
      → (e.signals ≡ []) × (e.recorded ≡ none) × (e.result ≡ err (unidentified pid))
unfolding stop_started_server
ensure_codex_app_server-unidentified o service_home endpoint pid h unknown =
    let s = ensure_codex_app_server-IsSpawned o service_home endpoint pid h in
    elim s.outcome [
      | inl r ↦ absurd (unready r.kept o.looks (r.start_kept ∙ unknown) r.answered)
      | inr g ↦ (g.stopped ∙ rw unknown, g.unrecorded, g.returned ∙ ap err (g.reason unknown))
    ]
  where
    unready : (r : ServiceRecord) (ls : List Look) → r.start ≡ [] → Any (Answers r) ls → ⊥
    unready r [] e a = a
    unready r (l ∷ ls) e (inl (matches, answers)) = unstarted r l e matches
    unready r (l ∷ ls) e (inr later) = unready r ls e later
