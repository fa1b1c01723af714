-- ===== src/Services/CodexService/Ensure/Spawned.antt =====
-- Every app-server that is started is settled.
use chatta.Prelude.{
  if◌then◌else◌, Any, ℕ, ◌≡◌, refl, sym, ap, ◌∙◌, subst, ◌≢◌, inl, inr, Bool, true, false, Option,
  none, some, List, [], ◌∷◌,
}
use chatta.Prelude.Int.{ℤ}
use chatta.Text.Basic.{Text}
use chatta.Dal.Process.{Processes, Signal, sigterm, sigkill}
use chatta.Services.Control.{Outcome, done, refused}
use chatta.Services.CodexService.Files.{
  ◌>>=◌, ◌>>◌, of_fault, Look, Identity, ServiceError, failed, unidentified, Result, ok, err,
  of_outcome, probe_codex_endpoint, normalize_managed_codex_socket, process_matches,
  stop_started_server,
}
use chatta.Services.CodexService.Occasion.{Occasion, Ensured, Prepared, status_for, started_state}
use chatta.Services.CodexService.Ensure.{
  look_result, next_look, await_server, new_record, given_up, written, awaited, launched,
  spawned_as, start_cli, find_cli, codex_cli_version,
}
use chatta.Services.CodexService.Ensure.Started.{Answers, IsGivenUp, Settled}

await_server-answers :
    (ls : List Look) (ending : Text) (pid : ℤ) (start binary endpoint socket version : Text)
    (i : Identity)
    → await_server ls ending pid start binary endpoint socket ≡ ok i
    → Any (Answers (new_record endpoint binary version pid start i)) ls
unfolding await_server
await_server-answers [] ending pid start binary endpoint socket version i e = absurd (cc)
await_server-answers (l ∷ ls) ending pid start binary endpoint socket version i e =
    of_look (process_matches l.processes pid start binary endpoint)
      (normalize_managed_codex_socket l socket) (probe_codex_endpoint l endpoint) refl refl
      (await_server-answers ls ending pid start binary endpoint socket version i) e
  where
    of_look :
        (b : Bool) (n : Result (Option Text)) (r : Result Identity)
        → process_matches l.processes pid start binary endpoint ≡ b
        → probe_codex_endpoint l endpoint ≡ r
        → (await_server ls ending pid start binary endpoint socket ≡ ok i
            → Any (Answers (new_record endpoint binary version pid start i)) ls)
        → next_look b (look_result n r) (await_server ls ending pid start binary endpoint socket)
          ≡ ok i
        → Any (Answers (new_record endpoint binary version pid start i)) (l ∷ ls)
    of_look false n r eb er later e' = absurd (cc)
    of_look true (err x) r eb er later e' = inr (later e')
    of_look true (ok c) (err x) eb er later e' = inr (later e')
    of_look true (ok c) (ok j) eb er later e' = inl (eb, er ∙ e')

stop_terminates :
    (first last : Processes) (pid : ℤ) (start binary endpoint : Text)
    → start ≢ []
    → process_matches first pid start binary endpoint ≡ true
    → (later : List Signal) × (stop_started_server first last pid start binary endpoint
        ≡ sigterm ∷ later)
unfolding stop_started_server
stop_terminates first last pid [] binary endpoint ne matches = absurd (ne refl)
stop_terminates first last pid (c ∷ start) binary endpoint ne matches = (
  if process_matches last pid (c ∷ start) binary endpoint then sigkill ∷ [] else [],
  rw matches refl,
)

-- What every way to give up ends in.
stopped-IsGivenUp :
    (o : Occasion) (p : Prepared) (binary : Text) (pid : ℤ) (start : Text) (why : ServiceError)
    (e : Ensured)
    → o.binary ≡ done binary
    → o.at_start.process_start pid ≡ start
    → (start ≡ [] → why ≡ unidentified pid)
    → e.result ≡ err why
    → e.recorded ≡ none
    → e.signals ≡ stop_started_server o.at_stop o.at_kill pid start binary p.endpoint
    → IsGivenUp o p pid e
stopped-IsGivenUp o p binary pid start why e runs started reason returned unrecorded signals =
    let stopped =
      signals
      ∙ ap (λ t. stop_started_server o.at_stop o.at_kill pid t binary p.endpoint) (sym started) in
    record {
      why = why;
      binary = binary;
      returned = returned;
      unrecorded = unrecorded;
      started = runs;
      stopped = stopped;
      terminated = λ ne matches.
          let (later, sent) =
            stop_terminates o.at_stop o.at_kill pid (o.at_start.process_start pid) binary p.endpoint
              ne matches in
          (later, stopped ∙ sent);
      reason = λ unknown. reason (sym started ∙ unknown);
    }

given_up-IsGivenUp :
    (o : Occasion) (p : Prepared) (binary : Text) (pid : ℤ) (c : ℕ) (start : Text)
    (why : ServiceError)
    → o.binary ≡ done binary
    → o.at_start.process_start pid ≡ c ∷ start
    → IsGivenUp o p pid (given_up o p binary pid (c ∷ start) why)
given_up-IsGivenUp o p binary pid c start why runs started =
    stopped-IsGivenUp o p binary pid (c ∷ start) why (given_up o p binary pid (c ∷ start) why) runs
      started (λ e. cc) refl refl refl

module _ (o : Occasion) (p : Prepared) (binary version : Text) (pid : ℤ)
    (runs : o.binary ≡ done binary) where
  written-Settled :
      (c : ℕ) (start : Text) (i : Identity) (fault : Option Text)
      → o.at_start.process_start pid ≡ c ∷ start
      → Any (Answers (new_record p.endpoint binary version pid (c ∷ start) i)) o.looks
      → Settled o p pid (written o p binary version pid (c ∷ start) i fault)
  written-Settled c start i none started answered = inl (record {
    status = status_for p.endpoint pid version i started_state false;
    kept = new_record p.endpoint binary version pid (c ∷ start) i;
    returned = refl;
    recorded = refl;
    pid_kept = refl;
    start_kept = sym started;
    endpoint_kept = refl;
    executable_kept = runs;
    as_recorded = refl;
    unharmed = refl;
    answered = answered;
  })
  written-Settled c start i (some fault) started answered =
      inr (given_up-IsGivenUp o p binary pid c start (failed fault) runs started)

  awaited-Settled :
      (c : ℕ) (start : Text) (r : Result Identity)
      → o.at_start.process_start pid ≡ c ∷ start
      → await_server o.looks o.ending pid (c ∷ start) binary p.endpoint p.socket ≡ r
      → Settled o p pid (awaited o p binary version pid (c ∷ start) r)
  awaited-Settled c start (err e) started waits =
      inr (given_up-IsGivenUp o p binary pid c start e runs started)
  awaited-Settled c start (ok i) started waits = written-Settled c start i o.write_record started (
      await_server-answers o.looks o.ending pid (c ∷ start) binary p.endpoint p.socket version i
        waits)

  launched-Settled :
      (start : Text)
      → o.at_start.process_start pid ≡ start
      → Settled o p pid (launched o p binary version pid start)
  launched-Settled [] started = inr (
      stopped-IsGivenUp o p binary pid [] (unidentified pid) (launched o p binary version pid [])
        runs started (λ e. refl) refl refl refl)
  launched-Settled (c ∷ start) started = awaited-Settled c start _ started refl

launched_spawned :
    (o : Occasion) (p : Prepared) (binary version : Text) (pid : ℤ) (start : Text)
    → (launched o p binary version pid start).spawned ≡ some pid
launched_spawned o p binary version pid [] = refl
launched_spawned o p binary version pid (c ∷ start) =
    of_result (await_server o.looks o.ending pid (c ∷ start) binary p.endpoint p.socket)
  where
    of_write :
        (i : Identity) (fault : Option Text)
        → (written o p binary version pid (c ∷ start) i fault).spawned ≡ some pid
    of_write i none = refl
    of_write i (some e) = refl

    of_result :
        (r : Result Identity) → (awaited o p binary version pid (c ∷ start) r).spawned ≡ some pid
    of_result (err e) = refl
    of_result (ok i) = of_write i o.write_record

abbrev pid_or : ℤ → Option ℤ → ℤ
pid_or n none = n
pid_or n (some pid) = pid

abbrev cli : Text → Text → Result (Text × Text)
cli binary version = ok (binary, version)

find_cli-binary :
    (o : Occasion) (binary version : Text)
    → find_cli o ≡ ok (binary, version)
    → o.binary ≡ done binary
unfolding find_cli
find_cli-binary o binary version h = of_binary o.binary h
  where
    of_log :
        (b v : Text) (log : Option Text)
        → (of_fault log >> cli b v) ≡ cli binary version
        → b ≡ binary
    of_log b v none k = cc
    of_log b v (some e) k = cc

    of_version :
        (b : Text) (v : Result Text)
        → (v >>= (λ version. of_fault o.prepare_log >> cli b version)) ≡ cli binary version
        → b ≡ binary
    of_version b (err e) k = cc
    of_version b (ok v) k = of_log b v o.prepare_log k

    of_binary :
        (x : Outcome Text)
        → (of_outcome x >>= (λ b.
            codex_cli_version o.version_output
            >>= (λ version. of_fault o.prepare_log >> cli b version)))
          ≡ cli binary version
        → x ≡ done binary
    of_binary (refused e) k = cc
    of_binary (done b) k = ap done (of_version b (codex_cli_version o.version_output) k)

-- Whatever is started is settled.
pub start_cli-Settled :
    (o : Occasion) (p : Prepared) (cli : Result (Text × Text)) (pid : ℤ)
    → find_cli o ≡ cli
    → (start_cli o p cli).spawned ≡ some pid
    → Settled o p pid (start_cli o p cli)
start_cli-Settled o p (err e) pid found h = absurd (cc)
start_cli-Settled o p (ok (binary, version)) pid found h = of_spawn o.spawn h
  where
    of_spawn :
        (s : Outcome ℤ)
        → (spawned_as o p binary version (of_outcome s)).spawned ≡ some pid
        → Settled o p pid (spawned_as o p binary version (of_outcome s))
    of_spawn (refused e) k = absurd (cc)
    of_spawn (done n) k =
        let same : n ≡ pid =
          ap (pid_or n)
            (sym (launched_spawned o p binary version n (o.at_start.process_start n)) ∙ k) in
        subst (λ m. Settled o p m (launched o p binary version n (o.at_start.process_start n))) same
          (launched-Settled o p binary version n (find_cli-binary o binary version found)
            (o.at_start.process_start n) refl)
