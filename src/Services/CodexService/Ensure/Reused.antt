-- ===== src/Services/CodexService/Ensure/Reused.antt =====
-- When a running app-server is reused.
use chatta.Prelude.{
  if◌then◌else◌, ◌≡◌, refl, sym, ap, subst, ◌⊎◌, inl, inr, Bool, true, false, Option, none, some,
  [], ◌∷◌, arith,
}
use chatta.Prelude.Int.{ℤ}
use chatta.Text.Basic.{Text}
use chatta.Services.CodexService.Files
use chatta.Services.CodexService.Files.{
  Look, Identity, ServiceRecord, ServiceError, absent, Result, ok, err, ◌>>=◌, ◌>>◌, of_stat,
  of_outcome, of_fault, of_endpoint, guard, open_record, foreign_record, decoded, is_usable,
  probe_codex_endpoint, record_process_matches, read_codex_service_record, secure_service_home,
  normalize_managed_codex_socket,
}
use chatta.Services.CodexService.Occasion.{ServiceStatus, Occasion, Ensured, Prepared, prepare}
use chatta.Services.CodexService.Ensure.{
  probed_again, reprobed, owns_endpoint, written, awaited, launched, find_cli, spawned_as,
  start_cli, start_server, unless_alive, alive_record, decide, ensure_prepared,
  ensure_codex_app_server, reuse_managed, await_server,
}
use chatta.Services.CodexService.Ensure.Records.{
  MatchesFound, recorded-Matches, prepare_usable, status_or,
}

-- What is started is not reused.
IsNew : ServiceStatus → Result ServiceStatus → Type 0
IsNew s r = r ≡ ok s → s.reused ≡ false

abbrev reused_or : Bool → Result ServiceStatus → Bool
reused_or b (ok t) = t.reused
reused_or b (err e) = b

written-IsNew :
    (s : ServiceStatus) (o : Occasion) (p : Prepared) (binary version : Text) (pid : ℤ)
    (start : Text) (i : Identity) (fault : Option Text)
    → IsNew s (written o p binary version pid start i fault).result
unfolding IsNew
written-IsNew s o p binary version pid start i none = λ h. sym (ap (reused_or false) h)
written-IsNew s o p binary version pid start i (some e) = λ h. cc

awaited-IsNew :
    (s : ServiceStatus) (o : Occasion) (p : Prepared) (binary version : Text) (pid : ℤ)
    (start : Text) (r : Result Identity)
    → IsNew s (awaited o p binary version pid start r).result
awaited-IsNew s o p binary version pid start (ok i) =
    written-IsNew s o p binary version pid start i o.write_record
awaited-IsNew s o p binary version pid start (err e) = unfold IsNew in λ h. cc

launched-IsNew :
    (s : ServiceStatus) (o : Occasion) (p : Prepared) (binary version : Text) (pid : ℤ)
    (start : Text)
    → IsNew s (launched o p binary version pid start).result
launched-IsNew s o p binary version pid [] = unfold IsNew in λ h. cc
launched-IsNew s o p binary version pid (c ∷ start) =
    awaited-IsNew s o p binary version pid (c ∷ start)
      (await_server o.looks o.ending pid (c ∷ start) binary p.endpoint p.socket)

spawned_as-IsNew :
    (s : ServiceStatus) (o : Occasion) (p : Prepared) (binary version : Text) (r : Result ℤ)
    → IsNew s (spawned_as o p binary version r).result
spawned_as-IsNew s o p binary version (err e) = unfold IsNew in λ h. cc
spawned_as-IsNew s o p binary version (ok pid) =
    launched-IsNew s o p binary version pid (o.at_start.process_start pid)

start_cli-IsNew :
    (s : ServiceStatus) (o : Occasion) (p : Prepared) (cli : Result (Text × Text))
    → IsNew s (start_cli o p cli).result
start_cli-IsNew s o p (err e) = unfold IsNew in λ h. cc
start_cli-IsNew s o p (ok (binary, version)) =
    spawned_as-IsNew s o p binary version (of_outcome o.spawn)

start_server-IsNew :
    (s : ServiceStatus) (o : Occasion) (p : Prepared) (r : Result (Unit {0}))
    → IsNew s (start_server o p r).result
start_server-IsNew s o p (err e) = unfold IsNew in λ h. cc
start_server-IsNew s o p (ok tt) = start_cli-IsNew s o p (find_cli o)

unless_alive-IsNew :
    (s : ServiceStatus) (o : Occasion) (p : Prepared) (alive : Option ℤ)
    → IsNew s (unless_alive o p alive).result
unless_alive-IsNew s o p (some n) = unfold IsNew in λ h. cc
unless_alive-IsNew s o p none =
    start_server-IsNew s o p (Files.remove_stale_socket o.at_decision p.socket)

-- The managed endpoint answered with the status's identity at the first probe or at the second, and
-- the record, if there is one, is that of a live process which serves this endpoint and has this
-- identity.
record IsReused (o : Occasion) (e : Ensured) (s : ServiceStatus) : Type 0 where
  prepared : Prepared
  prepares : prepare o ≡ ok prepared
  answers :
      (probe_codex_endpoint o.at_probe prepared.endpoint ≡ ok s.identity)
      ⊎ (probe_codex_endpoint o.at_second_probe prepared.endpoint ≡ ok s.identity)
  endpoint_shown : s.endpoint ≡ prepared.endpoint
  matches_found :
      MatchesFound o.at_decision.processes prepared.endpoint s.identity s prepared.record_found
  unspawned : e.spawned ≡ none
  unharmed : e.signals ≡ []

probed_again-answers :
    (o : Occasion) (p : Prepared) (first : Result Identity) (changed : Option Text) (i : Identity)
    → probed_again o p first ≡ (changed, ok i)
    → (first ≡ ok i) ⊎ (probe_codex_endpoint o.at_second_probe p.endpoint ≡ ok i)
probed_again-answers o p (ok j) changed i h = inl (ap (λ x. x.1) h)
probed_again-answers o p (err e) changed i h =
    of_owner (owns_endpoint o.at_probe.processes p.endpoint p.record_found) h
  where
    of_normalized :
        (n : Result (Option Text))
        → reprobed o.at_second_probe p.endpoint (err e) n ≡ (changed, ok i)
        → (err e ≡ ok i) ⊎ (probe_codex_endpoint o.at_second_probe p.endpoint ≡ ok i)
    of_normalized (err x) k = inl (ap (λ x. x.1) k)
    of_normalized (ok c) k = inr (ap (λ x. x.1) k)

    of_owner :
        (b : Bool)
        → (if b
            then reprobed o.at_second_probe p.endpoint
                (err e)
                (normalize_managed_codex_socket o.at_normalize p.socket)
            else (none, err e))
          ≡ (changed, ok i)
        → (err e ≡ ok i) ⊎ (probe_codex_endpoint o.at_second_probe p.endpoint ≡ ok i)
    of_owner true k = of_normalized (normalize_managed_codex_socket o.at_normalize p.socket) k
    of_owner false k = inl (ap (λ x. x.1) k)

managed-MatchesFound :
    (o : Occasion) (p : Prepared) (i : Identity) (s : ServiceStatus) (found : Option ServiceRecord)
    → prepare o ≡ ok p
    → p.record_found ≡ found
    → reuse_managed o.at_decision.processes p.endpoint i found ≡ ok s
    → MatchesFound o.at_decision.processes p.endpoint i s found
      × (s.endpoint ≡ p.endpoint)
      × (s.identity ≡ i)
unfolding reuse_managed
managed-MatchesFound o p i s none ready there h = (
  sym (ap (λ x. (status_or s x).pid) h),
  sym (ap (λ x. (status_or s x).endpoint) h),
  sym (ap (λ x. (status_or s x).identity) h),
)
managed-MatchesFound o p i s (some r) ready there h =
    recorded-Matches o.at_decision.processes p.endpoint i s r (prepare_usable o p r ready there) h

decide-IsReused :
    (o : Occasion) (p : Prepared) (s : ServiceStatus) (again : Option Text × Result Identity)
    → prepare o ≡ ok p
    → probed_again o p (probe_codex_endpoint o.at_probe p.endpoint) ≡ again
    → (decide o p again).result ≡ ok s
    → s.reused ≡ true
    → IsReused o (decide o p again) s
unfolding IsNew
decide-IsReused o p s (changed, err e) ready probes h reused =
    let fresh = unless_alive-IsNew s o p (alive_record o.at_decision.processes p.record_found) h in
    absurd (ground (arith, fresh, reused))
decide-IsReused o p s (changed, ok i) ready probes h reused =
    let (found, endpoint_is, identity_is) =
      managed-MatchesFound o p i s p.record_found ready refl h in
    record {
      prepared = p;
      prepares = ready;
      answers =
          subst
            (λ j.
              (probe_codex_endpoint o.at_probe p.endpoint ≡ ok j)
              ⊎ (probe_codex_endpoint o.at_second_probe p.endpoint ≡ ok j))
            (sym identity_is) (probed_again-answers o p _ changed i probes);
      endpoint_shown = endpoint_is;
      matches_found =
          subst (λ j. MatchesFound o.at_decision.processes p.endpoint j s p.record_found)
            (sym identity_is) found;
      unspawned = refl;
      unharmed = refl;
    }

-- Where no endpoint is configured, a status that says the server was reused is true: the endpoint of
-- the service home answered, and if there is a record, it is that of a live process which serves
-- this endpoint with this identity, whose process ID and version are those of the status. Nothing
-- was started and no signal was sent.
ensure_codex_app_server-IsReused :
    (o : Occasion) (service_home : Text) (s : ServiceStatus)
    → let e = ensure_codex_app_server o service_home [] in
      e.result ≡ ok s → s.reused ≡ true → IsReused o e s
unfolding ensure_codex_app_server
ensure_codex_app_server-IsReused o service_home s h reused = of_prepared (prepare o) refl h
  where
    of_prepared :
        (r : Result Prepared)
        → prepare o ≡ r
        → (ensure_prepared o r).result ≡ ok s
        → IsReused o (ensure_prepared o r) s
    of_prepared (err e) ready k = absurd (cc)
    of_prepared (ok p) ready k = decide-IsReused o p s _ ready refl k reused
