-- ===== src/Tests/FleetTests.antt =====
-- Tests of stopping and cleaning up clients.
use chatta.Prelude.{◌⊎◌, if◌then◌else◌, All, ◌≡◌, refl, Bool, true, false, none, List, [], ◌∷◌}
use chatta.Prelude.Int.{pos, eq_ℤ}
use chatta.Text.Basic.{Text, codes, eq_text, contains_text, has_prefix}
use chatta.Dal.Process.{
  Processes, Signal, sigterm, process_alive, is_verified_supervisor, is_supervisor,
}
use chatta.Dal.Binding.{load_codex_binding}
use chatta.Services.Codex.Binding.{has_active_codex_binding}
use chatta.Services.Control.{lost, done}
use chatta.Services.Fleet.{View, is_foreign, stop, Cleaned, gc_report}
use chatta.Services.Fleet.Cleanup.{IsAbandoned}
use chatta.Services.Fleet.Reports.{Completes, gc_report-Cleans}
use chatta.Services.Fleet.Overtaken.{gc_report_overtaken}
use chatta.Services.Fleet.Stopping.{IsLeft, IsStopped, stop-IsStopped}
use chatta.Tests.Coding.{binding_codec}
use chatta.Tests.StoreTests.{some_session, shell_owner}
use chatta.Tests.HealthTests.{nothing_runs, supervised_session}

-- The owner has ended, and nothing runs.
abbrev ended : View
ended = record {
  state = done some_session;
  processes = nothing_runs;
  looks = [];
  later_looks = [];
  term = none;
  kill = none;
  binding_codec = binding_codec;
  binding_fault = none;
  binding = record { file = none; temp = none };
  control = lost (codes "no socket");
  remove_all = none;
}

abbrev homes_then : Text → View
homes_then home = ended

gc_report-Cleans_example :
    let report = gc_report homes_then homes_then (codes "/c" ∷ []) false true in
    All
      (λ (c : Cleaned). (◌≡◌ {A = Bool} false false) × IsAbandoned (homes_then c.home))
      report.0.cleaned
    × Completes homes_then homes_then (codes "/c" ∷ []) false true report
gc_report-Cleans_example = gc_report-Cleans homes_then homes_then (codes "/c" ∷ []) false true

is_abandoned : IsAbandoned ended
is_abandoned = record {
  session = some_session;
  there = refl;
  ended = unfold process_alive in refl;
  unbound = unfold has_active_codex_binding load_codex_binding in refl;
}

-- Both the shell and the supervisor run again.
abbrev both_run : Processes
both_run = record {
  process_start = λ pid. if eq_ℤ pid (pos 9) then codes "t9" else codes "t0";
  signalled = λ pid. true;
  process_command = λ pid. codes "chatta chat _supervise";
}

abbrev again : View
again = record ended { state = done supervised_session; processes = both_run }

abbrev homes_now : Text → View
homes_now home = again

owner_back : process_alive both_run supervised_session.owner ≡ true
unfolding process_alive eq_text
owner_back = refl

supervisor_back :
    is_verified_supervisor both_run supervised_session.supervisor_pid
      supervised_session.supervisor_start_fingerprint
    ≡ true
unfolding is_verified_supervisor is_supervisor contains_text has_prefix eq_text
supervisor_back = refl

gc_report_overtaken_example :
    let cleaned = (gc_report homes_then homes_now (codes "/c" ∷ []) false true).0.cleaned in
    (rest : List Signal) × (b : Bool) × (cleaned
      ≡ (record { home = codes "/c"; signals = sigterm ∷ rest; pruned = b }) ∷ [])
gc_report_overtaken_example =
    gc_report_overtaken homes_then homes_now (codes "/c") true supervised_session is_abandoned refl
      owner_back refl supervisor_back

stop-IsStopped_example :
    let e = stop again (done shell_owner) (λ st. none) false in
    IsLeft false (is_foreign again (done shell_owner) supervised_session) e
    ⊎ ((◌≡◌ {A = Bool} false true
          ⊎ (is_foreign again (done shell_owner) supervised_session ≡ false))
        × IsStopped again supervised_session e)
stop-IsStopped_example =
    stop-IsStopped again (done shell_owner) (λ st. none) false supervised_session refl
