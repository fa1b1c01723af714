-- ===== src/Tests/HealthTests.antt =====
-- Tests of processes and health.
use chatta.Prelude.{if◌then◌else◌, ◌≡◌, refl, ◌↔◌, true, false, none, some, [], ◌∷◌}
use chatta.Prelude.Int.{pos, eq_ℤ}
use chatta.Text.Basic.{codes, contains_text, has_prefix, eq_text}
use chatta.Common.{ChatSession}
use chatta.Dal.Process.{
  Processes, is_verified_supervisor, is_supervisor, process_alive, stop_verified_supervisor, gone,
  stop_verified_supervisor-gone,
}
use chatta.Services.Control.{ControlCode, Reply, got, lost, done}
use chatta.Services.Health.{health}
use chatta.Services.Health.Recovery.{Situation, ensure, Usable, ensure-Usable}
use chatta.Services.Health.Report.{Healthy, IsUp, health_iff}
use chatta.Tests.Samples.{agents}
use chatta.Tests.StoreTests.{some_session}

-- A supervisor runs as process 9, and nothing else.
abbrev pub running : Processes
running = record {
  process_start = λ pid. if eq_ℤ pid (pos 9) then codes "t9" else [];
  signalled = λ pid. eq_ℤ pid (pos 9);
  process_command = λ pid. if eq_ℤ pid (pos 9) then codes "chatta chat _supervise" else [];
}

abbrev pub nothing_runs : Processes
nothing_runs = record {
  process_start = λ pid. [];
  signalled = λ pid. false;
  process_command = λ pid. [];
}

stop_verified_supervisor-gone_example :
    let s =
      stop_verified_supervisor running
        (running ∷ nothing_runs ∷ [])
        []
        none
        none
        (pos 9)
        (codes "t9") in
    (s.error ≡ none → gone (pos 9) (codes "t9") (running ∷ running ∷ nothing_runs ∷ []) ≡ true)
    × (is_verified_supervisor running (pos 9) (codes "t9") ≡ false → s.signals ≡ [])
stop_verified_supervisor-gone_example =
    stop_verified_supervisor-gone running (running ∷ nothing_runs ∷ []) [] none none (pos 9)
      (codes "t9")

abbrev pub supervised_session : ChatSession
supervised_session = record some_session {
  supervisor_pid = pos 9;
  supervisor_start_fingerprint = codes "t9";
}

abbrev online_reply : Reply
online_reply = got (record {
  ok = true;
  error = [];
  code = ControlCode.no_code;
  members = [];
  status = some (record {
    connected = true;
    registered = true;
    nick = codes "a";
    channels = agents ∷ [];
    last_pong = 0;
    generation = 1;
    failure = [];
  });
})

health_iff_example :
    let r = health running true online_reply true supervised_session in
    ((r.failure ≡ []) ↔ Healthy true r)
    × ((r.failure ≡ []) ↔ IsUp running true online_reply true supervised_session)
health_iff_example = health_iff running true online_reply true supervised_session

-- The supervisor has died; a new one starts as process 9 and answers at the second look.
abbrev after_crash : Situation
after_crash = record {
  processes = nothing_runs;
  active = true;
  reply = lost (codes "no socket");
  spawned = done (pos 9);
  after_spawn = running;
  save = λ st. none;
  looks =
      (record { processes = running; reply = lost (codes "no socket") })
      ∷ (record { processes = running; reply = online_reply })
      ∷ [];
}

recovers : (ensure after_crash (done some_session)).outcome ≡ done supervised_session
unfolding ensure process_alive is_verified_supervisor is_supervisor contains_text has_prefix eq_text
recovers = refl

ensure-Usable_example :
    Usable after_crash some_session supervised_session
      (ensure after_crash (done some_session)).saved
ensure-Usable_example = ensure-Usable after_crash some_session supervised_session recovers
