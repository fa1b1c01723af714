-- ===== src/Tests/StartTests.antt =====
-- Tests of starting a session.
use chatta.Prelude.{ℕ, zero, suc, ◌≡◌, refl, ◌⊎◌, true, false, Option, none, some, [], ◌∷◌}
use chatta.Prelude.Int.{pos}
use chatta.Text.Basic.{codes, eq_text, contains_text, has_prefix}
use chatta.Common.{OwnerBinding, HealthReport}
use chatta.Dal.Process.{is_verified_supervisor, is_supervisor, Processes}
use chatta.Services.Control.{done, lost}
use chatta.Services.Start.{Occasion, StartError, nick_taken, new_session, start, retry}
use chatta.Services.Start.Retries.{Attempted, Untouched, start-Attempted}
use chatta.Services.Start.Once.{Attempt, start_once, await_ready, is_ready}
use chatta.Services.Start.Once.Ready.{by_attempts, IsUp, start-IsUp}
use chatta.Tests.Samples.{ascii}
use chatta.Tests.HealthTests.{running}
use chatta.Tests.StoreTests.{some_session}

-- The owner of the session that is there runs.
abbrev pub shell_runs : Processes
shell_runs = record {
  process_start = λ pid. codes "t0";
  signalled = λ pid. true;
  process_command = λ pid. codes "sh";
}

-- The nick is taken at the first attempt only.
abbrev taken_once : ℕ → Option StartError
taken_once zero = some (nick_taken (codes "in use"))
taken_once (suc n) = none

abbrev second_agent : OwnerBinding
second_agent = record { pid = pos 8; start_fingerprint = codes "t8"; runtime = codes "codex" }

abbrev morning : Occasion
morning = record {
  owner = done second_agent;
  has_state_path = true;
  old = some some_session;
  processes = shell_runs;
  channel = codes "agents";
  host = codes "h";
  port = pos 6667;
  session_id = λ o. codes "s8";
  now = 1;
  save = λ st. none;
  attempt = taken_once;
  saved_by = λ n st. st;
}

retried_once : retry taken_once 3 0 none ≡ (2, none)
unfolding retry
retried_once = refl

start-Attempted_example :
    Untouched (start ascii morning true (codes "b") [])
    ⊎ Attempted morning
        (new_session ascii morning second_agent (codes "b") [])
        (start ascii morning true (codes "b") [])
start-Attempted_example = start-Attempted ascii morning true second_agent (codes "b") [] refl

abbrev all_up : HealthReport
all_up = record {
  owner = true;
  supervisor = true;
  joined_channels = true;
  connected = true;
  server_link = true;
  membership = true;
  failure = [];
}

-- The first look is too early, the second finds the client ready.
abbrev coming_up : Attempt
coming_up = record {
  spawn = done (pos 9);
  fingerprint = codes "t9";
  save = none;
  turns =
      (record {
        cancelled = none;
        reply = lost (codes "no socket");
        report = record all_up { membership = false };
        processes = running;
      })
      ∷ (record {
        cancelled = none;
        reply = lost (codes "no socket");
        report = all_up;
        processes = running;
      })
      ∷ [];
  supervisor_log = record { path = codes "log"; content = none };
}

abbrev by_coming_up : Occasion
by_coming_up =
    by_attempts morning (λ n. coming_up) (new_session ascii morning second_agent (codes "b") [])

comes_up : (start ascii by_coming_up true (codes "b") []).error ≡ none
unfolding start retry start_once await_ready is_ready is_verified_supervisor is_supervisor
    contains_text has_prefix eq_text
comes_up = refl

start-IsUp_example :
    IsUp
      (λ n. coming_up)
      (new_session ascii morning second_agent (codes "b") [])
      (start ascii by_coming_up true (codes "b") [])
start-IsUp_example =
    start-IsUp ascii morning (λ n. coming_up) true second_agent (codes "b") [] refl comes_up
