-- ===== src/Tests/SupervisorTests.antt =====
-- Tests of a supervisor's requests and runs.
use chatta.Prelude.{
  drop, All, ℕ, ◌-◌, ◌*◌, ◌≤◌, ◌≡◌, refl, ◌↔◌, inr, true, false, Option, none, some, List, [], ◌∷◌,
  ◌++◌, map, arith,
}
use chatta.Prelude.Int.{pos}
use mathlib.Core.List.{Perm, reverse, reverse_perm}
use chatta.Text.Basic.{Text, codes, eq_text}
use chatta.Common.{TransportStatus}
use chatta.Dal.AtomicFile.{Slot}
use chatta.Dal.Process.{process_alive}
use chatta.Dal.Binding.{load_codex_binding}
use chatta.Irc.Conn.State.{Conn, send, register_pending}
use chatta.Irc.Conn.Table.{insert}
use chatta.Irc.Conn.Calls
use chatta.Irc.Conn.Calls.{fresh}
use chatta.Services.Control.{Op, ControlCode, ControlRequest, ControlResponse, done}
use chatta.Services.Codex.Binding.{has_active_codex_binding}
use chatta.Services.Supervisor.{
  Printing, silent, set_conn, set_no_conn, failure_text, refusal, status_response, handle_request,
  not_connected_response,
}
use chatta.Services.Supervisor.Loop.{
  Surroundings, is_abandoned, owner_exited, running, stopped, Supervisor, Happening, loads, elapsed,
  joins, join_times_out, disconnects, ticks, advance, supervise, new_supervisor, second,
}
use chatta.Services.Supervisor.Exits.{exit_of}
use chatta.Services.Supervisor.Exits.Ended.{EndedBy, supervise-exit_iff}
use chatta.Services.Supervisor.Link.Generation.{status_seen, AlwaysUp, generation_tells}
use chatta.Services.Supervisor.Silence.{held_conn, status-silent}
use chatta.Services.Supervisor.Rejoin.{asked_for}
use chatta.Services.Supervisor.Rejoin.Runs.{supervise-rejoin}
use chatta.Services.Supervisor.Rejoin.Ends.{timeouts, supervise-joins_end}
use chatta.Services.Supervisor.Farewell.{goodbye_line, quit_line, tick-farewell}
use chatta.Services.Supervisor.Requests.{IsAsked, handle_request-IsAsked}
use chatta.Tests.IrcTests.{online-Sound}
use chatta.Services.Supervisor.{awaits}
use chatta.Services.Control.{ControlCode}
use chatta.Tests.Samples.{ascii, agents, online}
use chatta.Tests.Coding.{binding_codec}
use chatta.Tests.StoreTests.{some_session}
use chatta.Tests.HealthTests.{nothing_runs}
use chatta.Tests.StartTests.{shell_runs}

abbrev pub plain : Printing
plain = record { quote = λ s. s; number = λ n. codes "6667"; duration = λ n. codes "36s" }

abbrev no_binding : Slot
no_binding = record { file = none; temp = none }

-- With the owner alive, and without.
abbrev by_day : Surroundings
by_day = record {
  processes = shell_runs;
  binding_codec = binding_codec;
  binding_fault = none;
  binding = no_binding;
  channel_order = reverse;
}

abbrev by_night : Surroundings
by_night = record by_day { processes = nothing_runs }

kept : is_abandoned by_day some_session ≡ false
unfolding process_alive eq_text
kept = refl

left : is_abandoned by_night some_session ≡ true
unfolding process_alive has_active_codex_binding load_codex_binding
left = refl

abbrev unwritten : ℕ → Option Text
unwritten n = none

abbrev pub dials : Happening
dials = loads (done some_session) by_day (inr online)

supervise-exit_iff_example :
    (exit_of
        (supervise ascii new_supervisor
          (loads (done some_session) by_night (inr online) ∷ [])).phase
      ≡ some owner_exited)
    ↔ EndedBy ascii new_supervisor
        (loads (done some_session) by_night (inr online) ∷ [])
        owner_exited
supervise-exit_iff_example =
    supervise-exit_iff ascii (loads (done some_session) by_night (inr online) ∷ []) owner_exited

exits :
    exit_of
      (supervise ascii new_supervisor (loads (done some_session) by_night (inr online) ∷ [])).phase
    ≡ some owner_exited
unfolding supervise advance process_alive has_active_codex_binding load_codex_binding
exits = refl

abbrev pub status_of_generation : ℕ → TransportStatus
status_of_generation n = record {
  connected = true;
  registered = true;
  nick = codes "a";
  channels = [];
  last_pong = 0;
  generation = n;
  failure = [];
}

abbrev pub dialled_once : Supervisor
dialled_once = supervise ascii new_supervisor (dials ∷ [])

-- The connection is lost, and there is a new one.
abbrev pub redials : List Happening
redials = joins none ∷ join_times_out ∷ disconnects none ∷ elapsed ∷ dials ∷ []

pub seen_first : status_seen plain dialled_once ≡ some (status_of_generation 1)
unfolding supervise advance status_response set_conn process_alive eq_text Calls.on_message
seen_first = refl

pub seen_again :
    status_seen plain (supervise ascii dialled_once redials) ≡ some (status_of_generation 2)
unfolding supervise advance status_response set_conn set_no_conn process_alive eq_text
    Calls.on_message Calls.join register_pending insert send
seen_again = refl

generation_tells_example : (1 ≤ 2) × ((◌≡◌ {A = ℕ} 1 2) ↔ AlwaysUp ascii plain dialled_once redials)
generation_tells_example =
    generation_tells ascii plain (dials ∷ []) redials (status_of_generation 1)
      (status_of_generation 2) seen_first seen_again

abbrev settled : Supervisor
settled = record {
  phase = running some_session online;
  handler = record { holds_conn = true; failure = none; generation = 1 };
  log = [];
}

status-silent_example :
    let t =
      supervise ascii settled
        (ticks by_day (60 * second) [] unwritten ∷ disconnects none ∷ elapsed ∷ []) in
    status_response plain t.handler (held_conn t)
    ≡ refusal ControlCode.not_connected
        (failure_text plain (silent (codes "h") (pos 6667) (60 * second - 7)))
status-silent_example =
    status-silent ascii plain settled by_day (60 * second) [] unwritten some_session online
      (disconnects none ∷ elapsed ∷ []) refl kept (omega arith) refl

abbrev joined_conn : Conn
joined_conn = (Calls.join agents none (Calls.on_message online)).0

joins_agents :
    (supervise ascii new_supervisor (dials ∷ joins none ∷ join_times_out ∷ [])).phase
    ≡ running some_session joined_conn
unfolding supervise advance set_conn process_alive eq_text Calls.on_message Calls.join
    register_pending insert send
joins_agents = refl

supervise-rejoin_example :
    (some_session ≡ some_session)
    × All
        (λ m.
          asked_for m.name joined_conn.written
            (drop 0 (supervise ascii new_supervisor (dials ∷ joins none ∷ join_times_out ∷ [])).log)
          ≡ true)
        some_session.channels
supervise-rejoin_example =
    supervise-rejoin ascii new_supervisor some_session some_session by_day online joined_conn
      (joins none ∷ join_times_out ∷ []) refl kept refl joins_agents

supervise-joins_end_example :
    (c : Conn) × ((supervise ascii new_supervisor
        (dials ∷ timeouts (some (codes "broken pipe") ∷ []))).phase
      ≡ running some_session c)
supervise-joins_end_example =
    supervise-joins_end ascii new_supervisor some_session by_day online
      (some (codes "broken pipe") ∷ []) refl kept refl

tick-farewell_example :
    let t = advance ascii settled (ticks by_night 8 [] unwritten) in
    (lines : List Text) × (Perm lines (map (goodbye_line some_session) online.channels))
    × (t.phase
        ≡ stopped owner_exited
            (some (record online { written = online.written ++ (lines ++ quit_line ∷ []) })))
    × (t.handler.holds_conn ≡ false)
tick-farewell_example =
    tick-farewell ascii settled by_night 8 [] unwritten some_session online refl left (λ i. refl)
      (reverse_perm online.channels)

abbrev join_request : ControlRequest
join_request = record { op = Op.join; target = agents; text = []; reason = [] }

abbrev no_codex : Op → ControlResponse
no_codex op = not_connected_response

handle_request-IsAsked_example :
    (r : ℕ) × (d : Conn) × (handle_request plain no_codex settled.handler join_request none
        (some online)
      ≡ (some d, awaits ControlCode.join_failed r))
    × IsAsked plain agents online d r
handle_request-IsAsked_example =
    handle_request-IsAsked plain no_codex settled.handler join_request online refl online-Sound refl
