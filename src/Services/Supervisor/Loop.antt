-- ===== src/Services/Supervisor/Loop.antt =====
-- pkg/services/session.go: the loop of `supervise` from the point where the lock, the log and the
-- control socket are there. A phase is a place in the loop at which it waits; a `Happening` is what
-- it waits for, or what other goroutines do to the connection. Times are in nanoseconds.
mod Phases
pub use Phases.*
use chatta.Prelude.{
  ltb, if◌then◌else◌, ℕ, suc, ◌-◌, ◌*◌, ◌⊎◌, inl, inr, false, Option, none, some, List, [], ◌∷◌,
  ◌++◌,
}
use chatta.Text.Basic.{Text, codes}
use chatta.Text.Case.{Unicode}
use chatta.Common.{ChatSession, ChannelMembership}
use chatta.Irc.Conn.State.{Error, Conn}
use chatta.Irc.Conn.Calls.{Progress, returned, waiting, wait_done, wait_timeout}
use chatta.Irc.Conn.Calls
use chatta.Irc.Conn.Event.{step}
use chatta.Services.Control.{Outcome, done, refused}
use chatta.Services.Supervisor.{undialled, silent, set_conn, set_no_conn, set_failure}

abbrev pub noted_failure : (Text → Error → Entry) → Text → Option Error → List Entry → List Entry
noted_failure entry name none log = log
noted_failure entry name (some e) log = log ++ (entry name e) ∷ []

-- The next join, or the inner loop when none is left.
abbrev pub next_join : ChatSession → Conn → List ChannelMembership → Phase
next_join st c [] = running st c
next_join st c (m ∷ ms) = joining st c (m ∷ ms)

abbrev pub dialled : ChatSession → Error ⊎ Conn → Supervisor → Supervisor
dialled st (inl e) s = record {
  phase = undialled_wait;
  handler = set_failure (undialled e) s.handler;
  log = s.log ++ (connect_failed e) ∷ [];
}
dialled st (inr c) s = record s {
  phase = next_join st (Calls.on_message c) st.channels;
  handler = set_conn s.handler;
}

abbrev pub loaded : Outcome ChatSession → Surroundings → Error ⊎ Conn → Supervisor → Supervisor
loaded (refused e) w dial s = record s {
  phase = stopped (unloaded e) none;
  log = s.log ++ (load_failed e) ∷ [];
}
loaded (done st) w dial s =
    if is_abandoned w st
    then record s { phase = stopped owner_exited none; log = s.log ++ owner_has_exited ∷ [] }
    else dialled st dial s

abbrev pub joined :
    ChatSession → Text → List ChannelMembership → Conn × Progress → Supervisor → Supervisor
joined st name ms (c, returned e) s = record s {
  phase = next_join st c ms;
  log = noted_failure join_failed name e s.log;
}
joined st name ms (c, waiting r) s = record s { phase = confirming st c r name ms }

abbrev pub confirmed :
    ChatSession
    → Conn
    → Text
    → List ChannelMembership
    → Phase
    → Option (Option Error × List Text)
    → Supervisor
    → Supervisor
confirmed st c name ms here none s = s
confirmed st c name ms here (some (e, names)) s = record s {
  phase = next_join st c ms;
  log = noted_failure join_failed name e s.log;
}

abbrev pub farewell : ChatSession → Text
farewell st = codes "[STATUS] " ++ (st.nick ++ codes " -> all: my session ended; signing off.")

-- The loop of `announceDeparture`; the first number is that of the write.
unfoldable pub announce :
    (ℕ → Option Text) → ℕ → Text → List Text → Conn × List Entry → Conn × List Entry
announce writes n text [] (c, log) = (c, log)
announce writes n text (channel ∷ channels) (c, log) =
    let (d, e) = Calls.privmsg channel text (writes n) c in
    announce writes (suc n) text channels (d, noted_failure announce_failed channel e log)

abbrev pub leaves : Exit → Conn × List Entry → Supervisor → Supervisor
leaves why (c, log) s = record {
  phase = stopped why (some c);
  handler = set_no_conn s.handler;
  log = log;
}

abbrev pub quit_conn : Text → Option Text → Conn → Conn
quit_conn reason w c = (Calls.quit reason w c).0

unfoldable pub depart :
    Surroundings → ChatSession → (ℕ → Option Text) → Conn → List Entry → Conn × List Entry
depart w st writes c log =
    let (d, log') = announce writes 1 (farewell st) (w.channel_order c.channels) (c, log) in
    (quit_conn (codes "owner exited") (writes 0) d, log')

-- One turn of the ticker.
unfoldable pub tick :
    Surroundings → ℕ → Text → (ℕ → Option Text) → ChatSession → Conn → Supervisor → Supervisor
tick w now payload writes st c s =
    let idle = now - c.last_activity in
    if is_abandoned w st
    then leaves owner_exited (depart w st writes c (s.log ++ owner_ended ∷ [])) s
    else if ltb liveness_deadline idle
    then record s {
      handler = set_failure (silent st.host st.port idle) s.handler;
      log = s.log ++ (no_traffic idle) ∷ [];
    }
    else if ltb liveness_probe idle
    then record s { phase = running st (Calls.ping payload (writes 0) c).0 }
    else s

abbrev pub lost_entry : Option Text → List Entry → List Entry
lost_entry none log = log
lost_entry (some e) log = log ++ (connection_lost e) ∷ []

-- A step in each phase. What does not concern a phase changes nothing.
abbrev pub at_running : Unicode → ChatSession → Conn → Happening → Supervisor → Supervisor
at_running u st c (signalled w) s =
    leaves stop_signal (quit_conn (codes "leaving") w c, s.log ++ stop_received ∷ []) s
at_running u st c (disconnects e) s = record {
  phase = pausing;
  handler = set_no_conn s.handler;
  log = lost_entry e s.log;
}
at_running u st c (ticks w now payload writes) s = tick w now payload writes st c s
at_running u st c (calls e) s = record s { phase = running st (step u c e) }
at_running u st c h s = s

abbrev pub at_joining :
    Unicode
    → ChatSession
    → Conn
    → ChannelMembership
    → List ChannelMembership
    → Happening
    → Supervisor
    → Supervisor
at_joining u st c m ms (joins w) s = joined st m.name ms (Calls.join m.name w c) s
at_joining u st c m ms (calls e) s = record s { phase = joining st (step u c e) (m ∷ ms) }
at_joining u st c m ms h s = s

abbrev pub at_confirming :
    Unicode
    → ChatSession
    → Conn
    → ℕ
    → Text
    → List ChannelMembership
    → Happening
    → Supervisor
    → Supervisor
at_confirming u st c r name ms join_ends s =
    confirmed st c name ms (confirming st c r name ms) (wait_done r c) s
at_confirming u st c r name ms join_times_out s = record s {
  phase = next_join st c ms;
  log = s.log ++ (join_failed name wait_timeout) ∷ [];
}
at_confirming u st c r name ms (calls e) s = record s {
  phase = confirming st (step u c e) r name ms;
}
at_confirming u st c r name ms h s = s

abbrev pub at_undialled : Happening → Supervisor → Supervisor
at_undialled (signalled w) s = record s { phase = stopped stop_signal none }
at_undialled elapsed s = record s { phase = loading }
at_undialled h s = s

abbrev pub at_pausing : Happening → Supervisor → Supervisor
at_pausing elapsed s = record s { phase = loading }
at_pausing h s = s

abbrev pub at_loading : Happening → Supervisor → Supervisor
at_loading (loads st w dial) s = loaded st w dial s
at_loading h s = s

abbrev pub in_phase : Unicode → Phase → Happening → Supervisor → Supervisor
in_phase u loading h s = at_loading h s
in_phase u undialled_wait h s = at_undialled h s
in_phase u pausing h s = at_pausing h s
in_phase u (joining st c []) h s = record s { phase = running st c }
in_phase u (joining st c (m ∷ ms)) h s = at_joining u st c m ms h s
in_phase u (confirming st c r name ms) h s = at_confirming u st c r name ms h s
in_phase u (running st c) h s = at_running u st c h s
in_phase u (stopped why c) h s = s

unfoldable pub advance : Unicode → Supervisor → Happening → Supervisor
advance u s h = in_phase u s.phase h s

unfoldable pub supervise : Unicode → Supervisor → List Happening → Supervisor
supervise u s [] = s
supervise u s (h ∷ hs) = supervise u (advance u s h) hs

abbrev pub new_supervisor : Supervisor
new_supervisor = record {
  phase = loading;
  handler = record { holds_conn = false; failure = none; generation = 0 };
  log = [];
}
