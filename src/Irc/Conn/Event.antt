-- ===== src/Irc/Conn/Event.antt =====
-- Runs of a connection: every sequence of lines read and of calls made, from any goroutines.
use chatta.Prelude.{ℕ, Option, List, [], ◌∷◌}
use chatta.Text.Basic.{Text}
use chatta.Text.Case.{Unicode}
use chatta.Irc.Conn.State.{Conn}
use chatta.Irc.Conn.Handle.{read_line}
use chatta.Irc.Conn.Calls

-- What may happen next: the read loop gets a line, a caller makes a call or stops waiting.
pub data Event : Type 0 where
  reads : ℕ → Option Text → Text → Event
  joins lists_names : Text → Option Text → Event
  direct_timeout : Text → Event
  parts sends sends_direct : Text → Text → Option Text → Event
  quits pings : Text → Option Text → Event
  listens : Event

unfoldable pub step : Unicode → Conn → Event → Conn
step u c (reads now w line) = read_line u now w line c
step u c (joins channel w) = (Calls.join channel w c).0
step u c (lists_names channel w) = (Calls.names channel w c).0
step u c (direct_timeout target) = (Calls.privmsg_dm_timeout target c).0
step u c (parts channel reason w) = (Calls.part channel reason w c).0
step u c (sends target text w) = (Calls.privmsg target text w c).0
step u c (sends_direct target text w) = (Calls.privmsg_dm target text w c).0
step u c (quits reason w) = (Calls.quit reason w c).0
step u c (pings payload w) = (Calls.ping payload w c).0
step u c listens = Calls.on_message c

unfoldable pub run : Unicode → Conn → List Event → Conn
run u c [] = c
run u c (e ∷ es) = run u (step u c e) es
