-- ===== src/Tests/WatchTests.antt =====
-- Tests of watching the inbox.
use chatta.Prelude.{
  ◌≡◌, refl, sym, ap, ◌∙◌, Bool, true, false, Option, none, some, List, [], ◌∷◌, ◌++◌,
}
use chatta.Prelude.Int.{pos}
use chatta.Text.Basic.{codes, eq_text}
use chatta.Common.{TransportStatus}
use chatta.Dal.AtomicFile.{Bytes}
use chatta.Dal.Store.{
  content, or_nothing, read_messages, tail, append_message, split_lines, trim_newline, parsed,
}
use chatta.Dal.Store.Delivery.{appended}
use chatta.Services.Control.{lost}
use chatta.Services.Supervisor.Loop.{supervise}
use chatta.Services.Message.Inbox.{from_others}
use chatta.Services.Message.Watch.{
  ticked, Turn, lost_notice, shown, Watcher, notice_change, watch_turns, Printing, rendered,
}
use chatta.Services.Message.Watch.Shown.{messages_shown, still, grown, watch_turns-shown}
use chatta.Services.Message.Watch.Interrupted.{
  Announces, notices_of, status_reply, watch_turns-Announces,
}
use chatta.Tests.Samples.{ascii}
use chatta.Tests.Coding.{message_codec}
use chatta.Tests.StoreTests.{some_session, two_messages, hello}
use chatta.Tests.HealthTests.{nothing_runs}
use chatta.Tests.SupervisorTests.{
  plain, dials, dialled_once, redials, status_of_generation, seen_first, seen_again,
}

abbrev printing : Printing
printing = record { stamp = λ n. codes "10:00"; now = codes "10:01"; number = λ n. codes "6667" }

message_line :
    rendered printing some_session (shown (hello (codes "hi"))) ≡ codes "10:00 (DM) <b> hi"
unfolding eq_text
message_line = refl

notice_line :
    rendered printing some_session lost_notice
    ≡ codes "10:01 -!- connection to h:6667 lost; reconnecting"
notice_line = refl

abbrev empty_turn : Bytes → Turn
empty_turn bytes = record {
  trigger = ticked;
  reply = lost (codes "no socket");
  processes = nothing_runs;
  file = content bytes;
}

abbrev from_start : Watcher
from_start = record { down = true; generation = 0; offset = pos 0 }

abbrev with_two : Bytes
with_two = or_nothing (appended message_codec two_messages (some []))

abbrev two_turns : List Turn
two_turns = empty_turn with_two ∷ empty_turn with_two ∷ []

still_runs : (watch_turns message_codec some_session none two_turns from_start).ending ≡ none
unfolding watch_turns notice_change read_messages tail append_message split_lines trim_newline
still_runs = refl

watch_turns-shown_example :
    messages_shown (watch_turns message_codec some_session none two_turns from_start).emitted
    ≡ from_others some_session (two_messages ++ [] ++ [])
watch_turns-shown_example =
    watch_turns-shown message_codec some_session none from_start
      (grown two_messages refl (grown [] refl (still with_two))) refl still_runs

abbrev first_seen : Watcher
first_seen = record { down = false; generation = 1; offset = pos 0 }

-- A loss is announced once.
announced_once :
    notices_of
      (watch_turns message_codec some_session none
        (empty_turn [] ∷ empty_turn [] ∷ [])
        first_seen).emitted
    ≡ lost_notice ∷ []
unfolding watch_turns notice_change read_messages tail append_message split_lines trim_newline
    parsed
announced_once = refl

abbrev is_registered : Option TransportStatus → Bool
is_registered none = true
is_registered (some t) = t.registered

abbrev again_turn : Turn
again_turn = record (empty_turn []) {
  reply = status_reply plain (supervise ascii dialled_once redials);
}

watch_turns-Announces_example :
    Announces ascii plain dialled_once redials (
      notices_of (watch_turns message_codec some_session none (again_turn ∷ []) first_seen).emitted)
watch_turns-Announces_example =
    watch_turns-Announces ascii plain message_codec some_session none (dials ∷ []) redials
      (status_of_generation 1) first_seen again_turn seen_first refl refl refl refl
      (λ b there. ap is_registered (sym there ∙ seen_again))
