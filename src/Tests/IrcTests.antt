-- ===== src/Tests/IrcTests.antt =====
-- Tests of the IRC layer.
use chatta.Prelude.{◌≡◌, refl, true, false, none, some, List, [], ◌∷◌}
use chatta.Text.Basic.{codes, eq_text, has_prefix, cut}
use chatta.Text.Space.{fields, is_space}
use chatta.Text.Trim.{trim_right}
use chatta.Text.Case.{to_upper, to_upper_rune}
use chatta.Irc.Message.{Message, parse_line, format_line, needs_colon}
use chatta.Irc.Message.RoundTrip.{parse_line-format_line, sent}
use chatta.Irc.Conn.Table.{lookup, insert}
use chatta.Irc.Conn.State.{Conn, register_pending, join_key}
use chatta.Irc.Conn.Handle.{handle, case_of}
use chatta.Irc.Conn.Calls.{dial, join, wait_done, waiting}
use chatta.Irc.Conn.Event.{Event, run, reads, joins, listens}
use chatta.Irc.Conn.Pending.{Sound}
use chatta.Irc.Conn.Steps.{register-Kept}
use chatta.Irc.Conn.Correlation.{run-dial-IsValid, overtaken_join_waits}
use chatta.Irc.Conn.Replies.{Awaits, error_of}
use chatta.Irc.Conn.Replies.Joins.{handle-answer_to_join}
use chatta.Tests.Samples.{ascii, agents, online}

parse_privmsg :
    parse_line ascii (codes ":bob!u@h privmsg #agents :hi :there\r\n")
    ≡ some (record {
      prefix = codes "bob!u@h";
      command = codes "PRIVMSG";
      params = agents ∷ codes "hi :there" ∷ [];
      trailing = true;
    })
unfolding parse_line cut fields is_space trim_right to_upper to_upper_rune
parse_privmsg = refl

format_privmsg :
    format_line (codes "PRIVMSG") (agents ∷ codes "hi there" ∷ [])
    ≡ codes "PRIVMSG #agents :hi there"
unfolding format_line
format_privmsg = refl

parse_line-format_line_example :
    parse_line ascii (format_line (codes "PRIVMSG") (agents ∷ codes "hi there" ∷ []))
    ≡ some (sent ascii (codes "PRIVMSG") (agents ∷ codes "hi there" ∷ []))
unfolding is_space has_prefix needs_colon trim_right
parse_line-format_line_example =
    parse_line-format_line ascii (codes "PRIVMSG") (agents ∷ codes "hi there" ∷ []) refl
      (refl, (refl, refl))

-- A tab is white space for `ParseLine`, and no reason for a colon for `FormatLine`.
tab_splits :
    parse_line ascii (format_line (codes "PRIVMSG") (agents ∷ codes "a\tb" ∷ []))
    ≡ some (record {
      prefix = [];
      command = codes "PRIVMSG";
      params = agents ∷ codes "a" ∷ codes "b" ∷ [];
      trailing = false;
    })
unfolding parse_line format_line cut fields is_space trim_right to_upper to_upper_rune
tab_splits = refl

pub online-Sound : Sound online
unfolding lookup
online-Sound = record { are_open = λ k r h. cc; apart = λ k j r h h'. cc }

-- One join of #agents is pending as request 0.
abbrev joining_agents : Conn
joining_agents = (register_pending (join_key agents) online).0

joining_agents-Awaits : Awaits (join_key agents) 0 joining_agents
unfolding register_pending lookup insert eq_text
joining_agents-Awaits = record {
  sound = (register-Kept (join_key agents) online online-Sound).valid;
  there = refl;
}

abbrev end_of_list : Message
end_of_list = record {
  prefix = codes "server";
  command = codes "366";
  params = codes "a" ∷ agents ∷ codes "End" ∷ [];
  trailing = true;
}

handle-answer_to_join_example :
    error_of (wait_done 0 (handle 9 none end_of_list joining_agents)) ≡ some none
unfolding case_of eq_text
handle-answer_to_join_example =
    handle-answer_to_join agents 0 9 none end_of_list joining_agents joining_agents-Awaits

abbrev session : List Event
session =
    listens
    ∷ reads 8 none (codes ":server 001 a :welcome")
    ∷ joins agents none
    ∷ reads 9 none (codes ":a!u@h JOIN #agents")
    ∷ reads 9 none (codes ":server 366 a #agents :End of NAMES list")
    ∷ []

run-dial-IsValid_example : Sound (run ascii (dial (codes "a") (codes "a") 7 none none).0 session)
run-dial-IsValid_example = run-dial-IsValid ascii (codes "a") (codes "a") 7 none none session

-- The join has been answered.
abbrev answered : Conn
answered = handle 9 none end_of_list joining_agents

overtaken_join_waits_example :
    ((join agents none online).1 ≡ waiting 0)
    × (wait_done 0 (run ascii (join agents none (join agents none online).0).0 session) ≡ none)
overtaken_join_waits_example = overtaken_join_waits ascii online agents session online-Sound refl
