-- ===== src/Tests/Samples.antt =====
-- Data that the tests share.
use chatta.Prelude.{true}
use chatta.Text.Basic.{Text, codes}
use chatta.Text.Case.{Unicode}
use chatta.Common.{ChannelMembership}
use chatta.Irc.Conn.State.{Conn}
use chatta.Irc.Conn.Calls.{fresh}

-- Case tables that leave what is not ASCII alone.
abbrev pub ascii : Unicode
ascii = record { upper = λ c. c; lower = λ c. c }

abbrev pub agents : Text
agents = codes "#agents"

abbrev pub membership : Text → ChannelMembership
membership name = record { name = name; kind = codes "custom"; joined_at = 0; confirmed = true }

abbrev pub online : Conn
online = record (fresh (codes "a") 7) { registered = true }
