-- ===== src/Tests/OwnerTests.antt =====
-- Tests of the search for the owner, and of the session IDs.
use chatta.Prelude.{if◌then◌else◌, ◌≡◌, refl, ◌≢◌, ◌↔◌, inl, inr, none, some, []}
use chatta.Prelude.Int.{pos, eq_ℤ}
use chatta.Text.Basic.{Text, codes, eq_text, contains_text, has_prefix}
use chatta.Text.Space.{is_space, fields, fields_from}
use chatta.Text.Trim.{trim_left, trim_right, trim, trim_space}
use chatta.Text.Path.{split_slash, base}
use chatta.Text.Number.{digits_from, atoi, decimal, decimal_ℤ}
use chatta.Common.{OwnerBinding}
use chatta.Dal.Process.{Processes}
use chatta.Dal.Owner.{
  index_panic, invalid_pid, cannot_inspect, Ancestors, Environment, from_blank, walk,
  test_owner_pid_env, find_agent_owner, invocation_session_id,
}
use chatta.Dal.Owner.Nearest.{IsOwner, find_agent_owner_iff}

-- A login shell, process 40, under an agent, process 30.
abbrev tree : Ancestors
tree pid =
    if eq_ℤ pid (pos 40)
    then inr (codes "   30 -zsh\n")
    else if eq_ℤ pid (pos 30)
    then inr (codes "    1 /opt/bin/claude --resume\n")
    else inl (codes "exit status 1")

abbrev started : Processes
started = record {
  process_start = λ pid. codes "Mon";
  signalled = λ pid. eq_ℤ pid (pos 30);
  process_command = λ pid. [];
}

abbrev plain_env : Environment
plain_env key = none

abbrev agent : OwnerBinding
agent = record { pid = pos 30; start_fingerprint = codes "Mon"; runtime = codes "claude" }

found_above : find_agent_owner started tree plain_env (pos 40) ≡ inr agent
unfolding walk fields fields_from is_space atoi digits_from trim_space trim trim_left trim_right
    from_blank base split_slash contains_text has_prefix
found_above = refl

-- A process that prints one word only is not inspected.
one_word :
    find_agent_owner started (λ pid. inr (codes "30\n")) plain_env (pos 40)
    ≡ inl (cannot_inspect (pos 40))
unfolding walk fields fields_from is_space
one_word = refl

abbrev test_env : Text → Environment
test_env value key = if eq_text key test_owner_pid_env then some value else none

test_pid_refused :
    find_agent_owner started tree (test_env (codes "not-a-pid")) (pos 40)
    ≡ inl (invalid_pid (codes "not-a-pid"))
unfolding walk atoi digits_from eq_text
test_pid_refused = refl

named_by_pid : invocation_session_id plain_env (inr agent) (codes "saved") ≡ codes "pid:30:Mon"
unfolding decimal_ℤ decimal
named_by_pid = refl

find_agent_owner_iff_example :
    (find_agent_owner started tree plain_env (pos 40) ≢ inl index_panic)
    × ((find_agent_owner started tree plain_env (pos 40) ≡ inr agent)
        ↔ IsOwner started tree none (pos 40) agent)
find_agent_owner_iff_example = find_agent_owner_iff started tree plain_env (pos 40) agent
