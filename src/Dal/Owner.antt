-- ===== src/Dal/Owner.antt =====
-- pkg/dal/owner_posix.go: the walk up to the agent that runs a command, and the session IDs.
pub mod Inspected
pub mod Nearest
use chatta.Prelude.{
  ◌==◌, if◌then◌else◌, ℕ, zero, suc, ◌⊎◌, inl, inr, Bool, not, ◌||◌, Option, none, some, List, [],
  ◌∷◌, ◌++◌,
}
use chatta.Prelude.Int.{ℤ, pos, ltb_ℤ}
use chatta.Text.Basic.{Text, codes, contains_text}
use chatta.Text.Space.{fields}
use chatta.Text.Trim.{trim_left, trim_space}
use chatta.Text.Path.{base}
use chatta.Text.Number.{atoi, decimal_ℤ}
use chatta.Common.{OwnerBinding}
use chatta.Dal.State.{is_empty}
use chatta.Dal.Process.{Processes, process_alive}

-- `index_panic` is that `strings.Fields(cmdline)[0]` has no element.
pub data OwnerError : Type 0 where
  invalid_pid ps_failed bad_parent : Text → OwnerError
  not_running cannot_inspect : ℤ → OwnerError
  no_session index_panic : OwnerError

-- What `ps -o ppid=,command=` prints of a PID, or its error.
abbrev pub Ancestors : Type 0
Ancestors = ℤ → Text ⊎ Text

-- `os.LookupEnv`
abbrev pub Environment : Type 0
Environment = Text → Option Text

-- `trimmed[idx:]` for `idx := strings.IndexAny(trimmed, " \t")`, if it is not negative.
unfoldable pub from_blank : Text → Option Text
from_blank [] = none
from_blank (c ∷ s) =
    let later = from_blank s in if c == 32 || c == b'\t' then some (c ∷ s) else later

abbrev pub command_of : Text → Option Text → Text
command_of trimmed none = trimmed
command_of trimmed (some rest) = trim_space rest

abbrev pub with_parent : Text → Text → Option ℤ → OwnerError ⊎ Text × ℤ
with_parent out parent none = inl (bad_parent parent)
with_parent out parent (some ppid) =
    let trimmed = trim_space out in inr (command_of trimmed (from_blank trimmed), ppid)

abbrev pub with_parts : ℤ → Text → List Text → OwnerError ⊎ Text × ℤ
with_parts pid out [] = inl (cannot_inspect pid)
with_parts pid out (parent ∷ []) = inl (cannot_inspect pid)
with_parts pid out (parent ∷ part ∷ parts) = with_parent out parent (atoi parent)

abbrev pub process_command : ℤ → Text ⊎ Text → OwnerError ⊎ Text × ℤ
process_command pid (inl e) = inl (ps_failed e)
process_command pid (inr out) = with_parts pid out (fields out)

-- The name of the program, without the dashes of a login shell.
abbrev pub runtime_name : Text → Text
runtime_name field = trim_left (λ c. c == b'-') (base field)

abbrev pub is_agent : Text → Bool
is_agent name = contains_text name (codes "claude") || contains_text name (codes "codex")

abbrev pub agent_binding : Processes → ℤ → Text → OwnerBinding
agent_binding p pid name = record {
  pid = pid;
  start_fingerprint = p.process_start pid;
  runtime = name;
}

-- `next` is the rest of the loop, from the parent.
abbrev pub at_fields :
    Processes → ℤ → ℤ → (ℤ → OwnerError ⊎ OwnerBinding) → List Text → OwnerError ⊎ OwnerBinding
at_fields p pid ppid next [] = inl index_panic
at_fields p pid ppid next (field ∷ parts) =
    let name = runtime_name field in
    if is_agent name then inr (agent_binding p pid name) else next ppid

abbrev pub at_command :
    Processes
    → ℤ
    → (ℤ → OwnerError ⊎ OwnerBinding)
    → OwnerError ⊎ Text × ℤ
    → OwnerError ⊎ OwnerBinding
at_command p pid next (inl e) = inl e
at_command p pid next (inr (cmdline, ppid)) = at_fields p pid ppid next (fields cmdline)

-- The loop of `FindAgentOwner`, with the rounds left.
unfoldable pub walk : Processes → Ancestors → ℕ → ℤ → OwnerError ⊎ OwnerBinding
walk p ps zero pid = inl no_session
walk p ps (suc rounds) pid =
    if ltb_ℤ (pos 1) pid
    then at_command p pid (walk p ps rounds) (process_command pid (ps pid))
    else inl no_session

abbrev pub max_rounds : ℕ
max_rounds = 32

abbrev pub fixture : Processes → ℤ → OwnerBinding
fixture p pid = record {
  pid = pid;
  start_fingerprint = p.process_start pid;
  runtime = codes "verification-fixture";
}

abbrev pub with_test_pid : Processes → Text → Option ℤ → OwnerError ⊎ OwnerBinding
with_test_pid p raw none = inl (invalid_pid raw)
with_test_pid p raw (some pid) =
    if not (ltb_ℤ (pos 1) pid)
    then inl (invalid_pid raw)
    else if not (process_alive p (fixture p pid))
    then inl (not_running pid)
    else inr (fixture p pid)

-- `testOwner`, where `none` is that no owner is configured.
abbrev pub test_owner : Processes → Option Text → Option (OwnerError ⊎ OwnerBinding)
test_owner p none = none
test_owner p (some []) = none
test_owner p (some (c ∷ raw)) = some (with_test_pid p (c ∷ raw) (atoi (c ∷ raw)))

abbrev pub or_walk :
    Option (OwnerError ⊎ OwnerBinding) → OwnerError ⊎ OwnerBinding → OwnerError ⊎ OwnerBinding
or_walk (some result) walked = result
or_walk none walked = walked

abbrev pub test_owner_pid_env : Text
test_owner_pid_env = codes "CHATTA_CHAT_TEST_OWNER_PID"

-- With the PID of the parent.
abbrev pub find_agent_owner : Processes → Ancestors → Environment → ℤ → OwnerError ⊎ OwnerBinding
find_agent_owner p ps env parent =
    or_walk (test_owner p (env test_owner_pid_env)) (walk p ps max_rounds parent)

abbrev or_nothing : Option Text → Text
or_nothing none = []
or_nothing (some value) = value

abbrev first_set : List Text → Text
first_set [] = []
first_set (value ∷ values) = if is_empty value then first_set values else value

abbrev pub runtime_session_id : Environment → Text
runtime_session_id env = first_set (
    or_nothing (env (codes "AGENT_CHAT_SESSION"))
    ∷ or_nothing (env (codes "CLAUDE_CODE_SESSION_ID"))
    ∷ or_nothing (env (codes "CODEX_SESSION_ID"))
    ∷ [])

abbrev pub owner_session_id : Environment → OwnerBinding → Text
owner_session_id env owner =
    let id = runtime_session_id env in
    if is_empty id
    then codes "pid:" ++ (decimal_ℤ owner.pid ++ (codes ":" ++ owner.start_fingerprint))
    else id

abbrev session_found : Environment → Text → OwnerError ⊎ OwnerBinding → Text
session_found env fallback (inl e) = fallback
session_found env fallback (inr owner) = owner_session_id env owner

abbrev pub invocation_session_id : Environment → OwnerError ⊎ OwnerBinding → Text → Text
invocation_session_id env found fallback =
    let id = runtime_session_id env in if is_empty id then session_found env fallback found else id
