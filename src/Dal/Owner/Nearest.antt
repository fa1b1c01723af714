-- ===== src/Dal/Owner/Nearest.antt =====
-- Whom `FindAgentOwner` takes for the owner.
use chatta.Prelude.{
  if◌then◌else◌, Bool-cases, ℕ, zero, suc, ◌+◌, ◌-◌, ◌<◌, ◌≡◌, refl, sym, ap, ◌∙◌, ◌≢◌, ◌↔◌, ◌⊎◌,
  inl, inr, true, false, Option, none, some, List, [], ◌∷◌, arith,
}
use chatta.Prelude.Int.{ℤ, pos, ltb_ℤ}
use chatta.Text.Basic.{Text}
use chatta.Text.Space.{fields}
use chatta.Text.Number.{atoi}
use chatta.Common.{OwnerBinding}
use chatta.Dal.Process.{Processes, process_alive}
use chatta.Dal.Owner.Inspected.{owner_in_bounds}
use chatta.Dal.Owner.{
  OwnerError, index_panic, Ancestors, Environment, process_command, runtime_name, is_agent,
  agent_binding, at_fields, at_command, walk, max_rounds, fixture, with_test_pid,
  test_owner_pid_env, find_agent_owner, test_owner, or_walk,
}

-- The program that `ps` reports at a PID, with the PID of the parent.
pub record RunsAt (ps : Ancestors) (pid : ℤ) (name : Text) (ppid : ℤ) : Type 0 where
  pub cmdline : Text
  pub field : Text
  pub parts : List Text
  pub inspected : process_command pid (ps pid) ≡ inr (cmdline, ppid)
  pub split : fields cmdline ≡ field ∷ parts
  pub named : runtime_name field ≡ name

-- From parent to parent, over programs that are no agents.
pub data Climbs (ps : Ancestors) : ℕ → ℤ → ℤ → Type 0 where
  here : {pid : ℤ} → Climbs ps 0 pid pid
  up :
      {n : ℕ} {pid ppid last : ℤ} {name : Text}
      → ltb_ℤ (pos 1) pid ≡ true
      → RunsAt ps pid name ppid
      → is_agent name ≡ false
      → Climbs ps n ppid last
      → Climbs ps (suc n) pid last

-- The first agent among the ancestors of which a search looks at this many.
pub record IsNearest (p : Processes) (ps : Ancestors) (limit : ℕ) (pid : ℤ) (b : OwnerBinding)
    : Type 0 where
  pub steps : ℕ
  pub owner : ℤ
  pub name : Text
  pub ppid : ℤ
  pub near : steps < limit
  pub path : Climbs ps steps pid owner
  pub above_one : ltb_ℤ (pos 1) owner ≡ true
  pub runs : RunsAt ps owner name ppid
  pub agent : is_agent name ≡ true
  pub bound : b ≡ agent_binding p owner name

module _ (p : Processes) (ps : Ancestors) where
  round :
      (n : ℕ) (pid ppid : ℤ) (name : Text)
      → ltb_ℤ (pos 1) pid ≡ true
      → RunsAt ps pid name ppid
      → walk p ps (suc n) pid
        ≡ (if is_agent name then inr (agent_binding p pid name) else walk p ps n ppid)
  unfolding walk
  round n pid ppid name above r = rw above (
      ap (at_command p pid (walk p ps n)) r.inspected
      ∙ ap (at_fields p pid ppid (walk p ps n)) r.split
      ∙ ap (λ name. if is_agent name then inr (agent_binding p pid name) else walk p ps n ppid)
          r.named)

  climb_walk :
      {n : ℕ} {pid last : ℤ} (rest limit : ℕ)
      → limit ≡ n + rest
      → Climbs ps n pid last
      → walk p ps limit pid ≡ walk p ps rest last
  climb_walk {n} {pid} rest limit e here = ap (λ k. walk p ps k pid) (omega (arith, e))
  climb_walk rest limit e (up {n} {pid} {ppid} {last} {name} above r other path) =
      ap (λ k. walk p ps k pid) (omega (arith, e))
      ∙ round (n + rest) pid ppid name above r
      ∙ rw other (climb_walk rest (n + rest) refl path)

  IsNearest-walk :
      (limit : ℕ) (pid : ℤ) (b : OwnerBinding)
      → IsNearest p ps limit pid b
      → walk p ps limit pid ≡ inr b
  IsNearest-walk limit pid b v =
      let rest = limit - suc v.steps in
      climb_walk (suc rest) limit (omega (arith, v.near)) v.path
      ∙ round rest v.owner v.ppid v.name v.above_one v.runs
      ∙ rw v.agent (ap inr (sym v.bound))

  up-IsNearest :
      {limit : ℕ} {pid ppid : ℤ} {name : Text} {b : OwnerBinding}
      → ltb_ℤ (pos 1) pid ≡ true
      → RunsAt ps pid name ppid
      → is_agent name ≡ false
      → IsNearest p ps limit ppid b
      → IsNearest p ps (suc limit) pid b
  up-IsNearest above r other v = record {
    steps = suc v.steps;
    owner = v.owner;
    name = v.name;
    ppid = v.ppid;
    near = omega (arith, v.near);
    path = up above r other v.path;
    above_one = v.above_one;
    runs = v.runs;
    agent = v.agent;
    bound = v.bound;
  }

  at_fields-IsNearest :
      (limit : ℕ) (pid ppid : ℤ) (cmdline : Text) (b : OwnerBinding) (parts : List Text)
      → ltb_ℤ (pos 1) pid ≡ true
      → process_command pid (ps pid) ≡ inr (cmdline, ppid)
      → fields cmdline ≡ parts
      → (walk p ps limit ppid ≡ inr b → IsNearest p ps limit ppid b)
      → at_fields p pid ppid (walk p ps limit) parts ≡ inr b
      → IsNearest p ps (suc limit) pid b
  at_fields-IsNearest limit pid ppid cmdline b [] above e split later h = cc
  at_fields-IsNearest limit pid ppid cmdline b (field ∷ parts) above e split later h =
      let r : RunsAt ps pid (runtime_name field) ppid = record {
        cmdline = cmdline;
        field = field;
        parts = parts;
        inspected = e;
        split = split;
        named = refl;
      } in
      elim (Bool-cases (is_agent (runtime_name field))) [
        | inl agent ↦ record {
          steps = 0;
          owner = pid;
          name = runtime_name field;
          ppid = ppid;
          near = omega arith;
          path = here;
          above_one = above;
          runs = r;
          agent = agent;
          bound = let same = rw agent at h in cc;
        }
        | inr other ↦ up-IsNearest above r other (later (rw other at h))
      ]

  at_command-IsNearest :
      (limit : ℕ) (pid : ℤ) (b : OwnerBinding) (o : OwnerError ⊎ (Text × ℤ))
      → ltb_ℤ (pos 1) pid ≡ true
      → process_command pid (ps pid) ≡ o
      → ((ppid : ℤ) → walk p ps limit ppid ≡ inr b → IsNearest p ps limit ppid b)
      → at_command p pid (walk p ps limit) o ≡ inr b
      → IsNearest p ps (suc limit) pid b
  at_command-IsNearest limit pid b (inl error) above e later h = cc
  at_command-IsNearest limit pid b (inr (cmdline, ppid)) above e later h =
      at_fields-IsNearest limit pid ppid cmdline b (fields cmdline) above e refl (later ppid) h

  walk-IsNearest :
      (limit : ℕ) (pid : ℤ) (b : OwnerBinding)
      → walk p ps limit pid ≡ inr b
      → IsNearest p ps limit pid b
  unfolding walk
  walk-IsNearest zero pid b h = cc
  walk-IsNearest (suc limit) pid b h = elim (Bool-cases (ltb_ℤ (pos 1) pid)) [
    | inl above ↦
        at_command-IsNearest limit pid b (process_command pid (ps pid)) above refl
          (λ ppid. walk-IsNearest limit ppid b) (rw above at h)
    | inr low ↦ let none_there = rw low at h in cc
  ]

-- The owner that a test may name in the environment is a live process.
abbrev IsTestOwner : Processes → Text → OwnerBinding → Type 0
IsTestOwner p raw b =
    (pid : ℤ) × (atoi raw ≡ some pid)
    × (ltb_ℤ (pos 1) pid ≡ true)
    × (b ≡ fixture p pid)
    × (process_alive p b ≡ true)

abbrev pub IsOwner : Processes → Ancestors → Option Text → ℤ → OwnerBinding → Type 0
IsOwner p ps none parent b = IsNearest p ps max_rounds parent b
IsOwner p ps (some []) parent b = IsNearest p ps max_rounds parent b
IsOwner p ps (some (c ∷ raw)) parent b = IsTestOwner p (c ∷ raw) b

with_test_pid_iff :
    (p : Processes) (raw : Text) (o : Option ℤ) (b : OwnerBinding)
    → atoi raw ≡ o
    → (with_test_pid p raw o ≡ inr b) ↔ IsTestOwner p raw b
with_test_pid_iff p raw none b e = (λ h. cc, λ v. cc)
with_test_pid_iff p raw (some pid) b e = (
  λ h. elim (Bool-cases (ltb_ℤ (pos 1) pid)) [
    | inl above ↦ elim (Bool-cases (process_alive p (fixture p pid))) [
      | inl alive ↦
          let same : b ≡ fixture p pid = (let r = rw (above, alive) at h in cc) in
          (pid, e, above, same, ap (process_alive p) same ∙ alive)
      | inr dead ↦ let r = rw (above, dead) at h in cc
    ]
    | inr low ↦ let r = rw low at h in cc
  ],
  λ (other, read, above, same, alive).
      let here : pid ≡ other = cc in
      let above' : ltb_ℤ (pos 1) pid ≡ true = rw here above in
      let alive' : process_alive p (fixture p pid) ≡ true =
        rw here (ap (process_alive p) (sym same) ∙ alive) in
      rw (above', alive') (ap inr (ap (fixture p) here ∙ sym same)),
)

or_walk_iff :
    (p : Processes) (ps : Ancestors) (parent : ℤ) (o : Option Text) (b : OwnerBinding)
    → (or_walk (test_owner p o) (walk p ps max_rounds parent) ≡ inr b) ↔ IsOwner p ps o parent b
or_walk_iff p ps parent none b =
    (walk-IsNearest p ps max_rounds parent b, IsNearest-walk p ps max_rounds parent b)
or_walk_iff p ps parent (some []) b =
    (walk-IsNearest p ps max_rounds parent b, IsNearest-walk p ps max_rounds parent b)
or_walk_iff p ps parent (some (c ∷ raw)) b = with_test_pid_iff p (c ∷ raw) (atoi (c ∷ raw)) b refl

-- The search never takes the first word of a command that has none, whatever `ps` prints. It finds
-- an owner exactly if that is the nearest of the first 32 ancestors whose program has `claude` or
-- `codex` in its name, with every process up to it inspected and of a PID above 1; or exactly the
-- process that the environment names for tests, if its PID is above 1 and it is alive.
pub find_agent_owner_iff :
    (p : Processes) (ps : Ancestors) (env : Environment) (parent : ℤ) (b : OwnerBinding)
    → (find_agent_owner p ps env parent ≢ inl index_panic)
      × ((find_agent_owner p ps env parent ≡ inr b)
          ↔ IsOwner p ps (env test_owner_pid_env) parent b)
find_agent_owner_iff p ps env parent b = (
  owner_in_bounds p ps (env test_owner_pid_env) max_rounds parent,
  or_walk_iff p ps parent (env test_owner_pid_env) b,
)
