-- ===== src/Dal/Owner/Inspected.antt =====
-- A process that `processCommand` inspects has a command with a first word.
use chatta.Prelude.{
  ◌==◌, Bool-cases, if_intro, ℕ, zero, suc, ◌≡◌, refl, ◌∙◌, ◌≢◌, ◌⊎◌, inl, inr, true, not, ◌||◌,
  Option, none, some, List, [], ◌∷◌,
}
use chatta.Prelude.Int.{ℤ, pos, ltb_ℤ}
use chatta.Text.Basic.{Text}
use chatta.Text.Space.{is_space, fields, has_word, fields_iff}
use chatta.Text.Trim.{ends_outside, trim_space, any-trim, any_of_end, trim_ends}
use chatta.Text.Number.{atoi}
use chatta.Common.{OwnerBinding}
use chatta.Dal.Process.{Processes, process_alive}
use chatta.Dal.Owner.{
  OwnerError, index_panic, Ancestors, from_blank, command_of, with_parent, with_parts,
  process_command, runtime_name, is_agent, at_fields, at_command, walk, fixture, with_test_pid,
  test_owner, or_walk,
}

has_word-trim_space : (s : Text) → has_word (trim_space s) ≡ has_word s
unfolding trim_space
has_word-trim_space s = any-trim is_space s

trim_space_ends : (s : Text) → ends_outside is_space (trim_space s) ≡ true
unfolding trim_space
trim_space_ends s = trim_ends is_space s

-- What stands from a blank on ends as the text does.
from_blank-end :
    (s rest : Text)
    → ends_outside is_space s ≡ true
    → from_blank s ≡ some rest
    → has_word rest ≡ true
unfolding from_blank
from_blank-end [] rest ends h = cc
from_blank-end (c ∷ s) rest ends h = elim (Bool-cases (c == 32 || c == b'\t')) [
  | inl blank ↦
      let same : rest ≡ c ∷ s = (let r = rw blank at h in cc) in
      rw same (any_of_end is_space c s ends)
  | inr other ↦ from_blank-end s rest (ends_later s ends) (rw other at h)
]
  where
    ends_later : (s : Text) → ends_outside is_space (c ∷ s) ≡ true → ends_outside is_space s ≡ true
    ends_later [] h = refl
    ends_later (d ∷ s) h = h

command_of-has_word :
    (out : Text) (o : Option Text)
    → has_word out ≡ true
    → from_blank (trim_space out) ≡ o
    → has_word (command_of (trim_space out) o) ≡ true
command_of-has_word out none h e = has_word-trim_space out ∙ h
command_of-has_word out (some rest) h e =
    has_word-trim_space rest ∙ from_blank-end (trim_space out) rest (trim_space_ends out) e

-- A command with a first word, or an error.
abbrev IsUsable : OwnerError ⊎ (Text × ℤ) → Type 0
IsUsable (inl e) = e ≢ index_panic
IsUsable (inr (cmdline, ppid)) = fields cmdline ≢ []

with_parent-IsUsable :
    (out parent : Text) (o : Option ℤ) → has_word out ≡ true → IsUsable (with_parent out parent o)
with_parent-IsUsable out parent none h = λ e. cc
with_parent-IsUsable out parent (some ppid) h =
    (fields_iff (command_of (trim_space out) (from_blank (trim_space out)))).1
      (command_of-has_word out (from_blank (trim_space out)) h refl)

with_parts-IsUsable :
    (pid : ℤ) (out : Text) (parts : List Text)
    → fields out ≡ parts
    → IsUsable (with_parts pid out parts)
with_parts-IsUsable pid out [] e = λ h. cc
with_parts-IsUsable pid out (parent ∷ []) e = λ h. cc
with_parts-IsUsable pid out (parent ∷ part ∷ parts) e =
    with_parent-IsUsable out parent (atoi parent) ((fields_iff out).0 (λ none_there. cc))

process_command-IsUsable : (pid : ℤ) (o : Text ⊎ Text) → IsUsable (process_command pid o)
process_command-IsUsable pid (inl e) = λ h. cc
process_command-IsUsable pid (inr out) = with_parts-IsUsable pid out (fields out) refl

module _ (p : Processes) (ps : Ancestors) where
  at_command_in_bounds :
      (pid : ℤ) (next : ℤ → OwnerError ⊎ OwnerBinding) (o : OwnerError ⊎ (Text × ℤ))
      → IsUsable o
      → ((ppid : ℤ) → next ppid ≢ inl index_panic)
      → at_command p pid next o ≢ inl index_panic
  at_command_in_bounds pid next (inl e) usable later = λ h. usable (cc)
  at_command_in_bounds pid next (inr (cmdline, ppid)) usable later =
      of_fields (fields cmdline) usable
    where
      of_fields :
          (parts : List Text) → parts ≢ [] → at_fields p pid ppid next parts ≢ inl index_panic
      of_fields [] ne h = ne refl
      of_fields (field ∷ parts) ne h = elim (Bool-cases (is_agent (runtime_name field))) [
        | inl agent ↦ let r = rw agent at h in cc
        | inr other ↦ later ppid (rw other at h)
      ]

  pub walk_in_bounds : (rounds : ℕ) (pid : ℤ) → walk p ps rounds pid ≢ inl index_panic
  unfolding walk
  walk_in_bounds zero pid h = cc
  walk_in_bounds (suc rounds) pid h = elim (Bool-cases (ltb_ℤ (pos 1) pid)) [
    | inl above ↦
        at_command_in_bounds pid (walk p ps rounds) (process_command pid (ps pid))
          (process_command-IsUsable pid (ps pid)) (walk_in_bounds rounds) (rw above at h)
    | inr low ↦ let r = rw low at h in cc
  ]

test_pid_in_bounds :
    (p : Processes) (raw : Text) (o : Option ℤ) → with_test_pid p raw o ≢ inl index_panic
test_pid_in_bounds p raw none = λ h. cc
test_pid_in_bounds p raw (some pid) =
    if_intro (λ r. r ≢ inl index_panic) (not (ltb_ℤ (pos 1) pid)) _ _ (λ low h. cc)
      (λ above.
        if_intro (λ r. r ≢ inl index_panic) (not (process_alive p (fixture p pid))) _ _
          (λ dead h. cc) (λ alive h. cc))

pub owner_in_bounds :
    (p : Processes) (ps : Ancestors) (o : Option Text) (rounds : ℕ) (parent : ℤ)
    → or_walk (test_owner p o) (walk p ps rounds parent) ≢ inl index_panic
owner_in_bounds p ps none rounds parent = walk_in_bounds p ps rounds parent
owner_in_bounds p ps (some []) rounds parent = walk_in_bounds p ps rounds parent
owner_in_bounds p ps (some (c ∷ raw)) rounds parent =
    test_pid_in_bounds p (c ∷ raw) (atoi (c ∷ raw))
