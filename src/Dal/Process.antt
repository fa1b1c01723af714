-- ===== src/Dal/Process.antt =====
-- pkg/dal/owner_posix.go and pkg/dal/process_posix.go: whether a process is the one that was
-- recorded. What `ps` and `kill` report of a PID is in `Processes`.
use chatta.Prelude.{
  any-append, if◌then◌else◌, any, ◌≡◌, Bool, true, false, not, ◌&&◌, ◌||◌, Option, none, some, List,
  [], ◌∷◌, ◌++◌, arith,
}
use chatta.Prelude.Int.{ℤ, pos, ltb_ℤ, leb_ℤ, eq_ℤ}
use chatta.Text.Basic.{Text, codes, eq_text, contains_text}
use chatta.Common.{OwnerBinding}
use chatta.Dal.State.{is_empty}

-- The start time, empty where `ps` fails; whether `kill -0` succeeds; and the command.
pub record Processes : Type 0 where
  pub process_start : ℤ → Text
  pub signalled : ℤ → Bool
  pub process_command : ℤ → Text

unfoldable pub process_alive : Processes → OwnerBinding → Bool
process_alive p b =
    if leb_ℤ b.pid (pos 0) || is_empty b.start_fingerprint
    then false
    else if not (p.signalled b.pid)
    then false
    else eq_text (p.process_start b.pid) b.start_fingerprint

unfoldable pub same_owner : OwnerBinding → OwnerBinding → Bool
same_owner left right =
    ltb_ℤ (pos 0) left.pid
    && eq_ℤ left.pid right.pid
    && not (is_empty left.start_fingerprint)
    && eq_text left.start_fingerprint right.start_fingerprint

unfoldable pub is_supervisor : Processes → ℤ → Bool
is_supervisor p pid =
    contains_text (p.process_command pid) (codes "chatta")
    && contains_text (p.process_command pid) (codes "_supervise")

unfoldable pub is_verified_supervisor : Processes → ℤ → Text → Bool
is_verified_supervisor p pid fingerprint =
    ltb_ℤ (pos 0) pid
    && not (is_empty fingerprint)
    && is_supervisor p pid
    && eq_text (p.process_start pid) fingerprint

-- The signals sent and the error; `term` and `kill` are the errors of the two signals, and the lists
-- have what is seen of the processes at each look within the two time limits.
pub data Signal : Type 0 where
  sigterm sigkill : Signal

pub record Stopped : Type 0 where
  pub signals : List Signal
  pub error : Option Text

abbrev pub gone : ℤ → Text → List Processes → Bool
gone pid fingerprint = any (λ p. not (is_verified_supervisor p pid fingerprint))

abbrev pub killed : ℤ → Text → List Processes → Option Text → Stopped
killed pid fingerprint looks (some e) = record { signals = sigterm ∷ sigkill ∷ []; error = some e }
killed pid fingerprint looks none = record {
  signals = sigterm ∷ sigkill ∷ [];
  error = if gone pid fingerprint looks then none else some (codes "supervisor did not exit");
}

abbrev pub terminated :
    ℤ → Text → List Processes → List Processes → Option Text → Option Text → Stopped
terminated pid fingerprint looks later kill (some e) = record {
  signals = sigterm ∷ [];
  error = some e;
}
terminated pid fingerprint looks later kill none =
    if gone pid fingerprint looks
    then record { signals = sigterm ∷ []; error = none }
    else killed pid fingerprint later kill

unfoldable pub stop_verified_supervisor :
    Processes → List Processes → List Processes → Option Text → Option Text → ℤ → Text → Stopped
stop_verified_supervisor p looks later term kill pid fingerprint =
    if not (is_verified_supervisor p pid fingerprint)
    then record { signals = []; error = none }
    else terminated pid fingerprint looks later kill term

-- A stop that reports no error has seen that the process is not the recorded supervisor, at the first
-- look or later; and no signal goes to a PID that is not the recorded supervisor at the first look.
pub stop_verified_supervisor-gone :
    (p : Processes) (looks later : List Processes) (term kill : Option Text) (pid : ℤ)
    (fingerprint : Text)
    → let s = stop_verified_supervisor p looks later term kill pid fingerprint in
      (s.error ≡ none → gone pid fingerprint (p ∷ (looks ++ later)) ≡ true)
      × (is_verified_supervisor p pid fingerprint ≡ false → s.signals ≡ [])
unfolding stop_verified_supervisor
stop_verified_supervisor-gone p looks later term kill pid fingerprint =
    let split = any-append (λ q. not (is_verified_supervisor q pid fingerprint)) looks later in
    (ground (arith, split), λ h. ground (arith, h))
