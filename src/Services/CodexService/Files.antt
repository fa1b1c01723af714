-- ===== src/Services/CodexService/Files.antt =====
-- pkg/services/codex_service.go: the checks of the socket, the service home and the record, the
-- process that a record names, and the signals to a server. What the system answers at one moment
-- is in `Look`.
use chatta.Prelude.{
  if◌then◌else◌, Bool, true, false, not, ◌&&◌, ◌||◌, Option, none, some, List, [], ◌∷◌, ◌++◌,
}
use chatta.Prelude.Int.{ℤ, pos, leb_ℤ, eq_ℤ}
use chatta.Text.Basic.{Text, codes, eq_text, contains_text, trim_prefix}
use chatta.Text.Trim.{trim_space}
use chatta.Dal.AtomicFile.{Bytes}
use chatta.Dal.State.{Codec, is_empty}
use chatta.Dal.Process.{Processes, Signal, sigterm, sigkill}
use chatta.Services.Control.{Outcome, done, refused}
use chatta.Services.CodexService.Endpoint.{EndpointError, validate_local_endpoint}

-- The mode and the owner of a file: `private` is that group and others have no permission, `own`
-- that it belongs to the current user.
pub record FileInfo : Type 0 where
  pub is_dir : Bool
  pub is_symlink : Bool
  pub is_socket : Bool
  pub is_regular : Bool
  pub private : Bool
  pub own : Bool

pub data Stat : Type 0 where
  missing : Stat
  unread : Text → Stat
  info : FileInfo → Stat

pub record Identity : Type 0 where
  pub codex_home : Text
  pub platform_family : Text
  pub platform_os : Text

-- The file system and the processes at one moment, the identity that a client gets which connects
-- to the socket at a path, and the errors of the calls that change a file there.
pub record Look : Type 0 where
  pub lstat : Text → Stat
  pub stat : Text → Stat
  pub eval_symlinks : Text → Outcome Text
  pub dir : Text → Text
  pub initialize : Text → Outcome Identity
  pub chmod : Text → Option Text
  pub remove : Text → Option Text
  pub processes : Processes

pub record ServiceRecord : Type 0 where
  pub version : ℤ
  pub pid : ℤ
  pub start : Text
  pub endpoint : Text
  pub executable : Text
  pub cli_version : Text
  pub identity : Identity

pub data ServiceError : Type 0 where
  bad_endpoint : EndpointError → ServiceError
  absent : ServiceError
  failed : Text → ServiceError
  foreign_link not_private_socket foreign_socket open_directory no_identity : ServiceError
  not_socket foreign_directory not_directory foreign_home : ServiceError
  open_record foreign_record invalid_record : ServiceError
  not_removed_other not_removed_foreign : ServiceError
  choose_one different_endpoint process_mismatch identity_mismatch exited : ServiceError
  still_alive unidentified : ℤ → ServiceError
  unsupported_version : Text → ServiceError
  unhealthy : ServiceError → ServiceError

pub data Result {ℓ} (Value : Type ℓ) : Type ℓ where
  ok : Value → Result Value
  err : ServiceError → Result Value

-- The checks of the source: an error where the condition does not hold.
abbrev pub guard : Bool → ServiceError → Result (Unit {0})
guard false why = err why
guard true why = ok tt

-- A chain of `if err != nil { return err }`.
infixl 5 ◌>>=◌ ◌>>◌
abbrev pub ◌>>=◌ {ℓ κ} :
    {Value : Type ℓ} {Next : Type κ} → Result Value → (Value → Result Next) → Result Next
ok value >>= next = next value
err why >>= next = err why

abbrev pub ◌>>◌ {κ} : {Next : Type κ} → Result (Unit {0}) → Result Next → Result Next
checked >> next = checked >>= λ _. next

abbrev pub of_stat : Stat → Result FileInfo
of_stat missing = err absent
of_stat (unread e) = err (failed e)
of_stat (info i) = ok i

abbrev pub of_outcome : {A : Type 0} → Outcome A → Result A
of_outcome (done a) = ok a
of_outcome (refused e) = err (failed e)

abbrev pub of_fault : Option Text → Result (Unit {0})
of_fault none = ok tt
of_fault (some e) = err (failed e)

abbrev pub of_endpoint : Option EndpointError → Result (Unit {0})
of_endpoint none = ok tt
of_endpoint (some e) = err (bad_endpoint e)

-- `err != nil || parent.Mode().Perm()&0077 != 0`
abbrev pub private_parent : Stat → ServiceError → Result FileInfo
private_parent (info i) e = if i.private then ok i else err e
private_parent other e = err e

abbrev pub socket_path : Text → Text
socket_path endpoint = trim_prefix endpoint (codes "unix://")

-- The dial and the exchange of messages are `initialize`.
unfoldable pub probe_codex_endpoint : Look → Text → Result Identity
probe_codex_endpoint l endpoint = do
  let path = socket_path endpoint
  of_endpoint (validate_local_endpoint endpoint)
  link ← of_stat (l.lstat path)
  guard (not link.is_symlink || link.own) foreign_link
  target ← of_stat (l.stat path)
  guard (target.is_socket && target.private) not_private_socket
  guard target.own foreign_socket
  resolved ← of_outcome (l.eval_symlinks path)
  parent ← private_parent (l.stat (l.dir resolved)) open_directory
  identity ← of_outcome (l.initialize path)
  guard (not (is_empty identity.codex_home || is_empty identity.platform_family)) no_identity
  ok identity

-- `normalizeManagedCodexSocket`, with the path whose mode it changes, if any.
unfoldable pub normalize_managed_codex_socket : Look → Text → Result (Option Text)
normalize_managed_codex_socket l path = do
  link ← of_stat (l.lstat path)
  guard (link.is_symlink || link.is_socket) not_socket
  guard link.own foreign_link
  resolved ← of_outcome (l.eval_symlinks path)
  socket ← of_stat (l.stat resolved)
  guard socket.is_socket not_socket
  guard socket.own foreign_socket
  parent ← private_parent (l.stat (l.dir resolved)) open_directory
  guard parent.own foreign_directory
  if socket.private then ok none else of_fault (l.chmod resolved) >> ok (some resolved)

unfoldable pub secure_service_home : Look → Option Text → Text → Result (Unit {0})
secure_service_home l mkdir path = do
  of_fault mkdir
  home ← of_stat (l.lstat path)
  guard (home.is_dir && not home.is_symlink) not_directory
  guard home.own foreign_home
  of_fault (l.chmod path)

-- `record.Version != 1 || record.PID <= 1 || record.Start == "" || record.Endpoint == ""`
abbrev pub is_usable : ServiceRecord → Bool
is_usable r =
    eq_ℤ r.version (pos 1)
    && not (leb_ℤ r.pid (pos 1))
    && not (is_empty r.start)
    && not (is_empty r.endpoint)

abbrev pub decoded : Option ServiceRecord → Result ServiceRecord
decoded none = err invalid_record
decoded (some r) = if is_usable r then ok r else err invalid_record

-- The record in the file with this content.
unfoldable pub read_codex_service_record :
    Codec ServiceRecord → Look → Text → Outcome Bytes → Result ServiceRecord
read_codex_service_record codec l path content = do
  file ← of_stat (l.lstat path)
  guard (file.is_regular && file.private && not file.is_symlink) open_record
  guard file.own foreign_record
  b ← of_outcome content
  decoded (codec.decode b)

unfoldable pub process_matches : Processes → ℤ → Text → Text → Text → Bool
process_matches p pid start executable endpoint =
    if leb_ℤ pid (pos 1)
      || is_empty start
      || is_empty executable
      || is_empty endpoint
      || not (eq_text (p.process_start pid) start)
    then false
    else let command = trim_space (p.process_command pid) in
      contains_text command (codes " app-server ")
      && contains_text command (codes "--listen " ++ endpoint)

abbrev pub record_process_matches : Processes → ServiceRecord → Bool
record_process_matches p r = process_matches p r.pid r.start r.executable r.endpoint

-- The signals that `stopStartedServer` sends; it looks at the process first and after its wait.
unfoldable pub stop_started_server : Processes → Processes → ℤ → Text → Text → Text → List Signal
stop_started_server first last pid start executable endpoint =
    if is_empty start || not (process_matches first pid start executable endpoint)
    then []
    else sigterm ∷ (if process_matches last pid start executable endpoint then sigkill ∷ [] else [])

abbrev pub is_gone : Stat → Bool
is_gone missing = true
is_gone other = false

-- Nothing to remove is no error.
unfoldable pub remove_stale_socket : Look → Text → Result (Unit {0})
remove_stale_socket l path = elim (l.lstat path) [
  | missing ↦ ok tt
  | unread e ↦ err (failed e)
  | info i ↦
      guard (i.is_socket || i.is_symlink) not_removed_other
      >> guard i.own not_removed_foreign
      >> of_fault (l.remove path)
]
