-- ===== src/Dal/State.antt =====
-- pkg/dal/state.go: the session state and the cursors on disk. JSON is an interface: what the code
-- relies on is that a value written with its closing newline is read back.
pub mod Sessions
use chatta.Prelude.{
  if◌then◌else◌, ◌≡◌, Bool, true, false, not, ◌&&◌, ◌||◌, Option, none, some, List, [], ◌∷◌, ◌++◌,
}
use chatta.Prelude.Int.{ℤ, pos, ltb_ℤ, leb_ℤ, eq_ℤ}
use chatta.Text.Basic.{Text}
use chatta.Text.Case.{Unicode}
use chatta.Common.{ChatSession, MessageCursor, state_schema_version}
use chatta.Dal.AtomicFile.{Bytes, Slot, Faults, replace_file}
use chatta.Dal.Channel.{ChannelError, validate_channels}

-- `json.MarshalIndent` and `json.Unmarshal` at one type.
pub record Codec (A : Type 0) : Type 0 where
  pub encode : A → Bytes
  pub decode : Bytes → Option A
  pub decode-encode : (a : A) → decode (encode a ++ b'\n' ∷ []) ≡ some a

pub data StateError : Type 0 where
  unsupported_schema : ℤ → StateError
  invalid_session invalid_supervisor malformed not_exist : StateError
  bad_channels : ChannelError → StateError
  failed : Text → StateError

abbrev pub is_empty {ℓ} : {A : Type ℓ} → List A → Bool
is_empty [] = true
is_empty (x ∷ xs) = false

abbrev or_channels : Option ChannelError → Option StateError
or_channels none = none
or_channels (some e) = some (bad_channels e)

-- The condition of the second `if`.
unfoldable pub lacks_field : ChatSession → Bool
lacks_field s =
    is_empty s.nick
    || is_empty s.host
    || ltb_ℤ s.port (pos 1)
    || ltb_ℤ (pos 65535) s.port
    || leb_ℤ s.owner.pid (pos 0)
    || is_empty s.owner.start_fingerprint
    || is_empty s.home_channel.name
    || is_empty s.channels

unfoldable pub validate_session : Unicode → ChatSession → Option StateError
validate_session u s =
    let version =
      if eq_ℤ s.schema_version (pos 0) then state_schema_version else s.schema_version in
    if not (eq_ℤ version state_schema_version)
    then some (unsupported_schema version)
    else if lacks_field s
    then some invalid_session
    else if ltb_ℤ (pos 0) s.supervisor_pid && is_empty s.supervisor_start_fingerprint
    then some invalid_supervisor
    else or_channels (validate_channels u s.channels s.home_channel.name)

-- Reading a file fails, or it is missing, or it has a content.
pub data Loaded (A : Type 0) : Type 0 where
  loaded : A → Loaded A
  refused : StateError → Loaded A

abbrev checked : Unicode → ChatSession → Option StateError → Loaded ChatSession
checked u s none = loaded s
checked u s (some e) = refused e

abbrev decoded : Unicode → Option ChatSession → Loaded ChatSession
decoded u none = refused malformed
decoded u (some s) = checked u s (validate_session u s)

-- `os.ReadFile`: the first argument is the error of a read of an existing file.
unfoldable pub load_state : Codec ChatSession → Unicode → Option Text → Slot → Loaded ChatSession
load_state codec u fault slot = elim slot.file [
  | none ↦ refused not_exist
  | some content ↦ elim fault [
    | some e ↦ refused (failed e)
    | none ↦ decoded u (codec.decode content)
  ]
]

abbrev as_state_error : Slot × Option Text → Slot × Option StateError
as_state_error (slot, none) = (slot, none)
as_state_error (slot, some e) = (slot, some (failed e))

abbrev pub stamped : ChatSession → ChatSession
stamped s = record s { schema_version = state_schema_version }

unfoldable pub save_state :
    Codec ChatSession → Unicode → Faults → ChatSession → Slot → Slot × Option StateError
save_state codec u f s slot = elim (validate_session u (stamped s)) [
  | some e ↦ (slot, some e)
  | none ↦ as_state_error (replace_file f (codec.encode (stamped s) ++ b'\n' ∷ []) slot)
]

unfoldable pub load_cursors : Codec MessageCursor → Option Text → Slot → Loaded MessageCursor
load_cursors codec fault slot = elim slot.file [
  | none ↦ refused not_exist
  | some content ↦ elim fault [
    | some e ↦ refused (failed e)
    | none ↦ elim (codec.decode content) [ none ↦ refused malformed | some c ↦ loaded c ]
  ]
]

unfoldable pub save_cursors :
    Codec MessageCursor → Faults → MessageCursor → Slot → Slot × Option StateError
save_cursors codec f c slot = as_state_error (replace_file f (codec.encode c ++ b'\n' ∷ []) slot)
