-- ===== src/Common.antt =====
-- pkg/common/model.go: the data that the layers exchange. A time is the number that Go's `time.Time`
-- stands for; the zero time is 0.
use chatta.Prelude.{ℕ, Bool, Option, List}
use chatta.Prelude.Int.{ℤ, pos}
use chatta.Text.Basic.{Text}

abbrev pub state_schema_version : ℤ
state_schema_version = pos 2

pub record OwnerBinding : Type 0 where
  pub pid : ℤ
  pub start_fingerprint : Text
  pub runtime : Text

pub record ChannelMembership : Type 0 where
  pub name : Text
  pub kind : Text
  pub joined_at : ℕ
  pub confirmed : Bool

pub record ChatSession : Type 0 where
  pub schema_version : ℤ
  pub nick : Text
  pub role : Text
  pub host : Text
  pub port : ℤ
  pub home_channel : ChannelMembership
  pub channels : List ChannelMembership
  pub owner : OwnerBinding
  pub session_id : Text
  pub supervisor_pid : ℤ
  pub supervisor_start_fingerprint : Text
  pub started_at : ℕ

-- An empty `failure` is the absent one.
pub record HealthReport : Type 0 where
  pub owner : Bool
  pub supervisor : Bool
  pub joined_channels : Bool
  pub connected : Bool
  pub server_link : Bool
  pub membership : Bool
  pub failure : Text

pub record MessageCursor : Type 0 where
  pub invoker_key : Text
  pub offset : ℤ

pub record ChannelMember : Type 0 where
  pub nick : Text
  pub you : Bool

pub record ChannelMembers : Type 0 where
  pub channel : Text
  pub members : List ChannelMember

pub record ClientSurvey : Type 0 where
  pub client_home : Text
  pub session_summary : Text
  pub owner_state : Text
  pub supervisor_state : Text
  pub client_process_state : Text
  pub cleanup_eligibility : Text

pub record StoredMessage : Type 0 where
  pub event_id : Text
  pub source : Text
  pub ts : ℤ
  pub kind : Text
  pub target : Text
  pub nick : Text
  pub text : Text

pub record CodexBinding : Type 0 where
  pub binding_id : Text
  pub session_id : Text
  pub endpoint : Text
  pub thread_id : Text
  pub enabled : Bool
  pub offset : ℤ
  pub replay : Bool
  pub mention_current_identity : Bool
  pub subscribed_channels : List Text
  pub delivery_blocked : Bool
  pub delivery_state : Text
  pub delivery_error : Text
  pub no_start_after_steer_failure : Bool
  pub updated_at : ℕ

-- `error` is empty where there is none, and `error_offset` the byte offset of an invalid record.
pub record CodexQueueStatus : Type 0 where
  pub pending_records : ℕ
  pub pending_bytes : ℤ
  pub blocked : Bool
  pub error_offset : Option ℤ
  pub error : Text

pub record TransportStatus : Type 0 where
  pub connected : Bool
  pub registered : Bool
  pub nick : Text
  pub channels : List Text
  pub last_pong : ℕ
  pub generation : ℕ
  pub failure : Text
