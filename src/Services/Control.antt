-- ===== src/Services/Control.antt =====
-- pkg/daemon/protocol.go: the requests to a supervisor and its replies. The socket is I/O: what a
-- request gives is a `Reply`.
use chatta.Prelude.{Bool, Option, List}
use chatta.Text.Basic.{Text}
use chatta.Common.{TransportStatus}

pub data Op : Type 0 where
  status codex_bind codex_status codex_unbind join part names privmsg quit : Op
  unknown : Text → Op

pub data ControlCode : Type 0 where
  no_code not_connected not_registered nick_in_use nick_invalid no_such_nick : ControlCode
  not_on_channel join_failed timeout bad_request : ControlCode

pub record ControlRequest : Type 0 where
  pub op : Op
  pub target : Text
  pub text : Text
  pub reason : Text

pub record ControlResponse : Type 0 where
  pub ok : Bool
  pub error : Text
  pub code : ControlCode
  pub members : List Text
  pub status : Option TransportStatus

-- `daemon.Request`: an error of the socket, or a response.
pub data Reply : Type 0 where
  lost : Text → Reply
  got : ControlResponse → Reply

-- What a command ends with: an error, or its result.
pub data Outcome (A : Type 0) : Type 0 where
  done : A → Outcome A
  refused : Text → Outcome A
