-- ===== src/Irc/Conn/State.antt =====
-- pkg/dal/irc/conn.go: the state of a connection, the writes to the socket, and the table of
-- pending requests.
use chatta.Prelude.{
  length, get_elem?, set, ℕ, Bool, true, false, Option, none, some, List, [], ◌∷◌, ◌++◌,
}
use chatta.Text.Basic.{Text, codes}
use chatta.Irc.Conn.Table.{lookup, insert, delete}

-- The codes of `TypedError`.
pub data Code : Type 0 where
  nick_in_use nick_invalid no_such_nick join_failed timeout not_registered : Code

-- The messages of `TypedError`: one constructor for each text, with what the text quotes.
pub data Reason : Type 0 where
  nick_taken : Text → Reason
  nick_rejected : Text → Text → Reason
  target_absent : Text → Reason
  not_confirmed : Text → Reason
  registration_timed_out request_timed_out no_registration : Reason

-- An error is a `TypedError` or one of the network's.
pub data Error : Type 0 where
  typed : Code → Reason → Error
  network : Text → Error

pub record PendingRequest : Type 0 where
  -- The channel `done` is closed.
  pub done : Bool
  pub err : Option Error
  pub names_collected : List Text

-- A call of the `onMessage` callback.
pub record Received : Type 0 where
  pub kind : Text
  pub target : Text
  pub nick : Text
  pub text : Text

pub record Conn : Type 0 where
  pub nick : Text
  pub registered : Bool
  pub channels : List Text
  pub last_pong : ℕ
  pub last_activity : ℕ
  pub pending : List (Text × ℕ)
  pub requests : List PendingRequest
  -- Whether `onMessage` is set, and the calls made of it, in order.
  pub listening : Bool
  pub received : List Received
  -- The lines written, in order.
  pub written : List Text

-- The keys of the three maps of channels and requests.
abbrev pub register_key : Text
register_key = codes "__register__"

abbrev pub join_key : Text → Text
join_key channel = codes "join:" ++ channel

abbrev pub names_key : Text → Text
names_key channel = codes "names:" ++ channel

abbrev pub privmsg_key : Text → Text
privmsg_key target = codes "privmsg:" ++ target

-- `send`: a write that fails writes nothing here; `none` is the nil error.
unfoldable pub send : Option Text → Text → Conn → Conn × Option Error
send (some e) line c = (c, some (network e))
send none line c = (record c { written = c.written ++ line ∷ [] }, none)

unfoldable pub register_pending : Text → Conn → Conn × ℕ
register_pending key c = (
  record c {
    pending = insert key (length c.requests) c.pending;
    requests = c.requests ++ (record { done = false; err = none; names_collected = [] } ∷ []);
  },
  length c.requests,
)

abbrev pub resolved : Option Error → PendingRequest → PendingRequest
resolved err req = record req { done = true; err = err }

-- Writes through the pointer to a request.
abbrev pub update_request :
    ℕ → (PendingRequest → PendingRequest) → List PendingRequest → List PendingRequest
update_request r f reqs = elim (get_elem? reqs r) [ none ↦ reqs | some req ↦ set reqs r (f req) ]

unfoldable pub resolve_pending : Text → Option Error → Conn → Conn
resolve_pending key err c = elim (lookup key c.pending) [
  | none ↦ c
  | some r ↦ record c {
    pending = delete key c.pending;
    requests = update_request r (resolved err) c.requests;
  }
]
