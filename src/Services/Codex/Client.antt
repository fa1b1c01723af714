-- ===== src/Services/Codex/Client.antt =====
-- pkg/services/codex_app_client.go: the delivery of one event to a Codex thread. What the app-server
-- answers is in `AppServer`; a JSON value is what the code's type assertions leave of it.
pub mod Accepted
use chatta.Prelude.{
  if◌then◌else◌, ℕ, Bool, false, not, ◌&&◌, ◌||◌, Option, none, some, List, [], ◌∷◌, ◌++◌,
}
use chatta.Prelude.Int.{ℤ, negsuc, eq_ℤ}
use chatta.Text.Basic.{Text, codes, eq_text, has_prefix, contains_text}
use chatta.Text.Trim.{trim_space}
use chatta.Text.Case.{Unicode, to_lower, Folding, equal_fold}
use chatta.Dal.State.{is_empty}

-- `binding_changed` is errCodexBindingChanged, `unavailable` threadUnavailableError with its state
-- and its text, `rpc` rpcError with its method, code and message.
pub data DeliveryError : Type 0 where
  binding_changed : DeliveryError
  unavailable : Text → Text → DeliveryError
  rpc : Text → ℤ → Text → DeliveryError
  other : Text → DeliveryError

unfoldable pub error_text : DeliveryError → Text
error_text binding_changed = codes "codex binding changed or was disabled before dispatch"
error_text (unavailable state message) = message
error_text (rpc method code message) = method ++ (codes ": " ++ message)
error_text (other message) = message

pub data Answer (A : Type 0) : Type 0 where
  answered : A → Answer A
  failed : DeliveryError → Answer A

pub record Turn : Type 0 where
  pub status : Text
  pub id : Text

-- What `inspect` returns: the ID of the thread, if it has a thread, its status, and its turns.
pub record Inspection : Type 0 where
  pub thread : Option Text
  pub status : Text
  pub turns : List Turn

-- What the app-server answers in one delivery: the turn ID of a dispatch, empty where it is omitted.
pub record AppServer : Type 0 where
  pub connect : Option DeliveryError
  pub first_inspect : Answer Inspection
  pub steer : Answer Text
  pub second_inspect : Answer Inspection
  pub start : Answer Text

-- `authorize n` is what `AuthorizeDispatch` finds at the n-th dispatch before it sends.
pub record CodexAppClient : Type 0 where
  pub endpoint : Text
  pub thread_id : Text
  pub no_start_after_steer_failure : Bool
  pub authorize : ℕ → Option DeliveryError

-- `turn/start` with its `threadId` and the text of its `input`, `turn/steer` also with its
-- `expectedTurnId`.
pub data Request : Type 0 where
  turn_start : Text → Text → Request
  turn_steer : Text → Text → Text → Request

pub record CodexDeliveryAck : Type 0 where
  pub method : Text
  pub thread_id : Text
  pub turn_id : Text

-- The dispatched requests that went out, and the result.
pub record Delivery : Type 0 where
  pub sent : List Request
  pub result : Answer CodexDeliveryAck

unfoldable pub is_idle_steer_race : Folding → DeliveryError → Bool
is_idle_steer_race f (rpc method code message) =
    eq_text method (codes "turn/steer")
    && eq_ℤ code (negsuc 32599)
    && equal_fold f (trim_space message) (codes "no active turn to steer")
is_idle_steer_race f binding_changed = false
is_idle_steer_race f (unavailable state message) = false
is_idle_steer_race f (other message) = false

abbrev or_unavailable : Text → Text
or_unavailable [] = codes "unavailable"
or_unavailable (c ∷ state) = c ∷ state

unfoldable pub delivery_failure_state : Unicode → DeliveryError → Text
delivery_failure_state u (unavailable state message) = or_unavailable state
delivery_failure_state u (rpc method code message) =
    if eq_text method (codes "turn/steer")
    then codes "steer_error_blocked"
    else if contains_text (to_lower u message) (codes "not loaded")
    then codes "not_loaded"
    else if contains_text (to_lower u message) (codes "closed")
    then codes "closed"
    else codes "rpc_error"
delivery_failure_state u binding_changed = codes "unavailable"
delivery_failure_state u (other message) =
    if contains_text (to_lower u message) (codes "idle after an unclassified turn/steer error")
    then codes "steer_error_blocked"
    else codes "unavailable"

abbrev stopped : List Request → DeliveryError → Delivery
stopped sent e = record { sent = sent; result = failed e }

-- `thread == nil || thread["id"] != c.ThreadID`, negated.
abbrev same_thread : CodexAppClient → Option Text → Bool
same_thread c none = false
same_thread c (some id) = eq_text id c.thread_id

-- The first turn in progress.
unfoldable pub active_turn : List Turn → Text
active_turn [] = []
active_turn (t ∷ ts) = if eq_text t.status (codes "inProgress") then t.id else active_turn ts

-- `callDispatched`: the request goes out only behind its authorization.
abbrev dispatched : Option DeliveryError → Answer Text → Answer Text
dispatched none reply = reply
dispatched (some e) reply = failed e

abbrev put : Option DeliveryError → Request → List Request
put none r = r ∷ []
put (some e) r = []

abbrev acknowledged : CodexAppClient → List Request → Text → Answer Text → Delivery
acknowledged c sent method (failed e) = stopped sent e
acknowledged c sent method (answered []) =
    stopped sent (other (method ++ codes " ACK omitted turn ID"))
acknowledged c sent method (answered (t ∷ turn)) = record {
  sent = sent;
  result = answered (record { method = method; thread_id = c.thread_id; turn_id = t ∷ turn });
}

abbrev start : CodexAppClient → AppServer → Text → List Request → ℕ → Delivery
start c s text sent n =
    acknowledged c (sent ++ put (c.authorize n) (turn_start c.thread_id text)) (codes "turn/start")
      (dispatched (c.authorize n) s.start)

abbrev rechecked : CodexAppClient → AppServer → Text → List Request → Answer Inspection → Delivery
rechecked c s text sent (failed e) = stopped sent e
rechecked c s text sent (answered i) =
    if not (same_thread c i.thread)
    then stopped sent (other (codes "thread/read returned a different thread ID after stale steer"))
    else if not (eq_text i.status (codes "idle"))
    then stopped sent
        (unavailable i.status (codes "stale steer rechecked same thread: " ++ i.status))
    else start c s text sent 1

abbrev steered : Folding → CodexAppClient → AppServer → Text → List Request → Answer Text → Delivery
steered f c s text sent (answered turn) = acknowledged c sent (codes "turn/steer") (answered turn)
steered f c s text sent (failed e) =
    if is_idle_steer_race f e then rechecked c s text sent s.second_inspect else stopped sent e

-- The text is the event's, the last one the ID of the turn.
abbrev steer : Folding → CodexAppClient → AppServer → Text → Text → Delivery
steer f c s text [] = stopped [] (other (codes "active thread has no observed in-progress turn"))
steer f c s text (t ∷ turn) =
    steered f c s text (put (c.authorize 0) (turn_steer c.thread_id (t ∷ turn) text))
      (dispatched (c.authorize 0) s.steer)

abbrev thread_is : CodexAppClient → Text → Text
thread_is c status = codes "thread " ++ (c.thread_id ++ (codes " is " ++ status))

abbrev inspected : Folding → CodexAppClient → AppServer → Text → Answer Inspection → Delivery
inspected f c s text (failed e) = stopped [] e
inspected f c s text (answered i) =
    if not (same_thread c i.thread)
    then stopped [] (other (codes "thread/read returned a different thread ID"))
    else if eq_text i.status (codes "idle")
    then if c.no_start_after_steer_failure
      then stopped [] (
          other (
            codes
              "thread is idle after an unclassified turn/steer error; retaining event without turn/start"))
      else start c s text [] 0
    else if not (eq_text i.status (codes "active"))
    then stopped [] (unavailable i.status (thread_is c i.status ++ codes "; delivery retained"))
    else steer f c s text (active_turn i.turns)

abbrev connected : Folding → CodexAppClient → AppServer → Text → Option DeliveryError → Delivery
connected f c s text (some e) = stopped [] e
connected f c s text none = inspected f c s text s.first_inspect

unfoldable pub deliver : Folding → CodexAppClient → AppServer → Text → Delivery
deliver f c s text =
    if not (has_prefix c.endpoint (codes "unix:///")) || is_empty c.thread_id
    then stopped [] (other (codes "codex requires a local Unix endpoint and explicit thread ID"))
    else connected f c s text s.connect

abbrev checked : CodexAppClient → Answer Inspection → Option DeliveryError
checked c (failed e) = some e
checked c (answered i) =
    if not (same_thread c i.thread)
    then some (other (codes "thread/read returned a different thread ID"))
    else if not (eq_text i.status (codes "idle")) && not (eq_text i.status (codes "active"))
    then some (unavailable i.status (thread_is c i.status))
    else none

abbrev connected_check : CodexAppClient → AppServer → Option DeliveryError → Option DeliveryError
connected_check c s (some e) = some e
connected_check c s none = checked c s.first_inspect

unfoldable pub check_thread : CodexAppClient → AppServer → Option DeliveryError
check_thread c s =
    if not (has_prefix c.endpoint (codes "unix:///")) || is_empty c.thread_id
    then some (other (codes "codex requires a local Unix endpoint and explicit thread ID"))
    else connected_check c s s.connect
