-- ===== src/Services/Supervisor/Requests.antt =====
-- A join from the request to its response.
use chatta.Prelude.{
  if◌then◌else◌, Bool-cases, Option-cases, length, ℕ, ◌≡◌, refl, sym, ap, ◌∙◌, inl, inr, true,
  Option, none, some, List, [], ◌∷◌, ◌++◌,
}
use chatta.Text.Basic.{Text, codes, eq_text_refl}
use chatta.Text.Case.{Unicode}
use chatta.Irc.Message.{Message, format_line}
use chatta.Irc.Conn.Table.{lookup-insert}
use chatta.Irc.Conn.State.{Error, Conn, send, register_pending, join_key}
use chatta.Irc.Conn.Handle.{Case, end_of_names, no_membership, case_of, handle}
use chatta.Irc.Conn.Calls.{wait_done}
use chatta.Irc.Conn.Calls
use chatta.Irc.Conn.Event.{Event, run}
use chatta.Irc.Conn.Pending.{Sound}
use chatta.Irc.Conn.Steps.{register-Kept, run-Kept}
use chatta.Irc.Conn.Correlation.{wait_done-run}
use chatta.Irc.Conn.Replies.{Awaits, waits, error_of, about, answer_to_join}
use chatta.Irc.Conn.Replies.Joins.{handle-answer_to_join}
use chatta.Services.Control.{Op, ControlCode, ControlRequest, ControlResponse}
use chatta.Services.Supervisor.{
  Printing, Handler, ok_response, refusal, answer_of, awaits, join_response, map_transport_err,
  dispatch, handle_request,
}

abbrev not_confirmed : Text → ControlResponse
not_confirmed channel =
    refusal ControlCode.join_failed (codes "the server did not confirm membership in " ++ channel)

-- What a message of the server makes of a join of this channel: the end of its list of names is an
-- OK, an error about the channel a refusal, and anything else no response.
abbrev pub verdict : Case → Text → List Text → Option ControlResponse
verdict end_of_names channel ps = if about channel ps then some ok_response else none
verdict no_membership channel ps = if about channel ps then some (not_confirmed channel) else none
verdict _ channel ps = none

response_of : Printing → Option (Option Error) → Option ControlResponse
response_of p none = none
response_of p (some e) = some (answer_of p ControlCode.join_failed (e, []))

join_response-error_of :
    (p : Printing) (o : Option (Option Error × List Text))
    → join_response p o ≡ response_of p (error_of o)
unfolding response_of
join_response-error_of p none = refl
join_response-error_of p (some (e, names)) = refl

response_of-answer :
    (p : Printing) (k : Case) (channel : Text) (ps : List Text)
    → response_of p (answer_to_join k channel ps) ≡ verdict k channel ps
unfolding response_of map_transport_err
response_of-answer p end_of_names channel ps = elim (Bool-cases (about channel ps)) [
  | inl here ↦ rw here refl
  | inr elsewhere ↦ rw elsewhere refl
]
response_of-answer p no_membership channel ps = elim (Bool-cases (about channel ps)) [
  | inl here ↦ rw here refl
  | inr elsewhere ↦ rw elsewhere refl
]
response_of-answer p _ channel ps = refl

-- A join that is asked for waits, without a response, until a message of the server decides it.
pub record IsAsked (p : Printing) (channel : Text) (c d : Conn) (r : ℕ) : Type 0 where
  pub line : d.written ≡ c.written ++ (format_line (codes "JOIN") (channel ∷ [])) ∷ []
  pub unanswered : join_response p (wait_done r d) ≡ none
  pub decided :
      (now : ℕ) (w : Option Text) (msg : Message)
      → join_response p (wait_done r (handle now w msg d))
        ≡ verdict (case_of msg.command) channel msg.params
  pub final :
      (u : Unicode) (es fs : List Event) (x : ControlResponse)
      → join_response p (wait_done r (run u d es)) ≡ some x
      → join_response p (wait_done r (run u (run u d es) fs)) ≡ some x

Awaits-IsAsked :
    (p : Printing) (channel : Text) (c d : Conn) (r : ℕ)
    → d.written ≡ c.written ++ (format_line (codes "JOIN") (channel ∷ [])) ∷ []
    → Awaits (join_key channel) r d
    → IsAsked p channel c d r
Awaits-IsAsked p channel c d r line a = record {
  line = line;
  unanswered = ap (join_response p) (waits (join_key channel) r d a);
  decided = λ now w msg.
      join_response-error_of p (wait_done r (handle now w msg d))
      ∙ ap (response_of p) (handle-answer_to_join channel r now w msg d a)
      ∙ response_of-answer p (case_of msg.command) channel msg.params;
  final = λ u es fs x h. elim (Option-cases (wait_done r (run u d es))) [
    | inl waiting ↦ cc
    | inr (result, ended) ↦
        ap (join_response p) (
          wait_done-run u (run u d es) fs r result (run-Kept u d es a.sound).valid ended
          ∙ sym ended)
        ∙ h
  ];
}

-- The connection behind a join that was written.
abbrev asked : Text → Conn → Conn
asked channel c =
    (send none (format_line (codes "JOIN") (channel ∷ []))
      (register_pending (join_key channel) c).0).0

asked-Awaits :
    (channel : Text) (c : Conn)
    → Sound c
    → Awaits (join_key channel) (length c.requests) (asked channel c)
unfolding send register_pending
asked-Awaits channel c v = record {
  sound = (register-Kept (join_key channel) c v).valid;
  there =
      lookup-insert (join_key channel) (join_key channel) (length c.requests) c.pending
      ∙ rw (eq_text_refl (join_key channel)) refl;
}

-- A request to join a channel, where the connection is registered and takes the write, writes one
-- JOIN and waits, and the next message of the server decides: the end of the channel's list of
-- names gives OK, an error about the channel gives a refusal with the code `join_failed` and the
-- text that membership was not confirmed, and any other message leaves the request without a
-- response. A response that was given after any run stays the same whatever comes later.
pub handle_request-IsAsked :
    (p : Printing) (codex : Op → ControlResponse) (h : Handler) (q : ControlRequest) (c : Conn)
    → q.op ≡ Op.join
    → Sound c
    → c.registered ≡ true
    → (r : ℕ) × (d : Conn) × (handle_request p codex h q none (some c)
        ≡ (some d, awaits ControlCode.join_failed r))
      × IsAsked p q.target c d r
unfolding handle_request send register_pending Calls.join
handle_request-IsAsked p codex h q c op v up = (
  length c.requests,
  asked q.target c,
  ap (λ o. dispatch p codex h o q none (some c)) op ∙ rw up refl,
  Awaits-IsAsked p q.target c (asked q.target c) (length c.requests) refl
      (asked-Awaits q.target c v),
)
