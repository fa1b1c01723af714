-- ===== src/Irc/Conn/Replies.antt =====
-- Which messages of the server answer a waiting join, and how.
pub mod Joins
use chatta.Prelude.{
  if◌then◌else◌, Bool-cases, Option-cases, ℕ, ◌≡◌, ap, ◌∙◌, ◌≢◌, inl, inr, Bool, true, false,
  Option, none, some, List, [], ◌∷◌, arith,
}
use chatta.Text.Basic.{Text, eq_text, eq_text_iff, eq_text_ne, eq_text_refl}
use chatta.Irc.Message.{Message}
use chatta.Irc.Conn.Table.{lookup, lookup-delete}
use chatta.Irc.Conn.State.{
  Code, Reason, Error, typed, Conn, send, resolve_pending, resolved, register_key, join_key,
  names_key, privmsg_key,
}
use chatta.Irc.Conn.Handle.{
  Case, ping, welcome, nickname_in_use, erroneus_nickname, end_of_names, nam_reply, no_such_nick,
  no_membership, privmsg, other, case_of, handle_case, handle, confirm_membership,
  refuse_membership, collect_names, receive, receive_privmsg, echo_join, welcomed,
}
use chatta.Irc.Conn.Calls.{wait_done}
use chatta.Irc.Conn.Pending.{Sound, update_self}
use chatta.Irc.Conn.Steps.{resolve-Kept, handle_case-Kept}

-- A caller waits for request `r` under `key`.
pub record Awaits (key : Text) (r : ℕ) (c : Conn) : Type 0 where
  pub sound : Sound c
  pub there : lookup key c.pending ≡ some r

pub waits : (key : Text) (r : ℕ) (c : Conn) → Awaits key r c → wait_done r c ≡ none
unfolding wait_done
waits key r c a = let (req, e, o) = a.sound.are_open key r a.there in rw e (rw o)

-- The error that a done request carries.
abbrev pub error_of : Option (Option Error × List Text) → Option (Option Error)
error_of none = none
error_of (some (e, names)) = some e

pub resolve_own :
    (key : Text) (r : ℕ) (c : Conn) (e : Option Error)
    → Awaits key r c
    → error_of (wait_done r (resolve_pending key e c)) ≡ some e
unfolding wait_done resolve_pending
resolve_own key r c e a =
    let (req, found, o) = a.sound.are_open key r a.there in
    rw (a.there, resolve_pending)
      (rw (update_self key r c.pending c.requests (resolved e) a.sound a.there req found))

pub resolve_other :
    (key j : Text) (r : ℕ) (c : Conn) (e : Option Error)
    → Awaits key r c
    → j ≢ key
    → lookup key (resolve_pending j e c).pending ≡ some r
unfolding resolve_pending
resolve_other key j r c e a ne = elim (Option-cases (lookup j c.pending)) [
  | inl missing ↦ rw (missing, resolve_pending) a.there
  | inr (n, found) ↦
      rw (found, resolve_pending) (lookup-delete j key c.pending ∙ rw (eq_text_ne j key ne) a.there)
]

-- Join keys of different channels differ, and all differ from the other keys.
pub join_key_ne : (a b : Text) → a ≢ b → join_key a ≢ join_key b
join_key_ne a b ne e = ne (cc e)

pub names_key_ne : (a b : Text) → names_key a ≢ join_key b
names_key_ne a b e = ground arith

pub privmsg_key_ne : (a b : Text) → privmsg_key a ≢ join_key b
privmsg_key_ne a b e = ground arith

pub register_key_ne : (b : Text) → register_key ≢ join_key b
register_key_ne b e = ground arith

-- What the server says of a join, by RFC 1459: 366 closes the list of names that a join is answered
-- with; 403, 473, 474 and 475 refuse it. The second parameter is the channel.
abbrev pub about : Text → List Text → Bool
about channel (_ ∷ name ∷ _) = eq_text name channel
about channel _ = false

abbrev pub join_refused : Text → Option Error
join_refused channel = some (typed Code.join_failed (Reason.not_confirmed channel))

abbrev pub answer_to_join : Case → Text → List Text → Option (Option Error)
answer_to_join end_of_names channel ps = if about channel ps then some none else none
answer_to_join no_membership channel ps =
    if about channel ps then some (join_refused channel) else none
answer_to_join _ channel ps = none

pub lookup_sent :
    (k : Text) (w : Option Text) (line : Text) (c : Conn) {r : ℕ}
    → lookup k c.pending ≡ some r
    → lookup k (send w line c).0.pending ≡ some r
unfolding send
lookup_sent k none line c h = h
lookup_sent k (some e) line c h = h
