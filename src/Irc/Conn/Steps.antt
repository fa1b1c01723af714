-- ===== src/Irc/Conn/Steps.antt =====
-- Every step of a connection keeps the table of pending requests.
use chatta.Prelude.{
  if◌then◌else◌, Option-cases, ℕ, refl, inl, inr, Bool, true, false, Option, none, some, List, [],
  ◌∷◌,
}
use chatta.Text.Basic.{Text}
use chatta.Text.Case.{Unicode}
use chatta.Irc.Message.{parse_line}
use chatta.Irc.Conn.Table.{lookup}
use chatta.Irc.Conn.State.{
  Error, Conn, send, register_pending, resolve_pending, resolved, register_key, join_key, names_key,
}
use chatta.Irc.Conn.Handle.{
  Case, ping, welcome, nickname_in_use, erroneus_nickname, end_of_names, nam_reply, no_such_nick,
  no_membership, privmsg, other, handle_case, handle, read_line, case_of, confirm_membership,
  refuse_membership, collect_names, receive, receive_privmsg, echo_join, welcomed,
}
use chatta.Irc.Conn.Calls
use chatta.Irc.Conn.Calls.{
  Progress, returned, waiting, request, sent_or_resolved, part_sent, nick_sent, user_sent, fresh,
}
use chatta.Irc.Conn.Event.{
  Event, reads, joins, lists_names, direct_timeout, parts, sends, sends_direct, quits, pings,
  listens, step, run,
}
use chatta.Irc.Conn.Pending.{
  Kept, Sound, Keeps-refl, Keeps-trans, new-IsOpen, new_apart, new_beyond, resolve_Keeps,
  collect_Keeps,
}

pub register-Kept : (key : Text) (c : Conn) → Sound c → Kept c (register_pending key c).0
unfolding register_pending
register-Kept key c v = record {
  valid = record {
    are_open = new-IsOpen key c.pending c.requests v;
    apart = new_apart key c.pending c.requests v;
  };
  beyond = new_beyond key c.pending c.requests v;
}

pub resolve-Kept :
    (key : Text) (e : Option Error) (c : Conn) → Sound c → Kept c (resolve_pending key e c)
unfolding resolve_pending
resolve-Kept key e c v = elim (Option-cases (lookup key c.pending)) [
  | inl none_there ↦ rw (none_there, resolve_pending) (Keeps-refl c.pending c.requests v)
  | inr (n, found) ↦
      rw (found, resolve_pending) (resolve_Keeps key n c.pending c.requests (resolved e) v found)
]

pub send-Kept : (w : Option Text) (line : Text) (c : Conn) → Sound c → Kept c (send w line c).0
unfolding send
send-Kept none line c v = Keeps-refl c.pending c.requests v
send-Kept (some e) line c v = Keeps-refl c.pending c.requests v

collect_names-Kept : (ps : List Text) (c : Conn) → Sound c → Kept c (collect_names ps c)
unfolding collect_names
collect_names-Kept (p ∷ q ∷ channel ∷ ps) c v =
    elim (Option-cases (lookup (names_key channel) c.pending)) [
      | inl none_there ↦ rw (none_there, collect_names) (Keeps-refl c.pending c.requests v)
      | inr (n, found) ↦
          rw (found, collect_names)
            (collect_Keeps (names_key channel) n c.pending c.requests _ v found (λ req. refl))
    ]
collect_names-Kept _ c v = Keeps-refl c.pending c.requests v

if-Kept : (b : Bool) (c d e : Conn) → Kept c d → Kept c e → Kept c (if b then d else e)
if-Kept true c d e k l = k
if-Kept false c d e k l = l

-- Every case of `handle` keeps the table.
pub handle_case-Kept :
    (k : Case) (now : ℕ) (w : Option Text) (prefix : Text) (ps : List Text) (c : Conn)
    → Sound c
    → Kept c (handle_case k now w prefix ps c)
unfolding handle_case confirm_membership refuse_membership welcomed echo_join receive_privmsg
    receive
handle_case-Kept ping now w prefix ps c v = send-Kept w _ c v
handle_case-Kept welcome now w prefix [] c v = resolve-Kept register_key none _ v
handle_case-Kept welcome now w prefix (nick ∷ ps) c v = resolve-Kept register_key none _ v
handle_case-Kept nickname_in_use now w prefix ps c v = resolve-Kept register_key _ c v
handle_case-Kept erroneus_nickname now w prefix ps c v = resolve-Kept register_key _ c v
handle_case-Kept Case.join now w prefix [] c v = Keeps-refl c.pending c.requests v
handle_case-Kept Case.join now w prefix (channel ∷ ps) c v =
    if-Kept _ c _ _ (Keeps-refl c.pending c.requests v) (Keeps-refl c.pending c.requests v)
handle_case-Kept end_of_names now w prefix (p ∷ channel ∷ ps) c v =
    let k = resolve-Kept (names_key channel) none c v in
    Keeps-trans k (resolve-Kept (join_key channel) none _ k.valid)
handle_case-Kept end_of_names now w prefix (p ∷ []) c v = Keeps-refl c.pending c.requests v
handle_case-Kept end_of_names now w prefix [] c v = Keeps-refl c.pending c.requests v
handle_case-Kept nam_reply now w prefix ps c v = collect_names-Kept ps c v
handle_case-Kept no_such_nick now w prefix ps c v = resolve-Kept _ _ c v
handle_case-Kept no_membership now w prefix (p ∷ channel ∷ ps) c v = resolve-Kept _ _ c v
handle_case-Kept no_membership now w prefix (p ∷ []) c v = Keeps-refl c.pending c.requests v
handle_case-Kept no_membership now w prefix [] c v = Keeps-refl c.pending c.requests v
handle_case-Kept privmsg now w prefix (target ∷ text ∷ ps) c v =
    if-Kept _ c _ _ (Keeps-refl c.pending c.requests v) (Keeps-refl c.pending c.requests v)
handle_case-Kept privmsg now w prefix (p ∷ []) c v = Keeps-refl c.pending c.requests v
handle_case-Kept privmsg now w prefix [] c v = Keeps-refl c.pending c.requests v
handle_case-Kept other now w prefix ps c v = Keeps-refl c.pending c.requests v

read_line-Kept :
    (u : Unicode) (now : ℕ) (w : Option Text) (line : Text) (c : Conn)
    → Sound c
    → Kept c (read_line u now w line c)
unfolding read_line handle
read_line-Kept u now w line c v = elim (Option-cases (parse_line u line)) [
  | inl bad ↦ rw (bad, read_line) (Keeps-refl c.pending c.requests v)
  | inr (msg, good) ↦
      rw (good, read_line)
        (handle_case-Kept (case_of msg.command) now w msg.prefix msg.params
          (record c { last_activity = now }) v)
]

-- The calls.

sent_or_resolved-Kept :
    (key : Text) (r : ℕ) (c : Conn) (s : Conn × Option Error)
    → Kept c s.0
    → Kept c (sent_or_resolved key r s).0
sent_or_resolved-Kept key r c (d, none) k = k
sent_or_resolved-Kept key r c (d, some e) k = Keeps-trans k (resolve-Kept key (some e) d k.valid)

request-Kept :
    (key line : Text) (w : Option Text) (c : Conn) → Sound c → Kept c (request key line w c).0
request-Kept key line w c v =
    let k = register-Kept key c v in
    sent_or_resolved-Kept key _ c _ (Keeps-trans k (send-Kept w line _ k.valid))

part_sent-Kept :
    (channel : Text) (c : Conn) (s : Conn × Option Error)
    → Kept c s.0
    → Kept c (part_sent channel s).0
part_sent-Kept channel c (d, none) k = k
part_sent-Kept channel c (d, some e) k = k

if_pair-Kept :
    (b : Bool) (c : Conn) (s t : Conn × Progress)
    → Kept c s.0
    → Kept c t.0
    → Kept c (if b then s else t).0
if_pair-Kept true c s t k l = k
if_pair-Kept false c s t k l = l

step-Kept : (u : Unicode) (c : Conn) (e : Event) → Sound c → Kept c (step u c e)
unfolding step Calls.join Calls.names Calls.privmsg_dm_timeout Calls.part Calls.privmsg
    Calls.privmsg_dm Calls.quit Calls.ping Calls.on_message
step-Kept u c (reads now w line) v = read_line-Kept u now w line c v
step-Kept u c (joins channel w) v =
    if_pair-Kept c.registered c _ _ (request-Kept _ _ w c v) (Keeps-refl c.pending c.requests v)
step-Kept u c (lists_names channel w) v =
    if_pair-Kept c.registered c _ _ (request-Kept _ _ w c v) (Keeps-refl c.pending c.requests v)
step-Kept u c (direct_timeout target) v = resolve-Kept _ none c v
step-Kept u c (parts channel reason w) v = part_sent-Kept channel c _ (send-Kept w _ c v)
step-Kept u c (sends target text w) v = send-Kept w _ c v
step-Kept u c (sends_direct target text w) v = request-Kept _ _ w c v
step-Kept u c (quits reason w) v = send-Kept w _ c v
step-Kept u c (pings payload w) v = send-Kept w _ c v
step-Kept u c listens v = Keeps-refl c.pending c.requests v

pub run-Kept : (u : Unicode) (c : Conn) (es : List Event) → Sound c → Kept c (run u c es)
unfolding run
run-Kept u c [] v = Keeps-refl c.pending c.requests v
run-Kept u c (e ∷ es) v =
    let k = step-Kept u c e v in Keeps-trans k (run-Kept u (step u c e) es k.valid)
