-- ===== src/Irc/Conn/Written.antt =====
-- No step takes back a line that was written.
use chatta.Prelude.{
  if◌then◌else◌, ℕ, ◌≡◌, refl, sym, ap, ◌∙◌, Bool, true, false, Option, none, some, List, [], ◌∷◌,
  ◌++◌, append-nil, arith,
}
use chatta.Text.Basic.{Text}
use chatta.Text.Case.{Unicode}
use chatta.Irc.Message.{Message, parse_line}
use chatta.Irc.Conn.State.{Error, Conn, send, register_pending, resolve_pending}
use chatta.Irc.Conn.Handle.{
  Case, ping, welcome, nickname_in_use, erroneus_nickname, end_of_names, nam_reply, no_such_nick,
  no_membership, privmsg, other, handle_case, handle, read_line, case_of, confirm_membership,
  refuse_membership, collect_names, receive, receive_privmsg, echo_join, welcomed,
}
use chatta.Irc.Conn.Calls
use chatta.Irc.Conn.Calls.{Progress, returned, waiting, request, sent_or_resolved, part_sent}
use chatta.Irc.Conn.Event.{
  Event, reads, joins, lists_names, direct_timeout, parts, sends, sends_direct, quits, pings,
  listens, step,
}

-- The first lines of the second list are the first list.
abbrev pub Extends : List Text → List Text → Type 0
Extends lines more = (rest : List Text) × (more ≡ lines ++ rest)

pub same : (lines more : List Text) → more ≡ lines → Extends lines more
same lines more e = ([], e ∙ sym (append-nil lines))

pub resolve_written :
    (key : Text) (e : Option Error) (c : Conn) → (resolve_pending key e c).written ≡ c.written
unfolding resolve_pending
resolve_written key e c = ground arith

send-Extends :
    (w : Option Text) (line : Text) (c : Conn) (lines : List Text)
    → c.written ≡ lines
    → Extends lines (send w line c).0.written
unfolding send
send-Extends none line c lines e = (line ∷ [], ap (λ l. l ++ line ∷ []) e)
send-Extends (some err) line c lines e = same lines c.written e

confirm_written : (ps : List Text) (c : Conn) → (confirm_membership ps c).written ≡ c.written
unfolding confirm_membership
confirm_written (p ∷ channel ∷ ps) c = resolve_written _ none _ ∙ resolve_written _ none c
confirm_written (p ∷ []) c = refl
confirm_written [] c = refl

refuse_written : (ps : List Text) (c : Conn) → (refuse_membership ps c).written ≡ c.written
unfolding refuse_membership
refuse_written (p ∷ channel ∷ ps) c = resolve_written _ _ c
refuse_written (p ∷ []) c = refl
refuse_written [] c = refl

collect_written : (ps : List Text) (c : Conn) → (collect_names ps c).written ≡ c.written
unfolding collect_names
collect_written (p ∷ q ∷ channel ∷ ps) c = ground arith
collect_written (p ∷ q ∷ []) c = refl
collect_written (p ∷ []) c = refl
collect_written [] c = refl

echo_written : (nick : Text) (ps : List Text) (c : Conn) → (echo_join nick ps c).written ≡ c.written
unfolding echo_join
echo_written nick [] c = refl
echo_written nick (channel ∷ ps) c = ground arith

receive_written :
    (nick : Text) (ps : List Text) (c : Conn) → (receive_privmsg nick ps c).written ≡ c.written
unfolding receive_privmsg receive
receive_written nick (target ∷ text ∷ ps) c = ground arith
receive_written nick (target ∷ []) c = refl
receive_written nick [] c = refl

welcomed_written : (ps : List Text) (c : Conn) → (welcomed ps c).written ≡ c.written
unfolding welcomed
welcomed_written [] c = refl
welcomed_written (nick ∷ ps) c = refl

handle_case-Extends :
    (k : Case) (now : ℕ) (w : Option Text) (prefix : Text) (ps : List Text) (c : Conn)
    (lines : List Text)
    → c.written ≡ lines
    → Extends lines (handle_case k now w prefix ps c).written
unfolding handle_case
handle_case-Extends ping now w prefix ps c lines e = send-Extends w _ c lines e
handle_case-Extends welcome now w prefix ps c lines e =
    same lines _ (resolve_written _ none (welcomed ps c) ∙ welcomed_written ps c ∙ e)
handle_case-Extends nickname_in_use now w prefix ps c lines e =
    same lines _ (resolve_written _ _ c ∙ e)
handle_case-Extends erroneus_nickname now w prefix ps c lines e =
    same lines _ (resolve_written _ _ c ∙ e)
handle_case-Extends Case.join now w prefix ps c lines e = same lines _ (echo_written _ ps c ∙ e)
handle_case-Extends end_of_names now w prefix ps c lines e = same lines _ (confirm_written ps c ∙ e)
handle_case-Extends nam_reply now w prefix ps c lines e = same lines _ (collect_written ps c ∙ e)
handle_case-Extends no_such_nick now w prefix ps c lines e =
    same lines _ (resolve_written _ _ c ∙ e)
handle_case-Extends no_membership now w prefix ps c lines e = same lines _ (refuse_written ps c ∙ e)
handle_case-Extends privmsg now w prefix ps c lines e = same lines _ (receive_written _ ps c ∙ e)
handle_case-Extends other now w prefix ps c lines e = same lines c.written e

read_line-Extends :
    (u : Unicode) (now : ℕ) (w : Option Text) (line : Text) (c : Conn)
    → Extends c.written (read_line u now w line c).written
unfolding read_line handle
read_line-Extends u now w line c = of_parsed (parse_line u line)
  where
    handled : Option Message → Conn
    handled o = elim o [
      | none ↦ record c { last_activity = now }
      | some msg ↦
          handle_case (case_of msg.command) now w msg.prefix msg.params
            (record c { last_activity = now })
    ]

    of_parsed : (o : Option Message) → Extends c.written (handled o).written
    of_parsed none = same c.written _ refl
    of_parsed (some msg) =
        handle_case-Extends (case_of msg.command) now w msg.prefix msg.params
          (record c { last_activity = now }) c.written refl

sent_or_resolved-Extends :
    (key : Text) (r : ℕ) (lines : List Text) (p : Conn × Option Error)
    → Extends lines p.0.written
    → Extends lines (sent_or_resolved key r p).0.written
sent_or_resolved-Extends key r lines (c, none) e = e
sent_or_resolved-Extends key r lines (c, some err) (rest, e) =
    (rest, resolve_written key (some err) c ∙ e)

pub request-Extends :
    (key line : Text) (w : Option Text) (c : Conn)
    → Extends c.written (request key line w c).0.written
request-Extends key line w c =
    sent_or_resolved-Extends key _ c.written _
      (send-Extends w line (register_pending key c).0 c.written (unfold register_pending in refl))

part_sent-Extends :
    (channel : Text) (lines : List Text) (p : Conn × Option Error)
    → Extends lines p.0.written
    → Extends lines (part_sent channel p).0.written
part_sent-Extends channel lines (c, none) e = e
part_sent-Extends channel lines (c, some err) e = e

if_pair-Extends :
    (b : Bool) (lines : List Text) (s t : Conn × Progress)
    → Extends lines s.0.written
    → Extends lines t.0.written
    → Extends lines (if b then s else t).0.written
if_pair-Extends true lines s t k l = k
if_pair-Extends false lines s t k l = l

pub step-Extends : (u : Unicode) (c : Conn) (e : Event) → Extends c.written (step u c e).written
unfolding step Calls.join Calls.names Calls.privmsg_dm_timeout Calls.part Calls.privmsg
    Calls.privmsg_dm Calls.quit Calls.ping Calls.on_message
step-Extends u c (reads now w line) = read_line-Extends u now w line c
step-Extends u c (joins channel w) =
    if_pair-Extends c.registered c.written _ _ (request-Extends _ _ w c)
      (same c.written c.written refl)
step-Extends u c (lists_names channel w) =
    if_pair-Extends c.registered c.written _ _ (request-Extends _ _ w c)
      (same c.written c.written refl)
step-Extends u c (direct_timeout target) = same c.written _ (resolve_written _ none c)
step-Extends u c (parts channel reason w) =
    part_sent-Extends channel c.written _ (send-Extends w _ c c.written refl)
step-Extends u c (sends target text w) = send-Extends w _ c c.written refl
step-Extends u c (sends_direct target text w) = request-Extends _ _ w c
step-Extends u c (quits reason w) = send-Extends w _ c c.written refl
step-Extends u c (pings payload w) = send-Extends w _ c c.written refl
step-Extends u c listens = same c.written _ refl

pub ping-Extends :
    (payload : Text) (w : Option Text) (c : Conn)
    → Extends c.written (Calls.ping payload w c).0.written
unfolding Calls.ping
ping-Extends payload w c = send-Extends w _ c c.written refl
