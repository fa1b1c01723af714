-- ===== src/Irc/Conn/Correlation.antt =====
-- Which calls of a connection are answered: over all runs.
use chatta.Prelude.{
  length, get_elem?, ℕ, ◌≡◌, refl, ap, ◌∙◌, true, Option, none, some, List, [], ◌∷◌, arith,
}
use chatta.Text.Basic.{Text, codes}
use chatta.Irc.Message.{format_line}
use chatta.Text.Case.{Unicode}
use chatta.Irc.Conn.Table.{lookup}
use chatta.Irc.Conn.State.{
  Error, PendingRequest, Conn, register_pending, send, join_key, register_key,
}
use chatta.Irc.Conn.Calls.{waiting, nick_sent, user_sent, fresh, dial, join, wait_done, done_result}
use chatta.Irc.Conn.Event.{Event, run}
use chatta.Irc.Conn.Pending.{
  Kept, Sound, Keeps-trans, Unreachable-of_done, overtaken-Unreachable, overtaken_waits,
}
use chatta.Irc.Conn.Steps.{run-Kept, register-Kept, send-Kept}

fresh-Sound : (nick : Text) (now : ℕ) → Sound (fresh nick now)
unfolding lookup
fresh-Sound nick now = record { are_open = λ k r h. cc; apart = λ k j r h h'. cc }

nick_sent-Kept :
    (user : Text) (w : Option Text) (c : Conn) (s : Conn × Option Error)
    → Kept c s.0
    → Kept c (nick_sent user w s).0
nick_sent-Kept user w c (d, some e) k = k
nick_sent-Kept user w c (d, none) k = Keeps-trans k (send-Kept w _ d k.valid)

user_sent-Kept :
    (r : ℕ) (c : Conn) (s : Conn × Option Error) → Kept c s.0 → Kept c (user_sent r s).0
user_sent-Kept r c (d, some e) k = k
user_sent-Kept r c (d, none) k = k

dial-Sound : (nick user : Text) (now : ℕ) (w w' : Option Text) → Sound (dial nick user now w w').0
unfolding dial register_pending
dial-Sound nick user now w w' =
    let start = fresh nick now in
    let opened = (register_pending register_key start).0 in
    let k = register-Kept register_key start (fresh-Sound nick now) in
    let sent = send w (format_line (codes "NICK") (nick ∷ [])) opened in
    let k' = Keeps-trans k (send-Kept w (format_line (codes "NICK") (nick ∷ [])) opened k.valid) in
    (user_sent-Kept (length start.requests) start (nick_sent user w' sent)
      (nick_sent-Kept user w' start sent k')).valid

-- After `Dial`, and after any sequence of lines read and calls made, with any writes failing, each
-- request in the table of pending requests is one whose `done` channel is not closed, and none
-- stands under two keys. So no `close` in `resolvePending` closes a channel for the second time.
pub run-dial-IsValid :
    (u : Unicode) (nick user : Text) (now : ℕ) (w w' : Option Text) (es : List Event)
    → Sound (run u (dial nick user now w w').0 es)
run-dial-IsValid u nick user now w w' es = (run-Kept u _ es (dial-Sound nick user now w w')).valid

done_result-some :
    (o : Option PendingRequest) {result : Option Error × List Text}
    → done_result o ≡ some result
    → (req : PendingRequest) × (o ≡ some req) × (req.done ≡ true)
done_result-some none h = cc
done_result-some (some req) h = (req, refl, ground arith)

-- Once a request is done, its error and its collected names are the same after every run.
pub wait_done-run :
    (u : Unicode) (c : Conn) (es : List Event) (r : ℕ) (result : Option Error × List Text)
    → Sound c
    → wait_done r c ≡ some result
    → wait_done r (run u c es) ≡ some result
unfolding wait_done
wait_done-run u c es r result v h =
    let (req, e, d) = done_result-some (get_elem? c.requests r) h in
    let (_, same) =
      (run-Kept u c es v).beyond r (Unreachable-of_done r c.pending c.requests v e d) in
    ap done_result same ∙ h

-- What a registered connection is after a join that was written.
joining : Text → Conn → Conn
joining channel c =
    (send none (format_line (codes "JOIN") (channel ∷ []))
      (register_pending (join_key channel) c).0).0

join_registered :
    (channel : Text) (c : Conn)
    → c.registered ≡ true
    → join channel none c ≡ (joining channel c, waiting (length c.requests))
unfolding join joining send register_pending
join_registered channel c up = ground arith

-- A join that a second join of the same channel overtakes is never answered: whatever the server
-- sends and whoever calls what afterwards, its request is never done.
pub overtaken_join_waits :
    (u : Unicode) (c : Conn) (channel : Text) (es : List Event)
    → Sound c
    → c.registered ≡ true
    → let first = join channel none c in
      let second = join channel none first.0 in
      (first.1 ≡ waiting (length c.requests))
      × (wait_done (length c.requests) (run u second.0 es) ≡ none)
unfolding joining send register_pending wait_done
overtaken_join_waits u c channel es v up =
    let k = register-Kept (join_key channel) c v in
    let k' = register-Kept (join_key channel) (joining channel c) k.valid in
    let stays =
      (run-Kept u (joining channel (joining channel c)) es k'.valid).beyond (length c.requests)
        (overtaken-Unreachable (join_key channel) c.pending c.requests v) in
    rw (join_registered channel c up) (
      rw (join_registered channel (joining channel c) up) (
        refl,
        ap done_result (stays.1 ∙ overtaken_waits (join_key channel) c.pending c.requests v),
      ))
