-- ===== src/Services/Supervisor/Rejoin/Ends.antt =====
-- The joins after a dial come to an end.
use chatta.Prelude.{
  length, ◌≡◌, refl, sym, ap, ◌∙◌, subst, inr, false, Option, List, [], ◌∷◌, arith,
}
use chatta.Text.Basic.{Text}
use chatta.Text.Case.{Unicode}
use chatta.Common.{ChatSession, ChannelMembership}
use chatta.Irc.Conn.State.{Conn}
use chatta.Irc.Conn.Calls.{Progress, returned, waiting}
use chatta.Irc.Conn.Calls
use chatta.Services.Control.{done}
use chatta.Services.Supervisor.Loop.{
  Surroundings, is_abandoned, loading, running, Supervisor, Happening, loads, joins, join_times_out,
  joined, next_join, dialled, in_phase, advance, supervise,
}

-- Each join with the error of its write, and the end of its time.
abbrev pub timeouts : List (Option Text) → List Happening
timeouts [] = []
timeouts (w ∷ ws) = joins w ∷ join_times_out ∷ timeouts ws

AtJoin : ChatSession → List ChannelMembership → Supervisor → Type 0
AtJoin st ms s = (c : Conn) × (s.phase ≡ next_join st c ms)

times_out-AtJoin :
    (u : Unicode) (st : ChatSession) (ms : List ChannelMembership) (s : Supervisor)
    → AtJoin st ms s
    → AtJoin st ms (advance u s join_times_out)
unfolding advance AtJoin
times_out-AtJoin u st [] s (c, here) =
    (c, ap (λ phase. (in_phase u phase join_times_out s).phase) here ∙ here)
times_out-AtJoin u st (m ∷ ms) s (c, here) =
    (c, ap (λ phase. (in_phase u phase join_times_out s).phase) here ∙ here)

joined-AtJoin :
    (u : Unicode) (st : ChatSession) (m : ChannelMembership) (ms : List ChannelMembership)
    (p : Conn × Progress) (s : Supervisor)
    → AtJoin st ms (advance u (joined st m.name ms p s) join_times_out)
joined-AtJoin u st m ms (c, returned e) s = times_out-AtJoin u st ms _ (unfold AtJoin in (c, refl))
joined-AtJoin u st m ms (c, waiting r) s = unfold advance AtJoin in (c, refl)

round-AtJoin :
    (u : Unicode) (st : ChatSession) (m : ChannelMembership) (ms : List ChannelMembership)
    (w : Option Text) (s : Supervisor)
    → AtJoin st (m ∷ ms) s
    → AtJoin st ms (advance u (advance u s (joins w)) join_times_out)
unfolding AtJoin
round-AtJoin u st m ms w s (c, here) =
    let asks : advance u s (joins w) ≡ joined st m.name ms (Calls.join m.name w c) s =
      unfold advance in ap (λ phase. in_phase u phase (joins w) s) here in
    subst (λ t. AtJoin st ms (advance u t join_times_out)) (sym asks)
      (joined-AtJoin u st m ms (Calls.join m.name w c) s)

timeouts-AtJoin :
    (u : Unicode) (st : ChatSession) (ms : List ChannelMembership) (ws : List (Option Text))
    (s : Supervisor)
    → length ws ≡ length ms
    → AtJoin st ms s
    → AtJoin st [] (supervise u s (timeouts ws))
unfolding supervise
timeouts-AtJoin u st [] [] s e a = a
timeouts-AtJoin u st [] (w ∷ ws) s e a = absurd (omega (arith, e))
timeouts-AtJoin u st (m ∷ ms) [] s e a = absurd (omega (arith, e))
timeouts-AtJoin u st (m ∷ ms) (w ∷ ws) s e a =
    timeouts-AtJoin u st ms ws _ (omega (arith, e)) (round-AtJoin u st m ms w s a)

-- After a dial the supervisor comes to its inner loop within as many time limits of a join as the
-- session has channels, even if the server answers nothing and every write fails.
pub supervise-joins_end :
    (u : Unicode) (s : Supervisor) (st : ChatSession) (w : Surroundings) (dialled_conn : Conn)
    (ws : List (Option Text))
    → s.phase ≡ loading
    → is_abandoned w st ≡ false
    → length ws ≡ length st.channels
    → (c : Conn) × ((supervise u s (loads (done st) w (inr dialled_conn) ∷ timeouts ws)).phase
        ≡ running st c)
unfolding supervise advance AtJoin
supervise-joins_end u s st w dialled_conn ws here kept enough =
    let first = in_phase u s.phase (loads (done st) w (inr dialled_conn)) s in
    let dials : first ≡ dialled st (inr dialled_conn) s =
      ap (λ phase. in_phase u phase (loads (done st) w (inr dialled_conn)) s) here ∙ rw kept in
    timeouts-AtJoin u st st.channels ws first enough
      (Calls.on_message dialled_conn, ap (λ t. t.phase) dials)
