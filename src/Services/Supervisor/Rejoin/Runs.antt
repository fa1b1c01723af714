-- ===== src/Services/Supervisor/Rejoin/Runs.antt =====
-- The joins in every run after a dial.
use chatta.Prelude.{
  ltb, and_iff, if_intro, length, drop, all, any, All, drop-append, any-append, ℕ, ◌-◌, ◌≡◌, refl,
  sym, ap, ◌∙◌, subst, inr, true, false, Option, none, some, List, [], ◌∷◌, ◌++◌, append-nil, arith,
}
use chatta.Text.Basic.{Text, eq_text, eq_text_refl}
use chatta.Text.Case.{Unicode}
use chatta.Common.{ChatSession, ChannelMembership}
use chatta.Irc.Conn.State.{Conn, Error}
use chatta.Irc.Conn.Calls.{Progress, returned, waiting, wait_done, wait_timeout}
use chatta.Irc.Conn.Calls
use chatta.Irc.Conn.Written.{same, step-Extends, ping-Extends}
use chatta.Services.Control.{done}
use chatta.Services.Supervisor.Loop.{
  Surroundings, is_abandoned, Phase, loading, undialled_wait, pausing, joining, confirming, running,
  stopped, Entry, join_failed, no_traffic, Supervisor, Happening, loads, signalled, elapsed, joins,
  join_ends, join_times_out, disconnects, ticks, calls, liveness_deadline, liveness_probe, joined,
  confirmed, dialled, in_phase, advance, supervise, tick,
}
use chatta.Services.Supervisor.Rejoin.{
  join_line, is_join_failure, asked_for, IsAsked, Asking, Asking-append, Asking-written,
  Asking-next, RejoinAt, next_join-RejoinAt, AsksBy, join-AsksBy, is_no_load,
}

Rejoins : ChatSession → List Entry → Supervisor → Type 0
Rejoins st base s = RejoinAt st base s.log s.phase

failed-asked :
    (name : Text) (e : Error) (written : List Text) (since : List Entry)
    → asked_for name written (since ++ (join_failed name e) ∷ []) ≡ true
failed-asked name e written since =
    ground (
      arith,
      any-append (is_join_failure name) since ((join_failed name e) ∷ []),
      eq_text_refl name,
    )

written-asked :
    (name : Text) (written : List Text) (since : List Entry)
    → any (eq_text (join_line name)) written ≡ true
    → asked_for name written (since ++ []) ≡ true
written-asked name written since h = ground (arith, h)

joined-Rejoins :
    (st st' : ChatSession) (base : List Entry) (m : ChannelMembership) (ms : List ChannelMembership)
    (lines : List Text) (p : Conn × Progress) (s : Supervisor)
    → st' ≡ st
    → Asking st base lines s.log (m ∷ ms)
    → AsksBy m.name lines p
    → Rejoins st base (joined st' m.name ms p s)
unfolding AsksBy Rejoins RejoinAt
joined-Rejoins st st' base m ms lines (c, waiting r) s e d (x, there) = (
  e,
  subst (λ l. Asking st base c.written l ms) (append-nil s.log)
      (Asking-next st base lines c.written s.log [] m ms x d
        (λ since. written-asked m.name c.written since there)),
)
joined-Rejoins st st' base m ms lines (c, returned (some err)) s e d x =
    next_join-RejoinAt st st' base _ c ms e (
      Asking-next st base lines c.written s.log ((join_failed m.name err) ∷ []) m ms x d
        (λ since. failed-asked m.name err c.written since))
joined-Rejoins st st' base m ms lines (c, returned none) s e d x = absurd x

confirmed-Rejoins :
    (st st' : ChatSession) (base : List Entry) (c : Conn) (r : ℕ) (name : Text)
    (ms : List ChannelMembership) (o : Option (Option Error × List Text)) (s : Supervisor)
    → s.phase ≡ confirming st' c r name ms
    → st' ≡ st
    → Asking st base c.written s.log ms
    → Rejoins st base (confirmed st' c name ms (confirming st' c r name ms) o s)
unfolding Rejoins RejoinAt
confirmed-Rejoins st st' base c r name ms none s here e d =
    subst (RejoinAt st base s.log) (sym here) (e, d)
confirmed-Rejoins st st' base c r name ms (some (none, names)) s here e d =
    next_join-RejoinAt st st' base s.log c ms e d
confirmed-Rejoins st st' base c r name ms (some (some err, names)) s here e d =
    next_join-RejoinAt st st' base _ c ms e (
      Asking-append st base c.written c.written s.log ((join_failed name err) ∷ []) ms
        (same c.written c.written refl) d)

tick-Rejoins :
    (st st' : ChatSession) (base : List Entry) (w : Surroundings) (now : ℕ) (payload : Text)
    (writes : ℕ → Option Text) (c : Conn) (s : Supervisor)
    → s.phase ≡ running st' c
    → st' ≡ st
    → Asking st base c.written s.log []
    → Rejoins st base (tick w now payload writes st' c s)
unfolding tick Rejoins RejoinAt
tick-Rejoins st st' base w now payload writes c s here e d =
    if_intro (Rejoins st base) (is_abandoned w st') _ _ (λ gone. tt)
      (λ kept.
        if_intro (Rejoins st base) (ltb liveness_deadline (now - c.last_activity)) _ _
          (λ idle. subst (RejoinAt st base _) (sym here) (
            e,
            Asking-append st base c.written c.written s.log
                ((no_traffic (now - c.last_activity)) ∷ []) [] (same c.written c.written refl) d,
          ))
          (λ fresh.
            if_intro (Rejoins st base) (ltb liveness_probe (now - c.last_activity)) _ s
              (λ probe. (
                e,
                Asking-written st base c.written _ s.log [] (ping-Extends payload (writes 0) c) d,
              ))
              (λ quiet. subst (RejoinAt st base s.log) (sym here) (e, d))))

in_phase-Rejoins :
    (u : Unicode) (st : ChatSession) (base : List Entry) (phase : Phase) (h : Happening)
    (s : Supervisor)
    → s.phase ≡ phase
    → is_no_load h ≡ true
    → RejoinAt st base s.log phase
    → Rejoins st base (in_phase u phase h s)
unfolding Rejoins RejoinAt
in_phase-Rejoins u st base loading (loads o w dial) s here k v = cc
in_phase-Rejoins u st base loading _ s here k v = subst (RejoinAt st base s.log) (sym here) v
in_phase-Rejoins u st base undialled_wait (signalled w) s here k v = tt
in_phase-Rejoins u st base undialled_wait elapsed s here k v = tt
in_phase-Rejoins u st base undialled_wait _ s here k v = subst (RejoinAt st base s.log) (sym here) v
in_phase-Rejoins u st base pausing elapsed s here k v = tt
in_phase-Rejoins u st base pausing _ s here k v = subst (RejoinAt st base s.log) (sym here) v
in_phase-Rejoins u st base (stopped why c) h s here k v =
    subst (RejoinAt st base s.log) (sym here) v
in_phase-Rejoins u st base (joining st' c []) h s here k v = v
in_phase-Rejoins u st base (joining st' c (m ∷ ms)) (joins w) s here k v =
    joined-Rejoins st st' base m ms c.written (Calls.join m.name w c) s v.0 v.1
      (join-AsksBy m.name w c)
in_phase-Rejoins u st base (joining st' c (m ∷ ms)) (calls event) s here k v =
    (v.0, Asking-written st base c.written _ s.log (m ∷ ms) (step-Extends u c event) v.1)
in_phase-Rejoins u st base (joining st' c (m ∷ ms)) _ s here k v =
    subst (RejoinAt st base s.log) (sym here) v
in_phase-Rejoins u st base (confirming st' c r name ms) join_ends s here k v =
    confirmed-Rejoins st st' base c r name ms (wait_done r c) s here v.0 v.1
in_phase-Rejoins u st base (confirming st' c r name ms) join_times_out s here k v =
    next_join-RejoinAt st st' base _ c ms v.0 (
      Asking-append st base c.written c.written s.log ((join_failed name wait_timeout) ∷ []) ms
        (same c.written c.written refl) v.1)
in_phase-Rejoins u st base (confirming st' c r name ms) (calls event) s here k v =
    (v.0, Asking-written st base c.written _ s.log ms (step-Extends u c event) v.1)
in_phase-Rejoins u st base (confirming st' c r name ms) _ s here k v =
    subst (RejoinAt st base s.log) (sym here) v
in_phase-Rejoins u st base (running st' c) (signalled w) s here k v = tt
in_phase-Rejoins u st base (running st' c) (disconnects why) s here k v = tt
in_phase-Rejoins u st base (running st' c) (ticks w now payload writes) s here k v =
    tick-Rejoins st st' base w now payload writes c s here v.0 v.1
in_phase-Rejoins u st base (running st' c) (calls event) s here k v =
    (v.0, Asking-written st base c.written _ s.log [] (step-Extends u c event) v.1)
in_phase-Rejoins u st base (running st' c) _ s here k v =
    subst (RejoinAt st base s.log) (sym here) v

supervise-Rejoins :
    (u : Unicode) (st : ChatSession) (base : List Entry) (hs : List Happening) (s : Supervisor)
    → all is_no_load hs ≡ true
    → Rejoins st base s
    → Rejoins st base (supervise u s hs)
unfolding supervise advance Rejoins
supervise-Rejoins u st base [] s k v = v
supervise-Rejoins u st base (h ∷ hs) s k v =
    let both = (and_iff (is_no_load h) (all is_no_load hs)).0 k in
    supervise-Rejoins u st base hs (in_phase u s.phase h s) both.1
      (in_phase-Rejoins u st base s.phase h s refl both.0 v)

asked_since :
    (st : ChatSession) (base log : List Entry) (written : List Text)
    → Asking st base written log []
    → All (λ m. asked_for m.name written (drop (length base) log) ≡ true) st.channels
asked_since st base log written d =
    let since_is : drop (length base) log ≡ d.since =
      ap (drop (length base)) d.logged ∙ drop-append base d.since in
    subst (λ l. All (IsAsked written l) st.channels) (sym since_is)
      (subst (All (IsAsked written d.since)) (sym (d.whole ∙ append-nil d.earlier)) d.asked)

-- From a dial that succeeds up to the next turn of the loop: when the supervisor comes to its inner
-- loop, it is for the session that it has loaded, and for each of the session's channels the JOIN
-- line was written to the connection, or the log says since the dial that the channel could not be
-- joined. This holds whatever the server, the clients and the clock do in the meantime.
pub supervise-rejoin :
    (u : Unicode) (s : Supervisor) (st st' : ChatSession) (w : Surroundings) (dialled_conn c : Conn)
    (hs : List Happening)
    → s.phase ≡ loading
    → is_abandoned w st ≡ false
    → all is_no_load hs ≡ true
    → let t = supervise u s (loads (done st) w (inr dialled_conn) ∷ hs) in
      t.phase ≡ running st' c
      → (st' ≡ st)
        × All (λ m. asked_for m.name c.written (drop (length s.log) t.log) ≡ true) st.channels
unfolding supervise advance Rejoins RejoinAt
supervise-rejoin u s st st' w dialled_conn c hs here kept later arrives =
    let first = in_phase u s.phase (loads (done st) w (inr dialled_conn)) s in
    let dials : first ≡ dialled st (inr dialled_conn) s =
      ap (λ phase. in_phase u phase (loads (done st) w (inr dialled_conn)) s) here ∙ rw kept in
    let start : Asking st s.log (Calls.on_message dialled_conn).written s.log st.channels = record {
      since = [];
      earlier = [];
      logged = sym (append-nil s.log);
      whole = refl;
      asked = tt;
    } in
    let begins : Rejoins st s.log first = subst (Rejoins st s.log) (sym dials) (
      next_join-RejoinAt st st s.log s.log (Calls.on_message dialled_conn) st.channels refl
        start) in
    let ends = supervise-Rejoins u st s.log hs first later begins in
    let (same_session, d) = subst (RejoinAt st s.log (supervise u first hs).log) arrives ends in
    (same_session, asked_since st s.log _ c.written d)
