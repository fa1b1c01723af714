-- ===== src/Services/Supervisor/Silence.antt =====
-- What a supervisor reports of a server that has fallen silent.
use chatta.Prelude.{
  lt→ltb, if◌then◌else◌, and_iff, all, ℕ, ◌-◌, ◌<◌, ◌≡◌, refl, ap, ◌∙◌, Bool, true, false, Option,
  none, some, List, [], ◌∷◌, arith,
}
use chatta.Text.Basic.{Text}
use chatta.Text.Case.{Unicode}
use chatta.Common.{ChatSession, ChannelMembership}
use chatta.Irc.Conn.State.{Conn, Error}
use chatta.Irc.Conn.Calls.{Progress, returned, waiting, wait_done}
use chatta.Irc.Conn.Calls
use chatta.Services.Control.{ControlCode}
use chatta.Services.Supervisor.{
  Printing, Failure, silent, Handler, set_no_conn, set_failure, failure_text, refusal,
  status_response,
}
use chatta.Services.Supervisor.Loop.{
  Surroundings, is_abandoned, Phase, loading, undialled_wait, pausing, joining, confirming, running,
  stopped, Supervisor, Happening, loads, signalled, joins, join_ends, disconnects, ticks,
  liveness_deadline, joined, confirmed, in_phase, advance, supervise, tick,
}

abbrev pub conn_of : Phase → Option Conn
conn_of (joining st c ms) = some c
conn_of (confirming st c r name ms) = some c
conn_of (running st c) = some c
conn_of phase = none

-- The connection that the handler's pointer leads to.
abbrev pub held_conn : Supervisor → Option Conn
held_conn s = if s.handler.holds_conn then conn_of s.phase else none

-- Neither a look of the ticker nor a new start of the loop.
abbrev pub is_between : Happening → Bool
is_between (loads st w dial) = false
is_between (ticks w now payload writes) = false
is_between h = true

set_no_conn-unheld : (h : Handler) → h.holds_conn ≡ false → set_no_conn h ≡ h
unfolding set_no_conn
set_no_conn-unheld h e = ground (arith, e)

joined-handler :
    (st : ChatSession) (name : Text) (ms : List ChannelMembership) (p : Conn × Progress)
    (s : Supervisor)
    → (joined st name ms p s).handler ≡ s.handler
joined-handler st name ms (c, returned e) s = refl
joined-handler st name ms (c, waiting r) s = refl

confirmed-handler :
    (st : ChatSession) (c : Conn) (name : Text) (ms : List ChannelMembership) (here : Phase)
    (o : Option (Option Error × List Text)) (s : Supervisor)
    → (confirmed st c name ms here o s).handler ≡ s.handler
confirmed-handler st c name ms here none s = refl
confirmed-handler st c name ms here (some (e, names)) s = refl

in_phase-handler :
    (u : Unicode) (phase : Phase) (h : Happening) (s : Supervisor)
    → is_between h ≡ true
    → s.handler.holds_conn ≡ false
    → (in_phase u phase h s).handler ≡ s.handler
in_phase-handler u phase (loads st w dial) s k e = cc
in_phase-handler u phase (ticks w now payload writes) s k e = cc
in_phase-handler u loading _ s k e = refl
in_phase-handler u undialled_wait _ s k e = refl
in_phase-handler u pausing _ s k e = refl
in_phase-handler u (stopped why c) _ s k e = refl
in_phase-handler u (joining st c []) _ s k e = refl
in_phase-handler u (joining st c (m ∷ ms)) (joins w) s k e =
    joined-handler st m.name ms (Calls.join m.name w c) s
in_phase-handler u (joining st c (m ∷ ms)) _ s k e = refl
in_phase-handler u (confirming st c r name ms) join_ends s k e =
    confirmed-handler st c name ms (confirming st c r name ms) (wait_done r c) s
in_phase-handler u (confirming st c r name ms) _ s k e = refl
in_phase-handler u (running st c) (signalled w) s k e = set_no_conn-unheld s.handler e
in_phase-handler u (running st c) (disconnects why) s k e = set_no_conn-unheld s.handler e
in_phase-handler u (running st c) _ s k e = refl

supervise-handler :
    (u : Unicode) (hs : List Happening) (s : Supervisor)
    → all is_between hs ≡ true
    → s.handler.holds_conn ≡ false
    → (supervise u s hs).handler ≡ s.handler
unfolding supervise advance
supervise-handler u [] s k e = refl
supervise-handler u (h ∷ hs) s k e =
    let both = (and_iff (is_between h) (all is_between hs)).0 k in
    let same = in_phase-handler u s.phase h s both.0 e in
    supervise-handler u hs (in_phase u s.phase h s) both.1 (ap (λ x. x.holds_conn) same ∙ e) ∙ same

tick-handler :
    (w : Surroundings) (now : ℕ) (payload : Text) (writes : ℕ → Option Text) (st : ChatSession)
    (c : Conn) (s : Supervisor)
    → is_abandoned w st ≡ false
    → liveness_deadline < now - c.last_activity
    → (tick w now payload writes st c s).handler
      ≡ set_failure (silent st.host st.port (now - c.last_activity)) s.handler
unfolding tick
tick-handler w now payload writes st c s kept idle =
    rw (kept, lt→ltb liveness_deadline (now - c.last_activity) idle)

no_conn-status :
    (p : Printing) (f : Failure) (h : Handler) (phase : Phase) (k : Handler)
    → k ≡ set_failure f h
    → status_response p k (if k.holds_conn then conn_of phase else none)
      ≡ status_response p (set_failure f h) none
unfolding set_failure
no_conn-status p f h phase k e =
    ap (λ x. status_response p x (if x.holds_conn then conn_of phase else none)) e

-- When the ticker finds that the server sent nothing for more than 35 seconds, the status is from
-- then on an error that names the server and the time of silence. It stays so whatever the server,
-- the clients and the signals do, also while the loop drops the connection and waits, until the next
-- tick or the next start of the loop.
pub status-silent :
    (u : Unicode) (p : Printing) (s : Supervisor) (w : Surroundings) (now : ℕ) (payload : Text)
    (writes : ℕ → Option Text) (st : ChatSession) (c : Conn) (hs : List Happening)
    → s.phase ≡ running st c
    → is_abandoned w st ≡ false
    → liveness_deadline < now - c.last_activity
    → all is_between hs ≡ true
    → let t = supervise u s (ticks w now payload writes ∷ hs) in
      status_response p t.handler (held_conn t)
      ≡ refusal ControlCode.not_connected
          (failure_text p (silent st.host st.port (now - c.last_activity)))
unfolding supervise advance
status-silent u p s w now payload writes st c hs here kept idle between =
    let tick_done = in_phase u s.phase (ticks w now payload writes) s in
    let failure = silent st.host st.port (now - c.last_activity) in
    let dropped : tick_done.handler ≡ set_failure failure s.handler =
      ap (λ phase. (in_phase u phase (ticks w now payload writes) s).handler) here
      ∙ tick-handler w now payload writes st c s kept idle in
    let later = supervise u tick_done hs in
    no_conn-status p failure s.handler later.phase later.handler (
      supervise-handler u hs tick_done between
        (ap (λ x. x.holds_conn) dropped ∙ unfold set_failure in refl)
      ∙ dropped)
    ∙ unfold status_response set_failure in refl
