-- ===== src/Services/Supervisor/Link.antt =====
-- The handler's connection in every run of a supervisor, and the generation that it reports.
pub mod Generation
use chatta.Prelude.{
  ltb, if◌then◌else◌, if_intro, ℕ, ◌+◌, ◌-◌, ◌*◌, ◌≤◌, ◌≡◌, refl, sym, subst, ◌⊎◌, inl, inr, true,
  false, Option, none, some, List, [], ◌∷◌, arith,
}
use chatta.Text.Basic.{Text}
use chatta.Text.Case.{Unicode}
use chatta.Common.{ChatSession, ChannelMembership}
use chatta.Irc.Conn.State.{Conn, Error}
use chatta.Irc.Conn.Calls.{Progress, returned, waiting, wait_done}
use chatta.Irc.Conn.Calls
use chatta.Services.Control.{done, refused}
use chatta.Services.Supervisor.{Failure, silent, Handler, set_conn, set_no_conn, set_failure}
use chatta.Services.Supervisor.Loop.{
  Surroundings, is_abandoned, Phase, Entry, loading, undialled_wait, pausing, joining, confirming,
  running, stopped, Supervisor, Happening, loads, signalled, elapsed, joins, join_ends,
  join_times_out, disconnects, ticks, calls, liveness_deadline, liveness_probe, joined, confirmed,
  next_join, dialled, in_phase, advance, supervise, tick, new_supervisor,
}

-- Between connections the handler has none, while channels are joined it has the loop's, and with a
-- connection it has no failure.
abbrev pub SoundAt : Phase → Handler → Type 0
SoundAt (joining st c ms) h = (h.holds_conn ≡ true) × (h.failure ≡ none)
SoundAt (confirming st c r name ms) h = (h.holds_conn ≡ true) × (h.failure ≡ none)
SoundAt (running st c) h = h.holds_conn ≡ true → h.failure ≡ none
SoundAt loading h = h.holds_conn ≡ false
SoundAt undialled_wait h = h.holds_conn ≡ false
SoundAt pausing h = h.holds_conn ≡ false
SoundAt (stopped why c) h = h.holds_conn ≡ false

abbrev pub IsSound : Supervisor → Type 0
IsSound s = SoundAt s.phase s.handler

-- Grows with each connection and with each loss of one.
abbrev level : Handler → ℕ
level h = if h.holds_conn then 2 * h.generation else 2 * h.generation + 1

record Onward (s t : Supervisor) : Type 0 where
  sound : IsSound t
  grows : level s.handler ≤ level t.handler
  kept : s.handler.holds_conn ≡ true → t.handler.generation ≡ s.handler.generation

-- The handler is left alone.
moves :
    {phase : Phase} {log : List Entry} (s : Supervisor)
    → SoundAt phase s.handler
    → Onward s (record { phase = phase; handler = s.handler; log = log })
moves s v = record { sound = v; grows = omega arith; kept = λ k. refl }

next_join-SoundAt :
    (st : ChatSession) (c : Conn) (ms : List ChannelMembership) (h : Handler)
    → (h.holds_conn ≡ true) × (h.failure ≡ none)
    → SoundAt (next_join st c ms) h
next_join-SoundAt st c [] h v = λ k. v.1
next_join-SoundAt st c (m ∷ ms) h v = v

joined-Onward :
    (st : ChatSession) (name : Text) (ms : List ChannelMembership) (p : Conn × Progress)
    (s : Supervisor)
    → (s.handler.holds_conn ≡ true) × (s.handler.failure ≡ none)
    → Onward s (joined st name ms p s)
joined-Onward st name ms (c, returned e) s v = moves s (next_join-SoundAt st c ms s.handler v)
joined-Onward st name ms (c, waiting r) s v = moves s v

confirmed-Onward :
    (st : ChatSession) (c : Conn) (name : Text) (ms : List ChannelMembership) (here : Phase)
    (o : Option (Option Error × List Text)) (s : Supervisor)
    → IsSound s
    → (s.handler.holds_conn ≡ true) × (s.handler.failure ≡ none)
    → Onward s (confirmed st c name ms here o s)
confirmed-Onward st c name ms here none s v' v = moves s v'
confirmed-Onward st c name ms here (some (e, names)) s v' v =
    moves s (next_join-SoundAt st c ms s.handler v)

level_down : (h : Handler) → level h ≤ level (set_no_conn h)
unfolding set_no_conn
level_down h = ground arith

-- The handler loses its connection, in a phase that does with none.
closes :
    {phase : Phase} {log : List Entry} (s : Supervisor)
    → SoundAt phase (set_no_conn s.handler)
    → Onward s (record { phase = phase; handler = set_no_conn s.handler; log = log })
closes s v = record {
  sound = v;
  grows = level_down s.handler;
  kept = λ k. unfold set_no_conn in refl;
}

level_fails : (f : Failure) (h : Handler) → level h ≤ level (set_failure f h)
unfolding set_failure
level_fails f h = ground arith

level_up : (h : Handler) → h.holds_conn ≡ false → level h ≤ level (set_conn h)
unfolding set_conn
level_up h e = ground (arith, e)

dialled-Onward :
    (st : ChatSession) (dial : Error ⊎ Conn) (s : Supervisor)
    → s.handler.holds_conn ≡ false
    → Onward s (dialled st dial s)
dialled-Onward st (inl e) s v = record {
  sound = unfold set_failure in refl;
  grows = level_fails _ s.handler;
  kept = λ k. unfold set_failure in refl;
}
dialled-Onward st (inr c) s v = record {
  sound =
      next_join-SoundAt st (Calls.on_message c) st.channels (set_conn s.handler)
        (unfold set_conn in (refl, refl));
  grows = level_up s.handler v;
  kept = λ k. cc;
}

tick-Onward :
    (w : Surroundings) (now : ℕ) (payload : Text) (writes : ℕ → Option Text) (st : ChatSession)
    (c : Conn) (s : Supervisor)
    → IsSound s
    → SoundAt (running st c) s.handler
    → s.phase ≡ running st c
    → Onward s (tick w now payload writes st c s)
unfolding tick
tick-Onward w now payload writes st c s v' v here =
    if_intro (Onward s) (is_abandoned w st) _ _ (λ gone. closes s (unfold set_no_conn in refl))
      (λ kept.
        if_intro (Onward s) (ltb liveness_deadline (now - c.last_activity)) _ _
          (λ idle. record {
            sound =
                subst
                  (λ phase.
                    SoundAt phase
                      (set_failure (silent st.host st.port (now - c.last_activity)) s.handler))
                  (sym here) (unfold set_failure in λ k. cc);
            grows = level_fails _ s.handler;
            kept = λ k. unfold set_failure in refl;
          })
          (λ fresh.
            if_intro (Onward s) (ltb liveness_probe (now - c.last_activity)) _ _
              (λ probe. moves s v) (λ quiet. moves s v')))

in_phase-Onward :
    (u : Unicode) (phase : Phase) (h : Happening) (s : Supervisor)
    → s.phase ≡ phase
    → IsSound s
    → SoundAt phase s.handler
    → Onward s (in_phase u phase h s)
in_phase-Onward u loading (loads (refused e) w dial) s here v' v = moves s v
in_phase-Onward u loading (loads (done st) w dial) s here v' v =
    if_intro (Onward s) (is_abandoned w st) _ (dialled st dial s) (λ gone. moves s v)
      (λ kept. dialled-Onward st dial s v)
in_phase-Onward u loading _ s here v' v = moves s v'
in_phase-Onward u undialled_wait (signalled w) s here v' v = moves s v
in_phase-Onward u undialled_wait elapsed s here v' v = moves s v
in_phase-Onward u undialled_wait _ s here v' v = moves s v'
in_phase-Onward u pausing elapsed s here v' v = moves s v
in_phase-Onward u pausing _ s here v' v = moves s v'
in_phase-Onward u (joining st c []) h s here v' v = moves s (λ k. v.1)
in_phase-Onward u (joining st c (m ∷ ms)) (joins w) s here v' v =
    joined-Onward st m.name ms (Calls.join m.name w c) s v
in_phase-Onward u (joining st c (m ∷ ms)) (calls e) s here v' v = moves s v
in_phase-Onward u (joining st c (m ∷ ms)) _ s here v' v = moves s v'
in_phase-Onward u (confirming st c r name ms) join_ends s here v' v =
    confirmed-Onward st c name ms (confirming st c r name ms) (wait_done r c) s v' v
in_phase-Onward u (confirming st c r name ms) join_times_out s here v' v =
    moves s (next_join-SoundAt st c ms s.handler v)
in_phase-Onward u (confirming st c r name ms) (calls e) s here v' v = moves s v
in_phase-Onward u (confirming st c r name ms) _ s here v' v = moves s v'
in_phase-Onward u (running st c) (signalled w) s here v' v = closes s (unfold set_no_conn in refl)
in_phase-Onward u (running st c) (disconnects why) s here v' v =
    closes s (unfold set_no_conn in refl)
in_phase-Onward u (running st c) (ticks w now payload writes) s here v' v =
    tick-Onward w now payload writes st c s v' v here
in_phase-Onward u (running st c) (calls e) s here v' v = moves s v
in_phase-Onward u (running st c) _ s here v' v = moves s v'
in_phase-Onward u (stopped why c) h s here v' v = moves s v'

advance-Onward :
    (u : Unicode) (h : Happening) (s : Supervisor) → IsSound s → Onward s (advance u s h)
unfolding advance
advance-Onward u h s v = in_phase-Onward u s.phase h s refl v v

record Grown (s t : Supervisor) : Type 0 where
  sound : IsSound t
  grows : level s.handler ≤ level t.handler

supervise-Grown :
    (u : Unicode) (hs : List Happening) (s : Supervisor) → IsSound s → Grown s (supervise u s hs)
unfolding supervise
supervise-Grown u [] s v = record { sound = v; grows = omega arith }
supervise-Grown u (h ∷ hs) s v =
    let first = advance-Onward u h s v in
    let later = supervise-Grown u hs (advance u s h) first.sound in
    record { sound = later.sound; grows = omega (arith, first.grows, later.grows) }

pub supervise-IsSound :
    (u : Unicode) (hs : List Happening) → IsSound (supervise u new_supervisor hs)
supervise-IsSound u hs = (supervise-Grown u hs new_supervisor refl).sound
