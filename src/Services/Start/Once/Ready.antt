-- ===== src/Services/Start/Once/Ready.antt =====
-- What an attempt of a start has seen when it reports that the client is up, and what it leaves of
-- the supervisor when it fails.
use chatta.Prelude.{
  if_intro, Any, ℕ, ◌<◌, ◌≡◌, refl, ap, ◌∙◌, ◌≢◌, ◌⊎◌, inl, inr, Bool, true, false, not, Option,
  none, some, List, [], ◌∷◌, arith,
}
use chatta.Prelude.Int.{ℤ}
use chatta.Text.Basic.{Text}
use chatta.Text.Case.{Unicode}
use chatta.Common.{ChatSession, OwnerBinding}
use chatta.Dal.State.{is_empty}
use chatta.Dal.Process.{is_verified_supervisor}
use chatta.Services.Control.{Outcome, done, refused}
use chatta.Services.Start.{
  StartError, Occasion, written, Started, nick_attempts, new_session, start,
}
use chatta.Services.Start.Retries.{Attempted, Untouched, start-Attempted}
use chatta.Services.Start.Once.{
  SupervisorLog, Turn, Attempt, Tried, is_ready, is_up, after_report, after_reply, in_turn,
  await_ready, detail_of, refusal_of, with_supervisor, once_saved, once_spawned, start_once,
}

-- A turn found the client ready, or found that the supervisor was not there any more.
abbrev pub IsReadyTurn : Turn → Type 0
IsReadyTurn t = (is_ready t.report ≡ true) × (t.cancelled ≡ none)

abbrev pub IsLost : ChatSession → Turn → Type 0
IsLost session t =
    is_verified_supervisor t.processes session.supervisor_pid session.supervisor_start_fingerprint
    ≡ false

-- How an attempt ends that has saved its session.
pub data EndsAs (session : ChatSession) (turns : List Turn) (r : Tried) : Type 0 where
  up : r ≡ is_up session → Any IsReadyTurn turns → EndsAs session turns r
  stopped : r.stops ≡ true → r.error ≢ none → EndsAs session turns r
  vanished : r.error ≢ none → Any (IsLost session) turns → EndsAs session turns r

later_turn :
    (session : ChatSession) (t : Turn) (ts : List Turn) (r : Tried)
    → EndsAs session ts r
    → EndsAs session (t ∷ ts) r
later_turn session t ts r (up e a) = up e (inr a)
later_turn session t ts r (stopped e a) = stopped e a
later_turn session t ts r (vanished e a) = vanished e (inr a)

report-EndsAs :
    (session : ChatSession) (log : SupervisorLog) (t : Turn) (ts : List Turn) (later : Tried)
    → t.cancelled ≡ none
    → EndsAs session ts later
    → EndsAs session (t ∷ ts) (after_report session log t later)
report-EndsAs session log t ts later live h =
    if_intro (EndsAs session (t ∷ ts)) (is_ready t.report) (is_up session) _
      (λ ready. up refl (inl (ready, live)))
      (λ waits.
        if_intro (EndsAs session (t ∷ ts))
          (not (
            is_verified_supervisor t.processes session.supervisor_pid
              session.supervisor_start_fingerprint))
          _ later (λ lost. vanished (λ e. cc) (inl (ground (arith, lost))))
          (λ there. later_turn session t ts later h))

turn-EndsAs :
    (session : ChatSession) (log : SupervisorLog) (detail : Text) (t : Turn) (ts : List Turn)
    (later : Tried) (c : Option Text)
    → t.cancelled ≡ c
    → EndsAs session ts later
    → EndsAs session (t ∷ ts) (in_turn session log t detail later c)
turn-EndsAs session log detail t ts later (some e) live h = stopped refl (λ k. cc)
turn-EndsAs session log detail t ts later none live h = of_refusal (refusal_of t.reply detail)
  where
    of_refusal :
        (o : Option StartError) → EndsAs session (t ∷ ts) (after_reply session log t later o)
    of_refusal (some e) = stopped refl (λ k. cc)
    of_refusal none = report-EndsAs session log t ts later live h

await_ready-EndsAs :
    (session : ChatSession) (log : SupervisorLog) (detail : Text) (ts : List Turn)
    → EndsAs session ts (await_ready session log detail ts)
unfolding await_ready
await_ready-EndsAs session log detail [] = stopped refl (λ k. cc)
await_ready-EndsAs session log detail (t ∷ ts) =
    turn-EndsAs session log (detail_of detail t.reply) t ts _ t.cancelled refl
      (await_ready-EndsAs session log (detail_of detail t.reply) ts)

-- How any attempt ends: it started no supervisor that it could identify; or it did, and then either
-- it succeeds, after a turn that found the client ready, with the session and this supervisor saved;
-- or it fails, and has called for the supervisor to be stopped or found that it was gone.
pub data Ends (a : Attempt) (base : ChatSession) (r : Tried) : Type 0 where
  unidentified : (r.error ≢ none) × (r.saved ≡ none) → Ends a base r
  halted : r.stops ≡ true → r.error ≢ none → Ends a base r
  ended :
      (pid : ℤ)
      → a.spawn ≡ done pid
      → EndsAs (with_supervisor pid a.fingerprint base) a.turns r
      → Ends a base r

start_once-Ends : (a : Attempt) (base : ChatSession) → Ends a base (start_once a base)
unfolding start_once
start_once-Ends a base = of_spawn a.spawn refl
  where
    of_save :
        (pid : ℤ) (e : Option Text)
        → a.spawn ≡ done pid
        → Ends a base (once_saved a (with_supervisor pid a.fingerprint base) e)
    of_save pid (some e) starts = halted refl (λ k. cc)
    of_save pid none starts =
        ended pid starts
          (await_ready-EndsAs (with_supervisor pid a.fingerprint base) a.supervisor_log [] a.turns)

    of_spawn : (o : Outcome ℤ) → a.spawn ≡ o → Ends a base (once_spawned a base o)
    of_spawn (refused e) starts = unidentified ((λ k. cc), refl)
    of_spawn (done pid) starts =
        if_intro (Ends a base) (is_empty a.fingerprint) _ _
          (λ missing. unidentified ((λ k. cc), refl)) (λ known. of_save pid a.save starts)

abbrev saved_or : ChatSession → Option ChatSession → ChatSession
saved_or base none = base
saved_or base (some session) = session

-- A start whose attempts for this session are those of `startOnce`.
abbrev pub by_attempts : Occasion → (ℕ → Attempt) → ChatSession → Occasion
by_attempts o attempts session = record o {
  attempt = λ n. (start_once (attempts n) session).error;
  saved_by = λ n base. saved_or base (start_once (attempts n) base).saved;
}

-- The attempt that succeeded: the supervisor it started, and what the state file then says.
pub record IsUp (attempts : ℕ → Attempt) (session : ChatSession) (s : Started) : Type 0 where
  pub last : ℕ
  pub bounded : last < nick_attempts
  pub pid : ℤ
  pub started : (attempts last).spawn ≡ done pid
  pub ready : Any IsReadyTurn (attempts last).turns
  pub file : s.file ≡ written (with_supervisor pid (attempts last).fingerprint session)

up_saved :
    (a : Attempt) (base : ChatSession) (r : Tried)
    → Ends a base r
    → r.error ≡ none
    → (pid : ℤ) × (a.spawn ≡ done pid)
      × Any IsReadyTurn a.turns
      × (r.saved ≡ some (with_supervisor pid a.fingerprint base))
up_saved a base r (unidentified (e, s)) good = absurd (e good)
up_saved a base r (halted x e) good = absurd (e good)
up_saved a base r (ended pid starts (up e ready)) good = (pid, starts, ready, ap (λ t. t.saved) e)
up_saved a base r (ended pid starts (stopped x e)) good = absurd (e good)
up_saved a base r (ended pid starts (vanished e lost)) good = absurd (e good)

-- A start that succeeds, after at most three attempts, has seen the client ready in its last one: at
-- some look the owner and the supervisor were alive, the server's link was up and every channel was
-- joined. The state file then has the new session with the supervisor that this attempt started.
pub start-IsUp :
    (u : Unicode) (o : Occasion) (attempts : ℕ → Attempt) (takeover : Bool) (owner : OwnerBinding)
    (nick role : Text)
    → o.owner ≡ done owner
    → let session = new_session u o owner nick role in
      let s = start u (by_attempts o attempts session) takeover nick role in
      s.error ≡ none → IsUp attempts session s
start-IsUp u o attempts takeover owner nick role known good = of_end (
    start-Attempted u (by_attempts o attempts (new_session u o owner nick role)) takeover owner nick
      role known)
  where
    of_end :
        Untouched
            (start u (by_attempts o attempts (new_session u o owner nick role)) takeover nick role)
          ⊎ Attempted
              (by_attempts o attempts (new_session u o owner nick role))
              (new_session u o owner nick role)
              (start u
                (by_attempts o attempts (new_session u o owner nick role))
                takeover
                nick
                role)
        → IsUp attempts
            (new_session u o owner nick role)
            (start u (by_attempts o attempts (new_session u o owner nick role)) takeover nick role)
    of_end (inl (none_made, same, failed)) = absurd (failed good)
    of_end (inr a) =
        let session = new_session u o owner nick role in
        let (pid, starts, ready, saved) =
          up_saved (attempts a.last) session (start_once (attempts a.last) session)
            (start_once-Ends (attempts a.last) session) (a.result ∙ good) in
        record {
          last = a.last;
          bounded = a.bounded;
          pid = pid;
          started = starts;
          ready = ready;
          file = elim a.file [
            | inl (fine, is_written) ↦ is_written ∙ ap (λ x. written (saved_or session x)) saved
            | inr (broken, discards) ↦ absurd (broken good)
          ];
        }
