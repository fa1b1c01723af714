-- ===== src/Services/Health/Recovery.antt =====
-- pkg/services/health.go: `Ensure`, which a command calls first. What the environment answers in one
-- call is in `Situation`; the looks within the time limit are a list.
use chatta.Prelude.{
  if◌then◌else◌, if_intro, any, ◌≡◌, refl, ap, subst, ◌⊎◌, inl, inr, Bool, true, false, not, ◌&&◌,
  ◌||◌, Option, none, some, List, arith,
}
use chatta.Prelude.Int.{ℤ}
use chatta.Text.Basic.{Text, codes}
use chatta.Common.{ChatSession, TransportStatus}
use chatta.Dal.State.{is_empty}
use chatta.Dal.Process.{Processes, process_alive, is_verified_supervisor}
use chatta.Services.Control.{Reply, lost, got, Outcome, done, refused}
use chatta.Services.Health.{status_of}

pub record Look : Type 0 where
  pub processes : Processes
  pub reply : Reply

-- `active` is `hasActiveCodexBinding`, `spawned` what `spawnSupervisor` gives, `after_spawn` the
-- processes then, and `save` the error of `SaveState`.
pub record Situation : Type 0 where
  pub processes : Processes
  pub active : Bool
  pub reply : Reply
  pub spawned : Outcome ℤ
  pub after_spawn : Processes
  pub save : ChatSession → Option Text
  pub looks : List Look

-- The result, and the session that was saved, if one was.
pub record Ensured : Type 0 where
  pub outcome : Outcome ChatSession
  pub saved : Option ChatSession

abbrev is_ok : Reply → Bool
is_ok (lost e) = false
is_ok (got r) = r.ok

abbrev is_registered : Option TransportStatus → Bool
is_registered none = false
is_registered (some t) = t.registered

-- The supervisor of the session answers and is registered with the server.
abbrev pub ready : ChatSession → Look → Bool
ready st l =
    is_registered (status_of l.reply)
    && is_verified_supervisor l.processes st.supervisor_pid st.supervisor_start_fingerprint

abbrev await : List Look → Option ChatSession → ChatSession → Ensured
await looks saved st =
    if any (ready st) looks
    then record { outcome = done st; saved = saved }
    else record { outcome = refused (codes "chat client recovery timed out"); saved = saved }

abbrev refuse : Text → Ensured
refuse e = record { outcome = refused e; saved = none }

abbrev with_supervisor : ℤ → Text → ChatSession → ChatSession
with_supervisor pid fingerprint st = record st {
  supervisor_pid = pid;
  supervisor_start_fingerprint = fingerprint;
}

abbrev save_recovered : Situation → ChatSession → Option Text → Ensured
save_recovered s st (some e) = refuse e
save_recovered s st none = await s.looks (some st) st

abbrev identified : Situation → ChatSession → ℤ → Text → Ensured
identified s st pid fingerprint =
    let recovered = with_supervisor pid fingerprint st in
    if is_empty fingerprint
    then refuse (codes "could not establish supervisor process identity")
    else save_recovered s recovered (s.save recovered)

abbrev recover : Situation → ChatSession → Outcome ℤ → Ensured
recover s st (refused e) = refuse e
recover s st (done pid) = identified s st pid (s.after_spawn.process_start pid)

abbrev needs_recovery : Situation → ChatSession → Bool
needs_recovery s st =
    not (is_verified_supervisor s.processes st.supervisor_pid st.supervisor_start_fingerprint)
    || not (is_ok s.reply)

-- `refused` has the text of the failed load: the migration message, or that there is no session.
unfoldable pub ensure : Situation → Outcome ChatSession → Ensured
ensure s (refused e) = refuse e
ensure s (done st) =
    if not (process_alive s.processes st.owner) && not s.active
    then refuse (codes "the agent session that owns this client has exited")
    else if needs_recovery s st
    then recover s st s.spawned
    else await s.looks none st

-- What holds of a session that a command may use.
pub record Usable (s : Situation) (before after : ChatSession) (saved : Option ChatSession)
    : Type 0 where
  pub owned : (process_alive s.processes before.owner || s.active) ≡ true
  pub answers : any (ready after) s.looks ≡ true
  pub same : after ≡ with_supervisor after.supervisor_pid after.supervisor_start_fingerprint before
  pub on_disk : (saved ≡ some after) ⊎ ((saved ≡ none) × (after ≡ before))

abbrev Leads : Situation → ChatSession → Ensured → Type 0
Leads s before e = (after : ChatSession) → e.outcome ≡ done after → Usable s before after e.saved

refuse-Leads : (s : Situation) (before : ChatSession) (e : Text) → Leads s before (refuse e)
refuse-Leads s before e after h = absurd (ground arith)

abbrev session_of : ChatSession → Outcome ChatSession → ChatSession
session_of d (done st) = st
session_of d (refused e) = d

await-Leads :
    (s : Situation) (before st : ChatSession) (saved : Option ChatSession)
    → (process_alive s.processes before.owner || s.active) ≡ true
    → st ≡ with_supervisor st.supervisor_pid st.supervisor_start_fingerprint before
    → (saved ≡ some st) ⊎ ((saved ≡ none) × (st ≡ before))
    → Leads s before (await s.looks saved st)
await-Leads s before st saved owned same on_disk =
    if_intro (Leads s before) (any (ready st) s.looks) (record { outcome = done st; saved = saved })
      (record { outcome = refused (codes "chat client recovery timed out"); saved = saved })
      (λ answers after h.
        subst (λ x. Usable s before x saved) (ap (session_of st) h)
          (record { owned = owned; answers = answers; same = same; on_disk = on_disk }))
      (λ e after h. absurd (ground arith))

recover-Leads :
    (s : Situation) (st : ChatSession) (o : Outcome ℤ)
    → (process_alive s.processes st.owner || s.active) ≡ true
    → Leads s st (recover s st o)
recover-Leads s st (refused e) owned = refuse-Leads s st e
recover-Leads s st (done pid) owned =
    let fingerprint = s.after_spawn.process_start pid in
    let recovered = with_supervisor pid fingerprint st in
    if_intro (Leads s st) (is_empty fingerprint)
      (refuse (codes "could not establish supervisor process identity"))
      (save_recovered s recovered (s.save recovered))
      (λ e. refuse-Leads s st (codes "could not establish supervisor process identity"))
      (λ e. by_save recovered refl (s.save recovered))
  where
    by_save :
        (x : ChatSession)
        → x ≡ with_supervisor x.supervisor_pid x.supervisor_start_fingerprint st
        → (o : Option Text) → Leads s st (save_recovered s x o)
    by_save x same (some e) = refuse-Leads s st e
    by_save x same none = await-Leads s st x (some x) owned same (inl refl)

-- A session that `Ensure` gives out has a living owner or an active binding; its supervisor is the
-- recorded process and has answered, within the time limit, that it is registered with the server;
-- and it is the loaded session, or that session with a new supervisor, which has then been saved.
pub ensure-Usable :
    (s : Situation) (before after : ChatSession)
    → (ensure s (done before)).outcome ≡ done after
    → Usable s before after (ensure s (done before)).saved
unfolding ensure
ensure-Usable s before after h =
    if_intro (Leads s before) (not (process_alive s.processes before.owner) && not s.active)
      (refuse (codes "the agent session that owns this client has exited"))
      (if needs_recovery s before then recover s before s.spawned else await s.looks none before)
      (λ e. refuse-Leads s before (codes "the agent session that owns this client has exited"))
      (λ e.
        if_intro (Leads s before) (needs_recovery s before) (recover s before s.spawned)
          (await s.looks none before)
          (λ k.
            recover-Leads s before s.spawned
              (owned (process_alive s.processes before.owner) s.active e))
          (λ k.
            await-Leads s before before none
              (owned (process_alive s.processes before.owner) s.active e) refl (inr (refl, refl))))
      after h
  where
    owned : (a b : Bool) → (not a && not b) ≡ false → (a || b) ≡ true
    owned a b h = ground arith
