-- ===== src/Services/Fleet/Stopping.antt =====
-- What a stop of a client leaves.
use chatta.Prelude.{
  if_intro, and_iff, ◌≡◌, refl, ◌⊎◌, inl, inr, arith, Bool, true, false, not, ◌&&◌, Option, none,
  some, List,
}
use chatta.Text.Basic.{Text}
use chatta.Common.{ChatSession, OwnerBinding}
use chatta.Dal.Process.{Signal}
use chatta.Services.Control.{Outcome, done}
use chatta.Services.Fleet.{
  View, stop_supervisor, other_live_agent, StopError, StopEffect, stop_refused, without_supervisor,
  stop_saved, stop_signalled, is_foreign, stop,
}
use chatta.Services.Fleet.Cleanup.{HasHalted, stop_supervisor-HasHalted}

-- The client of another live agent, which is left alone.
abbrev pub IsLeft : Bool → Bool → StopEffect → Type 0
IsLeft force foreign e = (force ≡ false) × (foreign ≡ true) × (e ≡ stop_refused other_live_agent)

-- Either an error, and nothing was written; or the state was written without a supervisor, and the
-- one that was recorded does not run any more.
abbrev pub IsStopped : View → ChatSession → StopEffect → Type 0
IsStopped v st e =
    (e.asked_to_quit ≡ true)
    × (((why : StopError) × (e.error ≡ some why) × (e.saved ≡ none))
        ⊎ ((e.error ≡ none) × (e.saved ≡ some (without_supervisor st)) × HasHalted v st))

signalled-IsStopped :
    (v : View) (st : ChatSession) (save : ChatSession → Option Text) (signals : List Signal)
    (e : Option Text)
    → (e ≡ none → HasHalted v st)
    → IsStopped v st (stop_signalled st save signals e)
signalled-IsStopped v st save signals (some e) halts = (refl, inl (_, refl, refl))
signalled-IsStopped v st save signals none halts = of_save (save (without_supervisor st))
  where
    of_save : (e : Option Text) → IsStopped v st (stop_saved st signals e)
    of_save (some e) = (refl, inl (_, refl, refl))
    of_save none = (refl, inr (refl, refl, halts refl))

abbrev MayStop : Bool → Bool → Type 0
MayStop force foreign = (force ≡ true) ⊎ (foreign ≡ false)

may_stop : (force foreign : Bool) → (not force && foreign) ≡ false → MayStop force foreign
may_stop force foreign h = ground arith

-- A stop of a client whose state can be loaded. Without force, and only then, the client of another
-- live owner is left alone: nobody is asked to quit, no signal is sent, nothing is written. In every
-- other case the supervisor is asked to quit, and either the stop reports an error and nothing was
-- written, or it wrote the state without a supervisor, and the one that was recorded does not run
-- any more.
pub stop-IsStopped :
    (v : View) (current : Outcome OwnerBinding) (save : ChatSession → Option Text) (force : Bool)
    (st : ChatSession)
    → v.state ≡ done st
    → let foreign = is_foreign v current st in
      let e = stop v current save force in
      IsLeft force foreign e ⊎ (((force ≡ true) ⊎ (foreign ≡ false)) × IsStopped v st e)
unfolding stop
stop-IsStopped v current save force st there =
    let foreign = is_foreign v current st in
    let s = stop_supervisor v st in
    rw there (
      if_intro (λ e. IsLeft force foreign e ⊎ (MayStop force foreign × IsStopped v st e))
        (not force && foreign) _ (stop_signalled st save s.signals s.error)
        (λ other.
          let (gentle, is_other) = (and_iff (not force) foreign).0 other in
          inl (ground (arith, gentle), is_other, refl))
        (λ own. inr (
          may_stop force foreign own,
          signalled-IsStopped v st save s.signals s.error (stop_supervisor-HasHalted v st),
        )))
