-- ===== src/Services/Codex/Client/Accepted.antt =====
-- When the app-server has accepted an event.
use chatta.Prelude.{
  if◌then◌else◌, ℕ, ◌≡◌, refl, sym, ap, ◌∙◌, subst, ◌≢◌, ◌⊎◌, inl, inr, Bool, true, false, not,
  Option, none, some, List, [], ◌∷◌, ◌++◌, arith,
}
use chatta.Text.Basic.{Text, codes, eq_text_iff}
use chatta.Text.Case.{Folding}
use chatta.Services.Codex.Client.{
  DeliveryError, Answer, answered, failed, Inspection, AppServer, CodexAppClient, Request,
  turn_start, turn_steer, CodexDeliveryAck, Delivery, is_idle_steer_race, stopped, same_thread,
  active_turn, dispatched, put, acknowledged, start, rechecked, steered, steer, inspected,
  connected, deliver,
}

-- The thread of the client is there with this status.
abbrev pub Reads : CodexAppClient → Answer Inspection → Inspection → Text → Type 0
Reads c a i status = (a ≡ answered i) × (i.thread ≡ some c.thread_id) × (i.status ≡ status)

-- The ways to an acknowledgement, with what was sent on each.
pub data Accepted (f : Folding) (c : CodexAppClient) (s : AppServer) (text : Text)
    : List Request → Text → Type 0 where
  -- An idle thread, with no failed steer on record, starts a turn.
  started :
      {i : Inspection} {turn : Text}
      → Reads c s.first_inspect i (codes "idle")
      → c.no_start_after_steer_failure ≡ false
      → c.authorize 0 ≡ none
      → s.start ≡ answered turn
      → turn ≢ []
      → Accepted f c s text (turn_start c.thread_id text ∷ []) turn
  -- An active thread takes the event into its turn in progress.
  joined :
      {i : Inspection} {turn : Text}
      → Reads c s.first_inspect i (codes "active")
      → c.authorize 0 ≡ none
      → s.steer ≡ answered turn
      → turn ≢ []
      → Accepted f c s text (turn_steer c.thread_id (active_turn i.turns) text ∷ []) turn
  -- The turn in progress ended before the steer, and the thread is idle when read again.
  restarted :
      {i j : Inspection} {e : DeliveryError} {turn : Text}
      → Reads c s.first_inspect i (codes "active")
      → c.authorize 0 ≡ none
      → s.steer ≡ failed e
      → is_idle_steer_race f e ≡ true
      → Reads c s.second_inspect j (codes "idle")
      → c.authorize 1 ≡ none
      → s.start ≡ answered turn
      → turn ≢ []
      → Accepted f c s text
          (turn_steer c.thread_id (active_turn i.turns) text ∷ turn_start c.thread_id text ∷ [])
          turn

-- The callback reports no error that looks like a race of the app-server.
abbrev pub NoRace : Folding → CodexAppClient → Type 0
NoRace f c = (n : ℕ) (e : DeliveryError) → c.authorize n ≡ some e → is_idle_steer_race f e ≡ false

dispatched-answered :
    (o : Option DeliveryError) (reply : Answer Text) (turn : Text)
    → dispatched o reply ≡ answered turn
    → (o ≡ none) × (reply ≡ answered turn)
dispatched-answered none reply turn h = (refl, h)
dispatched-answered (some e) reply turn h = absurd (ground arith)

dispatched-failed :
    (o : Option DeliveryError) (reply : Answer Text) (e : DeliveryError)
    → dispatched o reply ≡ failed e
    → ((o ≡ none) × (reply ≡ failed e)) ⊎ (o ≡ some e)
dispatched-failed none reply e h = inl (refl, h)
dispatched-failed (some d) reply e h = inr cc

abbrev turn_of : Answer CodexDeliveryAck → Text
turn_of (answered a) = a.turn_id
turn_of (failed e) = []

-- An acknowledgement comes from a reply with a turn ID.
turn_ne_nil : (t : ℕ) (turn : Text) (a : CodexDeliveryAck) → t ∷ turn ≡ a.turn_id → a.turn_id ≢ []
turn_ne_nil t turn a same = λ e. cc

acknowledged-answered :
    (c : CodexAppClient) (sent : List Request) (method : Text) (reply : Answer Text)
    (a : CodexDeliveryAck)
    → (acknowledged c sent method reply).result ≡ answered a
    → (reply ≡ answered a.turn_id)
      × (a.turn_id ≢ [])
      × ((acknowledged c sent method reply).sent ≡ sent)
acknowledged-answered c sent method (failed e) a h = absurd (ground arith)
acknowledged-answered c sent method (answered []) a h = absurd (ground arith)
acknowledged-answered c sent method (answered (t ∷ turn)) a h =
    let same : t ∷ turn ≡ a.turn_id = ap turn_of h in
    (ap answered same, turn_ne_nil t turn a same, refl)

true_of_negation : {b : Bool} → not b ≡ false → b ≡ true
true_of_negation {b = b} h = ground arith

module _ (f : Folding) (c : CodexAppClient) (s : AppServer) (text : Text)
    (a : CodexDeliveryAck) where
  -- A delivery is accepted if it ends in this acknowledgement.
  abbrev Good : Delivery → Type 0
  Good d = d.result ≡ answered a → Accepted f c s text d.sent a.turn_id

  stopped-Good : (sent : List Request) (e : DeliveryError) → Good (stopped sent e)
  stopped-Good sent e h = absurd (ground arith)

  if-Good :
      (b : Bool) (x y : Delivery)
      → (b ≡ true → Good x)
      → (b ≡ false → Good y)
      → Good (if b then x else y)
  if-Good true x y p q = p refl
  if-Good false x y p q = q refl

  start-Good :
      (sent : List Request) (n : ℕ)
      → (c.authorize n ≡ none
          → s.start ≡ answered a.turn_id
          → a.turn_id ≢ []
          → Accepted f c s text (sent ++ turn_start c.thread_id text ∷ []) a.turn_id)
      → Good (start c s text sent n)
  start-Good sent n p h =
      let (reply, ne, sent_is) =
        acknowledged-answered c (sent ++ put (c.authorize n) (turn_start c.thread_id text))
          (codes "turn/start") (dispatched (c.authorize n) s.start) a h in
      let (auth, replied) = dispatched-answered (c.authorize n) s.start a.turn_id reply in
      subst (λ r. Accepted f c s text r a.turn_id)
        (sym (sent_is ∙ ap (λ o. sent ++ put o (turn_start c.thread_id text)) auth))
        (p auth replied ne)

  same_thread-some : (o : Option Text) → not (same_thread c o) ≡ false → o ≡ some c.thread_id
  same_thread-some none h = absurd (ground arith)
  same_thread-some (some id) h = ap some ((eq_text_iff id c.thread_id).0 (true_of_negation h))

  rechecked-Good :
      (sent : List Request) (o : Answer Inspection)
      → ((j : Inspection) → Reads c o j (codes "idle") → Good (start c s text sent 1))
      → Good (rechecked c s text sent o)
  rechecked-Good sent (failed e) p = stopped-Good sent e
  rechecked-Good sent (answered j) p =
      if-Good _ _ _ (λ e. stopped-Good sent _)
        (λ same.
          if-Good _ _ _ (λ e. stopped-Good sent _)
            (λ idle. p j (
              refl,
              same_thread-some j.thread same,
              (eq_text_iff j.status (codes "idle")).0 (true_of_negation idle),
            )))

  module _ (no_race : NoRace f c) where
    race_is_steer :
        (e : DeliveryError)
        → is_idle_steer_race f e ≡ true
        → dispatched (c.authorize 0) s.steer ≡ failed e
        → (c.authorize 0 ≡ none) × (s.steer ≡ failed e)
    race_is_steer e race h = elim (dispatched-failed (c.authorize 0) s.steer e h) [
      | inl both ↦ both
      | inr refused ↦ absurd (ground (arith, no_race 0 e refused))
    ]

    steered-Good :
        (i : Inspection) (sent : List Request) (reply : Answer Text)
        → Reads c s.first_inspect i (codes "active")
        → sent ≡ put (c.authorize 0) (turn_steer c.thread_id (active_turn i.turns) text)
        → dispatched (c.authorize 0) s.steer ≡ reply
        → Good (steered f c s text sent reply)
    steered-Good i sent (answered turn) reads sent_is reply h =
        let (same, ne, out) =
          acknowledged-answered c sent (codes "turn/steer") (answered turn) a h in
        let (auth, taken) = dispatched-answered (c.authorize 0) s.steer a.turn_id (reply ∙ same) in
        subst (λ r. Accepted f c s text r a.turn_id)
          (sym (
            out
            ∙ sent_is
            ∙ ap (λ o. put o (turn_steer c.thread_id (active_turn i.turns) text)) auth))
          (joined reads auth taken ne)
    steered-Good i sent (failed e) reads sent_is reply h =
        if-Good _ _ _
          (λ race. rechecked-Good sent s.second_inspect (λ j again.
            start-Good sent 1 (λ auth replied ne.
              let (auth0, lost) = race_is_steer e race reply in
              subst (λ r. Accepted f c s text (r ++ turn_start c.thread_id text ∷ []) a.turn_id)
                (sym (
                  sent_is
                  ∙ ap (λ o. put o (turn_steer c.thread_id (active_turn i.turns) text)) auth0))
                (restarted reads auth0 lost race again auth replied ne))))
          (λ e'. stopped-Good sent e) h

    steer-Good :
        (i : Inspection) (id : Text)
        → Reads c s.first_inspect i (codes "active")
        → active_turn i.turns ≡ id
        → Good (steer f c s text id)
    steer-Good i [] reads same = stopped-Good [] _
    steer-Good i (t ∷ turn) reads same =
        steered-Good i (put (c.authorize 0) (turn_steer c.thread_id (t ∷ turn) text))
          (dispatched (c.authorize 0) s.steer) reads
          (ap (λ x. put (c.authorize 0) (turn_steer c.thread_id x text)) (sym same)) refl

    inspected-Good : (o : Answer Inspection) → s.first_inspect ≡ o → Good (inspected f c s text o)
    inspected-Good (failed e) same = stopped-Good [] e
    inspected-Good (answered i) same =
        if-Good _ _ _ (λ e. stopped-Good [] _)
          (λ there.
            if-Good _ _ _
              (λ idle.
                if-Good _ _ _ (λ e. stopped-Good [] _)
                  (λ may_start. start-Good [] 0 (λ auth replied ne.
                    started
                      (
                        same,
                        same_thread-some i.thread there,
                        (eq_text_iff i.status (codes "idle")).0 idle,
                      )
                      may_start auth replied ne)))
              (λ not_idle.
                if-Good _ _ _ (λ e. stopped-Good [] _)
                  (λ active.
                    steer-Good i (active_turn i.turns)
                      (
                        same,
                        same_thread-some i.thread there,
                        (eq_text_iff i.status (codes "active")).0 (true_of_negation active),
                      )
                      refl)))

    connected-Good : (o : Option DeliveryError) → Good (connected f c s text o)
    connected-Good (some e) = stopped-Good [] e
    connected-Good none = inspected-Good s.first_inspect refl

-- An acknowledgement of `Deliver` is a turn ID that the app-server answered to the last request
-- sent, on one of the three ways of `Accepted`, if the callback's errors are none of the
-- app-server's race errors. Each request was authorized, names the thread of the client, and has
-- the text that was to be delivered; an idle thread starts a turn unless a failed steer is on
-- record, an active one is steered at its turn in progress, and a turn starts behind a steer only
-- if that steer met an ended turn and the thread is idle when read again.
pub deliver-Accepted :
    (f : Folding) (c : CodexAppClient) (s : AppServer) (text : Text) (a : CodexDeliveryAck)
    → NoRace f c
    → (deliver f c s text).result ≡ answered a
    → Accepted f c s text (deliver f c s text).sent a.turn_id
unfolding deliver
deliver-Accepted f c s text a no_race =
    if-Good f c s text a _ _ _ (λ e. stopped-Good f c s text a [] _)
      (λ e. connected-Good f c s text a no_race s.connect)
