-- ===== src/Services/Health/Report.antt =====
-- What a report without a failure says.
use chatta.Prelude.{
  Bool-cases, if_intro, any, All, Any, ◌≡◌, refl, ap, ◌≢◌, ◌↔◌, ◌⊎◌, inl, inr, Bool, true, false,
  not, ◌&&◌, ◌||◌, Option, none, some, List, [], ◌∷◌, arith,
}
use chatta.Text.Basic.{Text, codes, eq_text, eq_text_iff}
use chatta.Common.{ChatSession, ChannelMembership, HealthReport, TransportStatus}
use chatta.Dal.State.{is_empty}
use chatta.Dal.State.Sessions.{ne_nil_of_test}
use chatta.Dal.Process.{Processes, process_alive, is_verified_supervisor}
use chatta.Services.Control.{ControlResponse, Reply, lost, got}
use chatta.Services.Health.{
  or_text, transport_failure, status_of, missing_channel, with_channels, with_status, seen, health,
}

-- What a healthy report has.
abbrev pub Healthy : Bool → HealthReport → Type 0
Healthy active r =
    ((r.owner || active) ≡ true)
    × (r.supervisor ≡ true)
    × (r.joined_channels ≡ true)
    × (r.server_link ≡ true)
    × (r.membership ≡ true)

transport_failure-ne-nil : (reply : Reply) → transport_failure reply ≢ []
transport_failure-ne-nil (lost e) h = cc
transport_failure-ne-nil (got r) h = filled r.error h
  where
    filled : (t : Text) → or_text t (codes "transport not connected") ≢ []
    filled [] h = cc
    filled (c ∷ t) h = cc

-- The supervisor's answer reports this status.
abbrev pub Reports : Reply → TransportStatus → Type 0
Reports reply t = (r : ControlResponse) × (reply ≡ got r) × (r.ok ≡ true) × (r.status ≡ some t)

-- The client is up: the session has a server, its owner lives or an active binding stands in for it,
-- its supervisor is verified, and that reports every channel of the session, and for a deep look
-- that the server has registered the nick.
pub record IsUp (p : Processes) (active : Bool) (reply : Reply) (deep : Bool) (st : ChatSession)
    : Type 0 where
  pub status : TransportStatus
  pub has_host : st.host ≢ []
  pub owned : (process_alive p st.owner ≡ true) ⊎ (active ≡ true)
  pub supervised : is_verified_supervisor p st.supervisor_pid st.supervisor_start_fingerprint ≡ true
  pub told : Reports reply status
  pub in_channels : All (λ c. Any (λ name. c.name ≡ name) status.channels) st.channels
  pub registered : deep ≡ true → status.registered ≡ true

status_of-Reports :
    (reply : Reply) (t : TransportStatus) → status_of reply ≡ some t → Reports reply t
status_of-Reports (lost e) t h = cc
status_of-Reports (got r) t h = elim (Bool-cases r.ok) [
  | inl ok ↦ (r, refl, ok, rw ok at h)
  | inr failed ↦ let k = rw failed at h in cc
]

Reports-status_of :
    (reply : Reply) (t : TransportStatus) → Reports reply t → status_of reply ≡ some t
Reports-status_of reply t (r, same, ok, status) = rw same (rw ok status)

any_iff :
    (name : Text) (names : List Text)
    → (any (eq_text name) names ≡ true) ↔ Any (λ n. name ≡ n) names
any_iff name [] = (λ h. cc, λ h. absurd h)
any_iff name (n ∷ names) = ground (arith, eq_text_iff name n, any_iff name names)

missing_channel_iff :
    (confirmed : List Text) (cs : List ChannelMembership)
    → (missing_channel confirmed cs ≡ none) ↔ All (λ c. Any (λ name. c.name ≡ name) confirmed) cs
unfolding missing_channel
missing_channel_iff confirmed [] = (λ h. tt, λ h. refl)
missing_channel_iff confirmed (c ∷ cs) =
    let here = any_iff c.name confirmed in
    let later = missing_channel_iff confirmed cs in
    elim (Bool-cases (any (eq_text c.name) confirmed)) [
      | inl present ↦
          (λ h. (here.0 present, later.0 (rw present at h)), λ v. rw present (later.1 v.1))
      | inr absent ↦ (λ h. let k = rw absent at h in cc, λ v. cc (here.1 v.0, absent))
    ]

either : (a b : Bool) → (not a && not b) ≡ false → (a || b) ≡ true
either a b h = ground arith

positive : (a : Bool) → not a ≡ false → a ≡ true
positive a h = ground arith

-- A report without a failure has every part up, and so has the client.
abbrev Tells : Bool → Type 0 → HealthReport → Type 0
Tells active up r = ((r.failure ≡ []) ↔ Healthy active r) × ((r.failure ≡ []) ↔ up)

sick :
    (active : Bool) (up : Type 0) (r : HealthReport)
    → r.failure ≢ []
    → r.membership ≡ false
    → ¬ up
    → Tells active up r
sick active up r h k down = (
  (λ e. absurd (h e), λ d. absurd (ground (arith, k, d))),
  (λ e. absurd (h e), λ u. absurd (down u)),
)

well :
    (active : Bool) (up : Type 0) (r : HealthReport)
    → r.failure ≡ []
    → Healthy active r
    → up
    → Tells active up r
well active up r h k u = ((λ e. k, λ d. h), (λ e. u, λ v. h))

one_status :
    (reply : Reply) (s t : TransportStatus) → Reports reply s → status_of reply ≡ some t → s ≡ t
one_status reply s t told e = cc (Reports-status_of reply s told, e)

owner_cases : (a b : Bool) → (not a && not b) ≡ false → (a ≡ true) ⊎ (b ≡ true)
owner_cases true b h = inl refl
owner_cases false true h = inr refl
owner_cases false false h = cc

module _ (p : Processes) (active : Bool) (reply : Reply) (deep : Bool) (st : ChatSession)
    (has_host : st.host ≢ []) (owned : (not (process_alive p st.owner) && not active) ≡ false)
    (supervised : is_verified_supervisor p st.supervisor_pid st.supervisor_start_fingerprint
      ≡ true) where
  abbrev Up : Type 0
  Up = IsUp p active reply deep st

  abbrev at : TransportStatus → HealthReport
  at t = record (seen p st) { connected = t.connected }

  is_up :
      (t : TransportStatus)
      → status_of reply ≡ some t
      → missing_channel t.channels st.channels ≡ none
      → (deep ≡ true → t.registered ≡ true)
      → Up
  is_up t e none_missing registered = record {
    status = t;
    has_host = has_host;
    owned = owner_cases (process_alive p st.owner) active owned;
    supervised = supervised;
    told = status_of-Reports reply t e;
    in_channels = (missing_channel_iff t.channels st.channels).0 none_missing;
    registered = registered;
  }

  abbrev unregistered : TransportStatus → HealthReport
  unregistered t = record (at t) {
    joined_channels = true;
    failure = codes "not registered with server";
  }

  abbrev registered_report : TransportStatus → HealthReport
  registered_report t = record (at t) {
    joined_channels = true;
    server_link = true;
    membership = true;
  }

  reported :
      (t : TransportStatus)
      → status_of reply ≡ some t
      → missing_channel t.channels st.channels ≡ none
      → (deep ≡ true → t.registered ≡ true)
      → Tells active Up (registered_report t)
  reported t e none_missing registered =
      well active Up (registered_report t) refl
        (either (process_alive p st.owner) active owned, supervised, refl, refl, refl)
        (is_up t e none_missing registered)

  with_channels-Tells :
      (d : Bool) (t : TransportStatus) (o : Option Text)
      → deep ≡ d
      → status_of reply ≡ some t
      → missing_channel t.channels st.channels ≡ o
      → Tells active Up (with_channels d st t (at t) o)
  with_channels-Tells d t (some name) is_deep e missing =
      sick active Up (with_channels d st t (at t) (some name)) (λ h. cc) refl
        (λ u.
          let same = one_status reply u.status t u.told e in
          let found = (missing_channel_iff u.status.channels st.channels).1 u.in_channels in
          cc (found, missing, ap (λ x. missing_channel x.channels st.channels) same))
  with_channels-Tells false t none is_deep e missing = reported t e missing (λ h. cc)
  with_channels-Tells true t none is_deep e missing = elim (Bool-cases t.registered) [
    | inl named ↦ rw named (reported t e missing (λ h. named))
    | inr unnamed ↦ rw unnamed (
        sick active Up (unregistered t) (λ h. cc) refl
          (λ u.
            let same = one_status reply u.status t u.told e in
            cc (u.registered is_deep, ap (λ x. x.registered) same, unnamed)))
  ]

  with_status-Tells :
      (o : Option TransportStatus)
      → status_of reply ≡ o
      → Tells active Up (with_status deep st reply (seen p st) o)
  with_status-Tells none e =
      sick active Up (with_status deep st reply (seen p st) none) (transport_failure-ne-nil reply)
        refl (λ u. cc (Reports-status_of reply u.status u.told, e))
  with_status-Tells (some t) e =
      with_channels-Tells deep t (missing_channel t.channels st.channels) refl e refl

-- Health reports no failure exactly when the client is up: the session has a server, its owner lives
-- or an active binding stands in for it, the supervisor is verified, and the supervisor answers
-- with a status that names every channel of the session and, in a deep look, a registered nick.
-- Exactly then the fields of the report say so too.
pub health_iff :
    (p : Processes) (active : Bool) (reply : Reply) (deep : Bool) (st : ChatSession)
    → let r = health p active reply deep st in
      ((r.failure ≡ []) ↔ Healthy active r) × ((r.failure ≡ []) ↔ IsUp p active reply deep st)
unfolding health
health_iff p active reply deep st =
    let r = seen p st in
    let up = IsUp p active reply deep st in
    let failing : Text → HealthReport = λ t. record r { failure = t } in
    if_intro (Tells active up) (is_empty st.host) _ _
      (λ e.
        sick active up (failing (codes "no session")) (λ h. cc) refl
          (λ u. u.has_host (nil_of_test st.host e)))
      (λ host.
        if_intro (Tells active up) (not r.owner && not active) _ _
          (λ e.
            sick active up (failing (codes "owner has exited")) (λ h. cc) refl
              (λ u. unowned (process_alive p st.owner) active e u.owned))
          (λ owned.
            if_intro (Tells active up) (not r.supervisor) _ _
              (λ e.
                sick active up (failing (codes "supervisor is not running")) (λ h. cc) refl
                  (λ u. let k = u.supervised in ground (arith, e, k)))
              (λ supervised.
                with_status-Tells p active reply deep st (ne_nil_of_test st.host host) owned
                  (positive r.supervisor supervised) (status_of reply) refl)))
  where
    nil_of_test : (t : Text) → is_empty t ≡ true → t ≡ []
    nil_of_test [] e = refl
    nil_of_test (c ∷ t) e = cc

    unowned : (a b : Bool) → (not a && not b) ≡ true → (a ≡ true) ⊎ (b ≡ true) → ⊥
    unowned a b h (inl x) = ground (arith, h, x)
    unowned a b h (inr x) = ground (arith, h, x)
