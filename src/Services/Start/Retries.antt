-- ===== src/Services/Start/Retries.antt =====
-- How often a start tries, and what it leaves.
use chatta.Prelude.{
  if_intro, ℕ, zero, suc, ◌+◌, ◌≤◌, ◌<◌, ◌≡◌, refl, sym, ap, subst, ◌≢◌, ◌⊎◌, inl, inr, Bool, true,
  false, not, Option, none, some, arith,
}
use chatta.Prelude.Int.{pos, ltb_ℤ}
use chatta.Text.Basic.{Text}
use chatta.Text.Case.{Unicode}
use chatta.Common.{ChatSession, OwnerBinding}
use chatta.Dal.State.{is_empty}
use chatta.Dal.Process.{process_alive, same_owner}
use chatta.Services.Control.{done}
use chatta.Services.Start.{
  StartError, no_owner, nick_required, no_state_path, other_agent, unsaved, nick_taken, not_ready,
  Occasion, untouched, discarded, written, Started, nick_attempts, after_attempt, retry, refuse,
  new_session, tried, saved, guarded, over_old, with_owner, start,
}

abbrev pub IsTaken : Option StartError → Type 0
IsTaken o = (t : Text) × (o ≡ some (nick_taken t))

-- The attempts from `n` on: each one before the last, `at`, found the nick taken, and the error is
-- that of the last.
record Tried (attempt : ℕ → Option StartError) (n limit : ℕ) (r : ℕ × Option StartError)
    : Type 0 where
  at : ℕ
  count : r.0 ≡ suc at
  from : n ≤ at
  bounded : at < limit
  result : attempt at ≡ r.1
  taken : (i : ℕ) → n ≤ i → i < at → IsTaken (attempt i)

once :
    (attempt : ℕ → Option StartError) (n limit : ℕ) (o : Option StartError)
    → n < limit
    → attempt n ≡ o
    → Tried attempt n limit (suc n, o)
once attempt n limit o h e = record {
  at = n;
  count = refl;
  from = omega arith;
  bounded = h;
  result = e;
  taken = λ i k l. absurd (omega (arith, k, l));
}

again_from :
    (attempt : ℕ → Option StartError) (n limit : ℕ) (r : ℕ × Option StartError)
    → IsTaken (attempt n)
    → Tried attempt (suc n) limit r
    → Tried attempt n limit r
again_from attempt n limit r t d = record {
  at = d.at;
  count = d.count;
  from = omega (arith, d.from);
  bounded = d.bounded;
  result = d.result;
  taken = λ i k l. earlier i k l (eq_or_lt n i k);
}
  where
    eq_or_lt : (n i : ℕ) → n ≤ i → (n ≡ i) ⊎ (suc n ≤ i)
    eq_or_lt n i h = ground arith

    earlier : (i : ℕ) → n ≤ i → i < d.at → (n ≡ i) ⊎ (suc n ≤ i) → IsTaken (attempt i)
    earlier i k l (inl e) = subst (λ j. IsTaken (attempt j)) e t
    earlier i k l (inr later) = d.taken i later l

after_attempt-Tried :
    (attempt : ℕ → Option StartError) (n limit : ℕ) (again : ℕ × Option StartError)
    (o : Option StartError)
    → n < limit
    → attempt n ≡ o
    → (IsTaken (attempt n) → Tried attempt n limit again)
    → Tried attempt n limit (after_attempt n again o)
after_attempt-Tried attempt n limit again none h e k = once attempt n limit none h e
after_attempt-Tried attempt n limit again (some (nick_taken t)) h e k = k (t, e)
after_attempt-Tried attempt n limit again (some (no_owner t)) h e k = once attempt n limit _ h e
after_attempt-Tried attempt n limit again (some nick_required) h e k = once attempt n limit _ h e
after_attempt-Tried attempt n limit again (some no_state_path) h e k = once attempt n limit _ h e
after_attempt-Tried attempt n limit again (some (other_agent t)) h e k = once attempt n limit _ h e
after_attempt-Tried attempt n limit again (some (unsaved t)) h e k = once attempt n limit _ h e
after_attempt-Tried attempt n limit again (some (not_ready t)) h e k = once attempt n limit _ h e

retry-Tried :
    (attempt : ℕ → Option StartError) (k n : ℕ) (last : Option StartError)
    → Tried attempt n (n + suc k) (retry attempt (suc k) n last)
unfolding retry
retry-Tried attempt zero n last =
    after_attempt-Tried attempt n (n + 1) (suc n, attempt n) (attempt n) (omega arith) refl
      (λ t. once attempt n (n + 1) (attempt n) (omega arith) refl)
retry-Tried attempt (suc k) n last =
    after_attempt-Tried attempt n (n + suc (suc k)) (retry attempt (suc k) (suc n) (attempt n))
      (attempt n) (omega arith) refl
      (λ t. again_from attempt n (n + suc (suc k)) (retry attempt (suc k) (suc n) (attempt n)) t (
        subst (λ m. Tried attempt (suc n) m (retry attempt (suc k) (suc n) (attempt n)))
          (omega arith) (retry-Tried attempt k (suc n) (attempt n))))

-- A start that made attempts, at most three: each one before the last found the nick taken. Its error
-- is that of the last; without one the state file has the session, else it is gone.
pub record Attempted (o : Occasion) (session : ChatSession) (s : Started) : Type 0 where
  pub last : ℕ
  pub count : s.attempts ≡ suc last
  pub bounded : last < nick_attempts
  pub result : o.attempt last ≡ s.error
  pub taken : (i : ℕ) → i < last → IsTaken (o.attempt i)
  pub file :
      ((s.error ≡ none) × (s.file ≡ written (o.saved_by last session)))
      ⊎ ((s.error ≢ none) × (s.file ≡ discarded))

abbrev pub Untouched : Started → Type 0
Untouched s = (s.attempts ≡ 0) × (s.file ≡ untouched) × (s.error ≢ none)

abbrev Ends : Occasion → ChatSession → Started → Type 0
Ends o session s = Untouched s ⊎ Attempted o session s

tried-Attempted :
    (o : Occasion) (stops : Bool) (session : ChatSession) (r : ℕ × Option StartError)
    → Tried o.attempt 0 nick_attempts r
    → Attempted o session (tried o stops session r)
tried-Attempted o stops session (n, none) d = record {
  last = d.at;
  count = d.count;
  bounded = d.bounded;
  result = d.result;
  taken = λ i k. d.taken i (omega arith) k;
  file = inl (refl, ap (λ m. written (o.saved_by m session)) (omega (arith, d.count)));
}
tried-Attempted o stops session (n, some e) d = record {
  last = d.at;
  count = d.count;
  bounded = d.bounded;
  result = d.result;
  taken = λ i k. d.taken i (omega arith) k;
  file = inr ((λ h. cc), refl);
}

saved-Ends :
    (o : Occasion) (stops : Bool) (session : ChatSession) (e : Option Text)
    → Ends o session (saved o stops session e)
saved-Ends o stops session (some e) = inl (refl, refl, λ h. cc)
saved-Ends o stops session none =
    inr (tried-Attempted o stops session _ (retry-Tried o.attempt 2 0 none))

refuse-Ends : (o : Occasion) (session : ChatSession) (e : StartError) → Ends o session (refuse e)
refuse-Ends o session e = inl (refl, refl, λ h. cc)

over_old-Ends :
    (u : Unicode) (o : Occasion) (takeover : Bool) (owner : OwnerBinding) (nick role : Text)
    (old : Option ChatSession)
    → Ends o (new_session u o owner nick role) (over_old u o takeover owner nick role old)
over_old-Ends u o takeover owner nick role none = saved-Ends o false _ _
over_old-Ends u o takeover owner nick role (some old) =
    let session = new_session u o owner nick role in
    if_intro (Ends o session) (guarded o takeover owner old) (refuse (other_agent old.nick))
      (saved o (ltb_ℤ (pos 0) old.supervisor_pid) session (o.save session))
      (λ e. refuse-Ends o session (other_agent old.nick))
      (λ e. saved-Ends o (ltb_ℤ (pos 0) old.supervisor_pid) session (o.save session))

-- With an owner, a start either is refused before any attempt, with the state file as it was, or makes
-- one to three attempts, of which all before the last found the nick taken. It reports what the last
-- one gave; on success the state file has the new session as that attempt saved it, and else it has
-- been removed.
pub start-Attempted :
    (u : Unicode) (o : Occasion) (takeover : Bool) (owner : OwnerBinding) (nick role : Text)
    → o.owner ≡ done owner
    → Untouched (start u o takeover nick role)
      ⊎ Attempted o (new_session u o owner nick role) (start u o takeover nick role)
unfolding start
start-Attempted u o takeover owner nick role known =
    let session = new_session u o owner nick role in
    subst (λ x. Ends o session (with_owner u o takeover nick role x)) (sym known)
      (if_intro (Ends o session) (is_empty nick) _ _ (λ e. refuse-Ends o session nick_required)
        (λ e.
          if_intro (Ends o session) (not o.has_state_path) _ _
            (λ e. refuse-Ends o session no_state_path)
            (λ e. over_old-Ends u o takeover owner nick role o.old)))

-- Without a takeover, a start in a home whose session belongs to another owner that is alive is
-- refused: it stops no supervisor, makes no attempt and leaves the state file.
pub start-guarded :
    (u : Unicode) (o : Occasion) (owner : OwnerBinding) (old : ChatSession) (nick role : Text)
    → o.owner ≡ done owner
    → o.old ≡ some old
    → process_alive o.processes old.owner ≡ true
    → same_owner old.owner owner ≡ false
    → Untouched (start u o false nick role) × ((start u o false nick role).stops_old ≡ false)
unfolding start
start-guarded u o owner old nick role known there alive other =
    let Safe : Started → Type 0 = λ s. Untouched s × (s.stops_old ≡ false) in
    subst (λ x. Safe (with_owner u o false nick role x)) (sym known)
      (if_intro Safe (is_empty nick) _ _ (λ e. ((refl, refl, λ h. cc), refl))
        (λ e.
          if_intro Safe (not o.has_state_path) _ _ (λ e. ((refl, refl, λ h. cc), refl))
            (λ e.
              subst (λ x. Safe (over_old u o false owner nick role x)) (sym there)
                (if_intro Safe (guarded o false owner old) _ _ (λ e. ((refl, refl, λ h. cc), refl))
                  (λ e. absurd (ground (arith, alive, other)))))))
