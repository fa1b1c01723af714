-- ===== src/Services/Message/Sending.antt =====
-- What `Send` and `DM` have sent when they end.
use chatta.Prelude.{
  ◌==◌, ==_iff, Bool-cases, if_intro, length, ℕ, suc, ◌+◌, ◌≤◌, ◌<◌, ◌≡◌, refl, ap, ◌∙◌, subst, ◌≢◌,
  ◌↔◌, ◌⊎◌, inl, inr, true, false, not, ◌||◌, Option, none, some, List, [], ◌∷◌, ◌++◌, map, arith,
}
use chatta.Text.Basic.{Text, codes, eq_text, eq_text_iff, has_prefix}
use chatta.Text.Case.{Unicode}
use chatta.Common.{ChatSession}
use chatta.Services.Control.{ControlRequest, ControlCode, Reply, got, lost, done}
use chatta.Services.Channel.{in_channel}
use chatta.Services.Message.{
  split_utf8, part_request, Sent, send_parts, send_error, dm_error, some_parts, sent_part, unsent,
  send, dm, target_of, not_in,
}

-- The supervisor answered, and accepted the request.
abbrev pub Accepts : Reply → Type 0
Accepts (lost e) = ⊥
Accepts (got r) = r.ok ≡ true

-- Of these requests, the first of them at this number, the first ones went out, each but the last
-- accepted; without an error all of them went out and were accepted, and after an error behind a
-- request that request was not accepted.
record Goes (ask : ℕ → Reply) (first : ℕ) (requests : List ControlRequest) (s : Sent) : Type 0 where
  left : List ControlRequest
  in_order : requests ≡ s.requests ++ left
  before : (n : ℕ) → first ≤ n → suc n < first + length s.requests → Accepts (ask n)
  complete :
      s.error ≡ none
      → (left ≡ []) × ((n : ℕ) → first ≤ n → n < first + length s.requests → Accepts (ask n))
  begun : s.error ≢ none → s.requests ≢ []
  refused_last :
      s.error ≢ none → (n : ℕ) → suc n ≡ first + length s.requests → first ≤ n → ¬ Accepts (ask n)

-- The parts went out in order, the n-th with the n-th reply, up to the first that was not accepted.
-- Without an error there was a part, and all of them went out and were accepted.
pub record Delivers (ask : ℕ → Reply) (target text : Text) (s : Sent) : Type 0 where
  pub left : List ControlRequest
  pub in_order : map (part_request target) (split_utf8 text 400) ≡ s.requests ++ left
  pub before : (n : ℕ) → suc n < length s.requests → Accepts (ask n)
  pub complete :
      s.error ≡ none
      → (left ≡ []) × (s.requests ≢ []) × ((n : ℕ) → n < length s.requests → Accepts (ask n))
  pub refused_last : s.error ≢ none → (n : ℕ) → suc n ≡ length s.requests → ¬ Accepts (ask n)

send_error_iff : (r : Reply) → (send_error r ≡ none) ↔ Accepts r
send_error_iff (lost e) = (λ h. cc, λ h. absurd h)
send_error_iff (got r) = ground arith

dm_error_iff : (nick : Text) (r : Reply) → (dm_error nick r ≡ none) ↔ Accepts r
dm_error_iff nick (lost e) = (λ h. cc, λ h. absurd h)
dm_error_iff nick (got r) = of_code r.code
  where
    of_code :
        (c : ControlCode) → (dm_error nick (got (record r { code = c })) ≡ none) ↔ (r.ok ≡ true)
    of_code ControlCode.no_such_nick = ground arith
    of_code _ = ground arith

length-ne_nil : {A : Type 0} (xs : List A) → xs ≢ [] → 1 ≤ length xs
length-ne_nil [] ne = absurd (ne refl)
length-ne_nil (x ∷ xs) ne = omega arith

from_next : (P : ℕ → Type 0) (n k : ℕ) → n ≤ k → P n → (suc n ≤ k → P k) → P k
from_next P n k le here later = elim (Bool-cases (n == k)) [
  | inl same ↦ subst P ((==_iff n k).0 same) here
  | inr other ↦ later (ground (arith, le, other))
]

nothing_left :
    (r : ControlRequest) (rs sent left : List ControlRequest)
    → r ∷ rs ≡ sent ++ left
    → left ≡ []
    → sent ≢ []
nothing_left r rs [] left h e = absurd (ground (arith, h, e))
nothing_left r rs (s ∷ sent) left h e = λ k. cc

unsent-Delivers : (ask : ℕ → Reply) (target text e : Text) → Delivers ask target text (unsent e)
unsent-Delivers ask target text e = record {
  left = map (part_request target) (split_utf8 text 400);
  in_order = refl;
  before = λ n lt. absurd (omega (arith, lt));
  complete = λ h. cc;
  refused_last = λ h n last. absurd (omega (arith, last));
}

not_unsent : (e : Text) (P : Type 0) → ((unsent e).error ≡ none) ⊎ ((unsent e).requests ≢ []) → P
not_unsent e P (inl h) = cc
not_unsent e P (inr h) = absurd (h refl)

module _ (ask : ℕ → Reply) (fault : Reply → Option Text)
    (fault_iff : (r : Reply) → (fault r ≡ none) ↔ Accepts r) where
  sent_part-Goes :
      (n : ℕ) (r : ControlRequest) (rs : List ControlRequest) (e : Option Text) (later : Sent)
      → fault (ask n) ≡ e
      → Goes ask (suc n) rs later
      → Goes ask n (r ∷ rs) (sent_part r e later)
  sent_part-Goes n r rs (some e) later told g = record {
    left = rs;
    in_order = refl;
    before = λ k le lt. absurd (omega (arith, le, lt));
    complete = λ h. cc;
    begun = λ h. (λ e. cc);
    refused_last = λ h k last le accepts.
        let same : k ≡ n = omega (arith, last, le) in
        cc ((fault_iff (ask n)).1 (subst (λ m. Accepts (ask m)) same accepts), told);
  }
  sent_part-Goes n r rs none later told g =
      let here : Accepts (ask n) = (fault_iff (ask n)).0 told in
      record {
        left = g.left;
        in_order = ap (◌∷◌ r) g.in_order;
        before = λ k le lt.
            from_next (λ m. Accepts (ask m)) n k le here (λ gt. g.before k gt (omega (arith, lt)));
        complete = λ h.
            let (none_left, all_accepted) = g.complete h in
            (
              none_left,
              λ k le lt.
                  from_next (λ m. Accepts (ask m)) n k le here
                    (λ gt. all_accepted k gt (omega (arith, lt))),
            );
        begun = λ h. (λ e. cc);
        refused_last = λ h k last le.
            g.refused_last h k (omega (arith, last))
              (ground (arith, le, last, length-ne_nil later.requests (g.begun h)));
      }

  send_parts-Goes :
      (target : Text) (n : ℕ) (ps : List Text)
      → Goes ask n (map (part_request target) ps) (send_parts ask fault target n ps)
  unfolding send_parts
  send_parts-Goes target n [] = record {
    left = [];
    in_order = refl;
    before = λ k le lt. absurd (omega (arith, le, lt));
    complete = λ h. (refl, λ k le lt. absurd (omega (arith, le, lt)));
    begun = λ h. absurd (h refl);
    refused_last = λ h. absurd (h refl);
  }
  send_parts-Goes target n (p ∷ ps) =
      sent_part-Goes n (part_request target p) (map (part_request target) ps) (fault (ask n))
        (send_parts ask fault target (suc n) ps) refl (send_parts-Goes target (suc n) ps)

  some_parts-Delivers :
      (target text : Text)
      → Delivers ask target text (some_parts ask fault target (split_utf8 text 400))
  some_parts-Delivers target text = of_parts (split_utf8 text 400) refl
    where
      of_parts :
          (ps : List Text)
          → split_utf8 text 400 ≡ ps
          → Delivers ask target text (some_parts ask fault target ps)
      of_parts [] same = unsent-Delivers ask target text _
      of_parts (p ∷ ps) same =
          let g = send_parts-Goes target 0 (p ∷ ps) in
          record {
            left = g.left;
            in_order = ap (map (part_request target)) same ∙ g.in_order;
            before = λ n lt. g.before n (omega arith) (omega (arith, lt));
            complete = λ h.
                let (none_left, accepted) = g.complete h in
                (
                  none_left,
                  nothing_left _ _ _ _ g.in_order none_left,
                  λ n lt. accepted n (omega arith) (omega (arith, lt)),
                );
            refused_last = λ h n last. g.refused_last h n (omega (arith, last)) (omega arith);
          }

-- `Send` sends the parts of the text in order, the next only behind a reply that accepts the one
-- before, and stops at the first that is not accepted. It reports success exactly if something was
-- sent and all parts were sent and accepted, and sends nothing unless the session is in the channel.
pub send-Delivers :
    (u : Unicode) (st : ChatSession) (ask : ℕ → Reply) (channel text : Text)
    → let s = send u (done st) ask channel text in
      Delivers ask (target_of u st channel) text s
      × ((s.error ≡ none) ⊎ (s.requests ≢ [])
          → in_channel (target_of u st channel) st.channels ≡ true)
unfolding send
send-Delivers u st ask channel text =
    let target = target_of u st channel in
    if_intro
      (λ s.
        Delivers ask target text s
        × ((s.error ≡ none) ⊎ (s.requests ≢ []) → in_channel target st.channels ≡ true))
      (not (in_channel target st.channels)) (unsent (not_in target))
      (some_parts ask send_error target (split_utf8 text 400))
      (λ e. (unsent-Delivers ask target text (not_in target), not_unsent (not_in target) _))
      (λ e. (some_parts-Delivers ask send_error send_error_iff target text, λ h. ground arith))

-- The same of `DM`, which sends something or reports success only for a nick that is not the
-- session's own and does not start with #.
pub dm-Delivers :
    (st : ChatSession) (ask : ℕ → Reply) (nick text : Text)
    → let s = dm (done st) ask nick text in
      Delivers ask nick text s
      × ((s.error ≡ none) ⊎ (s.requests ≢ [])
          → (has_prefix nick (codes "#") ≡ false) × (nick ≢ st.nick))
unfolding dm
dm-Delivers st ask nick text =
    if_intro
      (λ s.
        Delivers ask nick text s
        × ((s.error ≡ none) ⊎ (s.requests ≢ [])
            → (has_prefix nick (codes "#") ≡ false) × (nick ≢ st.nick)))
      (has_prefix nick (codes "#") || eq_text nick st.nick) (unsent (codes "dm takes another nick"))
      (some_parts ask (dm_error nick) nick (split_utf8 text 400))
      (λ e. (
        unsent-Delivers ask nick text (codes "dm takes another nick"),
        not_unsent (codes "dm takes another nick") _,
      ))
      (λ e. (
        some_parts-Delivers ask (dm_error nick) (dm_error_iff nick) nick text,
        λ h. (ground arith, λ same. absurd (ground (arith, (eq_text_iff nick st.nick).1 same))),
      ))
