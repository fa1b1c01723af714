-- ===== src/Services/Channel/Membership.antt =====
-- How the saved channels change.
use chatta.Prelude.{
  if_intro, keep, ℕ, ◌≡◌, refl, sym, ap, ◌∙◌, true, false, not, Option, none, some, List, [], ◌∷◌,
  ◌++◌, arith,
}
use chatta.Text.Basic.{Text, codes, eq_text, eq_text_refl}
use chatta.Text.Case.{Unicode}
use chatta.Common.{ChatSession, ChannelMembership}
use chatta.Dal.Channel.{ChannelError, normalize_channel, can_part}
use chatta.Services.Control.{ControlRequest, ControlResponse, Reply, lost, got, done}
use chatta.Services.Channel.{
  failed, in_channel, with_channel, without_channel, stopped, saving, join_request, join_reply,
  join, part_request, part_reply, part_allowed, part,
}

abbrev saved_or : ChatSession → Option ChatSession → ChatSession
saved_or st none = st
saved_or st (some after) = after

saving-saved :
    (q : ControlRequest) (st after : ChatSession) (e : Option Text)
    → (saving q st e).saved ≡ some after
    → st ≡ after
saving-saved q st after none h = ap (saved_or st) h
saving-saved q st after (some e) h = absurd (ground arith)

join_reply-saved :
    (now : ℕ) (save : ChatSession → Option Text) (target : Text) (st after : ChatSession)
    (r : Reply)
    → (join_reply now save target st r).saved ≡ some after
    → with_channel now target st ≡ after
join_reply-saved now save target st after (lost e) h = absurd (ground arith)
join_reply-saved now save target st after (got r) h =
    if_intro (λ c. c.saved ≡ some after → with_channel now target st ≡ after) (not r.ok)
      (stopped (some (join_request target))
        (failed (codes "the server did not confirm membership in " ++ target)))
      (saving (join_request target) (with_channel now target st)
        (save (with_channel now target st)))
      (λ e k. absurd (ground arith))
      (λ e k.
        saving-saved _ (with_channel now target st) after (save (with_channel now target st)) k)
      h

part_reply-saved :
    (save : ChatSession → Option Text) (target reason : Text) (st after : ChatSession) (r : Reply)
    → (part_reply save target reason st r).saved ≡ some after
    → without_channel target st ≡ after
part_reply-saved save target reason st after (lost e) h = absurd (ground arith)
part_reply-saved save target reason st after (got r) h =
    saving-saved _ (without_channel target st) after (save (without_channel target st)) h

part_allowed-saved :
    (u : Unicode) (save : ChatSession → Option Text) (st after : ChatSession)
    (ask : ControlRequest → Reply) (channel reason : Text) (o : Option ChannelError)
    → (part_allowed u save st ask channel reason o).saved ≡ some after
    → without_channel (normalize_channel u channel) st ≡ after
part_allowed-saved u save st after ask channel reason (some e) h = absurd (ground arith)
part_allowed-saved u save st after ask channel reason none h =
    let target = normalize_channel u channel in
    part_reply-saved save target reason st after (ask (part_request target reason)) h

-- A join saves the session with the channel behind the others, and only where it was not there.
join-saved :
    (u : Unicode) (now : ℕ) (save : ChatSession → Option Text) (st after : ChatSession)
    (ask : ControlRequest → Reply) (channel : Text)
    → (join u now save (done st) ask channel).saved ≡ some after
    → (in_channel (normalize_channel u channel) st.channels ≡ false)
      × (with_channel now (normalize_channel u channel) st ≡ after)
unfolding join
join-saved u now save st after ask channel h =
    let target = normalize_channel u channel in
    if_intro
      (λ c.
        c.saved ≡ some after
        → (in_channel target st.channels ≡ false) × (with_channel now target st ≡ after))
      (in_channel target st.channels) (record { request = none; saved = none; error = none })
      (join_reply now save target st (ask (join_request target))) (λ e k. absurd (ground arith))
      (λ e k. (e, join_reply-saved now save target st after (ask (join_request target)) k)) h

keep_others :
    (target : Text) (c : ChannelMembership) (cs : List ChannelMembership)
    → in_channel target cs ≡ false
    → eq_text c.name target ≡ true
    → keep (λ c. not (eq_text c.name target)) (cs ++ c ∷ []) ≡ cs
keep_others target c [] h k = rw k
keep_others target c (d ∷ cs) h k =
    let there : eq_text d.name target ≡ false = ground arith in
    let rest : in_channel target cs ≡ false = ground arith in
    rw there (ap (◌∷◌ d) (keep_others target c cs rest k))

abbrev with_channels : List ChannelMembership → ChatSession → ChatSession
with_channels cs st = record st { channels = cs }

absent :
    (target : Text) (cs : List ChannelMembership)
    → in_channel target (keep (λ c. not (eq_text c.name target)) cs) ≡ false
absent target [] = refl
absent target (c ∷ cs) = ground (arith, absent target cs)

-- Leaving a channel right after joining it saves the session from before the join, whatever the
-- supervisor answered to the second request, if both commands saved a session.
pub part-join :
    (u : Unicode) (now : ℕ) (save : ChatSession → Option Text) (st joined left : ChatSession)
    (ask : ControlRequest → Reply) (channel reason : Text)
    → (join u now save (done st) ask channel).saved ≡ some joined
    → (part u save (done joined) ask channel reason).saved ≡ some left
    → left ≡ st
unfolding part
part-join u now save st joined left ask channel reason h k =
    let target = normalize_channel u channel in
    let (new, is_joined) = join-saved u now save st joined ask channel h in
    let is_left =
      part_allowed-saved u save joined left ask channel reason
        (can_part u channel joined.home_channel.name) k in
    sym is_left
    ∙ ap (without_channel target) (sym is_joined)
    ∙ ap (λ cs. with_channels cs st) (keep_others target _ st.channels new (eq_text_refl target))

-- What `Part` does, where the channel is not the home channel and the request is not lost, does not
-- depend on the response of the supervisor: a refusal also removes the channel from the session.
pub part_ignores_response :
    (u : Unicode) (save : ChatSession → Option Text) (st : ChatSession) (r : ControlResponse)
    (channel reason : Text)
    → can_part u channel st.home_channel.name ≡ none
    → save (without_channel (normalize_channel u channel) st) ≡ none
    → let c = part u save (done st) (λ q. got r) channel reason in
      (c.error ≡ none)
      × (c.saved ≡ some (without_channel (normalize_channel u channel) st))
      × (in_channel
            (normalize_channel u channel)
            (without_channel (normalize_channel u channel) st).channels
          ≡ false)
unfolding part
part_ignores_response u save st r channel reason h k =
    (rw (h, k), rw (h, k), absent (normalize_channel u channel) st.channels)
