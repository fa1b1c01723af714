-- ===== src/Irc/Conn/Replies/Joins.antt =====
-- What a message of the server does to a waiting join.
use chatta.Prelude.{
  if◌then◌else◌, Bool-cases, Option-cases, ℕ, ◌≡◌, ap, ◌∙◌, ◌≢◌, inl, inr, Bool, true, false,
  Option, none, some, List, [], ◌∷◌, arith,
}
use chatta.Text.Basic.{Text, eq_text, eq_text_iff, eq_text_refl}
use chatta.Irc.Message.{Message}
use chatta.Irc.Conn.Table.{lookup}
use chatta.Irc.Conn.State.{Error, Conn, send, resolve_pending, register_key, join_key, names_key}
use chatta.Irc.Conn.Handle.{
  Case, ping, welcome, nickname_in_use, erroneus_nickname, end_of_names, nam_reply, no_such_nick,
  no_membership, privmsg, other, case_of, handle_case, handle, confirm_membership,
  refuse_membership, collect_names, receive, receive_privmsg, echo_join, welcomed,
}
use chatta.Irc.Conn.Calls.{wait_done}
use chatta.Irc.Conn.Steps.{resolve-Kept, handle_case-Kept}
use chatta.Irc.Conn.Replies.{
  Awaits, waits, error_of, resolve_own, resolve_other, join_key_ne, names_key_ne, privmsg_key_ne,
  register_key_ne, join_refused, answer_to_join, lookup_sent,
}

module _ (channel : Text) (r : ℕ) (now : ℕ) (w : Option Text) (prefix : Text) where
  still_waits :
      (k : Case) (ps : List Text) (c : Conn)
      → Awaits (join_key channel) r c
      → lookup (join_key channel) (handle_case k now w prefix ps c).pending ≡ some r
      → error_of (wait_done r (handle_case k now w prefix ps c)) ≡ none
  still_waits k ps c a there = rw (
      waits (join_key channel) r (handle_case k now w prefix ps c)
        (record { sound = (handle_case-Kept k now w prefix ps c a.sound).valid; there = there }))

  if_lookup :
      (b : Bool) (c d : Conn)
      → lookup (join_key channel) c.pending ≡ some r
      → lookup (join_key channel) d.pending ≡ some r
      → lookup (join_key channel) (if b then c else d).pending ≡ some r
  if_lookup true c d h k = h
  if_lookup false c d h k = k

  collect_lookup :
      (ps : List Text) (c : Conn)
      → lookup (join_key channel) c.pending ≡ some r
      → lookup (join_key channel) (collect_names ps c).pending ≡ some r
  unfolding collect_names
  collect_lookup (p ∷ q ∷ name ∷ ps) c h = elim (Option-cases (lookup (names_key name) c.pending)) [
    | inl missing ↦ rw (missing, collect_names) h
    | inr (n, found) ↦ rw (found, collect_names) h
  ]
  collect_lookup _ c h = h

  lookup-send :
      (line : Text) (c : Conn)
      → lookup (join_key channel) c.pending ≡ some r
      → lookup (join_key channel) (send w line c).0.pending ≡ some r
  lookup-send line c h = lookup_sent (join_key channel) w line c h

  resolve_waits :
      (j : Text) (e : Option Error) (c : Conn)
      → Awaits (join_key channel) r c
      → j ≢ join_key channel
      → Awaits (join_key channel) r (resolve_pending j e c)
  resolve_waits j e c a ne = record {
    sound = (resolve-Kept j e c a.sound).valid;
    there = resolve_other _ j r c e a ne;
  }

  -- Resolving the join of `name`.
  resolve_join :
      (name : Text) (e : Option Error) (c : Conn)
      → Awaits (join_key channel) r c
      → error_of (wait_done r (resolve_pending (join_key name) e c))
        ≡ (if eq_text name channel then some e else none)
  resolve_join name e c a = elim (Bool-cases (eq_text name channel)) [
    | inl same ↦
        rw ((eq_text_iff name channel).0 same) (rw (eq_text_refl channel) (resolve_own _ r c e a))
    | inr differs ↦ rw differs (
        ap error_of (
          waits _ r _ (
            resolve_waits (join_key name) e c a (
              join_key_ne name channel
                (λ same. ground (arith, (eq_text_iff name channel).1 same))))))
  ]

  confirm_answer :
      (name : Text) (c : Conn)
      → Awaits (join_key channel) r c
      → error_of (
          wait_done r
            (resolve_pending (join_key name) none (resolve_pending (names_key name) none c)))
        ≡ (if eq_text name channel then some none else none)
  confirm_answer name c a =
      resolve_join name none _ (resolve_waits (names_key name) none c a (names_key_ne name channel))

  refuse_answer :
      (name : Text) (c : Conn)
      → Awaits (join_key channel) r c
      → error_of (wait_done r (resolve_pending (join_key name) (join_refused name) c))
        ≡ (if eq_text name channel then some (join_refused channel) else none)
  refuse_answer name c a = elim (Bool-cases (eq_text name channel)) [
    | inl same ↦
        resolve_join name _ c a
        ∙ rw same (ap (λ n. some (join_refused n)) ((eq_text_iff name channel).0 same))
    | inr differs ↦ resolve_join name _ c a ∙ rw differs
  ]

  handle_case-answer :
      (k : Case) (ps : List Text) (c : Conn)
      → Awaits (join_key channel) r c
      → error_of (wait_done r (handle_case k now w prefix ps c)) ≡ answer_to_join k channel ps
  unfolding handle_case confirm_membership refuse_membership welcomed echo_join receive_privmsg
      receive send
  handle_case-answer ping ps c a = still_waits ping ps c a (lookup-send _ c a.there)
  handle_case-answer welcome [] c a = still_waits welcome [] c a (
      resolve_other _ register_key r (record c { registered = true }) none
        (record { sound = a.sound; there = a.there }) (register_key_ne channel))
  handle_case-answer welcome (nick ∷ ps) c a = still_waits welcome (nick ∷ ps) c a (
      resolve_other _ register_key r (record c { registered = true; nick = nick }) none
        (record { sound = a.sound; there = a.there }) (register_key_ne channel))
  handle_case-answer nickname_in_use ps c a =
      still_waits nickname_in_use ps c a
        (resolve_other _ register_key r c _ a (register_key_ne channel))
  handle_case-answer erroneus_nickname ps c a =
      still_waits erroneus_nickname ps c a
        (resolve_other _ register_key r c _ a (register_key_ne channel))
  handle_case-answer Case.join [] c a = still_waits Case.join [] c a a.there
  handle_case-answer Case.join (name ∷ ps) c a =
      still_waits Case.join (name ∷ ps) c a (if_lookup _ c _ a.there a.there)
  handle_case-answer end_of_names (p ∷ name ∷ ps) c a = confirm_answer name c a
  handle_case-answer end_of_names (p ∷ []) c a = still_waits end_of_names (p ∷ []) c a a.there
  handle_case-answer end_of_names [] c a = still_waits end_of_names [] c a a.there
  handle_case-answer nam_reply ps c a = still_waits nam_reply ps c a (collect_lookup ps c a.there)
  handle_case-answer no_such_nick ps c a =
      still_waits no_such_nick ps c a (resolve_other _ _ r c _ a (privmsg_key_ne _ channel))
  handle_case-answer no_membership (p ∷ name ∷ ps) c a = refuse_answer name c a
  handle_case-answer no_membership (p ∷ []) c a = still_waits no_membership (p ∷ []) c a a.there
  handle_case-answer no_membership [] c a = still_waits no_membership [] c a a.there
  handle_case-answer privmsg (target ∷ text ∷ ps) c a =
      still_waits privmsg (target ∷ text ∷ ps) c a (if_lookup _ _ c a.there a.there)
  handle_case-answer privmsg (p ∷ []) c a = still_waits privmsg (p ∷ []) c a a.there
  handle_case-answer privmsg [] c a = still_waits privmsg [] c a a.there
  handle_case-answer other ps c a = still_waits other ps c a a.there

-- While a caller waits for its join of `channel`, a message of the server answers it exactly so: a
-- 366 for the channel with success, a 403, 473, 474 or 475 for the channel with the error that
-- membership was not confirmed, and anything else leaves the caller waiting.
pub handle-answer_to_join :
    (channel : Text) (r now : ℕ) (w : Option Text) (msg : Message) (c : Conn)
    → Awaits (join_key channel) r c
    → error_of (wait_done r (handle now w msg c))
      ≡ answer_to_join (case_of msg.command) channel msg.params
unfolding handle
handle-answer_to_join channel r now w msg c a =
    handle_case-answer channel r now w msg.prefix (case_of msg.command) msg.params c a

resolve_channels :
    (k : Text) (e : Option Error) (c : Conn) → (resolve_pending k e c).channels ≡ c.channels
unfolding resolve_pending
resolve_channels k e c = elim (Option-cases (lookup k c.pending)) [
  | inl missing ↦ rw (missing, resolve_pending)
  | inr (n, found) ↦ rw (found, resolve_pending)
]

-- A join succeeds on a 366 for the channel alone: the membership that the connection reports is
-- what it was, so without an earlier JOIN echo the channel is not in it.
pub join_succeeds_without_echo :
    (channel prefix nick : Text) (r now : ℕ) (w : Option Text) (ps : List Text) (c : Conn)
    → Awaits (join_key channel) r c
    → let c' = handle_case end_of_names now w prefix (nick ∷ channel ∷ ps) c in
      (error_of (wait_done r c') ≡ some none) × (c'.channels ≡ c.channels)
unfolding handle_case confirm_membership
join_succeeds_without_echo channel prefix nick r now w ps c a = (
  handle_case-answer channel r now w prefix end_of_names (nick ∷ channel ∷ ps) c a
      ∙ rw (eq_text_refl channel),
  resolve_channels (join_key channel) none (resolve_pending (names_key channel) none c)
      ∙ resolve_channels (names_key channel) none c,
)
