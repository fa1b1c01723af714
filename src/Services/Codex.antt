-- ===== src/Services/Codex.antt =====
-- pkg/services/codex.go: which messages a Codex binding is woken for.
pub mod Mention
pub mod Subscriptions
pub mod Client
pub mod Rpc
pub mod Progress
pub mod Worker
pub mod Queue
pub mod Binding
use chatta.Prelude.{
  ◌==◌, if◌then◌else◌, within, any, ℕ, Bool, true, false, not, ◌&&◌, ◌||◌, Option, none, some, List,
  [], ◌∷◌, ◌++◌,
}
use chatta.Text.Basic.{Text, codes, eq_text, has_prefix}
use chatta.Text.Trim.{trim_space}
use chatta.Text.Case.{Unicode, to_lower, Folding, fold_rune, equal_fold}
use chatta.Common.{StoredMessage, CodexBinding}
use chatta.Dal.State.{is_empty}

-- `strings.ToLower(strings.TrimSpace(channel))`
unfoldable pub lower_name : Unicode → Text → Text
lower_name u channel = to_lower u (trim_space channel)

unfoldable pub channel_subscribed : Unicode → Text → List Text → Bool
channel_subscribed u target [] = false
channel_subscribed u target (c ∷ cs) =
    eq_text (lower_name u target) (lower_name u c) || channel_subscribed u target cs

abbrev pub is_member : Text → List Text → Bool
is_member n = any (eq_text n)

abbrev onto_kept : Text → Option (List Text) → Option (List Text)
onto_kept n none = none
onto_kept n (some ns) = some (n ∷ ns)

-- `seen` has the names kept so far, which are also what `normalized` holds.
unfoldable pub normalize_from : Unicode → List Text → List Text → Option (List Text)
normalize_from u seen [] = some []
normalize_from u seen (c ∷ cs) =
    let n = lower_name u c in
    let again = normalize_from u seen cs in
    let kept = onto_kept n (normalize_from u (n ∷ seen) cs) in
    if is_empty n || not (has_prefix n (codes "#"))
    then none
    else if is_member n seen
    then again
    else kept

-- `none` is the error that a name does not start with #.
unfoldable pub normalize_subscribed_channels : Unicode → List Text → Option (List Text)
normalize_subscribed_channels u channels = normalize_from u [] channels

-- The complement of the class `[^a-z0-9_]` under `(?i)`.
unfoldable pub is_nick_char : Folding → ℕ → Bool
is_nick_char f c = let d = fold_rune f c in within 97 122 d || within 48 57 d || (d == b'_')

-- The text behind the nick, where the text starts with it.
unfoldable pub behind_nick : Folding → Text → Text → Option Text
behind_nick f [] s = some s
behind_nick f (n ∷ nick) [] = none
behind_nick f (n ∷ nick) (c ∷ s) =
    let later = behind_nick f nick s in if fold_rune f n == fold_rune f c then later else none

-- `([^a-z0-9_]|$)`
abbrev pub ends_nick : Folding → Text → Bool
ends_nick f [] = true
ends_nick f (c ∷ s) = not (is_nick_char f c)

abbrev mention_end : Folding → Option Text → Bool
mention_end f none = false
mention_end f (some rest) = ends_nick f rest

unfoldable pub mention_here : Folding → Text → Text → Bool
mention_here f nick s = mention_end f (behind_nick f nick s)

unfoldable pub mention_later : Folding → Text → Text → Bool
mention_later f nick [] = false
mention_later f nick (c ∷ s) =
    (not (is_nick_char f c) && mention_here f nick s) || mention_later f nick s

-- `mention.MatchString(text)`: the search for `(^|[^a-z0-9_])`, the nick and `([^a-z0-9_]|$)`.
unfoldable pub mention : Folding → Text → Text → Bool
mention f nick text = mention_here f nick text || mention_later f nick text

unfoldable pub addressed_to : Unicode → Folding → StoredMessage → Text → CodexBinding → Bool
addressed_to u f msg nick binding =
    if is_empty nick || equal_fold f msg.nick nick
    then false
    else if eq_text msg.kind (codes "direct")
    then true
    else if not (eq_text msg.kind (codes "channel"))
    then false
    else if channel_subscribed u msg.target binding.subscribed_channels
    then true
    else if not binding.mention_current_identity
    then false
    else mention f nick msg.text

unfoldable pub codex_binding_matches : CodexBinding → CodexBinding → Bool
codex_binding_matches current expected =
    eq_text current.binding_id expected.binding_id
    && eq_text current.session_id expected.session_id
    && eq_text current.endpoint expected.endpoint
    && eq_text current.thread_id expected.thread_id

-- `fmt.Sprintf` of texts.
unfoldable pub format_codex_event : StoredMessage → Text → Text
format_codex_event msg receiver =
    let target = if eq_text msg.kind (codes "direct") then receiver else msg.target in
    codes "Chatta incoming message\nevent_id="
    ++ (msg.event_id
        ++ (codes "\nsource="
            ++ (msg.source
                ++ (codes "\nfrom="
                    ++ (msg.nick
                        ++ (codes "\ntarget="
                            ++ (target
                                ++ (codes "\nkind="
                                    ++ (msg.kind ++ (codes "\n\n" ++ msg.text))))))))))
