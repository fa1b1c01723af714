-- ===== src/Dal/State/Sessions.antt =====
-- What a session on disk is, and what a save leaves there.
use chatta.Prelude.{
  ◌≤◌, ◌<◌, ◌≡◌, refl, subst, ◌≢◌, ◌⊎◌, inl, inr, false, ◌&&◌, Option, none, some, List, [], ◌∷◌,
  ◌++◌, arith,
}
use chatta.Prelude.Int.{ℤ, pos, negsuc, pos_part, ltb_ℤ, leb_ℤ}
use chatta.Text.Basic.{Text}
use chatta.Text.Case.{Unicode}
use chatta.Common.{ChatSession, ChannelMembership}
use chatta.Dal.AtomicFile.{Bytes, Slot, Faults, replace_file_atomic}
use chatta.Dal.Channel.{validate_channels, normalize_channel}
use chatta.Dal.Channel.Validate.{Distinct, names, StartsWith, validate_channels_iff}
use chatta.Dal.State.{
  Codec, is_empty, StateError, loaded, lacks_field, validate_session, load_state, save_state,
  stamped, checked, decoded,
}

-- A positive number.
abbrev pub IsPositive : ℤ → Type 0
IsPositive (pos n) = 0 < n
IsPositive (negsuc n) = ⊥

pub record IsSession (u : Unicode) (s : ChatSession) : Type 0 where
  pub named : s.nick ≢ []
  pub hosted : s.host ≢ []
  pub port_positive : IsPositive s.port
  pub port_short : pos_part s.port ≤ 65535
  pub owned : IsPositive s.owner.pid
  pub owner_known : s.owner.start_fingerprint ≢ []
  pub has_home : s.home_channel.name ≢ []
  pub home_first : StartsWith (normalize_channel u s.home_channel.name) (names u s.channels)
  pub distinct : Distinct (names u s.channels)
  pub supervisor_known : IsPositive s.supervisor_pid → s.supervisor_start_fingerprint ≢ []

validate_parts :
    (u : Unicode) (s : ChatSession)
    → validate_session u s ≡ none
    → (lacks_field s ≡ false)
      × ((ltb_ℤ (pos 0) s.supervisor_pid && is_empty s.supervisor_start_fingerprint) ≡ false)
      × (validate_channels u s.channels s.home_channel.name ≡ none)
unfolding validate_session
validate_parts u s h = ground arith

-- Every field that the second test asks for.
record HasFields (s : ChatSession) : Type 0 where
  nick : is_empty s.nick ≡ false
  host : is_empty s.host ≡ false
  port_low : ltb_ℤ s.port (pos 1) ≡ false
  port_high : ltb_ℤ (pos 65535) s.port ≡ false
  pid : leb_ℤ s.owner.pid (pos 0) ≡ false
  fingerprint : is_empty s.owner.start_fingerprint ≡ false
  home : is_empty s.home_channel.name ≡ false
  channels : is_empty s.channels ≡ false

lacks_field-HasFields : (s : ChatSession) → lacks_field s ≡ false → HasFields s
unfolding lacks_field
lacks_field-HasFields s h = ground arith

pub ne_nil_of_test {ℓ} : {A : Type ℓ} (xs : List A) → is_empty xs ≡ false → xs ≢ []
ne_nil_of_test [] h = λ e. cc
ne_nil_of_test (x ∷ xs) h = λ e. cc

IsPositive-of_test : (n : ℤ) → leb_ℤ n (pos 0) ≡ false → IsPositive n
IsPositive-of_test (pos n) h = ground arith
IsPositive-of_test (negsuc n) h = ground arith

port_of_tests :
    (n : ℤ)
    → ltb_ℤ n (pos 1) ≡ false
    → ltb_ℤ (pos 65535) n ≡ false
    → IsPositive n × (pos_part n ≤ 65535)
port_of_tests (pos n) h k = (ground arith, ground arith)
port_of_tests (negsuc n) h k = absurd (ground arith)

supervisor_of_test :
    (n : ℤ) (t : Text) → (ltb_ℤ (pos 0) n && is_empty t) ≡ false → IsPositive n → t ≢ []
supervisor_of_test (pos n) t h p = ne_nil_of_test t (ground arith)
supervisor_of_test (negsuc n) t h p = absurd p

channels_of_test :
    (u : Unicode) (cs : List ChannelMembership) (home : Text)
    → is_empty cs ≡ false
    → validate_channels u cs home ≡ none
    → StartsWith (normalize_channel u home) (names u cs) × Distinct (names u cs)
channels_of_test u cs home ne h = some_list ((validate_channels_iff u cs home).0 h)
  where
    some_list :
        ((cs ≡ []) ⊎ (StartsWith (normalize_channel u home) (names u cs) × Distinct (names u cs)))
        → StartsWith (normalize_channel u home) (names u cs) × Distinct (names u cs)
    some_list (inl e) = absurd (ne_nil_of_test cs ne e)
    some_list (inr parts) = parts

-- A session that `ValidateSession` accepts has a nick, a host, a port from 1 to 65535, an owner
-- with a positive PID and a fingerprint, and its home channel first among channels with distinct
-- normal names; if its supervisor's PID is positive, the supervisor's fingerprint is known.
pub validate_session-IsSession :
    (u : Unicode) (s : ChatSession) → validate_session u s ≡ none → IsSession u s
validate_session-IsSession u s h =
    let (lacks, supervisor, channels) = validate_parts u s h in
    let has = lacks_field-HasFields s lacks in
    let (port_positive, port_short) = port_of_tests s.port has.port_low has.port_high in
    let (home_first, distinct) =
      channels_of_test u s.channels s.home_channel.name has.channels channels in
    record {
      named = ne_nil_of_test s.nick has.nick;
      hosted = ne_nil_of_test s.host has.host;
      port_positive = port_positive;
      port_short = port_short;
      owned = IsPositive-of_test s.owner.pid has.pid;
      owner_known = ne_nil_of_test s.owner.start_fingerprint has.fingerprint;
      has_home = ne_nil_of_test s.home_channel.name has.home;
      home_first = home_first;
      distinct = distinct;
      supervisor_known =
          supervisor_of_test s.supervisor_pid s.supervisor_start_fingerprint supervisor;
    }

checked-loaded :
    (u : Unicode) (s t : ChatSession) (o : Option StateError)
    → checked u s o ≡ loaded t
    → (o ≡ none) × (s ≡ t)
checked-loaded u s t none h = (refl, ground arith)
checked-loaded u s t (some e) h = absurd (ground arith)

-- What `LoadState` returns is a session: whatever the file holds.
pub load_state-IsSession :
    (codec : Codec ChatSession) (u : Unicode) (fault : Option Text) (slot : Slot) (s : ChatSession)
    → load_state codec u fault slot ≡ loaded s
    → IsSession u s
unfolding load_state
load_state-IsSession codec u fault slot s h =
    validate_session-IsSession u s (valid slot.file fault h)
  where
    valid_decoded : (o : Option ChatSession) → decoded u o ≡ loaded s → validate_session u s ≡ none
    valid_decoded none h = absurd (ground arith)
    valid_decoded (some t) h =
        let (e, same) = checked-loaded u t s (validate_session u t) h in
        subst (λ x. validate_session u x ≡ none) same e

    valid :
        (file : Option Bytes) (fault : Option Text)
        → load_state codec u fault (record { file = file; temp = none }) ≡ loaded s
        → validate_session u s ≡ none
    valid none fault h = absurd (ground arith)
    valid (some content) (some e) h = absurd (ground arith)
    valid (some content) none h = valid_decoded (codec.decode content) h

-- Either a save reports no error, and a load then gives back the session with the current schema
-- version; or it reports an error, and the file is what it was. This holds whichever system calls
-- of the save fail.
pub save_state_load :
    (codec : Codec ChatSession) (u : Unicode) (f : Faults) (s : ChatSession) (slot : Slot)
    → let after = save_state codec u f s slot in
      ((after.1 ≡ none) × (load_state codec u none after.0 ≡ loaded (stamped s)))
      ⊎ ((after.1 ≢ none) × (after.0.file ≡ slot.file))
unfolding save_state load_state
save_state_load codec u f s slot = ground (
  arith,
  replace_file_atomic f (codec.encode (stamped s) ++ b'\n' ∷ []) slot,
  codec.decode-encode (stamped s),
)
