-- ===== src/Tests/StoreTests.antt =====
-- Tests of the files under a client's home.
use chatta.Prelude.{length, ◌≡◌, refl, ◌≢◌, ◌⊎◌, true, false, none, some, List, [], ◌∷◌, ◌++◌}
use chatta.Prelude.Int.{pos}
use chatta.Text.Basic.{Text, codes, eq_text, trim_prefix, has_prefix}
use chatta.Text.Trim.{trim, trim_space}
use chatta.Text.Space.{is_space}
use chatta.Text.Case.{to_lower, to_lower_rune}
use chatta.Dal.Channel.{validate_channels, normalize_channel, replace_from, is_channel_char}
use chatta.Common.{ChatSession, OwnerBinding, StoredMessage, CodexBinding}
use chatta.Dal.AtomicFile.{Bytes, Slot, Faults}
use chatta.Dal.State.{save_state, load_state, validate_session, stamped, loaded, lacks_field}
use chatta.Dal.State.Sessions.{save_state_load}
use chatta.Dal.Store.{content, read_complete_message_records, or_nothing}
use chatta.Dal.Store.Delivery.{no_faults, appended, records_from, read_complete-append}
use chatta.Tests.Samples.{ascii, agents, membership}
use chatta.Tests.Coding.{session_codec, message_codec}

abbrev pub shell_owner : OwnerBinding
shell_owner = record { pid = pos 7; start_fingerprint = codes "t0"; runtime = codes "sh" }

abbrev pub some_session : ChatSession
some_session = record {
  schema_version = pos 2;
  nick = codes "a";
  role = codes "";
  host = codes "h";
  port = pos 6667;
  home_channel = membership agents;
  channels = membership agents ∷ [];
  owner = shell_owner;
  session_id = codes "s";
  supervisor_pid = pos 0;
  supervisor_start_fingerprint = [];
  started_at = 0;
}

abbrev full_disk : Faults
full_disk = record no_faults { write = some (codes "no space"); written = 1 ∷ [] }

some_session_valid : validate_session ascii some_session ≡ none
unfolding validate_session lacks_field validate_channels eq_text normalize_channel trim replace_from
    trim_prefix has_prefix to_lower trim_space is_space to_lower_rune is_channel_char
some_session_valid = refl

abbrev saved : Slot
saved = record { file = some (session_codec.encode some_session ++ b'\n' ∷ []); temp = none }

save_state_load_example :
    let after = save_state session_codec ascii full_disk some_session saved in
    ((after.1 ≡ none)
      × (load_state session_codec ascii none after.0 ≡ loaded (stamped some_session)))
    ⊎ ((after.1 ≢ none) × (after.0.file ≡ saved.file))
save_state_load_example = save_state_load session_codec ascii full_disk some_session saved

abbrev pub some_binding : CodexBinding
some_binding = record {
  binding_id = codes "b";
  session_id = codes "s";
  endpoint = codes "unix:///e";
  thread_id = codes "t";
  enabled = true;
  offset = pos 0;
  replay = false;
  mention_current_identity = true;
  subscribed_channels = [];
  delivery_blocked = false;
  delivery_state = [];
  delivery_error = [];
  no_start_after_steer_failure = false;
  updated_at = 0;
}

abbrev pub hello : Text → StoredMessage
hello t = record {
  event_id = codes "e";
  source = codes "irc";
  ts = pos 1;
  kind = codes "direct";
  target = codes "b";
  nick = codes "b";
  text = t;
}

abbrev pub two_messages : List StoredMessage
two_messages = hello (codes "one") ∷ hello (codes "two") ∷ []

read_complete-append_example :
    read_complete_message_records message_codec
      (content (or_nothing (appended message_codec two_messages (some (1 ∷ [])))))
      (pos 1)
    ≡ record {
      records = records_from message_codec 1 two_messages;
      next = pos (length (or_nothing (appended message_codec two_messages (some (1 ∷ [])))));
      error = none;
    }
read_complete-append_example = read_complete-append message_codec two_messages (1 ∷ [])

abbrev pub stored : Bytes
stored = or_nothing (appended message_codec two_messages (some []))

undecoded : message_codec.decode (1 ∷ []) ≡ none
undecoded = refl
