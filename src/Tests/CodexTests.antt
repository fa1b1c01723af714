-- ===== src/Tests/CodexTests.antt =====
-- Tests of the delivery to a Codex thread.
use chatta.Prelude.{◌≡◌, refl, ◌↔◌, true, false, none, some, List, [], ◌∷◌, ◌++◌, map, arith}
use chatta.Prelude.Int.{pos, negsuc}
use chatta.Text.Basic.{Text, codes, eq_text, has_prefix}
use chatta.Text.Trim.{trim_space}
use chatta.Text.Space.{is_space}
use chatta.Text.Case.{Folding, fold_rune, equal_fold}
use chatta.Common.{StoredMessage}
use chatta.Dal.AtomicFile.{Slot}
use chatta.Dal.Binding.{load_codex_binding, loaded, is_invalid}
use chatta.Dal.Store.{content, read_complete_message_records}
use chatta.Dal.Store.Delivery.{no_faults}
use chatta.Services.Codex.{
  mention, mention_here, mention_later, behind_nick, is_nick_char, codex_binding_matches,
}
use chatta.Text.Case.{to_lower, to_lower_rune}
use chatta.Services.Codex.{normalize_subscribed_channels, normalize_from, lower_name}
use chatta.Services.Codex.Mention.{Mentions, mention_iff}
use chatta.Services.Codex.Client.{
  answered, failed, Inspection, AppServer, CodexAppClient, CodexDeliveryAck, rpc, deliver,
  active_turn, is_idle_steer_race,
}
use chatta.Services.Codex.Client.Accepted.{Accepted, NoRace, deliver-Accepted}
use chatta.Services.Codex.Binding.{Handler, BindRequest, bind_codex_with_reuse}
use chatta.Services.Codex.Binding.Effect.{BindEffect, bind_codex_with_reuse-BindEffect}
use chatta.Services.Codex.Worker.{Attempt, Queued, handle_records}
use chatta.Services.Codex.Progress.{Worker, Moment}
use chatta.Services.Codex.Worker.Cursor.{Passed, item_of, handle_records-Passed}
use chatta.Services.Codex.Worker.Saves.{Stands}
use chatta.Services.Codex.Worker.OnDisk.{InStep, handle_records-InStep}
use chatta.Services.Codex.Worker.Rounds.{queue, handle_records-resume}
use chatta.Tests.Samples.{ascii}
use chatta.Tests.Coding.{binding_codec, message_codec}
use chatta.Tests.StoreTests.{some_binding, stored, hello}

-- Case is folded in ASCII only.
abbrev ascii_folding : Folding
ascii_folding = record { fold = λ c. c }

mention_iff_example :
    (mention ascii_folding (codes "bob") (codes "hi @Bob!") ≡ true)
    ↔ Mentions ascii_folding (codes "bob") (codes "hi @Bob!")
mention_iff_example = mention_iff ascii_folding (codes "bob") (codes "hi @Bob!")

mentioned : mention ascii_folding (codes "bob") (codes "hi @Bob!") ≡ true
unfolding mention mention_here mention_later behind_nick is_nick_char fold_rune
mentioned = refl

not_mentioned : mention ascii_folding (codes "bob") (codes "bobby") ≡ false
unfolding mention mention_here mention_later behind_nick is_nick_char fold_rune
not_mentioned = refl

abbrev thread : Text → Inspection
thread status = record {
  thread = some (codes "t");
  status = status;
  turns = (record { status = codes "inProgress"; id = codes "u0" }) ∷ [];
}

-- The turn ends between the reading and the steer.
abbrev racing : AppServer
racing = record {
  connect = none;
  first_inspect = answered (thread (codes "active"));
  steer = failed (rpc (codes "turn/steer") (negsuc 32599) (codes "No active turn to steer"));
  second_inspect = answered (thread (codes "idle"));
  start = answered (codes "u1");
}

abbrev open_client : CodexAppClient
open_client = record {
  endpoint = codes "unix:///e";
  thread_id = codes "t";
  no_start_after_steer_failure = true;
  authorize = λ n. none;
}

abbrev restarted_ack : CodexDeliveryAck
restarted_ack = record { method = codes "turn/start"; thread_id = codes "t"; turn_id = codes "u1" }

race_delivers :
    (deliver ascii_folding open_client racing (codes "hi")).result ≡ answered restarted_ack
unfolding deliver has_prefix eq_text active_turn is_idle_steer_race equal_fold trim_space is_space
    fold_rune
race_delivers = refl

no_error : NoRace ascii_folding open_client
no_error n e h = absurd (ground arith)

deliver-Accepted_example :
    Accepted ascii_folding open_client racing
      (codes "hi")
      (deliver ascii_folding open_client racing (codes "hi")).sent
      (codes "u1")
deliver-Accepted_example =
    deliver-Accepted ascii_folding open_client racing (codes "hi") restarted_ack no_error
      race_delivers

abbrev bob : Worker
bob = record {
  nick = codes "a";
  session_id = codes "s";
  codec = binding_codec;
  unicode = ascii;
  folding = ascii_folding;
  describe = λ e. codes "load";
}

abbrev quiet : Moment
quiet = record { others = λ s. s; read_fault = none; faults = no_faults; now = 5 }

abbrev attempt : Attempt
attempt = record {
  cancelled = false;
  lock = none;
  server = racing;
  at_check = quiet;
  at_dispatch = λ n. quiet;
  at_save = quiet;
}

abbrev binding_file : Slot
binding_file = record { file = some (binding_codec.encode some_binding ++ b'\n' ∷ []); temp = none }

abbrev own : StoredMessage
own = record (hello (codes "mine")) { nick = codes "A" }

abbrev two_records : List Queued
two_records =
    (record { item = record { message = own; offset = 3 }; attempt = attempt })
    ∷ (record { item = record { message = hello (codes "yours"); offset = 9 }; attempt = attempt })
    ∷ []

handle_records-Passed_example :
    Passed bob some_binding
      (map (λ q. q.item) two_records)
      (handle_records bob some_binding two_records binding_file)
handle_records-Passed_example = handle_records-Passed bob some_binding two_records binding_file

binding_loads : load_codex_binding binding_codec none binding_file ≡ loaded some_binding
unfolding load_codex_binding is_invalid
binding_loads = refl

matches_itself : codex_binding_matches some_binding some_binding ≡ true
unfolding codex_binding_matches eq_text
matches_itself = refl

in_file : Stands bob some_binding (pos 0) binding_file
in_file = record {
  current = some_binding;
  loads = binding_loads;
  matches = matches_itself;
  enabled = refl;
  offset = refl;
}

handle_records-InStep_example :
    InStep bob (handle_records bob some_binding two_records binding_file)
handle_records-InStep_example =
    handle_records-InStep bob some_binding two_records binding_file
      ((((λ s. refl), refl), ((λ s. refl), refl)), ((((λ s. refl), refl), ((λ s. refl), refl)), tt))
      in_file

handle_records-resume_example :
    let batch = read_complete_message_records message_codec (content stored) (pos 0) in
    let round =
      handle_records bob some_binding (queue (λ n. attempt) 0 batch.records) binding_file in
    batch.records
    ≡ map item_of round.handled
      ++ (read_complete_message_records message_codec (content stored) round.binding.offset).records
handle_records-resume_example =
    handle_records-resume bob some_binding 0 message_codec stored (λ n. attempt) binding_file refl

abbrev handler : Handler
handler = record {
  session_id = codes "s";
  codec = binding_codec;
  unicode = ascii;
  read_fault = none;
  faults = no_faults;
  now = 9;
  probe = none;
  new_id = codes "b2";
  id_fault = none;
  stat_fault = none;
  size = some 40;
}

abbrev rebind : BindRequest
rebind = record {
  endpoint = codes "unix:///e";
  thread_id = codes "t2";
  replay = false;
  mention = true;
  channels = codes "#Dev" ∷ [];
  require_available = true;
  reuse = false;
}

bind_codex_with_reuse-BindEffect_example :
    BindEffect handler rebind binding_file (bind_codex_with_reuse handler rebind binding_file)
bind_codex_with_reuse-BindEffect_example =
    bind_codex_with_reuse-BindEffect handler rebind binding_file

channels_normalized :
    normalize_subscribed_channels ascii (codes "#Dev" ∷ codes " #dev " ∷ codes "#ops" ∷ [])
    ≡ some (codes "#dev" ∷ codes "#ops" ∷ [])
unfolding normalize_subscribed_channels normalize_from lower_name to_lower to_lower_rune trim_space
    is_space has_prefix eq_text
channels_normalized = refl
