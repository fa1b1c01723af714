-- ===== src/Tests/MessageTests.antt =====
-- Tests of sending, the inbox and the channels.
use chatta.Prelude.{All, ℕ, ◌≡◌, refl, ◌≢◌, ◌⊎◌, true, Option, none, some, [], ◌∷◌, arith}
use chatta.Text.Basic.{Text, codes, eq_text, has_prefix, trim_prefix}
use chatta.Text.Trim.{trim, trim_space}
use chatta.Text.Space.{is_space}
use chatta.Text.Case.{to_lower, to_lower_rune}
use chatta.Text.Utf8.{rune_len}
use chatta.Common.{ChatSession}
use chatta.Dal.Channel.{normalize_channel, replace_from, is_channel_char, can_part}
use chatta.Dal.Store.{split_lines}
use chatta.Services.Control.{ControlRequest, ControlResponse, ControlCode, Reply, got, done}
use chatta.Services.Channel.{in_channel, with_channel, without_channel, join, part}
use chatta.Services.Message.{split_line, split_from, split_utf8, send, target_of}
use chatta.Services.Message.Parts.{Fits, concat, without_blank, split_utf8-Fits}
use chatta.Services.Message.Sending.{Delivers, send-Delivers}
use chatta.Tests.Samples.{ascii}
use chatta.Tests.StoreTests.{some_session}

split_in_two : split_utf8 (codes "abcde\n \nfg") 4 ≡ codes "abcd" ∷ codes "e" ∷ codes "fg" ∷ []
unfolding split_utf8 split_from split_line split_lines rune_len trim_space is_space
split_in_two = refl

split_utf8-Fits_example :
    All (Fits 4) (split_utf8 (codes "abcde\nfg") 4)
    × (concat (split_utf8 (codes "abcde\nfg") 4) ≡ without_blank (split_lines (codes "abcde\nfg")))
split_utf8-Fits_example = split_utf8-Fits (codes "abcde\nfg") 4 (omega arith)

abbrev ok_response : ControlResponse
ok_response = record {
  ok = true;
  error = [];
  code = ControlCode.no_code;
  members = [];
  status = none;
}

abbrev accepted : ℕ → Reply
accepted n = got ok_response

send-Delivers_example :
    let s = send ascii (done some_session) accepted [] (codes "hi") in
    Delivers accepted (target_of ascii some_session []) (codes "hi") s
    × ((s.error ≡ none) ⊎ (s.requests ≢ [])
        → in_channel (target_of ascii some_session []) some_session.channels ≡ true)
send-Delivers_example = send-Delivers ascii some_session accepted [] (codes "hi")

abbrev ask : ControlRequest → Reply
ask q = got ok_response

abbrev saves : ChatSession → Option Text
saves st = none

abbrev in_project : ChatSession
in_project = with_channel 3 (codes "#project") some_session

saved_by_join :
    (join ascii 3 saves (done some_session) ask (codes "project")).saved ≡ some in_project
unfolding join normalize_channel eq_text trim replace_from trim_prefix has_prefix to_lower
    trim_space is_space to_lower_rune is_channel_char
saved_by_join = refl

abbrev out_again : ChatSession
out_again = without_channel (codes "#project") in_project

saved_by_part : (part ascii saves (done in_project) ask (codes "project") []).saved ≡ some out_again
unfolding part can_part normalize_channel eq_text trim replace_from trim_prefix has_prefix to_lower
    trim_space is_space to_lower_rune is_channel_char
saved_by_part = refl
