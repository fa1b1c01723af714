-- ===== src/Tests/Coding/Records.antt =====
-- A concrete coding of the record of a managed app-server.
use chatta.Prelude.{refl}
use chatta.Prelude.Int.{ℤ}
use chatta.Text.Basic.{Text}
use chatta.Dal.State.{Codec}
use chatta.Services.CodexService.Files.{Identity, ServiceRecord}
use chatta.Tests.Coding.{Coding, both, through, integer, text, file_codec}

abbrev identity_of : Text × (Text × Text) → Identity
identity_of (home, (family, os)) = record {
  codex_home = home;
  platform_family = family;
  platform_os = os;
}

abbrev identity : Coding Identity
identity =
    through identity_of (λ i. (i.codex_home, (i.platform_family, i.platform_os))) (λ i. refl)
      (both text (both text text))

abbrev RecordFields : Type 0
RecordFields = (ℤ × (ℤ × Text)) × (Text × (Text × (Text × Identity)))

abbrev record_of : RecordFields → ServiceRecord
record_of ((version, (pid, start)), (endpoint, (executable, (cli, i)))) = record {
  version = version;
  pid = pid;
  start = start;
  endpoint = endpoint;
  executable = executable;
  cli_version = cli;
  identity = i;
}

abbrev pub record_codec : Codec ServiceRecord
record_codec = file_codec (
    through record_of
      (λ r.
        ((r.version, (r.pid, r.start)), (r.endpoint, (r.executable, (r.cli_version, r.identity)))))
      (λ r. refl)
      (both (both integer (both integer text)) (both text (both text (both text identity)))))
