-- ===== src/Tests/ConfigTests.antt =====
-- Tests of the configuration.
use chatta.Prelude.{if◌then◌else◌, ◌≡◌, refl, inl, inr, true, false, none, some, []}
use chatta.Prelude.Int.{pos, negsuc}
use chatta.Text.Basic.{Text, codes, eq_text}
use chatta.Text.Number.{atoi, digits_from}
use chatta.Services.Control.{done}
use chatta.Config.{
  ChatConfig, Config, Options, not_found, Viper, invalid_port, Environment, with_variables,
  with_flags, chat_variables, legacy_variables, load,
}
use chatta.Config.Precedence.{IsRead, IsPortVariable}
use chatta.Config.Precedence.Order.{chosen_chat, load_iff}

negative_number : atoi (codes "-12") ≡ some (negsuc 11)
unfolding atoi digits_from
negative_number = refl

too_large : atoi (codes "9223372036854775808") ≡ none
unfolding atoi digits_from
too_large = refl

no_number : atoi (codes "66 67") ≡ none
unfolding atoi digits_from
no_number = refl

-- No config file.
abbrev defaults : Viper
defaults = record {
  user_config_dir = done (codes "/home/a/.config");
  read_file = λ file. not_found (codes "no such file");
  read_dir = λ dir. not_found (codes "no config");
  get_string = λ key default. default;
  get_int = λ key default. default;
  in_config = λ key. false;
  get_bool = λ key default set. elim set [ none ↦ default | some value ↦ value ];
}

abbrev no_chat : ChatConfig
no_chat = record { home = []; host = []; port = pos 0; channel = [] }

-- `--host bus`
abbrev on_bus : Options
on_bus = record {
  file = [];
  verbose = false;
  verbose_set = false;
  chat = record no_chat { host = codes "bus" };
  chat_home_set = false;
  chat_host_set = true;
  chat_port_set = false;
  chat_channel_set = false;
  deprecated_ii_set = false;
}

-- The old variables for the home and the port, and the new one for the port.
abbrev migrating : Text → Environment
migrating old_port name =
    if eq_text name (codes "AGENT_CHAT_HOME")
    then some (codes "/old")
    else if eq_text name (codes "AGENT_CHAT_PORT")
    then some old_port
    else if eq_text name (codes "CHATTA_CHAT_PORT")
    then some (codes "7000")
    else none

abbrev from_all : Config
from_all = record {
  verbose = false;
  chat = record {
    home = codes "/old";
    host = codes "bus";
    port = pos 7000;
    channel = codes "#agents";
  };
  deprecated_ii_set = false;
}

loads_from_all : load (migrating (codes "6000")) defaults on_bus ≡ inr from_all
unfolding load with_variables with_flags eq_text atoi digits_from
loads_from_all = refl

-- The variable that another one overrides is checked too.
refuses_overridden :
    load (migrating (codes "70000")) defaults on_bus
    ≡ inl (invalid_port (codes "AGENT_CHAT_") (codes "70000"))
unfolding load with_variables with_flags eq_text atoi digits_from
refuses_overridden = refl

load_iff_example :
    let env = migrating (codes "6000") in
    IsRead defaults on_bus.file
    × IsPortVariable (legacy_variables env defaults).port
    × IsPortVariable (chat_variables env (codes "CHATTA_CHAT_")).port
    × (from_all.chat ≡ chosen_chat env defaults on_bus)
    × (from_all.verbose ≡ false)
    × (from_all.deprecated_ii_set ≡ false)
unfolding eq_text
load_iff_example = (load_iff (migrating (codes "6000")) defaults on_bus from_all).0 loads_from_all
