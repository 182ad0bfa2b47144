-- ===== src/Server/Tests.antt =====
-- The default configuration, a small env file, and quoted values.
use yex_judge.Common.{
  ℕ, ◌≡◌, ◌≢◌, ◌⊎◌, refl, true, pos, Option, none, some, [], ◌∷◌, ◌++◌, Text, codes, ok, text_eq,
  has_prefix, is_space, skip_space, drop_trailing, trim_space,
}
use yex_judge.Server.{
  ServerConfig, Environment, get_env, get_env_int_strict, to_duration, wrap_64, read_config,
  checked_config, validate_config, load_config, valid_env_key, key_runes, parse_env_value, last_of,
  drop_last, valid_request_id, request_id_runes,
}
use yex_judge.Server.Capacity.{IsSafeConfig, load_config-IsSafeConfig}
use yex_judge.Server.EnvFile.{
  Variables, lookup_env, cut_equals, without_export, set_entry, load_line, load_lines,
}
use yex_judge.Server.Quoting.{load_lines-keeps, parse_env_value-quotes}

-- 18446744073710 ms are a little more than 2^64 ns.
wrapped_lease : to_duration 18_446_744_073_710 ≡ pos 448_384
unfolding to_duration wrap_64
wrapped_lease = refl

abbrev empty_environment : Environment
empty_environment key = []

abbrev default_config : ServerConfig
default_config = record {
  port = codes "8080";
  worker_count = 4;
  sandbox_pool_size = 4;
  compile_slots = 2;
  database_url = [];
  queue_poll = pos 500_000_000;
  queue_lease = pos 60_000_000_000;
  queue_recovery = pos 1_000_000_000;
  queue_max_attempts = 3;
  max_queued = 100;
  submit_timeout = pos 10_000_000_000;
}

loads_defaults : load_config empty_environment ≡ ok default_config
unfolding load_config read_config checked_config validate_config get_env get_env_int_strict
    to_duration wrap_64 text_eq
loads_defaults = refl

load_config-IsSafeConfig_example : IsSafeConfig default_config
load_config-IsSafeConfig_example =
    load_config-IsSafeConfig empty_environment default_config loads_defaults

abbrev variables : Variables
variables = (codes "PORT", codes "9000") ∷ []

abbrev added : Variables
added = (codes "WORKER_COUNT", codes "8") ∷ variables

abbrev accepts_all : Text → Option Text
accepts_all key = none

loads_two_lines :
    load_lines accepts_all none 0
      (codes "PORT=1" ∷ codes "export WORKER_COUNT = '8'" ∷ [])
      variables
    ≡ ok added
unfolding load_lines load_line set_entry lookup_env without_export cut_equals valid_env_key
    key_runes parse_env_value last_of drop_last text_eq has_prefix is_space skip_space drop_trailing
    trim_space
loads_two_lines = refl

port_is_set : lookup_env (codes "PORT") variables ≡ some (codes "9000")
unfolding lookup_env text_eq
port_is_set = refl

load_lines-keeps_example : lookup_env (codes "PORT") added ≡ some (codes "9000")
load_lines-keeps_example =
    load_lines-keeps accepts_all none 0 (codes "PORT=1" ∷ codes "export WORKER_COUNT = '8'" ∷ [])
      variables added (codes "PORT") (codes "9000") loads_two_lines port_is_set

abbrev single : ℕ
single = 39

parse_env_value-quotes_example :
    (((single ≡ 39) ⊎ (single ≡ 34))
      → parse_env_value (single ∷ (codes "a=b" ++ single ∷ [])) ≡ some (codes "a=b"))
    × (single ≢ 39
        → single ≢ 34
        → parse_env_value (single ∷ codes "a=b") ≡ some (single ∷ codes "a=b"))
parse_env_value-quotes_example = parse_env_value-quotes single (codes "a=b")

accepted_id : valid_request_id (codes "Req-1.a_2") ≡ true
unfolding valid_request_id request_id_runes text_eq
accepted_id = refl
