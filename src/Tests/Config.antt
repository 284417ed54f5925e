-- ===== src/Tests/Config.antt =====
-- The validation of a configuration, on the default one.
use inerceptor_command_sim.Base.{◌≡◌, refl, true, [], ◌∷◌, ◌++◌}
use inerceptor_command_sim.Base.Int.{pos}
use inerceptor_command_sim.Base.Text.{Text, bytes, text_eq}
use inerceptor_command_sim.Core.Config.{default_scenario}
use inerceptor_command_sim.Core.Validation.{
  RuntimeConfig, IsUsable, require_that, is_positive, is_port, is_zero, is_ipv4_host, octets,
  all_digits, decimal_value, is_octet, all_octets, validate_runtime_config,
  validate_runtime_config-IsUsable, is_ipv4_host-trailing_dot,
}

abbrev pub config : RuntimeConfig
config = record {
  server = record {
    bind_host = bytes "127.0.0.1";
    tcp_frame_format = bytes "json";
    tick_rate_hz = pos 20;
    tcp_port = pos 4000;
    udp_port = pos 4001;
    udp_max_batch_snapshots = pos 2;
    udp_send_latest_only = true;
    heartbeat_interval_ms = pos 1000;
    heartbeat_timeout_ms = pos 3000;
    max_clients = pos 8;
  };
  scenario = default_scenario;
  logging = record {
    level = bytes "info";
    outputs = bytes "stdout" ∷ [];
    file_path = bytes "logs/session.log";
    aar_enabled = true;
    aar_output_dir = bytes "assets/sample-aar";
  };
  repo_root = [];
}

validate_runtime_config-IsUsable_example : IsUsable config
unfolding validate_runtime_config require_that is_positive is_port is_zero is_ipv4_host octets
    all_digits decimal_value is_octet all_octets bytes text_eq
validate_runtime_config-IsUsable_example = validate_runtime_config-IsUsable config refl

abbrev host : Text
host = 49 ∷ 46 ∷ 49 ∷ 46 ∷ 49 ∷ 46 ∷ []

is_ipv4_host-trailing_dot_example :
    is_ipv4_host (host ++ 57 ∷ 46 ∷ []) ≡ is_ipv4_host (host ++ 57 ∷ [])
is_ipv4_host-trailing_dot_example = is_ipv4_host-trailing_dot host 57 refl

host_accepted : is_ipv4_host (host ++ 57 ∷ []) ≡ true
unfolding is_ipv4_host octets all_digits decimal_value is_octet all_octets
host_accepted = refl
