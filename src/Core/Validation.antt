-- ===== src/Core/Validation.antt =====
-- common/src/config.cpp: the validation of a loaded configuration. A path is its text; the message of
-- an exception is written out where the source joins it to the name of a field.
use inerceptor_command_sim.Base.{
  ℕ, ◌+◌, ◌-◌, ◌*◌, ◌≡◌, refl, Bool, true, false, ◌&&◌, ◌||◌, not, List, [], ◌∷◌, ◌++◌, ltb, leb,
  ◌==◌, if◌then◌else◌, length, arith,
}
use Prim.Native.String.{String}
use inerceptor_command_sim.Base.Int.{ℤ, pos, negsuc, ◌≤ℤ◌, ltb_ℤ}
use inerceptor_command_sim.Base.Result.{Result, ok, throws, ◌>>=◌}
use inerceptor_command_sim.Base.Text.{Text, bytes, text_eq}
use inerceptor_command_sim.Core.Config.{ScenarioConfig}

pub record ServerConfig : Type 0 where
  pub bind_host : Text
  pub tcp_frame_format : Text
  pub tick_rate_hz : ℤ
  pub tcp_port : ℤ
  pub udp_port : ℤ
  pub udp_max_batch_snapshots : ℤ
  pub udp_send_latest_only : Bool
  pub heartbeat_interval_ms : ℤ
  pub heartbeat_timeout_ms : ℤ
  pub max_clients : ℤ

pub record LoggingConfig : Type 0 where
  pub level : Text
  pub outputs : List Text
  pub file_path : Text
  pub aar_enabled : Bool
  pub aar_output_dir : Text

pub record RuntimeConfig : Type 0 where
  pub server : ServerConfig
  pub scenario : ScenarioConfig
  pub logging : LoggingConfig
  pub repo_root : Text

-- An exception with the message unless the test holds.
unfoldable pub require_that : Bool → String → Result (Unit {0})
require_that b message = if b then ok tt else throws (bytes message)

-- `value > 0`.
unfoldable pub is_positive : ℤ → Bool
is_positive value = ltb_ℤ (pos 0) value

-- `0 <= value <= 65535`.
unfoldable pub is_port : ℤ → Bool
is_port value = not (ltb_ℤ value (pos 0) || ltb_ℤ (pos 65535) value)

-- std::getline at dots, with the characters `octet` read so far: an empty rest at the end of the
-- stream is no octet.
unfoldable pub octets : Text → Text → List Text
octets octet [] = if length octet == 0 then [] else octet ∷ []
octets octet (c ∷ rest) =
    let next = octet ∷ octets [] rest in
    let same = octets (octet ++ c ∷ []) rest in if c == b'.' then next else same

unfoldable pub all_digits : Text → Bool
all_digits [] = true
all_digits (c ∷ rest) = leb b'0' c && (leb c b'9' && all_digits rest)

-- std::stoi on digits, after the number `value`.
unfoldable pub decimal_value : ℕ → Text → ℕ
decimal_value value [] = value
decimal_value value (c ∷ rest) = decimal_value (value * 10 + (c - b'0')) rest

unfoldable pub is_octet : Text → Bool
is_octet octet =
    not (length octet == 0 || ltb 3 (length octet))
    && (all_digits octet && leb (decimal_value 0 octet) 255)

unfoldable pub all_octets : List Text → Bool
all_octets [] = true
all_octets (octet ∷ rest) = is_octet octet && all_octets rest

-- The host passes validate_ipv4_host, which throws one message in all other cases.
unfoldable pub is_ipv4_host : Text → Bool
is_ipv4_host host = all_octets (octets [] host) && length (octets [] host) == 4

unfoldable pub is_zero : ℤ → Bool
is_zero (pos n) = n == 0
is_zero (negsuc n) = false

unfoldable pub validate_runtime_config : RuntimeConfig → Result (Unit {0})
validate_runtime_config c = do
  _ ← require_that (is_ipv4_host c.server.bind_host) "server.bind_host must be a valid IPv4 address"
  _ ←
      require_that (is_positive c.server.tick_rate_hz)
        "server.tick_rate_hz must be greater than zero"
  _ ← require_that (is_port c.server.tcp_port) "server.tcp_port must be between 0 and 65535"
  _ ← require_that (is_port c.server.udp_port) "server.udp_port must be between 0 and 65535"
  _ ←
      require_that (is_positive c.server.udp_max_batch_snapshots)
        "server.udp_max_batch_snapshots must be greater than zero"
  _ ←
      require_that (is_positive c.server.heartbeat_interval_ms)
        "server.heartbeat_interval_ms must be greater than zero"
  _ ←
      require_that (is_positive c.server.heartbeat_timeout_ms)
        "server.heartbeat_timeout_ms must be greater than zero"
  _ ← require_that (is_positive c.server.max_clients) "server.max_clients must be greater than zero"
  _ ←
      require_that (not (ltb_ℤ c.server.heartbeat_timeout_ms c.server.heartbeat_interval_ms))
        "server.heartbeat_timeout_ms must be greater than or equal to server.heartbeat_interval_ms"
  _ ←
      require_that
        (text_eq c.server.tcp_frame_format (bytes "json")
          || text_eq c.server.tcp_frame_format (bytes "binary"))
        "server.tcp_frame_format must be one of: json, binary"
  _ ← require_that (is_positive c.scenario.targets) "scenario.targets must be greater than zero"
  _ ← require_that (is_positive c.scenario.assets) "scenario.assets must be greater than zero"
  _ ←
      require_that (is_positive c.scenario.telemetry_interval_ms)
        "scenario.telemetry_interval_ms must be greater than zero"
  _ ←
      require_that (is_positive c.scenario.world_width)
        "scenario.world_width must be greater than zero"
  _ ←
      require_that (is_positive c.scenario.world_height)
        "scenario.world_height must be greater than zero"
  _ ←
      require_that (is_positive c.scenario.interceptor_speed_per_tick)
        "scenario.interceptor_speed_per_tick must be greater than zero"
  _ ←
      require_that (is_positive c.scenario.intercept_radius)
        "scenario.intercept_radius must be greater than zero"
  _ ←
      require_that (is_positive c.scenario.engagement_timeout_ticks)
        "scenario.engagement_timeout_ticks must be greater than zero"
  _ ←
      require_that (is_positive c.scenario.seeker_fov_deg)
        "scenario.seeker_fov_deg must be greater than zero"
  _ ←
      require_that
        (not
          (ltb_ℤ c.scenario.launch_angle_deg (pos 0) || ltb_ℤ (pos 90) c.scenario.launch_angle_deg))
        "scenario.launch_angle_deg must be between 0 and 90"
  _ ←
      require_that
        (not (ltb_ℤ c.scenario.target_start_x (pos 0))
          && ltb_ℤ c.scenario.target_start_x c.scenario.world_width)
        "scenario.target_start_x must fit inside world_width"
  _ ←
      require_that
        (not (ltb_ℤ c.scenario.target_start_y (pos 0))
          && ltb_ℤ c.scenario.target_start_y c.scenario.world_height)
        "scenario.target_start_y must fit inside world_height"
  _ ←
      require_that (is_zero c.scenario.interceptor_start_x)
        "scenario.interceptor_start_x must remain fixed at 0"
  _ ←
      require_that (is_zero c.scenario.interceptor_start_y)
        "scenario.interceptor_start_y must remain fixed at 0"
  _ ← require_that (ltb 0 (length c.logging.outputs)) "logging.outputs must not be empty"
  ok tt

octets-trailing_dot :
    (host octet : Text) (c : ℕ)
    → (c == b'.') ≡ false
    → octets octet (host ++ c ∷ b'.' ∷ []) ≡ octets octet (host ++ c ∷ [])
unfolding octets
octets-trailing_dot [] octet c h = rw h (rw (length_snoc octet c) refl)
  where
    length_snoc : (xs : Text) (c : ℕ) → (length (xs ++ c ∷ []) == 0) ≡ false
    length_snoc [] c = refl
    length_snoc (x ∷ xs) c = ground arith
octets-trailing_dot (x ∷ host) octet c h =
    rw (octets-trailing_dot host [] c h, octets-trailing_dot host (octet ++ x ∷ []) c h) refl

-- The validation of the host does not see a dot at the end: for every text that ends in another
-- character, the text with one more dot is accepted just when the text is.
pub is_ipv4_host-trailing_dot :
    (host : Text) (c : ℕ)
    → (c == b'.') ≡ false
    → is_ipv4_host (host ++ c ∷ b'.' ∷ []) ≡ is_ipv4_host (host ++ c ∷ [])
unfolding is_ipv4_host
is_ipv4_host-trailing_dot host c h = rw (octets-trailing_dot host [] c h) refl

require-next :
    {A : Type 0} (b : Bool) (message : String) (rest : Result A) (a : A)
    → (require_that b message >>= (λ u. rest)) ≡ ok a
    → (b ≡ true) × (rest ≡ ok a)
unfolding require_that
require-next true message rest a h = (refl, h)
require-next false message rest a h = cc

is_positive-le : (x : ℤ) → is_positive x ≡ true → pos 1 ≤ℤ x
unfolding is_positive
is_positive-le (pos n) h = ground arith
is_positive-le (negsuc n) h = ground arith

-- What the session may take for granted of a validated configuration: positive rates, a positive
-- timeout, a world that is not empty, with the target inside.
pub record IsUsable (c : RuntimeConfig) : Type 0 where
  pub tick_rate : pos 1 ≤ℤ c.server.tick_rate_hz
  pub telemetry : pos 1 ≤ℤ c.scenario.telemetry_interval_ms
  pub timeout : pos 1 ≤ℤ c.scenario.engagement_timeout_ticks
  pub width : pos 1 ≤ℤ c.scenario.world_width
  pub height : pos 1 ≤ℤ c.scenario.world_height
  pub heartbeat : c.server.heartbeat_interval_ms ≤ℤ c.server.heartbeat_timeout_ms
  pub x_inside :
      (x : ℕ) × (c.scenario.target_start_x ≡ pos x) × (pos (x + 1) ≤ℤ c.scenario.world_width)
  pub y_inside :
      (y : ℕ) × (c.scenario.target_start_y ≡ pos y) × (pos (y + 1) ≤ℤ c.scenario.world_height)

inside :
    (x limit : ℤ)
    → (not (ltb_ℤ x (pos 0)) && ltb_ℤ x limit) ≡ true
    → (n : ℕ) × (x ≡ pos n) × (pos (n + 1) ≤ℤ limit)
inside (pos n) limit h = (n, refl, ground arith)
inside (negsuc n) limit h = absurd (ground arith)

not_below : (x y : ℤ) → not (ltb_ℤ x y) ≡ true → y ≤ℤ x
not_below x y h = ground arith

-- A configuration that passes the validation is usable: its tick rate, telemetry interval, engagement
-- timeout and world are positive, the heartbeat timeout is not below the interval, and the target
-- starts inside the world.
pub validate_runtime_config-IsUsable :
    (c : RuntimeConfig) → validate_runtime_config c ≡ ok tt → IsUsable c
unfolding validate_runtime_config
validate_runtime_config-IsUsable c h =
    let h1 = require-next _ _ _ tt h in
    let h2 = require-next _ _ _ tt h1.1 in
    let h3 = require-next _ _ _ tt h2.1 in
    let h4 = require-next _ _ _ tt h3.1 in
    let h5 = require-next _ _ _ tt h4.1 in
    let h6 = require-next _ _ _ tt h5.1 in
    let h7 = require-next _ _ _ tt h6.1 in
    let h8 = require-next _ _ _ tt h7.1 in
    let h9 = require-next _ _ _ tt h8.1 in
    let h10 = require-next _ _ _ tt h9.1 in
    let h11 = require-next _ _ _ tt h10.1 in
    let h12 = require-next _ _ _ tt h11.1 in
    let h13 = require-next _ _ _ tt h12.1 in
    let h14 = require-next _ _ _ tt h13.1 in
    let h15 = require-next _ _ _ tt h14.1 in
    let h16 = require-next _ _ _ tt h15.1 in
    let h17 = require-next _ _ _ tt h16.1 in
    let h18 = require-next _ _ _ tt h17.1 in
    let h19 = require-next _ _ _ tt h18.1 in
    let h20 = require-next _ _ _ tt h19.1 in
    let h21 = require-next _ _ _ tt h20.1 in
    let h22 = require-next _ _ _ tt h21.1 in
    record {
      tick_rate = is_positive-le c.server.tick_rate_hz h2.0;
      telemetry = is_positive-le c.scenario.telemetry_interval_ms h13.0;
      timeout = is_positive-le c.scenario.engagement_timeout_ticks h18.0;
      width = is_positive-le c.scenario.world_width h14.0;
      height = is_positive-le c.scenario.world_height h15.0;
      heartbeat = not_below c.server.heartbeat_timeout_ms c.server.heartbeat_interval_ms h9.0;
      x_inside = inside c.scenario.target_start_x c.scenario.world_width h21.0;
      y_inside = inside c.scenario.target_start_y c.scenario.world_height h22.0;
    }
