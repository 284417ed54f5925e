-- ===== src/Protocol/Payloads/Scenario.antt =====
-- The payload that starts a scenario, with its parameters.
pub mod RoundTrip
use inerceptor_command_sim.Base.{ℕ, Bool, List, [], ◌∷◌}
use inerceptor_command_sim.Base.Decimal.{nat_to_string, int_to_string}
use inerceptor_command_sim.Base.Int.{ℤ}
use inerceptor_command_sim.Base.Result.{Result, ok, ◌>>=◌}
use inerceptor_command_sim.Base.Text.{Text, bytes}
use inerceptor_command_sim.Protocol.Messages.{SessionEnvelope}
use inerceptor_command_sim.Protocol.Fields.{parse_fields, join_fields}
use inerceptor_command_sim.Protocol.Numbers.{bool_to_string}
use inerceptor_command_sim.Protocol.Payloads.Envelope.{
  require_u32, require_u64, require_text, require_bool, require_int_or, require_enum_string,
  is_valid_aar_control, is_valid_assessment_code, require_kind, parse_envelope, pair, with_envelope,
}

pub record ScenarioStartPayload : Type 0 where
  pub envelope : SessionEnvelope
  pub scenario_name : Text
  pub world_width : ℤ
  pub world_height : ℤ
  pub target_start_x : ℤ
  pub target_start_y : ℤ
  pub target_velocity_x : ℤ
  pub target_velocity_y : ℤ
  pub interceptor_start_x : ℤ
  pub interceptor_start_y : ℤ
  pub interceptor_speed_per_tick : ℤ
  pub intercept_radius : ℤ
  pub engagement_timeout_ticks : ℤ
  pub seeker_fov_deg : ℤ
  pub launch_angle_deg : ℤ

abbrev pub scenario_start_fields : ScenarioStartPayload → List (Text × Text)
scenario_start_fields p =
    pair "scenario_name" p.scenario_name
    ∷ pair "world_width" (int_to_string p.world_width)
    ∷ pair "world_height" (int_to_string p.world_height)
    ∷ pair "target_start_x" (int_to_string p.target_start_x)
    ∷ pair "target_start_y" (int_to_string p.target_start_y)
    ∷ pair "target_velocity_x" (int_to_string p.target_velocity_x)
    ∷ pair "target_velocity_y" (int_to_string p.target_velocity_y)
    ∷ pair "interceptor_start_x" (int_to_string p.interceptor_start_x)
    ∷ pair "interceptor_start_y" (int_to_string p.interceptor_start_y)
    ∷ pair "interceptor_speed_per_tick" (int_to_string p.interceptor_speed_per_tick)
    ∷ pair "intercept_radius" (int_to_string p.intercept_radius)
    ∷ pair "engagement_timeout_ticks" (int_to_string p.engagement_timeout_ticks)
    ∷ pair "seeker_fov_deg" (int_to_string p.seeker_fov_deg)
    ∷ pair "launch_angle_deg" (int_to_string p.launch_angle_deg)
    ∷ []

unfoldable pub serialize_scenario_start : ScenarioStartPayload → Text
serialize_scenario_start p =
    join_fields (with_envelope "scenario_start" p.envelope (scenario_start_fields p))

unfoldable pub parse_scenario_start : Text → Result ScenarioStartPayload
parse_scenario_start wire = do
  fields ← parse_fields wire
  require_kind fields "scenario_start" (do
    envelope ← parse_envelope fields
    scenario_name ← require_text fields "scenario_name"
    world_width ← require_int_or fields "world_width" "2304"
    world_height ← require_int_or fields "world_height" "1536"
    target_start_x ← require_int_or fields "target_start_x" "480"
    target_start_y ← require_int_or fields "target_start_y" "1200"
    target_velocity_x ← require_int_or fields "target_velocity_x" "5"
    target_velocity_y ← require_int_or fields "target_velocity_y" "-3"
    interceptor_start_x ← require_int_or fields "interceptor_start_x" "0"
    interceptor_start_y ← require_int_or fields "interceptor_start_y" "0"
    interceptor_speed_per_tick ← require_int_or fields "interceptor_speed_per_tick" "32"
    intercept_radius ← require_int_or fields "intercept_radius" "24"
    engagement_timeout_ticks ← require_int_or fields "engagement_timeout_ticks" "60"
    seeker_fov_deg ← require_int_or fields "seeker_fov_deg" "45"
    launch_angle_deg ← require_int_or fields "launch_angle_deg" "45"
    ok (record {
      envelope = envelope;
      scenario_name = scenario_name;
      world_width = world_width;
      world_height = world_height;
      target_start_x = target_start_x;
      target_start_y = target_start_y;
      target_velocity_x = target_velocity_x;
      target_velocity_y = target_velocity_y;
      interceptor_start_x = interceptor_start_x;
      interceptor_start_y = interceptor_start_y;
      interceptor_speed_per_tick = interceptor_speed_per_tick;
      intercept_radius = intercept_radius;
      engagement_timeout_ticks = engagement_timeout_ticks;
      seeker_fov_deg = seeker_fov_deg;
      launch_angle_deg = launch_angle_deg;
    }))
