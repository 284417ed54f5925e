-- ===== src/Protocol/Payloads/Scenario/RoundTrip.antt =====
-- The payloads of Scenario.antt come back from their wire text.
use inerceptor_command_sim.Base.{◌≡◌, refl, All}
use inerceptor_command_sim.Base.Result.{ok}
use inerceptor_command_sim.Base.Text.{bytes, text_eq}
use inerceptor_command_sim.Protocol.Fields.{require, require_or}
use inerceptor_command_sim.Protocol.Fields.Percent.{IsByte}
use inerceptor_command_sim.Protocol.Fields.Wire.{IsField, parse_fields-join_fields}
use inerceptor_command_sim.Protocol.Numbers.RoundTrip.{IsInt, parse_i64-int_to_string, to_int-IsInt}
use inerceptor_command_sim.Protocol.Payloads.Envelope.{require_kind}
use inerceptor_command_sim.Protocol.Payloads.Fieldwise.{
  IsEnvelope, is_clean, text-IsField, int-IsField, envelope_fields, parse_envelope-with_envelope,
}
use inerceptor_command_sim.Protocol.Payloads.Scenario.{
  ScenarioStartPayload, scenario_start_fields, serialize_scenario_start, parse_scenario_start,
}

abbrev pub IsScenarioStart : ScenarioStartPayload → Type 0
IsScenarioStart p =
    IsEnvelope p.envelope
    × All IsByte p.scenario_name
    × IsInt p.world_width
    × IsInt p.world_height
    × IsInt p.target_start_x
    × IsInt p.target_start_y
    × IsInt p.target_velocity_x
    × IsInt p.target_velocity_y
    × IsInt p.interceptor_start_x
    × IsInt p.interceptor_start_y
    × IsInt p.interceptor_speed_per_tick
    × IsInt p.intercept_radius
    × IsInt p.engagement_timeout_ticks
    × IsInt p.seeker_fov_deg
    × IsInt p.launch_angle_deg

scenario_start_fields-IsField :
    (p : ScenarioStartPayload) → IsScenarioStart p → All IsField (scenario_start_fields p)
unfolding is_clean bytes
scenario_start_fields-IsField p h = (
  text-IsField (bytes "scenario_name") p.scenario_name refl h.1,
  (
    int-IsField (bytes "world_width") p.world_width refl,
    (
      int-IsField (bytes "world_height") p.world_height refl,
      (
        int-IsField (bytes "target_start_x") p.target_start_x refl,
        (
          int-IsField (bytes "target_start_y") p.target_start_y refl,
          (
            int-IsField (bytes "target_velocity_x") p.target_velocity_x refl,
            (
              int-IsField (bytes "target_velocity_y") p.target_velocity_y refl,
              (
                int-IsField (bytes "interceptor_start_x") p.interceptor_start_x refl,
                (
                  int-IsField (bytes "interceptor_start_y") p.interceptor_start_y refl,
                  (
                    int-IsField (bytes "interceptor_speed_per_tick") p.interceptor_speed_per_tick
                        refl,
                    (
                      int-IsField (bytes "intercept_radius") p.intercept_radius refl,
                      (
                        int-IsField (bytes "engagement_timeout_ticks") p.engagement_timeout_ticks
                            refl,
                        (
                          int-IsField (bytes "seeker_fov_deg") p.seeker_fov_deg refl,
                          (int-IsField (bytes "launch_angle_deg") p.launch_angle_deg refl, tt),
                        ),
                      ),
                    ),
                  ),
                ),
              ),
            ),
          ),
        ),
      ),
    ),
  ),
)

-- A scenario_start payload is read back from its wire text, if its numbers fit the types of the
-- source and its texts are made of bytes.
pub parse-serialize_scenario_start :
    (p : ScenarioStartPayload)
    → IsScenarioStart p
    → parse_scenario_start (serialize_scenario_start p) ≡ ok p
unfolding parse_scenario_start serialize_scenario_start require_kind require require_or bytes
    text_eq is_clean
parse-serialize_scenario_start p h =
    rw
      (
        parse_fields-join_fields _ (
            envelope_fields "scenario_start" p.envelope (scenario_start_fields p) refl
              (scenario_start_fields-IsField p h)),
        parse_envelope-with_envelope "scenario_start" p.envelope (scenario_start_fields p) h.0,
        parse_i64-int_to_string p.world_width h.2,
        to_int-IsInt p.world_width h.2,
        parse_i64-int_to_string p.world_height h.3,
        to_int-IsInt p.world_height h.3,
        parse_i64-int_to_string p.target_start_x h.4,
        to_int-IsInt p.target_start_x h.4,
        parse_i64-int_to_string p.target_start_y h.5,
        to_int-IsInt p.target_start_y h.5,
        parse_i64-int_to_string p.target_velocity_x h.6,
        to_int-IsInt p.target_velocity_x h.6,
        parse_i64-int_to_string p.target_velocity_y h.7,
        to_int-IsInt p.target_velocity_y h.7,
        parse_i64-int_to_string p.interceptor_start_x h.8,
        to_int-IsInt p.interceptor_start_x h.8,
        parse_i64-int_to_string p.interceptor_start_y h.9,
        to_int-IsInt p.interceptor_start_y h.9,
        parse_i64-int_to_string p.interceptor_speed_per_tick h.10,
        to_int-IsInt p.interceptor_speed_per_tick h.10,
        parse_i64-int_to_string p.intercept_radius h.11,
        to_int-IsInt p.intercept_radius h.11,
        parse_i64-int_to_string p.engagement_timeout_ticks h.12,
        to_int-IsInt p.engagement_timeout_ticks h.12,
        parse_i64-int_to_string p.seeker_fov_deg h.13,
        to_int-IsInt p.seeker_fov_deg h.13,
        parse_i64-int_to_string p.launch_angle_deg h.14,
        to_int-IsInt p.launch_angle_deg h.14,
      )
      refl
