-- ===== src/Core/Config.antt =====
-- common/include/icss/core/config.hpp: the scenario configuration. Every `int` is a ℤ.
use inerceptor_command_sim.Base.{Bool, true}
use inerceptor_command_sim.Base.Int.{ℤ, pos, negsuc}
use inerceptor_command_sim.Base.Text.{Text, bytes}

pub record ScenarioConfig : Type 0 where
  pub name : Text
  pub description : Text
  pub targets : ℤ
  pub assets : ℤ
  pub enable_replay : Bool
  pub telemetry_interval_ms : ℤ
  pub world_width : ℤ
  pub world_height : ℤ
  pub target_start_x : ℤ
  pub target_start_y : ℤ
  pub target_velocity_x : ℤ
  pub target_velocity_y : ℤ
  pub interceptor_start_x : ℤ
  pub interceptor_start_y : ℤ
  pub interceptor_speed_per_tick : ℤ
  pub intercept_radius : ℤ
  pub engagement_timeout_ticks : ℤ
  pub seeker_fov_deg : ℤ
  pub launch_angle_deg : ℤ

-- The member initialisers of ScenarioConfig.
abbrev pub default_scenario : ScenarioConfig
default_scenario = record {
  name = bytes "basic_intercept_training";
  description = bytes "representative single-scenario training flow";
  targets = pos 1;
  assets = pos 1;
  enable_replay = true;
  telemetry_interval_ms = pos 200;
  world_width = pos 2304;
  world_height = pos 1536;
  target_start_x = pos 480;
  target_start_y = pos 1200;
  target_velocity_x = pos 5;
  target_velocity_y = negsuc 2;
  interceptor_start_x = pos 0;
  interceptor_start_y = pos 0;
  interceptor_speed_per_tick = pos 32;
  intercept_radius = pos 24;
  engagement_timeout_ticks = pos 60;
  seeker_fov_deg = pos 45;
  launch_angle_deg = pos 45;
}
