-- ===== src/Session/State.antt =====
-- The state of SimulationSession (simulation.hpp), its construction, its event and snapshot logs
-- (simulation_state.cpp, simulation_snapshot.cpp). `A` is the float type; ticks, sequence numbers
-- and timestamps are uint64_t and wrap. The vectors are lists, oldest entry first.
use inerceptor_command_sim.Base.{
  ℕ, ◌/◌, Bool, false, List, [], ◌∷◌, ◌++◌, Option, none, max, if◌then◌else◌, get_last?,
}
use inerceptor_command_sim.Base.Word.{add64}
use inerceptor_command_sim.Base.Int.{ℤ, pos_part, to_u64}
use inerceptor_command_sim.Base.Text.{Text, bytes}
use inerceptor_command_sim.Floats.{FloatOps, float_zero}
use inerceptor_command_sim.Protocol.Messages.{TcpMessageKind, EventType}
use inerceptor_command_sim.Core.Config.{ScenarioConfig}
use inerceptor_command_sim.Core.Types.{
  ClientRole, ConnectionState, SessionPhase, InterceptorStatus, EngageOrderStatus, AssessmentCode,
  Vec2f, EntityState, ClientState, TrackState, AssessmentState, CommandResult, Snapshot,
  EventRecord,
}
use inerceptor_command_sim.Session.Geometry.{zero_vec}

pub record Session (A : Type 0) : Type 0 where
  pub session_id : ℕ
  pub phase : SessionPhase
  pub tick : ℕ
  pub sequence : ℕ
  pub clock_ms : ℕ
  pub tick_rate_hz : ℤ
  pub telemetry_interval_ms : ℤ
  pub scenario : ScenarioConfig
  pub target : EntityState
  pub asset : EntityState
  pub fire_control_console : ClientState
  pub tactical_display : ClientState
  pub track : TrackState A
  pub interceptor_status : InterceptorStatus
  pub engage_order_status : EngageOrderStatus
  pub assessment : AssessmentState
  pub reconnect_exercised : Bool
  pub timeout_exercised : Bool
  pub packet_gap_exercised : Bool
  pub engagement_started_tick : Option ℕ
  pub track_estimate_world : Vec2f A
  pub track_estimate_velocity : Vec2f A
  pub track_measurement_world : Vec2f A
  pub track_position_variance : Vec2f A
  pub track_velocity_variance : Vec2f A
  pub track_measurement_valid : Bool
  pub track_measurement_age_ticks : ℕ
  pub track_missed_updates : ℕ
  pub target_world : Vec2f A
  pub asset_world : Vec2f A
  pub target_velocity_world : Vec2f A
  pub interceptor_velocity_world : Vec2f A
  pub seeker_lock : Bool
  pub off_boresight_deg : A
  pub events : List EventRecord
  pub snapshots : List (Snapshot A)

-- A value-initialised AssessmentState.
abbrev pub no_assessment : AssessmentState
no_assessment = record { is_ready = false; code = AssessmentCode.pending; summary = [] }

abbrev new_client : ClientRole → ClientState
new_client r = record {
  role = r;
  connection = ConnectionState.disconnected;
  sender_id = 0;
  has_connected_before = false;
}

abbrev pub target_at_start : ScenarioConfig → EntityState
target_at_start c = record {
  id = bytes "target-alpha";
  position = record { x = c.target_start_x; y = c.target_start_y };
  active = false;
}

abbrev pub asset_at_start : ScenarioConfig → EntityState
asset_at_start c = record {
  id = bytes "interceptor-alpha";
  position = record { x = c.interceptor_start_x; y = c.interceptor_start_y };
  active = false;
}

module _ {A : Type 0} (F : FloatOps A) where
  -- A value-initialised TrackState.
  abbrev pub no_track : TrackState A
  no_track = record {
    active = false;
    estimated_position = zero_vec F;
    estimated_velocity = zero_vec F;
    measurement_position = zero_vec F;
    measurement_valid = false;
    measurement_residual_distance = float_zero F;
    covariance_trace = float_zero F;
    measurement_age_ticks = 0;
    missed_updates = 0;
  }

  -- The constructor, with the member initialisers of the class.
  unfoldable pub new_session : ℕ → ℤ → ℤ → ScenarioConfig → Session A
  new_session id rate interval c = record {
    session_id = id;
    phase = SessionPhase.standby;
    tick = 0;
    sequence = 0;
    clock_ms = 1776327000000;
    tick_rate_hz = rate;
    telemetry_interval_ms = interval;
    scenario = c;
    target = target_at_start c;
    asset = asset_at_start c;
    fire_control_console = new_client ClientRole.fire_control_console;
    tactical_display = new_client ClientRole.tactical_display;
    track = no_track;
    interceptor_status = InterceptorStatus.idle;
    engage_order_status = EngageOrderStatus.unordered;
    assessment = no_assessment;
    reconnect_exercised = false;
    timeout_exercised = false;
    packet_gap_exercised = false;
    engagement_started_tick = none;
    track_estimate_world = zero_vec F;
    track_estimate_velocity = zero_vec F;
    track_measurement_world = zero_vec F;
    track_position_variance = zero_vec F;
    track_velocity_variance = zero_vec F;
    track_measurement_valid = false;
    track_measurement_age_ticks = 0;
    track_missed_updates = 0;
    target_world = record { x = F.of_int c.target_start_x; y = F.of_int c.target_start_y };
    asset_world = record { x = F.of_int c.interceptor_start_x; y = F.of_int c.interceptor_start_y };
    target_velocity_world = record {
      x = F.of_int c.target_velocity_x;
      y = F.of_int c.target_velocity_y;
    };
    interceptor_velocity_world = zero_vec F;
    seeker_lock = false;
    off_boresight_deg = float_zero F;
    events = [];
    snapshots = [];
  }

module _ {A : Type 0} where
  -- `clock_ms_ += static_cast<std::uint64_t>(telemetry_interval_ms_)`: the new clock.
  unfoldable pub next_timestamp_ms : Session A → ℕ
  next_timestamp_ms s = add64 s.clock_ms (to_u64 s.telemetry_interval_ms)

  -- The event that push_event stores.
  abbrev pub new_event : EventType → Text → List Text → Text → Text → Session A → EventRecord
  new_event type source entity_ids summary details s = record {
    header = record { tick = s.tick; timestamp_ms = next_timestamp_ms s; event_type = type };
    source = source;
    entity_ids = entity_ids;
    summary = summary;
    details = details;
  }

  unfoldable pub push_event : EventType → Text → List Text → Text → Text → Session A → Session A
  push_event type source entity_ids summary details s = record s {
    clock_ms = next_timestamp_ms s;
    events = s.events ++ new_event type source entity_ids summary details s ∷ [];
  }

  -- A command that the session refuses: an event, and unless an assessment is ready the order
  -- status and the assessment are overwritten.
  unfoldable pub reject_command : Text → Text → List Text → Session A → CommandResult × Session A
  reject_command summary reason entity_ids s =
      let s' =
        push_event EventType.engage_order_rejected (bytes "simulation_server") entity_ids summary
          reason s in
      (
        record { is_accepted = false; reason = reason; ack_kind = TcpMessageKind.command_ack },
        if s'.assessment.is_ready then s' else record s' {
          engage_order_status = EngageOrderStatus.rejected;
          assessment = record s'.assessment {
            code = AssessmentCode.invalid_transition;
            summary = reason;
          };
        },
      )

  -- `throw` on an empty vector is `none`.
  unfoldable pub latest_snapshot : Session A → Option (Snapshot A)
  latest_snapshot s = get_last? s.snapshots

-- max(1, 1000 / max(1, rate)) of ints; a negative rate counts as 1.
unfoldable pub tick_interval_ms_for_rate : ℤ → ℕ
tick_interval_ms_for_rate rate = max 1 (1000 / max 1 (pos_part rate))
