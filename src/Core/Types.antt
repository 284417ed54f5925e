-- ===== src/Core/Types.antt =====
-- common/include/icss/core/types.hpp: the enumerations and structs of the simulation core, with
-- their labels. A float is a value of the type `A` of the float interface (Floats).
use inerceptor_command_sim.Base.{ℕ, Bool, true, false, List}
use inerceptor_command_sim.Base.Int.{ℤ}
use inerceptor_command_sim.Base.Text.{Text, bytes}
use inerceptor_command_sim.Protocol.Messages.{
  TcpMessageKind, EventRecordHeader, SessionEnvelope, SnapshotHeader, TelemetrySample, EventType,
}

-- kServerSenderId.
abbrev pub server_sender_id : ℕ
server_sender_id = 1

pub data ClientRole : Type 0 where
  fire_control_console tactical_display : ClientRole

pub data ConnectionState : Type 0 where
  disconnected connected reconnected timed_out : ConnectionState

pub data SessionPhase : Type 0 where
  standby detecting tracking interceptor_ready : SessionPhase
  engage_ordered intercepting assessed archived : SessionPhase

pub data InterceptorStatus : Type 0 where
  idle ready intercepting complete : InterceptorStatus

pub data EngageOrderStatus : Type 0 where
  unordered accepted executing completed rejected : EngageOrderStatus

pub data AssessmentCode : Type 0 where
  pending intercept_success invalid_transition timeout_observed : AssessmentCode

-- struct Vec2, and below struct Vec2f.
pub record Vec2 : Type 0 where
  pub x : ℤ
  pub y : ℤ

pub record Vec2f (A : Type 0) : Type 0 where
  pub x : A
  pub y : A

pub record EntityState : Type 0 where
  pub id : Text
  pub position : Vec2
  pub active : Bool

pub record ClientState : Type 0 where
  pub role : ClientRole
  pub connection : ConnectionState
  pub sender_id : ℕ
  pub has_connected_before : Bool

pub record TrackState (A : Type 0) : Type 0 where
  pub active : Bool
  pub estimated_position : Vec2f A
  pub estimated_velocity : Vec2f A
  pub measurement_position : Vec2f A
  pub measurement_valid : Bool
  pub measurement_residual_distance : A
  pub covariance_trace : A
  pub measurement_age_ticks : ℕ
  pub missed_updates : ℕ

pub record AssessmentState : Type 0 where
  pub is_ready : Bool
  pub code : AssessmentCode
  pub summary : Text

pub record CommandResult : Type 0 where
  pub is_accepted : Bool
  pub reason : Text
  pub ack_kind : TcpMessageKind

pub record Snapshot (A : Type 0) : Type 0 where
  pub envelope : SessionEnvelope
  pub header : SnapshotHeader
  pub phase : SessionPhase
  pub world_width : ℤ
  pub world_height : ℤ
  pub target : EntityState
  pub interceptor : EntityState
  pub target_world_position : Vec2f A
  pub interceptor_world_position : Vec2f A
  pub target_velocity_x : ℤ
  pub target_velocity_y : ℤ
  pub target_velocity : Vec2f A
  pub interceptor_velocity : Vec2f A
  pub target_heading_deg : A
  pub interceptor_heading_deg : A
  pub interceptor_speed_per_tick : ℤ
  pub interceptor_acceleration_per_tick : A
  pub intercept_radius : ℤ
  pub engagement_timeout_ticks : ℤ
  pub seeker_fov_deg : A
  pub seeker_lock : Bool
  pub off_boresight_deg : A
  pub predicted_intercept_valid : Bool
  pub predicted_intercept_position : Vec2f A
  pub time_to_intercept_s : A
  pub track : TrackState A
  pub interceptor_status : InterceptorStatus
  pub engage_order_status : EngageOrderStatus
  pub assessment : AssessmentState
  pub display_connection : ConnectionState
  pub telemetry : TelemetrySample A
  pub launch_angle_deg : A

pub record EventRecord : Type 0 where
  pub header : EventRecordHeader
  pub source : Text
  pub entity_ids : List Text
  pub summary : Text
  pub details : Text

pub record SessionSummary : Type 0 where
  pub session_id : ℕ
  pub phase : SessionPhase
  pub snapshot_count : ℕ
  pub event_count : ℕ
  pub fire_control_console_connection : ConnectionState
  pub display_connection : ConnectionState
  pub assessment_ready : Bool
  pub assessment_code : AssessmentCode
  pub has_last_event : Bool
  pub last_event_type : EventType
  pub resilience_case : Text

-- to_string(ClientRole).
unfoldable pub client_role_to_string : ClientRole → Text
client_role_to_string ClientRole.fire_control_console = bytes "fire_control_console"
client_role_to_string ClientRole.tactical_display = bytes "tactical_display"

-- to_string(ConnectionState).
unfoldable pub connection_state_to_string : ConnectionState → Text
connection_state_to_string ConnectionState.disconnected = bytes "disconnected"
connection_state_to_string ConnectionState.connected = bytes "connected"
connection_state_to_string ConnectionState.reconnected = bytes "reconnected"
connection_state_to_string ConnectionState.timed_out = bytes "timed_out"

-- to_string(SessionPhase).
unfoldable pub session_phase_to_string : SessionPhase → Text
session_phase_to_string SessionPhase.standby = bytes "standby"
session_phase_to_string SessionPhase.detecting = bytes "detecting"
session_phase_to_string SessionPhase.tracking = bytes "tracking"
session_phase_to_string SessionPhase.interceptor_ready = bytes "interceptor_ready"
session_phase_to_string SessionPhase.engage_ordered = bytes "engage_ordered"
session_phase_to_string SessionPhase.intercepting = bytes "intercepting"
session_phase_to_string SessionPhase.assessed = bytes "assessed"
session_phase_to_string SessionPhase.archived = bytes "archived"

-- to_string(InterceptorStatus).
unfoldable pub interceptor_status_to_string : InterceptorStatus → Text
interceptor_status_to_string InterceptorStatus.idle = bytes "idle"
interceptor_status_to_string InterceptorStatus.ready = bytes "ready"
interceptor_status_to_string InterceptorStatus.intercepting = bytes "intercepting"
interceptor_status_to_string InterceptorStatus.complete = bytes "complete"

-- to_string(EngageOrderStatus).
unfoldable pub engage_order_status_to_string : EngageOrderStatus → Text
engage_order_status_to_string EngageOrderStatus.unordered = bytes "none"
engage_order_status_to_string EngageOrderStatus.accepted = bytes "accepted"
engage_order_status_to_string EngageOrderStatus.executing = bytes "executing"
engage_order_status_to_string EngageOrderStatus.completed = bytes "completed"
engage_order_status_to_string EngageOrderStatus.rejected = bytes "rejected"

-- to_string(AssessmentCode).
unfoldable pub assessment_code_to_string : AssessmentCode → Text
assessment_code_to_string AssessmentCode.pending = bytes "pending"
assessment_code_to_string AssessmentCode.intercept_success = bytes "intercept_success"
assessment_code_to_string AssessmentCode.invalid_transition = bytes "invalid_transition"
assessment_code_to_string AssessmentCode.timeout_observed = bytes "timeout_observed"

-- The comparisons that the guards make.
abbrev pub is_disconnected : ConnectionState → Bool
is_disconnected c = elim c [ ConnectionState.disconnected ↦ true | _ ↦ false ]

abbrev pub is_reconnected : ConnectionState → Bool
is_reconnected c = elim c [ ConnectionState.reconnected ↦ true | _ ↦ false ]

abbrev pub is_timed_out : ConnectionState → Bool
is_timed_out c = elim c [ ConnectionState.timed_out ↦ true | _ ↦ false ]

abbrev pub is_standby : SessionPhase → Bool
is_standby p = elim p [ SessionPhase.standby ↦ true | _ ↦ false ]

abbrev pub is_detecting : SessionPhase → Bool
is_detecting p = elim p [ SessionPhase.detecting ↦ true | _ ↦ false ]

abbrev pub is_tracking : SessionPhase → Bool
is_tracking p = elim p [ SessionPhase.tracking ↦ true | _ ↦ false ]

abbrev pub is_interceptor_ready : SessionPhase → Bool
is_interceptor_ready p = elim p [ SessionPhase.interceptor_ready ↦ true | _ ↦ false ]

abbrev pub is_engage_ordered : SessionPhase → Bool
is_engage_ordered p = elim p [ SessionPhase.engage_ordered ↦ true | _ ↦ false ]

abbrev pub is_intercepting : SessionPhase → Bool
is_intercepting p = elim p [ SessionPhase.intercepting ↦ true | _ ↦ false ]

abbrev pub is_assessed : SessionPhase → Bool
is_assessed p = elim p [ SessionPhase.assessed ↦ true | _ ↦ false ]

abbrev pub is_archived : SessionPhase → Bool
is_archived p = elim p [ SessionPhase.archived ↦ true | _ ↦ false ]

abbrev pub is_ready_status : InterceptorStatus → Bool
is_ready_status i = elim i [ InterceptorStatus.ready ↦ true | _ ↦ false ]

abbrev pub is_accepted_order : EngageOrderStatus → Bool
is_accepted_order e = elim e [ EngageOrderStatus.accepted ↦ true | _ ↦ false ]

abbrev pub is_executing_order : EngageOrderStatus → Bool
is_executing_order e = elim e [ EngageOrderStatus.executing ↦ true | _ ↦ false ]

abbrev pub is_completed_order : EngageOrderStatus → Bool
is_completed_order e = elim e [ EngageOrderStatus.completed ↦ true | _ ↦ false ]
