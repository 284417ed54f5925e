-- ===== src/Protocol/Messages.antt =====
-- common/include/icss/protocol/messages.hpp: message kinds, envelopes, headers and their labels.
use inerceptor_command_sim.Base.{ℕ}
use inerceptor_command_sim.Base.Text.{Text, bytes}

pub data TcpMessageKind : Type 0 where
  session_create session_join session_leave : TcpMessageKind
  scenario_start scenario_stop scenario_reset : TcpMessageKind
  track_acquire track_drop interceptor_ready engage_order : TcpMessageKind
  command_ack assessment_event aar_request aar_response : TcpMessageKind

pub data EventType : Type 0 where
  session_started session_ended : EventType
  client_joined client_left client_reconnected : EventType
  track_updated interceptor_updated : EventType
  engage_order_accepted engage_order_rejected : EventType
  assessment_produced resilience_triggered : EventType

-- `session_id` and `sender_id` are uint32_t, `sequence` is uint64_t.
pub record SessionEnvelope : Type 0 where
  pub session_id : ℕ
  pub sender_id : ℕ
  pub sequence : ℕ

pub record SnapshotHeader : Type 0 where
  pub tick : ℕ
  pub timestamp_ms : ℕ
  pub snapshot_sequence : ℕ
  pub capture_wall_time_ms : ℕ

-- `packet_loss_pct` is a float, of the type `A` of the float interface.
pub record TelemetrySample (A : Type 0) : Type 0 where
  pub tick : ℕ
  pub tick_interval_ms : ℕ
  pub packet_loss_pct : A
  pub last_snapshot_timestamp_ms : ℕ
  pub last_snapshot_wall_time_ms : ℕ

pub record EventRecordHeader : Type 0 where
  pub tick : ℕ
  pub timestamp_ms : ℕ
  pub event_type : EventType

-- to_string(TcpMessageKind).
unfoldable pub tcp_message_kind_to_string : TcpMessageKind → Text
tcp_message_kind_to_string TcpMessageKind.session_create = bytes "session_create"
tcp_message_kind_to_string TcpMessageKind.session_join = bytes "session_join"
tcp_message_kind_to_string TcpMessageKind.session_leave = bytes "session_leave"
tcp_message_kind_to_string TcpMessageKind.scenario_start = bytes "scenario_start"
tcp_message_kind_to_string TcpMessageKind.scenario_stop = bytes "scenario_stop"
tcp_message_kind_to_string TcpMessageKind.scenario_reset = bytes "scenario_reset"
tcp_message_kind_to_string TcpMessageKind.track_acquire = bytes "track_acquire"
tcp_message_kind_to_string TcpMessageKind.track_drop = bytes "track_drop"
tcp_message_kind_to_string TcpMessageKind.interceptor_ready = bytes "interceptor_ready"
tcp_message_kind_to_string TcpMessageKind.engage_order = bytes "engage_order"
tcp_message_kind_to_string TcpMessageKind.command_ack = bytes "command_ack"
tcp_message_kind_to_string TcpMessageKind.assessment_event = bytes "assessment_event"
tcp_message_kind_to_string TcpMessageKind.aar_request = bytes "aar_request"
tcp_message_kind_to_string TcpMessageKind.aar_response = bytes "aar_response"

-- to_string(EventType).
unfoldable pub event_type_to_string : EventType → Text
event_type_to_string EventType.session_started = bytes "session_started"
event_type_to_string EventType.session_ended = bytes "session_ended"
event_type_to_string EventType.client_joined = bytes "client_joined"
event_type_to_string EventType.client_left = bytes "client_left"
event_type_to_string EventType.client_reconnected = bytes "client_reconnected"
event_type_to_string EventType.track_updated = bytes "track_updated"
event_type_to_string EventType.interceptor_updated = bytes "interceptor_updated"
event_type_to_string EventType.engage_order_accepted = bytes "engage_order_accepted"
event_type_to_string EventType.engage_order_rejected = bytes "engage_order_rejected"
event_type_to_string EventType.assessment_produced = bytes "assessment_produced"
event_type_to_string EventType.resilience_triggered = bytes "resilience_triggered"
