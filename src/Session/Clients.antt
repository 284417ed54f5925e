-- ===== src/Session/Clients.antt =====
-- common/src/simulation_clients.cpp: the two stations of a session.
use inerceptor_command_sim.Base.{ℕ, true, [], if◌then◌else◌}
use inerceptor_command_sim.Base.Text.{Text, bytes}
use inerceptor_command_sim.Floats.{FloatOps, float_zero}
use inerceptor_command_sim.Protocol.Messages.{EventType}
use inerceptor_command_sim.Core.Types.{
  ClientRole, ConnectionState, ClientState, client_role_to_string,
}
use inerceptor_command_sim.Session.State.{Session, push_event}
use inerceptor_command_sim.Session.Snapshots.{record_snapshot}

module _ {A : Type 0} where
  -- `client(role)`, read.
  abbrev pub client : ClientRole → Session A → ClientState
  client ClientRole.fire_control_console s = s.fire_control_console
  client ClientRole.tactical_display s = s.tactical_display

  -- `client(role)`, written through the reference.
  abbrev pub set_client : ClientRole → ClientState → Session A → Session A
  set_client ClientRole.fire_control_console c s = record s { fire_control_console = c }
  set_client ClientRole.tactical_display c s = record s { tactical_display = c }

  unfoldable pub connect_client : ClientRole → ℕ → Session A → Session A
  connect_client role sender_id s =
      let reconnecting = (client role s).has_connected_before in
      let state = record (client role s) {
        sender_id = sender_id;
        has_connected_before = true;
        connection =
            if reconnecting then ConnectionState.reconnected else ConnectionState.connected;
      } in
      let s' = set_client role state s in
      if reconnecting
      then push_event EventType.resilience_triggered (bytes "simulation_server") []
          (bytes "Reconnect/reacquire path exercised")
          (bytes "The baseline resilience case uses reconnect plus latest-snapshot convergence.")
          (push_event EventType.client_reconnected (client_role_to_string role) []
            (bytes "Station back on net")
            (bytes
              "The station resumed control-plane visibility and should rebuild the tactical picture on the next snapshot.")
            (record s' { reconnect_exercised = true }))
      else push_event EventType.client_joined (client_role_to_string role) []
          (bytes "Station on net") (bytes "The station registered before scenario activity.") s'

  unfoldable pub disconnect_client : ClientRole → Text → Session A → Session A
  disconnect_client role reason s =
      push_event EventType.client_left (client_role_to_string role) [] (bytes "Station off net")
        reason
        (set_client role (record (client role s) { connection = ConnectionState.disconnected }) s)

module _ {A : Type 0} (F : FloatOps A) where
  unfoldable pub timeout_client : ClientRole → Text → ℕ → Session A → Session A
  timeout_client role reason wall_time_ms s =
      let s' =
        set_client role (record (client role s) { connection = ConnectionState.timed_out }) s in
      record_snapshot F (float_zero F) wall_time_ms (
        push_event EventType.resilience_triggered (bytes "simulation_server") []
          (bytes "Client timeout exercised") reason (record s' { timeout_exercised = true }))
