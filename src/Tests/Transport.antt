-- ===== src/Tests/Transport.antt =====
-- The theorems on the transport and the replay cursor, on concrete data.
use inerceptor_command_sim.Base.{ℕ, ◌≡◌, ◌≤◌, ◌+◌, ◌⊎◌, refl, true, List, [], ◌∷◌, arith}
use inerceptor_command_sim.Base.Int.{ℤ, pos}
use inerceptor_command_sim.Base.Text.{bytes, text_eq}
use inerceptor_command_sim.Core.Types.{ClientRole, Snapshot}
use inerceptor_command_sim.Session.State.{new_session, push_event}
use inerceptor_command_sim.Session.Snapshots.{capture_snapshot, record_snapshot}
use inerceptor_command_sim.Session.Clients.{connect_client}
use inerceptor_command_sim.Session.Track.{clear_track_state, seed_track_state_from_target}
use inerceptor_command_sim.Session.Commands.{start_scenario, request_track}
use inerceptor_command_sim.Transport.Common.{
  IsNewest, latest_event_at_or_before_tick, latest_event-IsNewest, to_telemetry_payload,
  to_telemetry_payload-event_tick,
}
use inerceptor_command_sim.Transport.InProcess.{
  InProcessTransport, Request, Operation, target_id, new_transport, dispatch, operate, operate_all,
  connect, set_sender, validate_envelope, reject_payload,
}
use inerceptor_command_sim.Transport.InProcess.Routing.{IsRouted, is_addressed, dispatch-IsRouted}
use inerceptor_command_sim.Transport.InProcess.Senders.{IsAuthentic, dispatch-IsAuthentic}
use inerceptor_command_sim.View.ReplayCursor.{
  ReplayCursor, Move, make_replay_cursor, moves, step_forward, step_backward, IsOnEntry,
  moves-IsOnEntry, step_backward-step_forward,
}
use inerceptor_command_sim.Tests.Sample.{whole_numbers, short_scenario, ordered}

abbrev request : Request
request = Request.track_acquire (record {
  envelope = record { session_id = 1001; sender_id = 101; sequence = 3 };
  target_id = target_id;
})

abbrev operations : List (ℕ × Operation)
operations =
    (1, Operation.connects ClientRole.fire_control_console 101) ∷ (2, Operation.starts) ∷ []

abbrev transport : InProcessTransport ℤ
transport =
    operate_all whole_numbers operations (new_transport whole_numbers (pos 20) short_scenario)

dispatch-IsRouted_example :
    IsRouted whole_numbers
      (is_addressed request transport)
      3
      request
      transport
      (dispatch whole_numbers 3 request transport)
dispatch-IsRouted_example = dispatch-IsRouted whole_numbers 3 request transport

request_accepted : (dispatch whole_numbers 3 request transport).0.is_accepted ≡ true
unfolding dispatch operate_all operate new_transport connect set_sender validate_envelope
    reject_payload connect_client start_scenario request_track new_session push_event
    record_snapshot clear_track_state seed_track_state_from_target bytes text_eq
request_accepted = refl

dispatch-IsAuthentic_example : IsAuthentic whole_numbers request transport
dispatch-IsAuthentic_example =
    dispatch-IsAuthentic whole_numbers (pos 20) short_scenario operations 3 request request_accepted

latest_event-IsNewest_example :
    IsNewest ordered.events 0 (latest_event_at_or_before_tick ordered.events 0)
latest_event-IsNewest_example = latest_event-IsNewest ordered.events 0

abbrev snapshot : Snapshot ℤ
snapshot = capture_snapshot whole_numbers (pos 0) 9 ordered

to_telemetry_payload-event_tick_example :
    (to_telemetry_payload snapshot ordered.events).event_tick ≤ snapshot.header.tick
to_telemetry_payload-event_tick_example = to_telemetry_payload-event_tick snapshot ordered.events

moves-IsOnEntry_example :
    IsOnEntry 3 (moves (Move.forward ∷ Move.to 9 ∷ Move.backward ∷ []) (make_replay_cursor 3 1))
moves-IsOnEntry_example =
    moves-IsOnEntry 3 1 (Move.forward ∷ Move.to 9 ∷ Move.backward ∷ []) (omega arith)

abbrev cursor : ReplayCursor
cursor = record { index = 1; total = 3 }

step_backward-step_forward_example :
    ((cursor.index + 1 ≡ cursor.total) × (step_forward cursor ≡ cursor))
    ⊎ (step_backward (step_forward cursor) ≡ cursor)
step_backward-step_forward_example = step_backward-step_forward cursor (omega arith) (omega arith)
