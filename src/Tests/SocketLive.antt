-- ===== src/Tests/SocketLive.antt =====
-- The theorems on the transport on sockets, on concrete data.
use inerceptor_command_sim.Base.{
  take, drop, take-drop, ℕ, ◌≡◌, ◌++◌, ◌≤◌, refl, true, false, none, some, List, [], ◌∷◌, map,
  arith, length,
}
use mathlib.Core.List.{append-nil}
use inerceptor_command_sim.Base.Int.{ℤ}
use inerceptor_command_sim.Base.Text.{Text, bytes}
use inerceptor_command_sim.Core.Types.{ClientRole}
use inerceptor_command_sim.Core.Validation.{RuntimeConfig}
use inerceptor_command_sim.Protocol.Payloads.Review.{AarRequestPayload, DisplayHeartbeatPayload}
use inerceptor_command_sim.Session.State.{new_session, push_event}
use inerceptor_command_sim.Session.Snapshots.{record_snapshot}
use inerceptor_command_sim.Session.Track.{clear_track_state, seed_track_state_from_target}
use inerceptor_command_sim.Session.Commands.{
  start_scenario, request_track, activate_asset, issue_command,
}
use inerceptor_command_sim.Session.Run.{step}
use inerceptor_command_sim.Session.Clients.{connect_client}
use inerceptor_command_sim.Protocol.Payloads.Fieldwise.{is_clean}
use inerceptor_command_sim.Transport.InProcess.{Request, target_id}
use inerceptor_command_sim.Transport.SocketLive.State.{
  Endpoint, Clock, FrameFormat, SocketLive, Handled, first_state, frame_bytes,
}
use inerceptor_command_sim.Transport.SocketLive.Sockets.{SendAnswer, flush_lines}
use inerceptor_command_sim.Transport.SocketLive.Delivery.{timeout_station, disconnect_station}
use inerceptor_command_sim.Transport.SocketLive.Replay.{handle_aar_request}
use inerceptor_command_sim.Transport.SocketLive.Frames.{
  ReceiveAnswer, process_tcp_frame, drain, receive_tcp_messages,
}
use inerceptor_command_sim.Transport.SocketLive.Viewer.{handle_heartbeat}
use inerceptor_command_sim.Transport.SocketLive.Poll.{ServerCall, serve, serve_all}
use inerceptor_command_sim.Transport.SocketLive.Stream.{stream, flush_lines-IsSplit}
use inerceptor_command_sim.Transport.SocketLive.Batches.{
  sent_to, waiting, send_often, send_often_delivers,
}
use inerceptor_command_sim.Transport.SocketLive.Faults.{
  malformed, receive_tcp_messages-malformed, receive_tcp_messages-closed,
}
use inerceptor_command_sim.Transport.SocketLive.Kept.{HoldsAfter}
use inerceptor_command_sim.Transport.SocketLive.Draining.{IsDrained, drain-IsDrained}
use inerceptor_command_sim.Transport.SocketLive.Soundness.{IsSound}
use inerceptor_command_sim.Transport.SocketLive.Soundness.Calls.{serve_all-IsSound}
use inerceptor_command_sim.Transport.SocketLive.Soundness.Reviews.{handle_aar_request_defined}
use inerceptor_command_sim.Transport.SocketLive.Requests.{
  frame_of, is_addressed, IsServed, process_tcp_frame-IsServed,
}
use inerceptor_command_sim.Transport.SocketLive.Requests.Received.{receive_tcp_messages-IsServed}
use inerceptor_command_sim.Transport.SocketLive.Ghosts.{handle_heartbeat-timed_out}
use inerceptor_command_sim.Tests.Protocol.{envelope, envelope-IsEnvelope, clean}
use inerceptor_command_sim.Tests.Config.{config}
use inerceptor_command_sim.Tests.Sample.{whole_numbers, ordered}

abbrev now : Clock
now = record { wall_time_ms = 50; later_wall_time_ms = 51; steady_ns = 900 }

abbrev desk : Endpoint
desk = record { family = 2; port = 4100; address = 7 }

-- A configuration whose viewer is to be sent every snapshot, two in a batch.
abbrev every_snapshot : RuntimeConfig
every_snapshot = record config { server = record config.server { udp_send_latest_only = false } }

-- A session in its fire order, with a console and a viewer that has been sent nothing.
abbrev live : SocketLive ℤ
live = record (first_state whole_numbers every_snapshot FrameFormat.binary) {
  session = ordered;
  has_command_client = true;
  command_sender_id = 101;
  viewer_endpoint = some desk;
  viewer_sender_id = 201;
  last_display_heartbeat_at = some 5;
}

abbrev calls : List ServerCall
calls =
    ServerCall.ticks now
    ∷ ServerCall.archives now
    ∷ ServerCall.times_out now ClientRole.tactical_display (bytes "gone")
    ∷ ServerCall.disconnects ClientRole.fire_control_console (bytes "left")
    ∷ []

serve_all-IsSound_example :
    HoldsAfter IsSound
      (serve_all whole_numbers calls (first_state whole_numbers config FrameFormat.binary))
serve_all-IsSound_example = serve_all-IsSound whole_numbers config FrameFormat.binary calls

abbrev review : AarRequestPayload
review = record { envelope = envelope; replay_cursor_index = 9; control = bytes "absolute" }

abbrev few_calls : List ServerCall
few_calls = ServerCall.disconnects ClientRole.tactical_display [] ∷ []

handle_aar_request_defined_example :
    (u : SocketLive ℤ) × (handle_aar_request review (
        disconnect_station ClientRole.tactical_display []
          (first_state whole_numbers config FrameFormat.binary))
      ≡ Handled.done u)
unfolding serve_all serve
handle_aar_request_defined_example =
    handle_aar_request_defined whole_numbers config FrameFormat.binary few_calls
      (disconnect_station ClientRole.tactical_display []
        (first_state whole_numbers config FrameFormat.binary))
      review refl

abbrev no_answers : ℕ → List SendAnswer
no_answers n = []

abbrev request : Request
request = Request.track_acquire (record { envelope = envelope; target_id = target_id })

process_tcp_frame-IsServed_example :
    IsServed whole_numbers now
      (is_addressed request live)
      request
      live
      (process_tcp_frame whole_numbers now no_answers (frame_of request) live)
unfolding bytes is_clean
process_tcp_frame-IsServed_example =
    process_tcp_frame-IsServed whole_numbers now no_answers request live
      (envelope-IsEnvelope, clean target_id refl)

-- The same transport on JSON lines, and a request that comes in two parts.
abbrev on_lines : SocketLive ℤ
on_lines = record live { tcp_frame_format = FrameFormat.json_line }

abbrev line : Text
line = frame_bytes FrameFormat.json_line (frame_of request).kind (frame_of request).payload

abbrev parts : List Text
parts = take 9 line ∷ drop 9 line ∷ []

receive_tcp_messages-IsServed_example :
    (u : SocketLive ℤ) × (receive_tcp_messages whole_numbers now no_answers
        (map ReceiveAnswer.received parts)
        on_lines
      ≡ Handled.done u)
    × (u.tcp_buffer ≡ [])
    × IsServed whole_numbers now
        (is_addressed request on_lines)
        request
        (record on_lines { tcp_buffer = [] })
        (Handled.done u)
unfolding bytes is_clean first_state
receive_tcp_messages-IsServed_example =
    receive_tcp_messages-IsServed whole_numbers now no_answers request parts on_lines
      (envelope-IsEnvelope, clean target_id refl) tt refl (rw append-nil (take-drop 9 line))

-- The frame of an unknown kind, and the start of another.
abbrev filled : SocketLive ℤ
filled = record live { tcp_buffer = 0 ∷ 0 ∷ 0 ∷ 1 ∷ 9 ∷ 0 ∷ 0 ∷ 0 ∷ 0 ∷ 0 ∷ 0 ∷ [] }

drain-IsDrained_example :
    IsDrained filled.tcp_frame_format (drain whole_numbers now no_answers filled)
drain-IsDrained_example = drain-IsDrained whole_numbers now no_answers filled

live_waits : length (waiting whole_numbers desk live) ≤ 5
unfolding first_state connect_client start_scenario request_track activate_asset issue_command
    new_session push_event record_snapshot clear_track_state seed_track_state_from_target step
live_waits = omega arith

send_often_delivers_example :
    send_often whole_numbers desk 5 live
    ≡ sent_to whole_numbers desk (waiting whole_numbers desk live) live
unfolding first_state
send_often_delivers_example = send_often_delivers whole_numbers desk 5 live refl refl live_waits

flush_lines-IsSplit_example :
    let f =
      flush_lines (SendAnswer.sent 2 ∷ SendAnswer.sent 1 ∷ []) ((1 ∷ 2 ∷ []) ∷ (3 ∷ 4 ∷ []) ∷ []) in
    f.taken ++ stream f.left ≡ 1 ∷ 2 ∷ 3 ∷ 4 ∷ []
flush_lines-IsSplit_example =
    flush_lines-IsSplit (SendAnswer.sent 2 ∷ SendAnswer.sent 1 ∷ [])
      ((1 ∷ 2 ∷ []) ∷ (3 ∷ 4 ∷ []) ∷ [])

receive_tcp_messages-malformed_example :
    receive_tcp_messages whole_numbers now no_answers
      (map ReceiveAnswer.received (malformed [] ∷ (1 ∷ 2 ∷ 3 ∷ 4 ∷ []) ∷ []))
      live
    ≡ Handled.failed
        (bytes "binary frame too short")
        (record live { tcp_buffer = malformed (1 ∷ 2 ∷ 3 ∷ 4 ∷ []) })
unfolding first_state
receive_tcp_messages-malformed_example =
    receive_tcp_messages-malformed whole_numbers now no_answers
      (malformed [] ∷ (1 ∷ 2 ∷ 3 ∷ 4 ∷ []) ∷ []) (1 ∷ 2 ∷ 3 ∷ 4 ∷ []) live refl refl refl
      (omega arith)

receive_tcp_messages-closed_example :
    receive_tcp_messages whole_numbers now no_answers
      (map ReceiveAnswer.received ((1 ∷ []) ∷ []) ++ ReceiveAnswer.closed ∷ [])
      live
    ≡ receive_tcp_messages whole_numbers now no_answers (ReceiveAnswer.closed ∷ []) live
receive_tcp_messages-closed_example =
    receive_tcp_messages-closed whole_numbers now no_answers ((1 ∷ []) ∷ []) live

abbrev ghost : DisplayHeartbeatPayload
ghost = record {
  envelope = record { session_id = 1001; sender_id = 0; sequence = 1 };
  heartbeat_id = 4;
  client_send_wall_time_ms = 40;
}

handle_heartbeat-timed_out_example :
    let gone = timeout_station whole_numbers now ClientRole.tactical_display [] live in
    (gone.viewer_endpoint ≡ none)
    × ((handle_heartbeat whole_numbers now ghost desk gone).session
        ≡ connect_client ClientRole.tactical_display 0 gone.session)
handle_heartbeat-timed_out_example =
    handle_heartbeat-timed_out whole_numbers now now [] ghost desk live refl refl
