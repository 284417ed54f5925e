-- ===== src/Transport/SocketLive/Poll.antt =====
-- A round of polling: poll_once.
use inerceptor_command_sim.Base.{ℕ, List, [], ◌∷◌, ◌++◌, true, if◌then◌else◌}
use inerceptor_command_sim.Base.Text.{Text, bytes}
use inerceptor_command_sim.Floats.{FloatOps}
use inerceptor_command_sim.Core.Types.{ClientRole}
use inerceptor_command_sim.Transport.SocketLive.Delivery.{
  disconnect_station, timeout_station, tick, archive,
}
use inerceptor_command_sim.Transport.SocketLive.State.{
  Clock, SocketLive, Handled, ◌>=>◌, reject_payload,
}
use inerceptor_command_sim.Transport.SocketLive.Sockets.{
  SendAnswer, flush_tcp_writes, flush_udp_datagrams,
}
use inerceptor_command_sim.Transport.SocketLive.Frames.{ReceiveAnswer, receive_tcp_messages}
use inerceptor_command_sim.Transport.SocketLive.Viewer.{DatagramAnswer, receive_udp_datagrams}

-- An answer of ::accept: a connection, one whose socket cannot be made nonblocking, EAGAIN or
-- EWOULDBLOCK, or another error.
pub data AcceptAnswer : Type 0 where
  connection : AcceptAnswer
  blocking_connection : AcceptAnswer
  would_block : AcceptAnswer
  error : Text → AcceptAnswer

module _ {A : Type 0} where
  -- A second connection is closed at once, and the loop goes on.
  unfoldable pub accept_tcp_client : List AcceptAnswer → SocketLive A → Handled A
  accept_tcp_client [] t = Handled.done t
  accept_tcp_client (AcceptAnswer.would_block ∷ answers) t = Handled.done t
  accept_tcp_client (AcceptAnswer.error e ∷ answers) t =
      Handled.failed (bytes "tcp accept failed: " ++ e) t
  accept_tcp_client (AcceptAnswer.blocking_connection ∷ answers) t =
      Handled.failed (bytes "failed to set nonblocking socket") t
  accept_tcp_client (AcceptAnswer.connection ∷ answers) t =
      let refused =
        reject_payload (bytes "Connection rejected")
          (bytes "socket_live allows only one active fire control console connection") [] t in
      let more = accept_tcp_client answers refused.1 in
      if t.has_command_client then more else Handled.done (record t { has_command_client = true })

-- The answers of the operating system to the calls of one round. Those to a session_leave go by the
-- sequence number of its acknowledgement.
pub record Answers : Type 0 where
  pub accepts : List AcceptAnswer
  pub first_sends : List SendAnswer
  pub first_datagram_sends : List SendAnswer
  pub datagrams : List DatagramAnswer
  pub received : List ReceiveAnswer
  pub leave_sends : ℕ → List SendAnswer
  pub last_sends : List SendAnswer
  pub last_datagram_sends : List SendAnswer

module _ {A : Type 0} (F : FloatOps A) (c : Clock) where
  unfoldable pub poll_once : Answers → SocketLive A → Handled A
  poll_once a t =
      accept_tcp_client a.accepts t
      >=> flush_tcp_writes a.first_sends
      >=> flush_udp_datagrams a.first_datagram_sends
      >=> receive_udp_datagrams F c a.datagrams
      >=> receive_tcp_messages F c a.leave_sends a.received
      >=> flush_tcp_writes a.last_sends
      >=> flush_udp_datagrams a.last_datagram_sends

-- The calls of the server that change the state.
pub data ServerCall : Type 0 where
  polls : Clock → Answers → ServerCall
  ticks : Clock → ServerCall
  archives : Clock → ServerCall
  disconnects : ClientRole → Text → ServerCall
  times_out : Clock → ClientRole → Text → ServerCall

module _ {A : Type 0} (F : FloatOps A) where
  unfoldable pub serve : ServerCall → SocketLive A → Handled A
  serve (ServerCall.polls c a) t = poll_once F c a t
  serve (ServerCall.ticks c) t = Handled.done (tick F c t)
  serve (ServerCall.archives c) t = Handled.done (archive F c t)
  serve (ServerCall.disconnects role reason) t = Handled.done (disconnect_station role reason t)
  serve (ServerCall.times_out c role reason) t = Handled.done (timeout_station F c role reason t)

  -- The calls in their order: an exception ends the server.
  unfoldable pub serve_all : List ServerCall → SocketLive A → Handled A
  serve_all [] t = Handled.done t
  serve_all (call ∷ calls) t = serve call t >=> serve_all calls
