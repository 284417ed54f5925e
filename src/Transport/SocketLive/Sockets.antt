-- ===== src/Transport/SocketLive/Sockets.antt =====
-- The loops that send what is queued, over the answers of the operating system.
use inerceptor_command_sim.Base.{ℕ, List, [], ◌∷◌, ◌++◌, ◌==◌, if◌then◌else◌, length, take, drop}
use inerceptor_command_sim.Base.Text.{Text, bytes}
use inerceptor_command_sim.Transport.SocketLive.State.{PendingDatagram, SocketLive, Handled}

-- An answer of ::send or ::sendto: the bytes taken, EAGAIN or EWOULDBLOCK, or another error with its
-- text.
pub data SendAnswer : Type 0 where
  sent : ℕ → SendAnswer
  would_block : SendAnswer
  error : Text → SendAnswer

-- What a loop has handed over, what it leaves in the queue, and the errors that it throws (at most
-- one).
pub record Flushed (Q : Type 0) : Type 0 where
  pub taken : Text
  pub left : List Q
  pub errors : List Text

abbrev pub stop : {Q : Type 0} → List Q → Flushed Q
stop queue = record { taken = []; left = queue; errors = [] }

-- What follows a ::send that has taken the front of a line: the rest of the line, or the other lines.
abbrev pub after_send : Text → Text → List Text → Flushed Text → Flushed Text
after_send front [] queue more = record {
  taken = front ++ more.taken;
  left = more.left;
  errors = more.errors;
}
after_send front (c ∷ rest) queue more = record {
  taken = front;
  left = (c ∷ rest) ∷ queue;
  errors = [];
}

-- flush_tcp_writes over the answers of ::send; where no answer is left the socket would block.
unfoldable pub flush_lines : List SendAnswer → List Text → Flushed Text
flush_lines answers [] = stop []
flush_lines [] (line ∷ queue) = stop (line ∷ queue)
flush_lines (SendAnswer.would_block ∷ answers) (line ∷ queue) = stop (line ∷ queue)
flush_lines (SendAnswer.error e ∷ answers) (line ∷ queue) = record {
  taken = [];
  left = line ∷ queue;
  errors = (bytes "tcp send failed: " ++ e) ∷ [];
}
flush_lines (SendAnswer.sent n ∷ answers) (line ∷ queue) =
    after_send (take n line) (drop n line) queue (flush_lines answers queue)

-- flush_udp_datagrams: a datagram goes out whole, or not at all.
unfoldable pub flush_datagrams : List SendAnswer → List PendingDatagram → Flushed PendingDatagram
flush_datagrams answers [] = stop []
flush_datagrams [] (d ∷ queue) = stop (d ∷ queue)
flush_datagrams (SendAnswer.would_block ∷ answers) (d ∷ queue) = stop (d ∷ queue)
flush_datagrams (SendAnswer.error e ∷ answers) (d ∷ queue) = record {
  taken = [];
  left = d ∷ queue;
  errors = (bytes "udp sendto failed: " ++ e) ∷ [];
}
flush_datagrams (SendAnswer.sent n ∷ answers) (d ∷ queue) =
    let more = flush_datagrams answers queue in
    if n == length d.wire
    then record { taken = d.wire ++ more.taken; left = more.left; errors = more.errors }
    else record {
      taken = [];
      left = d ∷ queue;
      errors = bytes "udp datagram was only partially sent" ∷ [];
    }

abbrev pub ended : {A : Type 0} → List Text → SocketLive A → Handled A
ended [] t = Handled.done t
ended (e ∷ errors) t = Handled.failed e t

module _ {A : Type 0} where
  unfoldable pub flush_tcp_writes : List SendAnswer → SocketLive A → Handled A
  flush_tcp_writes answers t =
      let f = flush_lines answers t.pending_tcp_lines in
      if t.has_command_client
      then ended f.errors (record t { pending_tcp_lines = f.left })
      else Handled.done t

  unfoldable pub flush_udp_datagrams : List SendAnswer → SocketLive A → Handled A
  flush_udp_datagrams answers t =
      let f = flush_datagrams answers t.pending_udp_messages in
      ended f.errors (record t { pending_udp_messages = f.left })
