-- ===== src/Transport/SocketLive/Soundness/Rounds.antt =====
-- Every call of the server keeps the invariant of the transport.
use inerceptor_command_sim.Base.{
  ℕ, inl, inr, Bool, true, List, [], ◌∷◌, ◌++◌, zero, Option-cases, suc, length, ◌==◌,
}
use inerceptor_command_sim.Base.Text.{Text, bytes}
use inerceptor_command_sim.Floats.{FloatOps}
use inerceptor_command_sim.Protocol.Frame.{try_decode_binary_frame}
use inerceptor_command_sim.Transport.SocketLive.State.{Clock, FrameFormat, SocketLive, Handled}
use inerceptor_command_sim.Transport.SocketLive.Sockets.{
  SendAnswer, flush_datagrams, flush_udp_datagrams,
}
use inerceptor_command_sim.Transport.SocketLive.Frames.{
  ReceiveAnswer, receive_bytes, cut_line, process_tcp_frame, process_tcp_wire, drain_lines,
  drain_frames, drain_as, drain, receive_tcp_messages,
}
use inerceptor_command_sim.Transport.SocketLive.Poll.{AcceptAnswer, accept_tcp_client}
use inerceptor_command_sim.Transport.SocketLive.Draining.{IsCase, taken_cases}
use inerceptor_command_sim.Transport.SocketLive.Kept.{
  IsKept, HoldsAfter, if-kept, next-kept, reject-kept,
}
use inerceptor_command_sim.Transport.SocketLive.Kept.Handlers.{ended-kept}
use inerceptor_command_sim.Transport.SocketLive.Kept.Frames.{
  process_tcp_frame-kept, process_tcp_wire-kept, caught-kept,
}
use inerceptor_command_sim.Transport.SocketLive.Soundness.{IsSound, IsSound-IsKept}

module _ {A : Type 0} (F : FloatOps A) where
  -- The changes of the queues and buffers.
  with_buffer : (b : Text) (t : SocketLive A) → IsSound t → IsSound (record t { tcp_buffer = b })
  with_buffer b t h = record { sent = h.sent; cursor = h.cursor; console = h.console }

  with_client :
      (b : Bool) (t : SocketLive A) → IsSound t → IsSound (record t { has_command_client = b })
  with_client b t h = record { sent = h.sent; cursor = h.cursor; console = h.console }

  pub accept-IsSound :
      (answers : List AcceptAnswer) (t : SocketLive A)
      → IsSound t
      → HoldsAfter IsSound (accept_tcp_client answers t)
  unfolding accept_tcp_client
  accept-IsSound [] t h = record { holds = h }
  accept-IsSound (AcceptAnswer.would_block ∷ answers) t h = record { holds = h }
  accept-IsSound (AcceptAnswer.error e ∷ answers) t h = record { holds = h }
  accept-IsSound (AcceptAnswer.blocking_connection ∷ answers) t h = record { holds = h }
  accept-IsSound (AcceptAnswer.connection ∷ answers) t h =
      let refused =
        reject-kept F IsSound (IsSound-IsKept F) (bytes "Connection rejected")
          (bytes "socket_live allows only one active fire control console connection") [] t h in
      let more = accept-IsSound answers _ refused in
      let fresh : HoldsAfter IsSound (Handled.done (record t { has_command_client = true })) =
        record { holds = with_client true t h } in
      search (if-kept (HoldsAfter IsSound))

  pub flush_udp-IsSound :
      (answers : List SendAnswer) (t : SocketLive A)
      → IsSound t
      → HoldsAfter IsSound (flush_udp_datagrams answers t)
  unfolding flush_udp_datagrams
  flush_udp-IsSound answers t h =
      let f = flush_datagrams answers t.pending_udp_messages in
      ended-kept F IsSound (IsSound-IsKept F) f.errors (record t { pending_udp_messages = f.left })
        (record { sent = h.sent; cursor = h.cursor; console = h.console })

  receive_bytes-IsSound :
      (answers : List ReceiveAnswer) (t : SocketLive A)
      → IsSound t
      → HoldsAfter IsSound (receive_bytes answers t)
  unfolding receive_bytes
  receive_bytes-IsSound [] t h = record { holds = h }
  receive_bytes-IsSound (ReceiveAnswer.would_block ∷ answers) t h = record { holds = h }
  receive_bytes-IsSound (ReceiveAnswer.error e ∷ answers) t h = record { holds = h }
  receive_bytes-IsSound (ReceiveAnswer.closed ∷ answers) t h = record {
    holds = (IsSound-IsKept F).left _ t h;
  }
  receive_bytes-IsSound (ReceiveAnswer.received d ∷ answers) t h =
      receive_bytes-IsSound answers _ (with_buffer (t.tcp_buffer ++ d) t h)

module _ {A : Type 0} (F : FloatOps A) (c : Clock) where
  law : IsKept F (IsSound {A = A})
  law = IsSound-IsKept F

  drain_lines-IsSound :
      (sends : ℕ → List SendAnswer) (fuel : ℕ) (t : SocketLive A)
      → IsSound t
      → HoldsAfter IsSound (drain_lines F c sends fuel t)
  unfolding drain_lines
  drain_lines-IsSound sends zero t h = record { holds = h }
  drain_lines-IsSound sends (suc fuel) t h = elim (Option-cases (cut_line t.tcp_buffer)) [
    | inl e ↦ rw (e, drain_lines) (record { holds = h })
    | inr ((wire, rest), e) ↦
        let t' = record t { tcp_buffer = rest } in
        let h' = with_buffer F rest t h in
        let done : HoldsAfter IsSound (Handled.done t') = record { holds = h' } in
        let processed =
          caught-kept F c IsSound law (process_tcp_wire F c sends wire t')
            (process_tcp_wire-kept F c IsSound law sends wire t' h') in
        rw (e, drain_lines)
          (next-kept IsSound _ _
            (if-kept (HoldsAfter IsSound) (length wire == 0) (Handled.done t') _ done processed)
            (drain_lines-IsSound sends fuel))
  ]

  drain_frames-IsSound :
      (sends : ℕ → List SendAnswer) (fuel : ℕ) (t : SocketLive A)
      → IsSound t
      → HoldsAfter IsSound (drain_frames F c sends fuel t)
  unfolding drain_frames
  drain_frames-IsSound sends zero t h = record { holds = h }
  drain_frames-IsSound sends (suc fuel) t h =
      elim (taken_cases (try_decode_binary_frame t.tcp_buffer)) [
        | IsCase.fails x e ↦ rw (e, drain_frames) (record { holds = h })
        | IsCase.wild e ↦ rw (e, drain_frames) (record { holds = tt })
        | IsCase.waits rest e ↦ rw (e, drain_frames) (record { holds = h })
        | IsCase.takes frame rest e ↦
            let t' = record t { tcp_buffer = rest } in
            let processed =
              caught-kept F c IsSound law (process_tcp_frame F c sends frame t')
                (process_tcp_frame-kept F c IsSound law sends frame t' (with_buffer F rest t h)) in
            rw (e, drain_frames) (next-kept IsSound _ _ processed (drain_frames-IsSound sends fuel))
      ]

  drain-IsSound :
      (sends : ℕ → List SendAnswer) (t : SocketLive A)
      → IsSound t
      → HoldsAfter IsSound (drain F c sends t)
  unfolding drain
  drain-IsSound sends t h =
      elim t.tcp_frame_format as (λ f. HoldsAfter IsSound (drain_as F c sends f t)) [
        | FrameFormat.json_line ↦ drain_lines-IsSound sends _ t h
        | FrameFormat.binary ↦ drain_frames-IsSound sends _ t h
      ]

  pub receive-IsSound :
      (sends : ℕ → List SendAnswer) (answers : List ReceiveAnswer) (t : SocketLive A)
      → IsSound t
      → HoldsAfter IsSound (receive_tcp_messages F c sends answers t)
  unfolding receive_tcp_messages
  receive-IsSound sends answers t h =
      let done : HoldsAfter IsSound (Handled.done t) = record { holds = h } in
      let read =
        next-kept IsSound _ _ (receive_bytes-IsSound F answers t h) (drain-IsSound sends) in
      search (if-kept (HoldsAfter IsSound))
