-- ===== src/Transport/SocketLive/Kept/Frames.antt =====
-- A frame keeps a predicate that has the laws.
use inerceptor_command_sim.Base.{ℕ, List, [], ◌∷◌, ◌++◌, none, some, get_elem?}
use inerceptor_command_sim.Base.Result.{Result, ok, throws}
use inerceptor_command_sim.Base.Text.{Text, bytes}
use inerceptor_command_sim.Floats.{FloatOps}
use inerceptor_command_sim.Core.Types.{EventRecord}
use inerceptor_command_sim.Protocol.Messages.{SessionEnvelope}
use inerceptor_command_sim.Protocol.Frame.{FramedMessage}
use inerceptor_command_sim.Protocol.Payloads.Sessions.{
  parse_session_join, parse_session_leave, parse_scenario_stop, parse_scenario_reset,
}
use inerceptor_command_sim.Protocol.Payloads.Scenario.{parse_scenario_start}
use inerceptor_command_sim.Protocol.Payloads.Commands.{
  parse_track_acquire, parse_track_drop, parse_interceptor_ready, parse_engage_order,
}
use inerceptor_command_sim.Protocol.Payloads.Review.{AarRequestPayload, parse_aar_request}
use inerceptor_command_sim.Protocol.Frame.Json.{decode_json_frame}
use inerceptor_command_sim.Transport.SocketLive.State.{Clock, SocketLive, Handled, queue_tcp_frame}
use inerceptor_command_sim.Transport.SocketLive.Sockets.{SendAnswer}
use inerceptor_command_sim.Transport.SocketLive.Console.{
  handle_session_join, handle_session_leave, handle_scenario_start, handle_scenario_stop,
  handle_scenario_reset, handle_track_acquire, handle_track_drop, handle_interceptor_ready,
  handle_engage_order,
}
use inerceptor_command_sim.Transport.SocketLive.Replay.{
  AarResolution, queue_aar_response, about_event, about_log, send_aar_response, handle_aar_request,
  resolve_replay_cursor,
}
use inerceptor_command_sim.Transport.SocketLive.Frames.{
  review_of, process_aar_request, process_tcp_frame, process_tcp_wire, caught,
}
use inerceptor_command_sim.Transport.SocketLive.Kept.{
  IsKept, HoldsAfter, if-kept, payload-kept, reject-kept, queue_ack-kept, valid-kept,
}
use inerceptor_command_sim.Transport.SocketLive.Kept.Handlers.{
  handle_session_join-kept, handle_session_leave-kept, handle_scenario_start-kept,
  handle_scenario_stop-kept, handle_scenario_reset-kept, handle_track_acquire-kept,
  handle_track_drop-kept, handle_interceptor_ready-kept, handle_engage_order-kept,
}

module _ {A : Type 0} (F : FloatOps A) (c : Clock) (P : SocketLive A → Type 0)
    (law : IsKept F P) where
  response-kept :
      (e : SessionEnvelope) (r : AarResolution) (kind summary : Text) (t : SocketLive A)
      → P t
      → HoldsAfter P (Handled.done (queue_aar_response e r kind summary t))
  unfolding queue_aar_response queue_tcp_frame
  response-kept e r kind summary t h = record { holds = law.queued _ _ t h }

  about_log-kept :
      (e : SessionEnvelope) (r : AarResolution) (log : List EventRecord) (t : SocketLive A)
      → P t
      → HoldsAfter P (about_log e r log t)
  about_log-kept e r [] t h = response-kept e r _ _ t h
  about_log-kept e r (first ∷ later) t h =
      elim (get_elem? (first ∷ later) r.cursor.index) as (λ o. HoldsAfter P (about_event e r o t)) [
        | none ↦ record { holds = tt }
        | some event ↦ response-kept e r _ _ t h
      ]

  handle_aar_request-kept :
      (p : AarRequestPayload) (t : SocketLive A) → P t → HoldsAfter P (handle_aar_request p t)
  unfolding handle_aar_request send_aar_response
  handle_aar_request-kept p t h =
      let r = resolve_replay_cursor p t in
      let moved = law.reviewed p t h in
      let t' = record t { replay_cursor = r.cursor } in
      let response = about_log-kept p.envelope r t.session.events t' moved in
      let unsent : HoldsAfter P (Handled.done t') = record { holds = moved } in
      search (valid-kept F P law, if-kept (HoldsAfter P))

  review-kept :
      (r : Result AarRequestPayload) (t : SocketLive A) → P t → HoldsAfter P (review_of r t)
  review-kept (ok p) t h = handle_aar_request-kept p t h
  review-kept (throws e) t h = record { holds = queue_ack-kept F P law _ _ _ t h }
  review-kept Result.undefined t h = record { holds = tt }

  pub process_tcp_frame-kept :
      (sends : ℕ → List SendAnswer) (frame : FramedMessage) (t : SocketLive A)
      → P t
      → HoldsAfter P (process_tcp_frame F c sends frame t)
  unfolding process_tcp_frame process_aar_request
  process_tcp_frame-kept sends frame t h =
      let wire = frame.payload in
      let session_join =
        payload-kept P (parse_session_join wire) t (λ p. Handled.done (handle_session_join p t)) h
          (λ p. record { holds = handle_session_join-kept F P law p t h }) in
      let scenario_start =
        payload-kept P (parse_scenario_start wire) t
          (λ p. Handled.done (handle_scenario_start F c p t)) h
          (λ p. record { holds = handle_scenario_start-kept F c P law p t h }) in
      let scenario_stop =
        payload-kept P (parse_scenario_stop wire) t
          (λ p. Handled.done (handle_scenario_stop F c p t)) h
          (λ p. record { holds = handle_scenario_stop-kept F c P law p t h }) in
      let scenario_reset =
        payload-kept P (parse_scenario_reset wire) t
          (λ p. Handled.done (handle_scenario_reset F c p t)) h
          (λ p. record { holds = handle_scenario_reset-kept F c P law p t h }) in
      let track_acquire =
        payload-kept P (parse_track_acquire wire) t
          (λ p. Handled.done (handle_track_acquire F c p t)) h
          (λ p. record { holds = handle_track_acquire-kept F c P law p t h }) in
      let track_drop =
        payload-kept P (parse_track_drop wire) t (λ p. Handled.done (handle_track_drop F c p t)) h
          (λ p. record { holds = handle_track_drop-kept F c P law p t h }) in
      let interceptor_ready =
        payload-kept P (parse_interceptor_ready wire) t
          (λ p. Handled.done (handle_interceptor_ready F c p t)) h
          (λ p. record { holds = handle_interceptor_ready-kept F c P law p t h }) in
      let engage_order =
        payload-kept P (parse_engage_order wire) t (λ p. Handled.done (handle_engage_order F c p t))
          h (λ p. record { holds = handle_engage_order-kept F c P law p t h }) in
      let session_leave =
        payload-kept P (parse_session_leave wire) t (λ p. handle_session_leave sends p t) h
          (λ p. handle_session_leave-kept F P law sends p t h) in
      let aar_request = review-kept (parse_aar_request wire) t h in
      let unsupported : HoldsAfter P
          (Handled.failed (bytes "unsupported tcp payload kind: " ++ frame.kind) t) =
        record { holds = h } in
      search (if-kept (HoldsAfter P)) depth 14

  pub caught-kept : (h : Handled A) → HoldsAfter P h → HoldsAfter P (caught h)
  caught-kept (Handled.done t) h = h
  caught-kept (Handled.failed e t) h = record { holds = reject-kept F P law _ e [] t h.holds }
  caught-kept Handled.undefined h = h

  pub process_tcp_wire-kept :
      (sends : ℕ → List SendAnswer) (wire : Text) (t : SocketLive A)
      → P t
      → HoldsAfter P (process_tcp_wire F c sends wire t)
  unfolding process_tcp_wire
  process_tcp_wire-kept sends wire t h =
      payload-kept P (decode_json_frame wire) t (λ m. process_tcp_frame F c sends m t) h
        (λ m. process_tcp_frame-kept sends m t h)
