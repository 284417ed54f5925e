-- ===== src/Transport/SocketLive/Replay.antt =====
-- The requests of the post-engagement review.
use inerceptor_command_sim.Base.{
  ℕ, Bool, true, ◌&&◌, not, Option, List, [], ◌∷◌, none, some, leb, ◌==◌, if◌then◌else◌, length,
  get_elem?,
}
use inerceptor_command_sim.Base.Text.{Text, bytes, text_eq}
use inerceptor_command_sim.Core.Types.{EventRecord, assessment_code_to_string}
use inerceptor_command_sim.Protocol.Messages.{SessionEnvelope, event_type_to_string}
use inerceptor_command_sim.Protocol.Payloads.Review.{AarRequestPayload, serialize_aar_response}
use inerceptor_command_sim.Session.Summary.{build_summary}
use inerceptor_command_sim.Transport.SocketLive.State.{
  SocketLive, Handled, queue_tcp_frame, next_sequence, server_envelope,
}
use inerceptor_command_sim.Transport.SocketLive.Console.{handled_unless, validate_command_envelope}
use inerceptor_command_sim.View.ReplayCursor.{
  ReplayCursor, make_replay_cursor, jump_to, step_forward, step_backward,
}

pub record AarResolution : Type 0 where
  pub cursor : ReplayCursor
  pub control : Text
  pub requested_index : ℕ
  pub clamped : Bool

module _ {A : Type 0} where
  -- The cursor that a request starts from: the one of the last request, unless the log has grown.
  unfoldable pub seed_cursor : AarRequestPayload → SocketLive A → ReplayCursor
  seed_cursor p t =
      let total = length t.session.events in
      if t.replay_cursor.total == total && not (total == 0)
      then t.replay_cursor
      else make_replay_cursor total p.replay_cursor_index

  unfoldable pub resolve_replay_cursor : AarRequestPayload → SocketLive A → AarResolution
  resolve_replay_cursor p t =
      let total = length t.session.events in
      let seed = seed_cursor p t in
      let resolved : ReplayCursor → Bool → AarResolution = λ cursor clamped. record {
        cursor = cursor;
        control = p.control;
        requested_index = p.replay_cursor_index;
        clamped = clamped;
      } in
      if text_eq p.control (bytes "absolute")
      then resolved (jump_to seed p.replay_cursor_index)
          (not (total == 0) && leb total p.replay_cursor_index)
      else if text_eq p.control (bytes "step_forward")
      then resolved (step_forward seed) ((step_forward seed).index == seed.index)
      else if text_eq p.control (bytes "step_backward")
      then resolved (step_backward seed) ((step_backward seed).index == seed.index)
      else resolved seed true

  -- The response about one event, or about none.
  unfoldable pub queue_aar_response :
      SessionEnvelope → AarResolution → Text → Text → SocketLive A → SocketLive A
  queue_aar_response request_envelope r event_type event_summary t =
      let t' = next_sequence t in
      let summary = build_summary t.session in
      queue_tcp_frame (bytes "aar_response")
        (serialize_aar_response (record {
          envelope = server_envelope request_envelope.session_id t';
          replay_cursor_index = r.cursor.index;
          control = r.control;
          requested_index = r.requested_index;
          clamped = r.clamped;
          assessment_code = assessment_code_to_string summary.assessment_code;
          resilience_case = summary.resilience_case;
          total_events = r.cursor.total;
          event_type = event_type;
          event_summary = event_summary;
        }))
        t'

  -- `events[resolution.cursor.index]` is undefined out of range.
  abbrev pub about_event :
      SessionEnvelope → AarResolution → Option EventRecord → SocketLive A → Handled A
  about_event request_envelope r none t = Handled.undefined
  about_event request_envelope r (some event) t = Handled.done (
      queue_aar_response request_envelope r (event_type_to_string event.header.event_type)
        event.summary t)

  abbrev pub about_log :
      SessionEnvelope → AarResolution → List EventRecord → SocketLive A → Handled A
  about_log request_envelope r [] t =
      Handled.done (queue_aar_response request_envelope r (bytes "none") (bytes "no event") t)
  about_log request_envelope r (first ∷ later) t =
      about_event request_envelope r (get_elem? (first ∷ later) r.cursor.index) t

  unfoldable pub send_aar_response : SessionEnvelope → AarResolution → SocketLive A → Handled A
  send_aar_response request_envelope r t =
      if t.has_command_client
      then about_log request_envelope r t.session.events t
      else Handled.done t

  unfoldable pub handle_aar_request : AarRequestPayload → SocketLive A → Handled A
  handle_aar_request p t =
      let r = resolve_replay_cursor p t in
      handled_unless p.envelope (validate_command_envelope p.envelope t)
        (send_aar_response p.envelope r (record t { replay_cursor = r.cursor }))
