-- ===== src/Transport/InProcess.antt =====
-- common/src/transport_inprocess.cpp: the transport that calls the session directly. The back end's
-- information record and the writing of files are left out.
pub mod Routing
pub mod Senders
use inerceptor_command_sim.Base.{
  ℕ, not, ◌&&◌, List, [], ◌∷◌, Option, none, some, ◌==◌, if◌then◌else◌,
}
use inerceptor_command_sim.Base.Int.{ℤ}
use inerceptor_command_sim.Base.Text.{Text, bytes, text_eq}
use inerceptor_command_sim.Floats.{FloatOps}
use inerceptor_command_sim.Protocol.Messages.{SessionEnvelope}
use inerceptor_command_sim.Protocol.Payloads.Commands.{
  TrackAcquirePayload, TrackDropPayload, InterceptorReadyPayload, EngageOrderPayload,
}
use inerceptor_command_sim.Core.Config.{ScenarioConfig}
use inerceptor_command_sim.Core.Types.{ClientRole, CommandResult}
use inerceptor_command_sim.Session.State.{Session, new_session}
use inerceptor_command_sim.Session.Clients.{connect_client, disconnect_client, timeout_client}
use inerceptor_command_sim.Session.Commands.{
  start_scenario, reset_session, request_track, release_track, activate_asset, issue_command,
  archive_session, record_transport_rejection,
}
use inerceptor_command_sim.Session.Tick.{advance_tick}

abbrev pub default_session_id : ℕ
default_session_id = 1001

abbrev pub target_id : Text
target_id = bytes "target-alpha"

abbrev pub asset_id : Text
asset_id = bytes "interceptor-alpha"

pub record InProcessTransport (A : Type 0) : Type 0 where
  pub session : Session A
  pub command_sender_id : ℕ
  pub viewer_sender_id : ℕ

-- The payloads for which dispatch is overloaded.
pub data Request : Type 0 where
  track_acquire : TrackAcquirePayload → Request
  track_drop : TrackDropPayload → Request
  interceptor_ready : InterceptorReadyPayload → Request
  engage_order : EngageOrderPayload → Request

module _ {A : Type 0} where
  -- The transport with the session that an operation leaves behind, and the operation's result.
  abbrev pub in_session :
      InProcessTransport A → CommandResult × Session A → CommandResult × InProcessTransport A
  in_session t r = (r.0, record t { session = r.1 })

  unfoldable pub reject_payload :
      Text → Text → List Text → InProcessTransport A → CommandResult × InProcessTransport A
  reject_payload summary reason entity_ids t =
      in_session t (record_transport_rejection summary reason entity_ids t.session)

  unfoldable pub validate_envelope :
      SessionEnvelope
      → ℕ
      → Text
      → List Text
      → InProcessTransport A
      → Option (CommandResult × InProcessTransport A)
  validate_envelope envelope expected_sender summary entity_ids t =
      if expected_sender == 0
      then some (reject_payload summary (bytes "command sender is not connected") entity_ids t)
      else if not (envelope.session_id == default_session_id)
      then some (
          reject_payload summary (bytes "payload session_id does not match the active session")
            entity_ids t)
      else if not (envelope.sender_id == expected_sender)
      then some (
          reject_payload summary
            (bytes "payload sender_id does not match the connected fire control console") entity_ids
            t)
      else none

  unfoldable pub set_sender : ClientRole → ℕ → InProcessTransport A → InProcessTransport A
  set_sender ClientRole.fire_control_console id t = record t { command_sender_id = id }
  set_sender ClientRole.tactical_display id t = record t { viewer_sender_id = id }

  unfoldable pub connect : ClientRole → ℕ → InProcessTransport A → InProcessTransport A
  connect role id t = record (set_sender role id t) { session = connect_client role id t.session }

  unfoldable pub disconnect : ClientRole → Text → InProcessTransport A → InProcessTransport A
  disconnect role reason t = record (set_sender role 0 t) {
    session = disconnect_client role reason t.session;
  }

module _ {A : Type 0} (F : FloatOps A) where
  unfoldable pub new_transport : ℤ → ScenarioConfig → InProcessTransport A
  new_transport rate c = record {
    session = new_session F default_session_id rate c.telemetry_interval_ms c;
    command_sender_id = 0;
    viewer_sender_id = 0;
  }

  unfoldable pub dispatch :
      ℕ → Request → InProcessTransport A → CommandResult × InProcessTransport A
  dispatch w (Request.track_acquire p) t =
      let summary = bytes "Track request rejected" in
      elim (validate_envelope p.envelope t.command_sender_id summary [] t) [
        | some invalid ↦ invalid
        | none ↦
            if not (text_eq p.target_id target_id)
            then reject_payload summary
                (bytes "track request target does not match the active target") (target_id ∷ []) t
            else in_session t (request_track F w t.session)
      ]
  dispatch w (Request.track_drop p) t =
      let summary = bytes "Track release rejected" in
      elim (validate_envelope p.envelope t.command_sender_id summary [] t) [
        | some invalid ↦ invalid
        | none ↦
            if not (text_eq p.target_id target_id)
            then reject_payload summary
                (bytes "track release target does not match the active target") (target_id ∷ []) t
            else in_session t (release_track F w t.session)
      ]
  dispatch w (Request.interceptor_ready p) t =
      let summary = bytes "Interceptor activation rejected" in
      elim (validate_envelope p.envelope t.command_sender_id summary [] t) [
        | some invalid ↦ invalid
        | none ↦
            if not (text_eq p.interceptor_id asset_id)
            then reject_payload summary
                (bytes "interceptor activation does not match the configured interceptor")
                (asset_id ∷ []) t
            else in_session t (activate_asset F w t.session)
      ]
  dispatch w (Request.engage_order p) t =
      let summary = bytes "Command rejected" in
      elim (validate_envelope p.envelope t.command_sender_id summary [] t) [
        | some invalid ↦ invalid
        | none ↦
            if not (text_eq p.interceptor_id asset_id && text_eq p.target_id target_id)
            then reject_payload summary
                (bytes "command payload entity ids do not match the active session")
                (asset_id ∷ target_id ∷ []) t
            else in_session t (issue_command F w t.session)
      ]

-- The operations of TransportBackend that change the state.
pub data Operation : Type 0 where
  connects : ClientRole → ℕ → Operation
  disconnects : ClientRole → Text → Operation
  times_out : ClientRole → Text → Operation
  starts : Operation
  resets : Text → Operation
  dispatches : Request → Operation
  ticks : Operation
  archives : Operation

module _ {A : Type 0} (F : FloatOps A) where
  unfoldable pub operate : ℕ → Operation → InProcessTransport A → InProcessTransport A
  operate w (Operation.connects role id) t = connect role id t
  operate w (Operation.disconnects role reason) t = disconnect role reason t
  operate w (Operation.times_out role reason) t = record t {
    session = timeout_client F role reason w t.session;
  }
  operate w Operation.starts t = (in_session t (start_scenario F w t.session)).1
  operate w (Operation.resets reason) t = (in_session t (reset_session F reason w t.session)).1
  operate w (Operation.dispatches r) t = (dispatch F w r t).1
  operate w Operation.ticks t = record t { session = advance_tick F w t.session }
  operate w Operation.archives t = record t { session = archive_session F w t.session }

  unfoldable pub operate_all : List (ℕ × Operation) → InProcessTransport A → InProcessTransport A
  operate_all [] t = t
  operate_all ((w, o) ∷ rest) t = operate_all rest (operate w o t)
