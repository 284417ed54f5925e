-- ===== src/Transport/InProcess/Routing.antt =====
-- Where a payload goes: to the session's command, or into the log of rejections.
use inerceptor_command_sim.Base.{
  ℕ, ◌≡◌, refl, Bool, true, false, ◌&&◌, not, List, [], ◌∷◌, ◌++◌, ◌⊎◌, inl, inr, Bool-cases, none,
  some, ◌==◌,
}
use inerceptor_command_sim.Base.Text.{Text, bytes, text_eq}
use inerceptor_command_sim.Floats.{FloatOps}
use inerceptor_command_sim.Protocol.Messages.{SessionEnvelope, EventType}
use inerceptor_command_sim.Core.Types.{CommandResult, EventRecord}
use inerceptor_command_sim.Session.State.{new_event, push_event, next_timestamp_ms}
use inerceptor_command_sim.Session.Commands.{record_transport_rejection}
use inerceptor_command_sim.Session.Run.{Command, perform}
use inerceptor_command_sim.Transport.InProcess.{
  InProcessTransport, Request, default_session_id, target_id, asset_id, in_session, reject_payload,
  validate_envelope, dispatch,
}

-- The command of the session that a payload asks for.
abbrev pub command_of : Request → Command
command_of (Request.track_acquire p) = Command.track
command_of (Request.track_drop p) = Command.drop
command_of (Request.interceptor_ready p) = Command.arm
command_of (Request.engage_order p) = Command.fire

abbrev pub envelope_of : Request → SessionEnvelope
envelope_of (Request.track_acquire p) = p.envelope
envelope_of (Request.track_drop p) = p.envelope
envelope_of (Request.interceptor_ready p) = p.envelope
envelope_of (Request.engage_order p) = p.envelope

-- The payload names the target and the interceptor of the session.
abbrev pub names_entities : Request → Bool
names_entities (Request.track_acquire p) = text_eq p.target_id target_id
names_entities (Request.track_drop p) = text_eq p.target_id target_id
names_entities (Request.interceptor_ready p) = text_eq p.interceptor_id asset_id
names_entities (Request.engage_order p) =
    text_eq p.interceptor_id asset_id && text_eq p.target_id target_id

-- The envelope is one of the session, from the console that is connected.
abbrev pub is_from_console : {A : Type 0} → SessionEnvelope → InProcessTransport A → Bool
is_from_console e t =
    not (t.command_sender_id == 0)
    && (e.session_id == default_session_id && e.sender_id == t.command_sender_id)

abbrev pub is_addressed : {A : Type 0} → Request → InProcessTransport A → Bool
is_addressed r t = is_from_console (envelope_of r) t && names_entities r

-- A rejection by the transport: one event in the log, and nothing else but the clock.
pub record IsRejection {A : Type 0} (t : InProcessTransport A)
    (r : CommandResult × InProcessTransport A) : Type 0 where
  pub refused : r.0.is_accepted ≡ false
  pub logged :
      (e : EventRecord) × (e.header.event_type ≡ EventType.engage_order_rejected)
      × (e.details ≡ r.0.reason)
      × (r.1 ≡ record t {
        session = record t.session {
          clock_ms = next_timestamp_ms t.session;
          events = t.session.events ++ e ∷ [];
        };
      })

module _ {A : Type 0} (F : FloatOps A) where
  reject_payload-IsRejection :
      (summary reason : Text) (ids : List Text) (t : InProcessTransport A)
      → IsRejection t (reject_payload summary reason ids t)
  unfolding reject_payload record_transport_rejection push_event
  reject_payload-IsRejection summary reason ids t = record {
    refused = refl;
    logged = (
      new_event EventType.engage_order_rejected (bytes "simulation_server") ids summary reason
          t.session,
      refl,
      refl,
      refl,
    );
  }

  -- What becomes of a payload, by whether it is addressed to the session.
  abbrev pub IsRouted :
      Bool → ℕ → Request → InProcessTransport A → CommandResult × InProcessTransport A → Type 0
  IsRouted true w r t result = result ≡ in_session t (perform F w (command_of r) t.session)
  IsRouted false w r t result = IsRejection t result

  validate_envelope-cases :
      (e : SessionEnvelope) (summary : Text) (ids : List Text) (t : InProcessTransport A)
      → ((is_from_console e t ≡ false)
          × (reason : Text) × (validate_envelope e t.command_sender_id summary ids t
              ≡ some (reject_payload summary reason ids t)))
        ⊎ ((is_from_console e t ≡ true)
            × (validate_envelope e t.command_sender_id summary ids t ≡ none))
  unfolding validate_envelope
  validate_envelope-cases e summary ids t = elim (Bool-cases (t.command_sender_id == 0)) [
    | inl h ↦ inl (rw h refl, bytes "command sender is not connected", rw h refl)
    | inr h ↦ elim (Bool-cases (e.session_id == default_session_id)) [
      | inr k ↦ inl (
        rw (h, k) refl,
        bytes "payload session_id does not match the active session",
        rw (h, k) refl,
      )
      | inl k ↦ elim (Bool-cases (e.sender_id == t.command_sender_id)) [
        | inr l ↦ inl (
          rw (h, k, l) refl,
          bytes "payload sender_id does not match the connected fire control console",
          rw (h, k, l) refl,
        )
        | inl l ↦ inr (rw (h, k, l) refl, rw (h, k, l) refl)
      ]
    ]
  ]

  forwarded :
      (b : Bool) (w : ℕ) (r : Request) (t : InProcessTransport A)
      → b ≡ true
      → dispatch F w r t ≡ in_session t (perform F w (command_of r) t.session)
      → IsRouted b w r t (dispatch F w r t)
  forwarded b w r t e h = rw e h

  turned_away :
      (b : Bool) (w : ℕ) (r : Request) (t : InProcessTransport A) (summary reason : Text)
      (ids : List Text)
      → b ≡ false
      → dispatch F w r t ≡ reject_payload summary reason ids t
      → IsRouted b w r t (dispatch F w r t)
  turned_away b w r t summary reason ids e h =
      rw e (rw h (reject_payload-IsRejection summary reason ids t))

  -- A payload from the connected console, for this session and with the ids of its target and
  -- interceptor, has just the effect and the result of the session's command for it. Every other
  -- payload is refused, and logs one engage_order_rejected event with the reason: nothing else in
  -- the transport or the session changes, but the session's clock.
  pub dispatch-IsRouted :
      (w : ℕ) (r : Request) (t : InProcessTransport A)
      → IsRouted (is_addressed r t) w r t (dispatch F w r t)
  unfolding dispatch perform
  dispatch-IsRouted w (Request.track_acquire p) t =
      let request = Request.track_acquire p in
      elim (validate_envelope-cases p.envelope (bytes "Track request rejected") [] t) [
        | inl (e, reason, v) ↦
            turned_away (is_addressed request t) w request t (bytes "Track request rejected") reason
              [] (rw e refl) (rw (v, dispatch) refl)
        | inr (e, v) ↦ elim (Bool-cases (text_eq p.target_id target_id)) [
          | inl h ↦
              forwarded (is_addressed request t) w request t (rw (e, h) refl)
                (rw (v, h, dispatch) refl)
          | inr h ↦
              turned_away (is_addressed request t) w request t (bytes "Track request rejected")
                (bytes "track request target does not match the active target") (target_id ∷ [])
                (rw (e, h) refl) (rw (v, h, dispatch) refl)
        ]
      ]
  dispatch-IsRouted w (Request.track_drop p) t =
      let request = Request.track_drop p in
      elim (validate_envelope-cases p.envelope (bytes "Track release rejected") [] t) [
        | inl (e, reason, v) ↦
            turned_away (is_addressed request t) w request t (bytes "Track release rejected") reason
              [] (rw e refl) (rw (v, dispatch) refl)
        | inr (e, v) ↦ elim (Bool-cases (text_eq p.target_id target_id)) [
          | inl h ↦
              forwarded (is_addressed request t) w request t (rw (e, h) refl)
                (rw (v, h, dispatch) refl)
          | inr h ↦
              turned_away (is_addressed request t) w request t (bytes "Track release rejected")
                (bytes "track release target does not match the active target") (target_id ∷ [])
                (rw (e, h) refl) (rw (v, h, dispatch) refl)
        ]
      ]
  dispatch-IsRouted w (Request.interceptor_ready p) t =
      let request = Request.interceptor_ready p in
      elim (validate_envelope-cases p.envelope (bytes "Interceptor activation rejected") [] t) [
        | inl (e, reason, v) ↦
            turned_away (is_addressed request t) w request t
              (bytes "Interceptor activation rejected") reason [] (rw e refl)
              (rw (v, dispatch) refl)
        | inr (e, v) ↦ elim (Bool-cases (text_eq p.interceptor_id asset_id)) [
          | inl h ↦
              forwarded (is_addressed request t) w request t (rw (e, h) refl)
                (rw (v, h, dispatch) refl)
          | inr h ↦
              turned_away (is_addressed request t) w request t
                (bytes "Interceptor activation rejected")
                (bytes "interceptor activation does not match the configured interceptor")
                (asset_id ∷ []) (rw (e, h) refl) (rw (v, h, dispatch) refl)
        ]
      ]
  dispatch-IsRouted w (Request.engage_order p) t =
      let request = Request.engage_order p in
      elim (validate_envelope-cases p.envelope (bytes "Command rejected") [] t) [
        | inl (e, reason, v) ↦
            turned_away (is_addressed request t) w request t (bytes "Command rejected") reason []
              (rw e refl) (rw (v, dispatch) refl)
        | inr (e, v) ↦
            elim (Bool-cases (text_eq p.interceptor_id asset_id && text_eq p.target_id target_id)) [
              | inl h ↦
                  forwarded (is_addressed request t) w request t (rw (e, h) refl)
                    (rw (v, h, dispatch) refl)
              | inr h ↦
                  turned_away (is_addressed request t) w request t (bytes "Command rejected")
                    (bytes "command payload entity ids do not match the active session")
                    (asset_id ∷ target_id ∷ []) (rw (e, h) refl) (rw (v, h, dispatch) refl)
            ]
      ]
