-- ===== src/Transport/SocketLive/Requests.antt =====
-- A request of the console, from its wire text to the command of the session.
pub mod Received
use inerceptor_command_sim.Base.{
  ℕ, ◌≡◌, refl, Bool, true, false, ◌&&◌, List, [], ◌∷◌, inl, inr, Bool-cases,
}
use inerceptor_command_sim.Base.Text.{Text, bytes, text_eq}
use inerceptor_command_sim.Floats.{FloatOps}
use inerceptor_command_sim.Protocol.Frame.{FramedMessage}
use inerceptor_command_sim.Protocol.Payloads.Commands.{
  TrackAcquirePayload, TrackDropPayload, InterceptorReadyPayload, EngageOrderPayload,
  serialize_track_acquire, serialize_track_drop, serialize_interceptor_ready,
  serialize_engage_order,
}
use inerceptor_command_sim.Protocol.Payloads.Commands.RoundTrip.{
  IsTrackAcquire, IsTrackDrop, IsInterceptorReady, IsEngageOrder, parse-serialize_track_acquire,
  parse-serialize_track_drop, parse-serialize_interceptor_ready, parse-serialize_engage_order,
}
use inerceptor_command_sim.Session.Run.{perform}
use inerceptor_command_sim.Transport.InProcess.{Request, target_id, asset_id}
use inerceptor_command_sim.Transport.InProcess.Routing.{command_of, envelope_of, names_entities}
use inerceptor_command_sim.Transport.SocketLive.State.{Clock, SocketLive, Handled, reject_payload}
use inerceptor_command_sim.Transport.SocketLive.Sockets.{SendAnswer}
use inerceptor_command_sim.Transport.SocketLive.Console.{
  answer, run_command, handle_track_acquire, handle_track_drop, handle_interceptor_ready,
  handle_engage_order,
}
use inerceptor_command_sim.Transport.SocketLive.Frames.{process_tcp_frame}
use inerceptor_command_sim.Transport.SocketLive.Kept.{is_from_joined, validate-IsVerdict}

-- The frame of a request.
abbrev pub frame_of : Request → FramedMessage
frame_of (Request.track_acquire p) = record {
  kind = bytes "track_acquire";
  payload = serialize_track_acquire p;
}
frame_of (Request.track_drop p) = record {
  kind = bytes "track_drop";
  payload = serialize_track_drop p;
}
frame_of (Request.interceptor_ready p) = record {
  kind = bytes "interceptor_ready";
  payload = serialize_interceptor_ready p;
}
frame_of (Request.engage_order p) = record {
  kind = bytes "engage_order";
  payload = serialize_engage_order p;
}

-- The numbers of a request fit the types of the source, and its texts are made of bytes.
abbrev pub IsWire : Request → Type 0
IsWire (Request.track_acquire p) = IsTrackAcquire p
IsWire (Request.track_drop p) = IsTrackDrop p
IsWire (Request.interceptor_ready p) = IsInterceptorReady p
IsWire (Request.engage_order p) = IsEngageOrder p

-- A request is for this session: from the console that has joined, about its entities.
abbrev pub is_addressed : {A : Type 0} → Request → SocketLive A → Bool
is_addressed r t = is_from_joined (envelope_of r) t && names_entities r

module _ {A : Type 0} (F : FloatOps A) (c : Clock) where
  -- What becomes of a request, by whether it is addressed to the session: the command of the session
  -- with its acknowledgement, or a rejection in the log with its acknowledgement.
  abbrev pub IsServed : Bool → Request → SocketLive A → Handled A → Type 0
  IsServed true r t h =
      h ≡ Handled.done (run_command F c (envelope_of r) (perform F c.wall_time_ms (command_of r)) t)
  IsServed false r t h =
      (summary : Text) × (reason : Text) × (ids : List Text) × (h
        ≡ Handled.done (answer (envelope_of r) (reject_payload summary reason ids t)))

  served :
      (b : Bool) (r : Request) (t : SocketLive A) (h : Handled A)
      → b ≡ true
      → h
        ≡ Handled.done (run_command F c (envelope_of r) (perform F c.wall_time_ms (command_of r)) t)
      → IsServed b r t h
  served b r t h e k = rw e k

  refused :
      (b : Bool) (r : Request) (t : SocketLive A) (h : Handled A) (summary reason : Text)
      (ids : List Text)
      → b ≡ false
      → h ≡ Handled.done (answer (envelope_of r) (reject_payload summary reason ids t))
      → IsServed b r t h
  refused b r t h summary reason ids e k = rw e (summary, reason, ids, k)

  track_acquire-IsServed :
      (p : TrackAcquirePayload) (t : SocketLive A)
      → IsServed
          (is_addressed (Request.track_acquire p) t)
          (Request.track_acquire p)
          t
          (Handled.done (handle_track_acquire F c p t))
  unfolding handle_track_acquire perform
  track_acquire-IsServed p t =
      let r = Request.track_acquire p in
      let b = is_addressed r t in
      let h = Handled.done (handle_track_acquire F c p t) in
      elim (validate-IsVerdict p.envelope t) [
        | inl (summary, reason, v, e) ↦
            refused b r t h summary reason [] (rw e refl) (rw (v, handle_track_acquire) refl)
        | inr (v, e) ↦ elim (Bool-cases (text_eq p.target_id target_id)) [
          | inl k ↦ served b r t h (rw (e, k) refl) (rw (v, k, handle_track_acquire) refl)
          | inr k ↦
              refused b r t h (bytes "Track request rejected")
                (bytes "track request target does not match the active target") (target_id ∷ [])
                (rw (e, k) refl) (rw (v, k, handle_track_acquire) refl)
        ]
      ]

  track_drop-IsServed :
      (p : TrackDropPayload) (t : SocketLive A)
      → IsServed
          (is_addressed (Request.track_drop p) t)
          (Request.track_drop p)
          t
          (Handled.done (handle_track_drop F c p t))
  unfolding handle_track_drop perform
  track_drop-IsServed p t =
      let r = Request.track_drop p in
      let b = is_addressed r t in
      let h = Handled.done (handle_track_drop F c p t) in
      elim (validate-IsVerdict p.envelope t) [
        | inl (summary, reason, v, e) ↦
            refused b r t h summary reason [] (rw e refl) (rw (v, handle_track_drop) refl)
        | inr (v, e) ↦ elim (Bool-cases (text_eq p.target_id target_id)) [
          | inl k ↦ served b r t h (rw (e, k) refl) (rw (v, k, handle_track_drop) refl)
          | inr k ↦
              refused b r t h (bytes "Track release rejected")
                (bytes "track release target does not match the active target") (target_id ∷ [])
                (rw (e, k) refl) (rw (v, k, handle_track_drop) refl)
        ]
      ]

  interceptor_ready-IsServed :
      (p : InterceptorReadyPayload) (t : SocketLive A)
      → IsServed
          (is_addressed (Request.interceptor_ready p) t)
          (Request.interceptor_ready p)
          t
          (Handled.done (handle_interceptor_ready F c p t))
  unfolding handle_interceptor_ready perform
  interceptor_ready-IsServed p t =
      let r = Request.interceptor_ready p in
      let b = is_addressed r t in
      let h = Handled.done (handle_interceptor_ready F c p t) in
      elim (validate-IsVerdict p.envelope t) [
        | inl (summary, reason, v, e) ↦
            refused b r t h summary reason [] (rw e refl) (rw (v, handle_interceptor_ready) refl)
        | inr (v, e) ↦ elim (Bool-cases (text_eq p.interceptor_id asset_id)) [
          | inl k ↦ served b r t h (rw (e, k) refl) (rw (v, k, handle_interceptor_ready) refl)
          | inr k ↦
              refused b r t h (bytes "Interceptor activation rejected")
                (bytes "interceptor activation does not match the configured interceptor")
                (asset_id ∷ []) (rw (e, k) refl) (rw (v, k, handle_interceptor_ready) refl)
        ]
      ]

  engage_order-IsServed :
      (p : EngageOrderPayload) (t : SocketLive A)
      → IsServed
          (is_addressed (Request.engage_order p) t)
          (Request.engage_order p)
          t
          (Handled.done (handle_engage_order F c p t))
  unfolding handle_engage_order perform
  engage_order-IsServed p t =
      let r = Request.engage_order p in
      let b = is_addressed r t in
      let h = Handled.done (handle_engage_order F c p t) in
      elim (validate-IsVerdict p.envelope t) [
        | inl (summary, reason, v, e) ↦
            refused b r t h summary reason [] (rw e refl) (rw (v, handle_engage_order) refl)
        | inr (v, e) ↦
            elim (Bool-cases (text_eq p.interceptor_id asset_id && text_eq p.target_id target_id)) [
              | inl k ↦ served b r t h (rw (e, k) refl) (rw (v, k, handle_engage_order) refl)
              | inr k ↦
                  refused b r t h (bytes "Command rejected")
                    (bytes "command payload entity ids do not match the active session")
                    (asset_id ∷ target_id ∷ []) (rw (e, k) refl)
                    (rw (v, k, handle_engage_order) refl)
            ]
      ]

  -- The frame of a request that is addressed to the session makes the session perform the request's
  -- command, queues the acknowledgement of its result and then the snapshots that wait for the
  -- viewer. The frame of any other request is logged as a rejection, and acknowledged as one. The
  -- numbers of the request fit their types, and its texts are made of bytes.
  pub process_tcp_frame-IsServed :
      (sends : ℕ → List SendAnswer) (r : Request) (t : SocketLive A)
      → IsWire r
      → IsServed (is_addressed r t) r t (process_tcp_frame F c sends (frame_of r) t)
  unfolding process_tcp_frame bytes text_eq
  process_tcp_frame-IsServed sends (Request.track_acquire p) t h =
      rw (parse-serialize_track_acquire p h) (track_acquire-IsServed p t)
  process_tcp_frame-IsServed sends (Request.track_drop p) t h =
      rw (parse-serialize_track_drop p h) (track_drop-IsServed p t)
  process_tcp_frame-IsServed sends (Request.interceptor_ready p) t h =
      rw (parse-serialize_interceptor_ready p h) (interceptor_ready-IsServed p t)
  process_tcp_frame-IsServed sends (Request.engage_order p) t h =
      rw (parse-serialize_engage_order p h) (engage_order-IsServed p t)
