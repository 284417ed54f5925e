-- ===== src/Transport/SocketLive/Soundness/Reviews.antt =====
-- The requests of the review never read outside the log.
use inerceptor_command_sim.Base.{
  ℕ, zero, suc, ◌<◌, ◌≡◌, refl, inl, inr, List, [], ◌∷◌, some, arith, length, get_elem?,
}
use inerceptor_command_sim.Floats.{FloatOps}
use inerceptor_command_sim.Core.Types.{EventRecord}
use inerceptor_command_sim.Core.Validation.{RuntimeConfig}
use inerceptor_command_sim.Protocol.Messages.{SessionEnvelope}
use inerceptor_command_sim.Protocol.Payloads.Review.{AarRequestPayload}
use inerceptor_command_sim.Transport.SocketLive.State.{
  FrameFormat, SocketLive, Handled, first_state,
}
use inerceptor_command_sim.Transport.SocketLive.Replay.{
  AarResolution, about_log, resolve_replay_cursor, send_aar_response, handle_aar_request,
}
use inerceptor_command_sim.Transport.SocketLive.Poll.{ServerCall, serve_all}
use inerceptor_command_sim.Transport.SocketLive.Kept.{HoldsAfter, if-kept, validate-IsVerdict}
use inerceptor_command_sim.Transport.SocketLive.Soundness.{IsSound, resolve-IsOnEntry}
use inerceptor_command_sim.Transport.SocketLive.Soundness.Calls.{serve_all-IsSound}
use inerceptor_command_sim.View.ReplayCursor.{IsOnEntry}

-- A handler that neither throws nor leaves the defined behaviour.
record IsDone {A : Type 0} (h : Handled A) : Type 0 where
  result : (u : SocketLive A) × (h ≡ Handled.done u)

entry : {A : Type 0} (xs : List A) (i : ℕ) → i < length xs → (x : A) × (get_elem? xs i ≡ some x)
entry [] i h = absurd (omega arith)
entry (x ∷ xs) zero h = (x, refl)
entry (x ∷ xs) (suc i) h = entry xs i (omega arith)

module _ {A : Type 0} where
  about_log-IsDone :
      (e : SessionEnvelope) (r : AarResolution) (log : List EventRecord) (t : SocketLive A)
      → IsOnEntry (length log) r.cursor
      → IsDone (about_log e r log t)
  about_log-IsDone e r [] t h = record { result = (_, refl) }
  about_log-IsDone e r (first ∷ later) t h =
      let found = entry (first ∷ later) r.cursor.index (ground (arith, h.inside)) in
      rw found.1 (record { result = (_, refl) })

  request-IsDone :
      (p : AarRequestPayload) (t : SocketLive A) → IsSound t → IsDone (handle_aar_request p t)
  unfolding handle_aar_request send_aar_response
  request-IsDone p t h =
      let r = resolve_replay_cursor p t in
      let t' = record t { replay_cursor = r.cursor } in
      let logged =
        about_log-IsDone p.envelope r t.session.events t' (resolve-IsOnEntry p t h.cursor) in
      let unsent : IsDone (Handled.done t') = record { result = (t', refl) } in
      elim (validate-IsVerdict p.envelope t) [
        | inl (summary, reason, v, b) ↦ rw v (record { result = (_, refl) })
        | inr (v, b) ↦ rw v (search (if-kept IsDone))
      ]

  module _ (F : FloatOps A) where
    -- In every state that the calls of the server lead to, a request of the review is answered
    -- within the defined behaviour of C++: the entry that it reads is in the log, whatever index and
    -- control the request has and however the log has grown or been reset since the last one.
    pub handle_aar_request_defined :
        (c : RuntimeConfig) (f : FrameFormat) (calls : List ServerCall) (t : SocketLive A)
        (p : AarRequestPayload)
        → serve_all F calls (first_state F c f) ≡ Handled.done t
        → (u : SocketLive A) × (handle_aar_request p t ≡ Handled.done u)
    handle_aar_request_defined c f calls t p e =
        let sound : HoldsAfter IsSound (Handled.done t) = rw e at (serve_all-IsSound F c f calls) in
        (request-IsDone p t sound.holds).result
