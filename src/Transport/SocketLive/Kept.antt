-- ===== src/Transport/SocketLive/Kept.antt =====
-- What every handler of a frame keeps: the laws of a predicate on the transport's state, and that a
-- predicate with these laws holds after each frame if it held before.
pub mod Handlers
pub mod Frames
use inerceptor_command_sim.Base.{
  ℕ, ◌≡◌, Bool, true, false, not, ◌&&◌, List, [], Option, none, some, if◌then◌else◌, ◌⊎◌, inl, inr,
  refl, Bool-cases, ◌==◌,
}
use inerceptor_command_sim.Base.Result.{Result, ok, throws}
use inerceptor_command_sim.Base.Text.{Text, bytes}
use inerceptor_command_sim.Floats.{FloatOps}
use inerceptor_command_sim.Core.Types.{ClientRole, CommandResult}
use inerceptor_command_sim.Protocol.Messages.{SessionEnvelope}
use inerceptor_command_sim.Session.State.{Session}
use inerceptor_command_sim.Session.Clients.{connect_client}
use inerceptor_command_sim.Session.Commands.{reset_session}
use inerceptor_command_sim.Protocol.Payloads.Review.{AarRequestPayload}
use inerceptor_command_sim.Transport.InProcess.{default_session_id}
use inerceptor_command_sim.Transport.SocketLive.State.{
  Clock, SocketLive, Handled, ◌>=>◌, with_payload, reject_payload, queue_tcp_frame, queue_ack,
  send_ack,
}
use inerceptor_command_sim.Transport.SocketLive.Delivery.{
  disconnect_station, reset_viewer_delivery_cursor, send_pending_snapshots,
}
use inerceptor_command_sim.Transport.SocketLive.Console.{
  no_cursor, answer, unless_invalid, unless_throws, handled_unless, validate_command_envelope,
  run_command,
}
use inerceptor_command_sim.Transport.SocketLive.Replay.{resolve_replay_cursor}
use inerceptor_command_sim.Transport.SocketLive.Progress.{IsProgress, reject-IsProgress}

-- The laws: each is about one kind of change that a handler makes.
pub record IsKept {A : Type 0} (F : FloatOps A) (P : SocketLive A → Type 0) : Type 0 where
  pub queued :
      (lines : List Text) (sequence : ℕ) (t : SocketLive A)
      → P t
      → P (record t { pending_tcp_lines = lines; server_sequence = sequence })
  pub moved :
      (s : Session A) (t : SocketLive A)
      → IsProgress t.session s
      → P t
      → P (record t { session = s })
  pub sent : (t : SocketLive A) → P t → P (send_pending_snapshots F t)
  pub joined :
      (id : ℕ) (t : SocketLive A)
      → P t
      → P (record t {
        command_sender_id = id;
        session = connect_client ClientRole.fire_control_console id t.session;
      })
  pub left :
      (reason : Text) (t : SocketLive A)
      → P t
      → P (disconnect_station ClientRole.fire_control_console reason t)
  pub reset :
      (reason : Text) (w : ℕ) (t : SocketLive A)
      → P t
      → P (
          reset_viewer_delivery_cursor (record t {
            session = (reset_session F reason w t.session).1;
            replay_cursor = no_cursor;
          }))
  pub reviewed :
      (p : AarRequestPayload) (t : SocketLive A)
      → P t
      → P (record t { replay_cursor = (resolve_replay_cursor p t).cursor })

abbrev Holds : {A : Type 0} → (SocketLive A → Type 0) → Handled A → Type 0
Holds P (Handled.done t) = P t
Holds P (Handled.failed e t) = P t
Holds P Handled.undefined = Unit

-- The predicate holds in the state that a handler leaves.
pub record HoldsAfter {A : Type 0} (P : SocketLive A → Type 0) (h : Handled A) : Type 0 where
  pub holds : Holds P h

-- The envelope is one of the session, from the console that has joined.
abbrev pub is_from_joined : {A : Type 0} → SessionEnvelope → SocketLive A → Bool
is_from_joined e t =
    not (t.command_sender_id == 0)
    && (e.session_id == default_session_id && e.sender_id == t.command_sender_id)

-- The verdict on an envelope: a rejection in the log, or none.
abbrev pub IsVerdict :
    {A : Type 0} → SessionEnvelope → SocketLive A → Option (CommandResult × SocketLive A) → Type 0
IsVerdict e t o =
    ((summary : Text) × (reason : Text) × (o ≡ some (reject_payload summary reason [] t))
      × (is_from_joined e t ≡ false))
    ⊎ ((o ≡ none) × (is_from_joined e t ≡ true))

pub validate-IsVerdict :
    {A : Type 0} (e : SessionEnvelope) (t : SocketLive A)
    → IsVerdict e t (validate_command_envelope e t)
unfolding validate_command_envelope
validate-IsVerdict e t = elim (Bool-cases (t.command_sender_id == 0)) [
  | inl h ↦
      inl (bytes "Command rejected", bytes "command sender is not connected", rw h refl, rw h refl)
  | inr h ↦ elim (Bool-cases (e.session_id == default_session_id)) [
    | inr k ↦ inl (
      bytes "Command rejected",
      bytes "payload session_id does not match the active session",
      rw (h, k) refl,
      rw (h, k) refl,
    )
    | inl k ↦ elim (Bool-cases (e.sender_id == t.command_sender_id)) [
      | inr l ↦ inl (
        bytes "Engage order rejected",
        bytes "payload sender_id does not match the connected fire control console",
        rw (h, k, l) refl,
        rw (h, k, l) refl,
      )
      | inl l ↦ inr (rw (h, k, l) refl, rw (h, k, l) refl)
    ]
  ]
]

pub if-kept {ℓ κ} :
    {A : Type ℓ} (P : A → Type κ) (b : Bool) (x y : A) → P x → P y → P (if b then x else y)
if-kept P true x y h k = h
if-kept P false x y h k = k

module _ {A : Type 0} (F : FloatOps A) (P : SocketLive A → Type 0) (law : IsKept F P) where
  pub reject-kept :
      (summary reason : Text) (ids : List Text) (t : SocketLive A)
      → P t
      → P (reject_payload summary reason ids t).1
  unfolding reject_payload
  reject-kept summary reason ids t h =
      law.moved _ t (reject-IsProgress summary reason ids t.session) h

  pub queue_ack-kept :
      (id : ℕ) (accepted : Bool) (reason : Text) (t : SocketLive A)
      → P t
      → P (queue_ack id accepted reason t)
  unfolding queue_ack queue_tcp_frame
  queue_ack-kept id accepted reason t h = law.queued _ _ t h

  pub send_ack-kept :
      (e : SessionEnvelope) (r : CommandResult) (t : SocketLive A) → P t → P (send_ack e r t)
  unfolding send_ack
  send_ack-kept e r t h =
      if-kept P t.has_command_client _ t (queue_ack-kept e.session_id r.is_accepted r.reason t h) h

  pub refuse-kept :
      (e : SessionEnvelope) (summary reason : Text) (ids : List Text) (t : SocketLive A)
      → P t
      → P (answer e (reject_payload summary reason ids t))
  refuse-kept e summary reason ids t h =
      send_ack-kept e (reject_payload summary reason ids t).0
        (reject_payload summary reason ids t).1 (reject-kept summary reason ids t h)

  unless_invalid-kept :
      (e : SessionEnvelope) (o : Option (CommandResult × SocketLive A)) (t u : SocketLive A)
      → IsVerdict e t o
      → P t
      → P u
      → P (unless_invalid e o u)
  unless_invalid-kept e o t u (inl (summary, reason, v, b)) h k =
      rw v (refuse-kept e summary reason [] t h)
  unless_invalid-kept e o t u (inr (v, b)) h k = rw v k

  pub console-kept :
      (e : SessionEnvelope) (t u : SocketLive A)
      → P t
      → P u
      → P (unless_invalid e (validate_command_envelope e t) u)
  console-kept e t u h k =
      unless_invalid-kept e (validate_command_envelope e t) t u (validate-IsVerdict e t) h k

  pub valid-kept :
      (e : SessionEnvelope) (t : SocketLive A) (next : Handled A)
      → P t
      → HoldsAfter P next
      → HoldsAfter P (handled_unless e (validate_command_envelope e t) next)
  valid-kept e t next h k = elim (validate-IsVerdict e t) [
    | inl (summary, reason, v, b) ↦ rw v (record { holds = refuse-kept e summary reason [] t h })
    | inr (v, b) ↦ rw v k
  ]

  pub run_command-kept :
      (c : Clock) (e : SessionEnvelope) (command : Session A → CommandResult × Session A)
      (t : SocketLive A)
      → IsProgress t.session (command t.session).1
      → P t
      → P (run_command F c e command t)
  run_command-kept c e command t k h =
      law.sent _ (send_ack-kept e (command t.session).0 _ (law.moved (command t.session).1 t k h))

-- The next handler runs in a state that has kept the predicate.
pub next-kept :
    {A : Type 0} (P : SocketLive A → Type 0) (h : Handled A) (f : SocketLive A → Handled A)
    → HoldsAfter P h
    → ((t : SocketLive A) → P t → HoldsAfter P (f t))
    → HoldsAfter P (h >=> f)
next-kept P (Handled.done t) f h k = k t h.holds
next-kept P (Handled.failed e t) f h k = record { holds = h.holds }
next-kept P Handled.undefined f h k = record { holds = tt }

pub payload-kept :
    {A B : Type 0} (P : SocketLive A → Type 0) (r : Result B) (t : SocketLive A) (f : B → Handled A)
    → P t
    → ((p : B) → HoldsAfter P (f p))
    → HoldsAfter P (with_payload r t f)
payload-kept P (ok p) t f h k = k p
payload-kept P (throws e) t f h k = record { holds = h }
payload-kept P Result.undefined t f h k = record { holds = tt }

pub unless_throws-kept :
    {A B : Type 0} (P : SocketLive A → Type 0) (r : Result B) (refused : Text → SocketLive A)
    (t : SocketLive A)
    → ((e : Text) → P (refused e))
    → P t
    → P (unless_throws r refused t)
unless_throws-kept P (throws e) refused t h k = h e
unless_throws-kept P (ok b) refused t h k = k
unless_throws-kept P Result.undefined refused t h k = k
