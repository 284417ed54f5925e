-- ===== src/Transport/SocketLive/Batches.antt =====
-- Which snapshots reach the viewer.
use inerceptor_command_sim.Base.{
  ℕ, zero, suc, ◌+◌, ◌-◌, ◌≤◌, ◌≡◌, refl, false, List, [], ◌∷◌, ◌++◌, some, arith, length, take,
  drop, drop-drop, length-drop, Bool-cases, leb, inl, inr, ltb, sym, ◌&&◌, length-append,
  take-drop-length, take_bounds, if-true, if-false, ◌∙◌, ap,
}
use mathlib.Core.List.{append_assoc, append-nil}
use native.Mathlib.Nat.{add-zero, add_assoc}
use inerceptor_command_sim.Floats.{FloatOps}
use inerceptor_command_sim.Core.Types.{Snapshot, EventRecord}
use inerceptor_command_sim.Protocol.Payloads.Pictures.{serialize_snapshot, serialize_telemetry}
use inerceptor_command_sim.Transport.Common.{to_snapshot_payload, to_telemetry_payload}
use inerceptor_command_sim.Transport.SocketLive.State.{Endpoint, PendingDatagram, SocketLive}
use inerceptor_command_sim.Transport.SocketLive.Delivery.{
  batch_limit, queue_udp_datagram, queue_snapshot, queue_batch, send_to, send_pending_snapshots,
}

module _ {A : Type 0} (F : FloatOps A) (e : Endpoint) where
  -- The datagrams of snapshots: for each one its picture and its telemetry.
  abbrev pub datagrams : List EventRecord → List (Snapshot A) → List PendingDatagram
  datagrams events [] = []
  datagrams events (snapshot ∷ rest) =
      record { wire = serialize_snapshot F (to_snapshot_payload snapshot); target = e }
      ∷ record { wire = serialize_telemetry F (to_telemetry_payload snapshot events); target = e }
      ∷ datagrams events rest

  datagrams-append :
      (events : List EventRecord) (xs ys : List (Snapshot A))
      → datagrams events (xs ++ ys) ≡ datagrams events xs ++ datagrams events ys
  datagrams-append events [] ys = refl
  datagrams-append events (x ∷ xs) ys = rw (datagrams-append events xs ys) refl

  -- The state after snapshots have been queued for the viewer.
  abbrev pub sent_to : List (Snapshot A) → SocketLive A → SocketLive A
  sent_to batch t = record t {
    pending_udp_messages = t.pending_udp_messages ++ datagrams t.session.events batch;
    last_snapshot_sent_index = t.last_snapshot_sent_index + length batch;
  }

  -- Equal queues and equal indices.
  queued :
      (t : SocketLive A) {p q : List PendingDatagram} {i j : ℕ}
      → p ≡ q
      → i ≡ j
      → record t { pending_udp_messages = p; last_snapshot_sent_index = i }
        ≡ record t { pending_udp_messages = q; last_snapshot_sent_index = j }
  queued t h k = rw (h, k) refl

  pub queue_batch_lem :
      (limit : ℕ) (waiting : List (Snapshot A)) (t : SocketLive A)
      → queue_batch F limit e waiting t ≡ sent_to (take limit waiting) t
  unfolding queue_batch queue_snapshot queue_udp_datagram
  queue_batch_lem zero waiting t = rw (append-nil, add-zero) refl
  queue_batch_lem (suc limit) [] t = rw (append-nil, add-zero) refl
  queue_batch_lem (suc limit) (snapshot ∷ waiting) t =
      rw
        (queue_batch_lem limit waiting (record (queue_snapshot F e snapshot t) {
          last_snapshot_sent_index = t.last_snapshot_sent_index + 1;
        }))
        (queued t (simp append_assoc) (omega arith))

  -- Where no snapshot is sent.
  nothing_left :
      (t : SocketLive A) (batch : List (Snapshot A)) → length batch ≡ 0 → t ≡ sent_to batch t
  nothing_left t [] h = rw (append-nil, add-zero) refl
  nothing_left t (snapshot ∷ batch) h = absurd (omega arith)

  module _ (t : SocketLive A) where
    -- The snapshots that have not been sent.
    abbrev pub waiting : List (Snapshot A)
    waiting = drop t.last_snapshot_sent_index t.session.snapshots

    -- A call sends the next snapshots, as many as a batch has.
    send_lem :
        t.viewer_endpoint ≡ some e
        → t.config.server.udp_send_latest_only ≡ false
        → send_pending_snapshots F t ≡ sent_to (take (batch_limit t) waiting) t
    unfolding send_pending_snapshots
    send_lem bound all =
        ap (λ v. send_to F v t) bound
        ∙ elim (Bool-cases (leb (length t.session.snapshots) t.last_snapshot_sent_index)) [
          | inl h ↦
              if-true _ _ h
              ∙ nothing_left t (take (batch_limit t) waiting) (
                  ground (
                    arith,
                    take_bounds (batch_limit t) waiting,
                    length-drop t.last_snapshot_sent_index t.session.snapshots,
                  ))
          | inr h ↦
              if-false _ _ h
              ∙ if-false _ _ (
                  ap (λ b. b && ltb 1 (length t.session.snapshots - t.last_snapshot_sent_index))
                    all)
              ∙ queue_batch_lem (batch_limit t) waiting t
        ]

  -- The call, as often as `n` says.
  abbrev pub send_often : ℕ → SocketLive A → SocketLive A
  send_often zero t = t
  send_often (suc n) t = send_often n (send_pending_snapshots F t)

  -- Where a viewer is bound and every snapshot is to be sent, the call, repeated as often as there
  -- are snapshots that have not been sent (or oftener), queues the two datagrams of each of these
  -- snapshots behind what was queued, in their order and once, and moves the index on by their
  -- number, however small a batch is. Nothing else changes.
  pub send_often_delivers :
      (n : ℕ) (t : SocketLive A)
      → t.viewer_endpoint ≡ some e
      → t.config.server.udp_send_latest_only ≡ false
      → length (waiting t) ≤ n
      → send_often n t ≡ sent_to (waiting t) t
  send_often_delivers zero t bound all fits = nothing_left t (waiting t) (omega arith)
  send_often_delivers (suc n) t bound all fits =
      let batch = take (batch_limit t) (waiting t) in
      let next = sent_to batch t in
      let rest = drop (length batch) (waiting t) in
      let same : waiting next ≡ rest =
        sym (drop-drop (length batch) t.last_snapshot_sent_index t.session.snapshots) in
      let size = length-drop (length batch) (waiting t) in
      let bounds = take_bounds (batch_limit t) (waiting t) in
      let whole = take-drop-length (batch_limit t) (waiting t) in
      ap (send_often n) (send_lem t bound all)
      ∙ send_often_delivers n next bound all (rw same (ground (arith, size, bounds)))
      ∙ queued t
          (rw same (
            append_assoc t.pending_udp_messages _ _
            ∙ ap (λ ds. t.pending_udp_messages ++ ds)
                (sym (datagrams-append t.session.events batch rest)
                  ∙ ap (datagrams t.session.events) whole)))
          (rw same (
            add_assoc t.last_snapshot_sent_index (length batch) (length rest)
            ∙ ap (λ k. t.last_snapshot_sent_index + k)
                (sym (length-append batch rest) ∙ ap length whole)))
