-- ===== src/Transport/SocketLive/Sends.antt =====
-- What sending the snapshots that wait leaves alone.
use inerceptor_command_sim.Base.{
  ◌≤◌, ◌≡◌, refl, Option, none, some, arith, length, get_last?, take_bounds, length-drop,
}
use inerceptor_command_sim.Floats.{FloatOps}
use inerceptor_command_sim.Core.Types.{Snapshot}
use inerceptor_command_sim.Transport.SocketLive.State.{Endpoint, SocketLive}
use inerceptor_command_sim.Transport.SocketLive.Delivery.{
  batch_limit, queue_udp_datagram, queue_snapshot, queue_batch, queue_newest, queue_latest, send_to,
  send_pending_snapshots,
}
use inerceptor_command_sim.Transport.SocketLive.Batches.{queue_batch_lem, waiting}
use inerceptor_command_sim.Transport.SocketLive.Kept.{if-kept}

-- The second state differs in the queue of datagrams and in the index of the snapshots alone, and
-- that index is not past the end of the log if it was not.
pub record IsSend {A : Type 0} (t u : SocketLive A) : Type 0 where
  pub session : u.session ≡ t.session
  pub tcp_buffer : u.tcp_buffer ≡ t.tcp_buffer
  pub sender : u.command_sender_id ≡ t.command_sender_id
  pub cursor : u.replay_cursor ≡ t.replay_cursor
  pub index :
      t.last_snapshot_sent_index ≤ length t.session.snapshots
      → u.last_snapshot_sent_index ≤ length t.session.snapshots

module _ {A : Type 0} (F : FloatOps A) where
  none-IsSend : (t : SocketLive A) → IsSend t t
  none-IsSend t = record {
    session = refl;
    tcp_buffer = refl;
    sender = refl;
    cursor = refl;
    index = λ h. h;
  }

  newest-IsSend :
      (e : Endpoint) (o : Option (Snapshot A)) (t : SocketLive A) → IsSend t (queue_newest F e o t)
  unfolding queue_snapshot queue_udp_datagram
  newest-IsSend e none t = none-IsSend t
  newest-IsSend e (some snapshot) t = record {
    session = refl;
    tcp_buffer = refl;
    sender = refl;
    cursor = refl;
    index = λ h. omega arith;
  }

  latest-IsSend : (e : Endpoint) (t : SocketLive A) → IsSend t (queue_latest F e t)
  unfolding queue_latest
  latest-IsSend e t = newest-IsSend e (get_last? t.session.snapshots) t

  batch-IsSend :
      (e : Endpoint) (t : SocketLive A)
      → IsSend t (queue_batch F (batch_limit t) e (waiting F e t) t)
  batch-IsSend e t =
      let size = length-drop t.last_snapshot_sent_index t.session.snapshots in
      let bounds = take_bounds (batch_limit t) (waiting F e t) in
      rw (queue_batch_lem F e (batch_limit t) (waiting F e t) t) (record {
        session = refl;
        tcp_buffer = refl;
        sender = refl;
        cursor = refl;
        index = λ h. ground (arith, size, bounds);
      })

  pub pending-IsSend : (t : SocketLive A) → IsSend t (send_pending_snapshots F t)
  unfolding send_pending_snapshots
  pending-IsSend t = elim t.viewer_endpoint as (λ o. IsSend t (send_to F o t)) [
    | none ↦ none-IsSend t
    | some e ↦ search (if-kept (IsSend t), none-IsSend, latest-IsSend, batch-IsSend)
  ]
