-- ===== src/Transport/SocketLive/Soundness.antt =====
-- The invariant of the transport, and that the frames of the console keep it.
pub mod Rounds
pub mod Calls
pub mod Reviews
use inerceptor_command_sim.Base.{ℕ, ◌≤◌, refl, arith, length}
use inerceptor_command_sim.Floats.{FloatOps}
use inerceptor_command_sim.Core.Types.{ClientRole}
use inerceptor_command_sim.Protocol.Payloads.Review.{AarRequestPayload}
use inerceptor_command_sim.Session.State.{push_event}
use inerceptor_command_sim.Session.Clients.{connect_client, disconnect_client}
use inerceptor_command_sim.Session.Commands.{reset_session}
use inerceptor_command_sim.Session.Growth.{connect-Grows, disconnect-Grows}
use inerceptor_command_sim.Transport.InProcess.Senders.{IsSender, keep, reset-KeepsConsole}
use inerceptor_command_sim.Transport.SocketLive.State.{SocketLive}
use inerceptor_command_sim.Transport.SocketLive.Delivery.{
  disconnect_station, reset_viewer_delivery_cursor,
}
use inerceptor_command_sim.Transport.SocketLive.Replay.{seed_cursor, resolve_replay_cursor}
use inerceptor_command_sim.Transport.SocketLive.Progress.{IsProgress}
use inerceptor_command_sim.Transport.SocketLive.Sends.{pending-IsSend}
use inerceptor_command_sim.Transport.SocketLive.Kept.{IsKept}
use inerceptor_command_sim.View.ReplayCursor.{
  ReplayCursor, IsOnEntry, make_replay_cursor, step_forward, step_backward, jump_to,
}

-- The cursor is on one of the entries that it counts (or at 0 of none), and the log holds them all.
pub record IsInLog (size : ℕ) (c : ReplayCursor) : Type 0 where
  pub on_entry : IsOnEntry c.total c
  pub known : c.total ≤ size

-- The index of the snapshots is inside the log or at its end, the cursor of the review is in the log
-- of events, and the sender of the commands is 0 or the session's console, which is not disconnected.
pub record IsSound {A : Type 0} (t : SocketLive A) : Type 0 where
  pub sent : t.last_snapshot_sent_index ≤ length t.session.snapshots
  pub cursor : IsInLog (length t.session.events) t.replay_cursor
  pub console : IsSender t.command_sender_id t.session.fire_control_console

grown-IsInLog : {m n : ℕ} (c : ReplayCursor) → m ≤ n → IsInLog m c → IsInLog n c
grown-IsInLog c k h = record { on_entry = h.on_entry; known = omega (arith, h.known, k) }

module _ {A : Type 0} where
  seed-IsOnEntry :
      (p : AarRequestPayload) (t : SocketLive A)
      → IsOnEntry t.replay_cursor.total t.replay_cursor
      → IsOnEntry (length t.session.events) (seed_cursor p t)
  unfolding seed_cursor make_replay_cursor
  seed-IsOnEntry p t h = ground (arith, h.inside)

  pub resolve-IsOnEntry :
      (p : AarRequestPayload) (t : SocketLive A)
      → IsInLog (length t.session.events) t.replay_cursor
      → IsOnEntry (length t.session.events) (resolve_replay_cursor p t).cursor
  unfolding resolve_replay_cursor step_forward step_backward jump_to make_replay_cursor
  resolve-IsOnEntry p t h =
      let seed = seed-IsOnEntry p t h.on_entry in ground (arith, seed.same, seed.inside)

module _ {A : Type 0} (F : FloatOps A) where
  pub moved-IsSound :
      (s : _) (t : SocketLive A)
      → IsProgress t.session s
      → IsSound t
      → IsSound (record t { session = s })
  moved-IsSound s t k h = record {
    sent = omega (arith, h.sent, k.grows.snapshots);
    cursor = grown-IsInLog t.replay_cursor k.grows.events h.cursor;
    console = keep t.command_sender_id t.session s k.console h.console;
  }

  pub IsSound-IsKept : IsKept F (IsSound {A = A})
  unfolding disconnect_station reset_viewer_delivery_cursor connect_client disconnect_client
      push_event
  IsSound-IsKept = record {
    queued = λ lines sequence t h. record { sent = h.sent; cursor = h.cursor; console = h.console };
    moved = moved-IsSound;
    sent = λ t h.
        let e = pending-IsSend F t in
        record {
          sent = rw e.session (e.index h.sent);
          cursor = rw (e.session, e.cursor) h.cursor;
          console = rw (e.sender, e.session) h.console;
        };
    joined = λ id t h.
        let grows = connect-Grows ClientRole.fire_control_console id t.session in
        record {
          sent = ground (arith, h.sent, grows.snapshots);
          cursor = grown-IsInLog t.replay_cursor grows.events h.cursor;
          console = ground arith;
        };
    left = λ reason t h.
        let grows = disconnect-Grows ClientRole.fire_control_console reason t.session in
        let kept = grown-IsInLog t.replay_cursor grows.events h.cursor in
        record {
          sent = ground (arith, h.sent, grows.snapshots);
          cursor = record {
            on_entry = ground (arith, kept.on_entry);
            known = ground (arith, h.cursor.known, kept.known);
          };
          console = ground arith;
        };
    reset = λ reason w t h. record {
      sent = ground arith;
      cursor = record { on_entry = ground arith; known = ground arith };
      console =
          let moved =
            keep t.command_sender_id t.session (reset_session F reason w t.session).1
              (reset-KeepsConsole F w t.session reason) h.console in
          ground (arith, moved);
    };
    reviewed = λ p t h. record {
      sent = h.sent;
      cursor =
          let r = resolve-IsOnEntry p t h.cursor in
          record {
            on_entry = record { same = refl; inside = ground (arith, r.same, r.inside) };
            known = omega (arith, r.same);
          };
      console = h.console;
    };
  }
