-- ===== src/Transport/SocketLive/Progress.antt =====
-- What the transport relies on when the session moves on.
use inerceptor_command_sim.Base.{ℕ, refl, List, arith}
use inerceptor_command_sim.Base.Text.{Text}
use inerceptor_command_sim.Floats.{FloatOps}
use inerceptor_command_sim.Core.Config.{ScenarioConfig}
use inerceptor_command_sim.Core.Types.{ClientRole}
use inerceptor_command_sim.Session.State.{Session, push_event}
use inerceptor_command_sim.Session.Clients.{connect_client, disconnect_client, timeout_client}
use inerceptor_command_sim.Session.Track.{clear_track_state, reset_world_state_from_scenario}
use inerceptor_command_sim.Session.Commands.{
  record_transport_rejection, configure_scenario, archive_session,
}
use inerceptor_command_sim.Session.Tick.{advance_tick}
use inerceptor_command_sim.Session.Run.{Command, perform}
use inerceptor_command_sim.Session.Growth.{
  Grows, connect-Grows, disconnect-Grows, rejection-Grows, timeout-Grows, archive-Grows, tick-Grows,
  perform-Grows,
}
use inerceptor_command_sim.Transport.InProcess.Senders.{
  KeepsConsole, timeout-KeepsConsole, perform-KeepsConsole, archive-KeepsConsole, tick-KeepsConsole,
}

-- The logs have not shrunk, and the console has stayed.
pub record IsProgress {A : Type 0} (s t : Session A) : Type 0 where
  pub grows : Grows s t
  pub console : KeepsConsole s t

module _ {A : Type 0} where
  pub reject-IsProgress :
      (summary reason : Text) (ids : List Text) (s : Session A)
      → IsProgress s (record_transport_rejection summary reason ids s).1
  unfolding record_transport_rejection push_event
  reject-IsProgress summary reason ids s = record {
    grows = rejection-Grows summary reason ids s;
    console = record { sender = refl; connection = λ h. h };
  }

  pub join-IsProgress :
      (id : ℕ) (s : Session A) → IsProgress s (connect_client ClientRole.tactical_display id s)
  unfolding connect_client push_event
  join-IsProgress id s = record {
    grows = connect-Grows ClientRole.tactical_display id s;
    console = record { sender = ground arith; connection = ground arith };
  }

  pub leave-IsProgress :
      (reason : Text) (s : Session A)
      → IsProgress s (disconnect_client ClientRole.tactical_display reason s)
  unfolding disconnect_client push_event
  leave-IsProgress reason s = record {
    grows = disconnect-Grows ClientRole.tactical_display reason s;
    console = record { sender = refl; connection = λ h. h };
  }

module _ {A : Type 0} (F : FloatOps A) (w : ℕ) where
  pub perform-IsProgress : (c : Command) (s : Session A) → IsProgress s (perform F w c s).1
  perform-IsProgress c s = record {
    grows = perform-Grows F w c s;
    console = perform-KeepsConsole F w s c;
  }

  pub start-IsProgress :
      (scenario : ScenarioConfig) (s : Session A)
      → IsProgress s (perform F w Command.start (configure_scenario F scenario s)).1
  unfolding configure_scenario clear_track_state reset_world_state_from_scenario
  start-IsProgress scenario s =
      let started = perform-IsProgress Command.start (configure_scenario F scenario s) in
      record {
        grows = record { snapshots = started.grows.snapshots; events = started.grows.events };
        console = record {
          sender = started.console.sender;
          connection = started.console.connection;
        };
      }

  pub archive-IsProgress : (s : Session A) → IsProgress s (archive_session F w s)
  archive-IsProgress s = record {
    grows = archive-Grows F w s;
    console = archive-KeepsConsole F w s;
  }

  pub tick-IsProgress : (s : Session A) → IsProgress s (advance_tick F w s)
  tick-IsProgress s = record { grows = tick-Grows F w s; console = tick-KeepsConsole F w s }

  pub timeout-IsProgress :
      (role : ClientRole) (reason : Text) (s : Session A)
      → IsProgress s (timeout_client F role reason w s)
  timeout-IsProgress role reason s = record {
    grows = timeout-Grows F w role reason s;
    console = timeout-KeepsConsole F w s role reason;
  }
