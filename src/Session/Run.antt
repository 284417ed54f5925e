-- ===== src/Session/Run.antt =====
-- The public operations of SimulationSession as calls, and the sessions that they reach.
use inerceptor_command_sim.Base.{ℕ, ◌≡◌, List, [], ◌∷◌}
use inerceptor_command_sim.Base.Text.{Text}
use inerceptor_command_sim.Floats.{FloatOps}
use inerceptor_command_sim.Core.Config.{ScenarioConfig}
use inerceptor_command_sim.Core.Types.{ClientRole, SessionPhase, CommandResult}
use inerceptor_command_sim.Session.State.{Session}
use inerceptor_command_sim.Session.Clients.{connect_client, disconnect_client, timeout_client}
use inerceptor_command_sim.Session.Commands.{
  start_scenario, configure_scenario, reset_session, request_track, release_track, activate_asset,
  issue_command, archive_session, record_transport_rejection,
}
use inerceptor_command_sim.Session.Tick.{advance_tick}

pub data Call : Type 0 where
  connects : ClientRole → ℕ → Call
  disconnects : ClientRole → Text → Call
  times_out : ClientRole → Text → Call
  starts : Call
  configures : ScenarioConfig → Call
  resets : Text → Call
  requests_track : Call
  releases_track : Call
  activates : Call
  issues : Call
  rejects_transport : Text → Text → List Text → Call
  ticks : Call
  archives : Call

module _ {A : Type 0} (F : FloatOps A) where
  unfoldable pub step : ℕ → Call → Session A → Session A
  step wall_time_ms (Call.connects role sender_id) s = connect_client role sender_id s
  step wall_time_ms (Call.disconnects role reason) s = disconnect_client role reason s
  step wall_time_ms (Call.times_out role reason) s = timeout_client F role reason wall_time_ms s
  step wall_time_ms Call.starts s = (start_scenario F wall_time_ms s).1
  step wall_time_ms (Call.configures c) s = configure_scenario F c s
  step wall_time_ms (Call.resets reason) s = (reset_session F reason wall_time_ms s).1
  step wall_time_ms Call.requests_track s = (request_track F wall_time_ms s).1
  step wall_time_ms Call.releases_track s = (release_track F wall_time_ms s).1
  step wall_time_ms Call.activates s = (activate_asset F wall_time_ms s).1
  step wall_time_ms Call.issues s = (issue_command F wall_time_ms s).1
  step wall_time_ms (Call.rejects_transport summary reason ids) s =
      (record_transport_rejection summary reason ids s).1
  step wall_time_ms Call.ticks s = advance_tick F wall_time_ms s
  step wall_time_ms Call.archives s = archive_session F wall_time_ms s

  -- A history is a list of calls, each with the wall clock at its time.
  unfoldable pub run : List (ℕ × Call) → Session A → Session A
  run [] s = s
  run ((wall_time_ms, c) ∷ calls) s = run calls (step wall_time_ms c s)

-- A scenario is configured in the standby phase only, as the socket transport does.
abbrev pub IsOrderly : {A : Type 0} → Call → Session A → Type 0
IsOrderly (Call.configures c) s = s.phase ≡ SessionPhase.standby
IsOrderly _ s = Unit {0}

-- The five commands of the fire control console.
pub data Command : Type 0 where
  start track drop arm fire : Command

module _ {A : Type 0} (F : FloatOps A) where
  unfoldable pub perform : ℕ → Command → Session A → CommandResult × Session A
  perform wall_time_ms Command.start s = start_scenario F wall_time_ms s
  perform wall_time_ms Command.track s = request_track F wall_time_ms s
  perform wall_time_ms Command.drop s = release_track F wall_time_ms s
  perform wall_time_ms Command.arm s = activate_asset F wall_time_ms s
  perform wall_time_ms Command.fire s = issue_command F wall_time_ms s

  -- A tick for each wall clock of the list.
  unfoldable pub advance_ticks : List ℕ → Session A → Session A
  advance_ticks [] s = s
  advance_ticks (wall_time_ms ∷ rest) s = advance_ticks rest (advance_tick F wall_time_ms s)
