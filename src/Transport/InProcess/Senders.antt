-- ===== src/Transport/InProcess/Senders.antt =====
-- The sender of the commands and the session's console agree.
use inerceptor_command_sim.Base.{
  ℕ, ◌≡◌, ◌≢◌, refl, sym, ◌∙◌, ◌⊎◌, inl, Bool, true, false, List, [], ◌∷◌, arith,
}
use inerceptor_command_sim.Base.Int.{ℤ}
use inerceptor_command_sim.Base.Text.{Text}
use inerceptor_command_sim.Base.Word.{add64}
use inerceptor_command_sim.Session.Stages.{advance_world-SameControl}
use inerceptor_command_sim.Floats.{FloatOps}
use inerceptor_command_sim.Core.Config.{ScenarioConfig}
use inerceptor_command_sim.Core.Types.{ClientRole, ClientState, CommandResult, is_disconnected}
use inerceptor_command_sim.Session.State.{Session, push_event, reject_command}
use inerceptor_command_sim.Session.Snapshots.{record_snapshot}
use inerceptor_command_sim.Session.Clients.{connect_client, disconnect_client, timeout_client}
use inerceptor_command_sim.Session.Track.{
  clear_track_state, seed_track_state_from_target, reset_world_state_from_scenario,
}
use inerceptor_command_sim.Session.Commands.{
  start_scenario, reset_session, request_track, release_track, activate_asset, issue_command,
  archive_session,
}
use inerceptor_command_sim.Session.Tick.{
  begin_intercept, assess_engagement, exercise_packet_gap, advance_tick,
}
use inerceptor_command_sim.Session.Run.{Command, perform}
use inerceptor_command_sim.Transport.InProcess.{
  InProcessTransport, Request, Operation, default_session_id, connect, disconnect, set_sender,
  new_transport, dispatch, operate, operate_all,
}
use inerceptor_command_sim.Transport.InProcess.Routing.{
  IsRouted, command_of, envelope_of, is_addressed, dispatch-IsRouted,
}

-- The sender is 0, or it is the session's console, which is not disconnected.
abbrev pub IsSender : ℕ → ClientState → Type 0
IsSender id c = (id ≡ 0) ⊎ ((c.sender_id ≡ id) × (is_disconnected c.connection ≡ false))

-- The session's console has kept its sender, and is not disconnected unless it was.
pub record KeepsConsole {A : Type 0} (s t : Session A) : Type 0 where
  pub sender : t.fire_control_console.sender_id ≡ s.fire_control_console.sender_id
  pub connection :
      is_disconnected s.fire_control_console.connection ≡ false
      → is_disconnected t.fire_control_console.connection ≡ false

module _ {A : Type 0} where
  pub keep :
      (id : ℕ) (s t : Session A)
      → KeepsConsole s t
      → IsSender id s.fire_control_console
      → IsSender id t.fire_control_console
  keep id s t k h = ground (arith, k.sender, k.connection)

module _ {A : Type 0} (F : FloatOps A) (w : ℕ) (s : Session A) where
  pub timeout-KeepsConsole :
      (role : ClientRole) (reason : Text) → KeepsConsole s (timeout_client F role reason w s)
  unfolding timeout_client push_event record_snapshot
  timeout-KeepsConsole ClientRole.fire_control_console reason = record {
    sender = refl;
    connection = λ h. refl;
  }
  timeout-KeepsConsole ClientRole.tactical_display reason = record {
    sender = refl;
    connection = λ h. h;
  }

  pub start-KeepsConsole : KeepsConsole s (start_scenario F w s).1
  unfolding start_scenario clear_track_state reject_command push_event record_snapshot
  start-KeepsConsole = record { sender = ground arith; connection = ground arith }

  pub reset-KeepsConsole : (reason : Text) → KeepsConsole s (reset_session F reason w s).1
  unfolding reset_session clear_track_state reset_world_state_from_scenario record_snapshot
  reset-KeepsConsole reason = record { sender = ground arith; connection = ground arith }

  pub perform-KeepsConsole : (c : Command) → KeepsConsole s (perform F w c s).1
  unfolding perform start_scenario request_track release_track activate_asset issue_command
      clear_track_state seed_track_state_from_target reject_command push_event record_snapshot
  perform-KeepsConsole Command.start = start-KeepsConsole
  perform-KeepsConsole Command.track = record { sender = ground arith; connection = ground arith }
  perform-KeepsConsole Command.drop = record { sender = ground arith; connection = ground arith }
  perform-KeepsConsole Command.arm = record { sender = ground arith; connection = ground arith }
  perform-KeepsConsole Command.fire = record { sender = ground arith; connection = ground arith }

  pub archive-KeepsConsole : KeepsConsole s (archive_session F w s)
  unfolding archive_session push_event record_snapshot
  archive-KeepsConsole = record { sender = ground arith; connection = ground arith }

  pub tick-KeepsConsole : KeepsConsole s (advance_tick F w s)
  unfolding advance_tick assess_engagement exercise_packet_gap record_snapshot push_event
      begin_intercept archive_session
  tick-KeepsConsole =
      let world = advance_world-SameControl F (record s { tick = add64 s.tick 1 }) in
      record { sender = ground (arith, world); connection = ground (arith, world) }

-- The transport's sender of commands is 0, or it is the console that the session shows as connected.
pub record IsSynced {A : Type 0} (t : InProcessTransport A) : Type 0 where
  pub sender : IsSender t.command_sender_id t.session.fire_control_console

module _ {A : Type 0} (F : FloatOps A) where
  through :
      (t : InProcessTransport A) (s : Session A)
      → KeepsConsole t.session s
      → IsSynced t
      → IsSynced (record t { session = s })
  through t s k h = record { sender = keep t.command_sender_id t.session s k h.sender }

  routed-IsSynced :
      (b : Bool) (w : ℕ) (r : Request) (t : InProcessTransport A)
      (result : CommandResult × InProcessTransport A)
      → IsRouted F b w r t result
      → IsSynced t
      → IsSynced result.1
  routed-IsSynced true w r t result e h =
      rw e (through t _ (perform-KeepsConsole F w t.session (command_of r)) h)
  routed-IsSynced false w r t result k h = rw k.logged.3 (record { sender = h.sender })

  connect-IsSynced :
      (role : ClientRole) (id : ℕ) (t : InProcessTransport A)
      → IsSynced t
      → IsSynced (connect role id t)
  unfolding connect set_sender connect_client push_event
  connect-IsSynced ClientRole.fire_control_console id t h = record { sender = ground arith }
  connect-IsSynced ClientRole.tactical_display id t h = record { sender = ground (arith, h.sender) }

  disconnect-IsSynced :
      (role : ClientRole) (reason : Text) (t : InProcessTransport A)
      → IsSynced t
      → IsSynced (disconnect role reason t)
  unfolding disconnect set_sender disconnect_client push_event
  disconnect-IsSynced ClientRole.fire_control_console reason t h = record { sender = inl refl }
  disconnect-IsSynced ClientRole.tactical_display reason t h = record { sender = h.sender }

  operate-IsSynced :
      (w : ℕ) (o : Operation) (t : InProcessTransport A) → IsSynced t → IsSynced (operate F w o t)
  unfolding operate
  operate-IsSynced w (Operation.connects role id) t h = connect-IsSynced role id t h
  operate-IsSynced w (Operation.disconnects role reason) t h = disconnect-IsSynced role reason t h
  operate-IsSynced w (Operation.times_out role reason) t h =
      through t _ (timeout-KeepsConsole F w t.session role reason) h
  operate-IsSynced w Operation.starts t h = through t _ (start-KeepsConsole F w t.session) h
  operate-IsSynced w (Operation.resets reason) t h =
      through t _ (reset-KeepsConsole F w t.session reason) h
  operate-IsSynced w (Operation.dispatches r) t h =
      routed-IsSynced (is_addressed r t) w r t (dispatch F w r t) (dispatch-IsRouted F w r t) h
  operate-IsSynced w Operation.ticks t h = through t _ (tick-KeepsConsole F w t.session) h
  operate-IsSynced w Operation.archives t h = through t _ (archive-KeepsConsole F w t.session) h

  operate_all-IsSynced :
      (os : List (ℕ × Operation)) (t : InProcessTransport A)
      → IsSynced t
      → IsSynced (operate_all F os t)
  unfolding operate_all
  operate_all-IsSynced [] t h = h
  operate_all-IsSynced ((w, o) ∷ rest) t h =
      operate_all-IsSynced rest (operate F w o t) (operate-IsSynced w o t h)

  new_transport-IsSynced : (rate : ℤ) (c : ScenarioConfig) → IsSynced (new_transport F rate c)
  unfolding new_transport
  new_transport-IsSynced rate c = record { sender = inl refl }

  -- What an accepted payload tells of its sender and of the session's console.
  pub record IsAuthentic (r : Request) (t : InProcessTransport A) : Type 0 where
    pub session_id : (envelope_of r).session_id ≡ default_session_id
    pub nonzero : (envelope_of r).sender_id ≢ 0
    pub sender_id : (envelope_of r).sender_id ≡ t.session.fire_control_console.sender_id
    pub connected : is_disconnected t.session.fire_control_console.connection ≡ false

  authentic :
      (w : ℕ) (r : Request) (t : InProcessTransport A)
      → IsSynced t
      → is_addressed r t ≡ true
      → IsAuthentic r t
  authentic w r t h e = record {
    session_id = ground (arith, h.sender);
    nonzero = ground (arith, h.sender);
    sender_id = ground (arith, h.sender);
    connected = ground (arith, h.sender);
  }

  accepted_is_addressed :
      (b : Bool) (w : ℕ) (r : Request) (t : InProcessTransport A)
      (result : CommandResult × InProcessTransport A)
      → IsRouted F b w r t result
      → result.0.is_accepted ≡ true
      → b ≡ true
  accepted_is_addressed true w r t result e accepted = refl
  accepted_is_addressed false w r t result k accepted = sym k.refused ∙ accepted

  -- Whatever operations the transport has been through, a payload that it accepts carries the
  -- session's id and a sender that is not 0 and is the console of the session, and the console is
  -- not disconnected (it may have timed out).
  pub dispatch-IsAuthentic :
      (rate : ℤ) (c : ScenarioConfig) (os : List (ℕ × Operation)) (w : ℕ) (r : Request)
      → (dispatch F w r (operate_all F os (new_transport F rate c))).0.is_accepted ≡ true
      → IsAuthentic r (operate_all F os (new_transport F rate c))
  dispatch-IsAuthentic rate c os w r accepted =
      let t = operate_all F os (new_transport F rate c) in
      authentic w r t (operate_all-IsSynced os _ (new_transport-IsSynced rate c)) (
        accepted_is_addressed (is_addressed r t) w r t (dispatch F w r t)
          (dispatch-IsRouted F w r t) accepted)
