-- ===== src/Session/Schedule.antt =====
-- common/src/simulation_support.cpp: the measurement schedule and the label of the resilience case.
use inerceptor_command_sim.Base.{ℕ, ◌/◌, ◌%◌, Bool, false, not, ◌&&◌, ◌==◌, if◌then◌else◌}
use inerceptor_command_sim.Base.Text.{Text, bytes}

unfoldable pub measurement_due : ℕ → Bool
measurement_due tick = tick % 3 == 0

unfoldable pub measurement_available : ℕ → Bool
unfolding measurement_due
measurement_available tick = if not (measurement_due tick) then false else not (tick / 3 % 5 == 3)

unfoldable pub build_resilience_case : Bool → Bool → Bool → Text
build_resilience_case reconnect_exercised timeout_exercised packet_gap_exercised =
    if reconnect_exercised && (packet_gap_exercised && timeout_exercised)
    then bytes "reconnect_and_resync,udp_snapshot_gap_convergence,timeout_visibility"
    else if reconnect_exercised && packet_gap_exercised
    then bytes "reconnect_and_resync,udp_snapshot_gap_convergence"
    else if reconnect_exercised && timeout_exercised
    then bytes "reconnect_and_resync,timeout_visibility"
    else if packet_gap_exercised && timeout_exercised
    then bytes "udp_snapshot_gap_convergence,timeout_visibility"
    else if reconnect_exercised
    then bytes "reconnect_and_resync"
    else if timeout_exercised
    then bytes "timeout_visibility"
    else if packet_gap_exercised
    then bytes "udp_snapshot_gap_convergence"
    else bytes "none"
