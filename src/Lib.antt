-- ===== src/Lib.antt =====
-- Verification library of the interceptor command simulator (ICSS).
--
-- The program is a training simulator. One authoritative session (class SimulationSession) holds a
-- target, an interceptor, a track filter, two stations (the fire control console and the tactical
-- display), and a log of events and snapshots. Console commands and timer ticks drive it through its
-- phases: standby, detecting, tracking, interceptor_ready, engage_ordered, intercepting, assessed,
-- archived. Transports carry the commands to it as payloads: lists of `key=value` fields with
-- percent encoding, inside frames.
--
-- What is modelled, and where:
-- - Base: Boolean tests, lists, machine words with their wrap-around, the signed `int` (ℤ, without a
--   range: a property that needs the range has it as a hypothesis), byte strings (Text), decimal
--   text, and Result for code that throws or leaves the defined behaviour of C++.
-- - Floats: `float` and <cmath> as a record of operations, FloatOps. IEEE arithmetic is not in the
--   repository; a property that needs the float order to be asymmetric names it as a hypothesis.
-- - Core: common/include/icss/core/types.hpp (Types), ScenarioConfig of config.hpp (Config), and
--   validate_runtime_config of common/src/config.cpp (Validation).
-- - Session: the class of common/include/icss/core/simulation.hpp. State (fields, construction,
--   push_event, reject_command; simulation_state.cpp), Geometry and Schedule (simulation_support.cpp),
--   Snapshots (simulation_snapshot.cpp), Clients (simulation_clients.cpp), Track (the filter of
--   simulation_state.cpp), Commands (simulation_commands.cpp), Tick (simulation.cpp),
--   Summary (build_summary of simulation_summary.cpp). Run has the
--   public operations as calls, and histories of calls. The other files hold the proofs: Invariant and
--   Reach (well-formedness), Stages (what the motion of a tick leaves alone), Engagement (how an
--   engagement ends), Outcomes (grants and refusals), Phases (the phase graph), Numbering (snapshot
--   sequence numbers), Staleness (age of a measurement), Bounds (positions in the world).
-- - Protocol: common/include/icss/protocol/messages.hpp (Messages), common/src/frame_codec.cpp (Frame:
--   the binary frames; Frame/Json: the JSON lines; Frame/Safety and Frame/Sizes: buffers that are not
--   whole or not well formed), and common/src/serialization.cpp with payloads.hpp: the percent encoding
--   and the field lists (Fields), the numbers (Numbers), the payloads (Payloads; Payloads/Pictures:
--   snapshots and telemetry).
-- - Transport: common/src/transport_common.cpp (Common: the events shown to a client, the snapshot and
--   telemetry payloads), transport_inprocess.cpp (InProcess, with Routing and Senders for the proofs)
--   and transport_socket_live.cpp (SocketLive). The overloads of dispatch are one function on the data
--   type Request.
-- - Transport/SocketLive: State (fields, construction, answers), Delivery (snapshots for the viewer,
--   disconnect_client, timeout_client, advance_tick, archive_session), Sockets (the loops that send),
--   Console and Replay (the branches of process_tcp_frame), Frames (receive_tcp_messages), Viewer
--   (receive_udp_datagrams), Poll (poll_once, and serve for any call of the server). The other files
--   hold the proofs: Stream (bytes sent), Batches and Sends (delivery of snapshots), Progress (what the
--   session keeps), Kept (how a handler keeps a predicate), Soundness (the invariant, and the review),
--   Draining (the loops over the frames end), Requests (from a frame to a command), Faults and Ghosts
--   (what goes wrong).
-- - View: common/include/icss/view/replay_cursor.hpp (ReplayCursor).
-- - Tests: a concrete arithmetic, runs and messages to which the theorems are applied.
--
-- An operation of the session is a function from the old session to the new one, with its result if
-- it has one. The wall clock that a snapshot reads is an argument. A vector is a list with its oldest
-- entry first; a field map, an unordered map in the source, is the function from its keys to their
-- values, and emplace leaves a key that is there as it is. An iterator past the end of a vector is
-- `undefined` where it is formed.
--
-- The calls of the operating system in transport_socket_live.cpp (accept, send, sendto, recv,
-- recvfrom) are not in the repository: their answers are arguments, in the order of the calls, and a
-- loop whose answers are used up ends as if the socket would block. The readings of the clocks are an
-- argument too, the same for all that a round of polling does. An exception ends a handler or a round
-- with the state that it leaves (Handled); reading a log out of range is `undefined`.
--
-- Recursion is structural but for three kinds of loops on fuel: digits, whose fuel is one more than the
-- number (enough, since each digit divides it by ten), the loops of normalize_angle_deg, with four
-- rounds for headings that differ by at most 360 degrees, and the loops over the frames of the TCP
-- buffer, with one more than the bytes of the buffer (enough, since a round takes a byte at least from
-- it and no handler puts one in).
--
-- Not modelled: the creation of the sockets, the GUI, the other clients, the command lines, reading and
-- writing of files (the loader of the configuration, the artifacts, write_example_output), and the text
-- of a float, which is an operation of FloatOps.
pub mod Base
pub mod Floats
pub mod Core
pub mod Protocol
pub mod Session
pub mod Transport
pub mod View
pub mod Tests
