-- ===== src/Tests/Protocol.antt =====
-- The protocol's theorems on concrete messages.
use inerceptor_command_sim.Base.{◌≡◌, ◌≢◌, ◌++◌, refl, true, none, some, [], ◌∷◌, arith, take, All}
use inerceptor_command_sim.Base.Int.{pos, negsuc}
use inerceptor_command_sim.Base.Result.{ok, undefined}
use inerceptor_command_sim.Base.Text.{Text, bytes, text_eq}
use inerceptor_command_sim.Protocol.Messages.{SessionEnvelope}
use inerceptor_command_sim.Protocol.Frame.{u32_bytes, encode_binary_frame, try_decode_binary_frame}
use inerceptor_command_sim.Protocol.Frame.RoundTrip.{try_decode_binary_frame-encode}
use inerceptor_command_sim.Protocol.Frame.Sizes.{try_decode_binary_frame_defined}
use inerceptor_command_sim.Protocol.Frame.Safety.{try_decode_binary_frame-prefix}
use inerceptor_command_sim.Protocol.Fields.{
  encode_field_value, decode_field_value, parse_fields, join_fields,
}
use inerceptor_command_sim.Protocol.Fields.Percent.{IsByte, decode-encode_field_value}
use inerceptor_command_sim.Protocol.Fields.Wire.{lookup, parse_fields-join_fields}
use inerceptor_command_sim.Protocol.Payloads.Envelope.{
  is_valid_aar_control, is_valid_assessment_code,
}
use inerceptor_command_sim.Protocol.Payloads.Fieldwise.{IsEnvelope, is_clean}
use inerceptor_command_sim.Protocol.Payloads.Scenario.{
  ScenarioStartPayload, serialize_scenario_start, parse_scenario_start,
}
use inerceptor_command_sim.Protocol.Payloads.Scenario.RoundTrip.{parse-serialize_scenario_start}
use inerceptor_command_sim.Protocol.Payloads.Commands.{
  EngageOrderPayload, serialize_engage_order, parse_engage_order,
}
use inerceptor_command_sim.Protocol.Payloads.Commands.RoundTrip.{parse-serialize_engage_order}
use inerceptor_command_sim.Protocol.Payloads.Review.{
  AarResponsePayload, serialize_aar_response, parse_aar_response,
}
use inerceptor_command_sim.Protocol.Payloads.Review.RoundTrip.{parse-serialize_aar_response}

abbrev kind : Text
kind = 116 ∷ 105 ∷ 99 ∷ 107 ∷ []

abbrev payload : Text
payload = 97 ∷ 61 ∷ 59 ∷ 37 ∷ 255 ∷ []

try_decode_binary_frame-encode_example :
    try_decode_binary_frame (encode_binary_frame kind payload ++ 0 ∷ 0 ∷ [])
    ≡ ok (some (record { kind = kind; payload = payload }), 0 ∷ 0 ∷ [])
try_decode_binary_frame-encode_example =
    try_decode_binary_frame-encode kind payload (omega arith) (0 ∷ 0 ∷ [])

try_decode_binary_frame-prefix_example :
    let b = take 10 (encode_binary_frame kind payload) in try_decode_binary_frame b ≡ ok (none, b)
unfolding encode_binary_frame u32_bytes
try_decode_binary_frame-prefix_example =
    try_decode_binary_frame-prefix kind payload 10 (omega arith) (omega arith)

abbrev wrapping_frame : Text
wrapping_frame = 255 ∷ 255 ∷ 255 ∷ 253 ∷ 1 ∷ 0 ∷ 0 ∷ 0 ∷ 0 ∷ []

try_decode_binary_frame_defined_example : try_decode_binary_frame wrapping_frame ≢ undefined
try_decode_binary_frame_defined_example =
    try_decode_binary_frame_defined wrapping_frame
      (
        omega arith,
        (
          omega arith,
          (
            omega arith,
            (
              omega arith,
              (omega arith, (omega arith, (omega arith, (omega arith, (omega arith, tt))))),
            ),
          ),
        ),
      )
      (omega arith)

decode-encode_field_value_example : decode_field_value (encode_field_value payload) ≡ ok payload
decode-encode_field_value_example =
    decode-encode_field_value payload
      (omega arith, (omega arith, (omega arith, (omega arith, (omega arith, tt)))))

-- The second value of `kind` is lost.
parse_fields-join_fields_example :
    parse_fields (join_fields ((kind, payload) ∷ (kind, []) ∷ []))
    ≡ ok (lookup ((kind, payload) ∷ (kind, []) ∷ []))
parse_fields-join_fields_example = parse_fields-join_fields ((kind, payload) ∷ (kind, []) ∷ []) (
  (
    (refl, (refl, (refl, (refl, tt)))),
    (refl, (refl, (refl, (refl, tt)))),
    (omega arith, (omega arith, (omega arith, (omega arith, (omega arith, tt))))),
  ),
  (((refl, (refl, (refl, (refl, tt)))), (refl, (refl, (refl, (refl, tt)))), tt), tt),
)

abbrev pub envelope : SessionEnvelope
envelope = record { session_id = 1001; sender_id = 101; sequence = 7 }

pub envelope-IsEnvelope : IsEnvelope envelope
envelope-IsEnvelope = record {
  session_id_fits = omega arith;
  sender_id_fits = omega arith;
  sequence_fits = omega arith;
}

abbrev order : EngageOrderPayload
order = record { envelope = envelope; interceptor_id = 105 ∷ 59 ∷ []; target_id = 116 ∷ [] }

parse-serialize_engage_order_example : parse_engage_order (serialize_engage_order order) ≡ ok order
parse-serialize_engage_order_example =
    parse-serialize_engage_order order
      (envelope-IsEnvelope, (omega arith, (omega arith, tt)), (omega arith, tt))

abbrev scenario : ScenarioStartPayload
scenario = record {
  envelope = envelope;
  scenario_name = 98 ∷ [];
  world_width = pos 2304;
  world_height = pos 1536;
  target_start_x = pos 480;
  target_start_y = pos 1200;
  target_velocity_x = pos 5;
  target_velocity_y = negsuc 2;
  interceptor_start_x = pos 0;
  interceptor_start_y = pos 0;
  interceptor_speed_per_tick = pos 32;
  intercept_radius = pos 24;
  engagement_timeout_ticks = pos 60;
  seeker_fov_deg = pos 45;
  launch_angle_deg = pos 45;
}

parse-serialize_scenario_start_example :
    parse_scenario_start (serialize_scenario_start scenario) ≡ ok scenario
parse-serialize_scenario_start_example = parse-serialize_scenario_start scenario (
  envelope-IsEnvelope,
  (omega arith, tt),
  omega arith,
  omega arith,
  omega arith,
  omega arith,
  omega arith,
  omega arith,
  omega arith,
  omega arith,
  omega arith,
  omega arith,
  omega arith,
  omega arith,
  omega arith,
)

pub clean : (s : Text) → is_clean s ≡ true → All IsByte s
unfolding is_clean
clean [] h = tt
clean (c ∷ s) h = ground (arith, clean s)

abbrev response : AarResponsePayload
response = record {
  envelope = envelope;
  replay_cursor_index = 2;
  control = bytes "absolute";
  requested_index = 9;
  clamped = true;
  assessment_code = bytes "pending";
  resilience_case = [];
  total_events = 3;
  event_type = [];
  event_summary = 59 ∷ [];
}

parse-serialize_aar_response_example :
    parse_aar_response (serialize_aar_response response) ≡ ok response
unfolding bytes is_clean is_valid_aar_control is_valid_assessment_code text_eq
parse-serialize_aar_response_example = parse-serialize_aar_response response (
  envelope-IsEnvelope,
  omega arith,
  clean (bytes "absolute") refl,
  refl,
  omega arith,
  clean (bytes "pending") refl,
  refl,
  tt,
  omega arith,
  tt,
  (omega arith, tt),
)
