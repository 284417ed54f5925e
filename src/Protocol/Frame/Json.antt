-- ===== src/Protocol/Frame/Json.antt =====
-- The JSON line frames of common/src/frame_codec.cpp. Characters are bytes.
pub mod RoundTrip
use inerceptor_command_sim.Base.{
  ℕ, Bool, true, false, ◌&&◌, List, [], ◌∷◌, ◌++◌, Option, none, some, ◌==◌, if◌then◌else◌,
}
use inerceptor_command_sim.Base.Result.{Result, ok, throws, ◌>>=◌}
use inerceptor_command_sim.Base.Text.{Text, bytes}
use Prim.Native.String.{String}
use inerceptor_command_sim.Protocol.Frame.{FramedMessage}

abbrev pub quote : ℕ
quote = 34

abbrev pub backslash : ℕ
backslash = 92

-- The text for one character: a newline is 10, a carriage return 13 and a tab 9.
unfoldable pub escape_char : ℕ → Text
escape_char ch =
    if ch == backslash
    then backslash ∷ backslash ∷ []
    else if ch == quote
    then backslash ∷ quote ∷ []
    else if ch == 10
    then backslash ∷ b'n' ∷ []
    else if ch == 13
    then backslash ∷ b'r' ∷ []
    else if ch == 9
    then backslash ∷ b't' ∷ []
    else ch ∷ []

unfoldable pub escape_json : Text → Text
escape_json [] = []
escape_json (ch ∷ rest) = escape_char ch ++ escape_json rest

-- The character that stands behind a backslash.
unfoldable pub unescape_char : ℕ → Result ℕ
unescape_char ch =
    if ch == backslash
    then ok backslash
    else if ch == quote
    then ok quote
    else if ch == b'n'
    then ok 10
    else if ch == b'r'
    then ok 13
    else if ch == b't'
    then ok 9
    else throws (bytes "unsupported json escape")

-- The loop of unescape_json, with its flag `escaped`.
unfoldable pub unescape_from : Bool → Text → Result Text
unescape_from true [] = throws (bytes "dangling json escape")
unescape_from false [] = ok []
unescape_from true (ch ∷ rest) = do
  c ← unescape_char ch
  out ← unescape_from false rest
  ok (c ∷ out)
unescape_from false (ch ∷ rest) = elim (ch == backslash) [
  | true ↦ unescape_from true rest
  | false ↦ do out ← unescape_from false rest; ok (ch ∷ out)
]

unfoldable pub unescape_json : Text → Result Text
unescape_json input = unescape_from false input

-- What follows `needle` at the start of a text.
unfoldable pub after_prefix : Text → Text → Option Text
after_prefix [] text = some text
after_prefix (c ∷ needle) [] = none
after_prefix (c ∷ needle) (d ∷ text) =
    let more = after_prefix needle text in if c == d then more else none

-- What follows the first occurrence of `needle`: frame.substr(frame.find(needle) + needle.size()).
unfoldable pub after_first : Text → Text → Option Text
after_first needle [] = after_prefix needle []
after_first needle (c ∷ text) = elim (after_prefix needle (c ∷ text)) [
  | some rest ↦ some rest
  | none ↦ after_first needle text
]

-- The loop of extract_json_field up to the closing quote, with its flag `escaped`.
unfoldable pub raw_field : Bool → Text → Text
raw_field escaped [] = []
raw_field true (ch ∷ rest) = backslash ∷ ch ∷ raw_field false rest
raw_field false (ch ∷ rest) =
    let inside = raw_field true rest in
    let plain = raw_field false rest in
    if ch == backslash then inside else if ch == quote then [] else ch ∷ plain

-- `"key":"`.
abbrev pub needle_of : String → Text
needle_of key = quote ∷ (bytes key ++ (quote ∷ b':' ∷ quote ∷ []))

unfoldable pub extract_json_field : Text → String → Result Text
extract_json_field frame key = elim (after_first (needle_of key) frame) [
  | none ↦ throws (bytes "missing json key")
  | some rest ↦ unescape_json (raw_field false rest)
]

-- `{"kind":"`, `","payload":"` and `"}` around the escaped texts.
unfoldable pub encode_json_frame : Text → Text → Text
encode_json_frame kind payload =
    b'{'
    ∷ (needle_of "kind"
        ++ (escape_json kind
            ++ (quote
                ∷ b','
                ∷ (needle_of "payload" ++ (escape_json payload ++ (quote ∷ b'}' ∷ []))))))

unfoldable pub decode_json_frame : Text → Result FramedMessage
decode_json_frame frame = do
  kind ← extract_json_field frame "kind"
  payload ← extract_json_field frame "payload"
  ok (record { kind = kind; payload = payload })
