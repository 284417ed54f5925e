-- ===== src/Protocol/Frame/Json/RoundTrip.antt =====
-- A message comes back from its JSON frame.
use inerceptor_command_sim.Base.{
  ℕ, ◌≡◌, refl, ◌∙◌, ap, false, ◌⊎◌, inl, inr, Bool-cases, [], ◌∷◌, ◌++◌, none, some, ◌==◌, arith,
}
use Prim.Native.String.{String}
use inerceptor_command_sim.Base.Result.{ok}
use inerceptor_command_sim.Base.Text.{Text, bytes}
use inerceptor_command_sim.Protocol.Frame.Json.{
  quote, backslash, escape_char, escape_json, unescape_char, unescape_from, unescape_json,
  after_prefix, after_first, raw_field, needle_of, extract_json_field, encode_json_frame,
  decode_json_frame,
}

-- How a character is escaped: as itself, or as a backslash and a character that stands for it.
escape_char-cases :
    (ch : ℕ)
    → ((escape_char ch ≡ ch ∷ []) × ((ch == backslash) ≡ false) × ((ch == quote) ≡ false))
      ⊎ ((d : ℕ) × (escape_char ch ≡ backslash ∷ d ∷ []) × (unescape_char d ≡ ok ch))
unfolding escape_char unescape_char
escape_char-cases ch = elim (Bool-cases (ch == backslash)) [
  | inl h ↦ inr (backslash, rw h refl, ground arith)
  | inr h ↦ elim (Bool-cases (ch == quote)) [
    | inl k ↦ inr (quote, rw (h, k) refl, ground arith)
    | inr k ↦ elim (Bool-cases (ch == 10)) [
      | inl l ↦ inr (b'n', rw (h, k, l) refl, ground arith)
      | inr l ↦ elim (Bool-cases (ch == 13)) [
        | inl m ↦ inr (b'r', rw (h, k, l, m) refl, ground arith)
        | inr m ↦ elim (Bool-cases (ch == 9)) [
          | inl n ↦ inr (b't', rw (h, k, l, m, n) refl, ground arith)
          | inr n ↦ inl (rw (h, k, l, m, n) refl, h, k)
        ]
      ]
    ]
  ]
]

unescape_plain :
    (c : ℕ) (rest out : Text)
    → (c == backslash) ≡ false
    → unescape_from false rest ≡ ok out
    → unescape_from false (c ∷ rest) ≡ ok (c ∷ out)
unfolding unescape_from
unescape_plain c rest out h e = rw (h, unescape_from, e) refl

unescape_pair :
    (d c : ℕ) (rest out : Text)
    → unescape_char d ≡ ok c
    → unescape_from false rest ≡ ok out
    → unescape_from false (backslash ∷ d ∷ rest) ≡ ok (c ∷ out)
unfolding unescape_from
unescape_pair d c rest out h e = rw (h, e) refl

unescape-escape : (text : Text) → unescape_from false (escape_json text) ≡ ok text
unfolding unescape_from escape_json
unescape-escape [] = refl
unescape-escape (ch ∷ text) = elim (escape_char-cases ch) [
  | inl (e, b, q) ↦ rw e (unescape_plain ch (escape_json text) text b (unescape-escape text))
  | inr (d, e, u) ↦ rw e (unescape_pair d ch (escape_json text) text u (unescape-escape text))
]

raw_plain :
    (c : ℕ) (rest : Text)
    → (c == backslash) ≡ false
    → (c == quote) ≡ false
    → raw_field false (c ∷ rest) ≡ c ∷ raw_field false rest
unfolding raw_field
raw_plain c rest h k = rw (h, k) refl

raw_field-escape :
    (text rest : Text) → raw_field false (escape_json text ++ (quote ∷ rest)) ≡ escape_json text
unfolding raw_field escape_json
raw_field-escape [] rest = refl
raw_field-escape (ch ∷ text) rest = elim (escape_char-cases ch) [
  | inl (e, b, q) ↦ rw e (
      raw_plain ch (escape_json text ++ (quote ∷ rest)) b q
      ∙ ap (◌∷◌ ch) (raw_field-escape text rest))
  | inr (d, e, u) ↦ rw e (ap (λ t. backslash ∷ d ∷ t) (raw_field-escape text rest))
]

differs :
    (c d : ℕ) (needle text : Text) → (c == d) ≡ false → after_prefix (c ∷ needle) (d ∷ text) ≡ none
unfolding after_prefix
differs c d needle text h = rw h refl

steps :
    (c d : ℕ) (needle text : Text)
    → after_prefix needle text ≡ none
    → after_prefix (c ∷ needle) (d ∷ text) ≡ none
unfolding after_prefix
steps c d needle text h = elim (Bool-cases (c == d)) [ inl k ↦ rw (k, h) refl | inr k ↦ rw k refl ]

flip : (c : ℕ) → (c == quote) ≡ false → (quote == c) ≡ false
flip c h = ground arith

-- A word without quotes and backslashes, as the name of a key is.
abbrev IsWord : Text → Type 0
IsWord [] = Unit
IsWord (c ∷ w) = ((c == quote) ≡ false) × ((c == backslash) ≡ false) × IsWord w

-- Where the value ends and the next key begins.
abbrev closing : Text → Text
closing rest = quote ∷ b',' ∷ rest

-- Behind a quote inside an escaped text, or at its start, no word and `":"` follow.
after_prefix-escape :
    (w text rest : Text)
    → IsWord w
    → after_prefix (w ++ (quote ∷ b':' ∷ quote ∷ [])) (escape_json text ++ closing rest) ≡ none
unfolding after_prefix escape_json
after_prefix-escape [] [] rest h = refl
after_prefix-escape [] (ch ∷ text) rest h = elim (escape_char-cases ch) [
  | inl (e, b, q) ↦
      rw e (differs quote ch (b':' ∷ quote ∷ []) (escape_json text ++ closing rest) (flip ch q))
  | inr (d, e, u) ↦ rw e refl
]
after_prefix-escape (c ∷ w) [] rest h =
    differs c quote (w ++ (quote ∷ b':' ∷ quote ∷ [])) (b',' ∷ rest) h.0
after_prefix-escape (c ∷ w) (ch ∷ text) rest h = elim (escape_char-cases ch) [
  | inl (e, b, q) ↦ rw e (
      steps c ch (w ++ (quote ∷ b':' ∷ quote ∷ [])) (escape_json text ++ closing rest)
        (after_prefix-escape w text rest h.2))
  | inr (d, e, u) ↦ rw e (
      differs c backslash (w ++ (quote ∷ b':' ∷ quote ∷ []))
        (d ∷ (escape_json text ++ closing rest)) h.1)
]

skip :
    (needle : Text) (c : ℕ) (text : Text)
    → after_prefix needle (c ∷ text) ≡ none
    → after_first needle (c ∷ text) ≡ after_first needle text
unfolding after_first
skip needle c text h = rw (h, after_first) refl

payload-IsWord : IsWord (bytes "payload")
unfolding bytes
payload-IsWord = ground arith

-- The search for the payload passes over an escaped text.
find_payload :
    (kind rest : Text)
    → after_first (needle_of "payload") (escape_json kind ++ closing (needle_of "payload" ++ rest))
      ≡ some rest
unfolding escape_json bytes after_first after_prefix
find_payload [] rest = refl
find_payload (ch ∷ kind) rest =
    let needle = needle_of "payload" in
    let word = bytes "payload" ++ (quote ∷ b':' ∷ quote ∷ []) in
    let more = escape_json kind ++ closing (needle ++ rest) in
    elim (escape_char-cases ch) [
      | inl (e, b, q) ↦
          rw e
            (skip needle ch more (differs quote ch word more (flip ch q)) ∙ find_payload kind rest)
      | inr (d, e, u) ↦ rw e (
          skip needle backslash (d ∷ more) (differs quote backslash word (d ∷ more) refl)
          ∙ (skip needle d more (
                steps quote d word more
                  (after_prefix-escape (bytes "payload") kind (needle ++ rest) payload-IsWord))
              ∙ find_payload kind rest))
    ]

find_both :
    (kind rest : Text)
    → after_first
        (needle_of "payload")
        (b'{' ∷ (needle_of "kind" ++ (escape_json kind ++ closing (needle_of "payload" ++ rest))))
      ≡ some rest
unfolding bytes after_first after_prefix
find_both kind rest =
    let needle = needle_of "payload" in
    let more = escape_json kind ++ closing (needle ++ rest) in
    let none_here = after_prefix-escape (bytes "payload") kind (needle ++ rest) payload-IsWord in
    skip needle quote more
      (steps quote quote (bytes "payload" ++ (quote ∷ b':' ∷ quote ∷ [])) more none_here)
    ∙ find_payload kind rest

find_kind :
    (rest : Text) → after_first (needle_of "kind") (b'{' ∷ (needle_of "kind" ++ rest)) ≡ some rest
unfolding bytes after_first after_prefix
find_kind rest = refl

extract :
    (frame rest text : Text) (key : String)
    → after_first (needle_of key) frame ≡ some rest
    → raw_field false rest ≡ escape_json text
    → extract_json_field frame key ≡ ok text
unfolding extract_json_field unescape_json
extract frame rest text key h k = rw (h, extract_json_field, k) (unescape-escape text)

decode_fields :
    (frame kind payload : Text)
    → extract_json_field frame "kind" ≡ ok kind
    → extract_json_field frame "payload" ≡ ok payload
    → decode_json_frame frame ≡ ok (record { kind = kind; payload = payload })
unfolding decode_json_frame
decode_fields frame kind payload h k = rw (h, k) refl

-- A message comes back from its JSON frame, whatever characters it has.
pub decode_json_frame-encode :
    (kind payload : Text)
    → decode_json_frame (encode_json_frame kind payload)
      ≡ ok (record { kind = kind; payload = payload })
unfolding encode_json_frame
decode_json_frame-encode kind payload =
    let tail = escape_json payload ++ (quote ∷ b'}' ∷ []) in
    let behind = escape_json kind ++ closing (needle_of "payload" ++ tail) in
    let frame = b'{' ∷ (needle_of "kind" ++ behind) in
    decode_fields frame kind payload
      (extract frame behind kind "kind" (find_kind behind)
        (raw_field-escape kind (b',' ∷ (needle_of "payload" ++ tail))))
      (extract frame tail payload "payload" (find_both kind tail)
        (raw_field-escape payload (b'}' ∷ [])))
