-- ===== src/Protocol/Fields/Wire.antt =====
-- The field list of a wire text.
use inerceptor_command_sim.Base.{
  ℕ, ◌≡◌, refl, ap, ◌∙◌, Bool, true, false, if◌then◌else◌, Option, none, List, [], ◌∷◌, ◌++◌, map,
  some, arith, ◌==◌, All,
}
use mathlib.Core.Path.{fun_ext}
use inerceptor_command_sim.Base.Result.{ok}
use inerceptor_command_sim.Base.Text.{Text, text_eq}
use inerceptor_command_sim.Protocol.Fields.{
  FieldMap, value_or, emplace, encode_field_value, split, cut_at_equals, parse_parts, parse_fields,
  field, join_fields,
}
use inerceptor_command_sim.Protocol.Fields.Percent.{
  IsByte, decode-encode_field_value, encode_field_value-IsClean,
}

-- The text does not hold the character `d`.
abbrev pub Lacks : ℕ → Text → Type 0
Lacks d s = All (λ b. (b == d) ≡ false) s

Lacks-append : (d : ℕ) (s t : Text) → Lacks d s → Lacks d t → Lacks d (s ++ t)
Lacks-append d [] t h k = k
Lacks-append d (c ∷ s) t h k = (h.0, Lacks-append d s t h.1 k)

split-Lacks : (s : Text) (d : ℕ) → Lacks d s → split s d ≡ s ∷ []
unfolding split
split-Lacks [] d h = refl
split-Lacks (c ∷ s) d h = rw (h.0, split-Lacks s d h.1) refl

split-append : (s t : Text) (d : ℕ) → Lacks d s → split (s ++ d ∷ t) d ≡ s ∷ split t d
unfolding split
split-append [] t d h = ground arith
split-append (c ∷ s) t d h = rw (h.0, split-append s t d h.1) refl

cut-Lacks :
    (key value : Text) → Lacks b'=' key → cut_at_equals (key ++ b'=' ∷ value) ≡ some (key, value)
unfolding cut_at_equals
cut-Lacks [] value h = refl
cut-Lacks (c ∷ key) value h = rw (h.0, cut-Lacks key value h.1) refl

-- A field whose key holds no separator and whose value is made of bytes.
abbrev pub IsField : Text × Text → Type 0
IsField f = Lacks b';' f.0 × Lacks b'=' f.0 × All IsByte f.1

encoded-Lacks : (value : Text) → Lacks b';' (encode_field_value value)
encoded-Lacks value = keep (encode_field_value value) (encode_field_value-IsClean value)
  where
    keep : (s : Text) → All (λ b. ((b == b';') ≡ false) × ((b == b'=') ≡ false)) s → Lacks b';' s
    keep [] h = tt
    keep (c ∷ s) h = (h.0.0, keep s h.1)

field-Lacks : (f : Text × Text) → IsField f → Lacks b';' (field f)
field-Lacks (key, value) h = Lacks-append b';' key _ h.0 (refl, encoded-Lacks value)

-- The value of the first field with a key.
abbrev pub lookup : List (Text × Text) → FieldMap
lookup [] k = none
lookup ((key, value) ∷ fields) k = if text_eq key k then some value else lookup fields k

-- What a map says of a key, or else what another one says.
abbrev or_else : FieldMap → FieldMap → FieldMap
or_else first second k = value_or (first k) (second k)

or_else-emplace :
    (key value : Text) (m rest : FieldMap)
    → or_else (emplace key value m) rest
      ≡ or_else m (λ k. if text_eq key k then some value else rest k)
unfolding emplace
or_else-emplace key value m rest = fun_ext (λ k. pointwise (m k) (text_eq key k) (rest k))
  where
    pointwise :
        (o : Option Text) (b : Bool) (r : Option Text)
        → value_or (value_or o (if b then some value else none)) r
          ≡ value_or o (if b then some value else r)
    pointwise (some v) b r = refl
    pointwise none true r = refl
    pointwise none false r = refl

parse_parts-field :
    (key value : Text) (parts : List Text) (m : FieldMap)
    → IsField (key, value)
    → parse_parts (field (key, value) ∷ parts) m ≡ parse_parts parts (emplace key value m)
unfolding parse_parts
parse_parts-field [] value parts m h =
    rw
      (
        cut-Lacks [] (encode_field_value value) h.1,
        parse_parts,
        decode-encode_field_value value h.2,
      )
      refl
parse_parts-field (c ∷ key) value parts m h =
    rw
      (
        cut-Lacks (c ∷ key) (encode_field_value value) h.1,
        parse_parts,
        decode-encode_field_value value h.2,
      )
      refl

parse_parts-map :
    (fields : List (Text × Text)) (m : FieldMap)
    → All IsField fields
    → parse_parts (map field fields) m ≡ ok (or_else m (lookup fields))
parse_parts-map [] m h = unfold parse_parts in ap ok (fun_ext (λ k. unchanged (m k)))
  where
    unchanged : (o : Option Text) → o ≡ value_or o none
    unchanged none = refl
    unchanged (some v) = refl
parse_parts-map ((key, value) ∷ fields) m h =
    parse_parts-field key value (map field fields) m h.0
    ∙ parse_parts-map fields (emplace key value m) h.1
    ∙ ap ok (or_else-emplace key value m (lookup fields))

split-join_fields :
    (f : Text × Text) (fields : List (Text × Text))
    → All IsField (f ∷ fields)
    → split (join_fields (f ∷ fields)) b';' ≡ map field (f ∷ fields)
unfolding join_fields
split-join_fields f [] h = split-Lacks (field f) b';' (field-Lacks f h.0)
split-join_fields f (g ∷ fields) h =
    split-append (field f) (join_fields (g ∷ fields)) b';' (field-Lacks f h.0)
    ∙ ap (◌∷◌ (field f)) (split-join_fields g fields h.1)

-- The map that is parsed from the wire text of some fields has a value for just the keys of the
-- fields, which is that of the first field with the key, if no key holds a separator and the values
-- are made of bytes.
pub parse_fields-join_fields :
    (fields : List (Text × Text))
    → All IsField fields
    → parse_fields (join_fields fields) ≡ ok (lookup fields)
unfolding parse_fields
parse_fields-join_fields [] h = unfold join_fields split parse_parts in refl
parse_fields-join_fields (f ∷ fields) h =
    rw (split-join_fields f fields h) (parse_parts-map (f ∷ fields) (λ key. none) h)
