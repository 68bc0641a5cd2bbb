-- ===== src/Plugins/Fields.antt =====
-- How backend/src/plugin_host.cpp reads the texts that a plugin emits. They are C strings: bytes
-- without NUL.
use multi_radio.Common.{
  ℕ, zero, suc, ◌≤◌, ◌<◌, ◌≡◌, true, false, not, ◌&&◌, ◌||◌, Option, none, some, List, [], ◌∷◌,
  arith, ◌==◌, if◌then◌else◌, length, Bytes, codes, same, starts_with, refl, inl, inr, Bool-cases,
  Option-cases, insert,
}
use multi_radio.Types.Data.{SignalType, unknown, ais, adsb, dsc}
use multi_radio.Names.Fuel.{skip-length, rest_of-length, rest_of-le}
use multi_radio.Names.Json.{head_is, rest_of, skip, quote, push_byte}

unfoldable pub signal_type_from_plugin_string : Option Bytes → SignalType
signal_type_from_plugin_string none = unknown
signal_type_from_plugin_string (some s) =
    if same s (codes "AIS")
    then ais
    else if starts_with (codes "AIS_") s
    then ais
    else if starts_with (codes "ASM_") s
    then ais
    else if same s (codes "AIR-SAR")
    then ais
    else if same s (codes "ADSB")
    then adsb
    else if starts_with (codes "ADSB_") s
    then adsb
    else if same s (codes "DSC")
    then dsc
    else unknown

-- A key or a value behind its opening quote, which has no escapes, and what follows its closing
-- quote.
unfoldable pub read_plain : Bytes → Bytes × Bytes
read_plain [] = ([], [])
read_plain (c ∷ s) = let rest = read_plain s in if c == quote then ([], s) else push_byte c rest

-- `if (!key.empty()) normalized_fields[key] = value;`.
unfoldable pub put_field : Bytes → Bytes → List (Bytes × Bytes) → List (Bytes × Bytes)
put_field [] value fields = fields
put_field (c ∷ key) value fields = insert (c ∷ key) value fields

-- One round of the loop over the fields: `none` is a `break`.
unfoldable pub field_round : Bytes → List (Bytes × Bytes) → Option (Bytes × List (Bytes × Bytes))
field_round s fields =
    let start = skip (λ c. c == b' ' || (c == 9 || c == b',')) s in
    let (key, after) = read_plain (rest_of start) in
    let value = rest_of after in
    let (text, left) = read_plain (rest_of value) in
    if not (head_is quote start)
    then none
    else if not (head_is b':' after)
    then none
    else if not (head_is quote value)
    then some (skip (λ c. not (c == b',') && not (c == b'}')) value, fields)
    else some (left, put_field key text fields)

-- The loop, on fuel; `none` means that the fuel ran out.
unfoldable pub fields_loop : ℕ → Bytes → List (Bytes × Bytes) → Option (List (Bytes × Bytes))
fields_loop zero s fields = none
fields_loop (suc fuel) [] fields = some fields
fields_loop (suc fuel) (c ∷ s) fields = elim (c == b'}') [
  | true ↦ some fields
  | false ↦ elim (field_round (c ∷ s) fields) [
    | none ↦ some fields
    | some (left, fields') ↦ fields_loop fuel left fields'
  ]
]

unfoldable pub read_fields : Option Bytes → Option (List (Bytes × Bytes))
read_fields none = some []
read_fields (some s) =
    if head_is b'{' s then fields_loop (suc (length s)) (rest_of s) [] else some []

read_plain-length : (s : Bytes) → length (read_plain s).1 ≤ length s
unfolding read_plain
read_plain-length [] = omega arith
read_plain-length (c ∷ s) = ground (arith, read_plain-length s)

-- A round that goes on takes at least the quote before a key.
field_round-length :
    (s left : Bytes) (fields fields' : List (Bytes × Bytes))
    → field_round s fields ≡ some (left, fields')
    → length left < length s
unfolding field_round
field_round-length s left fields fields' h =
    let start = skip (λ c. c == b' ' || (c == 9 || c == b',')) s in
    let after = (read_plain (rest_of start)).1 in
    let value = rest_of after in
    ground (
      arith,
      skip-length (λ c. c == b' ' || (c == 9 || c == b',')) s,
      rest_of-length quote start,
      read_plain-length (rest_of start),
      rest_of-le after,
      rest_of-le value,
      read_plain-length (rest_of value),
      skip-length (λ c. not (c == b',') && not (c == b'}')) value,
    )

fields_loop-total :
    (fuel : ℕ) (s : Bytes) (fields : List (Bytes × Bytes))
    → length s < fuel
    → (m : List (Bytes × Bytes)) × (fields_loop fuel s fields ≡ some m)
unfolding fields_loop
fields_loop-total zero s fields h = absurd (omega arith)
fields_loop-total (suc fuel) [] fields h = (fields, refl)
fields_loop-total (suc fuel) (c ∷ s) fields h = elim (Bool-cases (c == b'}')) [
  | inl closed ↦ (fields, rw (closed, fields_loop))
  | inr more ↦ elim (Option-cases (field_round (c ∷ s) fields)) [
    | inl stop ↦ (fields, ground (arith, more, stop))
    | inr ((left, fields'), goes) ↦
        let (m, later) =
          fields_loop-total fuel left fields'
            (omega (arith, field_round-length (c ∷ s) left fields fields' goes)) in
        (m, ground (arith, more, goes, later))
  ]
]

-- The loop over the fields ends on every text that a plugin may emit: some map comes back.
pub read_fields-total :
    (json : Option Bytes) → (m : List (Bytes × Bytes)) × (read_fields json ≡ some m)
unfolding read_fields
read_fields-total none = ([], refl)
read_fields-total (some s) = elim (Bool-cases (head_is b'{' s)) [
  | inl object ↦
      let (m, e) =
        fields_loop-total (suc (length s)) (rest_of s) [] (omega (arith, rest_of-le s)) in
      (m, rw object e)
  | inr other ↦ ([], rw other refl)
]
