-- ===== src/Ais/Fields.antt =====
-- The JSON text of plugins/ais_decoder.c as the loop over the fields in backend/src/plugin_host.cpp
-- reads it.
use multi_radio.Common.{
  ℕ, zero, suc, ◌≤◌, ◌<◌, ◌≡◌, refl, ap, ◌∙◌, Bool, true, false, Option, none, some, Bool-cases,
  Option-cases, inl, inr, is_empty, same, same_iff, lookup, lookup-insert, List, [], ◌∷◌, ◌++◌,
  append_assoc, arith, ◌==◌, if◌then◌else◌, length, All, length-append, Bytes,
}
use multi_radio.Names.Json.{quote, skip}
use multi_radio.Plugins.Fields.{put_field, read_plain, field_round, fields_loop, read_fields}
use multi_radio.Ais.Messages.{kv_entry, kv_entries, kv_json}

-- A text in which no byte is a quote.
abbrev pub NoQuote : Bytes → Type 0
NoQuote s = All (λ c. (c == quote) ≡ false) s

abbrev pub IsPlain : List (Bytes × Bytes) → Type 0
IsPlain kv = All (λ entry. NoQuote entry.0 × NoQuote entry.1) kv

-- The entries put into the map one after the other.
unfoldable pub stored : List (Bytes × Bytes) → List (Bytes × Bytes) → List (Bytes × Bytes)
stored out [] = out
stored out ((k, v) ∷ kv) = stored (put_field k v out) kv

read_plain-plain : (s rest : Bytes) → NoQuote s → read_plain (s ++ (quote ∷ rest)) ≡ (s, rest)
unfolding read_plain
read_plain-plain [] rest plain = refl
read_plain-plain (c ∷ s) rest plain = rw (plain.0, read_plain-plain s rest plain.1) refl

kv_entry-append :
    (k v rest : Bytes)
    → kv_entry k v ++ rest ≡ quote ∷ (k ++ (quote ∷ b':' ∷ quote ∷ (v ++ (quote ∷ rest))))
unfolding kv_entry
kv_entry-append k v rest =
    ap (λ s. quote ∷ s)
      (append_assoc k (quote ∷ b':' ∷ quote ∷ (v ++ (quote ∷ []))) rest
        ∙ ap (λ s. k ++ (quote ∷ b':' ∷ quote ∷ s)) (append_assoc v (quote ∷ []) rest))

abbrev joint : Bool → Bytes → Bytes
joint first s = (if first then [] else b',' ∷ []) ++ s

-- One round reads one entry, with or without a comma in front of it.
field_round-entry :
    (first : Bool) (k v rest : Bytes) (fields : List (Bytes × Bytes))
    → NoQuote k
    → NoQuote v
    → field_round (joint first (kv_entry k v ++ rest)) fields ≡ some (rest, put_field k v fields)
unfolding field_round skip
field_round-entry true k v rest fields pk pv =
    rw
      (
        kv_entry-append k v rest,
        read_plain-plain k (b':' ∷ quote ∷ (v ++ (quote ∷ rest))) pk,
        read_plain-plain v rest pv,
      )
      refl
field_round-entry false k v rest fields pk pv =
    rw
      (
        kv_entry-append k v rest,
        read_plain-plain k (b':' ∷ quote ∷ (v ++ (quote ∷ rest))) pk,
        read_plain-plain v rest pv,
      )
      refl

fields_loop-next :
    (fuel c : ℕ) (s left : Bytes) (fields fields' : List (Bytes × Bytes))
    → (c == b'}') ≡ false
    → field_round (c ∷ s) fields ≡ some (left, fields')
    → fields_loop (suc fuel) (c ∷ s) fields ≡ fields_loop fuel left fields'
unfolding fields_loop
fields_loop-next fuel c s left fields fields' other goes = ground (arith, other, goes)

fields_loop-round :
    (fuel : ℕ) (first : Bool) (k v rest : Bytes) (fields : List (Bytes × Bytes))
    → NoQuote k
    → NoQuote v
    → fields_loop (suc fuel) (joint first (kv_entry k v ++ rest)) fields
      ≡ fields_loop fuel rest (put_field k v fields)
unfolding kv_entry
fields_loop-round fuel true k v rest fields pk pv =
    fields_loop-next fuel _ _ rest fields (put_field k v fields) refl
      (field_round-entry true k v rest fields pk pv)
fields_loop-round fuel false k v rest fields pk pv =
    fields_loop-next fuel _ _ rest fields (put_field k v fields) refl
      (field_round-entry false k v rest fields pk pv)

fields_loop-entries :
    (fuel : ℕ) (first : Bool) (kv fields : List (Bytes × Bytes))
    → IsPlain kv
    → length kv < fuel
    → fields_loop fuel (kv_entries first kv ++ (b'}' ∷ [])) fields ≡ some (stored fields kv)
unfolding fields_loop kv_entries stored
fields_loop-entries zero first kv fields plain h = absurd (omega arith)
fields_loop-entries (suc fuel) first [] fields plain h = refl
fields_loop-entries (suc fuel) first ((k, v) ∷ kv) fields plain h =
    ap (λ s. fields_loop (suc fuel) s fields)
      (append_assoc (if first then [] else b',' ∷ []) (kv_entry k v ++ kv_entries false kv)
          (b'}' ∷ [])
        ∙ ap (joint first) (append_assoc (kv_entry k v) (kv_entries false kv) (b'}' ∷ [])))
    ∙ fields_loop-round fuel first k v (kv_entries false kv ++ (b'}' ∷ [])) fields plain.0.0
        plain.0.1
    ∙ fields_loop-entries fuel false kv (put_field k v fields) plain.1 (omega arith)

length-kv_entries :
    (first : Bool) (kv : List (Bytes × Bytes)) → length kv ≤ length (kv_entries first kv)
unfolding kv_entries kv_entry
length-kv_entries first [] = omega arith
length-kv_entries first ((k, v) ∷ kv) = omega (
  arith,
  length-kv_entries false kv,
  length-append (if first then [] else b',' ∷ []) (kv_entry k v ++ kv_entries false kv),
  length-append (kv_entry k v) (kv_entries false kv),
)

-- The value that was written last with a key.
abbrev pub last_value : Bytes → List (Bytes × Bytes) → Option Bytes
last_value k [] = none
last_value k ((j, v) ∷ kv) = elim (last_value k kv) [
  | none ↦ if same j k then some v else none
  | some later ↦ some later
]

put_field-lookup :
    (j v k : Bytes) (fields : List (Bytes × Bytes))
    → is_empty k ≡ false
    → lookup k (put_field j v fields) ≡ (if same j k then some v else lookup k fields)
unfolding put_field
put_field-lookup [] v [] fields named = absurd (ground (arith, named))
put_field-lookup [] v (c ∷ k) fields named = ground (arith, same_iff [] (c ∷ k))
put_field-lookup (c ∷ j) v k fields named = lookup-insert (c ∷ j) k v fields

abbrev later_or : Option Bytes → Option Bytes → Option Bytes
later_or none before = before
later_or (some v) before = some v

stored-lookup :
    (kv fields : List (Bytes × Bytes)) (k : Bytes)
    → is_empty k ≡ false
    → lookup k (stored fields kv) ≡ later_or (last_value k kv) (lookup k fields)
unfolding stored
stored-lookup [] fields k named = refl
stored-lookup ((j, v) ∷ kv) fields k named =
    stored-lookup kv (put_field j v fields) k named ∙ elim (Option-cases (last_value k kv)) [
      | inr (later, e) ↦ rw (e) refl
      | inl e ↦ elim (Bool-cases (same j k)) [
        | inl here ↦ rw (e, here) (put_field-lookup j v k fields named ∙ rw (here) refl)
        | inr other ↦ rw (e, other) (put_field-lookup j v k fields named ∙ rw (other) refl)
      ]
    ]

later_or-none : (v : Option Bytes) → later_or v none ≡ v
later_or-none none = refl
later_or-none (some v) = refl

pub read_fields-stored :
    (kv : List (Bytes × Bytes)) → IsPlain kv → read_fields (some (kv_json kv)) ≡ some (stored [] kv)
unfolding read_fields kv_json
read_fields-stored kv plain =
    fields_loop-entries _ true kv [] plain
      (omega (arith, length-kv_entries true kv, length-append (kv_entries true kv) (b'}' ∷ [])))

-- Of what the plugin wrote the plugin host reads back a map, which has under every key that is not
-- empty the value that was written last with it, and nothing if none was, if there is no quote in
-- the keys and values.
pub read_fields-kv_json :
    (kv : List (Bytes × Bytes)) (k : Bytes)
    → IsPlain kv
    → is_empty k ≡ false
    → (m : List (Bytes × Bytes)) × (read_fields (some (kv_json kv)) ≡ some m)
      × (lookup k m ≡ last_value k kv)
unfolding lookup
read_fields-kv_json kv k plain named = (
  stored [] kv,
  read_fields-stored kv plain,
  stored-lookup kv [] k named ∙ later_or-none (last_value k kv),
)
