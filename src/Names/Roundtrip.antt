-- ===== src/Names/Roundtrip.antt =====
-- The file of backend/src/name_database.cpp over the life of a database: what `Learn` stores is
-- what a new database loads.
use multi_radio.Common.{
  ℕ, suc, ◌≤◌, ◌≡◌, refl, ◌≢◌, Bool, true, false, some, List, [], ◌∷◌, ◌++◌, arith, length,
  length-append, Bytes,
}
use multi_radio.Names.Json.{
  quote, escape_byte, json_escape, c_str, skip, parse_flat_json, entry_text, entries_text,
  file_text,
}
use multi_radio.Names.Reload.{
  NoNul, Distinct, Writable, read_values, NewTo-empty, parse_loop-entries_text,
}

NoNul-append : (s t : Bytes) → NoNul s → NoNul t → NoNul (s ++ t)
NoNul-append [] t h k = k
NoNul-append (c ∷ s) t h k = (h.0, NoNul-append s t h.1 k)

NoNul-escape_byte : (c : ℕ) → c ≢ 0 → NoNul (escape_byte c)
unfolding escape_byte
NoNul-escape_byte c h = ground arith

NoNul-json_escape : (s : Bytes) → NoNul s → NoNul (json_escape s)
unfolding json_escape
NoNul-json_escape [] h = tt
NoNul-json_escape (c ∷ s) h =
    NoNul-append (escape_byte c) (json_escape s) (NoNul-escape_byte c h.0) (NoNul-json_escape s h.1)

NoNul-entry_text : (k v : Bytes) → NoNul k → NoNul v → NoNul (entry_text k v)
unfolding entry_text
NoNul-entry_text k v hk hv = (
  omega arith,
  NoNul-append (json_escape k) _ (NoNul-json_escape k hk) (
    omega arith,
    (
      omega arith,
      (
        omega arith,
        NoNul-append (json_escape v) (quote ∷ []) (NoNul-json_escape v hv) (omega arith, tt),
      ),
    ),
  ),
)

NoNul-entries_text :
    (db : List (Bytes × Bytes)) (first : Bool) → Writable db → NoNul (entries_text first db)
unfolding entries_text
NoNul-entries_text [] first w = tt
NoNul-entries_text ((k, v) ∷ db) true w =
    NoNul-append (entry_text k v) _ (NoNul-entry_text k v w.0.0.no_nul w.0.1)
      (NoNul-entries_text db false w.1)
NoNul-entries_text ((k, v) ∷ db) false w = (
  omega arith,
  NoNul-append (entry_text k v) _ (NoNul-entry_text k v w.0.0.no_nul w.0.1)
      (NoNul-entries_text db false w.1),
)

c_str-NoNul : (s : Bytes) → NoNul s → c_str s ≡ s
unfolding c_str
c_str-NoNul [] h = refl
c_str-NoNul (c ∷ s) h = ground (arith, c_str-NoNul s h.1)

length-entries_text :
    (db : List (Bytes × Bytes)) (first : Bool) → length db ≤ length (entries_text first db)
unfolding entries_text entry_text
length-entries_text [] first = omega arith
length-entries_text ((k, v) ∷ db) true = omega (
  arith,
  length-append (json_escape k ++ (quote ∷ b':' ∷ quote ∷ (json_escape v ++ (quote ∷ []))))
      (entries_text false db),
  length-entries_text db false,
)
length-entries_text ((k, v) ∷ db) false = omega (
  arith,
  length-append (json_escape k ++ (quote ∷ b':' ∷ quote ∷ (json_escape v ++ (quote ∷ []))))
      (entries_text false db),
  length-entries_text db false,
)

-- What `ParseFlatJson` makes of what `Save` writes: the same keys in the same order, each with what
-- its value reads back as.
pub parse-file_text :
    (db : List (Bytes × Bytes))
    → Writable db
    → Distinct db
    → parse_flat_json (file_text db) ≡ some (read_values db)
unfolding parse_flat_json file_text skip
parse-file_text db w d =
    let text : Bytes = entries_text true db ++ (b'}' ∷ []) in
    let whole : c_str (b'{' ∷ text) ≡ b'{' ∷ text = c_str-NoNul (b'{' ∷ text) (
      omega arith,
      NoNul-append (entries_text true db) (b'}' ∷ []) (NoNul-entries_text db true w)
          (omega arith, tt),
    ) in
    rw whole (
      parse_loop-entries_text db true (suc (length (b'{' ∷ text))) [] w d (NewTo-empty db) (
        omega
          (arith, length-append (entries_text true db) (b'}' ∷ []), length-entries_text db true)))
