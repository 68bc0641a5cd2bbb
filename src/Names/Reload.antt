-- ===== src/Names/Reload.antt =====
-- What `Load` gets back of what `Save` wrote, in backend/src/name_database.cpp.
use multi_radio.Common.{
  ◌≡◌, ◌≢◌, false, none, some, List, [], ◌∷◌, ◌++◌, is_empty, All, Bytes, lookup, insert, ℕ, suc,
  refl, ap, ◌∙◌, Bool, true, append_assoc, arith, if◌then◌else◌, same, same_iff, zero, ◌<◌, Option,
  length, sym, append-nil,
}
use multi_radio.Names.Json.{
  skip, store, parse_entry, entry_text, quote, json_escape, is_blank, read_quoted, parse_loop,
  entries_text,
}
use multi_radio.Names.Quoting.{read_back, read_quoted-json_escape}

-- No byte of the text ends a C string.
abbrev pub NoNul : Bytes → Type 0
NoNul s = All (λ c. c ≢ 0) s

-- A key that `JsonEscape` and the reader leave as it is.
pub record IsKey (k : Bytes) : Type 0 where
  pub nonempty : is_empty k ≡ false
  pub plain : read_back k ≡ k
  pub no_nul : NoNul k

-- A map has each key once.
abbrev pub Distinct : List (Bytes × Bytes) → Type 0
Distinct [] = Unit
Distinct ((k, v) ∷ m) = (lookup k m ≡ none) × Distinct m

abbrev pub Writable : List (Bytes × Bytes) → Type 0
Writable db = All (λ (e : Bytes × Bytes). IsKey e.0 × NoNul e.1) db

-- What the reader makes of the entries.
abbrev pub read_values : List (Bytes × Bytes) → List (Bytes × Bytes)
read_values [] = []
read_values ((k, v) ∷ m) = (k, read_back v) ∷ read_values m

store-insert :
    (k v : Bytes) (out : List (Bytes × Bytes)) → is_empty k ≡ false → store k v out ≡ insert k v out
unfolding store
store-insert [] v out h = cc
store-insert (c ∷ k) v out h = refl

-- One entry is read at a time.
parse_entry-entry_text :
    (k v rest : Bytes) (out : List (Bytes × Bytes))
    → IsKey k
    → parse_entry (entry_text k v ++ rest) out ≡ some (rest, insert k (read_back v) out)
unfolding parse_entry entry_text skip
parse_entry-entry_text k v rest out key =
    let value : Bytes = json_escape v ++ (quote ∷ []) in
    let first : read_quoted ((json_escape k ++ (quote ∷ b':' ∷ quote ∷ value)) ++ rest)
        ≡ (k, b':' ∷ quote ∷ (value ++ rest)) =
      ap read_quoted (append_assoc (json_escape k) (quote ∷ b':' ∷ quote ∷ value) rest)
      ∙ read_quoted-json_escape k (b':' ∷ quote ∷ (value ++ rest))
      ∙ ap (λ x. (x, b':' ∷ quote ∷ (value ++ rest))) key.plain in
    let second : read_quoted (value ++ rest) ≡ (read_back v, rest) =
      ap read_quoted (append_assoc (json_escape v) (quote ∷ []) rest)
      ∙ read_quoted-json_escape v rest in
    rw (first, second) (ap (λ m. some (rest, m)) (store-insert k (read_back v) out key.nonempty))

-- A new key goes to the end of the map.
insert-new :
    (k v : Bytes) (m : List (Bytes × Bytes)) → lookup k m ≡ none → insert k v m ≡ m ++ ((k, v) ∷ [])
unfolding insert lookup
insert-new k v [] h = refl
insert-new k v ((j, w) ∷ m) h = ground (arith, insert-new k v m)

lookup-append :
    (k j v : Bytes) (m : List (Bytes × Bytes))
    → lookup k m ≡ none
    → same j k ≡ false
    → lookup k (m ++ ((j, v) ∷ [])) ≡ none
unfolding lookup
lookup-append k j v [] h ne = rw ne
lookup-append k j v ((i, w) ∷ m) h ne = ground (arith, lookup-append k j v m)

-- None of the entries' keys is in `out`.
abbrev pub NewTo : List (Bytes × Bytes) → List (Bytes × Bytes) → Type 0
NewTo out db = All (λ (e : Bytes × Bytes). lookup e.0 out ≡ none) db

NewTo-append :
    (j v : Bytes) (out db : List (Bytes × Bytes))
    → NewTo out db
    → lookup j db ≡ none
    → NewTo (out ++ ((j, v) ∷ [])) db
unfolding lookup
NewTo-append j v out [] h n = tt
NewTo-append j v out ((k, w) ∷ db) h n =
    let apart : same k j ≡ false = ground arith in
    let apart' : same j k ≡ false = ground (arith, same_iff k j, same_iff j k) in
    (lookup-append k j v out h.0 apart', NewTo-append j v out db h.1 (ground arith))

pub NewTo-empty : (db : List (Bytes × Bytes)) → NewTo [] db
unfolding lookup
NewTo-empty [] = tt
NewTo-empty (e ∷ db) = (refl, NewTo-empty db)

-- The blanks before an entry are skipped: a comma, or nothing.
skip-entry_text :
    (first : Bool) (k v rest : Bytes)
    → skip is_blank ((if first then [] else b',' ∷ []) ++ (entry_text k v ++ rest))
      ≡ entry_text k v ++ rest
unfolding skip entry_text
skip-entry_text true k v rest = refl
skip-entry_text false k v rest = refl

parse_loop-entry :
    (fuel : ℕ) (first : Bool) (k v rest : Bytes) (out : List (Bytes × Bytes))
    → IsKey k
    → parse_loop (suc fuel) ((if first then [] else b',' ∷ []) ++ (entry_text k v ++ rest)) out
      ≡ parse_loop fuel rest (insert k (read_back v) out)
unfolding parse_loop entry_text
parse_loop-entry fuel first k v rest out key =
    elim first
      as (λ b.
        parse_loop (suc fuel) ((if b then [] else b',' ∷ []) ++ (entry_text k v ++ rest)) out
        ≡ parse_loop fuel rest (insert k (read_back v) out)) [
          | true ↦ ap continue (entry true)
          | false ↦ ap continue (entry false)
        ]
  where
    continue : Option (Bytes × List (Bytes × Bytes)) → Option (List (Bytes × Bytes))
    continue r = elim r [ none ↦ some out | some (p, out') ↦ parse_loop fuel p out' ]

    entry :
        (b : Bool)
        → parse_entry
            (skip is_blank ((if b then [] else b',' ∷ []) ++ (entry_text k v ++ rest)))
            out
          ≡ some (rest, insert k (read_back v) out)
    entry b =
        ap (λ x. parse_entry x out) (skip-entry_text b k v rest)
        ∙ parse_entry-entry_text k v rest out key

parse_loop-close :
    (fuel : ℕ) (out : List (Bytes × Bytes)) → parse_loop (suc fuel) (b'}' ∷ []) out ≡ some out
unfolding parse_loop
parse_loop-close fuel out = refl

-- The main loop reads all the entries that `Save` wrote, and ends at the closing brace.
pub parse_loop-entries_text :
    (db : List (Bytes × Bytes)) (first : Bool) (fuel : ℕ) (out : List (Bytes × Bytes))
    → Writable db
    → Distinct db
    → NewTo out db
    → length db < fuel
    → parse_loop fuel (entries_text first db ++ (b'}' ∷ [])) out ≡ some (out ++ read_values db)
unfolding entries_text
parse_loop-entries_text db first zero out w d n h = absurd (omega arith)
parse_loop-entries_text [] first (suc fuel) out w d n h =
    parse_loop-close fuel out ∙ ap some (sym (append-nil out))
parse_loop-entries_text ((k, v) ∷ db) first (suc fuel) out w d n h =
    let rest : Bytes = entries_text false db ++ (b'}' ∷ []) in
    let sep : Bytes = if first then [] else b',' ∷ [] in
    let next =
      parse_loop-entries_text db false fuel (out ++ ((k, read_back v) ∷ [])) w.1 d.1
        (NewTo-append k (read_back v) out db n.1 d.0) (omega arith) in
    ap (λ t. parse_loop (suc fuel) t out)
      (append_assoc sep (entry_text k v ++ entries_text false db) (b'}' ∷ [])
        ∙ ap (◌++◌ sep) (append_assoc (entry_text k v) (entries_text false db) (b'}' ∷ [])))
    ∙ parse_loop-entry fuel first k v rest out w.0.0
    ∙ ap (λ m. parse_loop fuel rest m) (insert-new k (read_back v) out n.0)
    ∙ next
    ∙ ap some (append_assoc out ((k, read_back v) ∷ []) (read_values db))
