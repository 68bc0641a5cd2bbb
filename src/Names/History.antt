-- ===== src/Names/History.antt =====
-- A database of backend/src/name_database.cpp over its life: `Learn` and then a restart.
use multi_radio.Names.Roundtrip.{parse-file_text}
use multi_radio.Common.{
  ◌≡◌, refl, sym, subst, Option, not, ◌&&◌, if◌then◌else◌, ◌∙◌, ◌⊎◌, inl, inr, true, false, ◌||◌,
  none, some, List, [], ◌∷◌, arith, Bool-cases, is_empty, Bytes, same, same_iff, lookup, insert,
  lookup-insert, ap,
}
use multi_radio.Names.Json.{file_text}
use multi_radio.Names.Quoting.{read_back}
use multi_radio.Names.Reload.{NoNul, IsKey, Distinct, Writable, read_values}
use multi_radio.Names.Database.{NameDatabase, make, knows, learn, load, Order, save}

-- What the iteration over an unordered map promises: it visits each key once, with its value.
pub record IsOrder (order : Order) : Type 0 where
  pub order_distinct : (db : List (Bytes × Bytes)) → Distinct db → Distinct (order db)
  pub order_lookup :
      (db : List (Bytes × Bytes)) (k : Bytes) → Distinct db → lookup k (order db) ≡ lookup k db

-- Calls of `Learn`, each of which can open the file for writing.
unfoldable pub learn_all : Order → List (Bytes × Bytes) → NameDatabase → NameDatabase
learn_all order [] n = n
learn_all order ((key, name) ∷ l) n = learn_all order l (learn order true key name n)

abbrev pub fresh : NameDatabase
fresh = record { db = []; file = none }

-- The file holds the map, or nothing was ever saved.
pub record InStep (order : Order) (n : NameDatabase) : Type 0 where
  pub writable : Writable n.db
  pub distinct : Distinct n.db
  pub saved : (n.file ≡ some (file_text (order n.db))) ⊎ ((n.file ≡ none) × (n.db ≡ []))

Writable-insert :
    (k v : Bytes) (db : List (Bytes × Bytes))
    → IsKey k
    → NoNul v
    → Writable db
    → Writable (insert k v db)
unfolding insert
Writable-insert k v [] hk hv w = ((hk, hv), tt)
Writable-insert k v ((j, u) ∷ db) hk hv w = elim (Bool-cases (same j k)) [
  | inl e ↦ rw e ((w.0.0, hv), w.1)
  | inr e ↦ rw e (w.0, Writable-insert k v db hk hv w.1)
]

Distinct-insert : (k v : Bytes) (db : List (Bytes × Bytes)) → Distinct db → Distinct (insert k v db)
unfolding insert lookup
Distinct-insert k v [] d = (refl, tt)
Distinct-insert k v ((j, u) ∷ db) d = elim (Bool-cases (same j k)) [
  | inl e ↦ rw e d
  | inr e ↦
      let apart : same k j ≡ false = ground (arith, same_iff k j, same_iff j k) in
      rw e (lookup-insert k j v db ∙ rw apart d.0, Distinct-insert k v db d.1)
]

-- Every entry that is found is one of the map, and the other way round.
Writable-lookup :
    (db : List (Bytes × Bytes)) (k v : Bytes)
    → Writable db
    → lookup k db ≡ some v
    → IsKey k × NoNul v
unfolding lookup
Writable-lookup [] k v w there = absurd (ground (arith, there))
Writable-lookup ((j, u) ∷ db) k v w there = elim (Bool-cases (same j k)) [
  | inl here ↦
      let key : j ≡ k = (same_iff j k).0 here in
      let value : u ≡ v = ground (arith, here, there) in
      (subst IsKey key w.0.0, subst NoNul value w.0.1)
  | inr other ↦ Writable-lookup db k v w.1 (ground (arith, other, there))
]

lookup-Writable :
    (db : List (Bytes × Bytes))
    → Distinct db
    → ((k v : Bytes) → lookup k db ≡ some v → IsKey k × NoNul v)
    → Writable db
unfolding lookup
lookup-Writable [] distinct each = tt
lookup-Writable ((j, u) ∷ db) distinct each = (
  each j u (ground (arith, same_iff j j)),
  lookup-Writable db distinct.1 (λ k v there. each k v (elim (Bool-cases (same j k)) [
    | inl here ↦
        let key : j ≡ k = (same_iff j k).0 here in
        let missing : lookup k db ≡ none = subst (λ i. lookup i db ≡ none) key distinct.0 in
        absurd (ground (arith, missing, there))
    | inr other ↦ rw (other) there
  ])),
)

-- What the reader makes of a name that is there.
abbrev pub name_after : Option Bytes → Option Bytes
name_after none = none
name_after (some name) = some (read_back name)

read_values-lookup :
    (m : List (Bytes × Bytes)) (k : Bytes) → lookup k (read_values m) ≡ name_after (lookup k m)
unfolding lookup
read_values-lookup [] k = refl
read_values-lookup ((j, v) ∷ m) k = elim (Bool-cases (same j k)) [
  | inl here ↦ rw (here) refl
  | inr other ↦ rw (other) (read_values-lookup m k)
]

-- The name that was learnt last under a key, where an empty one is not learnt.
abbrev pub last_learnt : Bytes → List (Bytes × Bytes) → Option Bytes → Option Bytes
last_learnt k [] before = before
last_learnt k ((j, name) ∷ l) before =
    last_learnt k l (if same j k && not (is_empty name) then some name else before)

knows-some : (name : Bytes) (old : Option Bytes) → knows name old ≡ true → old ≡ some name
knows-some name none h = absurd (ground (arith, h))
knows-some name (some old) h = ap some ((same_iff old name).0 h)

module _ (order : Order) where
  order-Writable :
      (db : List (Bytes × Bytes)) → IsOrder order → Distinct db → Writable db → Writable (order db)
  order-Writable db visits distinct w =
      lookup-Writable (order db) (visits.order_distinct db distinct)
        (λ k v there. Writable-lookup db k v w (sym (visits.order_lookup db k distinct) ∙ there))

  learn-InStep :
      (key name : Bytes) (n : NameDatabase)
      → IsKey key
      → NoNul name
      → InStep order n
      → InStep order (learn order true key name n)
  unfolding learn
  learn-InStep key name n hk hv v = elim (Bool-cases (is_empty key || is_empty name)) [
    | inl e ↦ rw e v
    | inr e ↦ elim (Bool-cases (knows name (lookup key n.db))) [
      | inl old ↦ rw (e, old) v
      | inr new ↦
          rw (e, new)
            (record {
              writable = Writable-insert key name n.db hk hv v.writable;
              distinct = Distinct-insert key name n.db v.distinct;
              saved = inl refl;
            })
    ]
  ]

  learn_all-InStep :
      (l : List (Bytes × Bytes)) (n : NameDatabase)
      → Writable l
      → InStep order n
      → InStep order (learn_all order l n)
  unfolding learn_all
  learn_all-InStep [] n w v = v
  learn_all-InStep ((key, name) ∷ l) n w v =
      learn_all-InStep l (learn order true key name n) w.1 (learn-InStep key name n w.0.0 w.0.1 v)

  load-InStep :
      (n : NameDatabase) (k : Bytes)
      → IsOrder order
      → InStep order n
      → (m : NameDatabase) × (make n.file ≡ some m) × (lookup k m.db ≡ name_after (lookup k n.db))
  unfolding make load lookup
  load-InStep n k visits v = elim v.saved [
    | inl e ↦ (
      record n { db = read_values (order n.db) },
      ground (
        arith,
        e,
        parse-file_text (order n.db) (order-Writable n.db visits v.distinct v.writable)
            (visits.order_distinct n.db v.distinct),
      ),
      read_values-lookup (order n.db) k ∙ ap name_after (visits.order_lookup n.db k v.distinct),
    )
    | inr (e, none_yet) ↦ (
      record n { db = [] },
      ground (arith, e),
      sym (ap (λ db. name_after (lookup k db)) none_yet),
    )
  ]

  learn-lookup :
      (key name k : Bytes) (n : NameDatabase)
      → is_empty key ≡ false
      → lookup k (learn order true key name n).db
        ≡ (if same key k && not (is_empty name) then some name else lookup k n.db)
  unfolding learn save
  learn-lookup key name k n named = elim (Bool-cases (is_empty name)) [
    | inl no_name ↦ elim (Bool-cases (same key k)) [
      | inl here ↦ rw (named, no_name, here) refl
      | inr other ↦ rw (named, no_name, other) refl
    ]
    | inr some_name ↦ elim (Bool-cases (knows name (lookup key n.db))) [
      | inr new ↦ elim (Bool-cases (same key k)) [
        | inl here ↦ rw (named, some_name, new) (lookup-insert key k name n.db ∙ rw (here) refl)
        | inr other ↦ rw (named, some_name, new) (lookup-insert key k name n.db ∙ rw (other) refl)
      ]
      | inl old ↦ elim (Bool-cases (same key k)) [
        | inl here ↦
            let found = knows-some name (lookup key n.db) old in
            rw (named, some_name, old, here)
              (ap (λ i. lookup i n.db) (sym ((same_iff key k).0 here)) ∙ found)
        | inr other ↦ rw (named, some_name, old, other) refl
      ]
    ]
  ]

  learn_all-lookup :
      (l : List (Bytes × Bytes)) (k : Bytes) (n : NameDatabase)
      → Writable l
      → lookup k (learn_all order l n).db ≡ last_learnt k l (lookup k n.db)
  unfolding learn_all
  learn_all-lookup [] k n w = refl
  learn_all-lookup ((key, name) ∷ l) k n w =
      learn_all-lookup l k (learn order true key name n) w.1
      ∙ ap (last_learnt k l) (learn-lookup key name k n w.0.0.nonempty)

  -- After any calls of `Learn` with keys and names without NUL bytes, and keys that escape to
  -- themselves, that could all open the file, a database made from the file finds under each key the
  -- last name that was learnt with it and is not empty, and no name where there is none, in whatever
  -- order `Save` visits the map; a line feed of a name has become the letter n, and a carriage
  -- return the letter r.
  pub learn_all_reload :
      (l : List (Bytes × Bytes)) (k : Bytes)
      → IsOrder order
      → Writable l
      → (m : NameDatabase) × (make (learn_all order l fresh).file ≡ some m)
        × (lookup k m.db ≡ name_after (last_learnt k l none))
  unfolding lookup
  learn_all_reload l k visits w =
      let (m, loaded, found) = load-InStep (learn_all order l fresh) k visits (
        learn_all-InStep l fresh w
          (record { writable = tt; distinct = tt; saved = inr (refl, refl) })) in
      (m, loaded, found ∙ ap name_after (learn_all-lookup l k fresh w))
