-- ===== src/Names/Database.antt =====
-- `NameDatabase` of backend/src/name_database.cpp. The file is part of the state; whether it can be
-- opened for writing is an argument, and so is `order`, in which the loop of `Save` visits the entries
-- of the unordered map.
use multi_radio.Common.{
  ℕ, Bool, false, ◌||◌, Option, none, some, List, [], if◌then◌else◌, length, is_empty, Bytes, same,
  lookup, insert,
}
use multi_radio.Names.Json.{parse_flat_json, file_text}

pub record NameDatabase : Type 0 where
  pub db : List (Bytes × Bytes)
  pub file : Option Bytes

abbrev pub loaded : NameDatabase → Option (List (Bytes × Bytes)) → Option NameDatabase
loaded n none = none
loaded n (some m) = some (record n { db = m })

-- `Load`: a file that cannot be opened leaves the map as it is. (`none` would be a parser that ran
-- out of fuel.)
unfoldable pub load : NameDatabase → Option NameDatabase
load n = elim n.file [ none ↦ some n | some text ↦ loaded n (parse_flat_json text) ]

-- The constructor: an empty map, then `Load`.
unfoldable pub make : Option Bytes → Option NameDatabase
unfolding load
make file = load (record { db = []; file = file })

abbrev pub Order : Type 0
Order = List (Bytes × Bytes) → List (Bytes × Bytes)

unfoldable pub save : Order → Bool → NameDatabase → NameDatabase
save order writable n = if writable then record n { file = some (file_text (order n.db)) } else n

-- `it != db_.end() && it->second == name`.
abbrev pub knows : Bytes → Option Bytes → Bool
knows name none = false
knows name (some old) = same old name

unfoldable pub learn : Order → Bool → Bytes → Bytes → NameDatabase → NameDatabase
unfolding save
learn order writable key name n =
    if is_empty key || is_empty name
    then n
    else if knows name (lookup key n.db)
    then n
    else save order writable (record n { db = insert key name n.db })

unfoldable pub lookup_name : Bytes → NameDatabase → Bytes
lookup_name key n =
    if is_empty key then [] else elim (lookup key n.db) [ none ↦ [] | some name ↦ name ]

unfoldable pub size : NameDatabase → ℕ
size n = length n.db
