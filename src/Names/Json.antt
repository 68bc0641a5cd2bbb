-- ===== src/Names/Json.antt =====
-- `JsonEscape`, `ParseFlatJson` and the text that `Save` writes, of backend/src/name_database.cpp.
use multi_radio.Common.{
  ℕ, zero, suc, Bool, true, false, not, ◌&&◌, ◌||◌, Option, none, some, List, [], ◌∷◌, ◌++◌, ◌==◌,
  if◌then◌else◌, length, Bytes, insert,
}

abbrev pub quote : ℕ
quote = 34

abbrev pub backslash : ℕ
backslash = 92

-- The bytes that `JsonEscape` writes for one byte.
unfoldable pub escape_byte : ℕ → Bytes
escape_byte c =
    if c == quote
    then backslash ∷ quote ∷ []
    else if c == backslash
    then backslash ∷ backslash ∷ []
    else if c == 10
    then backslash ∷ b'n' ∷ []
    else if c == 13
    then backslash ∷ b'r' ∷ []
    else c ∷ []

unfoldable pub json_escape : Bytes → Bytes
json_escape [] = []
json_escape (c ∷ s) = escape_byte c ++ json_escape s

-- What `c_str()` shows of a string: the bytes before the first NUL.
unfoldable pub c_str : Bytes → Bytes
c_str [] = []
c_str (c ∷ s) = if c == 0 then [] else c ∷ c_str s

abbrev pub head_is : ℕ → Bytes → Bool
head_is c [] = false
head_is c (x ∷ s) = x == c

abbrev pub rest_of : Bytes → Bytes
rest_of [] = []
rest_of (x ∷ s) = s

-- `while (*p && test(*p)) ++p`.
unfoldable pub skip : (ℕ → Bool) → Bytes → Bytes
skip test [] = []
skip test (c ∷ s) = if test c then skip test s else c ∷ s

abbrev pub is_blank : ℕ → Bool
is_blank c = c == b' ' || (c == 9 || (c == 10 || (c == 13 || c == b',')))

abbrev pub push_byte : ℕ → Bytes × Bytes → Bytes × Bytes
push_byte c (s, rest) = (c ∷ s, rest)

-- The loop that reads a key or a value behind its opening quote, and the closing quote: the bytes
-- read, and what is left of the text.
unfoldable pub read_quoted : Bytes → Bytes × Bytes
read_quoted [] = ([], [])
read_quoted (c ∷ []) = if c == quote then ([], []) else (c ∷ [], [])
read_quoted (c ∷ d ∷ s) = elim (c == quote) [
  | true ↦ ([], d ∷ s)
  | false ↦ elim (c == backslash) [
    | true ↦ push_byte d (read_quoted s)
    | false ↦ push_byte c (read_quoted (d ∷ s))
  ]
]

-- `if (!key.empty()) out[key] = val;`.
unfoldable pub store : Bytes → Bytes → List (Bytes × Bytes) → List (Bytes × Bytes)
store [] val out = out
store (c ∷ key) val out = insert (c ∷ key) val out

-- One round of the main loop behind the blanks: what it adds to the map, and what is left of the
-- text; `none` is the `break`.
unfoldable pub parse_entry : Bytes → List (Bytes × Bytes) → Option (Bytes × List (Bytes × Bytes))
parse_entry p out =
    let (key, after) = read_quoted (rest_of p) in
    let next = skip (λ c. c == b' ' || c == b':') after in
    let (val, left) = read_quoted (rest_of next) in
    if not (head_is quote p)
    then none
    else if head_is quote next
    then some (left, store key val out)
    else some (skip (λ c. not (c == b',') && not (c == b'}')) next, out)

-- The main loop, on fuel; `none` means that the fuel ran out.
unfoldable pub parse_loop : ℕ → Bytes → List (Bytes × Bytes) → Option (List (Bytes × Bytes))
parse_loop zero p out = none
parse_loop (suc fuel) [] out = some out
parse_loop (suc fuel) (c ∷ s) out = elim (c == b'}') [
  | true ↦ some out
  | false ↦ elim (parse_entry (skip is_blank (c ∷ s)) out) [
    | none ↦ some out
    | some (p, out') ↦ parse_loop fuel p out'
  ]
]

-- `ParseFlatJson`, with fuel for one round for each byte.
unfoldable pub parse_flat_json : Bytes → Option (List (Bytes × Bytes))
parse_flat_json src =
    let p = skip (λ c. not (c == b'{')) (c_str src) in
    if head_is b'{' p then parse_loop (suc (length p)) (rest_of p) [] else some []

unfoldable pub entry_text : Bytes → Bytes → Bytes
entry_text k v = quote ∷ (json_escape k ++ (quote ∷ b':' ∷ quote ∷ (json_escape v ++ (quote ∷ []))))

-- The loop of `Save`, with its flag `first`.
unfoldable pub entries_text : Bool → List (Bytes × Bytes) → Bytes
entries_text first [] = []
entries_text first ((k, v) ∷ db) =
    (if first then [] else b',' ∷ []) ++ (entry_text k v ++ entries_text false db)

-- What `Save` writes.
unfoldable pub file_text : List (Bytes × Bytes) → Bytes
file_text db = b'{' ∷ (entries_text true db ++ (b'}' ∷ []))
