-- ===== src/Names/Quoting.antt =====
-- What a quoted text of backend/src/name_database.cpp reads back as.
use multi_radio.Common.{
  ℕ, ◌≡◌, refl, ap, ◌∙◌, false, [], ◌∷◌, ◌++◌, map, append_assoc, ◌==◌, if◌then◌else◌, Bytes, arith,
}
use multi_radio.Names.Json.{quote, backslash, escape_byte, json_escape, push_byte, read_quoted}

-- The reader drops the backslash and keeps the letter: a line feed comes back as the letter n, and
-- a carriage return as the letter r.
unfoldable pub read_back_byte : ℕ → ℕ
read_back_byte c = if c == 10 then b'n' else if c == 13 then b'r' else c

abbrev pub read_back : Bytes → Bytes
read_back = map read_back_byte

read_quoted-quote : (s : Bytes) → read_quoted (quote ∷ s) ≡ ([], s)
unfolding read_quoted
read_quoted-quote [] = refl
read_quoted-quote (c ∷ s) = refl

read_quoted-backslash :
    (d : ℕ) (s : Bytes) → read_quoted (backslash ∷ d ∷ s) ≡ push_byte d (read_quoted s)
unfolding read_quoted
read_quoted-backslash d s = refl

read_quoted-plain :
    (c : ℕ) (s : Bytes)
    → (c == quote) ≡ false
    → (c == backslash) ≡ false
    → read_quoted (c ∷ s) ≡ push_byte c (read_quoted s)
unfolding read_quoted
read_quoted-plain c [] p q = rw p
read_quoted-plain c (d ∷ s) p q = ground arith

read_quoted-escape_byte :
    (c : ℕ) (s : Bytes)
    → read_quoted (escape_byte c ++ s) ≡ push_byte (read_back_byte c) (read_quoted s)
unfolding escape_byte read_back_byte
read_quoted-escape_byte c s = ground (
  arith,
  read_quoted-backslash quote s,
  read_quoted-backslash backslash s,
  read_quoted-backslash b'n' s,
  read_quoted-backslash b'r' s,
  read_quoted-plain c s,
)

-- An escaped text between quotes reads back as `read_back` of it, and what follows is left.
pub read_quoted-json_escape :
    (s rest : Bytes) → read_quoted (json_escape s ++ (quote ∷ rest)) ≡ (read_back s, rest)
unfolding json_escape
read_quoted-json_escape [] rest = read_quoted-quote rest
read_quoted-json_escape (c ∷ s) rest =
    ap read_quoted (append_assoc (escape_byte c) (json_escape s) (quote ∷ rest))
    ∙ read_quoted-escape_byte c (json_escape s ++ (quote ∷ rest))
    ∙ ap (push_byte (read_back_byte c)) (read_quoted-json_escape s rest)
