-- ===== src/EventLog/Reading.antt =====
-- A reader of JSON texts, and the texts that backend/src/jsonl_logger.cpp writes.
use multi_radio.Common.{
  ℕ, ◌<◌, ◌≡◌, refl, sym, ap, ◌∙◌, inl, inr, true, false, not, ◌&&◌, ◌||◌, Option, some, none, ltb,
  [], ◌∷◌, ◌++◌, append_assoc, arith, ◌==◌, if◌then◌else◌, ==_iff, Bool-cases, length, All,
  All-append, length-append, Bytes,
}
use multi_radio.Names.Json.{quote, backslash}
use multi_radio.EventLog.Lines.{escaped_byte, escape_json}

-- The byte that a letter behind a backslash stands for in JSON. The escapes of code points, with a u,
-- are not read.
abbrev pub unescaped : ℕ → Option ℕ
unescaped c =
    if c == quote || (c == backslash || c == b'/')
    then some c
    else if c == b'b'
    then some 8
    else if c == b'f'
    then some 12
    else if c == b'n'
    then some 10
    else if c == b'r'
    then some 13
    else if c == b't'
    then some 9
    else none

abbrev pub push_some : Option ℕ → Option (Bytes × Bytes) → Option (Bytes × Bytes)
push_some (some c) (some (s, rest)) = some (c ∷ s, rest)
push_some _ _ = none

-- A text as JSON has it, up to the closing quote, and what follows it. There is none if a control
-- character stands in the text, an escape is not one, or the quote is missing.
unfoldable pub read_text : Bytes → Option (Bytes × Bytes)
read_text [] = none
read_text (c ∷ []) = if c == quote then some ([], []) else none
read_text (c ∷ e ∷ s) = elim (c == quote) [
  | true ↦ some ([], e ∷ s)
  | false ↦ elim (c == backslash) [
    | true ↦ push_some (unescaped e) (read_text s)
    | false ↦ elim (ltb c 32) [ true ↦ none | false ↦ push_some (some c) (read_text (e ∷ s)) ]
  ]
]

-- The control characters of the text are line feeds, carriage returns and tabs.
abbrev pub IsPrintable : ℕ → Type 0
IsPrintable c = (ltb c 32 && not (c == 10 || (c == 13 || c == 9))) ≡ false

read_text-escaped_byte :
    (c e : ℕ) (s : Bytes)
    → IsPrintable c
    → read_text (escaped_byte c ++ (e ∷ s)) ≡ push_some (some c) (read_text (e ∷ s))
unfolding read_text
read_text-escaped_byte c e s printable = elim (Bool-cases (c == quote)) [
  | inl is_quote ↦
      rw (is_quote)
        (ap (λ b. push_some (some b) (read_text (e ∷ s))) (sym ((==_iff c quote).0 is_quote)))
  | inr no_quote ↦ elim (Bool-cases (c == backslash)) [
    | inl is_slash ↦
        rw (no_quote, is_slash)
          (ap (λ b. push_some (some b) (read_text (e ∷ s))) (sym ((==_iff c backslash).0 is_slash)))
    | inr no_slash ↦ elim (Bool-cases (c == 10)) [
      | inl is_n ↦
          rw (no_quote, no_slash, is_n)
            (ap (λ b. push_some (some b) (read_text (e ∷ s))) (sym ((==_iff c 10).0 is_n)))
      | inr no_n ↦ elim (Bool-cases (c == 13)) [
        | inl is_r ↦
            rw (no_quote, no_slash, no_n, is_r)
              (ap (λ b. push_some (some b) (read_text (e ∷ s))) (sym ((==_iff c 13).0 is_r)))
        | inr no_r ↦ elim (Bool-cases (c == 9)) [
          | inl is_t ↦
              rw (no_quote, no_slash, no_n, no_r, is_t)
                (ap (λ b. push_some (some b) (read_text (e ∷ s))) (sym ((==_iff c 9).0 is_t)))
          | inr no_t ↦
              let no_control : ltb c 32 ≡ false = ground (arith, printable, no_n, no_r, no_t) in
              rw (no_quote, no_slash, no_n, no_r, no_t, read_text, no_quote, no_slash, no_control)
                refl
        ]
      ]
    ]
  ]
]

read_text-behind :
    (c : ℕ) (tail : Bytes)
    → 0 < length tail
    → IsPrintable c
    → read_text (escaped_byte c ++ tail) ≡ push_some (some c) (read_text tail)
read_text-behind c [] some_tail printable = absurd (omega (arith, some_tail))
read_text-behind c (e ∷ s) some_tail printable = read_text-escaped_byte c e s printable

-- A text that is escaped between quotes is a JSON text, which reads back as itself, and what follows
-- the quote is left, if the text has no control characters but line feeds, carriage returns and tabs.
pub read_text-escape_json :
    (s rest : Bytes)
    → All IsPrintable s
    → read_text (escape_json s ++ (quote ∷ rest)) ≡ some (s, rest)
unfolding read_text escape_json
read_text-escape_json [] [] printable = refl
read_text-escape_json [] (c ∷ rest) printable = refl
read_text-escape_json (c ∷ s) rest printable =
    let tail = escape_json s ++ (quote ∷ rest) in
    let nonempty : 0 < length tail = omega (arith, length-append (escape_json s) (quote ∷ rest)) in
    ap read_text (append_assoc (escaped_byte c) (escape_json s) (quote ∷ rest))
    ∙ read_text-behind c tail nonempty printable.0
    ∙ ap (push_some (some c)) (read_text-escape_json s rest printable.1)

escaped_byte-NoLineFeed : (c : ℕ) → All (λ c. (c == 10) ≡ false) (escaped_byte c)
escaped_byte-NoLineFeed c = ground arith

-- No line feed is left in an escaped text, so that a line of the log is one text.
pub escape_json-NoLineFeed : (s : Bytes) → All (λ c. (c == 10) ≡ false) (escape_json s)
unfolding escape_json
escape_json-NoLineFeed [] = tt
escape_json-NoLineFeed (c ∷ s) =
    All-append (λ c. (c == 10) ≡ false) (escaped_byte c) (escape_json s) (escaped_byte-NoLineFeed c)
      (escape_json-NoLineFeed s)
