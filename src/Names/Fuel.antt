-- ===== src/Names/Fuel.antt =====
-- The parser of backend/src/name_database.cpp ends on every input: the fuel suffices.
use multi_radio.Common.{
  ℕ, zero, suc, ◌≤◌, ◌<◌, ◌≡◌, refl, inl, inr, Bool, true, not, ◌&&◌, ◌||◌, some, List, [], ◌∷◌,
  arith, ◌==◌, Bool-cases, length, Bytes, Option-cases,
}
use multi_radio.Names.Json.{
  quote, head_is, rest_of, skip, read_quoted, parse_entry, parse_loop, c_str, is_blank,
  parse_flat_json,
}

pub skip-length : (test : ℕ → Bool) (s : Bytes) → length (skip test s) ≤ length s
unfolding skip
skip-length test [] = omega arith
skip-length test (c ∷ s) = ground (arith, skip-length test s)

read_quoted-length : (s : Bytes) → length (read_quoted s).1 ≤ length s
unfolding read_quoted
read_quoted-length [] = omega arith
read_quoted-length (c ∷ []) = ground arith
read_quoted-length (c ∷ d ∷ s) = ground (arith, read_quoted-length s, read_quoted-length (d ∷ s))

pub rest_of-length : (c : ℕ) (s : Bytes) → head_is c s ≡ true → length (rest_of s) < length s
rest_of-length c [] h = cc
rest_of-length c (x ∷ s) h = omega arith

pub rest_of-le : (s : Bytes) → length (rest_of s) ≤ length s
rest_of-le [] = omega arith
rest_of-le (x ∷ s) = omega arith

-- A round of the main loop that goes on takes at least the quote before a key.
parse_entry-length :
    (p left : Bytes) (out out' : List (Bytes × Bytes))
    → parse_entry p out ≡ some (left, out')
    → length left < length p
unfolding parse_entry
parse_entry-length p left out out' h =
    let key = read_quoted (rest_of p) in
    let next = skip (λ c. c == b' ' || c == b':') key.1 in
    ground (
      arith,
      rest_of-length quote p,
      read_quoted-length (rest_of p),
      skip-length (λ c. c == b' ' || c == b':') key.1,
      rest_of-le next,
      read_quoted-length (rest_of next),
      skip-length (λ c. not (c == b',') && not (c == b'}')) next,
    )

parse_loop-total :
    (fuel : ℕ) (p : Bytes) (out : List (Bytes × Bytes))
    → length p < fuel
    → (m : List (Bytes × Bytes)) × (parse_loop fuel p out ≡ some m)
unfolding parse_loop
parse_loop-total zero p out h = absurd (omega arith)
parse_loop-total (suc fuel) [] out h = (out, refl)
parse_loop-total (suc fuel) (c ∷ s) out h = elim (Bool-cases (c == b'}')) [
  | inl closed ↦ (out, rw (closed, parse_loop))
  | inr more ↦ elim (Option-cases (parse_entry (skip is_blank (c ∷ s)) out)) [
    | inl stop ↦ (out, ground (arith, more, stop))
    | inr ((left, out'), goes) ↦
        let shorter : length left < fuel = omega (
          arith,
          parse_entry-length (skip is_blank (c ∷ s)) left out out' goes,
          skip-length is_blank (c ∷ s),
        ) in
        let (m, later) = parse_loop-total fuel left out' shorter in
        (m, ground (arith, more, goes, later))
  ]
]

-- `ParseFlatJson` ends on every text: some map comes back.
pub parse_flat_json-total :
    (src : Bytes) → (m : List (Bytes × Bytes)) × (parse_flat_json src ≡ some m)
unfolding parse_flat_json
parse_flat_json-total src =
    let p = skip (λ c. not (c == b'{')) (c_str src) in
    elim (Bool-cases (head_is b'{' p)) [
      | inl opened ↦
          let (m, e) =
            parse_loop-total (suc (length p)) (rest_of p) [] (omega (arith, rest_of-le p)) in
          (m, ground (arith, opened, e))
      | inr absent ↦ ([], ground (arith, absent))
    ]
