-- ===== src/Ais/Format.antt =====
-- The texts that `snprintf` makes of numbers in plugins/ais_decoder.c. A conversion of a quotient of
-- integers is its decimal rounding: none of the quotients lies near a tie, so that the rounding of the
-- division cannot show.
use multi_radio.Common.{
  ℕ, zero, suc, ◌+◌, ◌*◌, ◌/◌, ◌%◌, true, false, Option, none, some, [], ◌∷◌, ◌++◌, ltb, Bytes,
  codes,
}
use multi_radio.Ais.Bits.{ℤ, pos, negsuc}

-- The lowest digits of a number, as many as asked for: "%02d", "%04d" for numbers of no more digits.
unfoldable pub padded : ℕ → ℕ → Bytes
padded zero n = []
padded (suc width) n = padded width (n / 10) ++ ((48 + n % 10) ∷ [])

unfoldable pub decimal_loop : ℕ → ℕ → Bytes
decimal_loop zero n = []
decimal_loop (suc fuel) n = elim (ltb n 10) [
  | true ↦ (48 + n) ∷ []
  | false ↦ decimal_loop fuel (n / 10) ++ ((48 + n % 10) ∷ [])
]

-- "%u" and "%d": a 64-bit number has twenty digits at most.
unfoldable pub decimal : ℕ → Bytes
unfolding decimal_loop
decimal n = decimal_loop 20 n

-- "%.1f" of `n / 10.0`.
unfoldable pub tenths : ℕ → Bytes
unfolding decimal
tenths n = decimal (n / 10) ++ (b'.' ∷ (48 + n % 10) ∷ [])

-- "%.6f" of `n / 600000.0`: the millionths are 5 / 3 of it.
abbrev pub degrees_of : ℕ → Bytes
degrees_of n =
    let millionths = (n * 10 + 3) / 6 in
    decimal (millionths / 1000000) ++ (b'.' ∷ padded 6 (millionths % 1000000))

unfoldable pub degrees : ℤ → Bytes
unfolding decimal padded
degrees (pos n) = degrees_of n
degrees (negsuc n) = b'-' ∷ degrees_of (n + 1)

-- "%.0f" of `n * 3.28084`.
unfoldable pub feet : ℕ → Bytes
unfolding decimal
feet n = decimal ((n * 328084 + 50000) / 100000)

-- "%d" of a value or -1.
unfoldable pub decimal_or_minus_one : Option ℕ → Bytes
unfolding decimal
decimal_or_minus_one none = codes "-1"
decimal_or_minus_one (some n) = decimal n
