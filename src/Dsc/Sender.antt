-- ===== src/Dsc/Sender.antt =====
-- A sender of the words that plugins/dsc_decoder.c reads.
use multi_radio.Common.{
  ℕ, ◌+◌, ◌/◌, ◌%◌, ◌^◌, sym, Bool, true, false, List, [], ◌∷◌, ◌++◌, ◌==◌, if◌then◌else◌,
}

abbrev pub bit_of : ℕ → ℕ → Bool
bit_of sym k = sym / 2 ^ k % 2 == 1

abbrev pub zero_of : ℕ → ℕ → ℕ
zero_of sym k = if bit_of sym k then 0 else 1

-- The zeros among the seven bits of a symbol.
abbrev pub zeros : ℕ → ℕ
zeros sym =
    zero_of sym 0
    + zero_of sym 1
    + zero_of sym 2
    + zero_of sym 3
    + zero_of sym 4
    + zero_of sym 5
    + zero_of sym 6

abbrev pub check_bits : ℕ → List Bool
check_bits sym = bit_of (zeros sym) 2 ∷ bit_of (zeros sym) 1 ∷ bit_of (zeros sym) 0 ∷ []

-- The lowest bit of the symbol goes first if the order is reversed.
unfoldable pub word_bits : Bool → ℕ → List Bool
word_bits true sym =
    bit_of sym 0
    ∷ bit_of sym 1
    ∷ bit_of sym 2
    ∷ bit_of sym 3
    ∷ bit_of sym 4
    ∷ bit_of sym 5
    ∷ bit_of sym 6
    ∷ check_bits sym
word_bits false sym =
    bit_of sym 6
    ∷ bit_of sym 5
    ∷ bit_of sym 4
    ∷ bit_of sym 3
    ∷ bit_of sym 2
    ∷ bit_of sym 1
    ∷ bit_of sym 0
    ∷ check_bits sym

unfoldable pub call_bits : Bool → List ℕ → List Bool
unfolding word_bits
call_bits reverse [] = []
call_bits reverse (s ∷ symbols) = word_bits reverse s ++ call_bits reverse symbols
