-- ===== src/Types/Double.antt =====
-- `double` and `float` values: their operations come with the hardware and the C++ library and are
-- parameters of the model.
use multi_radio.Common.{Bool, Option, Bytes, codes}

pub record Doubles (D : Type 0) : Type 0 where
  -- The value of a literal of the source.
  pub literal : Bytes → D
  pub lt : D → D → Bool
  pub le : D → D → Bool
  pub eq : D → D → Bool
  pub plus : D → D → D
  pub times : D → D → D
  pub is_finite : D → Bool
  -- `quiet_NaN`.
  pub nan : D
  -- `std::to_string`.
  pub to_string : D → Bytes
  -- `std::strtod` on a whole text: `none` where it reads no number.
  pub strtod : Bytes → Option D

module _ {D : Type 0} (f : Doubles D) where
  abbrev pub zero_of : D
  zero_of = f.literal (codes "0.0")
