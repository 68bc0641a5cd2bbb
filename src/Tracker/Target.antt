-- ===== src/Tracker/Target.antt =====
-- The entries of `TargetTracker` in backend/src/target_tracker.cpp and what `Update` writes into one.
use multi_radio.Common.{
  ℕ, Bool, false, ◌&&◌, ◌||◌, Option, none, some, [], ◌∷◌, if◌then◌else◌, is_empty, Bytes, codes,
  same, lookup,
}
use multi_radio.Types.Data.{SignalType, ais, adsb, DecodedMessage}
use multi_radio.Types.Double.{Doubles, zero_of}

pub record TrackedTarget (D : Type 0) : Type 0 where
  pub id : Bytes
  pub label : Bytes
  pub target_kind : Bytes
  pub lat : D
  pub lon : D
  pub sog_knots : D
  pub cog_degrees : D
  pub has_altitude : Bool
  pub altitude_ft : D
  pub last_seen_ms : ℕ

-- An empty text where the key is missing.
abbrev pub text_or_empty : Option Bytes → Bytes
text_or_empty none = []
text_or_empty (some s) = s

unfoldable pub field_str : {D : Type 0} → DecodedMessage D → Bytes → Bytes
unfolding lookup
field_str msg key = text_or_empty (lookup key msg.normalized_fields)

abbrev pub is_air_sar : {D : Type 0} → DecodedMessage D → Bool
is_air_sar msg = same (field_str msg (codes "signal_type")) (codes "AIR-SAR")

-- The key of a message and the kind of its target; the key is empty for any other message.
abbrev pub key_of_type : {D : Type 0} → SignalType → DecodedMessage D → Bytes × Bytes
key_of_type adsb msg = (field_str msg (codes "icao"), codes "AIR")
key_of_type ais msg =
    if is_air_sar msg
    then (field_str msg (codes "mmsi"), codes "AIR-SAR")
    else (field_str msg (codes "mmsi"), codes "SEA")
key_of_type _ msg =
    if is_air_sar msg then (field_str msg (codes "mmsi"), codes "AIR-SAR") else ([], [])

unfoldable pub key_and_kind : {D : Type 0} → DecodedMessage D → Bytes × Bytes
unfolding field_str
key_and_kind msg = key_of_type msg.signal_type msg

abbrev pub or_else : Bytes → Bytes → Bytes
or_else [] t = t
or_else (c ∷ s) t = c ∷ s

module _ {D : Type 0} (f : Doubles D) where
  abbrev pub number_or_nan : Option D → D
  number_or_nan none = f.nan
  number_or_nan (some v) = v

  unfoldable pub parse_double : Bytes → D
  parse_double s = if is_empty s then f.nan else number_or_nan (f.strtod s)

  unfoldable pub field : DecodedMessage D → Bytes → D
  unfolding parse_double field_str
  field msg key = parse_double (field_str msg key)

  abbrev pub new_target : TrackedTarget D
  new_target = record {
    id = [];
    label = [];
    target_kind = [];
    lat = f.nan;
    lon = f.nan;
    sog_knots = zero_of f;
    cog_degrees = zero_of f;
    has_altitude = false;
    altitude_ft = zero_of f;
    last_seen_ms = 0;
  }

  -- A speed is taken over if it is finite and above zero.
  abbrev pub speed_after : D → D → D
  speed_after gs old = if f.is_finite gs && f.lt (zero_of f) gs then gs else old

  abbrev pub finite_or : D → D → D
  finite_or v old = if f.is_finite v then v else old

  abbrev pub position_known : DecodedMessage D → Bool
  position_known msg =
      f.is_finite (field msg (codes "lat")) && f.is_finite (field msg (codes "lon"))

  abbrev pub label_after : DecodedMessage D → Bytes → Bytes → Bytes
  label_after msg key old =
      or_else
        (or_else (field_str msg (codes "name")) (
          or_else (field_str msg (codes "callsign"))
            (or_else (field_str msg (codes "call_sign")) old)))
        key

  abbrev pub altitude_known : DecodedMessage D → Bool
  altitude_known msg =
      f.is_finite (field msg (codes "alt_baro")) || f.is_finite (field msg (codes "alt_geom"))

  -- The entry after a message, `seen` being the time of the message.
  unfoldable pub updated_target :
      ℕ → DecodedMessage D → Bytes → Bytes → TrackedTarget D → TrackedTarget D
  unfolding field
  updated_target seen msg key kind e = record {
    id = key;
    label = label_after msg key e.label;
    target_kind = kind;
    lat = if position_known msg then field msg (codes "lat") else e.lat;
    lon = if position_known msg then field msg (codes "lon") else e.lon;
    sog_knots =
        speed_after (field msg (codes "sog")) (speed_after (field msg (codes "gs")) e.sog_knots);
    cog_degrees =
        finite_or (field msg (codes "cog")) (finite_or (field msg (codes "heading")) e.cog_degrees);
    has_altitude = altitude_known msg || e.has_altitude;
    altitude_ft =
        finite_or (field msg (codes "alt_baro"))
          (finite_or (field msg (codes "alt_geom")) e.altitude_ft);
    last_seen_ms = seen;
  }
