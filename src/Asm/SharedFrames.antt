-- ===== src/Asm/SharedFrames.antt =====
-- A frame of a standard message on its way through plugins/asm_decoder.c and plugins/ais_decoder.c.
use multi_radio.Common.{
  ℕ, ◌≡◌, refl, subst, sym, inl, inr, true, false, ◌||◌, Option, none, some, List, [], ◌==◌, ==_iff,
  if◌then◌else◌, Bool, Bool-cases, ltb, length, leb, All, keep, not, same, arith, or_true, Bytes,
  codes, lookup,
}
use multi_radio.Ais.Bits.{ℤ}
use multi_radio.Ais.Messages
use multi_radio.Ais.Messages.{Emitted, position_message}
use multi_radio.Ais.StaticData
use multi_radio.Ais.OtherReports
use multi_radio.Ais.Dispatch
use multi_radio.Asm.Format.{ais_u}
use multi_radio.Asm.Weather.{Unwritten}
use multi_radio.Asm.Binary.{message}
use multi_radio.Asm.Standard.{
  decode_position, decode_base_station, decode_voyage, decode_aton, decode_static24,
  static24_part_a, static24_part_b,
}
use multi_radio.Asm.Decoder.{at_least, dispatch_type, dispatch_frame}

-- Every field is among the others, with the same value.
abbrev pub AreIn : List (Bytes × Bytes) → List (Bytes × Bytes) → Type 0
AreIn fields others = All (λ entry. lookup entry.0 others ≡ some entry.1) fields

abbrev pub without : Bytes → List (Bytes × Bytes) → List (Bytes × Bytes)
without key fields = keep (λ entry. not (same entry.0 key)) fields

-- The types of the messages that both decoders have fields for, other than the binary ones.
abbrev pub is_shared : ℕ → Bool
is_shared t =
    t == 1 || (t == 2 || (t == 3 || (t == 18 || (t == 4 || (t == 5 || (t == 21 || t == 24))))))

-- The key that is left out of account.
abbrev pub apart : ℕ → Bytes
apart t = if t == 4 then codes "utc" else if t == 21 then codes "type" else []

-- Both drop a message, or both emit it and the second writes the fields of the first.
abbrev pub Mirrors : Bytes → Option Emitted → Option Emitted → Type 0
Mirrors key none none = Unit
Mirrors key (some e) (some e') = AreIn (without key e.kv) e'.kv
Mirrors key _ _ = ⊥

at_least-Mirrors :
    (key : Bytes) (n : ℕ) (d : List ℕ) (e e' : Emitted)
    → AreIn (without key e.kv) e'.kv
    → Mirrors key (at_least n d e) (Dispatch.at_least n d e')
at_least-Mirrors key n d e e' fields = elim (Bool-cases (leb n (length d))) [
  | inl long ↦ let room : ltb (length d) n ≡ false = ground (arith, long) in rw (long, room) fields
  | inr short ↦
      let no_room : ltb (length d) n ≡ true = ground (arith, short) in rw (short, no_room) tt
]

position-AreIn :
    (d : List ℕ) (mt : ℕ)
    → AreIn (without [] (decode_position d mt).kv) (Messages.decode_position d mt).kv
unfolding decode_position Messages.decode_position position_message lookup
position-AreIn d mt = (refl, (refl, (refl, (refl, (refl, (refl, (refl, (refl, tt))))))))

voyage-AreIn :
    (d : List ℕ) → AreIn (without [] (decode_voyage d).kv) (StaticData.decode_voyage d).kv
unfolding decode_voyage StaticData.decode_voyage lookup
voyage-AreIn d = (refl, (refl, (refl, (refl, (refl, (refl, tt))))))

static24-AreIn :
    (d : List ℕ) → AreIn (without [] (decode_static24 d).kv) (StaticData.decode_static24 d).kv
unfolding decode_static24 static24_part_a static24_part_b StaticData.decode_static24
    StaticData.static24_part_a StaticData.static24_part_b lookup
static24-AreIn d = elim (Bool-cases (ais_u d 38 2 == 0)) [
  | inl a ↦ rw (a) (refl, (refl, (refl, (refl, (refl, tt)))))
  | inr b ↦ rw (b) (refl, (refl, (refl, (refl, (refl, (refl, (refl, tt)))))))
]

base_station-AreIn :
    (d : List ℕ)
    → AreIn
        (without (codes "utc") (decode_base_station d).kv)
        (OtherReports.decode_base_station d).kv
unfolding decode_base_station OtherReports.decode_base_station lookup
base_station-AreIn d = (refl, (refl, (refl, (refl, (refl, tt)))))

aton-AreIn :
    (d : List ℕ) → AreIn (without (codes "type") (decode_aton d).kv) (OtherReports.decode_aton d).kv
unfolding decode_aton OtherReports.decode_aton lookup
aton-AreIn d = (refl, (refl, (refl, (refl, (refl, (refl, tt))))))

module _ (print5 : ℤ → Bytes) (t : Unwritten) (frm d : List ℕ) where
  -- What the two dispatches make of a message of a type.
  MirrorsAt : ℕ → Type 0
  MirrorsAt mt = Mirrors (apart mt) (dispatch_type print5 t frm d mt) (Dispatch.dispatch frm d mt)

  at_type : (mt k : ℕ) → (mt == k) ≡ true → MirrorsAt k → MirrorsAt mt
  at_type mt k e mirrored = subst MirrorsAt (sym ((==_iff mt k).0 e)) mirrored

  dispatch_type-Mirrors : (mt : ℕ) → is_shared mt ≡ true → MirrorsAt mt
  unfolding MirrorsAt dispatch_type Dispatch.dispatch
  dispatch_type-Mirrors mt shared = elim (or_true (mt == 1) _ shared) [
    | inl e ↦ at_type mt 1 e (at_least-Mirrors [] 21 d _ _ (position-AreIn d 1))
    | inr shared ↦ elim (or_true (mt == 2) _ shared) [
      | inl e ↦ at_type mt 2 e (at_least-Mirrors [] 21 d _ _ (position-AreIn d 2))
      | inr shared ↦ elim (or_true (mt == 3) _ shared) [
        | inl e ↦ at_type mt 3 e (at_least-Mirrors [] 21 d _ _ (position-AreIn d 3))
        | inr shared ↦ elim (or_true (mt == 18) _ shared) [
          | inl e ↦ at_type mt 18 e (at_least-Mirrors [] 21 d _ _ (position-AreIn d 18))
          | inr shared ↦ elim (or_true (mt == 4) _ shared) [
            | inl e ↦
                at_type mt 4 e (at_least-Mirrors (codes "utc") 21 d _ _ (base_station-AreIn d))
            | inr shared ↦ elim (or_true (mt == 5) _ shared) [
              | inl e ↦ at_type mt 5 e (at_least-Mirrors [] 53 d _ _ (voyage-AreIn d))
              | inr shared ↦ elim (or_true (mt == 21) _ shared) [
                | inl e ↦ at_type mt 21 e (at_least-Mirrors (codes "type") 34 d _ _ (aton-AreIn d))
                | inr e ↦ at_type mt 24 e (at_least-Mirrors [] 20 d _ _ (static24-AreIn d))
              ]
            ]
          ]
        ]
      ]
    ]
  ]

-- Of a frame of a position report (types 1, 2, 3 and 18), of a base station (4), of voyage data (5), of
-- an aid to navigation (21) or of static data (24) either both decoders emit nothing or both emit a
-- message, and of that every field that asm_decoder writes is written by ais_decoder too, with the
-- same value, but for the time of a base station and the type of an aid to navigation.
pub dispatch_frame-Mirrors :
    (print5 : ℤ → Bytes) (t : Unwritten) (frm : List ℕ)
    → is_shared (ais_u (message frm) 0 6) ≡ true
    → Mirrors
        (apart (ais_u (message frm) 0 6))
        (dispatch_frame print5 t frm)
        (Dispatch.decode_and_emit frm)
unfolding dispatch_frame Dispatch.decode_and_emit MirrorsAt
dispatch_frame-Mirrors print5 t frm shared = elim (Bool-cases (ltb (length frm) 5)) [
  | inl short ↦ rw (short) tt
  | inr long ↦
      rw (long) (dispatch_type-Mirrors print5 t frm (message frm) (ais_u (message frm) 0 6) shared)
]
