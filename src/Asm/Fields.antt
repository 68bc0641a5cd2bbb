-- ===== src/Asm/Fields.antt =====
-- What all messages of DAC 1 of plugins/asm_decoder.c have.
use multi_radio.Asm.Binary.{unknown_fi, dispatch_dac001}
use multi_radio.Asm.Routes.{decode_fi27, decode_fi28, decode_fi29, decode_fi32}
use multi_radio.Asm.Notices.{decode_fi13, decode_fi16, decode_fi17, decode_fi22, decode_fi26}
use multi_radio.Ais.Bits.{ℤ}
use multi_radio.Common.{
  ℕ, ◌≡◌, refl, Bool, true, false, some, List, [], ◌∷◌, ◌==◌, if◌then◌else◌, Bytes, codes, lookup,
}
use multi_radio.Ais.Format.{decimal}
use multi_radio.Ais.Messages.{Emitted}
use multi_radio.Asm.Format.{asm_emission}
use multi_radio.Asm.Weather.{decode_fi11_21, Unwritten, decode_fi31}

-- The fields name the type of the emission, the type of the message and the sender, twice.
abbrev pub IsNamed : Emitted → ℕ → ℕ → Type 0
IsNamed e msg_type mmsi =
    (lookup (codes "signal_type") e.kv ≡ some e.signal_type)
    × (lookup (codes "msg_type") e.kv ≡ some (decimal msg_type))
    × (lookup (codes "sender_mmsi") e.kv ≡ some (decimal mmsi))
    × (lookup (codes "mmsi") e.kv ≡ some (decimal mmsi))

-- The types of the emissions, by the function identifier.
abbrev pub fi_types : List (ℕ × Bytes)
fi_types =
    (11, codes "AIS_ASM_METHYDRO")
    ∷ (13, codes "AIS_ASM_FAIRWAY_CLOSED")
    ∷ (16, codes "AIS_ASM_PERSONS_ON_BOARD")
    ∷ (17, codes "AIS_ASM_VTS_TEXT")
    ∷ (21, codes "AIS_ASM_METHYDRO")
    ∷ (22, codes "AIS_ASM_AREA_NOTICE")
    ∷ (26, codes "AIS_ASM_ENVIRONMENTAL")
    ∷ (27, codes "AIS_ASM_ROUTE")
    ∷ (28, codes "AIS_ASM_TEXT")
    ∷ (29, codes "AIS_ASM_TRAFFIC_SIGNAL")
    ∷ (31, codes "AIS_ASM_METHYDRO_LONG")
    ∷ (32, codes "AIS_ASM_TIDAL_WINDOW")
    ∷ []

abbrev pub type_in : List (ℕ × Bytes) → ℕ → Bytes
type_in [] fi = codes "AIS_ASM_UNKNOWN"
type_in ((n, type) ∷ table) fi = if fi == n then type else type_in table fi

abbrev pub IsOfType : Bytes → ℕ → ℕ → Emitted → Type 0
IsOfType type msg_type mmsi e = (e.signal_type ≡ type) × IsNamed e msg_type mmsi

-- What holds of both results of the same test.
same_test :
    (msg_type mmsi : ℕ) (b : Bool) (type type' : Bytes) (e e' : Emitted)
    → IsOfType type msg_type mmsi e
    → IsOfType type' msg_type mmsi e'
    → IsOfType (if b then type else type') msg_type mmsi (if b then e else e')
same_test msg_type mmsi true type type' e e' h h' = h
same_test msg_type mmsi false type type' e e' h h' = h'

-- Whatever its function identifier, a message of DAC 1 is emitted with the type of the table, and its
-- fields name that type, the type of the message and, twice, the sender.
pub dispatch_dac001-IsOfType :
    (print5 : ℤ → Bytes) (t : Unwritten) (d : List ℕ) (app_off fi mmsi msg_type : ℕ)
    → IsOfType
        (type_in fi_types fi)
        msg_type
        mmsi
        (dispatch_dac001 print5 t d app_off fi mmsi msg_type)
unfolding dispatch_dac001 asm_emission lookup decode_fi11_21 decode_fi13 decode_fi16 decode_fi17
    decode_fi22 decode_fi26 decode_fi27 decode_fi28 decode_fi29 decode_fi31 decode_fi32 unknown_fi
dispatch_dac001-IsOfType print5 t d app_off fi mmsi msg_type =
    same_test msg_type mmsi (fi == 11) _ _ _ _ (refl, (refl, refl, refl, refl))
      (same_test msg_type mmsi (fi == 13) _ _ _ _ (refl, (refl, refl, refl, refl))
        (same_test msg_type mmsi (fi == 16) _ _ _ _ (refl, (refl, refl, refl, refl))
          (same_test msg_type mmsi (fi == 17) _ _ _ _ (refl, (refl, refl, refl, refl))
            (same_test msg_type mmsi (fi == 21) _ _ _ _ (refl, (refl, refl, refl, refl))
              (same_test msg_type mmsi (fi == 22) _ _ _ _ (refl, (refl, refl, refl, refl))
                (same_test msg_type mmsi (fi == 26) _ _ _ _ (refl, (refl, refl, refl, refl))
                  (same_test msg_type mmsi (fi == 27) _ _ _ _ (refl, (refl, refl, refl, refl))
                    (same_test msg_type mmsi (fi == 28) _ _ _ _ (refl, (refl, refl, refl, refl))
                      (same_test msg_type mmsi (fi == 29) _ _ _ _ (refl, (refl, refl, refl, refl))
                        (same_test msg_type mmsi (fi == 31) _ _ _ _ (refl, (refl, refl, refl, refl))
                          (same_test msg_type mmsi (fi == 32) _ _ _ _
                            (refl, (refl, refl, refl, refl))
                            ((refl, (refl, refl, refl, refl))))))))))))))
