-- ===== src/Asm/Notices.antt =====
-- The messages of plugins/asm_decoder.c on fairways, persons, texts, areas and the environment.
use multi_radio.Common.{ℕ, ◌+◌, ◌-◌, ◌*◌, ◌/◌, ◌%◌, List, [], ◌∷◌, ◌==◌, length, Bytes, codes}
use multi_radio.Ais.Format.{padded, decimal}
use multi_radio.Ais.Messages.{Emitted, concat}
use multi_radio.Asm.Format.{ais_u, ais_str, or_na, name_at, name_in, chars_left, asm_emission}

abbrev pub notice_type_name : ℕ → Bytes
notice_type_name = name_in (
    (0, codes "Caution Area: Marine mammals")
    ∷ (1, codes "Caution Area: Migratory birds")
    ∷ (2, codes "Caution Area: Turtle habitat")
    ∷ (3, codes "Caution Area: Storm")
    ∷ (4, codes "Caution Area: Special use")
    ∷ (5, codes "Caution Area: Anchoring prohibited")
    ∷ (6, codes "Caution Area: Restricted fishing")
    ∷ (7, codes "Caution Area: Anchoring permitted")
    ∷ (8, codes "Caution Area: Entry approval req.")
    ∷ (9, codes "Caution Area: Entry prohibited")
    ∷ (10, codes "Caution Area: Diving")
    ∷ (11, codes "Caution Area: Underwater ops")
    ∷ (12, codes "Caution Area: Swimming")
    ∷ (13, codes "Caution Area: Wading")
    ∷ (14, codes "Caution Area: Water skiing")
    ∷ (15, codes "Caution Area: Tugs ops")
    ∷ (16, codes "Caution Area: Ferry crossing")
    ∷ (17, codes "Weather")
    ∷ (18, codes "Traffic restriction: Congestion")
    ∷ (19, codes "Traffic restriction: Limited")
    ∷ (20, codes "Anchorage")
    ∷ (21, codes "Work in progress")
    ∷ (22, codes "Object, non-default shape")
    ∷ (23, codes "Festivity/public event")
    ∷ (24, codes "Tidal window (IALA A)")
    ∷ (25, codes "Tidal window (IALA B)")
    ∷ (26, codes "Navigational hazard")
    ∷ (27, codes "Vessel aground")
    ∷ (28, codes "Vessel in distress")
    ∷ (29, codes "Medical emergency")
    ∷ (30, codes "Wreck")
    ∷ (31, codes "Drifting mine")
    ∷ (32, codes "Military exercise")
    ∷ (33, codes "Law enforcement")
    ∷ (34, codes "Cableway/pipeline")
    ∷ (35, codes "Seismic survey")
    ∷ (36, codes "Hydrographic survey")
    ∷ (37, codes "VTS in operation")
    ∷ (57, codes "Report from ship")
    ∷ (58, codes "Whale strike info")
    ∷ (59, codes "Vessel towing")
    ∷ (60, codes "Volcanic activity")
    ∷ (61, codes "Rescue/salvage ops")
    ∷ (62, codes "Research vessel")
    ∷ (63, codes "Minelaying ops")
    ∷ (64, codes "Entry prohibited - national reason")
    ∷ (99, codes "Cancel notice")
    ∷ [])

unfoldable pub decode_fi13 : List ℕ → ℕ → ℕ → ℕ → Emitted
decode_fi13 d app_off mmsi msg_type =
    let reason = ais_str d app_off 20 in
    let from = concat (
      codes "day"
      ∷ padded 2 (ais_u d (app_off + 120) 5)
      ∷ codes " "
      ∷ padded 2 (ais_u d (app_off + 125) 5)
      ∷ codes ":"
      ∷ padded 2 (ais_u d (app_off + 130) 6)
      ∷ []) in
    let to = concat (
      codes "day"
      ∷ padded 2 (ais_u d (app_off + 136) 5)
      ∷ codes " "
      ∷ padded 2 (ais_u d (app_off + 141) 5)
      ∷ codes ":"
      ∷ padded 2 (ais_u d (app_off + 146) 6)
      ∷ []) in
    asm_emission (codes "AIS_ASM_FAIRWAY_CLOSED") msg_type mmsi
      ((codes "mmsi", decimal mmsi)
        ∷ (codes "reason", reason)
        ∷ (codes "from", from)
        ∷ (codes "to", to)
        ∷ [])
      (concat (
        codes "Fairway Closed MMSI:"
        ∷ decimal mmsi
        ∷ codes " Reason:"
        ∷ reason
        ∷ codes " From:"
        ∷ from
        ∷ codes " To:"
        ∷ to
        ∷ []))

unfoldable pub decode_fi16 : List ℕ → ℕ → ℕ → ℕ → Emitted
decode_fi16 d app_off mmsi msg_type =
    let persons = or_na (ais_u d app_off 13 == 8191) (decimal (ais_u d app_off 13)) in
    asm_emission (codes "AIS_ASM_PERSONS_ON_BOARD") msg_type mmsi
      ((codes "mmsi", decimal mmsi) ∷ (codes "persons", persons) ∷ [])
      (concat (codes "Persons on Board MMSI:" ∷ decimal mmsi ∷ codes " Count:" ∷ persons ∷ []))

-- The bits of the application data end with the message.
unfoldable pub decode_fi17 : List ℕ → ℕ → ℕ → ℕ → Emitted
decode_fi17 d app_off mmsi msg_type =
    let link_id = ais_u d app_off 10 in
    let app_bits = (length d - app_off / 8) * 8 - app_off % 8 in
    let text = ais_str d (app_off + 10) (chars_left (app_bits - 10)) in
    asm_emission (codes "AIS_ASM_VTS_TEXT") msg_type mmsi
      ((codes "mmsi", decimal mmsi)
        ∷ (codes "link_id", decimal link_id)
        ∷ (codes "text", text)
        ∷ [])
      (concat (
        codes "VTS Text MMSI:"
        ∷ decimal mmsi
        ∷ codes " ["
        ∷ decimal link_id
        ∷ codes "] "
        ∷ text
        ∷ []))

unfoldable pub decode_fi22 : List ℕ → ℕ → ℕ → ℕ → Emitted
decode_fi22 d app_off mmsi msg_type =
    let link_id = ais_u d app_off 10 in
    let notice_t = ais_u d (app_off + 10) 7 in
    let utc = concat (
      codes "M"
      ∷ padded 2 (ais_u d (app_off + 17) 4)
      ∷ codes " D"
      ∷ padded 2 (ais_u d (app_off + 21) 5)
      ∷ codes " "
      ∷ padded 2 (ais_u d (app_off + 26) 5)
      ∷ codes ":"
      ∷ padded 2 (ais_u d (app_off + 31) 6)
      ∷ []) in
    let duration = ais_u d (app_off + 37) 18 in
    asm_emission (codes "AIS_ASM_AREA_NOTICE") msg_type mmsi
      ((codes "mmsi", decimal mmsi)
        ∷ (codes "link_id", decimal link_id)
        ∷ (codes "notice_type", decimal notice_t)
        ∷ (codes "notice_name", notice_type_name notice_t)
        ∷ (codes "utc", utc)
        ∷ (codes "duration_min", decimal duration)
        ∷ [])
      (concat (
        codes "Area Notice MMSI:"
        ∷ decimal mmsi
        ∷ codes " ["
        ∷ decimal link_id
        ∷ codes "] "
        ∷ notice_type_name notice_t
        ∷ codes " UTC:"
        ∷ utc
        ∷ codes " Dur:"
        ∷ decimal duration
        ∷ codes "min"
        ∷ []))

abbrev pub rep_names : List Bytes
rep_names =
    codes "Spare"
    ∷ codes "Location"
    ∷ codes "Station ID"
    ∷ codes "Weather"
    ∷ codes "Air gap/draught"
    ∷ codes "Water level"
    ∷ codes "Current flow 2D"
    ∷ codes "Current flow 3D"
    ∷ codes "Horizontal flow"
    ∷ codes "Sea state"
    ∷ codes "Salinity"
    ∷ codes "Weather detail"
    ∷ codes "Air gap/draught"
    ∷ codes "Reserved"
    ∷ codes "Reserved"
    ∷ codes "Reserved"
    ∷ []

unfoldable pub decode_fi26 : List ℕ → ℕ → ℕ → ℕ → Emitted
decode_fi26 d app_off mmsi msg_type =
    let report_t = ais_u d app_off 4 in
    let report_name = name_at rep_names report_t in
    asm_emission (codes "AIS_ASM_ENVIRONMENTAL") msg_type mmsi
      ((codes "mmsi", decimal mmsi)
        ∷ (codes "report_type", decimal report_t)
        ∷ (codes "report_name", report_name)
        ∷ [])
      (concat (
        codes "Environmental MMSI:"
        ∷ decimal mmsi
        ∷ codes " Report:"
        ∷ decimal report_t
        ∷ codes "("
        ∷ report_name
        ∷ codes ")"
        ∷ []))
