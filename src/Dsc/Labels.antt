-- ===== src/Dsc/Labels.antt =====
-- The tables of labels of plugins/dsc_decoder.c.
use multi_radio.Common.{ℕ, sym, List, [], ◌∷◌, ◌==◌, if◌then◌else◌, Bytes, codes}

-- A `switch` over numbers that returns texts, with its default.
unfoldable pub label_in : List (ℕ × Bytes) → ℕ → Bytes
label_in [] sym = codes "unknown"
label_in ((n, label) ∷ table) sym =
    let rest = label_in table sym in if sym == n then label else rest

abbrev pub format_label : ℕ → Bytes
unfolding label_in
format_label = label_in (
    (112, codes "distress")
    ∷ (116, codes "all_ships")
    ∷ (120, codes "individual")
    ∷ (114, codes "group_common_interest")
    ∷ (102, codes "group_geographic")
    ∷ (123, codes "semi_auto_auto_service")
    ∷ [])

abbrev pub category_label : ℕ → Bytes
unfolding label_in
category_label = label_in (
    (112, codes "distress")
    ∷ (110, codes "urgency")
    ∷ (108, codes "safety")
    ∷ (106, codes "ship_business")
    ∷ (100, codes "routine")
    ∷ [])

abbrev pub eos_label : ℕ → Bytes
unfolding label_in
eos_label =
    label_in ((117, codes "ack_request") ∷ (122, codes "ack") ∷ (127, codes "end_of_sequence") ∷ [])

abbrev pub distress_nature_label : ℕ → Bytes
unfolding label_in
distress_nature_label = label_in (
    (100, codes "fire_explosion")
    ∷ (101, codes "flooding")
    ∷ (102, codes "collision")
    ∷ (103, codes "grounding")
    ∷ (104, codes "listing_capsize_risk")
    ∷ (105, codes "sinking")
    ∷ (106, codes "disabled_adrift")
    ∷ (107, codes "undesignated")
    ∷ (108, codes "abandoning_ship")
    ∷ (109, codes "piracy_armed_robbery")
    ∷ (110, codes "man_overboard")
    ∷ (112, codes "epirb_emission")
    ∷ [])

abbrev pub telecommand1_label : ℕ → Bytes
unfolding label_in
telecommand1_label = label_in (
    (100, codes "f3e_g3e_all_modes_tp")
    ∷ (101, codes "f3e_g3e_duplex_tp")
    ∷ (102, codes "polling")
    ∷ (104, codes "unable_to_comply")
    ∷ (105, codes "end_of_call")
    ∷ (106, codes "data")
    ∷ (109, codes "j3e_tp")
    ∷ (110, codes "distress_ack")
    ∷ (112, codes "distress_relay")
    ∷ (113, codes "f1b_j2b_tty_fec")
    ∷ (115, codes "f1b_j2b_tty_arq")
    ∷ (118, codes "test")
    ∷ (121, codes "ship_position_update")
    ∷ (126, codes "no_information")
    ∷ [])
