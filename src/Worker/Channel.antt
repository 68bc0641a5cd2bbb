-- ===== src/Worker/Channel.antt =====
-- `SelectRuntimeChannel` of backend/src/receiver_worker.cpp. The default index -1 of a
-- channel is `none`.
use multi_radio.Common.{
  ℕ, zero, suc, ◌+◌, ◌-◌, ◌/◌, ◌%◌, ◌<◌, min, ◌≡◌, true, not, ◌&&◌, Option, none, some, List, [],
  ◌∷◌, ◌++◌, arith, ltb, if◌then◌else◌, length, is_empty, get_elem?, Bytes, codes, refl, inl, inr,
  false, Bool-cases, and_true, get_elem?-some,
}
use multi_radio.Types.Data.{
  Int32, nonneg, neg, RadioMode, Modulation, wfm, ScanListChannel, ModeConfig, scan_range,
}
use multi_radio.Types.Double.{Doubles}
use multi_radio.Worker.Config.{is_scanner, is_scan_range}

-- The digits of `std::to_string` on an unsigned number, on fuel; a number has fewer digits than it
-- has units, or one.
unfoldable pub digits_of : ℕ → ℕ → Bytes
digits_of zero n = []
digits_of (suc fuel) n =
    let rest = digits_of fuel (n / 10) in
    if ltb n 10 then (48 + n) ∷ [] else rest ++ ((48 + n % 10) ∷ [])

unfoldable pub to_decimal : ℕ → Bytes
unfolding digits_of
to_decimal n = digits_of (suc n) n

pub record RuntimeChannel (D : Type 0) : Type 0 where
  pub index : Option ℕ
  pub label : Bytes
  pub frequency_hz : D
  pub modulation : Modulation
  pub squelch_threshold_db : D
  pub dwell_ms : ℕ
  pub channel_bandwidth_hz : ℕ

not_empty-pos {ℓ} : {A : Type ℓ} (xs : List A) → not (is_empty xs) ≡ true → 0 < length xs
not_empty-pos [] h = cc
not_empty-pos (x ∷ xs) h = omega arith

scan_range-no_scanner : (mode : RadioMode) → is_scan_range mode ≡ true → is_scanner mode ≡ false
scan_range-no_scanner scan_range h = refl
scan_range-no_scanner _ h = cc

abbrev pub first_or : {A : Type 0} → A → List A → A
first_or d [] = d
first_or d (x ∷ xs) = x

module _ {D : Type 0} (f : Doubles D) where
  abbrev pub default_channel : RuntimeChannel D
  default_channel = record {
    index = none;
    label = codes "default";
    frequency_hz = f.literal (codes "0.0");
    modulation = wfm;
    squelch_threshold_db = f.literal (codes "-67.5");
    dwell_ms = 0;
    channel_bandwidth_hz = 0;
  }

  unfoldable pub squelch_of : ModeConfig D → ScanListChannel D → D
  squelch_of config ch =
      if ch.use_default_squelch
      then config.scan_list_default_squelch_db
      else ch.squelch_threshold_db

  -- The channel of a scan list at an index within the list.
  unfoldable pub listed_channel : ModeConfig D → ℕ → ScanListChannel D → RuntimeChannel D
  listed_channel config idx ch = record {
    index = some idx;
    label = if is_empty ch.label then codes "ch" ++ to_decimal idx else ch.label;
    frequency_hz = ch.frequency_hz;
    modulation = ch.modulation;
    squelch_threshold_db = squelch_of config ch;
    dwell_ms = if ltb 0 ch.dwell_ms then ch.dwell_ms else config.dwell_ms;
    channel_bandwidth_hz =
        if ltb 0 ch.channel_bandwidth_hz
        then ch.channel_bandwidth_hz
        else config.channel_bandwidth_hz;
  }

  unfoldable pub range_channel : ModeConfig D → ℕ → D → RuntimeChannel D
  range_channel config idx frequency = record default_channel {
    index = some idx;
    frequency_hz = frequency;
    label = codes "range-" ++ to_decimal idx;
    modulation = config.fixed_modulation;
    channel_bandwidth_hz = config.channel_bandwidth_hz;
    dwell_ms = config.dwell_ms;
  }

  unfoldable pub fixed_channel : ModeConfig D → RuntimeChannel D
  fixed_channel config = record default_channel {
    frequency_hz =
        if f.le config.fixed_frequency_hz (f.literal (codes "0.0"))
        then first_or config.fixed_frequency_hz config.frequency_list_hz
        else config.fixed_frequency_hz;
    modulation = config.fixed_modulation;
    channel_bandwidth_hz = config.channel_bandwidth_hz;
  }

  -- `std::clamp(idx, 0, n - 1)`.
  abbrev pub clamp_index : Int32 → ℕ → ℕ
  clamp_index (nonneg idx) n = min idx (n - 1)
  clamp_index (neg idx) n = 0

  -- `none` is a read past the end of a list.
  unfoldable pub select_runtime_channel :
      RadioMode → ModeConfig D → Int32 → Option (RuntimeChannel D)
  select_runtime_channel mode config channel_idx =
      let channels = config.scan_list_channels in
      let frequencies = config.frequency_list_hz in
      let idx = clamp_index channel_idx (length channels) in
      let fdx = clamp_index channel_idx (length frequencies) in
      if is_scanner mode && not (is_empty channels)
      then elim (get_elem? channels idx) [
        | none ↦ none
        | some ch ↦ some (listed_channel config idx ch)
      ]
      else if is_scan_range mode && not (is_empty frequencies)
      then elim (get_elem? frequencies fdx) [
        | none ↦ none
        | some x ↦ some (range_channel config fdx x)
      ]
      else some (fixed_channel config)

  clamp_index-lt : (idx : Int32) (n : ℕ) → 0 < n → clamp_index idx n < n
  clamp_index-lt (nonneg idx) n h = omega (arith, h)
  clamp_index-lt (neg idx) n h = h

  clamp_index-within :
      {A : Type 0}
      → (idx : Int32) (xs : List A) → not (is_empty xs) ≡ true
      → clamp_index idx (length xs) < length xs
  clamp_index-within idx xs some_there =
      clamp_index-lt idx (length xs) (not_empty-pos xs some_there)

  -- Whatever the index, a negative one included, no list is read past its end, and an index in the
  -- channel selected lies within the list that the mode scans.
  pub select_in_range :
      (mode : RadioMode) (config : ModeConfig D) (channel_idx : Int32)
      → (ch : RuntimeChannel D) × (select_runtime_channel mode config channel_idx ≡ some ch)
        × ((i : ℕ)
            → ch.index ≡ some i
            → i < (
                if is_scanner mode
                then length config.scan_list_channels
                else length config.frequency_list_hz))
  unfolding select_runtime_channel listed_channel range_channel fixed_channel
  select_in_range mode config channel_idx =
      let channels = config.scan_list_channels in
      let frequencies = config.frequency_list_hz in
      let idx = clamp_index channel_idx (length channels) in
      let fdx = clamp_index channel_idx (length frequencies) in
      elim (Bool-cases (is_scanner mode && not (is_empty channels))) [
        | inl listed ↦
            let (scanner, some_channel) =
              and_true (is_scanner mode) (not (is_empty channels)) listed in
            let (x, e) =
              get_elem?-some channels idx (clamp_index-within channel_idx channels some_channel) in
            (
              listed_channel config idx x,
              rw (listed, e),
              λ i h.
                  rw scanner
                    (ground (arith, h, clamp_index-within channel_idx channels some_channel)),
            )
        | inr unlisted ↦ elim (Bool-cases (is_scan_range mode && not (is_empty frequencies))) [
          | inl ranged ↦
              let (range, some_frequency) =
                and_true (is_scan_range mode) (not (is_empty frequencies)) ranged in
              let (x, e) =
                get_elem?-some frequencies fdx
                  (clamp_index-within channel_idx frequencies some_frequency) in
              (
                range_channel config fdx x,
                rw (unlisted, ranged, e),
                λ i h.
                    rw (scan_range-no_scanner mode range) (
                      ground (arith, h, clamp_index-within channel_idx frequencies some_frequency)),
              )
          | inr neither ↦ (fixed_channel config, rw (unlisted, neither), λ i h. cc)
        ]
      ]
