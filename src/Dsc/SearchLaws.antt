-- ===== src/Dsc/SearchLaws.antt =====
-- What the search of plugins/dsc_decoder.c finds.
use multi_radio.Common.{
  ℕ, zero, suc, ◌≤◌, ◌<◌, ◌≡◌, refl, sym, subst, ◌⊎◌, inl, inr, Bool, ◌&&◌, ◌||◌, List, arith, ltb,
  ◌==◌, ==_iff, Bool-cases,
}
use multi_radio.Dsc.Search.{
  Best, words_at, words_eval, count_valid, try_offset, search_below, search_offset,
}

-- The words that are looked at from an offset, and the valid ones among them.
abbrev pub total_at : ℕ → ℕ → ℕ
total_at bit_count off = words_eval (words_at bit_count off)

abbrev pub valid_at : List Bool → ℕ → ℕ → ℕ
valid_at bits bit_count off = count_valid bits (total_at bit_count off) off

-- More valid words, or as many and no fewer words.
abbrev pub IsNoWorse : Best → ℕ → ℕ → Type 0
IsNoWorse best valid total =
    (valid < best.best_valid) ⊎ ((valid ≡ best.best_valid) × (total ≤ best.best_total))

-- The counts are those of the offset.
abbrev pub IsFound : List Bool → ℕ → ℕ → Best → Type 0
IsFound bits bit_count n best =
    (best.best_off < n)
    × (best.best_total ≡ total_at bit_count best.best_off)
    × (best.best_valid ≡ valid_at bits bit_count best.best_off)

total_at-none : (bit_count off : ℕ) → words_at bit_count off ≡ 0 → total_at bit_count off ≡ 0
total_at-none bit_count off e = ground (arith, e)

IsNoWorse-trans :
    (a b : Best) (valid total : ℕ)
    → IsNoWorse b a.best_valid a.best_total
    → IsNoWorse a valid total
    → IsNoWorse b valid total
IsNoWorse-trans a b valid total h k = ground (arith, h, k)

try_offset-better :
    (bits : List Bool) (bit_count off : ℕ) (best : Best)
    → IsNoWorse (try_offset bits bit_count off best) best.best_valid best.best_total
unfolding try_offset
try_offset-better bits bit_count off best = ground arith

try_offset-tried :
    (bits : List Bool) (bit_count off : ℕ) (best : Best)
    → IsNoWorse
        (try_offset bits bit_count off best)
        (valid_at bits bit_count off)
        (total_at bit_count off)
unfolding try_offset count_valid
try_offset-tried bits bit_count off best = elim (Bool-cases (words_at bit_count off == 0)) [
  | inl e ↦ rw ((==_iff (words_at bit_count off) 0).0 e) (ground arith)
  | inr e ↦ ground (arith, e)
]

search_below-IsNoWorse :
    (bits : List Bool) (bit_count n off : ℕ)
    → off < n
    → IsNoWorse
        (search_below bits bit_count n)
        (valid_at bits bit_count off)
        (total_at bit_count off)
unfolding search_below
search_below-IsNoWorse bits bit_count zero off h = absurd (omega (arith, h))
search_below-IsNoWorse bits bit_count (suc n) off h = elim (Bool-cases (off == n)) [
  | inl e ↦
      subst
        (λ k.
          IsNoWorse (search_below bits bit_count (suc n)) (valid_at bits bit_count k)
            (total_at bit_count k))
        (sym ((==_iff off n).0 e))
        (try_offset-tried bits bit_count n (search_below bits bit_count n))
  | inr e ↦
      IsNoWorse-trans (search_below bits bit_count n) (search_below bits bit_count (suc n)) _ _
        (try_offset-better bits bit_count n (search_below bits bit_count n))
        (search_below-IsNoWorse bits bit_count n off (ground (arith, e, h)))
]

try_offset-first :
    (bits : List Bool) (bit_count : ℕ)
    → 10 ≤ bit_count
    → try_offset bits bit_count 0 (record { best_off = 0; best_valid = 0; best_total = 0 })
      ≡ record {
        best_off = 0;
        best_valid = valid_at bits bit_count 0;
        best_total = total_at bit_count 0;
      }
unfolding try_offset words_at
try_offset-first bits bit_count h = ground (arith, h)

try_offset-IsFound :
    (bits : List Bool) (bit_count off : ℕ) (best : Best)
    → IsFound bits bit_count off best
    → IsFound bits bit_count (suc off) (try_offset bits bit_count off best)
unfolding try_offset
try_offset-IsFound bits bit_count off best (below, total, valid) =
    elim (Bool-cases (words_at bit_count off == 0)) [
      | inl e ↦ rw (e) (omega (arith, below), total, valid)
      | inr e ↦
          elim (Bool-cases (
            ltb best.best_valid (valid_at bits bit_count off)
            || (valid_at bits bit_count off == best.best_valid
                && ltb best.best_total (total_at bit_count off)))) [
                  | inl k ↦ rw (e, k) (omega arith, refl, refl)
                  | inr k ↦ rw (e, k) (omega (arith, below), total, valid)
                ]
    ]

search_below-IsFound :
    (bits : List Bool) (bit_count n : ℕ)
    → 10 ≤ bit_count
    → IsFound bits bit_count (suc n) (search_below bits bit_count (suc n))
unfolding search_below
search_below-IsFound bits bit_count zero h =
    subst (IsFound bits bit_count 1) (sym (try_offset-first bits bit_count h))
      (omega arith, refl, refl)
search_below-IsFound bits bit_count (suc n) h =
    try_offset-IsFound bits bit_count (suc n) (search_below bits bit_count (suc n))
      (search_below-IsFound bits bit_count n h)

-- With ten bits or more the search gives one of the ten offsets with its words, 256 at most, and
-- the valid ones among them, and no offset has more valid words, nor as many and more words.
pub search_offset-IsBest :
    (bits : List Bool) (bit_count : ℕ)
    → 10 ≤ bit_count
    → IsFound bits bit_count 10 (search_offset bits bit_count)
      × ((off : ℕ)
          → off < 10
          → IsNoWorse
              (search_offset bits bit_count)
              (valid_at bits bit_count off)
              (total_at bit_count off))
unfolding search_offset
search_offset-IsBest bits bit_count h =
    (search_below-IsFound bits bit_count 9 h, search_below-IsNoWorse bits bit_count 10)
