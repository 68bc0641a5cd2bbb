-- ===== src/Audio/Refine.antt =====
-- Each method of backend/src/audio_ring_buffer.cpp refines the call of the bounded queue.
use native.Mathlib.Nat.{mod-add-mod}
use multi_radio.Audio.Copy.{held-take, Copied, read_loop-Copied, held-drop}
use multi_radio.Common.{
  ℕ, ◌-◌, min, ◌≡◌, List, ◌++◌, length, take, ◌%◌, ◌≤◌, refl, sym, ◌∙◌, Option, none, some, [], ◌∷◌,
  arith, ap, Bool, append-nil, if◌then◌else◌, drop, zero, suc, ◌+◌, inl, inr, true, false, ltb,
  Bool-cases, same, ◌==◌,
}
use multi_radio.Audio.Ring.{
  RingBuffer, write_loop, raise_peak, write, clear, drain, read, size_t, read_loop, note_underrun,
}
use multi_radio.Audio.Invariant.{IsValid, Shape}
use multi_radio.Audio.Queue.{contents, Wrote, write_loop-Wrote, take-nil, length-contents}
use multi_radio.Audio.Fifo.{offered}

-- What one call on the ring leaves, beside what a call of the queue leaves.
pub record Refines (r : RingBuffer) (spec : List ℕ) (r' : RingBuffer) : Type 0 where
  pub valid : IsValid r'
  pub queue : contents r' ≡ spec
  pub same_capacity : r'.capacity ≡ r.capacity

Wrote-Refines :
    (r : RingBuffer) (src : List ℕ) (out : ℕ × RingBuffer)
    → IsValid r
    → Wrote r src 0 out
    → Refines r (contents r ++ take (r.capacity - r.fill_count) src) (raise_peak out).1
Wrote-Refines r src out v d = record {
  valid = record {
    shape = record {
      sized = d.shape.sized;
      small = d.shape.small;
      read_in = d.shape.read_in;
      fill_in = d.shape.fill_in;
      write_at = d.shape.write_at;
    };
    peak_over = omega arith;
    peak_in = omega (arith, d.same_peak, d.same_capacity, d.shape.fill_in, v.peak_in);
  };
  queue = d.samples;
  same_capacity = d.same_capacity;
}

Refines-refl : (r : RingBuffer) → IsValid r → Refines r (contents r) r
Refines-refl r v = record { valid = v; queue = refl; same_capacity = refl }

Refines-same :
    (r : RingBuffer) → IsValid r → Refines r (contents r ++ take (r.capacity - r.fill_count) []) r
Refines-same r v = record {
  valid = v;
  queue =
      sym (ap (◌++◌ (contents r)) (take-nil (r.capacity - r.fill_count)) ∙ append-nil (contents r));
  same_capacity = refl;
}

-- `Write` takes as many samples as fit, appends exactly those in order, and keeps the invariant.
pub write-Refines :
    (r : RingBuffer) (src : Option (List ℕ))
    → IsValid r
    → ((write r src).0 ≡ min (length (offered src)) (r.capacity - r.fill_count))
      × Refines r (contents r ++ take (r.capacity - r.fill_count) (offered src)) (write r src).1
unfolding write
write-Refines r none v = (omega arith, Refines-same r v)
write-Refines r (some []) v = (omega arith, Refines-same r v)
write-Refines r (some (x ∷ xs)) v =
    let d = write_loop-Wrote (x ∷ xs) r 0 v.shape in
    (d.count ∙ omega arith, Wrote-Refines r (x ∷ xs) (write_loop r (x ∷ xs) 0) v d)

home : (p c : ℕ) → p ≤ c - 1 → p % c ≡ p
home p c h = grind arith

note_cases {ℓ} :
    (P : RingBuffer → Type ℓ) (r : RingBuffer) (n : ℕ)
    → P r
    → ((u : ℕ) → P (record r { underrun_events = u }))
    → P (note_underrun r n)
unfolding note_underrun
note_cases P r n same noted = elim (Bool-cases (ltb r.fill_count n)) [
  | inl e ↦ rw e (noted (size_t (r.underrun_events + 1)))
  | inr e ↦ rw e same
]

Copied-noted :
    (r : RingBuffer) (k u : ℕ) (out : List ℕ × RingBuffer)
    → Copied (record r { underrun_events = u }) k out
    → Copied r k out
Copied-noted r k u out d = record {
  samples = d.samples;
  same_buffer = d.same_buffer;
  same_capacity = d.same_capacity;
  position = d.position;
  same_write_pos = d.same_write_pos;
  same_fill = d.same_fill;
  same_peak = d.same_peak;
}

-- The loop of `Read` over a valid ring, whether or not the call counts as an underrun.
loop-Copied :
    (r : RingBuffer) (n k : ℕ)
    → Shape r
    → k ≤ r.fill_count
    → Copied r k (read_loop k (note_underrun r n))
loop-Copied r n k v h =
    let start : r.read_pos % r.capacity ≡ r.read_pos = home r.read_pos r.capacity v.read_in in
    note_cases (λ r'. Copied r k (read_loop k r')) r n
      (read_loop-Copied k r v.small (omega arith) start (omega arith))
      (λ u. Copied-noted r k u _ (
        read_loop-Copied k (record r { underrun_events = u }) v.small (omega arith) start
          (omega arith)))

take-min : (n : ℕ) (xs : List ℕ) → take (min n (length xs)) xs ≡ take n xs
take-min zero xs = let e : min 0 (length xs) ≡ 0 = omega arith in rw e
take-min (suc n) [] = let e : min (suc n) 0 ≡ 0 = omega arith in rw e
take-min (suc n) (x ∷ xs) =
    let e : min (suc n) (suc (length xs)) ≡ suc (min n (length xs)) = omega arith in
    rw e (ap (λ ys. x ∷ ys) (take-min n xs))

drop-min : (n : ℕ) (xs : List ℕ) → drop (min n (length xs)) xs ≡ drop n xs
drop-min zero xs = let e : min 0 (length xs) ≡ 0 = omega arith in rw e
drop-min (suc n) [] = let e : min (suc n) 0 ≡ 0 = omega arith in rw e
drop-min (suc n) (x ∷ xs) =
    let e : min (suc n) (suc (length xs)) ≡ suc (min n (length xs)) = omega arith in
    rw e (drop-min n xs)

-- What is left of the ring when `fill_count` is lowered by the samples copied out.
Copied-Refines :
    (r : RingBuffer) (k : ℕ) (out : List ℕ × RingBuffer)
    → IsValid r
    → k ≤ r.fill_count
    → Copied r k out
    → (out.0 ≡ take k (contents r))
      × Refines r (drop k (contents r)) (record out.1 { fill_count = out.1.fill_count - k })
Copied-Refines r k out v h d =
    let start : r.read_pos % r.capacity ≡ r.read_pos = home r.read_pos r.capacity v.shape.read_in in
    (
      d.samples ∙ sym (held-take r.buffer r.capacity k r.fill_count r.read_pos h),
      record {
        valid = record {
          shape = record {
            sized = ap length d.same_buffer ∙ v.shape.sized ∙ sym d.same_capacity;
            small = omega (arith, d.same_capacity, v.shape.small);
            read_in = omega (arith, d.position, d.same_capacity, v.shape.read_in, v.shape.fill_in);
            fill_in = omega (arith, d.same_fill, d.same_capacity, v.shape.fill_in);
            write_at =
                d.same_write_pos
                ∙ v.shape.write_at
                ∙ sym (
                    rw (d.position, d.same_fill, d.same_capacity)
                      (mod-add-mod (r.read_pos + k) r.capacity (r.fill_count - k)
                        ∙ ap (λ i. i % r.capacity) (omega arith)));
          };
          peak_over = omega (arith, d.same_peak, d.same_fill, v.peak_over);
          peak_in = omega (arith, d.same_peak, d.same_capacity, v.peak_in);
        };
        queue =
            rw (d.same_buffer, d.same_capacity, d.position, d.same_fill)
              (sym (held-drop r.buffer r.capacity k r.fill_count r.read_pos h start));
        same_capacity = d.same_capacity;
      },
    )

-- What `Read` does past its early return.
drain-Refines :
    (r : RingBuffer) (n : ℕ)
    → IsValid r
    → ((drain r n).0 ≡ take n (contents r)) × Refines r (drop n (contents r)) (drain r n).1
unfolding drain
drain-Refines r n v =
    let k = min n r.fill_count in
    let e : min n (length (contents r)) ≡ k = ap (min n) (length-contents r) in
    let taken : take k (contents r) ≡ take n (contents r) =
      ap (λ i. take i (contents r)) (sym e) ∙ take-min n (contents r) in
    let dropped : drop k (contents r) ≡ drop n (contents r) =
      ap (λ i. drop i (contents r)) (sym e) ∙ drop-min n (contents r) in
    rw (← taken, ← dropped)
      (Copied-Refines r k (read_loop k (note_underrun r n)) v (omega arith)
        (loop-Copied r n k v.shape (omega arith)))

-- `Read` copies out the oldest samples, as many as are asked for or held, and leaves the others.
pub read-Refines :
    (r : RingBuffer) (null : Bool) (n : ℕ)
    → IsValid r
    → let left = if null then 0 else n in
      ((read r null n).0 ≡ take left (contents r))
      × Refines r (drop left (contents r)) (read r null n).1
unfolding read
read-Refines r true n v = (refl, Refines-refl r v)
read-Refines r false zero v = (refl, Refines-refl r v)
read-Refines r false (suc n) v =
    let asked : (suc n == 0) ≡ false = ground arith in rw asked (drain-Refines r (suc n) v)

-- `Clear` on a valid ring leaves the empty contents, the invariant and the capacity.
pub clear-Refines : (r : RingBuffer) → IsValid r → Refines r [] (clear r)
unfolding clear
clear-Refines r v = record {
  valid = record {
    shape = record {
      sized = v.shape.sized;
      small = v.shape.small;
      read_in = omega arith;
      fill_in = omega arith;
      write_at = sym (home 0 r.capacity (omega arith));
    };
    peak_over = omega arith;
    peak_in = v.peak_in;
  };
  queue = refl;
  same_capacity = refl;
}
