-- ===== src/Audio/Invariant.antt =====
-- The representation invariant of the ring in backend/src/audio_ring_buffer.cpp.
use multi_radio.Common.{
  ℕ, ◌+◌, ◌-◌, ◌%◌, ◌^◌, ◌≤◌, ◌<◌, ◌≡◌, ◌∙◌, ap, arith, length, length-set, length-replicate,
}
use native.Mathlib.Nat.{mod-add-mod, mod-eq_of_lt}
use multi_radio.Audio.Ring.{RingBuffer, size_t, make, put, get}

-- The positions lie in the buffer, and the write position is `fill_count` past the read position.
pub record Shape (r : RingBuffer) : Type 0 where
  pub sized : length r.buffer ≡ r.capacity
  pub small : r.capacity < 2 ^ 63
  pub read_in : r.read_pos ≤ r.capacity - 1
  pub fill_in : r.fill_count ≤ r.capacity
  pub write_at : r.write_pos ≡ (r.read_pos + r.fill_count) % r.capacity

-- The whole invariant: the peak lies between the fill level and the capacity.
pub record IsValid (r : RingBuffer) : Type 0 where
  pub shape : Shape r
  pub peak_over : r.fill_count ≤ r.peak_fill_level
  pub peak_in : r.peak_fill_level ≤ r.capacity

pub make-Shape : (n : ℕ) → n < 2 ^ 63 → Shape (make n)
unfolding make
make-Shape n h = record {
  sized = length-replicate n 0;
  small = h;
  read_in = omega arith;
  fill_in = omega arith;
  write_at = grind arith;
}

-- A `size_t` step round the ring, as a step of the position that `fill` samples end at.
put-mod :
    (w r f c : ℕ)
    → w ≡ (r + f) % c
    → f < c
    → c < 2 ^ 63
    → size_t (w + 1) % c ≡ (r + size_t (f + 1)) % c
put-mod w r f c e h s =
    rw
      (
        mod-eq_of_lt {n = w + 1} {m = 2 ^ 64} (omega arith),
        mod-eq_of_lt {n = f + 1} {m = 2 ^ 64} (omega arith),
        e,
      )
      (mod-add-mod (r + f) c 1 ∙ ap (λ k. k % c) (omega arith))

get-mod :
    (w r f c : ℕ)
    → w ≡ (r + f) % c
    → 0 < f
    → r < c
    → c < 2 ^ 63
    → w ≡ (size_t (r + 1) % c + (f - 1)) % c
get-mod w r f c e p h s =
    rw (mod-eq_of_lt {n = r + 1} {m = 2 ^ 64} (omega arith), mod-add-mod (r + 1) c (f - 1))
      (e ∙ ap (λ k. k % c) (omega arith))

pub put-Shape : (r : RingBuffer) (x : ℕ) → Shape r → r.fill_count < r.capacity → Shape (put r x)
unfolding put
put-Shape r x v h = record {
  sized = length-set r.buffer r.write_pos x ∙ v.sized;
  small = v.small;
  read_in = v.read_in;
  fill_in = omega arith;
  write_at = put-mod r.write_pos r.read_pos r.fill_count r.capacity v.write_at h v.small;
}

pub get-Shape :
    (r : RingBuffer)
    → Shape r
    → 0 < r.fill_count
    → Shape (record (get r).1 { fill_count = r.fill_count - 1 })
unfolding get
get-Shape r v h = record {
  sized = v.sized;
  small = v.small;
  read_in = omega arith;
  fill_in = omega arith;
  write_at =
      get-mod r.write_pos r.read_pos r.fill_count r.capacity v.write_at h (omega arith) v.small;
}
