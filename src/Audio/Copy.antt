-- ===== src/Audio/Copy.antt =====
-- The loop of `Read` in backend/src/audio_ring_buffer.cpp copies out the oldest samples.
use multi_radio.Common.{
  ℕ, zero, suc, ◌+◌, ◌-◌, ◌%◌, ◌^◌, ◌≤◌, ◌<◌, ◌≡◌, refl, sym, ap, ◌∙◌, List, ◌∷◌, arith, get_or,
  take, drop,
}
use native.Mathlib.Nat.{mod-mod, mod-lt, mod-add-mod, mod-eq_of_lt, add-zero}
use multi_radio.Audio.Ring.{RingBuffer, size_t, get, read_loop}
use multi_radio.Audio.Queue.{held}

-- The held samples split after any number of them.
pub held-take :
    (buf : List ℕ) (cap : ℕ) (k n pos : ℕ)
    → k ≤ n
    → take k (held buf cap pos n) ≡ held buf cap pos k
held-take buf cap zero n pos h = refl
held-take buf cap (suc k) zero pos h = absurd (omega arith)
held-take buf cap (suc k) (suc n) pos h =
    ap (λ xs. get_or buf pos 0 ∷ xs) (held-take buf cap k n ((pos + 1) % cap) (omega arith))

pub held-drop :
    (buf : List ℕ) (cap : ℕ) (k n pos : ℕ)
    → k ≤ n
    → pos % cap ≡ pos
    → drop k (held buf cap pos n) ≡ held buf cap ((pos + k) % cap) (n - k)
held-drop buf cap zero n pos h e =
    let start : (pos + 0) % cap ≡ pos = ap (λ i. i % cap) (add-zero pos) ∙ e in
    let whole : n - 0 ≡ n = omega arith in rw (start, whole)
held-drop buf cap (suc k) zero pos h e = absurd (omega arith)
held-drop buf cap (suc k) (suc n) pos h e =
    let start : ((pos + 1) % cap + k) % cap ≡ (pos + suc k) % cap =
      mod-add-mod (pos + 1) cap k ∙ ap (λ i. i % cap) (omega arith) in
    let left : suc n - suc k ≡ n - k = omega arith in
    rw (← start, left)
      (held-drop buf cap k n ((pos + 1) % cap) (omega arith) (mod-mod (pos + 1) cap))

-- What `k` rounds of the loop of `Read` copy out and change; `fill_count` is still the old one.
pub record Copied (r : RingBuffer) (k : ℕ) (out : List ℕ × RingBuffer) : Type 0 where
  pub samples : out.0 ≡ held r.buffer r.capacity r.read_pos k
  pub same_buffer : out.1.buffer ≡ r.buffer
  pub same_capacity : out.1.capacity ≡ r.capacity
  pub position : out.1.read_pos ≡ (r.read_pos + k) % r.capacity
  pub same_write_pos : out.1.write_pos ≡ r.write_pos
  pub same_fill : out.1.fill_count ≡ r.fill_count
  pub same_peak : out.1.peak_fill_level ≡ r.peak_fill_level

Copied-get :
    (r : RingBuffer) (k : ℕ) (out : List ℕ × RingBuffer)
    → size_t (r.read_pos + 1) ≡ r.read_pos + 1
    → Copied (get r).1 k out
    → Copied r (suc k) ((get r).0 ∷ out.0, out.1)
unfolding get
Copied-get r k out e d =
    let start : (size_t (r.read_pos + 1) % r.capacity + k) % r.capacity
        ≡ (r.read_pos + suc k) % r.capacity =
      rw e (mod-add-mod (r.read_pos + 1) r.capacity k ∙ ap (λ i. i % r.capacity) (omega arith)) in
    record {
      samples =
          ap (λ xs. get_or r.buffer r.read_pos 0 ∷ xs)
            (d.samples ∙ ap (λ i. held r.buffer r.capacity (i % r.capacity) k) e);
      same_buffer = d.same_buffer;
      same_capacity = d.same_capacity;
      position = d.position ∙ start;
      same_write_pos = d.same_write_pos;
      same_fill = d.same_fill;
      same_peak = d.same_peak;
    }

get_fields :
    (r : RingBuffer)
    → 0 < r.capacity
    → ((get r).1.capacity ≡ r.capacity)
      × ((get r).1.read_pos < r.capacity)
      × ((get r).1.read_pos % r.capacity ≡ (get r).1.read_pos)
unfolding get
get_fields r c =
    (refl, mod-lt (size_t (r.read_pos + 1)) c, mod-mod (size_t (r.read_pos + 1)) r.capacity)

pub read_loop-Copied :
    (k : ℕ) (r : RingBuffer)
    → r.capacity < 2 ^ 63
    → r.read_pos < 2 ^ 63
    → r.read_pos % r.capacity ≡ r.read_pos
    → k ≤ r.capacity
    → Copied r k (read_loop k r)
unfolding read_loop
read_loop-Copied zero r s p e c = record {
  samples = refl;
  same_buffer = refl;
  same_capacity = refl;
  position = sym (ap (λ i. i % r.capacity) (add-zero r.read_pos) ∙ e);
  same_write_pos = refl;
  same_fill = refl;
  same_peak = refl;
}
read_loop-Copied (suc k) r s p e c =
    let (cap, below, home) = get_fields r (omega arith) in
    Copied-get r k (read_loop k (get r).1)
      (mod-eq_of_lt {n = r.read_pos + 1} {m = 2 ^ 64} (omega arith))
      (read_loop-Copied k (get r).1 (omega arith) (omega arith) (rw cap home) (omega arith))
