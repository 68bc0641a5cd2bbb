-- ===== src/Audio/Queue.antt =====
-- The ring of backend/src/audio_ring_buffer.cpp as the queue of the samples that it holds.
use multi_radio.Common.{
  ℕ, zero, suc, ◌+◌, ◌-◌, ◌%◌, ◌^◌, ◌≤◌, ◌<◌, min, ◌≡◌, refl, sym, ap, ◌∙◌, ◌≢◌, List, [], ◌∷◌,
  ◌++◌, append-nil, arith, length, get_or, set, take, get_or-set_self, get_or-set_ne, inl, inr,
  append_assoc, leb, tests, Bool-cases,
}
use native.Mathlib.Nat.{mod-add-mod, mod-eq_of_lt, mod-eq-sub-mod, add-zero}
use native.Mathlib.Decide.{dec_lt}
use multi_radio.Audio.Ring.{RingBuffer, size_t, put, write_loop}
use multi_radio.Audio.Invariant.{Shape, put-Shape}

-- The `n` samples from position `pos` on, round the end of the buffer.
abbrev pub held : List ℕ → ℕ → ℕ → ℕ → List ℕ
held buf cap pos zero = []
held buf cap pos (suc n) = get_or buf pos 0 ∷ held buf cap ((pos + 1) % cap) n

-- The samples in the ring, oldest first.
abbrev pub contents : RingBuffer → List ℕ
contents r = held r.buffer r.capacity r.read_pos r.fill_count

length-held : (buf : List ℕ) (cap pos n : ℕ) → length (held buf cap pos n) ≡ n
length-held buf cap pos zero = refl
length-held buf cap pos (suc n) = ap suc (length-held buf cap ((pos + 1) % cap) n)

pub length-contents : (r : RingBuffer) → length (contents r) ≡ r.fill_count
length-contents r = length-held r.buffer r.capacity r.read_pos r.fill_count

held-pos :
    (buf : List ℕ) (cap pos n : ℕ)
    → 0 < n
    → held buf cap pos n ≡ get_or buf pos 0 ∷ held buf cap ((pos + 1) % cap) (n - 1)
held-pos buf cap pos zero h = absurd (omega arith)
held-pos buf cap pos (suc n) h = ap (λ k. held buf cap pos (suc k)) (omega arith)

-- Fewer than `cap` further positions do not lead back to the first.
around-ne : (cap pos k : ℕ) → pos < cap → suc k < cap → (pos + suc k) % cap ≢ pos
around-ne cap pos k hp hk = elim (dec_lt (pos + suc k) cap) [
  | yes p ↦ omega (arith, mod-eq_of_lt p)
  | no p ↦ omega (
    arith,
    mod-eq-sub-mod {n = pos + suc k} {m = cap} (omega arith),
    mod-eq_of_lt {n = pos + suc k - cap} {m = cap} (omega arith),
  )
]

-- A write at the position behind the held samples appends to them.
held-set :
    (buf : List ℕ) (cap x n pos i : ℕ)
    → cap ≤ length buf
    → pos < cap
    → n < cap
    → i ≡ (pos + n) % cap
    → held (set buf i x) cap pos (suc n) ≡ held buf cap pos n ++ (x ∷ [])
held-set buf cap x zero pos i hs hp hn e =
    let i_pos : i ≡ pos = e ∙ ap (λ k. k % cap) (add-zero pos) ∙ mod-eq_of_lt hp in
    rw i_pos (ap (λ y. y ∷ []) (get_or-set_self buf pos x 0 (omega arith)))
held-set buf cap x (suc n) pos i hs hp hn e =
    let apart : i ≢ pos = rw e (around-ne cap pos n hp hn) in
    let shift : i ≡ ((pos + 1) % cap + n) % cap =
      e ∙ ap (λ k. k % cap) (omega arith) ∙ sym (mod-add-mod (pos + 1) cap n) in
    let later = held-set buf cap x n ((pos + 1) % cap) i hs (omega arith) (omega arith) shift in
    cc (get_or-set_ne buf {i = i} {j = pos} x 0 apart, later)

pub contents-put :
    (r : RingBuffer) (x : ℕ)
    → Shape r
    → r.fill_count < r.capacity
    → contents (put r x) ≡ contents r ++ (x ∷ [])
unfolding put
contents-put r x v h =
    let next : size_t (r.fill_count + 1) ≡ suc r.fill_count =
      mod-eq_of_lt {n = r.fill_count + 1} {m = 2 ^ 64} (omega arith) ∙ omega arith in
    rw next (
      held-set r.buffer r.capacity x r.fill_count r.read_pos r.write_pos (omega arith) (omega arith)
        h v.write_at)

-- What the loop of `Write` leaves, started at `r` with `w` samples written.
pub record Wrote (r : RingBuffer) (src : List ℕ) (w : ℕ) (out : ℕ × RingBuffer) : Type 0 where
  pub shape : Shape out.1
  pub count : out.0 ≡ w + min (length src) (r.capacity - r.fill_count)
  pub samples : contents out.1 ≡ contents r ++ take (r.capacity - r.fill_count) src
  pub same_capacity : out.1.capacity ≡ r.capacity
  pub same_peak : out.1.peak_fill_level ≡ r.peak_fill_level

pub take-nil : (n : ℕ) → take {A = ℕ} n [] ≡ []
take-nil zero = refl
take-nil (suc n) = refl

take-pos : (n x : ℕ) (xs : List ℕ) → 0 < n → take n (x ∷ xs) ≡ x ∷ take (n - 1) xs
take-pos zero x xs h = absurd (omega arith)
take-pos (suc n) x xs h = ap (λ k. x ∷ take k xs) (omega arith)

put_fields :
    (r : RingBuffer) (x : ℕ)
    → Shape r
    → r.fill_count < r.capacity
    → ((put r x).capacity ≡ r.capacity)
      × ((put r x).fill_count ≡ r.fill_count + 1)
      × ((put r x).peak_fill_level ≡ r.peak_fill_level)
unfolding put
put_fields r x v h = (refl, mod-eq_of_lt {n = r.fill_count + 1} {m = 2 ^ 64} (omega arith), refl)

-- The loop goes on from `put r x`.
Wrote-put :
    (r : RingBuffer) (x : ℕ) (xs : List ℕ) (w : ℕ) (out : ℕ × RingBuffer)
    → Shape r
    → r.fill_count < r.capacity
    → Wrote (put r x) xs (w + 1) out
    → Wrote r (x ∷ xs) w out
Wrote-put r x xs w out v h d =
    let (cap, fill, peak) = put_fields r x v h in
    record {
      shape = d.shape;
      count = omega arith;
      samples = ground (
        arith,
        d.samples,
        contents-put r x v h,
        take-pos (r.capacity - r.fill_count) x xs,
        append_assoc (contents r) (x ∷ []) (take (r.capacity - r.fill_count - 1) xs),
      );
      same_capacity = d.same_capacity ∙ cap;
      same_peak = d.same_peak ∙ peak;
    }

Wrote-full :
    (r : RingBuffer) (src : List ℕ) (w : ℕ)
    → Shape r
    → r.capacity ≤ r.fill_count
    → Wrote r src w (w, r)
Wrote-full r src w v h =
    let none_left : r.capacity - r.fill_count ≡ 0 = omega arith in
    record {
      shape = v;
      count = omega arith;
      samples = rw none_left (sym (append-nil (contents r)));
      same_capacity = refl;
      same_peak = refl;
    }

pub write_loop-Wrote :
    (src : List ℕ) (r : RingBuffer) (w : ℕ) → Shape r → Wrote r src w (write_loop r src w)
unfolding write_loop
write_loop-Wrote [] r w v = record {
  shape = v;
  count = omega arith;
  samples = rw (take-nil, append-nil);
  same_capacity = refl;
  same_peak = refl;
}
write_loop-Wrote (x ∷ xs) r w v = elim (Bool-cases (leb r.capacity r.fill_count)) [
  | inl full ↦ rw full (Wrote-full r (x ∷ xs) w v (omega tests))
  | inr room ↦
      let h : r.fill_count < r.capacity = ground arith in
      rw room (Wrote-put r x xs w _ v h (write_loop-Wrote xs (put r x) (w + 1) (put-Shape r x v h)))
]
